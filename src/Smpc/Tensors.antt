-- ===== src/Smpc/Tensors.antt =====
-- SMPCCipherTextMultiplier of include/smpc/ciphertext_multiplications.hpp on tensors, with the CPU's
-- operations. The loops that run in parallel write different elements.

pub mod Fills
pub mod Elements
pub mod Vectors
pub mod Rows
pub mod Matrices
use co_fhe.Base.{
  ℕ, zero, suc, ◌+◌, ◌*◌, ◌/◌, ◌%◌, ◌^◌, ◌==◌, ◌&&◌, if◌then◌else◌, Option, none, some, List, [],
  ◌∷◌, get_elem?,
}
use co_fhe.Bicycl.{Mpz, ClassGroup}
use co_fhe.Sharing.Decrypt.{CipherText}
use co_fhe.Wire.Outcome.{Outcome, returned, thrown, undefined, ◌>>=◌, not_implemented}
use co_fhe.Smpc.Multiply.{Encryption, Triplet, Client, multiply_ciphertexts}
use co_fhe.Tensor.Accessor.{Accessor}
use co_fhe.Tensor.Class.{of_value, filled, shape, ndim, get_value, flatten, reshape_tensor}
use co_fhe.Tensor.Loops.{pointed, object, fill_from}
use co_fhe.Tensor.Ciphers.{
  Pointers, dimension, encrypt_tensor, multiply_plaintext_tensors, compose,
  negate_ciphertext_tensor, add_ciphertext_tensors, scal_ciphertext_tensors,
}

-- What encryption of a tensor uses: the ciphertext of a plaintext under a pair of powers, and these;
-- and the plaintexts of -1 and 0.
pub record Sealing (Z G : Type 0) : Type 0 where
  pub seal : Z → G → G → CipherText G
  pub c1 : G
  pub pkr : G
  pub minus_one : Z
  pub zero_plaintext : Z

-- What the multiplier uses of `SMPCClient` for tensors: both may throw.
pub record TensorClient (Z G : Type 0) : Type 0 where
  pub get_beavers_triplets : ℕ → Outcome (List (Triplet (CipherText G)))
  pub decrypt_tensor : Pointers (CipherText G) → Outcome (Pointers Z)

abbrev pub triplet_at {ℓ} : {A : Type ℓ} → List A → ℕ → Outcome A
triplet_at ts i = elim (get_elem? ts i) [ none ↦ undefined | some t ↦ returned t ]

-- A tensor of null pointers of which the first elements are written.
unfoldable pub fill_in {ℓ} : {A : Type ℓ} → List ℕ → ℕ → (ℕ → Outcome A) → Outcome (Pointers A)
unfolding filled fill_from
fill_in s n make = do
  res ← filled s none
  a ← fill_from make 0 n res.accessor
  returned (record res { accessor = a })

module _ {Z G R : Type 0} {z : Mpz Z} (cl : ClassGroup z G) {r : Mpz R}
    (cs : Encryption r Z (CipherText G)) (sealing : Sealing Z G) (client : Client Z (CipherText G))
    (tensors : TensorClient Z G) where
  abbrev scal : Pointers Z → Pointers (CipherText G) → Outcome (Pointers (CipherText G))
  scal = scal_ciphertext_tensors cl cs.scal_ciphertext (cs.encrypt sealing.zero_plaintext)

  abbrev add : Pointers (CipherText G) → Pointers (CipherText G) → Outcome (Pointers (CipherText G))
  add = add_ciphertext_tensors cl cs.add_ciphertexts

  -- what is computed of the triplets and the two decrypted differences
  unfoldable pub recombine_tensors :
      Pointers (CipherText G)
      → Pointers (CipherText G)
      → Pointers (CipherText G)
      → Pointers Z
      → Pointers Z
      → Outcome (Pointers (CipherText G))
  unfolding add_ciphertext_tensors encrypt_tensor scal_ciphertext_tensors
  recombine_tensors a b c pt1 pt2 = do
    pt1_pt2 ← multiply_plaintext_tensors cs.multiply_plaintexts pt1 pt2
    enc_pt1_pt2 ← encrypt_tensor sealing.seal sealing.c1 sealing.pkr pt1_pt2
    pt1_b ← scal pt1 b
    pt2_a ← scal pt2 a
    sum ← add pt1_b pt2_a
    sum_c ← add sum c
    add sum_c enc_pt1_pt2

  unfoldable pub handle_vector_ciphertext_mul :
      Pointers (CipherText G) → Pointers (CipherText G) → Outcome (Pointers (CipherText G))
  unfolding shape fill_in negate_ciphertext_tensor add_ciphertext_tensors recombine_tensors
  handle_vector_ciphertext_mul ct1 ct2 = do
    s ← shape ct1
    n ← dimension s 0
    triplets ← tensors.get_beavers_triplets n
    a ← fill_in s n (λ i. triplet_at triplets i >>= λ t. returned t.a)
    b ← fill_in s n (λ i. triplet_at triplets i >>= λ t. returned t.b)
    c ← fill_in s n (λ i. triplet_at triplets i >>= λ t. returned t.c)
    neg_a ← negate_ciphertext_tensor cl sealing.minus_one a
    neg_b ← negate_ciphertext_tensor cl sealing.minus_one b
    ct1_neg_a ← add ct1 neg_a
    ct2_neg_b ← add ct2 neg_b
    pt1 ← tensors.decrypt_tensor ct1_neg_a
    pt2 ← tensors.decrypt_tensor ct2_neg_b
    recombine_tensors a b c pt1 pt2

  -- The sum of a row and a column: `res_nmp.at(i*m*p + j*p + k)` for all j, composed with what stands
  -- there.
  abbrev pub entry_sum :
      Accessor (Option (CipherText G))
      → ℕ
      → ℕ
      → ℕ
      → ℕ
      → ℕ
      → ℕ
      → CipherText G
      → Outcome (CipherText G)
  entry_sum products m p i k zero j acc = returned acc
  entry_sum products m p i k (suc left) j acc = do
    x ← object products (i * m * p + j * p + k)
    entry_sum products m p i k left (suc j) (compose cl acc x)

  -- All products of an element of the first with one of the second: of row i, column j and column k
  -- they stand at i*m*p + j*p + k. The entries are sums of these.
  unfoldable pub multiply_matrices :
      Pointers (CipherText G) → Pointers (CipherText G) → Outcome (Pointers (CipherText G))
  unfolding shape flatten object handle_vector_ciphertext_mul fill_in reshape_tensor
  multiply_matrices ct1 ct2 = do
    s1 ← shape ct1
    s2 ← shape ct2
    n ← dimension s1 0
    m ← dimension s1 1
    p ← dimension s2 1
    flat1 ← flatten ct1 0
    flat2 ← flatten ct2 0
    let nmp = n * m * p % 2 ^ 64
    ct1_nmp ← fill_in (nmp ∷ []) nmp (λ q. object flat1.accessor (q / p))
    ct2_nmp ← fill_in (nmp ∷ []) nmp (λ q. object flat2.accessor (q / p % m * p + q % p))
    res_nmp ← handle_vector_ciphertext_mul ct1_nmp ct2_nmp
    res ← fill_in (n * p % 2 ^ 64 ∷ []) (n * p % 2 ^ 64) (λ q.
        entry_sum res_nmp.accessor m p (q / p) (q % p) m 0 (cs.encrypt sealing.zero_plaintext))
    reshape_tensor res (n ∷ p ∷ [])

  unfoldable pub multiply_ciphertext_tensors :
      Pointers (CipherText G) → Pointers (CipherText G) → Outcome (Pointers (CipherText G))
  unfolding get_value of_value multiply_ciphertexts handle_vector_ciphertext_mul multiply_matrices
  multiply_ciphertext_tensors ct1 ct2 =
      if ct1.is_zero_degree && ct2.is_zero_degree
      then (do
        x ← get_value ct1 >>= pointed
        y ← get_value ct2 >>= pointed
        c ← multiply_ciphertexts cs client x y
        returned (of_value (some c)))
      else if ndim ct1 == 1
      then handle_vector_ciphertext_mul ct1 ct2
      else if ndim ct1 == 2
      then multiply_matrices ct1 ct2
      else thrown not_implemented
