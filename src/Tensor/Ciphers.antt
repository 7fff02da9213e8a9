-- ===== src/Tensor/Ciphers.antt =====
-- include/x86_64/cpu_cryptosystem_tensor_ops.inl, as it is built without ADD_RANDOMNESS_IN_HOMOMORPHIC_OPERATIONS.
-- What BICYCL and the functions on single values do is an argument. The loops that run in parallel write
-- different objects, and run one round after another here.
pub mod Elementwise
pub mod Products
use co_fhe.Base.{
  ℕ, zero, suc, ◌+◌, ◌*◌, ◌/◌, ◌%◌, ltb, ◌==◌, Bool, true, false, ◌&&◌, ◌||◌, if◌then◌else◌, Option,
  none, some, List, [], ◌∷◌, length, get_elem?, take,
}
use co_fhe.Bicycl.{Mpz, ClassGroup}
use co_fhe.Sharing.Decrypt.{CipherText}
use co_fhe.Wire.Outcome.{
  Outcome, returned, thrown, undefined, ◌>>=◌, shapes_not_equal, not_implemented,
  too_many_dimensions, vector_sizes_not_equal,
}
use co_fhe.Tensor.Accessor.{Accessor, num_elements, num_elements_from}
use co_fhe.Tensor.Class.{Tensor, of_value, filled, shape, ndim, get_value, flatten}
use co_fhe.Tensor.Nupow.{qfi_nupow}
use co_fhe.Tensor.Loops.{pointed, object, fill_from, fill}

-- a tensor of pointers to objects of a type
abbrev pub Pointers {ℓ} : Type ℓ → Type ℓ
Pointers A = Tensor (Option A)

abbrev pub shapes_equal : List ℕ → List ℕ → Bool
shapes_equal [] [] = true
shapes_equal (n ∷ s) (m ∷ t) = n == m && shapes_equal s t
shapes_equal _ _ = false

abbrev pub dimension : List ℕ → ℕ → Outcome ℕ
dimension s i = elim (get_elem? s i) [ none ↦ undefined | some n ↦ returned n ]

abbrev pub elements {ℓ} : {A : Type ℓ} → Tensor A → ℕ
elements t = num_elements t.accessor.shape

module _ {ℓ κ} {A : Type ℓ} {B : Type κ} where
  -- a new object for each element of the flattened tensor, in the shape of the tensor
  unfoldable pub each : (A → Outcome B) → Pointers A → Outcome (Pointers B)
  unfolding shape flatten fill object num_elements_from
  each make t = do
    s ← shape t
    flat ← flatten t 0
    fill s (elements t) (λ i. object flat.accessor i >>= make)

  -- The same, where the elements are taken from the tensor itself.
  unfoldable pub each_unflattened : (A → Outcome B) → Pointers A → Outcome (Pointers B)
  unfolding shape fill object num_elements_from
  each_unflattened make t = do s ← shape t; fill s (elements t) (λ i. object t.accessor i >>= make)

-- encrypt_tensor: one pair of powers, `c1` and `pkr`, serves all elements.
unfoldable pub encrypt_tensor :
    {P C G : Type 0} → (P → G → G → C) → G → G → Pointers P → Outcome (Pointers C)
unfolding each
encrypt_tensor seal c1 pkr pt = each (λ p. returned (seal p c1 pkr)) pt

unfoldable pub decrypt_tensor : {P C : Type 0} → (C → P) → Pointers C → Outcome (Pointers P)
unfolding each
decrypt_tensor decrypt ct = each (λ c. returned (decrypt c)) ct

unfoldable pub part_decrypt_tensor : {C D : Type 0} → (C → D) → Pointers C → Outcome (Pointers D)
unfolding each
part_decrypt_tensor part_decrypt ct = each (λ c. returned (part_decrypt c)) ct

unfoldable pub negate_plaintext_tensor : {P : Type 0} → (P → P) → Pointers P → Outcome (Pointers P)
unfolding each_unflattened
negate_plaintext_tensor negate s = each_unflattened (λ p. returned (negate p)) s

module _ {D : Type 0} where
  abbrev pub flattened : List (Pointers D) → Outcome (List (Pointers D))
  flattened [] = returned []
  flattened (t ∷ ts) = do flat ← flatten t 0; flats ← flattened ts; returned (flat ∷ flats)

  -- the results of all parties at an index
  abbrev pub objects : List (Pointers D) → ℕ → Outcome (List D)
  objects [] i = returned []
  objects (t ∷ ts) i = do x ← object t.accessor i; xs ← objects ts i; returned (x ∷ xs)

module _ {C D P : Type 0} where
  -- combine_part_decryption_results_tensor
  unfoldable pub combine_tensor :
      (C → List D → Outcome P) → Pointers C → List (Pointers D) → Outcome (Pointers P)
  unfolding shape flatten fill object num_elements_from
  combine_tensor combine ct [] = undefined
  combine_tensor combine ct (pdr ∷ pdrs) = do
    s ← shape pdr
    flat ← flatten ct 0
    flats ← flattened (pdr ∷ pdrs)
    fill s (elements ct)
        (λ i. object flat.accessor i >>= λ c. objects flats i >>= λ ds. combine c ds)

module _ {A B C : Type 0} where
  -- two tensors of a single value
  unfoldable pub both_values : (A → B → C) → Pointers A → Pointers B → Outcome (Pointers C)
  unfolding of_value get_value
  both_values op t u = do
    x ← get_value t >>= pointed
    y ← get_value u >>= pointed
    returned (of_value (some (op x y)))

  -- objects of both at an index
  abbrev pub both_at : (A → B → C) → Accessor (Option A) → Accessor (Option B) → ℕ → Outcome C
  both_at op a b i = do x ← object a i; y ← object b i; returned (op x y)

-- What add_plaintext_tensors and multiply_plaintext_tensors share: they differ in the operation on the
-- elements.
unfoldable pub plaintext_tensors :
    {P : Type 0} → (P → P → P) → Pointers P → Pointers P → Outcome (Pointers P)
unfolding shape fill object num_elements_from both_values
plaintext_tensors op pt1 pt2 =
    if pt1.is_zero_degree && pt2.is_zero_degree then both_values op pt1 pt2 else (do
      s1 ← shape pt1
      s2 ← shape pt2
      if shapes_equal s1 s2
          then (if ndim pt1 == 1
              then fill s1 (elements pt1) (both_at op pt1.accessor pt2.accessor)
              else thrown not_implemented)
          else thrown shapes_not_equal)

abbrev pub add_plaintext_tensors :
    {P : Type 0} → (P → P → P) → Pointers P → Pointers P → Outcome (Pointers P)
add_plaintext_tensors add_plaintexts = plaintext_tensors add_plaintexts

abbrev pub multiply_plaintext_tensors :
    {P : Type 0} → (P → P → P) → Pointers P → Pointers P → Outcome (Pointers P)
multiply_plaintext_tensors multiply_plaintexts = plaintext_tensors multiply_plaintexts

abbrev pub power_at {ℓ} : {A : Type ℓ} → List A → ℕ → Outcome A
power_at xs i = elim (get_elem? xs i) [ none ↦ undefined | some x ↦ returned x ]

-- what a loop makes for each of the indices from one on
abbrev pub collect_up {ℓ} : {A : Type ℓ} → (ℕ → Outcome A) → ℕ → ℕ → Outcome (List A)
collect_up make i zero = returned []
collect_up make i (suc count) = do
  a ← make i
  rest ← collect_up make (suc i) count
  returned (a ∷ rest)

-- the elements from an index on, up to a number of them
abbrev pub slice {ℓ} : {A : Type ℓ} → List A → ℕ → ℕ → List A
slice xs zero count = take count xs
slice [] (suc start) count = []
slice (x ∷ xs) (suc start) count = slice xs start count

module _ {Z G : Type 0} {z : Mpz Z} (cl : ClassGroup z G) where
  abbrev pub compose : CipherText G → CipherText G → CipherText G
  compose c d = record { c1 = cl.nucomp c.c1 d.c1; c2 = cl.nucomp c.c2 d.c2 }

  abbrev pub power : Z → CipherText G → CipherText G
  power s c = record { c1 = cl.nupow c.c1 s; c2 = cl.nupow c.c2 s }

  -- negate_ciphertext_tensor, where `s` is the plaintext of -1
  unfoldable pub negate_ciphertext_tensor :
      Z → Pointers (CipherText G) → Outcome (Pointers (CipherText G))
  unfolding each
  negate_ciphertext_tensor s ct = each (λ c. returned (power s c)) ct

  -- add_ciphertext_tensors, where `add` is add_ciphertexts, for single values
  unfoldable pub add_ciphertext_tensors :
      (CipherText G → CipherText G → CipherText G)
      → Pointers (CipherText G)
      → Pointers (CipherText G)
      → Outcome (Pointers (CipherText G))
  unfolding shape flatten fill object num_elements_from both_values
  add_ciphertext_tensors add ct1 ct2 =
      if ct1.is_zero_degree && ct2.is_zero_degree then both_values add ct1 ct2 else (do
        s1 ← shape ct1
        s2 ← shape ct2
        if shapes_equal s1 s2
            then (do
              flat1 ← flatten ct1 0
              flat2 ← flatten ct2 0
              fill s1 (elements flat1) (both_at compose flat1.accessor flat2.accessor))
            else thrown shapes_not_equal)

  -- the powers of `c1` and of `c2` of a ciphertext for each exponent in a row of the plaintexts
  abbrev pub powers_of : CipherText G → List Z → Outcome (List G × List G)
  powers_of c exponents = do
    c1s ← qfi_nupow cl c.c1 exponents
    c2s ← qfi_nupow cl c.c2 exponents
    returned (c1s, c2s)

  -- one entry of a product of matrices: the powers for a column, composed with what stands there
  abbrev pub entry :
      List (List G × List G) → ℕ → ℕ → ℕ → ℕ → ℕ → CipherText G → Outcome (CipherText G)
  entry powers m i k zero j acc = returned acc
  entry powers m i k (suc left) j acc = do
    row ← power_at powers (i * m + j)
    a ← power_at row.0 k
    b ← power_at row.1 k
    entry powers m i k left (suc j) (compose acc (record { c1 = a; c2 = b }))

  -- The product of the ciphertexts, `n` by `m`, with the scalars, `m` by `p`. The entry of row `i` and
  -- column `k` stands at i * p + k. The sizes are those of the shapes, and no other test is made.
  unfoldable pub scal_matrices :
      CipherText G → Pointers Z → Pointers (CipherText G) → Outcome (Pointers (CipherText G))
  unfolding shape flatten fill object qfi_nupow
  scal_matrices zero_text s cts = do
    flat_s ← flatten s 0
    flat_c ← flatten cts 0
    shape_c ← shape cts
    n ← dimension shape_c 0
    shape_s ← shape s
    p ← dimension shape_s 1
    m ← dimension shape_c 1
    s_vec ← collect_up (object flat_s.accessor) 0 (m * p)
    powers ←
        collect_up (λ q. object flat_c.accessor q >>= λ c. powers_of c (slice s_vec (q % m * p) p))
          0 (n * m)
    fill (n ∷ p ∷ []) (n * p) (λ q. entry powers m (q / p) (q % p) m 0 zero_text)

  -- scal_ciphertext_tensors, where `scal` is scal_ciphertext, for single values, and `zero_text` the
  -- ciphertext of 0 that is made for matrices
  unfoldable pub scal_ciphertext_tensors :
      (Z → CipherText G → CipherText G)
      → CipherText G
      → Pointers Z
      → Pointers (CipherText G)
      → Outcome (Pointers (CipherText G))
  unfolding shape fill object both_values scal_matrices
  scal_ciphertext_tensors scal zero_text s cts =
      if ltb 2 (ndim s) || ltb 2 (ndim cts)
      then thrown too_many_dimensions
      else if s.is_zero_degree && cts.is_zero_degree
      then both_values scal s cts
      else if ndim s == 1 && ndim cts == 1
      then (do
        shape_s ← shape s
        shape_c ← shape cts
        n ← dimension shape_s 0
        m ← dimension shape_c 0
        if n == m
            then fill shape_c m (both_at power s.accessor cts.accessor)
            else thrown vector_sizes_not_equal)
      else scal_matrices zero_text s cts
