-- ===== src/Smpc/Tensors/Rows.antt =====
-- The sums of products that make an entry of a product of matrices.
use co_fhe.Base.{
  ℕ, zero, suc, ◌+◌, ◌*◌, ◌^◌, ◌<◌, ◌≡◌, refl, sym, ap, ◌∙◌, arith, some, List, [], ◌∷◌, map,
  length, get_or,
}
use co_fhe.Bicycl.{Mpz, ClassGroup}
use co_fhe.Bicycl.Sums.{sum}
use co_fhe.Sharing.Decrypt.{CipherText}
use co_fhe.Wire.Outcome.{returned}
use co_fhe.Smpc.Multiply.{Encryption, Client}
use co_fhe.Smpc.Tensors.{Sealing, TensorClient, entry_sum}
use co_fhe.Smpc.Tensors.Elements.{ActsOnMessages}
use co_fhe.Tensor.Positions.{position-lt}
use co_fhe.Tensor.Accessor.{whole}
use co_fhe.Tensor.Loops.Tables.{object-get_or}
use co_fhe.Tensor.Ciphers.{compose}

module _ {Z G R : Type 0} {z : Mpz Z} (cl : ClassGroup z G) {r : Mpz R}
    (cs : Encryption r Z (CipherText G)) (sealing : Sealing Z G) (client : Client Z (CipherText G))
    (tensors : TensorClient Z G) where
  abbrev pub nought : CipherText G
  nought = cs.encrypt sealing.zero_plaintext

  -- What `entry_sum` comes to.
  pub row_sum : List (CipherText G) → ℕ → ℕ → ℕ → ℕ → ℕ → ℕ → CipherText G → CipherText G
  row_sum zs m p i k zero j acc = acc
  row_sum zs m p i k (suc left) j acc =
      row_sum zs m p i k left (suc j) (compose cl acc (get_or zs (i * m * p + j * p + k) nought))

  pub entry_sum-row_sum :
      (n m p i k : ℕ) (zs : List (CipherText G)) (left j : ℕ) (acc : CipherText G)
      → length zs ≡ n * m * p
      → n * m * p < 2 ^ 31
      → i < n
      → k < p
      → j + left ≡ m
      → entry_sum cl cs sealing client tensors
          (whole (n * m * p ∷ []) (map some zs))
          m
          p
          i
          k
          left
          j
          acc
        ≡ returned (row_sum zs m p i k left j acc)
  unfolding row_sum
  entry_sum-row_sum n m p i k zs zero j acc long small i_in k_in e = refl
  entry_sum-row_sum n m p i k zs (suc left) j acc long small i_in k_in e =
      rw
        (object-get_or (n * m * p) zs (i * m * p + j * p + k) nought (sym long)
          (position-lt m p i j k (omega arith) k_in n i_in) (omega arith))
        (entry_sum-row_sum n m p i k zs left (suc j)
          (compose cl acc (get_or zs (i * m * p + j * p + k) nought)) long small i_in k_in
          (omega arith))

  pub row_sum-message :
      (acts : ActsOnMessages cl cs sealing client) (zs : List (CipherText G)) (m p i k left j : ℕ)
      (acc : CipherText G)
      → cs.message acc ≡ sum r j (λ l. cs.message (get_or zs (i * m * p + l * p + k) nought))
      → cs.message (row_sum zs m p i k left j acc)
        ≡ sum r (j + left) (λ l. cs.message (get_or zs (i * m * p + l * p + k) nought))
  unfolding row_sum sum
  row_sum-message acts zs m p i k zero j acc h =
      h
      ∙ ap (λ c. sum r c (λ l. cs.message (get_or zs (i * m * p + l * p + k) nought))) (omega arith)
  row_sum-message acts zs m p i k (suc left) j acc h =
      row_sum-message acts zs m p i k left (suc j)
        (compose cl acc (get_or zs (i * m * p + j * p + k) nought))
        (acts.message-compose acc (get_or zs (i * m * p + j * p + k) nought)
          ∙ ap (λ v. r.add v (cs.message (get_or zs (i * m * p + j * p + k) nought))) h)
      ∙ ap (λ c. sum r c (λ l. cs.message (get_or zs (i * m * p + l * p + k) nought))) (omega arith)
