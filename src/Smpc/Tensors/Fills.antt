-- ===== src/Smpc/Tensors/Fills.antt =====
-- The loops over vectors in the multiplication of tensors.
use co_fhe.Base.{
  ℕ, suc, ◌+◌, ◌^◌, ◌<◌, ◌≡◌, sym, ap, ◌∙◌, arith, false, if◌then◌else◌, none, some, List, [], ◌∷◌,
  map, length, length-map, replicate,
}
use co_fhe.Bicycl.{Mpz, ClassGroup}
use co_fhe.Sharing.Decrypt.{CipherText}
use co_fhe.Wire.Outcome.{Outcome, returned, thrown, ◌>>=◌, vector_sizes_not_equal}
use co_fhe.Wire.Headed.RoundTrip.{beq_refl}
use co_fhe.Smpc.Tensors.{triplet_at, fill_in}
use co_fhe.Tensor.Accessor.{whole}
use co_fhe.Tensor.Dense.{cells, filled-dense}
use co_fhe.Tensor.Loops.{fill_from, fill}
use co_fhe.Tensor.Loops.Filled.{Makes, Makes-map, fill_from-nulls, zip_with}
use co_fhe.Tensor.Ciphers.{both_at, power, scal_ciphertext_tensors}
use co_fhe.Tensor.Ciphers.Elementwise.{full, fill-both}

module _ {ℓ} {A : Type ℓ} where
  pub fill_in-full :
      (n : ℕ) (make : ℕ → Outcome A) (xs : List A)
      → Makes make 0 xs
      → length xs ≡ n
      → n < 2 ^ 31
      → fill_in (n ∷ []) n make ≡ returned (full (n ∷ []) xs)
  unfolding fill_in
  fill_in-full n make xs makes long small =
      let column : cells (n ∷ []) ≡ n = omega arith in
      ap
        (λ m. m >>= λ res.
          fill_from make 0 n res.accessor >>= λ a. returned (record res { accessor = a }))
        (filled-dense (n ∷ []) none (omega arith))
      ∙ ap
          (λ k. fill_from make 0 n (whole (n ∷ []) (replicate k none)) >>= λ a.
            returned (record { accessor = a; is_zero_degree = false }))
          column
      ∙ ap (λ m. m >>= λ a. returned (record { accessor = a; is_zero_degree = false }))
          (fill_from-nulls make xs n makes long (omega arith))

  Makes-triplet_at :
      (make : ℕ → Outcome A) (i : ℕ) (us : List A)
      → ((j : ℕ) → make (i + j) ≡ triplet_at us j)
      → Makes make i us
  Makes-triplet_at make i [] h = tt
  Makes-triplet_at make i (x ∷ us) h = (
    ap make (omega arith) ∙ h 0,
    Makes-triplet_at make (suc i) us λ j. ap make (omega arith) ∙ h (suc j),
  )

module _ {ℓ κ} {A : Type ℓ} {B : Type κ} where
  pub triplets-full :
      (n : ℕ) (g : A → B) (ts : List A)
      → length ts ≡ n
      → n < 2 ^ 31
      → fill_in (n ∷ []) n (λ i. triplet_at ts i >>= λ t. returned (g t))
        ≡ returned (full (n ∷ []) (map g ts))
  triplets-full n g ts long small =
      fill_in-full n (λ i. triplet_at ts i >>= λ t. returned (g t)) (map g ts)
        (Makes-map (triplet_at ts) g 0 ts
          (Makes-triplet_at (triplet_at ts) 0 ts λ j. ap (triplet_at ts) (omega arith)))
        (length-map ts g ∙ long) small

module _ {Z G : Type 0} {z : Mpz Z} (cl : ClassGroup z G) (scal : Z → CipherText G → CipherText G)
    (zero_text : CipherText G) where
  -- Two vectors of one size: each ciphertext to the power of its scalar.
  pub scal_vectors :
      (n : ℕ) (ss : List Z) (ds : List (CipherText G))
      → length ss ≡ n
      → length ds ≡ n
      → n < 2 ^ 31
      → scal_ciphertext_tensors cl scal zero_text (full (n ∷ []) ss) (full (n ∷ []) ds)
        ≡ returned (full (n ∷ []) (zip_with (power cl) ss ds))
  unfolding scal_ciphertext_tensors
  scal_vectors n ss ds long_s long_d small =
      let column : cells (n ∷ []) ≡ n = omega arith in
      ap
        (λ b.
          if b
          then fill (n ∷ []) n
              (both_at (power cl) (whole (n ∷ []) (map some ss)) (whole (n ∷ []) (map some ds)))
          else thrown vector_sizes_not_equal)
        (beq_refl n)
      ∙ ap
          (λ k.
            fill (n ∷ []) k
              (both_at (power cl) (whole (k ∷ []) (map some ss)) (whole (k ∷ []) (map some ds))))
          (sym column)
      ∙ fill-both (power cl) (n ∷ []) ss ds (omega arith) (omega arith) (omega arith)
