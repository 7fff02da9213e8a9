-- ===== src/Tensor/Ciphers/Elementwise.antt =====
-- The operations on tensors do to each element what the operations on single values do.
use co_fhe.Base.{
  ℕ, ◌^◌, ◌<◌, ◌≡◌, refl, sym, ap, ap₂, ◌∙◌, ◌≢◌, inl, inr, Bool-cases, arith, true, false, ◌&&◌,
  if◌then◌else◌, Option, some, List, [], ◌∷◌, map, length, length-map,
}
use co_fhe.Bicycl.{Mpz, ClassGroup}
use co_fhe.Sharing.Decrypt.{CipherText}
use co_fhe.Wire.Outcome.{Outcome, returned, thrown, ◌>>=◌, shapes_not_equal}
use co_fhe.Wire.Headed.RoundTrip.{beq_refl}
use co_fhe.Tensor.Accessor.{num_elements, whole}
use co_fhe.Tensor.Class.{Tensor, flatten}
use co_fhe.Tensor.Dense.{cells, dense, flatten-dense, num_elements-cells}
use co_fhe.Tensor.Loops.{object, fill}
use co_fhe.Tensor.Loops.Filled.{
  fill-dense, Makes-object, Makes-map, zip_with, length-zip_with, Makes-zip_with,
}
use co_fhe.Tensor.Ciphers.{
  Pointers, shapes_equal, elements, each, encrypt_tensor, decrypt_tensor, both_at,
  plaintext_tensors, compose, add_ciphertext_tensors,
}

-- A tensor of pointers to these objects, in row-major order.
abbrev pub full {ℓ} : {A : Type ℓ} → List ℕ → List A → Pointers A
full s xs = dense s (map some xs)

module _ {ℓ κ} {A : Type ℓ} {B : Type κ} (s : List ℕ) (xs : List A) (long : length xs ≡ cells s)
    (small : cells s < 2 ^ 31) where
  pub each-full :
      (g : A → B) → each (λ x. returned (g x)) (full s xs) ≡ returned (full s (map g xs))
  unfolding each
  each-full g =
      let make : Tensor (Option A) → ℕ → Outcome B =
        λ flat i. object flat.accessor i >>= λ x. returned (g x) in
      ap (λ m. m >>= λ flat. fill s (num_elements s) (make flat))
        (flatten-dense s (map some xs) (omega arith))
      ∙ ap (λ n. fill s n (make (dense (cells s ∷ []) (map some xs))))
          (num_elements-cells s (omega arith))
      ∙ fill-dense s (make (dense (cells s ∷ []) (map some xs))) (map g xs)
          (Makes-map (object (whole (cells s ∷ []) (map some xs))) g 0 xs
            (Makes-object (cells s) xs (sym long) (omega arith)))
          (length-map xs g ∙ long) small

shapes_equal_refl : (s : List ℕ) → shapes_equal s s ≡ true
shapes_equal_refl [] = refl
shapes_equal_refl (n ∷ s) = ap (λ b. b && shapes_equal s s) (beq_refl n) ∙ shapes_equal_refl s

shapes_equal-eq : (s t : List ℕ) → shapes_equal s t ≡ true → s ≡ t
shapes_equal-eq [] [] h = refl
shapes_equal-eq [] (m ∷ t) h = cc
shapes_equal-eq (n ∷ s) [] h = cc
shapes_equal-eq (n ∷ s) (m ∷ t) h = ground (arith, shapes_equal-eq s t)

pub shapes_equal-ne : (s t : List ℕ) → s ≢ t → shapes_equal s t ≡ false
shapes_equal-ne s t h = elim (Bool-cases (shapes_equal s t)) [
  | inl same ↦ absurd (h (shapes_equal-eq s t same))
  | inr other ↦ other
]

module _ {A B : Type 0} (back : B → A) (there : A → B) where
  -- what is there is brought back
  abbrev pub AllBack : List A → Type 0
  AllBack [] = Unit {0}
  AllBack (x ∷ xs) = (back (there x) ≡ x) × AllBack xs

  map-AllBack : (xs : List A) → AllBack xs → map back (map there xs) ≡ xs
  map-AllBack [] h = refl
  map-AllBack (x ∷ xs) (h, hs) = ap₂ ◌∷◌ h (map-AllBack xs hs)

module _ {P C G : Type 0} (seal : P → G → G → C) (decrypt : C → P) (c1 pkr : G) where
  -- A tensor of fewer than 2^31 plaintexts, each of which decryption of a single value gets back from
  -- its encryption with the given powers, is encrypted, and decrypted to the same tensor.
  pub decrypt_tensor-encrypt_tensor :
      (s : List ℕ) (ps : List P)
      → length ps ≡ cells s
      → cells s < 2 ^ 31
      → AllBack decrypt (λ p. seal p c1 pkr) ps
      → (encrypt_tensor seal c1 pkr (full s ps) >>= decrypt_tensor decrypt) ≡ returned (full s ps)
  unfolding encrypt_tensor decrypt_tensor
  decrypt_tensor-encrypt_tensor s ps long small back =
      let cs : List C = map (λ p. seal p c1 pkr) ps in
      ap (λ m. m >>= each (λ c. returned (decrypt c)))
        (each-full s ps long small (λ p. seal p c1 pkr))
      ∙ each-full s cs (length-map ps (λ p. seal p c1 pkr) ∙ long) small decrypt
      ∙ ap (λ l. returned (full s l)) (map-AllBack decrypt (λ p. seal p c1 pkr) ps back)

module _ {A B C : Type 0} (op : A → B → C) (s : List ℕ) (xs : List A) (ys : List B)
    (long_x : length xs ≡ cells s) (long_y : length ys ≡ cells s) (small : cells s < 2 ^ 31) where
  -- The loop over two vectors of pointers.
  pub fill-both :
      fill s
        (cells s)
        (both_at op (whole (cells s ∷ []) (map some xs)) (whole (cells s ∷ []) (map some ys)))
      ≡ returned (full s (zip_with op xs ys))
  fill-both =
      let f : ℕ → Outcome A = object (whole (cells s ∷ []) (map some xs)) in
      let h : ℕ → Outcome B = object (whole (cells s ∷ []) (map some ys)) in
      fill-dense s (λ i. f i >>= λ x. h i >>= λ y. returned (op x y)) (zip_with op xs ys)
        (Makes-zip_with f h op 0 xs ys (Makes-object (cells s) xs (sym long_x) (omega arith))
          (Makes-object (cells s) ys (sym long_y) (omega arith)))
        (length-zip_with op xs ys (long_x ∙ sym long_y) ∙ long_x) small

module _ {Z G : Type 0} {z : Mpz Z} (cl : ClassGroup z G)
    (add : CipherText G → CipherText G → CipherText G) where
  -- Two tensors of ciphertexts of one shape, with fewer than 2^31 elements, are added element by element.
  pub add_ciphertext_tensors-full :
      (s : List ℕ) (cs ds : List (CipherText G))
      → length cs ≡ cells s
      → length ds ≡ cells s
      → cells s < 2 ^ 31
      → add_ciphertext_tensors cl add (full s cs) (full s ds)
        ≡ returned (full s (zip_with (compose cl) cs ds))
  unfolding add_ciphertext_tensors
  add_ciphertext_tensors-full s cs ds long_c long_d small =
      let n : ℕ = cells s in
      let column : cells (n ∷ []) ≡ n = omega arith in
      let loop : Pointers (CipherText G)
          → Pointers (CipherText G)
          → Outcome (Pointers (CipherText G)) =
        λ flat1 flat2.
          fill s (elements flat1) (both_at (compose cl) flat1.accessor flat2.accessor) in
      ap
        (λ b.
          if b
          then (flatten (full s cs) 0 >>= λ flat1. flatten (full s ds) 0 >>= loop flat1)
          else thrown shapes_not_equal)
        (shapes_equal_refl s)
      ∙ ap (λ m. m >>= λ flat1. flatten (full s ds) 0 >>= loop flat1)
          (flatten-dense s (map some cs) (omega arith))
      ∙ ap (λ m. m >>= loop (full (n ∷ []) cs)) (flatten-dense s (map some ds) (omega arith))
      ∙ ap
          (λ k.
            fill s k
              (both_at (compose cl) (whole (n ∷ []) (map some cs)) (whole (n ∷ []) (map some ds))))
          (num_elements-cells (n ∷ []) (omega arith) ∙ column)
      ∙ fill-both (compose cl) s cs ds long_c long_d small

  -- Tensors of different shapes are not added.
  pub add_ciphertext_tensors-shapes :
      (s t : List ℕ) (cs ds : List (CipherText G))
      → s ≢ t
      → add_ciphertext_tensors cl add (full s cs) (full t ds) ≡ thrown shapes_not_equal
  unfolding add_ciphertext_tensors
  add_ciphertext_tensors-shapes s t cs ds other = rw (shapes_equal-ne s t other) refl

-- Two tensors of plaintexts that are vectors of one size.
pub plaintext_tensors-full :
    {P : Type 0} (op : P → P → P) (n : ℕ) (ps qs : List P)
    → length ps ≡ n
    → length qs ≡ n
    → n < 2 ^ 31
    → plaintext_tensors op (full (n ∷ []) ps) (full (n ∷ []) qs)
      ≡ returned (full (n ∷ []) (zip_with op ps qs))
unfolding plaintext_tensors
plaintext_tensors-full op n ps qs long_p long_q small =
    let column : cells (n ∷ []) ≡ n = omega arith in
    ap
      (λ b.
        if b
        then fill (n ∷ []) (num_elements (n ∷ []))
            (both_at op (whole (n ∷ []) (map some ps)) (whole (n ∷ []) (map some qs)))
        else thrown shapes_not_equal)
      (shapes_equal_refl (n ∷ []))
    ∙ ap
        (λ k.
          fill (n ∷ []) k
            (both_at op (whole (n ∷ []) (map some ps)) (whole (n ∷ []) (map some qs))))
        (num_elements-cells (n ∷ []) (omega arith))
    ∙ ap
        (λ k.
          fill (n ∷ []) (cells (n ∷ []))
            (both_at op (whole (k ∷ []) (map some ps)) (whole (k ∷ []) (map some qs))))
        (sym column)
    ∙ fill-both op (n ∷ []) ps qs (omega arith) (omega arith) (omega arith)
