-- ===== src/Tensor/Loops/Filled.antt =====
-- What the loops make of the elements of dense tensors.
use co_fhe.Base.{
  ℕ, suc, ◌+◌, ◌^◌, ◌<◌, ◌≡◌, refl, sym, ap, ◌∙◌, arith, false, Option, none, some, List, [], ◌∷◌,
  ◌++◌, append_assoc, map, length, length-append, length-replicate, length-map, get_elem?, set,
  replicate, subst,
}
use co_fhe.Wire.Outcome.{Outcome, returned, ◌>>=◌}
use co_fhe.Tensor.Stride.{word}
use co_fhe.Tensor.Accessor.{whole, at, write}
use co_fhe.Tensor.Class.{Tensor, flatten, reshape_tensor}
use co_fhe.Tensor.Dense.{
  cells, dense, vector, write-vector, flatten-dense, reshape-dense, at-dense, filled-dense,
}
use co_fhe.Tensor.Loops.{object, pointed, fill_from, fill}

module _ {ℓ} {A : Type ℓ} where
  -- The loop's body gives these objects, from an index on.
  abbrev pub Makes : (ℕ → Outcome A) → ℕ → List A → Type ℓ
  Makes make i [] = Unit {ℓ}
  Makes make i (x ∷ xs) = (make i ≡ returned x) × Makes make (suc i) xs

  get_elem?-behind :
      (pre : List A) (x : A) (rest : List A) → get_elem? (pre ++ x ∷ rest) (length pre) ≡ some x
  get_elem?-behind [] x rest = refl
  get_elem?-behind (p ∷ pre) x rest = get_elem?-behind pre x rest

  set-behind :
      (pre : List A) (x y : A) (rest : List A)
      → set (pre ++ x ∷ rest) (length pre) y ≡ (pre ++ y ∷ []) ++ rest
  set-behind [] x y rest = refl
  set-behind (p ∷ pre) x y rest = ap (◌∷◌ p) (set-behind pre x y rest)

module _ {ℓ} {A : Type ℓ} where
  fill_from-vector :
      (make : ℕ → Outcome A) (pre : List (Option A)) (xs : List A)
      → Makes make (length pre) xs
      → length pre + length xs < word
      → fill_from make (length pre) (length xs) (vector (pre ++ replicate (length xs) none))
        ≡ returned (vector (pre ++ map some xs))
  unfolding fill_from
  fill_from-vector make pre [] h small = refl
  fill_from-vector make pre (x ∷ xs) (h, hs) small =
      let nulls : List (Option A) = replicate (length xs) none in
      let long : length (pre ++ none ∷ nulls) ≡ length pre + suc (length xs) =
        length-append pre (none ∷ nulls)
        ∙ ap (λ n. length pre + suc n) (length-replicate (length xs) none) in
      let next : suc (length pre) ≡ length (pre ++ some x ∷ []) =
        omega (arith, length-append pre (some x ∷ [])) in
      ap
        (λ m. m >>= λ y.
          write (vector (pre ++ none ∷ nulls)) (length pre) (some y)
          >>= fill_from make (suc (length pre)) (length xs))
        h
      ∙ ap (λ m. m >>= fill_from make (suc (length pre)) (length xs))
          (write-vector (pre ++ none ∷ nulls) (length pre) (some x) (omega (arith, long))
            (omega (arith, long)))
      ∙ ap (λ l. fill_from make (suc (length pre)) (length xs) (vector l))
          (set-behind pre none (some x) nulls)
      ∙ ap (λ n. fill_from make n (length xs) (vector ((pre ++ some x ∷ []) ++ nulls))) next
      ∙ fill_from-vector make (pre ++ some x ∷ []) xs (subst (λ n. Makes make n xs) next hs)
          (omega (arith, next))
      ∙ ap (λ l. returned (vector l)) (append_assoc pre (some x ∷ []) (map some xs))

  pub fill_from-nulls :
      (make : ℕ → Outcome A) (xs : List A) (n : ℕ)
      → Makes make 0 xs
      → length xs ≡ n
      → n < word
      → fill_from make 0 n (whole (n ∷ []) (replicate n none))
        ≡ returned (whole (n ∷ []) (map some xs))
  fill_from-nulls make xs n makes long small = rw (← long) (
      ap (λ k. fill_from make 0 (length xs) (whole (k ∷ []) (replicate (length xs) none)))
        (sym (length-replicate (length xs) none))
      ∙ fill_from-vector make [] xs makes (omega arith)
      ∙ ap (λ k. returned (whole (k ∷ []) (map some xs))) (length-map xs some))

  -- What the loop gives of a shape: the objects that its body makes, in their order.
  pub fill-dense :
      (shape : List ℕ) (make : ℕ → Outcome A) (xs : List A)
      → Makes make 0 xs
      → length xs ≡ cells shape
      → cells shape < 2 ^ 31
      → fill shape (cells shape) make ≡ returned (dense shape (map some xs))
  unfolding fill
  fill-dense shape make xs makes long small =
      let n : ℕ = cells shape in
      let finish : Tensor (Option A) → Outcome (Tensor (Option A)) = λ flat.
        fill_from make 0 n flat.accessor >>= λ a.
        reshape_tensor (record flat { accessor = a }) shape in
      ap (λ m. m >>= λ res. flatten res 0 >>= finish) (filled-dense shape none small)
      ∙ ap (λ m. m >>= finish) (flatten-dense shape (replicate n none) (omega arith))
      ∙ ap (λ m. m >>= λ a. reshape_tensor (record { accessor = a; is_zero_degree = false }) shape)
          (fill_from-nulls make xs n makes long (omega arith))
      ∙ reshape-dense (n ∷ []) shape (map some xs) (omega arith) (omega arith)

module _ {ℓ} {A : Type ℓ} where
  get_elem?-map-some :
      (pre us : List A) (x : A) → get_elem? (map some (pre ++ x ∷ us)) (length pre) ≡ some (some x)
  get_elem?-map-some [] us x = refl
  get_elem?-map-some (p ∷ pre) us x = get_elem?-map-some pre us x

  object-behind :
      (n : ℕ) (pre us : List A) (x : A)
      → n ≡ length (pre ++ x ∷ us)
      → n < word
      → object (whole (n ∷ []) (map some (pre ++ x ∷ us))) (length pre) ≡ returned x
  unfolding object
  object-behind n pre us x long small =
      let xs : List (Option A) = map some (pre ++ x ∷ us) in
      let size : length xs ≡ n = length-map (pre ++ x ∷ us) some ∙ sym long in
      let inside : length pre < length xs = omega (arith, size, length-append pre (x ∷ us)) in
      ap (λ k. at (whole (k ∷ []) xs) (length pre) >>= pointed) (sym size)
      ∙ ap (λ m. m >>= pointed)
          (at-dense xs (length pre) (some x) (get_elem?-map-some pre us x) inside
            (omega (arith, size)))

  -- The objects of a vector of pointers are read in their order.
  Makes-object-behind :
      (n : ℕ) (pre us : List A)
      → n ≡ length (pre ++ us)
      → n < word
      → Makes (object (whole (n ∷ []) (map some (pre ++ us)))) (length pre) us
  Makes-object-behind n pre [] long small = tt
  Makes-object-behind n pre (x ∷ us) long small =
      let next : suc (length pre) ≡ length (pre ++ x ∷ []) =
        omega (arith, length-append pre (x ∷ [])) in
      let regroup : (pre ++ x ∷ []) ++ us ≡ pre ++ x ∷ us = append_assoc pre (x ∷ []) us in
      (
        object-behind n pre us x long small,
        subst (λ l. Makes (object (whole (n ∷ []) (map some l))) (suc (length pre)) us) regroup
            (subst (λ k. Makes (object (whole (n ∷ []) (map some ((pre ++ x ∷ []) ++ us)))) k us)
              (sym next)
              (Makes-object-behind n (pre ++ x ∷ []) us (long ∙ ap length (sym regroup)) small)),
      )

  pub Makes-object :
      (n : ℕ) (us : List A)
      → n ≡ length us
      → n < word
      → Makes (object (whole (n ∷ []) (map some us))) 0 us
  Makes-object n us long small = Makes-object-behind n [] us long small

module _ {ℓ κ} {A : Type ℓ} {B : Type κ} where
  pub Makes-map :
      (f : ℕ → Outcome A) (g : A → B) (i : ℕ) (us : List A)
      → Makes f i us
      → Makes (λ j. f j >>= λ x. returned (g x)) i (map g us)
  Makes-map f g i [] h = tt
  Makes-map f g i (x ∷ us) (h, hs) =
      (ap (λ m. m >>= λ y. returned (g y)) h, Makes-map f g (suc i) us hs)

module _ {ℓ κ ι} {A : Type ℓ} {B : Type κ} {C : Type ι} where
  abbrev pub zip_with : (A → B → C) → List A → List B → List C
  zip_with g (x ∷ xs) (y ∷ ys) = g x y ∷ zip_with g xs ys
  zip_with g _ _ = []

  pub length-zip_with :
      (g : A → B → C) (xs : List A) (ys : List B)
      → length xs ≡ length ys
      → length (zip_with g xs ys) ≡ length xs
  length-zip_with g [] ys h = refl
  length-zip_with g (x ∷ xs) [] h = absurd (omega arith)
  length-zip_with g (x ∷ xs) (y ∷ ys) h = ap suc (length-zip_with g xs ys (omega arith))

  pub Makes-zip_with :
      (f : ℕ → Outcome A) (h : ℕ → Outcome B) (g : A → B → C) (i : ℕ) (xs : List A) (ys : List B)
      → Makes f i xs
      → Makes h i ys
      → Makes (λ j. f j >>= λ x. h j >>= λ y. returned (g x y)) i (zip_with g xs ys)
  Makes-zip_with f h g i [] ys p q = tt
  Makes-zip_with f h g i (x ∷ xs) [] p q = tt
  Makes-zip_with f h g i (x ∷ xs) (y ∷ ys) (p, ps) (q, qs) = (
    ap (λ m. m >>= λ a. h i >>= λ b. returned (g a b)) p ∙ ap (λ m. m >>= λ b. returned (g x b)) q,
    Makes-zip_with f h g (suc i) xs ys ps qs,
  )
