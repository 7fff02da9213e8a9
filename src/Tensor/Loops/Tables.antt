-- ===== src/Tensor/Loops/Tables.antt =====
-- Lists by index, for loops whose rounds are known by their index.
use co_fhe.Base.{
  ℕ, zero, suc, ◌+◌, ◌<◌, ◌≡◌, refl, sym, ap, ap₂, ◌∙◌, arith, Option, some, List, [], ◌∷◌, map,
  length, length-map, get_elem?, get_or,
}
use co_fhe.Wire.Outcome.{Outcome, returned, ◌>>=◌}
use co_fhe.Tensor.Stride.{word}
use co_fhe.Tensor.Accessor.{whole, at}
use co_fhe.Tensor.Dense.{at-dense}
use co_fhe.Tensor.Loops.{pointed, object}
use co_fhe.Tensor.Loops.Filled.{Makes, zip_with}

module _ {ℓ} {A : Type ℓ} where
  -- The values of a function at the numbers from one on.
  abbrev pub tabulate_from : ℕ → ℕ → (ℕ → A) → List A
  tabulate_from i zero f = []
  tabulate_from i (suc n) f = f i ∷ tabulate_from (suc i) n f

  abbrev pub tabulate : ℕ → (ℕ → A) → List A
  tabulate n f = tabulate_from 0 n f

  length-tabulate_from : (i n : ℕ) (f : ℕ → A) → length (tabulate_from i n f) ≡ n
  length-tabulate_from i zero f = refl
  length-tabulate_from i (suc n) f = ap suc (length-tabulate_from (suc i) n f)

  pub length-tabulate : (n : ℕ) (f : ℕ → A) → length (tabulate n f) ≡ n
  length-tabulate n f = length-tabulate_from 0 n f

  get_or-tabulate_from :
      (i n j : ℕ) (f : ℕ → A) (d : A) → j < n → get_or (tabulate_from i n f) j d ≡ f (i + j)
  get_or-tabulate_from i zero j f d h = absurd (omega arith)
  get_or-tabulate_from i (suc n) zero f d h = let e : i ≡ i + 0 = omega arith in ap f e
  get_or-tabulate_from i (suc n) (suc j) f d h =
      let e : suc i + j ≡ i + suc j = omega arith in
      get_or-tabulate_from (suc i) n j f d (omega arith) ∙ ap f e

  pub get_or-tabulate : (n j : ℕ) (f : ℕ → A) (d : A) → j < n → get_or (tabulate n f) j d ≡ f j
  get_or-tabulate n j f d h =
      let e : 0 + j ≡ j = omega arith in get_or-tabulate_from 0 n j f d h ∙ ap f e

  pub Makes-tabulate_from :
      (make : ℕ → Outcome A) (f : ℕ → A) (i n : ℕ)
      → ((j : ℕ) → j < i + n → make j ≡ returned (f j))
      → Makes make i (tabulate_from i n f)
  Makes-tabulate_from make f i zero h = tt
  Makes-tabulate_from make f i (suc n) h =
      (h i (omega arith), Makes-tabulate_from make f (suc i) n (λ j p. h j (omega arith)))

  pub tabulate_congr :
      (i n : ℕ) (f g : ℕ → A)
      → ((j : ℕ) → j < i + n → f j ≡ g j)
      → tabulate_from i n f ≡ tabulate_from i n g
  tabulate_congr i zero f g h = refl
  tabulate_congr i (suc n) f g h =
      ap₂ ◌∷◌ (h i (omega arith)) (tabulate_congr (suc i) n f g λ j p. h j (omega arith))

  pub get_elem?-get_or :
      (xs : List A) (i : ℕ) (d : A) → i < length xs → get_elem? xs i ≡ some (get_or xs i d)
  get_elem?-get_or [] i d h = absurd (omega arith)
  get_elem?-get_or (x ∷ xs) zero d h = refl
  get_elem?-get_or (x ∷ xs) (suc i) d h = get_elem?-get_or xs i d (omega arith)

module _ {ℓ κ} {A : Type ℓ} {B : Type κ} where
  pub map-tabulate :
      (g : A → B) (i n : ℕ) (f : ℕ → A)
      → map g (tabulate_from i n f) ≡ tabulate_from i n (λ j. g (f j))
  map-tabulate g i zero f = refl
  map-tabulate g i (suc n) f = ap (◌∷◌ (g (f i))) (map-tabulate g (suc i) n f)

  pub get_or-map :
      (g : A → B) (xs : List A) (i : ℕ) (d : A) → get_or (map g xs) i (g d) ≡ g (get_or xs i d)
  get_or-map g [] i d = refl
  get_or-map g (x ∷ xs) zero d = refl
  get_or-map g (x ∷ xs) (suc i) d = get_or-map g xs i d

  pub get_or-map_inside :
      (g : A → B) (xs : List A) (i : ℕ) (e : B) (d : A)
      → i < length xs
      → get_or (map g xs) i e ≡ g (get_or xs i d)
  get_or-map_inside g [] i e d h = absurd (omega arith)
  get_or-map_inside g (x ∷ xs) zero e d h = refl
  get_or-map_inside g (x ∷ xs) (suc i) e d h = get_or-map_inside g xs i e d (omega arith)

module _ {ℓ} {A : Type ℓ} where
  -- `*t[i]` in a vector of pointers to objects.
  pub object-get_or :
      (n : ℕ) (xs : List A) (i : ℕ) (d : A)
      → n ≡ length xs
      → i < n
      → n < word
      → object (whole (n ∷ []) (map some xs)) i ≡ returned (get_or xs i d)
  unfolding object
  object-get_or n xs i d long inside small =
      let ms : List (Option A) = map some xs in
      let size : length ms ≡ n = length-map xs some ∙ sym long in
      let found : get_elem? ms i ≡ some (some (get_or xs i d)) =
        get_elem?-get_or ms i (some d) (omega (arith, size)) ∙ ap some (get_or-map some xs i d) in
      ap (λ k. at (whole (k ∷ []) ms) i >>= pointed) (sym size)
      ∙ ap (λ m. m >>= pointed)
          (at-dense ms i (some (get_or xs i d)) found (omega (arith, size)) (omega (arith, size)))

module _ {ℓ κ ι} {A : Type ℓ} {B : Type κ} {C : Type ι} where
  pub get_or-zip_with :
      (g : A → B → C) (xs : List A) (ys : List B) (i : ℕ) (d : C) (a : A) (b : B)
      → i < length xs
      → i < length ys
      → get_or (zip_with g xs ys) i d ≡ g (get_or xs i a) (get_or ys i b)
  get_or-zip_with g [] ys i d a b h k = absurd (omega arith)
  get_or-zip_with g (x ∷ xs) [] i d a b h k = absurd (omega arith)
  get_or-zip_with g (x ∷ xs) (y ∷ ys) zero d a b h k = refl
  get_or-zip_with g (x ∷ xs) (y ∷ ys) (suc i) d a b h k =
      get_or-zip_with g xs ys i d a b (omega arith) (omega arith)
