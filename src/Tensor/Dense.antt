-- ===== src/Tensor/Dense.antt =====
-- Tensors as the program makes them: one section, the whole storage, and nothing repeated. Their elements
-- are a list, in row-major order.
use co_fhe.Base.{
  ℕ, zero, suc, ◌+◌, ◌*◌, ◌/◌, ◌%◌, ◌^◌, ◌<◌, ◌≡◌, refl, sym, ap, ◌∙◌, arith, false, ltb, ◌==◌,
  if◌then◌else◌, lt→ltb, some, List, [], ◌∷◌, length, get_elem?, set, length-set, replicate,
}
use native.Mathlib.Nat.{add-mul-mod_self_left, mod-add-div}
use co_fhe.Wire.Outcome.{returned, undefined}
use co_fhe.Wire.Headed.RoundTrip.{beq_refl}
use co_fhe.Tensor.Stride.{word, make_forward_stride}
use co_fhe.Tensor.Stride.Landing.{forward_from-inside}
use co_fhe.Tensor.Accessor.{
  Accessor, num_elements_from, num_elements, is_broadcasted, ones, whole, completed, cell, locate,
  at, write,
}
use co_fhe.Tensor.Rows.{reshape}
use co_fhe.Tensor.Class.{Tensor, int_product, filled, on_accessor, reshape_tensor, flatten}

-- the number of elements of a shape
abbrev pub cells : List ℕ → ℕ
cells [] = 1
cells (n ∷ shape) = n * cells shape

-- What was taken off a factor takes nothing off the product, modulo a word.
pub mod_mul : (w x c : ℕ) → (x % w) * c % w ≡ x * c % w
mod_mul w x c =
    let spread : (x % w) * c + w * ((x / w) * c) ≡ (x % w + w * (x / w)) * c = grind arith in
    sym (add-mul-mod_self_left ((x % w) * c) w ((x / w) * c))
    ∙ ap (λ n. n % w) (spread ∙ ap (λ n. n * c) (mod-add-div x w))

num_elements_from-cells :
    (nums : ℕ) (shape : List ℕ)
    → nums < word
    → num_elements_from nums shape ≡ nums * cells shape % word
unfolding num_elements_from
num_elements_from-cells nums [] small = omega arith
num_elements_from-cells nums (n ∷ shape) small =
    num_elements_from-cells (nums * n % word) shape (omega arith)
    ∙ mod_mul word (nums * n) (cells shape)
    ∙ ap (λ m. m % word) (grind arith)

int_product-cells :
    (n : ℕ) (shape : List ℕ) → n < 2 ^ 32 → int_product n shape ≡ n * cells shape % 2 ^ 32
unfolding int_product
int_product-cells n [] small = omega arith
int_product-cells n (m ∷ shape) small =
    int_product-cells (n * m % 2 ^ 32) shape (omega arith)
    ∙ mod_mul (2 ^ 32) (n * m) (cells shape)
    ∙ ap (λ k. k % 2 ^ 32) (grind arith)

pub num_elements-cells : (shape : List ℕ) → cells shape < word → num_elements shape ≡ cells shape
num_elements-cells shape small =
    let e : 1 * cells shape % word ≡ cells shape = omega arith in
    num_elements_from-cells 1 shape (omega arith) ∙ e

pub not_broadcasted : (shape : List ℕ) → is_broadcasted (ones shape) ≡ false
not_broadcasted [] = refl
not_broadcasted (n ∷ shape) = not_broadcasted shape

module _ {ℓ} {A : Type ℓ} where
  abbrev pub dense : List ℕ → List A → Tensor A
  dense shape xs = record { accessor = whole shape xs; is_zero_degree = false }

  -- A stride within the storage is the index.
  pub cell-whole :
      (shape : List ℕ) (xs : List A) (i : ℕ)
      → i < length xs
      → length xs < word
      → cell (whole shape xs) i ≡ returned i
  unfolding make_forward_stride
  cell-whole shape xs i inside small =
      let index : (0 + i) % word ≡ i = omega arith in
      ap (completed (whole shape xs)) (
        forward_from-inside (record { start = 0; end = length xs }) [] 0 i
          (omega arith, omega arith) (omega arith))
      ∙ rw (index, lt→ltb i (length xs) inside) refl

  pub locate-whole :
      (xs : List A) (i : ℕ)
      → i < length xs
      → length xs < word
      → locate (whole (length xs ∷ []) xs) i ≡ returned i
  unfolding locate
  locate-whole xs i inside small =
      let nonzero : (length xs / 1 == 0) ≡ false = ground arith in
      let modulus : i % (length xs / 1) ≡ i = grind arith in
      rw (nonzero, modulus, cell-whole (length xs ∷ []) xs i inside small) refl

  reshape-whole :
      (shape new_shape : List ℕ) (xs : List A)
      → cells new_shape ≡ cells shape
      → cells shape < word
      → reshape (whole shape xs) new_shape ≡ returned (whole new_shape xs)
  unfolding reshape
  reshape-whole shape new_shape xs same small =
      rw
        (
          num_elements-cells shape small,
          num_elements-cells new_shape (omega arith),
          same,
          beq_refl (cells shape),
          not_broadcasted shape,
        )
        refl

  pub reshape-dense :
      (shape new_shape : List ℕ) (xs : List A)
      → cells new_shape ≡ cells shape
      → cells shape < word
      → reshape_tensor (dense shape xs) new_shape ≡ returned (dense new_shape xs)
  unfolding reshape_tensor
  reshape-dense shape new_shape xs same small =
      ap (on_accessor (dense shape xs)) (reshape-whole shape new_shape xs same small)

  pub flatten-dense :
      (shape : List ℕ) (xs : List A)
      → cells shape < word
      → flatten (dense shape xs) 0 ≡ returned (dense (cells shape ∷ []) xs)
  unfolding flatten
  flatten-dense shape xs small =
      let no_start : ltb (length shape) 0 ≡ false = ground arith in
      let column : cells (cells shape ∷ []) ≡ cells shape = omega arith in
      ap
        (λ b.
          if b
          then undefined
          else on_accessor (dense shape xs) (reshape (whole shape xs) (num_elements shape ∷ [])))
        no_start
      ∙ ap (λ n. on_accessor (dense shape xs) (reshape (whole shape xs) (n ∷ [])))
          (num_elements-cells shape small)
      ∙ ap (on_accessor (dense shape xs)) (reshape-whole shape (cells shape ∷ []) xs column small)

  get_elem?-inside : (xs : List A) (i : ℕ) → i < length xs → (x : A) × (get_elem? xs i ≡ some x)
  get_elem?-inside [] i h = elim h [ ]
  get_elem?-inside (x ∷ xs) zero h = (x, refl)
  get_elem?-inside (x ∷ xs) (suc i) h = get_elem?-inside xs i (omega arith)

  -- In a vector, `at` reads the element of the index, and a write to it changes that element alone.
  pub at-dense :
      (xs : List A) (i : ℕ) (x : A)
      → get_elem? xs i ≡ some x
      → i < length xs
      → length xs < word
      → at (whole (length xs ∷ []) xs) i ≡ returned x
  unfolding at
  at-dense xs i x found inside small = rw (locate-whole xs i inside small, found) refl

  abbrev pub vector : List A → Accessor A
  vector xs = whole (length xs ∷ []) xs

  pub write-vector :
      (xs : List A) (i : ℕ) (v : A)
      → i < length xs
      → length xs < word
      → write (vector xs) i v ≡ returned (vector (set xs i v))
  unfolding write
  write-vector xs i v inside small = rw (locate-whole xs i inside small, length-set xs i v) refl

  -- A tensor of fewer than 2^31 elements is made.
  pub filled-dense :
      (shape : List ℕ) (v : A)
      → cells shape < 2 ^ 31
      → filled shape v ≡ returned (dense shape (replicate (cells shape) v))
  unfolding filled
  filled-dense shape v small =
      let e : 1 * cells shape % 2 ^ 32 ≡ cells shape = omega arith in
      rw (int_product-cells 1 shape (omega arith) ∙ e, lt→ltb (cells shape) (2 ^ 31) small) refl
