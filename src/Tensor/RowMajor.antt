-- ===== src/Tensor/RowMajor.antt =====
-- The element that an index vector names in a dense tensor: the one at its row-major position.
use co_fhe.Base.{
  ℕ, suc, ◌+◌, ◌*◌, ◌/◌, ◌%◌, ◌≤◌, ◌<◌, ◌≡◌, ◌≢◌, refl, ap, ◌∙◌, arith, ◌==◌, if◌then◌else◌, List,
  [], ◌∷◌, length, get_elem?, get_elem?-set_ne, get_elem?-set_self, some,
}
use co_fhe.Wire.Outcome.{returned, terminated, ◌>>=◌}
use co_fhe.Wire.Headed.RoundTrip.{beq_refl}
use co_fhe.Tensor.Stride.{word}
use co_fhe.Tensor.Accessor.{
  Accessor, calculate_stride, ones, no_except, stride_sum, whole, cell, locate_index, store, set_at,
}
use co_fhe.Tensor.Dense.{cells, cell-whole, mod_mul}

-- The position of an index: the last dimension runs fastest.
abbrev pub flat : List ℕ → List ℕ → ℕ
flat (n ∷ shape) (i ∷ index) = i * cells shape + flat shape index
flat _ _ = 0

abbrev pub InBounds : List ℕ → List ℕ → Type 0
InBounds [] [] = Unit {0}
InBounds (n ∷ shape) (i ∷ index) = (i < n) × InBounds shape index
InBounds _ _ = ⊥

-- the products of the dimensions behind each one
abbrev suffixes : List ℕ → List ℕ
suffixes [] = []
suffixes (n ∷ shape) = cells shape ∷ suffixes shape

pub flat-lt : (shape index : List ℕ) → InBounds shape index → flat shape index < cells shape
flat-lt [] [] h = omega arith
flat-lt [] (i ∷ index) h = absurd h
flat-lt (n ∷ shape) [] h = absurd h
flat-lt (n ∷ shape) (i ∷ index) (h, hs) = grind (arith, flat-lt shape index hs)

length-InBounds : (shape index : List ℕ) → InBounds shape index → length index ≡ length shape
length-InBounds [] [] h = refl
length-InBounds [] (i ∷ index) h = absurd h
length-InBounds (n ∷ shape) [] h = absurd h
length-InBounds (n ∷ shape) (i ∷ index) (h, hs) = ap suc (length-InBounds shape index hs)

-- what is behind a dimension is not more
cells_behind : (n c : ℕ) → 0 < n → c ≤ n * c
cells_behind n c pos = grind arith

calculate_stride-suffixes :
    (shape index : List ℕ)
    → InBounds shape index
    → cells shape < word
    → calculate_stride shape (ones shape) ≡ suffixes shape
unfolding calculate_stride
calculate_stride-suffixes [] [] h small = refl
calculate_stride-suffixes [] (i ∷ index) h small = absurd h
calculate_stride-suffixes (n ∷ shape) [] h small = absurd h
calculate_stride-suffixes (n ∷ []) (i ∷ index) h small = refl
calculate_stride-suffixes (n ∷ m ∷ shape) (i ∷ index) (h, hs) small =
    let behind : cells (m ∷ shape) ≤ n * cells (m ∷ shape) =
      cells_behind n (cells (m ∷ shape)) (omega arith) in
    let rest : calculate_stride (m ∷ shape) (ones (m ∷ shape)) ≡ suffixes (m ∷ shape) =
      calculate_stride-suffixes (m ∷ shape) index hs (omega arith) in
    let one : m / 1 ≡ m = omega arith in
    let commuted : cells shape * m ≡ m * cells shape = grind arith in
    let exact : m * cells shape % word ≡ m * cells shape = omega arith in
    rw (rest, one, commuted, exact) refl

stride_sum-flat :
    (acc : ℕ) (shape index : List ℕ)
    → InBounds shape index
    → acc + flat shape index < word
    → stride_sum acc index (suffixes shape) ≡ acc + flat shape index
stride_sum-flat acc [] [] h small = omega arith
stride_sum-flat acc [] (i ∷ index) h small = absurd h
stride_sum-flat acc (n ∷ shape) [] h small = absurd h
stride_sum-flat acc (n ∷ shape) (i ∷ index) (h, hs) small =
    let exact : (acc + i * cells shape) % word ≡ acc + i * cells shape = omega arith in
    ap (λ k. stride_sum k index (suffixes shape)) exact
    ∙ stride_sum-flat (acc + i * cells shape) shape index hs (omega arith)
    ∙ omega arith

module _ {ℓ} {A : Type ℓ} (shape index : List ℕ) (xs : List A) (h : InBounds shape index)
    (long : length xs ≡ cells shape) (small : cells shape < word) where
  -- An index in bounds of a dense tensor is completed, and names the cell at its row-major position,
  -- which is a cell of the storage.
  pub locate_index-whole :
      (locate_index (whole shape xs) index ≡ returned (flat shape index))
      × (flat shape index < length xs)
  unfolding locate_index
  locate_index-whole =
      let inside : flat shape index < cells shape = flat-lt shape index h in
      let sum : stride_sum 0 index (suffixes shape) ≡ flat shape index =
        stride_sum-flat 0 shape index h (omega arith) ∙ omega arith in
      (
        ap
              (λ b.
                if b
                then no_except (
                    cell (whole shape xs)
                      (stride_sum 0 index (calculate_stride shape (ones shape))))
                else terminated)
              (ap (λ k. k == length shape) (length-InBounds shape index h)
                ∙ beq_refl (length shape))
            ∙ ap (λ l. no_except (cell (whole shape xs) (stride_sum 0 index l)))
                (calculate_stride-suffixes shape index h small)
            ∙ ap (λ k. no_except (cell (whole shape xs) k)) sum
            ∙ ap no_except (cell-whole shape xs (flat shape index) (omega arith) (omega arith)),
        omega arith,
      )

module _ {ℓ} {A : Type ℓ} (n m i j : ℕ) (xs : List A) (v : A) where
  -- In a matrix, `set` of an index with a value puts the value at the product of the index's strides:
  -- where this is a cell and not the one of the index, the element of the index stays what it was.
  pub set_at-elsewhere :
      i * m * j < length xs
      → length xs < word
      → m < word
      → i * m * j ≢ flat (n ∷ m ∷ []) (i ∷ j ∷ [])
      → (a : Accessor A) × (set_at (whole (n ∷ m ∷ []) xs) (i ∷ j ∷ []) v ≡ returned a)
        × (get_elem? a.storage (i * m * j) ≡ some v)
        × (get_elem? a.storage (flat (n ∷ m ∷ []) (i ∷ j ∷ []))
            ≡ get_elem? xs (flat (n ∷ m ∷ []) (i ∷ j ∷ [])))
  unfolding set_at calculate_stride
  set_at-elsewhere inside small m_small other =
      let a : Accessor A = whole (n ∷ m ∷ []) xs in
      let stride : 1 * (m / 1) % word ≡ m = omega arith in
      let first : 1 * (i * m) ≡ i * m = omega arith in
      let second : j * 1 ≡ j = omega arith in
      let exact : i * m * j % word ≡ i * m * j = omega arith in
      let product : ((1 * (i * (1 * (m / 1) % word))) % word * (j * 1)) % word ≡ i * m * j =
        rw (stride, first, second) (mod_mul word (i * m) j ∙ exact) in
      (
        store a (i * m * j) v,
        ap (λ k. cell a k >>= λ q. returned (store a q v)) product
            ∙ ap (λ c. c >>= λ q. returned (store a q v))
                (cell-whole (n ∷ m ∷ []) xs (i * m * j) inside small),
        get_elem?-set_self xs (i * m * j) v inside,
        get_elem?-set_ne xs v other,
      )
