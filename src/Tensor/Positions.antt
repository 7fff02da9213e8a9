-- ===== src/Tensor/Positions.antt =====
-- Positions in a matrix, and in the table of the products of two matrices, n by m and m by p.
use co_fhe.Base.{ℕ, ◌+◌, ◌*◌, ◌/◌, ◌%◌, ◌<◌, ◌≤◌, ◌≡◌, sym, ap, ap₂, subst, ◌∙◌, arith}
use native.Mathlib.Nat.{
  mul-le-mul_right, mod-lt, div-lt_iff_lt-mul, mul-add-div_right, mul-add-mod_self_right,
  div-eq_of_lt, mod-eq_of_lt,
}

-- The position of column k in row a is inside.
pub cell-lt : (m p a k : ℕ) → a < m → k < p → a * p + k < m * p
cell-lt m p a k h g =
    let row : (a + 1) * p ≤ m * p = mul-le-mul_right p (omega arith) in
    let next : (a + 1) * p ≡ a * p + p = grind arith in omega arith

module _ (m p i j k : ℕ) (j_in : j < m) (k_in : k < p) where
  position : i * m * p + j * p + k ≡ (i * m + j) * p + k
  position = grind arith

  pub row_position : (i * m * p + j * p + k) / p ≡ i * m + j
  row_position =
      let none_left : k / p ≡ 0 = div-eq_of_lt k_in in
      ap (λ q. q / p) position ∙ mul-add-div_right (omega arith) (i * m + j) k ∙ omega arith

  pub column_position :
      (i * m * p + j * p + k) / p % m * p + (i * m * p + j * p + k) % p ≡ j * p + k
  column_position =
      ap₂ (λ a b. a * p + b)
        (ap (λ q. q % m) row_position ∙ mul-add-mod_self_right i m j ∙ mod-eq_of_lt j_in)
        (ap (λ q. q % p) position ∙ mul-add-mod_self_right (i * m + j) p k ∙ mod-eq_of_lt k_in)

  pub position-lt : (n : ℕ) → i < n → i * m * p + j * p + k < n * m * p
  position-lt n i_in =
      subst (λ q. q < n * m * p) (sym position)
        (cell-lt (n * m) p (i * m + j) k (cell-lt n m i j i_in j_in) k_in)

-- The row and the column of a position.
pub positive : (n p q : ℕ) → q < n * p → 0 < p
positive n p q h = grind arith

pub row-lt : (n p q : ℕ) → q < n * p → q / p < n
row-lt n p q h = (div-lt_iff_lt-mul (positive n p q h)).1 h

pub column-lt : (n p q : ℕ) → q < n * p → q % p < p
column-lt n p q h = mod-lt q (positive n p q h)
