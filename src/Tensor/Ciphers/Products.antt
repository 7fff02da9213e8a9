-- ===== src/Tensor/Ciphers/Products.antt =====
-- The product of two matrices by their entries, and matrices as vectors of their elements.
use co_fhe.Base.{
  ℕ, ◌+◌, ◌*◌, ◌/◌, ◌%◌, ◌^◌, ◌<◌, ◌≡◌, ap, ◌∙◌, arith, some, List, [], ◌∷◌, map, get_or,
}
use co_fhe.Bicycl.{Mpz}
use co_fhe.Bicycl.Sums.{sum}
use co_fhe.Wire.Outcome.{returned}
use co_fhe.Tensor.Class.{flatten}
use co_fhe.Tensor.Dense.{cells, flatten-dense}
use co_fhe.Tensor.Loops.Tables.{tabulate}
use co_fhe.Tensor.Ciphers.Elementwise.{full}

-- The entries of the product of two matrices, n by m and m by p, in row-major order.
abbrev pub matrix_product : {R : Type 0} → Mpz R → ℕ → ℕ → ℕ → List R → List R → List R
matrix_product r n m p xs ys = tabulate (n * p) λ q.
    sum r m
      λ j. r.mul (get_or xs (q / p * m + j) (r.ulong 0)) (get_or ys (j * p + q % p) (r.ulong 0))

-- A matrix is flattened to the vector of its elements.
pub flatten-matrix {ℓ} :
    {A : Type ℓ} (n m : ℕ) (xs : List A)
    → n * m < 2 ^ 31
    → flatten (full (n ∷ m ∷ []) xs) 0 ≡ returned (full (n * m ∷ []) xs)
flatten-matrix n m xs small =
    let same : cells (n ∷ m ∷ []) ≡ n * m = grind arith in
    flatten-dense (n ∷ m ∷ []) (map some xs) (omega arith)
    ∙ ap (λ k. returned (full (k ∷ []) xs)) same
