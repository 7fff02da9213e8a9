-- ===== src/Sharing/Matrix/Sizes.antt =====
-- The sizes of the matrices that the loops fill.
use co_fhe.Base.{ℕ, ◌+◌, ◌-◌, ◌≡◌, refl, ◌∙◌, for_up, for_up_keeps}
use co_fhe.Sharing.Matrix.{IntMatrix, write, compute_m_or, compute_m_and}

abbrev pub size : IntMatrix → ℕ × ℕ
size m = (m.rows, m.cols)

row_loop-size :
    (f g v : ℕ → ℕ) (lo n : ℕ) (m : IntMatrix)
    → size (for_up lo n (λ j m. write m (f j) (g j) (v j)) m) ≡ size m
row_loop-size f g v = for_up_keeps size (λ j m. write m (f j) (g j) (v j)) (λ j m. refl)

block-size :
    (f g : ℕ → ℕ) (v : ℕ → ℕ → ℕ) (n w : ℕ) (m : IntMatrix)
    → size (for_up 0 n (λ i m. for_up 1 w (λ j m. write m (f i) (g j) (v i j)) m) m) ≡ size m
block-size f g v n w =
    for_up_keeps size (λ i m. for_up 1 w (λ j m. write m (f i) (g j) (v i j)) m)
      (λ i m. row_loop-size (λ _. f i) g (v i) 1 w m) 0 n

module _ (ma mb : IntMatrix) where
  pub compute_m_or-size : size (compute_m_or ma mb) ≡ (ma.rows + mb.rows, ma.cols + mb.cols - 1)
  unfolding compute_m_or
  compute_m_or-size =
      block-size (λ i. ma.rows + i) (λ j. ma.cols + j - 1) mb.cell mb.rows (mb.cols - 1) _
      ∙ block-size (λ i. i) (λ j. j) ma.cell ma.rows (ma.cols - 1) _
      ∙ row_loop-size (λ i. ma.rows + i) (λ _. 0) (λ i. mb.cell i 0) 0 mb.rows _
      ∙ row_loop-size (λ i. i) (λ _. 0) (λ i. ma.cell i 0) 0 ma.rows _

  pub compute_m_and-size : size (compute_m_and ma mb) ≡ (ma.rows + mb.rows, ma.cols + mb.cols)
  unfolding compute_m_and
  compute_m_and-size =
      block-size (λ i. ma.rows + i) (λ j. ma.cols + j) mb.cell mb.rows (mb.cols - 1) _
      ∙ block-size (λ i. i) (λ j. j + 1) ma.cell ma.rows (ma.cols - 1) _
      ∙ row_loop-size (λ i. ma.rows + i) (λ _. 1) (λ i. mb.cell i 0) 0 mb.rows _
      ∙ for_up_keeps size (λ i m. write (write m i 0 (ma.cell i 0)) i 1 (ma.cell i 0)) (λ i m. refl)
          0 ma.rows _
