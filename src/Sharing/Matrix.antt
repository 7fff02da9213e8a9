-- ===== src/Sharing/Matrix.antt =====
-- The distribution matrix of include/x86_64/cpu_cryptosystem_distributed.inl: `Matrix<int>` with its
-- loops of element writes, `compute_M_OR`, `compute_M_AND` and `generate_distribution_matrix_M`.
-- A matrix is its two sizes and its cells by index. Cells of an `int` matrix are only ever 0 or 1 here,
-- so a cell is a natural number.
pub mod Cells
pub mod Sizes
use co_fhe.Base.{ℕ, zero, suc, ◌+◌, ◌-◌, Bool, ◌&&◌, ◌==◌, if◌then◌else◌, for_up}

pub record IntMatrix : Type 0 where
  pub rows : ℕ
  pub cols : ℕ
  pub cell : ℕ → ℕ → ℕ

-- `Matrix<int>(rows, Vector<int>(cols, 0))`
abbrev pub zeros : ℕ → ℕ → IntMatrix
zeros r c = record { rows = r; cols = c; cell = λ _ _. 0 }

-- `M[r][c] = v`
abbrev pub write : IntMatrix → ℕ → ℕ → ℕ → IntMatrix
write m r c v = record m { cell = λ i j. if i == r && j == c then v else m.cell i j }

unfoldable pub compute_m_or : IntMatrix → IntMatrix → IntMatrix
unfolding for_up
compute_m_or ma mb =
    let da = ma.rows in
    let ea = ma.cols in
    let db = mb.rows in
    let eb = mb.cols in
    let m0 = zeros (da + db) (ea + eb - 1) in
    let m1 = for_up 0 da (λ i m. write m i 0 (ma.cell i 0)) m0 in
    let m2 = for_up 0 db (λ i m. write m (da + i) 0 (mb.cell i 0)) m1 in
    let m3 = for_up 0 da (λ i m. for_up 1 (ea - 1) (λ j m. write m i j (ma.cell i j)) m) m2 in
    for_up 0 db (λ i m. for_up 1 (eb - 1) (λ j m. write m (da + i) (ea + j - 1) (mb.cell i j)) m) m3

unfoldable pub compute_m_and : IntMatrix → IntMatrix → IntMatrix
unfolding for_up
compute_m_and ma mb =
    let da = ma.rows in
    let ea = ma.cols in
    let db = mb.rows in
    let eb = mb.cols in
    let m0 = zeros (da + db) (ea + eb) in
    let m1 = for_up 0 da (λ i m. write (write m i 0 (ma.cell i 0)) i 1 (ma.cell i 0)) m0 in
    let m2 = for_up 0 db (λ i m. write m (da + i) 1 (mb.cell i 0)) m1 in
    let m3 = for_up 0 da (λ i m. for_up 1 (ea - 1) (λ j m. write m i (j + 1) (ma.cell i j)) m) m2 in
    for_up 0 db (λ i m. for_up 1 (eb - 1) (λ j m. write m (da + i) (ea + j) (mb.cell i j)) m) m3

-- `Matrix<int> Mu{{1}}`
abbrev pub unit_matrix : IntMatrix
unit_matrix = record { rows = 1; cols = 1; cell = λ _ _. 1 }

-- the loop that makes `Mt`: one AND for each further party of a combination
unfoldable pub and_chain : ℕ → IntMatrix
and_chain t = for_up 1 (t - 1) (λ _ m. compute_m_and m unit_matrix) unit_matrix

-- the loop that makes `M`: one OR for each further combination
unfoldable pub or_chain : ℕ → IntMatrix → IntMatrix
or_chain combinations mt = for_up 1 (combinations - 1) (λ _ m. compute_m_or m mt) mt

unfoldable pub generate_distribution_matrix : ℕ → ℕ → ℕ → IntMatrix
unfolding and_chain or_chain
generate_distribution_matrix n t threshold_combinations =
    or_chain threshold_combinations (and_chain t)
