-- ===== src/Sharing/Matrix/Cells.antt =====
-- What the loops of `compute_M_OR` and `compute_M_AND` write: the cells of the two matrices.
use co_fhe.Base.{
  ℕ, zero, suc, ◌+◌, ◌-◌, ◌≤◌, ◌≡◌, refl, ◌∙◌, ◌&&◌, ◌||◌, ◌==◌, leb, ltb, if◌then◌else◌, true,
  false, for_up, arith, dec_lt,
}
use co_fhe.Sharing.Matrix.{IntMatrix, write, compute_m_or, compute_m_and}

-- A loop whose rounds each rewrite one row, `w i c old` being what round `i` leaves in column `c`.
rows_loop :
    (p : ℕ) (body : ℕ → IntMatrix → IntMatrix) (w : ℕ → ℕ → ℕ → ℕ)
    → ((i : ℕ) (m : IntMatrix) (r c : ℕ)
        → (body i m).cell r c ≡ (if r == p + i then w i c (m.cell r c) else m.cell r c))
    → (lo n : ℕ) (m : IntMatrix) (r c : ℕ)
    → (for_up lo n body m).cell r c
      ≡ (if leb (p + lo) r && ltb r (p + lo + n) then w (r - p) c (m.cell r c) else m.cell r c)
unfolding for_up
rows_loop p body w h lo zero m r c = ground arith
rows_loop p body w h lo (suc n) m r c =
    ground (arith, rows_loop p body w h (suc lo) n (body lo m) r c, h lo m r c)

-- A loop along one row.
cols_loop :
    (r k : ℕ) (g v : ℕ → ℕ) (lo n : ℕ) (m : IntMatrix) (r' c : ℕ)
    → ((j : ℕ) → lo ≤ j → g j ≡ k + j)
    → (for_up lo n (λ j m. write m r (g j) (v j)) m).cell r' c
      ≡ (if r' == r && (leb (k + lo) c && ltb c (k + lo + n)) then v (c - k) else m.cell r' c)
unfolding for_up
cols_loop r k g v lo zero m r' c h = ground arith
cols_loop r k g v lo (suc n) m r' c h = ground (
  arith,
  cols_loop r k g v (suc lo) n (write m r (g lo) (v lo)) r' c (λ j p. h j (omega arith)),
  h lo (omega arith),
)

-- `for (i < n) for (1 <= j <= w) M[f i][g j] = v i j`
block_loop :
    (p k : ℕ) (f g : ℕ → ℕ) (v : ℕ → ℕ → ℕ) (n w : ℕ) (m : IntMatrix) (r c : ℕ)
    → ((i : ℕ) → f i ≡ p + i)
    → ((j : ℕ) → 1 ≤ j → g j ≡ k + j)
    → (for_up 0 n (λ i m. for_up 1 w (λ j m. write m (f i) (g j) (v i j)) m) m).cell r c ≡ (
        if (leb p r && ltb r (p + n)) && (leb (k + 1) c && ltb c (k + 1 + w))
        then v (r - p) (c - k)
        else m.cell r c)
block_loop p k f g v n w m r c hf hg = ground (
  arith,
  rows_loop p (λ i m. for_up 1 w (λ j m. write m (f i) (g j) (v i j)) m)
      (λ i c old. if leb (k + 1) c && ltb c (k + 1 + w) then v i (c - k) else old)
      (λ i m r c. ground (arith, hf i, cols_loop (f i) k g (v i) 1 w m r c hg)) 0 n m r c,
)

-- `for (i < n) M[f i][q] = v i`
column_loop :
    (p q : ℕ) (f v : ℕ → ℕ) (n : ℕ) (m : IntMatrix) (r c : ℕ)
    → ((i : ℕ) → f i ≡ p + i)
    → (for_up 0 n (λ i m. write m (f i) q (v i)) m).cell r c
      ≡ (if (leb p r && ltb r (p + n)) && c == q then v (r - p) else m.cell r c)
column_loop p q f v n m r c hf = ground (
  arith,
  rows_loop p (λ i m. write m (f i) q (v i)) (λ i c old. if c == q then v i else old)
      (λ i m r c. ground (arith, hf i)) 0 n m r c,
)

-- The rows of `Ma` stay, with zeros behind them; those of `Mb` come below, all their columns but the
-- first moved behind those of `Ma`.
abbrev pub or_cell : IntMatrix → IntMatrix → ℕ → ℕ → ℕ
or_cell ma mb r c =
    if ltb r ma.rows
    then (if ltb c ma.cols then ma.cell r c else 0)
    else if ltb r (ma.rows + mb.rows)
    then (if c == 0
        then mb.cell (r - ma.rows) 0
        else if leb ma.cols c && ltb (c + 1) (ma.cols + mb.cols)
        then mb.cell (r - ma.rows) (c + 1 - ma.cols)
        else 0)
    else 0

pub compute_m_or-cell :
    (ma mb : IntMatrix) (r c : ℕ)
    → 1 ≤ ma.cols
    → 1 ≤ mb.cols
    → (compute_m_or ma mb).cell r c ≡ or_cell ma mb r c
unfolding compute_m_or
compute_m_or-cell ma mb r c ha hb =
    rw
      (
        block_loop ma.rows (ma.cols - 1) (λ i. ma.rows + i) (λ j. ma.cols + j - 1) mb.cell mb.rows
            (mb.cols - 1) _ r c (λ i. refl) (λ j h. omega arith),
        block_loop 0 0 (λ i. i) (λ j. j) ma.cell ma.rows (ma.cols - 1) _ r c (λ i. omega arith)
            (λ j h. omega arith),
        column_loop ma.rows 0 (λ i. ma.rows + i) (λ i. mb.cell i 0) mb.rows _ r c (λ i. refl),
        column_loop 0 0 (λ i. i) (λ i. ma.cell i 0) ma.rows _ r c (λ i. omega arith),
      )
      (ground arith)

-- The first column of `Ma` is doubled; `Mb` comes below, all its columns but the first moved behind
-- those of `Ma`, and its first column in the second one.
abbrev pub and_cell : IntMatrix → IntMatrix → ℕ → ℕ → ℕ
and_cell ma mb r c =
    if ltb r ma.rows
    then (if c == 0 then ma.cell r 0 else if leb c ma.cols then ma.cell r (c - 1) else 0)
    else if ltb r (ma.rows + mb.rows)
    then (if c == 1
        then mb.cell (r - ma.rows) 0
        else if ltb ma.cols c && ltb c (ma.cols + mb.cols)
        then mb.cell (r - ma.rows) (c - ma.cols)
        else 0)
    else 0

module _ (ma mb : IntMatrix) (r c : ℕ) (ha : 1 ≤ ma.cols) (hb : 1 ≤ mb.cols) where
  -- the four loops, the last one outermost
  abbrev and_loops : ℕ
  and_loops =
      if (leb ma.rows r && ltb r (ma.rows + mb.rows))
        && (leb (ma.cols + 1) c && ltb c (ma.cols + 1 + (mb.cols - 1)))
      then mb.cell (r - ma.rows) (c - ma.cols)
      else if (leb 0 r && ltb r (0 + ma.rows)) && (leb 2 c && ltb c (2 + (ma.cols - 1)))
      then ma.cell (r - 0) (c - 1)
      else if (leb ma.rows r && ltb r (ma.rows + mb.rows)) && c == 1
      then mb.cell (r - ma.rows) 0
      else if leb 0 r && ltb r (0 + ma.rows)
      then (if c == 1 || c == 0 then ma.cell (r - 0) 0 else 0)
      else 0

  compute_m_and-loops : (compute_m_and ma mb).cell r c ≡ and_loops
  unfolding compute_m_and
  compute_m_and-loops =
      rw
        (
          block_loop ma.rows ma.cols (λ i. ma.rows + i) (λ j. ma.cols + j) mb.cell mb.rows
              (mb.cols - 1) _ r c (λ i. refl) (λ j h. refl),
          block_loop 0 1 (λ i. i) (λ j. j + 1) ma.cell ma.rows (ma.cols - 1) _ r c
              (λ i. omega arith) (λ j h. omega arith),
          column_loop ma.rows 1 (λ i. ma.rows + i) (λ i. mb.cell i 0) mb.rows _ r c (λ i. refl),
          rows_loop 0 (λ i m. write (write m i 0 (ma.cell i 0)) i 1 (ma.cell i 0))
              (λ i c old. if c == 1 || c == 0 then ma.cell i 0 else old) (λ i m r c. ground arith) 0
              ma.rows _ r c,
        )
        (ground arith)

  and_loops-cell : and_loops ≡ and_cell ma mb r c
  and_loops-cell = elim (dec_lt r ma.rows) [
    | yes above ↦ ground arith
    | no below ↦
        let not_above : (leb 0 r && ltb r (0 + ma.rows)) ≡ false = ground arith in
        let not_above' : ltb r ma.rows ≡ false = ground arith in
        let same : leb ma.rows r ≡ true = ground arith in
        rw (not_above, not_above', same) (ground arith)
  ]

  pub compute_m_and-cell : (compute_m_and ma mb).cell r c ≡ and_cell ma mb r c
  compute_m_and-cell = compute_m_and-loops ∙ and_loops-cell
