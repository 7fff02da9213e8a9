-- ===== src/Sharing/Span.antt =====
-- The rows of the distribution matrix that belong to one combination, weighted by λ, add up to the
-- first unit vector: generate_distribution_matrix_M of include/x86_64/cpu_cryptosystem_distributed.inl.
use co_fhe.Base.{
  ℕ, zero, suc, ◌+◌, ◌-◌, ◌*◌, ◌≤◌, ◌<◌, ◌≡◌, refl, sym, ap, ap₂, subst, ◌∙◌, for_up_inv, arith,
  dec_lt,
}
use co_fhe.Bicycl.{Mpz}
use co_fhe.Bicycl.Sums.{sum, sum_congr, sum-zero, add-zero, mul-zero}
use co_fhe.Sharing.Matrix.{
  IntMatrix, unit_matrix, compute_m_or, compute_m_and, and_chain, or_chain,
  generate_distribution_matrix,
}
use co_fhe.Sharing.Matrix.Cells.{compute_m_or-cell, compute_m_and-cell, or_cell, and_cell}
use co_fhe.Sharing.Matrix.Sizes.{compute_m_or-size, compute_m_and-size}

module _ {Z : Type 0} (z : Mpz Z) where
  -- the coefficients that `compute_lambda` lists: 1, -1, -1, …
  abbrev pub weight : ℕ → Z
  weight zero = z.ulong 1
  weight (suc i) = z.minus_one

  abbrev pub unit : ℕ → Z
  unit zero = z.ulong 1
  unit (suc c) = z.ulong 0

  unit_pos : (c : ℕ) → 1 ≤ c → z.ulong 0 ≡ unit c
  unit_pos zero h = absurd (omega arith)
  unit_pos (suc c) h = refl

  abbrev pub term : IntMatrix → ℕ → ℕ → ℕ → Z
  term m start c i = z.mul (weight i) (z.ulong (m.cell (start + i) c))

  -- the weighted sum of column `c` over the `t` rows from row `start`
  abbrev pub span : IntMatrix → ℕ → ℕ → ℕ → Z
  span m t start c = sum z t (term m start c)

  span_congr :
      (m m' : IntMatrix) (t start start' c c' : ℕ)
      → ((i : ℕ) → i < t → m.cell (start + i) c ≡ m'.cell (start' + i) c')
      → span m t start c ≡ span m' t start' c'
  span_congr m m' t start start' c c' h =
      sum_congr z t (term m start c) (term m' start' c')
        (λ i p. ap (λ v. z.mul (weight i) (z.ulong v)) (h i p))

  span_zero :
      (m : IntMatrix) (t start c : ℕ)
      → ((i : ℕ) → i < t → m.cell (start + i) c ≡ 0)
      → span m t start c ≡ z.ulong 0
  span_zero m t start c h =
      sum_congr z t (term m start c) (λ _. z.ulong 0)
        (λ i p. ap (λ v. z.mul (weight i) (z.ulong v)) (h i p) ∙ mul-zero z (weight i))
      ∙ sum-zero z t

  -- All rows of the matrix are one combination.
  pub record Spans (t : ℕ) (m : IntMatrix) : Type 0 where
    pub rows_eq : m.rows ≡ t
    pub cols_pos : 1 ≤ m.cols
    pub spans : (c : ℕ) → c < m.cols → span m t 0 c ≡ unit c

  unit_matrix-Spans : Spans 1 unit_matrix
  unfolding sum
  unit_matrix-Spans = record { rows_eq = refl; cols_pos = omega arith; spans = spans }
    where
      spans : (c : ℕ) → c < 1 → span unit_matrix 1 0 c ≡ unit c
      spans zero p = z.zero-add (z.mul (z.ulong 1) (z.ulong 1)) ∙ z.one-mul (z.ulong 1)
      spans (suc c) p = absurd (omega arith)

  module _ (t : ℕ) (m : IntMatrix) (s : Spans (suc t) m) where
    abbrev next : IntMatrix
    next = compute_m_and m unit_matrix

    next_cell : (r c : ℕ) → next.cell r c ≡ and_cell m unit_matrix r c
    next_cell r c = compute_m_and-cell m unit_matrix r c s.cols_pos (omega arith)

    and-span : (c : ℕ) → c < m.cols + 1 → span next (suc (suc t)) 0 c ≡ unit c
    unfolding sum
    and-span zero p =
        ap₂ z.add
          (span_congr next m (suc t) 0 0 0 0 (λ i q. ground (arith, next_cell (0 + i) 0, s.rows_eq))
            ∙ s.spans 0 s.cols_pos)
          (ap (λ v. z.mul z.minus_one (z.ulong v))
              (ground (arith, next_cell (0 + suc t) 0, s.rows_eq))
            ∙ mul-zero z z.minus_one)
        ∙ add-zero z (z.ulong 1)
    and-span (suc zero) p =
        ap₂ z.add
          (span_congr next m (suc t) 0 0 1 0 (λ i q. ground (arith, next_cell (0 + i) 1, s.rows_eq))
            ∙ s.spans 0 s.cols_pos)
          (ap (λ v. z.mul z.minus_one (z.ulong v)) {y = 1}
              (ground (arith, next_cell (0 + suc t) 1, s.rows_eq))
            ∙ z.mul_comm z.minus_one (z.ulong 1)
            ∙ z.one-mul z.minus_one)
        ∙ z.one_minus_one
    and-span (suc (suc c)) p =
        ap₂ z.add
          (span_congr next m (suc t) 0 0 (suc (suc c)) (suc c)
              (λ i q. ground (arith, next_cell (0 + i) (suc (suc c)), s.rows_eq))
            ∙ s.spans (suc c) (omega arith))
          (ap (λ v. z.mul z.minus_one (z.ulong v))
              (ground (arith, next_cell (0 + suc t) (suc (suc c)), s.rows_eq))
            ∙ mul-zero z z.minus_one)
        ∙ add-zero z (z.ulong 0)

    and-Spans : Spans (suc (suc t)) next
    and-Spans = record {
      rows_eq = ap (λ p. p.0) (compute_m_and-size m unit_matrix) ∙ omega (arith, s.rows_eq);
      cols_pos = subst (◌≤◌ 1) (sym cols_eq) (omega arith);
      spans = λ c p. and-span c (subst (◌<◌ c) cols_eq p);
    }
      where
        cols_eq : next.cols ≡ m.cols + 1
        cols_eq = ap (λ p. p.1) (compute_m_and-size m unit_matrix)

  -- `k` combinations of `t` rows each.
  pub record SpansAll (t k : ℕ) (m : IntMatrix) : Type 0 where
    pub all_rows : m.rows ≡ k * t
    pub all_cols : 1 ≤ m.cols
    pub all_span : (q : ℕ) → q < k → (c : ℕ) → c < m.cols → span m t (q * t) c ≡ unit c

  module _ (t k : ℕ) (m mt : IntMatrix) (a : SpansAll t k m) (s : Spans t mt) where
    abbrev stacked : IntMatrix
    stacked = compute_m_or m mt

    stacked_cell : (r c : ℕ) → stacked.cell r c ≡ or_cell m mt r c
    stacked_cell r c = compute_m_or-cell m mt r c a.all_cols s.cols_pos

    in_block : (q i : ℕ) → q < k → i < t → q * t + i < m.rows
    in_block q i hq hi = let e : m.rows ≡ k * t = a.all_rows in grind arith

    old_block :
        (q : ℕ) → q < k → (c : ℕ) → c < m.cols + mt.cols - 1 → span stacked t (q * t) c ≡ unit c
    old_block q hq c hc = elim (dec_lt c m.cols) [
      | yes p ↦
          span_congr stacked m t (q * t) (q * t) c c
            (λ i hi. ground (arith, stacked_cell (q * t + i) c, in_block q i hq hi))
          ∙ a.all_span q hq c p
      | no p ↦
          span_zero stacked t (q * t) c
            (λ i hi. ground (arith, stacked_cell (q * t + i) c, in_block q i hq hi))
          ∙ unit_pos c (omega (arith, a.all_cols))
    ]

    new_block : (c : ℕ) → c < m.cols + mt.cols - 1 → span stacked t (k * t) c ≡ unit c
    new_block zero hc =
        span_congr stacked mt t (k * t) 0 0 0
          (λ i hi. ground (arith, stacked_cell (k * t + i) 0, a.all_rows, s.rows_eq))
        ∙ s.spans 0 s.cols_pos
    new_block (suc c) hc = elim (dec_lt (suc c) m.cols) [
      | yes p ↦
          span_zero stacked t (k * t) (suc c)
            (λ i hi. ground (arith, stacked_cell (k * t + i) (suc c), a.all_rows, s.rows_eq))
      | no p ↦
          span_congr stacked mt t (k * t) 0 (suc c) (suc c + 1 - m.cols)
            (λ i hi. ground (arith, stacked_cell (k * t + i) (suc c), a.all_rows, s.rows_eq))
          ∙ s.spans (suc c + 1 - m.cols) (omega arith)
          ∙ sym (unit_pos (suc c + 1 - m.cols) (omega arith))
    ]

    or-SpansAll : SpansAll t (suc k) stacked
    or-SpansAll = record {
      all_rows = rows_eq ∙ grind (arith, a.all_rows, s.rows_eq);
      all_cols = subst (◌≤◌ 1) (sym cols_eq) (omega (arith, a.all_cols, s.cols_pos));
      all_span = λ q hq c hc. block q hq c (subst (◌<◌ c) cols_eq hc);
    }
      where
        rows_eq : stacked.rows ≡ m.rows + mt.rows
        rows_eq = ap (λ p. p.0) (compute_m_or-size m mt)

        cols_eq : stacked.cols ≡ m.cols + mt.cols - 1
        cols_eq = ap (λ p. p.1) (compute_m_or-size m mt)

        block :
            (q : ℕ)
            → q < suc k
            → (c : ℕ) → c < m.cols + mt.cols - 1
            → span stacked t (q * t) c ≡ unit c
        block q hq c hc = elim (dec_lt q k) [
          | yes p ↦ old_block q p c hc
          | no p ↦ let e : q ≡ k = omega arith in rw e (new_block c hc)
        ]

  -- A combination has a party, so the loop that adds parties starts from one.
  abbrev FromOne : ℕ → IntMatrix → Type 0
  FromOne zero m = ⊥
  FromOne (suc t) m = Spans (suc t) m

  FromOne-step :
      (i : ℕ) (m : IntMatrix) → FromOne i m → FromOne (suc i) (compute_m_and m unit_matrix)
  FromOne-step zero m h = absurd h
  FromOne-step (suc i) m h = and-Spans i m h

  pub and_chain-Spans : (t : ℕ) → Spans (suc t) (and_chain (suc t))
  unfolding and_chain
  and_chain-Spans t =
      for_up_inv FromOne (λ _ m. compute_m_and m unit_matrix) FromOne-step (suc t - 1) 1 unit_matrix
        unit_matrix-Spans (suc t) (omega arith)

  pub one-SpansAll : (t : ℕ) (m : IntMatrix) → Spans t m → SpansAll t 1 m
  one-SpansAll t m s = record {
    all_rows = omega (arith, s.rows_eq);
    all_cols = s.cols_pos;
    all_span = one;
  }
    where
      one : (q : ℕ) → q < 1 → (c : ℕ) → c < m.cols → span m t (q * t) c ≡ unit c
      one zero p c hc =
          span_congr m m t (0 * t) 0 c c (λ i hi. ap (λ r. m.cell r c) (omega arith)) ∙ s.spans c hc
      one (suc q) p c hc = absurd (omega arith)

  pub or_chain-SpansAll :
      (t k : ℕ) (mt : IntMatrix) → Spans t mt → SpansAll t (suc k) (or_chain (suc k) mt)
  unfolding or_chain
  or_chain-SpansAll t k mt s =
      for_up_inv (SpansAll t) (λ _ m. compute_m_or m mt) (λ i m a. or-SpansAll t i m mt a s)
        (suc k - 1) 1 mt (one-SpansAll t mt s) (suc k) (omega arith)

  -- In the matrix for `k` combinations of `t` parties, the weighted sum of the rows of each combination
  -- is the first unit vector.
  pub generate-SpansAll :
      (n t k : ℕ) → SpansAll (suc t) (suc k) (generate_distribution_matrix n (suc t) (suc k))
  unfolding generate_distribution_matrix
  generate-SpansAll n t k = or_chain-SpansAll (suc t) k (and_chain (suc t)) (and_chain-Spans t)
