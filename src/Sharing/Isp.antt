-- ===== src/Sharing/Isp.antt =====
-- `generate_isp`, `compute_rho` and `compute_shares` of
-- include/x86_64/cpu_cryptosystem_distributed.inl.
pub mod Reconstruct
use co_fhe.Base.{
  ℕ, zero, suc, ◌+◌, ◌*◌, ◌^◌, ltb, if◌then◌else◌, Option, none, some, List, [], ◌∷◌, map, for_up,
  ◌>>=◌,
}
use co_fhe.Bicycl.{Mpz}
use co_fhe.Sharing.Choose.{ncr}
use co_fhe.Sharing.Matrix.{IntMatrix, generate_distribution_matrix}

-- An entry of `Sie` is a row of `M`; `none` stands for -1.
pub record Isp : Type 0 where
  pub m : IntMatrix
  pub sie : List (List (Option ℕ))
  pub rows : ℕ
  pub cols : ℕ

-- `for (j < t) Sie[i][j] = M_row_num++`
abbrev pub sie_row : ℕ → ℕ → List (Option ℕ)
sie_row zero m_row_num = []
sie_row (suc t) m_row_num = some m_row_num ∷ sie_row t (suc m_row_num)

abbrev pub sie_rows : ℕ → ℕ → ℕ → List (List (Option ℕ))
sie_rows zero t m_row_num = []
sie_rows (suc combinations) t m_row_num =
    sie_row t m_row_num ∷ sie_rows combinations t (m_row_num + t)

-- the map from combinations to rows, once the number of combinations is known
unfoldable pub isp_of : ℕ → ℕ → ℕ → Isp
unfolding generate_distribution_matrix
isp_of n t threshold_combinations =
    let m = generate_distribution_matrix n t threshold_combinations in
    record { m = m; sie = sie_rows threshold_combinations t 0; rows = m.rows; cols = m.cols }

-- The rows of `M` are counted in an `int`: the model gives no value when there are too many for it.
unfoldable pub generate_isp : ℕ → ℕ → Option Isp
unfolding ncr isp_of
generate_isp n t = do
  threshold_combinations ← ncr n t
  if ltb (t * threshold_combinations) (2 ^ 31)
      then some (isp_of n t threshold_combinations)
      else none

module _ {Z : Type 0} (z : Mpz Z) where
  -- `rho[0]` is the secret, and the other entries are what `random_mpz` returned.
  abbrev pub compute_rho : Z → (ℕ → Z) → ℕ → Z
  compute_rho secret random zero = secret
  compute_rho secret random (suc i) = random (suc i)

  -- the share of one party: `for (j < cols) sij += rho[j] * M[i][j]`
  unfoldable pub compute_share : Isp → (ℕ → Z) → Option ℕ → Z
  unfolding for_up
  compute_share isp rho none = z.ulong 0
  compute_share isp rho (some i) =
      for_up 0 isp.cols (λ j sij. z.add sij (z.mul (rho j) (z.ulong (isp.m.cell i j)))) (z.ulong 0)

  unfoldable pub compute_shares : Isp → (ℕ → Z) → List (List Z)
  unfolding compute_share
  compute_shares isp rho = map (λ sp. map (compute_share isp rho) sp) isp.sie

  abbrev pub get_shares : Isp → Z → (ℕ → Z) → List (List Z)
  get_shares isp secret random = compute_shares isp (compute_rho secret random)
