-- ===== src/Sharing/Isp/Reconstruct.antt =====
-- The shares of one combination, weighted by λ, add up to the secret.
use co_fhe.Base.{
  ℕ, zero, suc, ◌+◌, ◌-◌, ◌*◌, ◌<◌, ◌≡◌, refl, sym, ap, subst, ◌∙◌, some, List, [], ◌∷◌, map,
  get_elem?, arith,
}
use co_fhe.Bicycl.{Mpz}
use co_fhe.Bicycl.Sums.{sum, sum_congr, sum_comm, sum_first, mul-sum, mul-zero, for_up-sum}
use co_fhe.Sharing.Span.{weight, unit, term, SpansAll, generate-SpansAll}
use co_fhe.Sharing.Isp.{Isp, sie_row, sie_rows, isp_of, compute_share, compute_shares}

get_elem?-sie_rows :
    (k t start q : ℕ) → q < k → get_elem? (sie_rows k t start) q ≡ some (sie_row t (start + q * t))
get_elem?-sie_rows zero t start q h = absurd (omega arith)
get_elem?-sie_rows (suc k) t start zero h = ap (λ s. some (sie_row t s)) (omega arith)
get_elem?-sie_rows (suc k) t start (suc q) h =
    get_elem?-sie_rows k t (start + t) q (omega arith) ∙ ap (λ s. some (sie_row t s)) (omega arith)

get_elem?-map {ℓ κ} :
    {A : Type ℓ} {B : Type κ} (f : A → B) (xs : List A) (i : ℕ) {x : A}
    → get_elem? xs i ≡ some x
    → get_elem? (map f xs) i ≡ some (f x)
get_elem?-map f [] i h = cc
get_elem?-map f (x ∷ xs) zero h = cc
get_elem?-map f (x ∷ xs) (suc i) h = get_elem?-map f xs i h

module _ {Z : Type 0} (z : Mpz Z) where
  -- the rows of `Sie` for a matrix that spans
  pub record IsSplit (t k : ℕ) (isp : Isp) : Type 0 where
    pub spanning : SpansAll z t k isp.m
    pub sie_eq : isp.sie ≡ sie_rows k t 0
    pub cols_eq : isp.cols ≡ isp.m.cols

  pub isp_of-IsSplit : (n t k : ℕ) → IsSplit (suc t) (suc k) (isp_of n (suc t) (suc k))
  unfolding isp_of
  isp_of-IsSplit n t k = record {
    spanning = generate-SpansAll z n t k;
    sie_eq = refl;
    cols_eq = refl;
  }

  module _ (t k : ℕ) (isp : Isp) (v : IsSplit t k isp) (rho : ℕ → Z) where
    abbrev share : ℕ → Z
    share i = compute_share z isp rho (some i)

    abbrev product : ℕ → ℕ → Z
    product i j = z.mul (rho j) (z.ulong (isp.m.cell i j))

    share-sum : (i : ℕ) → share i ≡ sum z isp.cols (product i)
    unfolding compute_share
    share-sum i = for_up-sum z isp.cols (product i)

    regroup : (w r u : Z) → z.mul w (z.mul r u) ≡ z.mul r (z.mul w u)
    regroup w r u = rw (← z.mul_assoc w r u, z.mul_comm w r) (z.mul_assoc r w u)

    cols_suc : isp.cols ≡ suc (isp.cols - 1)
    cols_suc = omega (arith, v.spanning.all_cols, v.cols_eq)

    pub weighted_shares :
        (q : ℕ) → q < k → sum z t (λ r. z.mul (weight z r) (share (q * t + r))) ≡ rho 0
    weighted_shares q hq =
        sum_congr z t _ (λ r. sum z isp.cols (λ j. z.mul (weight z r) (product (q * t + r) j)))
          (λ r _. ap (z.mul (weight z r)) (share-sum (q * t + r)) ∙ mul-sum z isp.cols _ _)
        ∙ sum_comm z t isp.cols (λ r j. z.mul (weight z r) (product (q * t + r) j))
        ∙ sum_congr z isp.cols _ (λ j. z.mul (rho j) (unit z j))
            (λ j hj.
              sum_congr z t _ (λ r. z.mul (rho j) (term z isp.m (q * t) j r))
                (λ r _. regroup (weight z r) (rho j) _)
              ∙ sym (mul-sum z t (rho j) (term z isp.m (q * t) j))
              ∙ ap (z.mul (rho j)) (v.spanning.all_span q hq j (subst (◌<◌ j) v.cols_eq hj)))
        ∙ ap (λ n. sum z n (λ j. z.mul (rho j) (unit z j))) cols_suc
        ∙ sum_first z (isp.cols - 1) _ (λ j. mul-zero z (rho (suc j)))
        ∙ z.mul_comm (rho 0) (z.ulong 1)
        ∙ z.one-mul (rho 0)

    pub get_elem?-compute_shares :
        (q : ℕ)
        → q < k
        → get_elem? (compute_shares z isp rho) q
          ≡ some (map (compute_share z isp rho) (sie_row t (q * t)))
    unfolding compute_shares
    get_elem?-compute_shares q hq = rw v.sie_eq (
        get_elem?-map (map (compute_share z isp rho)) (sie_rows k t 0) q
          (get_elem?-sie_rows k t 0 q hq ∙ ap (λ s. some (sie_row t s)) (omega arith)))
