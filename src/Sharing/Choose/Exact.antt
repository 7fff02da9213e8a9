-- ===== src/Sharing/Choose/Exact.antt =====
-- `nCr` is the binomial coefficient as long as its products stay exact.
use co_fhe.Base.{
  ℕ, zero, suc, ◌+◌, ◌^◌, ◌-◌, ◌*◌, ◌≤◌, ◌<◌, ◌≡◌, refl, sym, ap, false, dec_lt, ◌∙◌, ltb, lt→ltb,
  if◌then◌else◌, Option, some, for_up, for_up_range, arith,
}
use native.Mathlib.Nat.{mul-div_cancel_left}
use co_fhe.Sharing.Choose.{choose, exact_bound, factor, ncr_round, ncr, double_to_int}

pub choose_absorb : (n k : ℕ) → suc k * choose (suc n) (suc k) ≡ suc n * choose n k
unfolding choose
choose_absorb zero zero = refl
choose_absorb zero (suc k) = omega arith
choose_absorb (suc n) zero = omega (arith, choose_absorb n zero)
choose_absorb (suc n) (suc k) = omega (arith, choose_absorb n k, choose_absorb n (suc k))

pub choose_pos : (n k : ℕ) → k ≤ n → 1 ≤ choose n k
unfolding choose
choose_pos n zero h = omega arith
choose_pos zero (suc k) h = absurd (omega arith)
choose_pos (suc n) (suc k) h = omega (arith, choose_pos n k (omega arith))

choose_above : (n k : ℕ) → n < k → choose n k ≡ 0
unfolding choose
choose_above zero (suc k) h = refl
choose_above n zero h = absurd (omega arith)
choose_above (suc n) (suc k) h =
    omega (arith, choose_above n k (omega arith), choose_above n (suc k) (omega arith))

choose_next : (k e : ℕ) → choose (k + e) k * e ≡ suc k * choose (k + e) (suc k)
unfolding choose
choose_next k e = omega (arith, choose_absorb (k + e) k)

-- The absolute value of `res` after round `i`.
abbrev pub after_round : ℕ → ℕ → ℕ → ℕ
after_round n r i = if ltb n r then choose (r - n - 1) i else choose (n - r + i) i

-- The products that the rounds of `ncr n r` form stay exact.
abbrev pub RoundsFit : ℕ → ℕ → Type 0
RoundsFit n r = (i : ℕ) → i < r → suc i * after_round n r (suc i) < exact_bound

-- `n`, `r` and the counter are of type `int`, the products of the rounds are below 2^53, and the result is
-- an `int`.
abbrev pub NcrFits : ℕ → ℕ → Type 0
NcrFits n r = (n < 2 ^ 31) × (suc r < 2 ^ 31) × RoundsFit n r × (choose n r < 2 ^ 31)

split_next : (d i e : ℕ) → d ≡ i + e → choose d i * e ≡ suc i * choose d (suc i)
split_next d i e split = rw split (choose_next i e)

-- What a round multiplies with, for `n` below `r`: `d - i`, or something that meets a 0.
below_step : (n d i : ℕ) → choose d i * factor n (suc (n + d)) (suc i) ≡ suc i * choose d (suc i)
below_step n d i = elim (dec_lt d i) [
  | yes p ↦ rw (choose_above d i p, choose_above d (suc i) (omega arith)) (omega arith)
  | no p ↦
      let same : factor n (suc (n + d)) (suc i) ≡ d - i = ground arith in
      rw same (split_next d i (d - i) (omega arith))
]

above_step : (m m' i : ℕ) → m' ≡ suc m → choose m i * m' ≡ suc i * choose m' (suc i)
above_step m m' i e = rw e (omega (arith, choose_absorb m i))

product_step :
    (n r i : ℕ) → i < r → after_round n r i * factor n r (suc i) ≡ suc i * after_round n r (suc i)
product_step n r i hi = elim (dec_lt n r) [
  | yes p ↦
      let split : r ≡ suc (n + (r - n - 1)) = omega arith in
      rw (lt→ltb n r p)
        (ap (λ m. choose (r - n - 1) i * factor n m (suc i)) split ∙ below_step n (r - n - 1) i)
  | no p ↦
      let above : ltb n r ≡ false = ground arith in
      let same : factor n r (suc i) ≡ n - r + suc i = ground arith in
      rw (above, same) (above_step (n - r + i) (n - r + suc i) i (omega arith))
]

module _ (n r : ℕ) (fits : RoundsFit n r) where
  ncr_round-after_round :
      (i : ℕ)
      → i < r
      → ncr_round n r (suc i) (some (after_round n r i)) ≡ some (after_round n r (suc i))
  ncr_round-after_round i hi = rw (
    product_step n r i hi,
    lt→ltb _ _ (fits i hi),
    mul-div_cancel_left (after_round n r (suc i)) {n = suc i} (omega arith),
  )

  -- what `res` is when round `i` begins
  abbrev Before : ℕ → Option ℕ → Type 0
  Before zero res = ⊥
  Before (suc i) res = res ≡ some (after_round n r i)

  Before-step :
      (i : ℕ) (res : Option ℕ) → i < suc r → Before i res → Before (suc i) (ncr_round n r i res)
  Before-step zero res hi b = absurd b
  Before-step (suc i) res hi b = rw b (ncr_round-after_round i (omega arith))

  after_no_round : after_round n r 0 ≡ 1
  unfolding choose
  after_no_round = ground arith

  loop-choose : for_up 1 r (ncr_round n r) (some 1) ≡ some (after_round n r r)
  loop-choose =
      for_up_range Before (ncr_round n r) (suc r) Before-step r 1 (some 1) (omega arith)
        (ap some (sym after_no_round))

after_round-choose : (n r : ℕ) → after_round n r r ≡ choose n r
after_round-choose n r = elim (dec_lt n r) [
  | yes p ↦ rw (lt→ltb n r p, choose_above n r p) (choose_above (r - n - 1) r (omega arith))
  | no p ↦
      let above : ltb n r ≡ false = ground arith in
      let total : n - r + r ≡ n = omega arith in rw (above, total) refl
]

-- For `n` and `r` that an `int` holds, `r + 1` too, `nCr(n, r)` is the binomial coefficient as long as the
-- products of its rounds stay below 2^53 and it is itself an `int`, also for `r > n`, where it is 0.
pub ncr-choose : (n r : ℕ) → NcrFits n r → ncr n r ≡ some (choose n r)
unfolding ncr
ncr-choose n r (n_int, r_int, fits, small) =
    rw (lt→ltb n (2 ^ 31) n_int, lt→ltb (suc r) (2 ^ 31) r_int)
      (ap double_to_int (loop-choose n r fits ∙ ap some (after_round-choose n r))
        ∙ rw (lt→ltb (choose n r) (2 ^ 31) small))
