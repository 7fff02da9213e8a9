-- ===== src/Sharing/Choose.antt =====
-- `nCr` of include/common/algorithms.hpp.
pub mod Exact
use co_fhe.Base.{
  ℕ, zero, suc, ◌+◌, ◌-◌, ◌*◌, ◌/◌, ◌^◌, ◌≡◌, ◌&&◌, refl, ltb, if◌then◌else◌, Option, none, some,
  for_up,
}

-- The binomial coefficient, by Pascal's rule.
unfoldable pub choose : ℕ → ℕ → ℕ
choose n zero = 1
choose zero (suc k) = 0
choose (suc n) (suc k) = choose n k + choose n (suc k)

-- A `double` holds every integer below 2^53 exactly. A product that reaches that bound may be rounded,
-- and the model gives no value for it.
abbrev pub exact_bound : ℕ
exact_bound = 2 ^ 53

-- The absolute value of `n - r + i`, which is negative in the first rounds if `n` is below `r`.
abbrev pub factor : ℕ → ℕ → ℕ → ℕ
factor n r i = if ltb (n + i) r then r - (n + i) else n + i - r

-- One round: `res = res * (n - r + i) / i`. The sign of `res` is not kept: where it becomes negative, `n` is
-- below `r`, and a later round multiplies by 0.
abbrev pub ncr_round : ℕ → ℕ → ℕ → Option ℕ → Option ℕ
ncr_round n r i none = none
ncr_round n r i (some res) =
    if ltb (res * factor n r i) exact_bound then some (res * factor n r i / i) else none

-- The result is converted to an `int`, which has no defined value for a number that it cannot hold.
abbrev pub double_to_int : Option ℕ → Option ℕ
double_to_int none = none
double_to_int (some res) = if ltb res (2 ^ 31) then some res else none

-- `n`, `r` and the counter, which passes `r`, are of type `int`. The model gives no value for numbers that
-- an `int` does not hold.
unfoldable pub ncr : ℕ → ℕ → Option ℕ
unfolding for_up
ncr n r =
    if ltb n (2 ^ 31) && ltb (suc r) (2 ^ 31)
    then double_to_int (for_up 1 r (ncr_round n r) (some 1))
    else none
