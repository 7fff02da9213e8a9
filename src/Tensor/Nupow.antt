-- ===== src/Tensor/Nupow.antt =====
-- `qfi_nupow` of include/x86_64/qfi.inl: the powers of one form for several exponents, by digits of a window
-- of 7 bits, with a table of odd powers and a cache of doubled powers that the exponents share.
-- The cache is kept by the degrees of its entries, which are of type `size_t`.
pub mod Cached
use co_fhe.Base.{
  ℕ, zero, suc, ◌+◌, ◌-◌, ◌*◌, ◌/◌, ◌%◌, ◌^◌, min, ltb, ◌==◌, if◌then◌else◌, Option, none, some,
  List, [], ◌∷◌,
}
use co_fhe.Bicycl.{Mpz, ClassGroup}
use co_fhe.Wire.Outcome.{Outcome, returned, undefined, ◌>>=◌}
use co_fhe.Tensor.Stride.{word}

-- `r`, `curr_degree` and the cache
pub record Power (G : Type 0) : Type 0 where
  pub r : G
  pub curr_degree : ℕ
  pub cache : List (ℕ × G)

-- what a round of the loop over the digits leaves: how many further bits it has used up, `c` and the power
pub record Round (G : Type 0) : Type 0 where
  pub used : ℕ
  pub c : ℕ
  pub power : Power G

-- The newest entry of a degree is the one that the map has.
abbrev pub cached {ℓ} : {A : Type ℓ} → List (ℕ × A) → ℕ → Option A
cached [] degree = none
cached ((d, a) ∷ cache) degree =
    let older = cached cache degree in if d == degree then some a else older

-- `size_t b = ((size_t)j) < w - 1 ? tau + 1 + j - w : tau`
abbrev pub doublings_after : ℕ → ℕ → ℕ
doublings_after j tau = if ltb j 6 then (tau + 1 + j + word - 7) % word else tau

-- the degree of the power that a digit stands for
abbrev pub digit_degree : ℕ → ℕ
digit_degree t = if t == 2 then 2 else t / 2 * 2 + 1

module _ {Z G : Type 0} {z : Mpz Z} (cl : ClassGroup z G) where
  -- `for (i = 1; i <= doubling_degree; i++)`
  abbrev pub double_up : ℕ → Power G → Power G
  double_up zero s = s
  double_up (suc rounds) s =
      let r = cl.nudupl s.r in
      let degree = s.curr_degree * 2 % word in
      double_up rounds (record { r = r; curr_degree = degree; cache = (degree, r) ∷ s.cache })

  -- `if (cache.find(curr_degree) == cache.end()) cache[curr_degree] = QFI(r)`
  abbrev pub with_entry : Power G → Power G
  with_entry s = elim (cached s.cache s.curr_degree) [
    | none ↦ record s { cache = (s.curr_degree, s.r) ∷ s.cache }
    | some a ↦ s
  ]

  -- The doubled power is taken from the cache, or made by doubling.
  abbrev pub doubled : Power G → ℕ → ℕ → Power G
  doubled s doubling_degree final_degree = elim (cached s.cache final_degree) [
    | none ↦ double_up doubling_degree s
    | some a ↦ record s { r = a; curr_degree = final_degree }
  ]

  -- The shift of an `int` by 31 or more is not defined.
  unfoldable pub get_doubled : Power G → ℕ → Outcome (Power G)
  get_doubled s doubling_degree =
      let after =
        doubled (with_entry s) doubling_degree (2 ^ doubling_degree * s.curr_degree % word) in
      if ltb doubling_degree 31 then returned after else undefined

  module _ (f : G) where
    -- `tab[i]`, of which there are 32
    abbrev pub tab : ℕ → G
    tab zero = f
    tab (suc i) = cl.nucomp (tab i) (cl.nudupl f)

    -- `t == 2 ? ff : tab[t >> 1]`
    abbrev pub digit_power : ℕ → Outcome G
    digit_power t =
        let entry = tab (t / 2) in
        if t == 2
        then returned (cl.nudupl f)
        else (if ltb (t / 2) 32 then returned entry else undefined)

    module _ (n : Z) where
      -- The first digit. The limb that `mpn_scan1` searches must not be 0.
      unfoldable pub first_digit : ℕ → List (ℕ × G) → Outcome (Round G)
      unfolding get_doubled
      first_digit j cache =
          let m = cl.bits.extract_bits n j 7 in
          let t = m + m % 2 in
          let tau = min (cl.bits.scan1 t) 6 in
          let digit = t / 2 ^ tau in
          if t == 0 then undefined else (do
            r ← digit_power digit
            s ←
                get_doubled (record { r = r; curr_degree = digit_degree digit; cache = cache })
                  (doublings_after j tau)
            returned (record { used = 6; c = m % 2; power = s }))

      -- The body of `while (j >= 0)`. A digit is taken off where `c`, which is `neg`, is set.
      unfoldable pub next_digit : ℕ → ℕ → Power G → Outcome (Round G)
      unfolding get_doubled
      next_digit j c s =
          let m = cl.bits.extract_bits n j 7 in
          let up = m + m % 2 in
          let t = if c == 0 then up else (128 + word - up) % word in
          let tau = if t == 0 then 6 else min (cl.bits.scan1 t) 6 in
          let digit = t / 2 ^ tau in
          let degree = digit_degree digit in
          if c == m / 64 % 2
          then (do s1 ← get_doubled s 1; returned (record { used = 0; c = c; power = s1 }))
          else (do
            s1 ← get_doubled s (7 - tau)
            x ← digit_power digit
            let s2 =
                if c == 0
                then record s1 {
                  r = cl.nucomp s1.r x;
                  curr_degree = (s1.curr_degree + degree) % word;
                }
                else record s1 {
                  r = cl.nucompinv s1.r x;
                  curr_degree = (s1.curr_degree + word - degree) % word;
                }
            s3 ← get_doubled s2 (doublings_after j tau)
            returned (record { used = 6; c = m % 2; power = s3 }))

      -- the loop over the bits, of which a round with a digit uses up 6 more than its own
      unfoldable pub digit_rounds : ℕ → Round G → Outcome (Round G)
      unfolding next_digit
      digit_rounds zero s = returned s
      digit_rounds (suc j) s = elim s.used [
        | suc used ↦ digit_rounds j (record s { used = used })
        | zero ↦ next_digit j s.c s.power >>= digit_rounds j
      ]

      -- one exponent: its power, and the cache for the next one
      unfoldable pub one_power : List (ℕ × G) → Outcome (G × List (ℕ × G))
      unfolding first_digit digit_rounds
      one_power cache = elim (cl.bits.nbits n) [
        | zero ↦ undefined
        | suc j ↦ do
          s0 ← first_digit j cache
          s ← digit_rounds j s0
          let r = if s.c == 0 then s.power.r else cl.nucompinv s.power.r (tab 0)
          returned ((if cl.bits.is_negative n then cl.neg r else r), s.power.cache)
      ]

    abbrev powers_from : List (ℕ × G) → List Z → Outcome (List G)
    powers_from cache [] = returned []
    powers_from cache (n ∷ ns) = do
      done ← one_power n cache
      rest ← powers_from done.1 ns
      returned (done.0 ∷ rest)

    unfoldable pub qfi_nupow : List Z → Outcome (List G)
    unfolding one_power
    qfi_nupow ns = powers_from [] ns
