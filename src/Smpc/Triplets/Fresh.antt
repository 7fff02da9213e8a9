-- ===== src/Smpc/Triplets/Fresh.antt =====
-- No triplet is handed out twice.
use co_fhe.Base.{
  ℕ, zero, suc, ◌+◌, ◌-◌, ◌^◌, ◌%◌, ◌≤◌, ◌<◌, ◌≡◌, refl, sym, ap, ap₂, ◌∙◌, subst, true, false, leb,
  List, [], ◌∷◌, ◌++◌, length, take, drop, dec_le, arith,
}
use co_fhe.Wire.Outcome.{Outcome, returned, ◌>>=◌}
use co_fhe.Smpc.Triplets.{Cache, stock, get_beavers_triplets, get_all}

module _ {T : Type 0} (fresh : ℕ → T) where
  -- `fresh start`, …, `fresh (start + n - 1)`
  abbrev pub range : ℕ → ℕ → List T
  range start zero = []
  range start (suc n) = fresh start ∷ range (suc start) n

  -- A setup node that answers with triplets that it has not given before: its state is their number.
  abbrev pub supply : ℕ → ℕ → ℕ × Outcome (List T)
  supply given n = (given + n, returned (range given n))

  length-range : (start n : ℕ) → length (range start n) ≡ n
  length-range start zero = refl
  length-range start (suc n) = ap suc (length-range (suc start) n)

  take-range : (k start n : ℕ) → k ≤ n → take k (range start n) ≡ range start k
  take-range zero start n h = refl
  take-range (suc k) start zero h = absurd (omega arith)
  take-range (suc k) start (suc n) h =
      ap (◌∷◌ (fresh start)) (take-range k (suc start) n (omega arith))

  drop-range : (k start n : ℕ) → k ≤ n → drop k (range start n) ≡ range (start + k) (n - k)
  drop-range zero start n h = ap₂ range (omega arith) (omega arith)
  drop-range (suc k) start zero h = absurd (omega arith)
  drop-range (suc k) start (suc n) h =
      drop-range k (suc start) n (omega arith) ∙ ap₂ range (omega arith) (omega arith)

  drop-nil : (n : ℕ) → drop {A = T} n [] ≡ []
  drop-nil zero = refl
  drop-nil (suc n) = refl

  drop-drop : (i n : ℕ) (xs : List T) → drop (i + n) xs ≡ drop n (drop i xs)
  drop-drop zero n xs = let same : 0 + n ≡ n = omega arith in ap (λ k. drop k xs) same
  drop-drop (suc i) n [] = drop-nil (suc i + n) ∙ sym (drop-nil n)
  drop-drop (suc i) n (x ∷ xs) =
      let same : suc i + n ≡ suc (i + n) = omega arith in
      ap (λ k. drop k (x ∷ xs)) same ∙ drop-drop i n xs

  append-range : (start m n : ℕ) → range start m ++ range (start + m) n ≡ range start (m + n)
  append-range start zero n = ap₂ range (omega arith) (omega arith)
  append-range start (suc m) n =
      let next : start + suc m ≡ suc start + m = omega arith in
      let more : suc (m + n) ≡ suc m + n = omega arith in
      ap (◌∷◌ (fresh start))
        (ap (λ s. range (suc start) m ++ range s n) next ∙ append-range (suc start) m n)
      ∙ ap (range start) more

  -- The stock is what the node gave last: `handed` triplets have been handed out, and `given` given.
  pub record Stocked (handed given : ℕ) (c : Cache T) : Type 0 where
    pub connected : c.connected ≡ true
    pub index_fits : c.index ≤ length c.triplets
    pub small : length c.triplets < 2 ^ 64
    pub counted : handed + (length c.triplets - c.index) ≡ given
    pub kept : drop c.index c.triplets ≡ range handed (length c.triplets - c.index)

  abbrev pub total : List ℕ → ℕ
  total [] = 0
  total (size ∷ sizes) = size + total sizes

  leb-true : (m n : ℕ) → m ≤ n → leb m n ≡ true
  leb-true m n h = ground arith

  leb-false : (m n : ℕ) → n < m → leb m n ≡ false
  leb-false m n h = ground arith

  module _ (cache_size size handed given : ℕ) (c : Cache T) (s : Stocked handed given c)
      (small : size + cache_size < 2 ^ 64) where
    abbrev avail : ℕ
    avail = length c.triplets - c.index

    stock-avail : stock supply cache_size c ≡ avail
    stock-avail = omega (arith, s.index_fits, s.small)

    -- A call hands out the next triplets, and the stock goes on behind them.
    Hands : ℕ × (Cache T × Outcome (List T)) → Type 0
    Hands (given', (c', out)) =
        Stocked (handed + size) given' c' × (out ≡ returned (range handed size))

    abbrev shorter : Cache T
    shorter = record { connected = true; triplets = c.triplets; index = (c.index + size) % 2 ^ 64 }

    from_stock :
        size ≤ avail
        → get_beavers_triplets supply cache_size given c size
          ≡ (given, (shorter, returned (take size (drop c.index c.triplets))))
    unfolding get_beavers_triplets
    from_stock h = rw (s.connected, stock-avail, leb-true size avail h) refl

    shorter-Hands :
        size ≤ avail → Hands (given, (shorter, returned (take size (drop c.index c.triplets))))
    unfolding Hands
    shorter-Hands h =
        let moved : (c.index + size) % 2 ^ 64 ≡ c.index + size =
          omega (arith, h, s.index_fits, s.small) in
        let rest : length c.triplets - (c.index + size) ≡ avail - size = omega arith in
        (
          record {
            connected = refl;
            index_fits = omega (arith, moved, h, s.index_fits);
            small = s.small;
            counted = omega (arith, moved, h, s.index_fits, s.counted);
            kept =
                ap (λ i. drop i c.triplets) moved
                ∙ drop-drop c.index size c.triplets
                ∙ ap (drop size) s.kept
                ∙ drop-range size handed avail h
                ∙ ap (range (handed + size))
                    (sym rest ∙ ap (λ i. length c.triplets - i) (sym moved));
          },
          ap (λ xs. returned (take size xs)) s.kept ∙ ap returned (take-range size handed avail h),
        )

    abbrev missing : ℕ
    missing = size - avail

    abbrev wanted : ℕ
    wanted = size + cache_size - avail

    abbrev filled : Cache T
    filled = record { connected = true; triplets = range (handed + size) cache_size; index = 0 }

    module _ (h : avail < size) where
      wanted_no_wrap : (size + cache_size + 2 ^ 64 - avail) % 2 ^ 64 ≡ wanted
      wanted_no_wrap = omega (arith, h, small)

      kept_back : drop missing (range given wanted) ≡ range (handed + size) cache_size
      kept_back =
          let start : given + missing ≡ handed + size = omega (arith, h, s.counted) in
          let count : wanted - missing ≡ cache_size = omega (arith, h) in
          drop-range missing given wanted (omega (arith, h)) ∙ ap₂ range start count

      given_out : drop c.index c.triplets ++ take missing (range given wanted) ≡ range handed size
      given_out =
          let start : given ≡ handed + avail = omega (arith, s.counted) in
          let count : avail + missing ≡ size = omega (arith, h) in
          ap₂ ◌++◌ s.kept (take-range missing given wanted (omega (arith, h)))
          ∙ ap (λ g. range handed avail ++ range g missing) start
          ∙ append-range handed avail missing
          ∙ ap (range handed) count

      enough : leb missing (length (range given wanted)) ≡ true
      enough =
          leb-true missing (length (range given wanted))
            (omega (arith, h, length-range given wanted))

      from_node :
          get_beavers_triplets supply cache_size given c size
          ≡ (given + wanted, (filled, returned (range handed size)))
      unfolding get_beavers_triplets
      from_node =
          rw
            (
              s.connected,
              stock-avail,
              leb-false size avail h,
              wanted_no_wrap,
              enough,
              kept_back,
              given_out,
            )
            refl

      filled-Hands : Hands (given + wanted, (filled, returned (range handed size)))
      unfolding Hands
      filled-Hands =
          let count : length (range (handed + size) cache_size) ≡ cache_size =
            length-range (handed + size) cache_size in
          (
            record {
              connected = refl;
              index_fits = omega arith;
              small = omega (arith, count, small);
              counted = omega (arith, count, h, s.counted);
              kept = ap (range (handed + size)) (omega (arith, count));
            },
            refl,
          )

    hands : Hands (get_beavers_triplets supply cache_size given c size)
    hands = elim (dec_le size avail) [
      | yes h ↦ subst Hands (sym (from_stock h)) (shorter-Hands h)
      | no h ↦
          let more : avail < size = omega (arith, h) in
          subst Hands (sym (from_node more)) (filled-Hands more)
    ]

  abbrev pub AllSmall : ℕ → List ℕ → Type 0
  AllSmall cache_size [] = Unit {0}
  AllSmall cache_size (size ∷ sizes) = (size + cache_size < 2 ^ 64) × AllSmall cache_size sizes

  -- The calls of a client whose stock is what its node gave last, and whose node gives new triplets each
  -- time, hand out each triplet once and in order: together the first that were not yet handed out,
  -- whatever is fetched ahead, if that and each call stay below 2^64 together.
  pub get_all-range :
      (cache_size : ℕ) (sizes : List ℕ) (handed given : ℕ) (c : Cache T)
      → Stocked handed given c
      → AllSmall cache_size sizes
      → get_all supply cache_size given c sizes ≡ returned (range handed (total sizes))
  unfolding get_all Hands
  get_all-range cache_size [] handed given c s small = refl
  get_all-range cache_size (size ∷ sizes) handed given c s (small, others) =
      let (next, out) = hands cache_size size handed given c s small in
      let step : ℕ × (Cache T × Outcome (List T)) =
        get_beavers_triplets supply cache_size given c size in
      ap
        (λ m. m >>= (λ first.
          get_all supply cache_size step.0 step.1.0 sizes
          >>= (λ others. returned (first ++ others))))
        out
      ∙ ap (λ m. m >>= (λ others. returned (range handed size ++ others)))
          (get_all-range cache_size sizes (handed + size) step.0 step.1.0 next others)
      ∙ ap returned (append-range handed size (total sizes))
