-- ===== src/Tensor/Nupow/Cached.antt =====
-- What the cache of `qfi_nupow` gives back are the powers that doubling would make.
use co_fhe.Base.{
  ℕ, zero, suc, ◌*◌, ◌%◌, ◌^◌, ◌≤◌, ◌<◌, ◌≡◌, ◌≢◌, refl, sym, ap, ◌∙◌, arith, ◌==◌, if◌then◌else◌,
  lt→ltb, Option, none, some, List, ◌∷◌, subst, true, false, ℕ_discrete,
}
use native.Mathlib.Nat.{pow-suc}
use co_fhe.Bicycl.{Mpz, ClassGroup}
use co_fhe.Wire.Outcome.{returned, undefined}
use co_fhe.Tensor.Stride.{word}
use co_fhe.Tensor.Nupow.{Power, cached, double_up, with_entry, doubled, get_doubled}

two_pow-suc : (b d : ℕ) → 2 ^ b * (d * 2) ≡ 2 ^ suc b * d
two_pow-suc b d = rw (pow-suc 2 b) (omega arith)

two_pow_pos : (b : ℕ) → 1 ≤ 2 ^ b
two_pow_pos zero = omega arith
two_pow_pos (suc b) = omega (arith, two_pow_pos b, pow-suc 2 b)

le-two_pow : (b d : ℕ) → d * 2 ≤ 2 ^ suc b * d
le-two_pow b d = grind (arith, two_pow_pos b, pow-suc 2 b)

beq-true : (d e : ℕ) → d ≡ e → (d == e) ≡ true
beq-true d e same = ground arith

beq-false : (d e : ℕ) → d ≢ e → (d == e) ≡ false
beq-false d e other = ground arith

some_inj {ℓ} : {A : Type ℓ} {a b : A} → some a ≡ some b → a ≡ b
some_inj e = cc

module _ {Z G : Type 0} {z : Mpz Z} (cl : ClassGroup z G) (pow : ℕ → G) where
  -- Each entry of the cache is the power of its degree.
  abbrev pub CacheRight : List (ℕ × G) → Type 0
  CacheRight cache = (d : ℕ) (a : G) → cached cache d ≡ some a → a ≡ pow d

  -- The power is that of a degree, and so are the entries of the cache.
  pub record Right (d : ℕ) (s : Power G) : Type 0 where
    pub r : s.r ≡ pow d
    pub degree : s.curr_degree ≡ d
    pub cache : CacheRight s.cache

  module _ (nudupl-pow : (a : ℕ) → cl.nudupl (pow a) ≡ pow (a * 2)) where
    CacheRight-add :
        (cache : List (ℕ × G)) (d : ℕ) (a : G)
        → a ≡ pow d
        → CacheRight cache
        → CacheRight ((d, a) ∷ cache)
    CacheRight-add cache d a right all e b = elim (ℕ_discrete d e) [
      | yes same ↦ rw (beq-true d e same) (λ found. sym (some_inj found) ∙ right ∙ ap pow same)
      | no other ↦ rw (beq-false d e other) (all e b)
    ]

    double_up-Right :
        (b d : ℕ) (s : Power G)
        → 2 ^ b * d < word
        → Right d s
        → Right (2 ^ b * d) (double_up cl b s)
    double_up-Right zero d s small right = subst (λ k. Right k s) (omega arith) right
    double_up-Right (suc b) d s small right =
        let inside : d * 2 < word = omega (arith, le-two_pow b d) in
        let next : cl.nudupl s.r ≡ pow (d * 2) = ap cl.nudupl right.r ∙ nudupl-pow d in
        let exact : s.curr_degree * 2 % word ≡ d * 2 = rw (right.degree) (omega arith) in
        subst (λ k. Right k (double_up cl (suc b) s)) (two_pow-suc b d)
          (double_up-Right b (d * 2) _ (omega (arith, two_pow-suc b d)) (record {
            r = next;
            degree = exact;
            cache = CacheRight-add s.cache _ _ (next ∙ ap pow (sym exact)) right.cache;
          }))

    with_entry-Right : (d : ℕ) (s : Power G) → Right d s → Right d (with_entry cl s)
    with_entry-Right d s right = go (cached s.cache s.curr_degree)
      where
        go :
            (o : Option G)
            → Right d
                (elim o [ none ↦ record s { cache = (s.curr_degree, s.r) ∷ s.cache } | some a ↦ s ])
        go none = record {
          r = right.r;
          degree = right.degree;
          cache =
              CacheRight-add s.cache s.curr_degree s.r (right.r ∙ ap pow (sym right.degree))
                right.cache;
        }
        go (some a) = right

    doubled-Right :
        (b d : ℕ) (s : Power G)
        → 2 ^ b * d < word
        → Right d s
        → Right (2 ^ b * d) (doubled cl s b (2 ^ b * d))
    doubled-Right b d s small right = go (cached s.cache (2 ^ b * d)) refl
      where
        go :
            (o : Option G)
            → cached s.cache (2 ^ b * d) ≡ o
            → Right (2 ^ b * d) (elim o [
              | none ↦ double_up cl b s
              | some a ↦ record s { r = a; curr_degree = 2 ^ b * d }
            ])
        go none e = double_up-Right b d s small right
        go (some a) e = record {
          r = right.cache (2 ^ b * d) a e;
          degree = refl;
          cache = right.cache;
        }

    -- Doubling b times, b below 31, a power of degree d, with a cache of powers, gives the power of degree
    -- 2^b * d, from the cache or by `nudupl`, and leaves a cache of powers, if 2^b * d is below 2^64.
    pub get_doubled-Right :
        (b d : ℕ) (s : Power G)
        → b < 31
        → 2 ^ b * d < word
        → Right d s
        → (s' : Power G) × (get_doubled cl s b ≡ returned s') × Right (2 ^ b * d) s'
    unfolding get_doubled
    get_doubled-Right b d s few small right = (
      doubled cl (with_entry cl s) b (2 ^ b * d),
      ap
            (λ m.
              if m
              then returned (doubled cl (with_entry cl s) b (2 ^ b * s.curr_degree % word))
              else undefined)
            (lt→ltb b 31 few)
          ∙ ap (λ k. returned (doubled cl (with_entry cl s) b k))
              (ap (λ k. 2 ^ b * k % word) right.degree ∙ omega arith),
      doubled-Right b d (with_entry cl s) small (with_entry-Right d s right),
    )
