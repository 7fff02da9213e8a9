-- ===== src/Pointers/Block/Counts.antt =====
-- The counts of the control blocks against the number of the pointers that own them.
use co_fhe.Base.{
  ℕ, suc, ◌+◌, ◌-◌, ◌%◌, ◌<◌, Bool, true, false, ◌==◌, ltb, if◌then◌else◌, Option, none, some, List,
  [], ◌∷◌, ◌>>=◌, ◌≡◌, ◌≢◌, refl, sym, subst, ap, ◌∙◌, arith, ℕ_discrete,
}
use co_fhe.Pointers.Block.{
  Heap, Block, put, word, empty, allocate, increment, decrement, call_deleter,
}

abbrev pub owns : Option ℕ → ℕ → ℕ
owns none c = 0
owns (some b) c = if c == b then 1 else 0

abbrev pub deletions : ℕ → List (ℕ × Option ℕ) → ℕ
deletions c [] = 0
deletions c ((b, p) ∷ ds) = owns (some b) c + deletions c ds

-- A block with `n` owners that was made, or not yet: its deleter was called once when there are none left.
pub record IsCounted (n : ℕ) (x : Block) (made : Bool) (called : ℕ) : Type 0 where
  pub exact : x.count ≡ n
  pub no_weak : x.weak_count ≡ 0
  pub gone : x.freed ≡ (n == 0)
  pub once : called ≡ (if made then (if n == 0 then 1 else 0) else 0)
  pub later : made ≡ false → n ≡ 0

abbrev pub Counted : (ℕ → ℕ) → Heap → Type 0
Counted n h = (c : ℕ) → IsCounted (n c) (h.blocks c) (ltb c h.next) (deletions c h.deleted)

pub empty-Counted : Counted (λ c. 0) empty
empty-Counted c = record {
  exact = refl;
  no_weak = refl;
  gone = refl;
  once = ground arith;
  later = λ _. refl;
}

pub beq_refl : (b : ℕ) → (b == b) ≡ true
beq_refl b = ground arith

pub beq_ne : (c b : ℕ) → c ≢ b → (c == b) ≡ false
beq_ne c b ne = ground arith

pub owns_self : (b : ℕ) → owns (some b) b ≡ 1
owns_self b = ground arith

owns_other : (c b : ℕ) → c ≢ b → owns (some b) c ≡ 0
owns_other c b ne = ground arith

-- A write to one block: the counts are to be shown for that block, and for the others as they were.
put-Counted :
    (n' : ℕ → ℕ) (b : ℕ) (y : Block) (h : Heap) (following : ℕ) (log : List (ℕ × Option ℕ))
    → IsCounted (n' b) y (ltb b following) (deletions b log)
    → ((c : ℕ) → c ≢ b → IsCounted (n' c) (h.blocks c) (ltb c following) (deletions c log))
    → Counted n' (record (put b y h) { next = following; deleted = log })
put-Counted n' b y h following log here others c = elim (ℕ_discrete c b) [
  | yes e ↦
      subst
        (λ k.
          IsCounted (n' k) (if k == b then y else h.blocks k) (ltb k following) (deletions k log))
        (sym e)
        (subst
          (λ t. IsCounted (n' b) (if t then y else h.blocks b) (ltb b following) (deletions b log))
          (sym (beq_refl b)) here)
  | no ne ↦ rw (beq_ne c b ne) (others c ne)
]

-- One owner more of a block that has one.
pub increment-Counted :
    (n n' : ℕ → ℕ) (b : ℕ) (h : Heap)
    → Counted n h
    → 0 < n b
    → n b + 1 < word
    → ((c : ℕ) → n' c ≡ n c + owns (some b) c)
    → (h' : Heap) × (increment b h ≡ some h') × Counted n' h'
unfolding increment
increment-Counted n n' b h v some_owner small more =
    let x : Block = h.blocks b in
    let w : IsCounted (n b) x (ltb b h.next) (deletions b h.deleted) = v b in
    let y : Block = record x { count = (x.count + 1) % word } in
    let alive : x.freed ≡ false = w.gone ∙ ground arith in
    let own : owns (some b) b ≡ 1 = owns_self b in
    let now : n' b ≡ n b + 1 = omega (arith, more b) in
    let here : IsCounted (n' b) y (ltb b h.next) (deletions b h.deleted) = record {
      exact = omega (arith, w.exact);
      no_weak = w.no_weak;
      gone = ground (arith, w.gone);
      once = w.once ∙ ground arith;
      later = λ e. absurd (omega (arith, w.later e));
    } in
    (
      put b y h,
      ap (λ f. if f then none else some (put b y h)) alive,
      put-Counted n' b y h h.next h.deleted here
          λ c ne. let same : n' c ≡ n c = omega (arith, more c, owns_other c b ne) in rw same (v c),
    )

pub allocate-Counted :
    (n n' : ℕ → ℕ) (h : Heap)
    → Counted n h
    → ((c : ℕ) → n' c ≡ n c + owns (some h.next) c)
    → Counted n' (allocate h).1
unfolding allocate
allocate-Counted n n' h v more =
    let b : ℕ = h.next in
    let w : IsCounted (n b) (h.blocks b) (ltb b h.next) (deletions b h.deleted) = v b in
    let y : Block = record { count = 1; weak_count = 0; freed = false } in
    let unmade : ltb b b ≡ false = ground arith in
    let now : n' b ≡ 1 = omega (arith, more b, owns_self b, w.later unmade) in
    let here : IsCounted (n' b) y (ltb b (suc b)) (deletions b h.deleted) = record {
      exact = sym now;
      no_weak = refl;
      gone = ground arith;
      once = w.once ∙ ground arith;
      later = λ e. absurd (grind arith);
    } in
    put-Counted n' b y h (suc b) h.deleted here λ c ne.
      let same : n' c ≡ n c = omega (arith, more c, owns_other c b ne) in
      let made : ltb c (suc b) ≡ ltb c b = ground arith in rw (same, made) (v c)

module _ (b : ℕ) (ptr : Option ℕ) (h : Heap) (alive : (h.blocks b).freed ≡ false)
    (no_weak : (h.blocks b).weak_count ≡ 0) where
  call_deleter-shared : ((h.blocks b).count == 0) ≡ false → call_deleter b ptr h ≡ some h
  unfolding call_deleter
  call_deleter-shared e = rw (alive, no_weak, e) refl

  call_deleter-last :
      (h.blocks b).count ≡ 0
      → call_deleter b ptr h
        ≡ some (record (put b (record (h.blocks b) { freed = true }) h) {
          deleted = (b, ptr) ∷ h.deleted;
        })
  unfolding call_deleter
  call_deleter-last e = rw (alive, no_weak, e) refl

-- One owner less: the block's deleter is called, and the block freed, when that was the last one.
pub release-Counted :
    (n n' : ℕ → ℕ) (b : ℕ) (ptr : Option ℕ) (h : Heap)
    → Counted n h
    → n b < word
    → ((c : ℕ) → n' c + owns (some b) c ≡ n c)
    → (h' : Heap) × ((decrement b h >>= call_deleter b ptr) ≡ some h') × Counted n' h'
unfolding decrement call_deleter
release-Counted n n' b ptr h v small less =
    let x : Block = h.blocks b in
    let w : IsCounted (n b) x (ltb b h.next) (deletions b h.deleted) = v b in
    let y : Block = record x { count = (x.count + (word - 1)) % word } in
    let alive : x.freed ≡ false = w.gone ∙ grind (arith, less b, owns_self b) in
    let own : owns (some b) b ≡ 1 = owns_self b in
    let now : n' b + 1 ≡ n b = omega (arith, less b) in
    let counted : y.count ≡ n' b = omega (arith, w.exact) in
    let started : decrement b h ≡ some (put b y h) =
      ap (λ f. if f then none else some (put b y h)) alive in
    let h₁ : Heap = put b y h in
    let written : h₁.blocks b ≡ y = ap (λ t. if t then y else x) (beq_refl b) in
    let others : (c : ℕ)
        → c ≢ b
        → IsCounted (n' c) (h₁.blocks c) (ltb c h.next) (deletions c h.deleted) =
      λ c ne.
        let same : n' c ≡ n c = omega (arith, less c, owns_other c b ne) in
        rw (beq_ne c b ne, same) (v c) in
    elim (ℕ_discrete (n' b) 0) [
      | yes last ↦
          let freed : Block = record (h₁.blocks b) { freed = true } in
          let here : IsCounted (n' b) freed (ltb b h.next) (deletions b ((b, ptr) ∷ h.deleted)) =
            record {
              exact = ap (λ z. z.count) written ∙ counted;
              no_weak = ap (λ z. z.weak_count) written ∙ w.no_weak;
              gone = ground arith;
              once = grind (arith, own, w.once, w.later);
              later = λ _. last;
            } in
          (
            record (put b freed h₁) { deleted = (b, ptr) ∷ h.deleted },
            ap (λ m. m >>= call_deleter b ptr) started
                ∙ call_deleter-last b ptr h₁ (ap (λ z. z.freed) written ∙ alive)
                    (ap (λ z. z.weak_count) written ∙ w.no_weak)
                    (ap (λ z. z.count) written ∙ counted ∙ last),
            put-Counted n' b freed h₁ h.next ((b, ptr) ∷ h.deleted) here λ c ne.
                let logged : owns (some b) c + deletions c h.deleted ≡ deletions c h.deleted =
                  omega (arith, owns_other c b ne) in
                rw logged (others c ne),
          )
      | no more ↦
          let here : IsCounted (n' b) y (ltb b h.next) (deletions b h.deleted) = record {
            exact = counted;
            no_weak = w.no_weak;
            gone = alive ∙ ground arith;
            once = w.once ∙ ground arith;
            later = λ e. absurd (grind (arith, w.later));
          } in
          (
            h₁,
            ap (λ m. m >>= call_deleter b ptr) started
                ∙ call_deleter-shared b ptr h₁ (ap (λ z. z.freed) written ∙ alive)
                    (ap (λ z. z.weak_count) written ∙ w.no_weak)
                    (ap (λ z. z.count == 0) written ∙ ground arith),
            put-Counted n' b y h h.next h.deleted here λ c ne.
                let same : n' c ≡ n c = omega (arith, less c, owns_other c b ne) in rw same (v c),
          )
    ]
