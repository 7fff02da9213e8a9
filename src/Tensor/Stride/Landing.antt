-- ===== src/Tensor/Stride/Landing.antt =====
-- Where make_forward_stride and make_backward_stride land.
use co_fhe.Base.{
  ℕ, zero, suc, ◌+◌, ◌-◌, ◌%◌, ◌≤◌, ◌<◌, ◌≡◌, refl, ap, ◌∙◌, arith, ltb, ◌==◌, false, true, List,
  [], ◌∷◌, ◌++◌, length,
}
use co_fhe.Tensor.Stride.{
  word, sub_word, Section, Position, origin, capacity, forward_from, make_forward_stride,
  make_backward_stride,
}

-- A section is a range of the storage.
abbrev pub IsRange : Section → Type 0
IsRange s = (s.start ≤ s.end) × (s.end < word)

abbrev pub AllRanges : List Section → Type 0
AllRanges [] = Unit {0}
AllRanges (s ∷ sections) = IsRange s × AllRanges sections

-- the number of cells in the sections
abbrev pub total : List Section → ℕ
total [] = 0
total (s ∷ sections) = s.end - s.start + total sections

pub capacity-Range : (s : Section) → IsRange s → capacity s ≡ s.end - s.start
capacity-Range s h = omega arith

-- One round, of a stride that goes beyond the section.
pub forward_from-beyond :
    (s : Section) (sections : List Section) (k stride : ℕ)
    → IsRange s
    → s.end - s.start < stride
    → stride < word
    → forward_from (s ∷ sections) stride (record { section = k; consumed = 0 })
      ≡ forward_from sections
          (stride - (s.end - s.start))
          (record { section = k + 1; consumed = 0 })
unfolding forward_from
forward_from-beyond s sections k stride range beyond small =
    let left : sub_word (capacity s) 0 ≡ s.end - s.start = omega arith in
    let less : sub_word stride (s.end - s.start) ≡ stride - (s.end - s.start) = omega arith in
    let nonzero : (stride == 0) ≡ false = ground arith in
    let more : ltb (s.end - s.start) stride ≡ true = ground arith in
    rw (left, nonzero, more, less) refl

-- A stride that ends in the section.
pub forward_from-inside :
    (s : Section) (sections : List Section) (k stride : ℕ)
    → IsRange s
    → stride ≤ s.end - s.start
    → forward_from (s ∷ sections) stride (record { section = k; consumed = 0 })
      ≡ (0, record { section = k; consumed = stride })
unfolding forward_from
forward_from-inside s sections k zero range inside = refl
forward_from-inside s sections k (suc n) range inside =
    let left : sub_word (capacity s) 0 ≡ s.end - s.start = omega arith in
    let nonzero : (suc n == 0) ≡ false = ground arith in
    let less : ltb (s.end - s.start) (suc n) ≡ false = ground arith in
    let sum : (0 + suc n) % word ≡ suc n = omega arith in rw (left, nonzero, less, sum) refl

forward_from-lands :
    (before : List Section) (s : Section) (after : List Section) (k c : ℕ)
    → AllRanges before
    → IsRange s
    → 0 < c
    → c ≤ s.end - s.start
    → total before + c < word
    → forward_from (before ++ s ∷ after) (total before + c) (record { section = k; consumed = 0 })
      ≡ (0, record { section = k + length before; consumed = c })
forward_from-lands [] s after k c ranges range pos inside small =
    let e : 0 + c ≡ c = omega arith in
    let f : k + 0 ≡ k = omega arith in rw (e, f) (forward_from-inside s after k c range inside)
forward_from-lands (b ∷ before) s after k c (rb, ranges) range pos inside small =
    let e : b.end - b.start + total before + c - (b.end - b.start) ≡ total before + c =
      omega arith in
    let f : k + 1 + length before ≡ k + suc (length before) = omega arith in
    forward_from-beyond b (before ++ s ∷ after) k (b.end - b.start + total before + c) rb
      (omega arith) small
    ∙ ap (λ n. forward_from (before ++ s ∷ after) n (record { section = k + 1; consumed = 0 })) e
    ∙ forward_from-lands before s after (k + 1) c ranges range pos inside (omega arith)
    ∙ ap (λ n. let r : ℕ × Position = (0, record { section = n; consumed = c }) in r) f

-- A stride from the start over all of some sections and `c` more cells, of which the next section has as
-- many, is completed, and ends behind `c` cells of that section: at its end, if these are all it has.
pub make_forward_stride-lands :
    (before : List Section) (s : Section) (after : List Section) (c : ℕ)
    → AllRanges before
    → IsRange s
    → 0 < c
    → c ≤ s.end - s.start
    → total before + c < word
    → make_forward_stride (total before + c) (before ++ s ∷ after) origin
      ≡ (0, record { section = length before; consumed = c })
unfolding make_forward_stride
make_forward_stride-lands before s after c ranges range pos inside small =
    forward_from-lands before s after 0 c ranges range pos inside small
    ∙ ap (λ n. let r : ℕ × Position = (0, record { section = n; consumed = c }) in r) (omega arith)

forward_from-leftover :
    (sections : List Section) (k n : ℕ)
    → AllRanges sections
    → 0 < n
    → total sections + n < word
    → forward_from sections (total sections + n) (record { section = k; consumed = 0 })
      ≡ (n, record { section = k + length sections; consumed = 0 })
unfolding forward_from
forward_from-leftover [] k n ranges pos small =
    let e : 0 + n ≡ n = omega arith in let f : k + 0 ≡ k = omega arith in rw (e, f) refl
forward_from-leftover (s ∷ sections) k n (rs, ranges) pos small =
    let e : s.end - s.start + total sections + n - (s.end - s.start) ≡ total sections + n =
      omega arith in
    let f : k + 1 + length sections ≡ k + suc (length sections) = omega arith in
    forward_from-beyond s sections k (s.end - s.start + total sections + n) rs (omega arith) small
    ∙ ap (λ m. forward_from sections m (record { section = k + 1; consumed = 0 })) e
    ∙ forward_from-leftover sections (k + 1) n ranges pos (omega arith)
    ∙ ap (λ m. let r : ℕ × Position = (n, record { section = m; consumed = 0 }) in r) f

-- A stride beyond all sections leaves over what the sections do not have, behind the last of them.
pub make_forward_stride-leftover :
    (sections : List Section) (n : ℕ)
    → AllRanges sections
    → 0 < n
    → total sections + n < word
    → make_forward_stride (total sections + n) sections origin
      ≡ (n, record { section = length sections; consumed = 0 })
unfolding make_forward_stride
make_forward_stride-leftover sections n ranges pos small =
    forward_from-leftover sections 0 n ranges pos small
    ∙ ap (λ m. let r : ℕ × Position = (n, record { section = m; consumed = 0 }) in r) (omega arith)

-- From within the first section, make_backward_stride leaves the sections, whatever the stride is: the
-- new position is in section 2^64 - 1.
pub make_backward_stride-first :
    (stride : ℕ) (sections : List Section) (c : ℕ)
    → 0 < c
    → (make_backward_stride stride sections (record { section = 0; consumed = c })).1.section
      ≡ word - 1
unfolding make_backward_stride
make_backward_stride-first stride sections c pos =
    let nonzero : (c == 0) ≡ false = ground arith in rw nonzero refl
