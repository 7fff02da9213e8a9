-- ===== src/Tensor/Stride.antt =====
-- make_forward_stride and make_backward_stride of include/common/tensor.hpp: how a position moves through
-- sections of a storage. The vectors of their starts and of their ends are one list here. All numbers are
-- `size_t`.
pub mod Landing
use co_fhe.Base.{
  ℕ, zero, suc, ◌+◌, ◌-◌, ◌%◌, ◌^◌, min, ltb, leb, ◌==◌, ◌||◌, if◌then◌else◌, List, [], ◌∷◌, length,
  drop,
}

abbrev pub word : ℕ
word = 2 ^ 64

-- a - b in `size_t`
abbrev pub sub_word : ℕ → ℕ → ℕ
sub_word a b = (a + word - b) % word

pub record Section : Type 0 where
  pub start : ℕ
  pub end : ℕ

-- A section, by its number, and how much of it is behind the position.
pub record Position : Type 0 where
  pub section : ℕ
  pub consumed : ℕ

abbrev pub origin : Position
origin = record { section = 0; consumed = 0 }

abbrev pub capacity : Section → ℕ
capacity s = sub_word s.end s.start

-- The loop of make_forward_stride over the sections from the position's on: what is left of the stride,
-- and the new position.
unfoldable pub forward_from : List Section → ℕ → Position → ℕ × Position
forward_from [] stride p = (stride, p)
forward_from (s ∷ sections) stride p =
    let left = sub_word (capacity s) p.consumed in
    let next : Position = record { section = p.section + 1; consumed = 0 } in
    let rest = forward_from sections (sub_word stride left) next in
    if stride == 0
    then (stride, p)
    else if ltb left stride
    then rest
    else (0, record p { consumed = (p.consumed + stride) % word })

unfoldable pub make_forward_stride : ℕ → List Section → Position → ℕ × Position
unfolding forward_from
make_forward_stride stride sections p = forward_from (drop p.section sections) stride p

-- The loop of make_backward_stride, where there are `count` sections. Below section 0 the number of the
-- section is the largest `size_t`, which ends the loop.
unfoldable pub backward_from : ℕ → ℕ → ℕ → ℕ → ℕ × Position
backward_from count zero stride consumed =
    if stride == 0 || count == 0
    then (stride, record { section = 0; consumed = consumed })
    else if ltb consumed stride
    then (stride - consumed, record { section = word - 1; consumed = 0 })
    else (0, record { section = 0; consumed = consumed - stride })
backward_from count (suc k) stride consumed =
    let rest = backward_from count k (stride - consumed) 0 in
    if stride == 0 || leb count (suc k)
    then (stride, record { section = suc k; consumed = consumed })
    else if ltb consumed stride
    then rest
    else (0, record { section = suc k; consumed = consumed - stride })

-- behind a section that was left when the consumed part was given back
abbrev pub backward_after : ℕ → ℕ → ℕ → ℕ → ℕ × Position
backward_after count zero stride consumed =
    (stride, record { section = word - 1; consumed = consumed })
backward_after count (suc k) stride consumed = backward_from count k stride consumed

unfoldable pub make_backward_stride : ℕ → List Section → Position → ℕ × Position
unfolding backward_from
make_backward_stride stride sections p =
    let consumed = p.consumed - min p.consumed stride in
    if p.consumed == 0
    then backward_from (length sections) p.section stride 0
    else backward_after (length sections) p.section (sub_word stride consumed) consumed
