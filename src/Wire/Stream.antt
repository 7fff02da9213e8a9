-- ===== src/Wire/Stream.antt =====
-- What the code uses of `std::istringstream`: `std::getline` and `>>` into `int` and `size_t`.
pub mod Laws
use co_fhe.Base.{
  ℕ, zero, suc, ◌+◌, ◌-◌, ◌%◌, ◌^◌, ◌≤◌, ◌<◌, ◌≡◌, refl, ap, ◌∙◌, Bool, true, false, ◌&&◌, ◌||◌,
  leb, ltb, ◌==◌, if◌then◌else◌, Option, none, some, List, [], ◌∷◌, ◌++◌, append_assoc, Bytes,
  codes, lt→ltb, arith,
}
use co_fhe.Wire.Decimal.{
  to_string, is_digit, read_digits, EndsNumber, StartsDigit, read_digits-to_string,
  to_string-StartsDigit,
}

abbrev pub newline : ℕ
newline = 10

abbrev pub space : ℕ
space = 32

abbrev pub is_space : ℕ → Bool
is_space c = c == space || (leb 9 c && leb c 13)

-- The bytes before the first newline, and those behind it; `none` if there is no newline.
unfoldable pub split_line : Bytes → Bytes × Option Bytes
split_line [] = ([], none)
split_line (c ∷ s) =
    let (line, rest) = split_line s in if c == newline then ([], some s) else (c ∷ line, rest)

-- A stream is the text left to read, or has failed.
abbrev pub Stream : Type 0
Stream = Option Bytes

unfoldable pub skip_spaces : Bytes → Bytes
skip_spaces [] = []
skip_spaces (c ∷ s) = let rest = skip_spaces s in if is_space c then rest else c ∷ s

-- The type of the variable that `>>` writes. Its value is its bit pattern: an `int` has 32 bits, a
-- `size_t` 64.
pub data Width : Type 0 where
  int size_t : Width

-- A number out of range is stored as the nearest one in range, and the stream fails.
abbrev pub store : Width → Bool → ℕ → Bytes → Option ℕ × Stream
store int false v rest = if ltb v (2 ^ 31) then (some v, some rest) else (some (2 ^ 31 - 1), none)
store int true v rest =
    if leb v (2 ^ 31) then (some ((2 ^ 32 - v) % 2 ^ 32), some rest) else (some (2 ^ 31), none)
store size_t negative v rest =
    if ltb v (2 ^ 64)
    then (some (if negative then (2 ^ 64 - v) % 2 ^ 64 else v), some rest)
    else (some (2 ^ 64 - 1), none)

-- Digits, behind the sign: with none, 0 is stored and the stream fails.
abbrev pub read_unsigned : Width → Bool → Bytes → Option ℕ × Stream
read_unsigned w negative [] = (some 0, none)
read_unsigned w negative (c ∷ s) =
    if is_digit c
    then (let (v, rest) = read_digits 0 (c ∷ s) in store w negative v rest)
    else (some 0, none)

-- At the end of the text nothing is stored.
abbrev pub read_field : Width → Bytes → Option ℕ × Stream
read_field w [] = (none, none)
read_field w (c ∷ s) =
    if c == b'-'
    then read_unsigned w true s
    else if c == b'+'
    then read_unsigned w false s
    else read_unsigned w false (c ∷ s)

-- `stream >> x`: what is stored in `x`, `none` if nothing is, and the stream behind it.
unfoldable pub extract : Width → Stream → Option ℕ × Stream
unfolding skip_spaces read_digits
extract w none = (none, none)
extract w (some s) = read_field w (skip_spaces s)

abbrev pub Fits : Width → ℕ → Type 0
Fits int n = n < 2 ^ 31
Fits size_t n = n < 2 ^ 64

extract_run : extract int (some (codes "  42 7")) ≡ (some 42, some (codes " 7"))
unfolding extract
extract_run = refl

extract_failures :
    (extract size_t (some (codes "-1")) ≡ (some (2 ^ 64 - 1), some []))
    × (extract int (some (codes "x")) ≡ (some 0, none))
    × (extract int (some (codes " ")) ≡ (none, none))
unfolding extract
extract_failures = (refl, refl, refl)
