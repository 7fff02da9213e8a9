-- ===== src/Wire/Stream/Laws.antt =====
-- Printed numbers are read back by `>>`, and a line by `std::getline`.
use co_fhe.Base.{
  ℕ, zero, suc, ◌+◌, ◌/◌, ◌%◌, ◌^◌, ◌≤◌, ◌≡◌, refl, ap, ◌∙◌, true, false, ltb, ◌-◌, ◌==◌, none,
  some, [], ◌∷◌, ◌++◌, Bytes, lt→ltb, arith,
}
use co_fhe.Wire.Decimal.{
  digits, to_string, is_digit, read_digits, EndsNumber, StartsDigit, read_digits-to_string,
  to_string-StartsDigit,
}
use co_fhe.Wire.Stream.{
  newline, space, is_space, split_line, skip_spaces, Width, int, size_t, store, read_field, extract,
  Fits,
}

not_below : {n : ℕ} → 2 ^ 31 ≤ n → ltb n (2 ^ 31) ≡ false
not_below large = ground arith

store-Fits :
    (w : Width) (v : ℕ) (rest : Bytes) → Fits w v → store w false v rest ≡ (some v, some rest)
store-Fits int v rest h = rw (lt→ltb v (2 ^ 31) h)
store-Fits size_t v rest h = rw (lt→ltb v (2 ^ 64) h)

module _ (c : ℕ) (h : is_digit c ≡ true) where
  digit_no_space : is_space c ≡ false
  digit_no_space = ground arith

  digit_no_minus : (c == b'-') ≡ false
  digit_no_minus = ground arith

  digit_no_plus : (c == b'+') ≡ false
  digit_no_plus = ground arith

  pub digit_no_newline : (c == newline) ≡ false
  digit_no_newline = ground arith

read_number :
    (w : Width) (s : Bytes)
    → StartsDigit s
    → read_field w (skip_spaces s) ≡ store w false (read_digits 0 s).0 (read_digits 0 s).1
unfolding skip_spaces
read_number w [] h = absurd h
read_number w (c ∷ s) h = rw (digit_no_space c h, digit_no_minus c h, digit_no_plus c h, h)

StartsDigit-append : (s t : Bytes) → StartsDigit s → StartsDigit (s ++ t)
StartsDigit-append [] t h = absurd h
StartsDigit-append (c ∷ s) t h = h

-- A printed number in range is stored, and the stream stands behind it.
pub extract-to_string :
    (w : Width) (n : ℕ) (rest : Bytes)
    → Fits w n
    → EndsNumber rest
    → extract w (some (to_string n ++ rest)) ≡ (some n, some rest)
unfolding extract
extract-to_string w n rest fits ends =
    read_number w (to_string n ++ rest)
      (StartsDigit-append (to_string n) rest (to_string-StartsDigit n))
    ∙ ap (λ (p : ℕ × Bytes). store w false p.0 p.1) (read_digits-to_string n rest ends)
    ∙ store-Fits w n rest fits

-- Of a number that an `int` cannot hold the largest one is stored, and the stream fails.
pub extract-too_large :
    (n : ℕ) (rest : Bytes)
    → 2 ^ 31 ≤ n
    → EndsNumber rest
    → extract int (some (to_string n ++ rest)) ≡ (some (2 ^ 31 - 1), none)
unfolding extract
extract-too_large n rest large ends =
    read_number int (to_string n ++ rest)
      (StartsDigit-append (to_string n) rest (to_string-StartsDigit n))
    ∙ ap (λ (p : ℕ × Bytes). store int false p.0 p.1) (read_digits-to_string n rest ends)
    ∙ rw (not_below large)

-- A space is passed over.
pub extract-space : (w : Width) (s : Bytes) → extract w (some (space ∷ s)) ≡ extract w (some s)
unfolding extract skip_spaces
extract-space w s = refl

abbrev pub NoNewline : Bytes → Type 0
NoNewline [] = Unit {0}
NoNewline (c ∷ s) = ((c == newline) ≡ false) × NoNewline s

pub NoNewline-append : (s t : Bytes) → NoNewline s → NoNewline t → NoNewline (s ++ t)
NoNewline-append [] t hs ht = ht
NoNewline-append (c ∷ s) t (hc, hs) ht = (hc, NoNewline-append s t hs ht)

-- `std::getline` reads up to the newline.
pub split_line-append :
    (line rest : Bytes) → NoNewline line → split_line (line ++ newline ∷ rest) ≡ (line, some rest)
unfolding split_line
split_line-append [] rest h = refl
split_line-append (c ∷ line) rest (hc, h) = ground (arith, split_line-append line rest h)

pub split_line-NoNewline : (line : Bytes) → NoNewline line → split_line line ≡ (line, none)
unfolding split_line
split_line-NoNewline [] h = refl
split_line-NoNewline (c ∷ line) (hc, h) = rw (hc, split_line-NoNewline line h)

digits-NoNewline : (fuel n : ℕ) (out : Bytes) → NoNewline out → NoNewline (digits fuel n out)
unfolding digits
digits-NoNewline zero n out h = h
digits-NoNewline (suc fuel) n out h =
    ground (arith, digits-NoNewline fuel (n / 10) ((b'0' + n % 10) ∷ out) (ground arith, h))

pub to_string-NoNewline : (n : ℕ) → NoNewline (to_string n)
unfolding to_string
to_string-NoNewline n = ground (arith, digits-NoNewline n n [] tt)
