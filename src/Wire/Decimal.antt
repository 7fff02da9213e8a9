-- ===== src/Wire/Decimal.antt =====
-- `std::to_string` of an unsigned number, and the digits that a stream reads back.
use co_fhe.Base.{
  ℕ, zero, suc, ◌+◌, ◌-◌, ◌*◌, ◌/◌, ◌%◌, ◌≤◌, ◌≡◌, refl, ◌∙◌, Bool, true, false, ◌&&◌, leb, ◌==◌,
  if◌then◌else◌, [], ◌∷◌, ◌++◌, Bytes, codes, arith,
}

-- the digits of `n`, the last one first to be written, in front of `out`; `fuel` bounds the rounds
unfoldable pub digits : ℕ → ℕ → Bytes → Bytes
digits zero n out = out
digits (suc fuel) n out =
    let rest = digits fuel (n / 10) ((b'0' + n % 10) ∷ out) in if n == 0 then out else rest

-- a number has at most as many digits as it counts
unfoldable pub to_string : ℕ → Bytes
unfolding digits
to_string n = if n == 0 then b'0' ∷ [] else digits n n []

abbrev pub is_digit : ℕ → Bool
is_digit c = leb b'0' c && leb c b'9'

-- The number that the leading digits of a text spell behind `n`, and the text behind them.
unfoldable pub read_digits : ℕ → Bytes → ℕ × Bytes
read_digits n [] = (n, [])
read_digits n (c ∷ s) =
    let rest = read_digits (n * 10 + (c - b'0')) s in if is_digit c then rest else (n, c ∷ s)

-- What may follow a number: nothing, or a byte that is no digit.
abbrev pub EndsNumber : Bytes → Type 0
EndsNumber [] = Unit {0}
EndsNumber (c ∷ s) = is_digit c ≡ false

read_digits-end : (n : ℕ) (s : Bytes) → EndsNumber s → read_digits n s ≡ (n, s)
unfolding read_digits
read_digits-end n [] h = refl
read_digits-end n (c ∷ s) h = rw h

read_digits-digits :
    (fuel n : ℕ) (out : Bytes) → n ≤ fuel → read_digits 0 (digits fuel n out) ≡ read_digits n out
unfolding read_digits digits
read_digits-digits zero n out h = let e : n ≡ 0 = omega arith in rw e
read_digits-digits (suc fuel) n out h =
    ground (arith, read_digits-digits fuel (n / 10) ((b'0' + n % 10) ∷ out) (omega arith))

digits-append : (fuel n : ℕ) (out s : Bytes) → digits fuel n out ++ s ≡ digits fuel n (out ++ s)
unfolding digits
digits-append zero n out s = refl
digits-append (suc fuel) n out s =
    ground (arith, digits-append fuel (n / 10) ((b'0' + n % 10) ∷ out) s)

suc_is_pos : (n : ℕ) → (suc n == 0) ≡ false
suc_is_pos n = ground arith

to_string-suc : (n : ℕ) → to_string (suc n) ≡ digits n (suc n / 10) ((b'0' + suc n % 10) ∷ [])
unfolding to_string digits
to_string-suc n = rw suc_is_pos

-- A printed number is read back, whatever stands behind it.
pub read_digits-to_string :
    (n : ℕ) (s : Bytes) → EndsNumber s → read_digits 0 (to_string n ++ s) ≡ (n, s)
unfolding to_string read_digits
read_digits-to_string zero s h = read_digits-end 0 s h
read_digits-to_string (suc n) s h =
    rw (to_string-suc n, digits-append n (suc n / 10) ((b'0' + suc n % 10) ∷ []) s)
      (read_digits-digits n (suc n / 10) ((b'0' + suc n % 10) ∷ s) (omega arith)
        ∙ ground (arith, read_digits-end (suc n) s h))

-- A printed number begins with a digit.
abbrev pub StartsDigit : Bytes → Type 0
StartsDigit [] = ⊥
StartsDigit (c ∷ s) = is_digit c ≡ true

digits-StartsDigit : (fuel n : ℕ) (out : Bytes) → StartsDigit out → StartsDigit (digits fuel n out)
unfolding digits
digits-StartsDigit zero n out h = h
digits-StartsDigit (suc fuel) n out h =
    ground (arith, digits-StartsDigit fuel (n / 10) ((b'0' + n % 10) ∷ out) (ground arith))

pub to_string-StartsDigit : (n : ℕ) → StartsDigit (to_string n)
unfolding to_string
to_string-StartsDigit zero = refl
to_string-StartsDigit (suc n) =
    rw (to_string-suc n)
      (digits-StartsDigit n (suc n / 10) ((b'0' + suc n % 10) ∷ []) (ground arith))

thousand : to_string 1024 ≡ codes "1024"
unfolding to_string
thousand = refl
