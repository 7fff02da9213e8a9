-- ===== src/Wire/Fields.antt =====
-- A header line: numbers with a space between them and a newline behind them, read into variables one
-- after another.
use co_fhe.Base.{
  ℕ, ◌-◌, ◌^◌, ◌≤◌, ◌<◌, ◌≡◌, refl, sym, ap, ◌∙◌, ltb, if◌then◌else◌, lt→ltb, Option, none, some,
  List, [], ◌∷◌, ◌++◌, append_assoc, append-nil, map, Bytes,
}
use co_fhe.Wire.Decimal.{to_string, EndsNumber}
use co_fhe.Wire.Stream.{newline, space, split_line, Stream, Width, int, extract, Fits}
use co_fhe.Wire.Stream.Laws.{
  extract-to_string, extract-too_large, extract-space, NoNewline, NoNewline-append,
  to_string-NoNewline, split_line-append,
}

-- `std::to_string` of an `int`, from its bit pattern.
unfoldable pub int_to_string : ℕ → Bytes
unfolding to_string
int_to_string n = if ltb n (2 ^ 31) then to_string n else b'-' ∷ to_string (2 ^ 32 - n)

pub int_to_string-Fits : (n : ℕ) → n < 2 ^ 31 → int_to_string n ≡ to_string n
unfolding int_to_string
int_to_string-Fits n h = rw (lt→ltb n (2 ^ 31) h)

-- `stream >> x >> y >> …`
unfoldable pub extract_all : List Width → Stream → List (Option ℕ)
unfolding extract
extract_all [] s = []
extract_all (w ∷ ws) s = let (v, rest) = extract w s in v ∷ extract_all ws rest

-- The text behind the first newline. Without one, `find` gives `npos`, and `npos + 1` is 0.
abbrev pub after_newline : Bytes → Bytes
after_newline s = elim ((split_line s).1) [ none ↦ s | some rest ↦ rest ]

abbrev pub widths : List (Width × ℕ) → List Width
widths = map (λ f. f.0)

abbrev pub values : List (Width × ℕ) → List (Option ℕ)
values = map (λ f. some f.1)

abbrev pub fields_line : List (Width × ℕ) → Bytes
fields_line [] = []
fields_line ((w, n) ∷ []) = to_string n
fields_line ((w, n) ∷ f ∷ fs) = to_string n ++ space ∷ fields_line (f ∷ fs)

abbrev pub AllFit : List (Width × ℕ) → Type 0
AllFit [] = Unit {0}
AllFit ((w, n) ∷ fs) = Fits w n × AllFit fs

extract_all-spaced :
    (w : Width) (ws : List Width) (s : Bytes)
    → extract_all (w ∷ ws) (some (space ∷ s)) ≡ extract_all (w ∷ ws) (some s)
unfolding extract_all
extract_all-spaced w ws s = rw extract-space

-- What a line of numbers in range was printed from is what is read back, whatever ends the last number.
pub extract_all-behind :
    (fs : List (Width × ℕ)) (rest : Bytes)
    → AllFit fs
    → EndsNumber rest
    → extract_all (widths fs) (some (fields_line fs ++ rest)) ≡ values fs
unfolding extract_all
extract_all-behind [] rest h ends = refl
extract_all-behind ((w, n) ∷ []) rest (h, _) ends =
    ap (λ (p : Option ℕ × Stream). p.0 ∷ []) (extract-to_string w n rest h ends)
extract_all-behind ((w, n) ∷ (w', n') ∷ fs) rest (h, hs) ends =
    ap (λ s. extract_all (w ∷ w' ∷ widths fs) (some s))
      (append_assoc (to_string n) (space ∷ fields_line ((w', n') ∷ fs)) rest)
    ∙ ap (λ (p : Option ℕ × Stream). p.0 ∷ extract_all (w' ∷ widths fs) p.1)
        (extract-to_string w n (space ∷ (fields_line ((w', n') ∷ fs) ++ rest)) h refl)
    ∙ ap (◌∷◌ (some n)) (
        extract_all-spaced w' (widths fs) (fields_line ((w', n') ∷ fs) ++ rest)
        ∙ extract_all-behind ((w', n') ∷ fs) rest hs ends)

pub extract_all-fields_line :
    (fs : List (Width × ℕ))
    → AllFit fs
    → extract_all (widths fs) (some (fields_line fs)) ≡ values fs
extract_all-fields_line fs h =
    ap (λ s. extract_all (widths fs) (some s)) (sym (append-nil (fields_line fs)))
    ∙ extract_all-behind fs [] h tt

-- Of a last number that an `int` cannot hold the largest one is read.
pub extract_all-too_large :
    (fs : List (Width × ℕ)) (n : ℕ) (rest : Bytes)
    → AllFit fs
    → 2 ^ 31 ≤ n
    → EndsNumber rest
    → extract_all (widths (fs ++ (int, n) ∷ [])) (some (fields_line (fs ++ (int, n) ∷ []) ++ rest))
      ≡ values (fs ++ (int, 2 ^ 31 - 1) ∷ [])
unfolding extract_all
extract_all-too_large [] n rest h large ends =
    ap (λ (p : Option ℕ × Stream). p.0 ∷ []) (extract-too_large n rest large ends)
extract_all-too_large ((w, m) ∷ []) n rest (h, _) large ends =
    ap (λ s. extract_all (w ∷ int ∷ []) (some s))
      (append_assoc (to_string m) (space ∷ to_string n) rest)
    ∙ ap (λ (p : Option ℕ × Stream). p.0 ∷ extract_all (int ∷ []) p.1)
        (extract-to_string w m (space ∷ (to_string n ++ rest)) h refl)
    ∙ ap (◌∷◌ (some m)) (
        extract_all-spaced int [] (to_string n ++ rest)
        ∙ extract_all-too_large [] n rest tt large ends)
extract_all-too_large ((w, m) ∷ (w', m') ∷ fs) n rest (h, hs) large ends =
    ap (λ s. extract_all (w ∷ w' ∷ widths (fs ++ (int, n) ∷ [])) (some s))
      (append_assoc (to_string m) (space ∷ fields_line ((w', m') ∷ (fs ++ (int, n) ∷ []))) rest)
    ∙ ap (λ (p : Option ℕ × Stream). p.0 ∷ extract_all (w' ∷ widths (fs ++ (int, n) ∷ [])) p.1)
        (extract-to_string w m (space ∷ (fields_line ((w', m') ∷ (fs ++ (int, n) ∷ [])) ++ rest)) h
          refl)
    ∙ ap (◌∷◌ (some m)) (
        extract_all-spaced w' (widths (fs ++ (int, n) ∷ []))
          (fields_line ((w', m') ∷ (fs ++ (int, n) ∷ [])) ++ rest)
        ∙ extract_all-too_large ((w', m') ∷ fs) n rest hs large ends)

pub fields_line-NoNewline : (fs : List (Width × ℕ)) → NoNewline (fields_line fs)
fields_line-NoNewline [] = tt
fields_line-NoNewline ((w, n) ∷ []) = to_string-NoNewline n
fields_line-NoNewline ((w, n) ∷ f ∷ fs) =
    NoNewline-append (to_string n) (space ∷ fields_line (f ∷ fs)) (to_string-NoNewline n)
      (refl, fields_line-NoNewline (f ∷ fs))

-- The first line of a message is its header, and what stands behind it the data.
pub split_line-fields_line :
    (fs : List (Width × ℕ)) (text : Bytes)
    → split_line (fields_line fs ++ newline ∷ text) ≡ (fields_line fs, some text)
split_line-fields_line fs text = split_line-append (fields_line fs) text (fields_line-NoNewline fs)

pub after_newline-fields_line :
    (fs : List (Width × ℕ)) (text : Bytes) → after_newline (fields_line fs ++ newline ∷ text) ≡ text
after_newline-fields_line fs text =
    ap
      (λ (p : Bytes × Option Bytes). elim p.1 [
        | none ↦ fields_line fs ++ newline ∷ text
        | some rest ↦ rest
      ])
      (split_line-fields_line fs text)
