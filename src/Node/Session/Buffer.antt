-- ===== src/Node/Session/Buffer.antt =====
-- How far the reads of a session run ahead does not matter to what it finds in its buffer.
use co_fhe.Base.{
  ℕ, zero, suc, ◌+◌, ◌-◌, ◌≤◌, ◌<◌, ◌≡◌, refl, sym, ap, ◌∙◌, true, false, ltb, some, List, [], ◌∷◌,
  ◌++◌, append_assoc, length, length-append, take, drop, take-append-drop, length-take, Bytes,
  dec_le, arith,
}
use co_fhe.Node.Session.{Connection, read_data}

module _ {ℓ} {A : Type ℓ} where
  take-append_length : (xs ys : List A) → take (length xs) (xs ++ ys) ≡ xs
  take-append_length [] ys = refl
  take-append_length (x ∷ xs) ys = ap (◌∷◌ x) (take-append_length xs ys)

  drop-append_length : (xs ys : List A) → drop (length xs) (xs ++ ys) ≡ ys
  drop-append_length [] ys = refl
  drop-append_length (x ∷ xs) ys = drop-append_length xs ys

  drop-append_le : (n : ℕ) (xs ys : List A) → n ≤ length xs → drop n (xs ++ ys) ≡ drop n xs ++ ys
  drop-append_le zero xs ys h = refl
  drop-append_le (suc n) [] ys h = absurd (omega arith)
  drop-append_le (suc n) (x ∷ xs) ys h = drop-append_le n xs ys (omega arith)

  take-append_le : (n : ℕ) (xs ys : List A) → n ≤ length xs → take n (xs ++ ys) ≡ take n xs
  take-append_le zero xs ys h = refl
  take-append_le (suc n) [] ys h = absurd (omega arith)
  take-append_le (suc n) (x ∷ xs) ys h = ap (◌∷◌ x) (take-append_le n xs ys (omega arith))

abbrev pub ahead_of : Connection → Bytes
ahead_of c = c.read_buffer ++ c.incoming

-- What is read and what is left does not depend on how far the reads run ahead.
pub data Read (n : ℕ) (content rest : Bytes) (c : Connection) : Type 0 where
  read :
      (c' : Connection)
      → read_data n c ≡ some c'
      → take n c'.read_buffer ≡ content
      → drop n c'.read_buffer ++ c'.incoming ≡ rest
      → Read n content rest c

ltb-false : (m n : ℕ) → n ≤ m → ltb m n ≡ false
ltb-false m n h = ground arith

ltb-true : (m n : ℕ) → m < n → ltb m n ≡ true
ltb-true m n h = ground arith

module _ (content rest : Bytes) (c : Connection) (e : ahead_of c ≡ content ++ rest) where
  abbrev n : ℕ
  n = length content

  enough :
      n ≤ length c.read_buffer
      → (take n c.read_buffer ≡ content) × (drop n c.read_buffer ++ c.incoming ≡ rest)
  enough h = (
    sym (take-append_le n c.read_buffer c.incoming h)
        ∙ ap (take n) e
        ∙ take-append_length content rest,
    sym (drop-append_le n c.read_buffer c.incoming h)
        ∙ ap (drop n) e
        ∙ drop-append_length content rest,
  )

  lengths : length c.read_buffer + length c.incoming ≡ n + length rest
  lengths = sym (length-append c.read_buffer c.incoming) ∙ ap length e ∙ length-append content rest

  abbrev missing : ℕ
  missing = n - length c.read_buffer

  abbrev filled : Connection
  filled = record {
    read_buffer = c.read_buffer ++ take missing c.incoming;
    incoming = drop missing c.incoming;
  }

  filled-ahead_of : ahead_of filled ≡ content ++ rest
  filled-ahead_of =
      append_assoc c.read_buffer (take missing c.incoming) (drop missing c.incoming)
      ∙ ap (◌++◌ c.read_buffer) (take-append-drop missing c.incoming)
      ∙ e

  filled-length : length c.read_buffer < n → n ≤ length filled.read_buffer
  filled-length h = omega (
    arith,
    h,
    lengths,
    length-append c.read_buffer (take missing c.incoming),
    length-take missing c.incoming,
  )

pub reads_on :
    (content rest : Bytes) (c : Connection)
    → ahead_of c ≡ content ++ rest
    → Read (length content) content rest c
unfolding read_data
reads_on content rest c e = elim (dec_le (length content) (length c.read_buffer)) [
  | yes h ↦
      let (front, back) = enough content rest c e h in
      read c (rw (ltb-false (length c.read_buffer) (length content) h)) front back
  | no h ↦
      let fewer : length c.read_buffer < length content = omega (arith, h) in
      let c' : Connection = filled content rest c e in
      let (front, back) =
        enough content rest c' (filled-ahead_of content rest c e)
          (filled-length content rest c e fewer) in
      read c'
        (rw (
          ltb-true (length c.read_buffer) (length content) fewer,
          ltb-false (length c.incoming) (length content - length c.read_buffer)
              (omega (arith, fewer, lengths content rest c e)),
        ))
        front back
]
