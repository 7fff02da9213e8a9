-- ===== src/Node/JoinText/RoundTrip.antt =====
-- Responses to a node that joins, read back.
use co_fhe.Base.{
  ℕ, ◌+◌, ◌^◌, length, ◌<◌, ◌≡◌, refl, ap, ◌∙◌, Option, some, List, [], ◌∷◌, ◌++◌, append_assoc,
  Bytes,
}
use co_fhe.Wire.Stream.{newline, split_line, Width, int, size_t}
use co_fhe.Wire.Stream.Laws.{NoNewline, split_line-append, split_line-NoNewline}
use co_fhe.Wire.Fields.{
  int_to_string-Fits, extract_all, fields_line, extract_all-fields_line, fields_line-NoNewline,
}
use co_fhe.Wire.Enums.{Status, error, status, StatusNamed}
use co_fhe.Wire.RequestTypes.{join_type, JoinTypeNamed}
use co_fhe.Wire.Outcome.{returned, ◌>>=◌}
use co_fhe.Node.JoinText.{
  JoinHeader, cofhe_response, error_response, shares_size, join_header_to_string, unlines,
  join_response_to_string, join_header_of, join_header_from_string, lines, left,
  join_response_behind, join_response_from_string,
}

abbrev pub AllNoNewline : List Bytes → Type 0
AllNoNewline [] = Unit {0}
AllNoNewline (line ∷ rest) = NoNewline line × AllNoNewline rest

lines-line :
    (line rest : Bytes) → NoNewline line → lines (line ++ newline ∷ rest) ≡ line ∷ lines rest
unfolding lines
lines-line [] rest clean = refl
lines-line (c ∷ line) rest (hc, clean) = rw (hc, lines-line line rest clean)

-- Lines are read one by one.
pub lines-unlines : (all : List Bytes) → AllNoNewline all → lines (unlines all) ≡ all
unfolding lines
lines-unlines [] clean = refl
lines-unlines (line ∷ rest) (hl, clean) =
    lines-line line (unlines rest) hl ∙ ap (◌∷◌ line) (lines-unlines rest clean)

module _ (h : JoinHeader) (named : StatusNamed h.result) (kind : JoinTypeNamed h.response_type)
    (small : h.data_size < 2 ^ 64) where
  header_fields : List (Width × ℕ)
  header_fields =
      (int, status.to_int h.result)
      ∷ (int, join_type.to_int h.response_type)
      ∷ (size_t, h.data_size)
      ∷ []

  header_line :
      (rest : Bytes) → join_header_to_string h ++ rest ≡ fields_line header_fields ++ newline ∷ rest
  unfolding join_header_to_string header_fields
  header_line rest =
      rw
        (
          int_to_string-Fits (status.to_int h.result) (status.to_int-Fits h.result named),
          int_to_string-Fits (join_type.to_int h.response_type)
              (join_type.to_int-Fits h.response_type kind),
        )
        (simp append_assoc)

  split_header :
      (rest : Bytes)
      → split_line (join_header_to_string h ++ rest) ≡ (fields_line header_fields, some rest)
  split_header rest =
      ap split_line (header_line rest)
      ∙ split_line-append (fields_line header_fields) rest (fields_line-NoNewline header_fields)

  header_read : join_header_from_string (fields_line header_fields) ≡ returned h
  unfolding join_header_from_string header_fields
  header_read =
      ap
        (λ (p : Bytes × Option Bytes).
          join_header_of (extract_all (int ∷ int ∷ size_t ∷ []) (some p.0)))
        (split_line-NoNewline (fields_line header_fields) (fields_line-NoNewline header_fields))
      ∙ ap join_header_of (
          extract_all-fields_line header_fields (
            status.to_int-Fits h.result named,
            (join_type.to_int-Fits h.response_type kind, (small, tt)),
          ))
      ∙ rw (status.of_int-to_int h.result named, join_type.of_int-to_int h.response_type kind)

  join_response_from_string_lem :
      (rest : Bytes)
      → join_response_from_string (join_header_to_string h ++ rest)
        ≡ returned (join_response_behind h rest)
  unfolding join_response_from_string
  join_response_from_string_lem rest =
      ap
        (λ (p : Bytes × Option Bytes).
          join_header_from_string p.0
          >>= (λ header. returned (join_response_behind header (left p.1))))
        (split_header rest)
      ∙ ap (λ m. m >>= (λ header. returned (join_response_behind header rest))) header_read

-- The keys that a node gets when it joins, with a named status, are read back: the public key and every
-- share, if none of them has a newline and their size is below 2^64.
pub cofhe_response-read :
    (result : Status) (public_key : Bytes) (shares : List Bytes)
    → StatusNamed result
    → NoNewline public_key
    → AllNoNewline shares
    → (length public_key + 1) + shares_size shares < 2 ^ 64
    → join_response_from_string (join_response_to_string (cofhe_response result public_key shares))
      ≡ returned (cofhe_response result public_key shares)
unfolding join_response_to_string join_response_behind
cofhe_response-read result public_key shares named clean all_clean small =
    let header : JoinHeader = (cofhe_response result public_key shares).header in
    join_response_from_string_lem header named tt small (unlines (public_key ∷ shares))
    ∙ ap (λ (p : Bytes × Option Bytes). returned (cofhe_response result p.0 (lines (left p.1))))
        (split_line-append public_key (unlines shares) clean)
    ∙ ap (λ all. returned (cofhe_response result public_key all)) (lines-unlines shares all_clean)

-- A refusal with a message of less than 2^64 - 1 bytes is read back as an error without a message: the
-- message is not in the text.
pub error_response-read :
    (message : Bytes)
    → length message + 1 < 2 ^ 64
    → join_response_from_string (join_response_to_string (error_response message))
      ≡ returned (cofhe_response error [] [])
unfolding join_response_to_string join_response_behind split_line lines
error_response-read message small =
    join_response_from_string_lem (error_response message).header tt tt small (newline ∷ [])
