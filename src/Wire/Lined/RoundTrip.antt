-- ===== src/Wire/Lined/RoundTrip.antt =====
-- The messages read in one go are read back.
use co_fhe.Base.{
  ℕ, ◌^◌, ◌≤◌, ◌<◌, ◌-◌, ◌≡◌, sym, ap, ◌∙◌, Option, none, some, List, [], ◌∷◌, ◌++◌, append_assoc,
  append-nil, length, Bytes,
}
use co_fhe.Wire.Decimal.{to_string}
use co_fhe.Wire.Stream.{newline, Stream, Width, int, size_t}
use co_fhe.Wire.Stream.Laws.{extract-to_string, NoNewline, split_line-append}
use co_fhe.Wire.Fields.{
  fields_line-NoNewline, extract_all-too_large, int_to_string-Fits, extract_all, AllFit, widths,
  values, fields_line, extract_all-fields_line, extract_all,
}
use co_fhe.Wire.Enums.{status, StatusNamed, data_type, DataTypeNamed}
use co_fhe.Wire.Outcome.{Outcome, returned, undefined, thrown, out_of_range, ◌>>=◌}
use co_fhe.Wire.Headed.RoundTrip.{beq_refl}
use co_fhe.Wire.Lined.{
  read_lined, LinedResponse, lined_response_to_string, lined_response_of,
  lined_response_from_string, PartialDecryptionRequest, share_request_to_string, share_request_of,
  share_request_from_string, triplets_to_string, triplets_from_string,
}

read_lined_behind :
    (ws : List Width) (line content : Bytes)
    → NoNewline line
    → read_lined ws (line ++ newline ∷ content) ≡ returned (extract_all ws (some line), content)
unfolding read_lined
read_lined_behind ws line content clean =
    ap
      (λ (p : Bytes × Option Bytes). elim p.1 as (λ _. Outcome (List (Option ℕ) × Bytes)) [
        | none ↦ thrown out_of_range
        | some text ↦ returned (extract_all ws (some p.0), text)
      ])
      (split_line-append line content clean)

-- A line of numbers in range is read into them, and the data is what stands behind it.
pub read_lined-fields_line :
    (fs : List (Width × ℕ)) (content : Bytes)
    → AllFit fs
    → read_lined (widths fs) (fields_line fs ++ newline ∷ content) ≡ returned (values fs, content)
read_lined-fields_line fs content fits =
    read_lined_behind (widths fs) (fields_line fs) content (fields_line-NoNewline fs)
    ∙ ap (λ vs. returned (vs, content)) (extract_all-fields_line fs fits)

-- The same of a line whose last number an `int` cannot hold.
pub read_lined-too_large :
    (fs : List (Width × ℕ)) (n : ℕ) (content : Bytes)
    → AllFit fs
    → 2 ^ 31 ≤ n
    → read_lined
        (widths (fs ++ (int, n) ∷ []))
        (fields_line (fs ++ (int, n) ∷ []) ++ newline ∷ content)
      ≡ returned (values (fs ++ (int, 2 ^ 31 - 1) ∷ []), content)
read_lined-too_large fs n content fits large =
    let all : List (Width × ℕ) = fs ++ (int, n) ∷ [] in
    read_lined_behind (widths all) (fields_line all) content (fields_line-NoNewline all)
    ∙ ap (λ vs. returned (vs, content))
        (ap (λ s. extract_all (widths all) (some s)) (sym (append-nil (fields_line all)))
          ∙ extract_all-too_large fs n [] fits large tt)

module _ (r : LinedResponse) (named : StatusNamed r.result) where
  lined_response_line :
      lined_response_to_string r
      ≡ fields_line ((int, status.to_int r.result) ∷ (size_t, length r.content) ∷ [])
        ++ newline ∷ r.content
  unfolding lined_response_to_string
  lined_response_line =
      rw (int_to_string-Fits (status.to_int r.result) (status.to_int-Fits r.result named))
        (simp append_assoc)

  lined_response_of-values :
      lined_response_of (some (status.to_int r.result) ∷ some (length r.content) ∷ [], r.content)
      ≡ returned r
  lined_response_of-values = rw (beq_refl (length r.content), status.of_int-to_int r.result named)

-- A response with a named status and less than 2^64 bytes of data is read back from its text.
pub lined_response_from_string-to_string :
    (r : LinedResponse)
    → StatusNamed r.result
    → length r.content < 2 ^ 64
    → lined_response_from_string (lined_response_to_string r) ≡ returned r
unfolding lined_response_from_string
lined_response_from_string-to_string r named small =
    ap lined_response_from_string (lined_response_line r named)
    ∙ ap (λ m. m >>= lined_response_of)
        (read_lined-fields_line ((int, status.to_int r.result) ∷ (size_t, length r.content) ∷ [])
          r.content (status.to_int-Fits r.result named, (small, tt)))
    ∙ lined_response_of-values r named

module _ (r : PartialDecryptionRequest) (named : DataTypeNamed r.kind) where
  share_request_fields : List (Width × ℕ)
  share_request_fields =
      (size_t, r.sk_share_id) ∷ (int, data_type.to_int r.kind) ∷ (size_t, length r.content) ∷ []

  share_request_line :
      share_request_to_string r ≡ fields_line share_request_fields ++ newline ∷ r.content
  unfolding share_request_to_string share_request_fields
  share_request_line =
      rw (int_to_string-Fits (data_type.to_int r.kind) (data_type.to_int-Fits r.kind named))
        (simp append_assoc)

  share_request_of-values : share_request_of (values share_request_fields, r.content) ≡ returned r
  unfolding share_request_fields
  share_request_of-values = rw (beq_refl (length r.content), data_type.of_int-to_int r.kind named)

-- A request of a named kind, for a share number and with data of sizes below 2^64, is read back from its
-- text.
pub share_request_from_string-to_string :
    (r : PartialDecryptionRequest)
    → DataTypeNamed r.kind
    → r.sk_share_id < 2 ^ 64
    → length r.content < 2 ^ 64
    → share_request_from_string (share_request_to_string r) ≡ returned r
unfolding share_request_from_string share_request_fields
share_request_from_string-to_string r named id small =
    ap share_request_from_string (share_request_line r named)
    ∙ ap (λ m. m >>= share_request_of)
        (read_lined-fields_line (share_request_fields r named) r.content
          (id, (data_type.to_int-Fits r.kind named, (small, tt))))
    ∙ share_request_of-values r named

-- A number of triplets below 2^64 is read back from its text.
pub triplets_from_string-to_string :
    (n : ℕ) → n < 2 ^ 64 → triplets_from_string (triplets_to_string n) ≡ returned n
unfolding triplets_from_string
triplets_from_string-to_string n small =
    ap triplets_from_string (sym (append-nil (to_string n)))
    ∙ ap
        (λ (p : Option ℕ × Stream). elim p.0 as (λ _. Outcome ℕ) [
          | none ↦ undefined
          | some v ↦ returned v
        ])
        (extract-to_string size_t n [] small tt)
