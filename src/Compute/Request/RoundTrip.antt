-- ===== src/Compute/Request/RoundTrip.antt =====
-- The texts of compute requests are read back.
use co_fhe.Base.{
  ℕ, ◌^◌, ◌<◌, ◌≡◌, refl, sym, ap, ◌∙◌, arith, true, false, leb, lt→ltb, Option, some, List, [],
  ◌∷◌, ◌++◌, append_assoc, append-nil, length, length-append, take, drop, Bytes,
}
use co_fhe.Wire.Decimal.{to_string, StartsDigit, to_string-StartsDigit}
use co_fhe.Wire.Stream.{newline, space, is_space, Width, int, size_t}
use co_fhe.Wire.Fields.{
  int_to_string, int_to_string-Fits, extract_all, AllFit, fields_line, extract_all-fields_line,
  split_line-fields_line,
}
use co_fhe.Wire.Enums.{data_type, DataTypeNamed}
use co_fhe.Wire.Outcome.{Outcome, returned, ◌>>=◌}
use co_fhe.Wire.Lined.RoundTrip.{read_lined-fields_line}
use co_fhe.Compute.Types.{
  operation_type, OperationTypeNamed, operation, OperationNamed, encryption_type,
  EncryptionTypeNamed,
}
use co_fhe.Compute.Request.{
  Operand, operand_to_string, header, Cursor, good, line_read, getline, skip_from, ws, seek,
  take_operand, read_operand, operands_from, ComputeRequest, operands_to_string,
  compute_request_to_string, request_of, compute_request_from_string,
}

-- The data is not empty, and does not start with white space.
abbrev pub StartsSolid : Bytes → Type 0
StartsSolid [] = ⊥
StartsSolid (c ∷ s) = is_space c ≡ false

abbrev pub IsPrintable : Operand → Type 0
IsPrintable o =
    DataTypeNamed o.kind
    × EncryptionTypeNamed o.encryption
    × StartsSolid o.content
    × (length o.content < 2 ^ 63)

abbrev pub AllPrintable : List Operand → Type 0
AllPrintable [] = Unit {0}
AllPrintable (o ∷ os) = IsPrintable o × AllPrintable os

take-append {ℓ} : {A : Type ℓ} (xs ys : List A) → take (length xs) (xs ++ ys) ≡ xs
take-append [] ys = refl
take-append (x ∷ xs) ys = ap (◌∷◌ x) (take-append xs ys)

drop-append {ℓ} : {A : Type ℓ} (xs ys : List A) → drop (length xs) (xs ++ ys) ≡ ys
drop-append [] ys = refl
drop-append (x ∷ xs) ys = drop-append xs ys

fits_in_text : (xs ys : Bytes) → leb (length xs) (length (xs ++ ys)) ≡ true
fits_in_text xs ys = ground (arith, length-append xs ys)

-- Behind the data the cursor stands at its end, wherever it stood before.
seek-behind :
    (before content rest : Bytes)
    → length content < 2 ^ 63
    → seek before (content ++ rest) (length content) ≡ good (before ++ content) rest
seek-behind before content rest small =
    rw
      (
        lt→ltb (length content) (2 ^ 63) small,
        fits_in_text content rest,
        take-append content rest,
        drop-append content rest,
      )
      refl

skip_from-Solid :
    (before content rest : Bytes)
    → StartsSolid content
    → skip_from before (content ++ rest) ≡ good before (content ++ rest)
unfolding skip_from
skip_from-Solid before [] rest h = absurd h
skip_from-Solid before (c ∷ s) rest h = rw h

module _ (o : Operand) (p : IsPrintable o) where
  unfoldable pub operand_fields : List (Width × ℕ)
  operand_fields =
      (int, data_type.to_int o.kind)
      ∷ (int, encryption_type.to_int o.encryption)
      ∷ (size_t, length o.content)
      ∷ []

  operand_fields-AllFit : AllFit operand_fields
  unfolding operand_fields
  operand_fields-AllFit = (
    data_type.to_int-Fits o.kind p.0,
    (encryption_type.to_int-Fits o.encryption p.1, (omega arith, tt)),
  )

  pub operand_line :
      (rest : Bytes)
      → operand_to_string o ++ rest
        ≡ fields_line operand_fields ++ newline ∷ (o.content ++ newline ∷ rest)
  unfolding operand_to_string operand_fields
  operand_line rest =
      rw
        (
          int_to_string-Fits (data_type.to_int o.kind) (data_type.to_int-Fits o.kind p.0),
          int_to_string-Fits (encryption_type.to_int o.encryption)
              (encryption_type.to_int-Fits o.encryption p.1),
        )
        (simp append_assoc)

  -- One operand is read, and the cursor is behind it.
  read_operand-to_string :
      (before rest : Bytes)
      → (before' : Bytes) × (read_operand (getline (good before (operand_to_string o ++ rest)))
          ≡ returned (o, ws (good before' (newline ∷ rest))))
  unfolding getline operand_fields
  read_operand-to_string before rest =
      let line : Bytes = fields_line operand_fields in
      let before1 : Bytes = before ++ (line ++ newline ∷ []) in
      (
        before1 ++ o.content,
        ap (λ t. read_operand (getline (good before t))) (operand_line rest)
            ∙ ap (λ (q : Bytes × Option Bytes). read_operand (line_read before q))
                (split_line-fields_line operand_fields (o.content ++ newline ∷ rest))
            ∙ ap (λ c. take_operand c (extract_all header (some line)))
                (skip_from-Solid before1 o.content (newline ∷ rest) p.2)
            ∙ ap (take_operand (good before1 (o.content ++ newline ∷ rest)))
                (extract_all-fields_line operand_fields operand_fields-AllFit)
            ∙ rw
                (
                  seek-behind before1 o.content (newline ∷ rest) p.3,
                  take-append o.content (newline ∷ rest),
                  data_type.of_int-to_int o.kind p.0,
                  encryption_type.of_int-to_int o.encryption p.1,
                )
                refl,
      )

digit_solid : (s rest : Bytes) → StartsDigit s → StartsSolid (s ++ rest)
digit_solid [] rest h = absurd h
digit_solid (c ∷ s) rest h = ground arith

-- The newline behind an operand is passed over, up to the next one.
ws-operand :
    (before : Bytes) (o : Operand) (rest : Bytes)
    → IsPrintable o
    → ws (good before (newline ∷ (operand_to_string o ++ rest)))
      ≡ good (before ++ newline ∷ []) (operand_to_string o ++ rest)
unfolding skip_from operand_to_string int_to_string
ws-operand before o rest p =
    let after : Bytes = before ++ newline ∷ [] in
    let number : Bytes = to_string (data_type.to_int o.kind) in
    let behind : Bytes =
      space
      ∷ (int_to_string (encryption_type.to_int o.encryption)
          ++ space ∷ (to_string (length o.content) ++ newline ∷ (o.content ++ newline ∷ []))) in
    let text : operand_to_string o ++ rest ≡ number ++ (behind ++ rest) =
      ap (λ n. (n ++ behind) ++ rest)
        (int_to_string-Fits (data_type.to_int o.kind) (data_type.to_int-Fits o.kind p.0))
      ∙ append_assoc number behind rest in
    let solid : StartsSolid (number ++ (behind ++ rest)) =
      digit_solid number (behind ++ rest) (to_string-StartsDigit (data_type.to_int o.kind)) in
    ap (skip_from after) (text ∙ sym (append-nil (number ++ (behind ++ rest))))
    ∙ skip_from-Solid after (number ++ (behind ++ rest)) [] solid
    ∙ ap (good after) (append-nil (number ++ (behind ++ rest)) ∙ sym text)

abbrev and_rest : ℕ → Outcome (Operand × Cursor) → Outcome (List Operand)
and_rest n m = m >>= λ p. operands_from p.1 n >>= λ os. returned (p.0 ∷ os)

operands_from-to_string :
    (os : List Operand) (before : Bytes)
    → AllPrintable os
    → operands_from (good before (operands_to_string os)) (length os) ≡ returned os
unfolding operands_from operands_to_string
operands_from-to_string [] before h = refl
operands_from-to_string (o ∷ []) before (p, _) =
    ap (and_rest 0) (read_operand-to_string o p before []).1
operands_from-to_string (o ∷ o2 ∷ os) before (p, (p2, ps)) =
    let rest : Bytes = operands_to_string (o2 ∷ os) in
    let (before', read) = read_operand-to_string o p before rest in
    ap (and_rest (length (o2 ∷ os))) read
    ∙ ap (λ c. and_rest (length (o2 ∷ os)) (returned (o, c)))
        (ws-operand before' o2 (operands_to_string os) p2)
    ∙ ap (λ m. m >>= λ os'. returned (o ∷ os'))
        (operands_from-to_string (o2 ∷ os) (before' ++ newline ∷ []) (p2, ps))

-- A request of a named operation, whose operands have named types and data that is not empty and does
-- not start with white space, is read back from its text.
pub compute_request_from_string-to_string :
    (r : ComputeRequest)
    → OperationTypeNamed r.operation_type
    → OperationNamed r.operation
    → AllPrintable r.operands
    → length r.operands < 2 ^ 64
    → compute_request_from_string (compute_request_to_string r) ≡ returned r
unfolding compute_request_from_string compute_request_to_string
compute_request_from_string-to_string r type_named named printable small =
    let text : Bytes = operands_to_string r.operands in
    let fields : List (Width × ℕ) =
      (int, operation_type.to_int r.operation_type)
      ∷ (int, operation.to_int r.operation)
      ∷ (size_t, length r.operands)
      ∷ [] in
    let line : compute_request_to_string r ≡ fields_line fields ++ newline ∷ text =
      rw
        (
          int_to_string-Fits (operation_type.to_int r.operation_type)
              (operation_type.to_int-Fits r.operation_type type_named),
          int_to_string-Fits (operation.to_int r.operation)
              (operation.to_int-Fits r.operation named),
        )
        (simp append_assoc) in
    ap compute_request_from_string line
    ∙ ap (λ m. m >>= request_of)
        (read_lined-fields_line fields text (
          operation_type.to_int-Fits r.operation_type type_named,
          (operation.to_int-Fits r.operation named, (small, tt)),
        ))
    ∙ rw
        (
          operands_from-to_string r.operands [] printable,
          operation_type.of_int-to_int r.operation_type type_named,
          operation.of_int-to_int r.operation named,
        )
        refl
