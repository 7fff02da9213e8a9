-- ===== src/Compute/Request/Single.antt =====
-- ComputeOperationOperand::from_string of one operand, given what to_string writes.
use co_fhe.Base.{
  ◌≡◌, refl, sym, ap, ◌∙◌, false, ◌==◌, Option, none, some, [], ◌∷◌, ◌++◌, append-nil, Bytes,
}
use co_fhe.Wire.Decimal.{is_digit}
use co_fhe.Wire.Stream.{newline, is_space}
use co_fhe.Wire.Fields.{extract_all, split_line-fields_line}
use co_fhe.Wire.Outcome.{Outcome, undefined}
use co_fhe.Compute.Request.{Operand, operand_to_string, operand_of, header, operand_from_string}
use co_fhe.Compute.Request.RoundTrip.{IsPrintable, operand_fields, operand_line}

-- No number stands at the start.
abbrev pub StartsNoNumber : Bytes → Type 0
StartsNoNumber [] = ⊥
StartsNoNumber (c ∷ s) =
    (is_space c ≡ false) × ((c == b'-') ≡ false) × ((c == b'+') ≡ false) × (is_digit c ≡ false)

operand_of-extract :
    (content rest : Bytes)
    → StartsNoNumber content
    → operand_of (extract_all header (some (content ++ rest))) (content ++ rest) ≡ undefined
unfolding extract_all
operand_of-extract [] rest h = absurd h
operand_of-extract (c ∷ s) rest h = rw (h.0, h.1, h.2, h.3) refl

-- The text of a single operand, when its data starts with what is no number, is not read back: the data
-- type becomes 0, and the other two variables of the header are used with nothing stored in them.
pub operand_from_string-to_string :
    (o : Operand)
    → IsPrintable o
    → StartsNoNumber o.content
    → operand_from_string (operand_to_string o) ≡ undefined
unfolding operand_from_string
operand_from_string-to_string o p h =
    ap operand_from_string (sym (append-nil (operand_to_string o)) ∙ operand_line o p [])
    ∙ ap
        (λ (q : Bytes × Option Bytes). elim q.1 as (λ _. Outcome Operand) [
          | none ↦ operand_of (extract_all header (some [])) []
          | some content ↦ operand_of (extract_all header (some content)) content
        ])
        (split_line-fields_line (operand_fields o p) (o.content ++ newline ∷ []))
    ∙ operand_of-extract o.content (newline ∷ []) h
