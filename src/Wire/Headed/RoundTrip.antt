-- ===== src/Wire/Headed/RoundTrip.antt =====
-- A printed message is read back.
use co_fhe.Base.{
  ℕ, ◌^◌, ◌<◌, ◌≡◌, sym, ap, ◌∙◌, subst, ◌==◌, true, Option, some, List, [], ◌∷◌, ◌++◌,
  append_assoc, length, Bytes, arith,
}
use co_fhe.Wire.Stream.{newline, split_line, Width, int, size_t, Fits}
use co_fhe.Wire.Fields.{
  int_to_string-Fits, extract_all, after_newline, after_newline-fields_line, fields_line,
  extract_all-fields_line, split_line-fields_line,
}
use co_fhe.Wire.Enums.{Enum}
use co_fhe.Wire.Outcome.{returned, ◌>>=◌}
use co_fhe.Wire.Headed.{
  Header, Headed, header_to_string, header_of, header_from_string, with_header, message_to_string,
  from_string,
}

pub beq_refl : (n : ℕ) → (n == n) ≡ true
beq_refl n = ground arith

module _ {E : Type 0} (enum : Enum E) (h : Header E) (named : enum.Named h.tag)
    (fits : Fits size_t h.data_size) where
  abbrev fields : List (Width × ℕ)
  fields = (int, enum.to_int h.tag) ∷ (size_t, h.data_size) ∷ []

  header_line :
      (content : Bytes)
      → header_to_string enum h ++ content ≡ fields_line fields ++ newline ∷ content
  unfolding header_to_string
  header_line content =
      rw (int_to_string-Fits (enum.to_int h.tag) (enum.to_int-Fits h.tag named)) (simp append_assoc)

  header_from_string_lem :
      (content : Bytes) → header_from_string enum (header_to_string enum h ++ content) ≡ returned h
  unfolding header_from_string
  header_from_string_lem content =
      ap (λ s. header_of enum (extract_all (int ∷ size_t ∷ []) (some (split_line s).0)))
        (header_line content)
      ∙ ap
          (λ (p : Bytes × Option Bytes).
            header_of enum (extract_all (int ∷ size_t ∷ []) (some p.0)))
          (split_line-fields_line fields content)
      ∙ ap (header_of enum)
          (extract_all-fields_line fields (enum.to_int-Fits h.tag named, (fits, tt)))
      ∙ ap (λ tag. returned (record { tag = tag; data_size = h.data_size }))
          (enum.of_int-to_int h.tag named)

  after_header : (content : Bytes) → after_newline (header_to_string enum h ++ content) ≡ content
  after_header content =
      ap after_newline (header_line content) ∙ after_newline-fields_line fields content

with_header-sized :
    {E : Type 0} (enum : Enum E) (m : Headed E)
    → m.header.data_size ≡ length m.content
    → with_header enum m.header m.content ≡ returned m
with_header-sized enum m sized = rw (sized, beq_refl (length m.content))

-- A message whose type is one of the enumeration's and whose header tells the size of its data is read
-- back from its text, byte by byte.
pub from_string-to_string :
    {E : Type 0} (enum : Enum E) (m : Headed E)
    → enum.Named m.header.tag
    → m.header.data_size ≡ length m.content
    → length m.content < 2 ^ 64
    → from_string enum (message_to_string enum m) ≡ returned m
unfolding from_string message_to_string
from_string-to_string enum m named sized small =
    let fits : m.header.data_size < 2 ^ 64 = subst (λ n. n < 2 ^ 64) (sym sized) small in
    ap (λ h. h >>= (λ header. with_header enum header (after_newline (message_to_string enum m))))
      (header_from_string_lem enum m.header named fits m.content)
    ∙ ap (with_header enum m.header) (after_header enum m.header named fits m.content)
    ∙ with_header-sized enum m sized
