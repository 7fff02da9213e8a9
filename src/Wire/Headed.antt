-- ===== src/Wire/Headed.antt =====
-- The messages of include/node with a header class of two numbers, an enumeration and the size of the
-- data: SetupNodeRequest, SetupNodeResponse, CoFHENodeRequest, CoFHENodeResponse, NetworkDetailsRequest
-- and NetworkDetailsResponse. Their code differs by the enumeration alone, which is a parameter here.
pub mod RoundTrip
use co_fhe.Base.{
  ℕ, ◌≡◌, ◌==◌, if◌then◌else◌, Option, none, some, List, [], ◌∷◌, ◌++◌, length, Bytes,
}
use co_fhe.Wire.Decimal.{to_string}
use co_fhe.Wire.Stream.{newline, space, split_line, int, size_t, Fits}
use co_fhe.Wire.Fields.{int_to_string, extract_all, after_newline}
use co_fhe.Wire.Enums.{Enum}
use co_fhe.Wire.Outcome.{Outcome, returned, thrown, undefined, data_size_mismatch, ◌>>=◌}

pub record Header (E : Type 0) : Type 0 where
  pub tag : E
  pub data_size : ℕ

pub record Headed (E : Type 0) : Type 0 where
  pub header : Header E
  pub content : Bytes

module _ {E : Type 0} (enum : Enum E) where
  unfoldable pub header_to_string : Header E → Bytes
  unfolding int_to_string to_string
  header_to_string h =
      int_to_string (enum.to_int h.tag) ++ space ∷ (to_string h.data_size ++ newline ∷ [])

  -- the variables after `iss_line >> tag >> data_size`
  abbrev pub header_of : List (Option ℕ) → Outcome (Header E)
  header_of (some tag ∷ some size ∷ []) =
      returned (record { tag = enum.of_int tag; data_size = size })
  header_of _ = undefined

  unfoldable pub header_from_string : Bytes → Outcome (Header E)
  unfolding extract_all split_line
  header_from_string str = header_of (extract_all (int ∷ size_t ∷ []) (some (split_line str).0))

  -- the constructor from a header and data
  abbrev pub with_header : Header E → Bytes → Outcome (Headed E)
  with_header h content =
      if length content == h.data_size
      then returned (record { header = h; content = content })
      else thrown data_size_mismatch

  -- the constructor of the requests, from a type and data
  abbrev pub make : E → Bytes → Headed E
  make tag content = record {
    header = record { tag = tag; data_size = length content };
    content = content;
  }

  unfoldable pub message_to_string : Headed E → Bytes
  unfolding header_to_string
  message_to_string m = header_to_string m.header ++ m.content

  unfoldable pub from_string : Bytes → Outcome (Headed E)
  unfolding header_from_string
  from_string str = do header ← header_from_string str; with_header header (after_newline str)
