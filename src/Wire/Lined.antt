-- ===== src/Wire/Lined.antt =====
-- The messages read in one go: the header line, by `std::getline` and `>>`, and behind it the data, by
-- `str.substr(line.size() + 1)`: BeaversTripletResponse, PartialDecryptionResponse, ComputeResponse,
-- PartialDecryptionRequest; and BeaversTripletRequest, a number alone.
pub mod RoundTrip
use co_fhe.Base.{
  ℕ, ◌≡◌, ◌==◌, if◌then◌else◌, Option, none, some, List, [], ◌∷◌, ◌++◌, length, Bytes,
}
use co_fhe.Wire.Decimal.{to_string}
use co_fhe.Wire.Stream.{newline, space, split_line, Width, int, size_t, extract}
use co_fhe.Wire.Fields.{int_to_string, extract_all}
use co_fhe.Wire.Enums.{Status, DataType, status, data_type}
use co_fhe.Wire.Outcome.{
  Outcome, returned, thrown, undefined, data_size_mismatch, out_of_range, ◌>>=◌,
}

-- The variables of the header line and the data. Without a newline, `substr` starts behind the end.
unfoldable pub read_lined : List Width → Bytes → Outcome (List (Option ℕ) × Bytes)
unfolding split_line extract_all
read_lined ws str =
    let (line, behind) = split_line str in
    elim behind [
      | none ↦ thrown out_of_range
      | some content ↦ returned (extract_all ws (some line), content)
    ]

-- A BeaversTripletResponse, PartialDecryptionResponse or ComputeResponse.
pub record LinedResponse : Type 0 where
  pub result : Status
  pub content : Bytes

unfoldable pub lined_response_to_string : LinedResponse → Bytes
unfolding int_to_string to_string
lined_response_to_string r =
    int_to_string (status.to_int r.result)
    ++ space ∷ (to_string (length r.content) ++ newline ∷ r.content)

abbrev pub lined_response_of : List (Option ℕ) × Bytes → Outcome LinedResponse
lined_response_of (some s ∷ some size ∷ [], content) =
    if length content == size
    then returned (record { result = status.of_int s; content = content })
    else thrown data_size_mismatch
lined_response_of _ = undefined

unfoldable pub lined_response_from_string : Bytes → Outcome LinedResponse
unfolding read_lined
lined_response_from_string str = read_lined (int ∷ size_t ∷ []) str >>= lined_response_of

pub record PartialDecryptionRequest : Type 0 where
  pub sk_share_id : ℕ
  pub kind : DataType
  pub content : Bytes

unfoldable pub share_request_to_string : PartialDecryptionRequest → Bytes
unfolding int_to_string to_string
share_request_to_string r =
    to_string r.sk_share_id
    ++ space
      ∷ (int_to_string (data_type.to_int r.kind)
          ++ space ∷ (to_string (length r.content) ++ newline ∷ r.content))

abbrev pub share_request_of : List (Option ℕ) × Bytes → Outcome PartialDecryptionRequest
share_request_of (some id ∷ some kind ∷ some size ∷ [], content) =
    if length content == size
    then returned (record { sk_share_id = id; kind = data_type.of_int kind; content = content })
    else thrown data_size_mismatch
share_request_of _ = undefined

unfoldable pub share_request_from_string : Bytes → Outcome PartialDecryptionRequest
unfolding read_lined
share_request_from_string str = read_lined (size_t ∷ int ∷ size_t ∷ []) str >>= share_request_of

-- BeaversTripletRequest: the number of triplets
abbrev pub triplets_to_string : ℕ → Bytes
triplets_to_string num_triples = to_string num_triples

unfoldable pub triplets_from_string : Bytes → Outcome ℕ
unfolding extract
triplets_from_string str = elim ((extract size_t (some str)).0) [
  | none ↦ undefined
  | some num_triples ↦ returned num_triples
]
