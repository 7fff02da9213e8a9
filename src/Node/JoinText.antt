-- ===== src/Node/JoinText.antt =====
-- JoinAsNodeRequest and JoinAsNodeResponse of include/node/join_as_node.hpp, and the text of a response.
pub mod RoundTrip
use co_fhe.Base.{
  ℕ, ◌+◌, ◌==◌, if◌then◌else◌, Option, none, some, List, [], ◌∷◌, ◌++◌, length, Bytes, codes,
}
use co_fhe.Wire.Decimal.{to_string}
use co_fhe.Wire.Stream.{newline, space, split_line, int, size_t}
use co_fhe.Wire.Fields.{int_to_string, extract_all}
use co_fhe.Wire.Enums.{Status, error, status}
use co_fhe.Wire.RequestTypes.{
  JoinType, join_as_cofhe_node, join_as_compute_node, other_join_type, join_type,
}
use co_fhe.Wire.Outcome.{Outcome, returned, undefined, ◌>>=◌}

pub record JoinHeader : Type 0 where
  pub result : Status
  pub response_type : JoinType
  pub data_size : ℕ

pub record JoinResponse : Type 0 where
  pub header : JoinHeader
  pub public_key : Bytes
  pub secret_key_shares : List Bytes
  pub error_message : Bytes

-- A byte for the newline behind each share.
abbrev pub shares_size : List Bytes → ℕ
shares_size [] = 0
shares_size (share ∷ shares) = (length share + 1) + shares_size shares

abbrev pub cofhe_response : Status → Bytes → List Bytes → JoinResponse
cofhe_response result public_key shares = record {
  header = record {
    result = result;
    response_type = join_as_cofhe_node;
    data_size = (length public_key + 1) + shares_size shares;
  };
  public_key = public_key;
  secret_key_shares = shares;
  error_message = [];
}

abbrev pub compute_response : Status → JoinResponse
compute_response result = record {
  header = record { result = result; response_type = join_as_compute_node; data_size = 0 };
  public_key = [];
  secret_key_shares = [];
  error_message = [];
}

abbrev pub error_response : Bytes → JoinResponse
error_response message = record {
  header = record {
    result = error;
    response_type = join_as_cofhe_node;
    data_size = length message + 1;
  };
  public_key = [];
  secret_key_shares = [];
  error_message = message;
}

unfoldable pub join_header_to_string : JoinHeader → Bytes
unfolding int_to_string to_string
join_header_to_string h =
    int_to_string (status.to_int h.result)
    ++ space
      ∷ (int_to_string (join_type.to_int h.response_type)
          ++ space ∷ (to_string h.data_size ++ newline ∷ []))

abbrev pub unlines : List Bytes → Bytes
unlines [] = []
unlines (line ∷ rest) = line ++ newline ∷ unlines rest

unfoldable pub join_response_to_string : JoinResponse → Bytes
unfolding join_header_to_string
join_response_to_string r = join_header_to_string r.header ++ elim r.header.response_type [
  | join_as_cofhe_node ↦ unlines (r.public_key ∷ r.secret_key_shares)
  | join_as_compute_node ↦ []
  | other_join_type n ↦ unlines (r.error_message ∷ [])
]

abbrev pub join_header_of : List (Option ℕ) → Outcome JoinHeader
join_header_of (some result ∷ some type ∷ some size ∷ []) = returned (record {
  result = status.of_int result;
  response_type = join_type.of_int type;
  data_size = size;
})
join_header_of _ = undefined

unfoldable pub join_header_from_string : Bytes → Outcome JoinHeader
unfolding extract_all split_line
join_header_from_string str =
    join_header_of (extract_all (int ∷ int ∷ size_t ∷ []) (some (split_line str).0))

-- `while (std::getline(iss, line)) lines.push_back(line)`
unfoldable pub lines : Bytes → List Bytes
lines [] = []
lines (c ∷ s) =
    let rest = lines s in
    if c == newline
    then [] ∷ rest
    else elim rest [ [] ↦ (c ∷ []) ∷ [] | line ∷ more ↦ (c ∷ line) ∷ more ]

-- what is left to read; behind the end of the text `getline` reads nothing
abbrev pub left : Option Bytes → Bytes
left none = []
left (some rest) = rest

unfoldable pub join_response_behind : JoinHeader → Bytes → JoinResponse
unfolding lines split_line
join_response_behind header str =
    let (line, rest) = split_line str in
    elim header.response_type [
      | join_as_cofhe_node ↦ cofhe_response header.result line (lines (left rest))
      | join_as_compute_node ↦ compute_response header.result
      | other_join_type n ↦ error_response line
    ]

unfoldable pub join_response_from_string : Bytes → Outcome JoinResponse
unfolding join_header_from_string join_response_behind
join_response_from_string str =
    let (line, rest) = split_line str in
    do header ← join_header_from_string line; returned (join_response_behind header (left rest))

pub record JoinRequest : Type 0 where
  pub kind : JoinType
  pub data_size : ℕ
  pub ip : Bytes
  pub port : Bytes

abbrev pub join_request : JoinType → Bytes → Bytes → JoinRequest
join_request kind ip port = record {
  kind = kind;
  data_size = (length ip + 1) + (length port + 1);
  ip = ip;
  port = port;
}
