-- ===== src/Wire/Envelope.antt =====
-- Network::Request and Network::Response of request_response.hpp, which carry the other messages, and
-- their header classes.
pub mod RoundTrip
use co_fhe.Base.{
  ℕ, ◌+◌, ◌-◌, ◌^◌, ◌≡◌, ltb, ◌==◌, if◌then◌else◌, Option, none, some, List, [], ◌∷◌, ◌++◌, length,
  Bytes,
}
use co_fhe.Wire.Decimal.{to_string}
use co_fhe.Wire.Stream.{newline, space, split_line, Width, int, size_t}
use co_fhe.Wire.Fields.{int_to_string, extract_all}
use co_fhe.Wire.Enums.{Status, ProtocolVersion, ServiceType, status, protocol_version, service_type}
use co_fhe.Wire.Lined.{read_lined}
use co_fhe.Wire.Outcome.{Outcome, returned, thrown, undefined, data_size_mismatch, ◌>>=◌}

-- An `int` where a `size_t` is expected: the sign fills the upper bits.
abbrev pub to_size : ℕ → ℕ
to_size n = if ltb n (2 ^ 31) then n else n + (2 ^ 64 - 2 ^ 32)

pub record RequestHeader : Type 0 where
  pub version : ProtocolVersion
  pub service : ServiceType
  pub data_size : ℕ

unfoldable pub request_header_to_string : RequestHeader → Bytes
unfolding int_to_string to_string
request_header_to_string h =
    int_to_string (protocol_version.to_int h.version)
    ++ space
      ∷ (int_to_string (service_type.to_int h.service)
          ++ space ∷ (to_string h.data_size ++ newline ∷ []))

abbrev pub request_header_of : List (Option ℕ) → Outcome RequestHeader
request_header_of (some ver ∷ some type ∷ some size ∷ []) = returned (record {
  version = protocol_version.of_int ver;
  service = service_type.of_int type;
  data_size = to_size size;
})
request_header_of _ = undefined

-- read from the text itself, and with a size in an `int`
unfoldable pub request_header_from_string : Bytes → Outcome RequestHeader
unfolding extract_all
request_header_from_string str = request_header_of (extract_all (int ∷ int ∷ int ∷ []) (some str))

pub record Request : Type 0 where
  pub header : RequestHeader
  pub content : Bytes

abbrev pub make_request : ProtocolVersion → ServiceType → Bytes → Request
make_request version service content = record {
  header = record { version = version; service = service; data_size = length content };
  content = content;
}

-- the constructor from a header and data, and `from_string` from them, which makes the same test first
abbrev pub request_with_header : RequestHeader → Bytes → Outcome Request
request_with_header h content =
    if h.data_size == length content
    then returned (record { header = h; content = content })
    else thrown data_size_mismatch

unfoldable pub request_to_string : Request → Bytes
unfolding request_header_to_string
request_to_string r = request_header_to_string r.header ++ r.content

abbrev pub request_of : List (Option ℕ) × Bytes → Outcome Request
request_of (some ver ∷ some type ∷ some size ∷ [], content) =
    if length content == size
    then returned (make_request (protocol_version.of_int ver) (service_type.of_int type) content)
    else thrown data_size_mismatch
request_of _ = undefined

unfoldable pub request_from_string : Bytes → Outcome Request
unfolding read_lined
request_from_string str = read_lined (int ∷ int ∷ size_t ∷ []) str >>= request_of

pub record ResponseHeader : Type 0 where
  pub version : ProtocolVersion
  pub service : ServiceType
  pub result : Status
  pub data_size : ℕ

unfoldable pub response_header_to_string : ResponseHeader → Bytes
unfolding int_to_string to_string
response_header_to_string h =
    int_to_string (protocol_version.to_int h.version)
    ++ space
      ∷ (int_to_string (service_type.to_int h.service)
          ++ space
            ∷ (int_to_string (status.to_int h.result)
                ++ space ∷ (to_string h.data_size ++ newline ∷ [])))

abbrev pub response_header_of : List (Option ℕ) → Outcome ResponseHeader
response_header_of (some ver ∷ some type ∷ some result ∷ some size ∷ []) = returned (record {
  version = protocol_version.of_int ver;
  service = service_type.of_int type;
  result = status.of_int result;
  data_size = size;
})
response_header_of _ = undefined

unfoldable pub response_header_from_string : Bytes → Outcome ResponseHeader
unfolding extract_all split_line
response_header_from_string str =
    response_header_of (extract_all (int ∷ int ∷ int ∷ size_t ∷ []) (some (split_line str).0))

pub record Response : Type 0 where
  pub header : ResponseHeader
  pub content : Bytes

abbrev pub make_response : ProtocolVersion → ServiceType → Status → Bytes → Response
make_response version service result content = record {
  header = record {
    version = version;
    service = service;
    result = result;
    data_size = length content;
  };
  content = content;
}

abbrev pub response_with_header : ResponseHeader → Bytes → Outcome Response
response_with_header h content =
    if h.data_size == length content
    then returned (record { header = h; content = content })
    else thrown data_size_mismatch

unfoldable pub response_to_string : Response → Bytes
unfolding response_header_to_string
response_to_string r = response_header_to_string r.header ++ r.content

-- the size is an `int` here
abbrev pub response_of : List (Option ℕ) × Bytes → Outcome Response
response_of (some ver ∷ some type ∷ some result ∷ some size ∷ [], content) =
    if length content == to_size size
    then returned (
        make_response (protocol_version.of_int ver) (service_type.of_int type)
          (status.of_int result) content)
    else thrown data_size_mismatch
response_of _ = undefined

unfoldable pub response_from_string : Bytes → Outcome Response
unfolding read_lined
response_from_string str = read_lined (int ∷ int ∷ int ∷ int ∷ []) str >>= response_of
