-- ===== src/Wire/Tests.antt =====
-- The messages at concrete texts.
use co_fhe.Base.{
  ◌-◌, Bytes, ℕ, ◌^◌, ◌≤◌, ◌≡◌, refl, sym, subst, [], ◌++◌, length, replicate, length-replicate,
  codes, arith,
}
use co_fhe.Wire.Outcome.{returned, thrown, undefined, data_size_mismatch, out_of_range}
use co_fhe.Wire.Enums.{ok, error, v1, cofhe_request, compute_request, status}
use co_fhe.Wire.RequestTypes.{SetupType, join_as_node_request, setup_type}
use co_fhe.Wire.Headed.{Headed, make, from_string, message_to_string}
use co_fhe.Wire.Headed.RoundTrip.{from_string-to_string}
use co_fhe.Wire.Messages.{setup_node_response}
use co_fhe.Wire.Lined.{LinedResponse, lined_response_to_string, lined_response_from_string}
use co_fhe.Wire.Lined.RoundTrip.{lined_response_from_string-to_string}
use co_fhe.Wire.Envelope.{
  RequestHeader, request_header_to_string, request_header_from_string, make_request,
  request_to_string, request_from_string, make_response, response_to_string, response_from_string,
}
use co_fhe.Wire.Envelope.RoundTrip.{
  request_header_from_string-too_large, request_from_string-to_string,
  response_from_string-to_string, response_from_string-too_large,
}

abbrev join : Headed SetupType
join = make setup_type join_as_node_request (codes "0 11\n1.2.3.4 5")

join_text : message_to_string setup_type join ≡ codes "1 14\n0 11\n1.2.3.4 5"
unfolding message_to_string
join_text = refl

-- The status that a response is made with is lost.
setup_node_response-status :
    message_to_string status (setup_node_response error (codes "no")) ≡ codes "0 2\nno"
unfolding message_to_string
setup_node_response-status = refl

from_string_failures :
    (from_string setup_type (codes "1 3\nfour") ≡ thrown data_size_mismatch)
    × (from_string setup_type (codes "1\nfour") ≡ undefined)
    × (lined_response_from_string (codes "0 0") ≡ thrown out_of_range)
unfolding from_string lined_response_from_string
from_string_failures = (refl, refl, refl)

from_string-to_string_example :
    from_string setup_type (message_to_string setup_type join) ≡ returned join
from_string-to_string_example = from_string-to_string setup_type join tt refl (omega arith)

abbrev refused : LinedResponse
refused = record { result = error; content = codes "Invalid data type" }

lined_response_from_string-to_string_example :
    lined_response_from_string (lined_response_to_string refused) ≡ returned refused
lined_response_from_string-to_string_example =
    lined_response_from_string-to_string refused tt (omega arith)

abbrev large_header : RequestHeader
large_header = record { version = v1; service = cofhe_request; data_size = 3000000000 }

request_header_from_string-too_large_example :
    request_header_from_string (request_header_to_string large_header ++ [])
    ≡ returned (record { version = v1; service = cofhe_request; data_size = 2 ^ 31 - 1 })
request_header_from_string-too_large_example =
    request_header_from_string-too_large large_header tt tt (omega arith) []

request_from_string-to_string_example :
    request_from_string (request_to_string (make_request v1 cofhe_request (codes "x")))
    ≡ returned (make_request v1 cofhe_request (codes "x"))
request_from_string-to_string_example =
    request_from_string-to_string v1 cofhe_request (codes "x") tt tt (omega arith)

response_from_string-to_string_example :
    response_from_string (response_to_string (make_response v1 cofhe_request ok (codes "x y")))
    ≡ returned (make_response v1 cofhe_request ok (codes "x y"))
response_from_string-to_string_example =
    response_from_string-to_string v1 cofhe_request ok (codes "x y") tt tt tt (omega arith)

xs : ℕ → Bytes
xs n = replicate n b'x'

long_enough : (n : ℕ) → n ≤ length (xs n)
unfolding xs
long_enough n = subst (λ m. n ≤ m) (sym (length-replicate n b'x')) (omega arith)

response_from_string-too_large_example :
    response_from_string (response_to_string (make_response v1 compute_request ok (xs (2 ^ 31))))
    ≡ thrown data_size_mismatch
response_from_string-too_large_example =
    response_from_string-too_large v1 compute_request ok (xs (2 ^ 31)) tt tt tt
      (long_enough (2 ^ 31))
