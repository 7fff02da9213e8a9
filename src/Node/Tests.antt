-- ===== src/Node/Tests.antt =====
-- The handlers at concrete requests.
use co_fhe.Base.{ℕ, ◌+◌, ◌≡◌, refl, some, List, [], ◌∷◌, ◌++◌, map, take, Bytes, codes, arith}
use co_fhe.Wire.Enums.{ok, error, single, v1, cofhe_request, compute_request}
use co_fhe.Wire.RequestTypes.{
  join_as_cofhe_node, join_as_compute_node, partial_decryption, cofhe_type,
}
use co_fhe.Wire.Outcome.{Outcome, returned}
use co_fhe.Wire.Headed.{make}
use co_fhe.Wire.Lined.{
  lined_response_from_string, PartialDecryptionRequest, share_request_to_string,
}
use co_fhe.Wire.Envelope.{
  Response, make_response, response_to_string, request_to_string, make_request, Request,
}
use co_fhe.Node.Details.{setup_node, NodeDetails, cofhe_cpu, CryptoSystemDetails}
use co_fhe.Node.JoinText.{
  JoinRequest, join_request, cofhe_response, error_response, join_response_to_string,
  join_response_from_string,
}
use co_fhe.Node.JoinText.RoundTrip.{cofhe_response-read, error_response-read}
use co_fhe.Node.Join.{JoinState, init, handle_joins}
use co_fhe.Node.Join.Handing.{
  Ready, handed, asked, left_shares, AllDefined, handed-init, handed-handle_joins,
  handle_joins-AllDefined, init-Ready,
}
use co_fhe.Node.CofheNode.{CryptoSystem, handle_cofhe, handle_partial_decryption}
use co_fhe.Node.CofheNode.Transparent.{client_reads, what_arrives, client_reads-handle_cofhe}
use co_fhe.Node.Root.{decrypts, handle_request}
use co_fhe.Node.Session.{Connection, session}
use co_fhe.Node.Client.{stored, receive}
use co_fhe.Node.Client.Receives.{receive-response}
use co_fhe.Node.Session.Pipeline.{answers, session-answers}

abbrev setup : NodeDetails
setup = record { ip = codes "127.0.0.1"; port = codes "4455"; kind = setup_node }

abbrev details : CryptoSystemDetails
details = record {
  kind = cofhe_cpu;
  public_key = [];
  security_level = 128;
  k = 64;
  threshold = 1;
  total_nodes = 2;
}

abbrev keys : List (List Bytes)
keys = (codes "10" ∷ codes "11" ∷ []) ∷ (codes "20" ∷ []) ∷ []

abbrev start : JoinState
start = init (λ (share : Bytes). share) details setup (codes "pk") keys

abbrev join_cofhe : JoinRequest
join_cofhe = join_request join_as_cofhe_node (codes "10.0.0.1") (codes "1")

abbrev join_compute : JoinRequest
join_compute = join_request join_as_compute_node (codes "10.0.0.2") (codes "2")

abbrev joins : List JoinRequest
joins = join_cofhe ∷ join_compute ∷ join_cofhe ∷ join_cofhe ∷ []

joins_run : handed (handle_joins start joins).1 ≡ keys
unfolding handle_joins init
joins_run = refl

handed-init_example :
    handed (handle_joins start joins).1 ≡ take (asked joins) (map (map (λ share. share)) keys)
handed-init_example =
    handed-init (λ (share : Bytes). share) details setup (codes "pk") keys joins (omega arith) refl

start-Ready : Ready start
start-Ready =
    init-Ready (λ (share : Bytes). share) details setup (codes "pk") keys (omega arith) refl

handed-handle_joins_example :
    handed (handle_joins start joins).1 ≡ take (asked joins) (left_shares start)
handed-handle_joins_example = handed-handle_joins start joins start-Ready

handle_joins-AllDefined_example : AllDefined (handle_joins start joins).1
handle_joins-AllDefined_example = handle_joins-AllDefined start joins start-Ready

cofhe_response-read_example :
    join_response_from_string
      (join_response_to_string (cofhe_response ok (codes "pk") (codes "10" ∷ codes "11" ∷ [])))
    ≡ returned (cofhe_response ok (codes "pk") (codes "10" ∷ codes "11" ∷ []))
cofhe_response-read_example =
    cofhe_response-read ok (codes "pk") (codes "10" ∷ codes "11" ∷ []) tt (refl, (refl, tt))
      ((refl, (refl, tt)), ((refl, (refl, tt)), tt)) (omega arith)

error_response-read_example :
    join_response_from_string
      (join_response_to_string (error_response (codes "No more nodes can join")))
    ≡ returned (cofhe_response error [] [])
error_response-read_example = error_response-read (codes "No more nodes can join") (omega arith)

-- A cryptosystem on texts: a share is put in front of a ciphertext.
abbrev texts : CryptoSystem Bytes Bytes Bytes Bytes Bytes
texts = record {
  deserialize_secret_key_share = returned;
  deserialize_ciphertext = returned;
  deserialize_ciphertext_tensor = returned;
  part_decrypt = λ share ct. share ++ ct;
  part_decrypt_tensor = λ share ct. share ++ ct;
  serialize_part_decryption_result = λ part. part;
  serialize_part_decryption_result_tensor = λ part. part;
}

abbrev ask : PartialDecryptionRequest
ask = record { sk_share_id = 1; kind = single; content = codes "ct" }

ask_run :
    handle_partial_decryption texts (codes "a" ∷ codes "b" ∷ []) ask
    ≡ returned (record { result = ok; content = codes "bct" })
unfolding handle_partial_decryption
ask_run = refl

client_reads-handle_cofhe_example :
    client_reads (
      handle_cofhe texts
        (codes "a" ∷ codes "b" ∷ [])
        (make cofhe_type partial_decryption (share_request_to_string ask)))
    ≡ what_arrives (handle_partial_decryption texts (codes "a" ∷ codes "b" ∷ []) ask)
unfolding handle_partial_decryption
client_reads-handle_cofhe_example =
    client_reads-handle_cofhe texts (codes "a" ∷ codes "b" ∷ []) ask tt (omega arith) (omega arith)
      (tt, omega arith)

-- A handler that counts the requests and repeats their data.
abbrev echo : ℕ → Bytes → ℕ × Outcome Bytes
echo n content = (n + 1, returned content)

abbrev requests : List Request
requests =
    make_request v1 cofhe_request (codes "hello") ∷ make_request v1 compute_request (codes "x") ∷ []

abbrev arrived : Connection
arrived = record { read_buffer = codes "0 "; incoming = codes "1 5\nhello0 0 1\nx" }

session-answers_example :
    session (handle_request decrypts echo) (3 ∷ 100 ∷ []) 0 arrived
    ≡ answers (handle_request decrypts echo) requests 0
unfolding request_to_string
session-answers_example =
    session-answers (handle_request decrypts echo) (3 ∷ 100 ∷ []) requests 0 arrived refl
      (
        record { version = tt; service = tt; sized = refl; small = omega arith },
        (record { version = tt; service = tt; sized = refl; small = omega arith }, tt),
      )
      refl

session_run :
    session (handle_request decrypts echo) (3 ∷ 100 ∷ []) 0 arrived
    ≡ (1, returned (codes "0 1 0 5\nhello" ∷ codes "0 0 1 20\nInvalid request type" ∷ []))
unfolding session handle_request
session_run = refl

abbrev written : Response
written = make_response v1 cofhe_request ok (codes "1 3\nabc")

-- The response has come in part, and the start of the next behind it.
abbrev incoming : Connection
incoming = record { read_buffer = codes "0 1 0 7\n1 3"; incoming = codes "\nabc0 1" }

receive_run :
    receive lined_response_from_string 2 incoming
    ≡ returned (
        some (
          record { result = error; content = codes "abc" },
          record { read_buffer = []; incoming = codes "0 1" },
        ))
unfolding receive lined_response_from_string
receive_run = refl

receive-response_example :
    (c' : Connection) × (receive lined_response_from_string 2 incoming
      ≡ stored lined_response_from_string c' (lined_response_from_string written.content))
    × (c'.read_buffer ++ c'.incoming ≡ codes "0 1")
unfolding response_to_string
receive-response_example =
    receive-response 2 written (codes "0 1") incoming
      (record { version = tt; service = tt; result = tt; sized = refl; small = omega arith }) refl
      lined_response_from_string
