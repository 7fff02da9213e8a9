-- ===== src/Node/CofheNode/Transparent.antt =====
-- A client reads in the answer of a CoFHE node what the handler of partial decryptions said.
use co_fhe.Base.{ℕ, ◌^◌, ◌≤◌, ◌<◌, ◌≡◌, refl, ap, ◌∙◌, true, leb, List, length, codes, arith}
use co_fhe.Wire.Enums.{ok, error, StatusNamed, DataTypeNamed}
use co_fhe.Wire.RequestTypes.{partial_decryption, cofhe_type}
use co_fhe.Wire.Outcome.{Outcome, returned, thrown, undefined, terminated, ◌>>=◌}
use co_fhe.Wire.Messages.{CofheNodeResponse, cofhe_node_response}
use co_fhe.Wire.Headed.{make}
use co_fhe.Wire.Lined.{
  LinedResponse, lined_response_to_string, lined_response_from_string, PartialDecryptionRequest,
  share_request_to_string,
}
use co_fhe.Wire.Lined.RoundTrip.{
  lined_response_from_string-to_string, share_request_from_string-to_string,
}
use co_fhe.Node.CofheNode.{CryptoSystem, handle_partial_decryption, handle_cofhe}

-- a result that a text can carry
abbrev pub Carried : Outcome LinedResponse → Type 0
Carried (returned r) = StatusNamed r.result × (length r.content < 2 ^ 64)
Carried (thrown e) = Unit {0}
Carried undefined = Unit {0}
Carried terminated = Unit {0}

-- `run(…, &res)` and `PartialDecryptionResponse::from_string(res->data())`. Where the node answers
-- nothing, as its session ends with an exception of the handler, the pointer that is read is null.
abbrev pub client_reads : Outcome CofheNodeResponse → Outcome LinedResponse
client_reads (returned response) = lined_response_from_string response.content
client_reads (thrown e) = undefined
client_reads undefined = undefined
client_reads terminated = undefined

-- What arrives of a result: a response as it is, and nothing that is defined of an exception.
abbrev pub what_arrives : Outcome LinedResponse → Outcome LinedResponse
what_arrives (returned r) = returned r
what_arrives (thrown e) = undefined
what_arrives undefined = undefined
what_arrives terminated = undefined

leb-true : (m n : ℕ) → m ≤ n → leb m n ≡ true
leb-true m n h = ground arith

through_text :
    (res : Outcome LinedResponse)
    → Carried res
    → client_reads (res >>= (λ r. returned (cofhe_node_response ok (lined_response_to_string r))))
      ≡ what_arrives res
through_text (returned r) (named, small) = lined_response_from_string-to_string r named small
through_text (thrown e) h = refl
through_text undefined h = refl
through_text terminated h = refl

module _ {Share CipherText Tensor PartResult PartTensor : Type 0}
    (cs : CryptoSystem Share CipherText Tensor PartResult PartTensor) (shares : List Share)
    (r : PartialDecryptionRequest) where
  -- What a client reads in the answer to a request for a partial decryption of a named kind is the
  -- response of the handler of these, error messages included, if the share's number and the sizes of the
  -- texts are below 2^64 and the response's status is named; where the handler responds nothing, the
  -- client reads a null pointer.
  pub client_reads-handle_cofhe :
      DataTypeNamed r.kind
      → r.sk_share_id < 2 ^ 64
      → length r.content < 2 ^ 64
      → Carried (handle_partial_decryption cs shares r)
      → client_reads
          (handle_cofhe cs shares (make cofhe_type partial_decryption (share_request_to_string r)))
        ≡ what_arrives (handle_partial_decryption cs shares r)
  unfolding handle_cofhe
  client_reads-handle_cofhe named id small carried =
      ap
        (λ m. client_reads (
          m >>= (λ request. handle_partial_decryption cs shares request >>= (λ response.
            returned (cofhe_node_response ok (lined_response_to_string response))))))
        (share_request_from_string-to_string r named id small)
      ∙ through_text (handle_partial_decryption cs shares r) carried

  -- A share that the node does not have is refused before the ciphertext is read.
  pub handle_partial_decryption-no_share :
      length shares ≤ r.sk_share_id
      → handle_partial_decryption cs shares r
        ≡ returned (record { result = error; content = codes "Invalid secret key share id" })
  unfolding handle_partial_decryption
  handle_partial_decryption-no_share h = rw (leb-true (length shares) r.sk_share_id h)
