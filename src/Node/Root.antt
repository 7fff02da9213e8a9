-- ===== src/Node/Root.antt =====
-- RequestHandler of include/node/root_request_handler.hpp: a request for the node's service goes to its
-- handler, the text of whose answer is the data of the response.
use co_fhe.Base.{Bytes, Bool, true, false, if◌then◌else◌, codes}
use co_fhe.Wire.Enums.{ok, error, ServiceType, compute_request, cofhe_request, setup_request}
use co_fhe.Wire.Outcome.{Outcome, returned, ◌>>=◌}
use co_fhe.Wire.Envelope.{Request, Response, make_response}

-- The `RequestImpl` of the template: the service that a node has. The state is the handler's.
pub data Service : Type 0 where
  computes decrypts sets_up : Service

abbrev pub serves : Service → ServiceType → Bool
serves computes compute_request = true
serves decrypts cofhe_request = true
serves sets_up setup_request = true
serves service type = false

module _ {ℓ} {State : Type ℓ} (service : Service)
    (handler : State → Bytes → State × Outcome Bytes) where
  abbrev pub wrap : Request → State × Outcome Bytes → State × Outcome Response
  wrap req (s, res) =
      (s, res >>= (λ text. returned (make_response req.header.version req.header.service ok text)))

  -- `handler` reads the data of a request and writes the text of its answer
  unfoldable pub handle_request : State → Request → State × Outcome Response
  handle_request s req =
      if serves service req.header.service then wrap req (handler s req.content) else (
        s,
        returned (
            make_response req.header.version req.header.service error
              (codes "Invalid request type")),
      )
