-- ===== src/Node/Session/Pipeline.antt =====
-- A session answers the requests of a connection one by one and in order, however the bytes arrive.
use co_fhe.Base.{
  ℕ, ◌^◌, ◌<◌, ◌≡◌, refl, sym, ap, ◌∙◌, subst, ◌==◌, if◌then◌else◌, Option, none, some, List, [],
  ◌∷◌, ◌++◌, append_assoc, length, take, drop, take-append-drop, Bytes, arith,
}
use co_fhe.Wire.Stream.{newline, split_line, int}
use co_fhe.Wire.Fields.{fields_line, split_line-fields_line}
use co_fhe.Wire.Outcome.{
  Outcome, returned, thrown, undefined, terminated, data_size_mismatch, ◌>>=◌,
}
use co_fhe.Wire.Headed.RoundTrip.{beq_refl}
use co_fhe.Wire.Enums.{ProtocolVersionNamed, ServiceTypeNamed}
use co_fhe.Wire.Envelope.{
  request_header_to_string, Request, request_with_header, request_to_string, Response,
  response_to_string,
}
use co_fhe.Wire.Envelope.RoundTrip.{
  request_front, request_header_line, request_header_from_string-to_string,
}
use co_fhe.Node.Session.Buffer.{ahead_of, Read, read, reads_on}
use co_fhe.Node.Session.{
  Connection, read_line, finish, with_request, process_request, with_data, with_header, with_line,
  do_read, go_on, session,
}

-- A request as a client sends it: named fields, the size of its data, and less than 2^31 bytes of it.
pub record Sent (req : Request) : Type 0 where
  pub version : ProtocolVersionNamed req.header.version
  pub service : ServiceTypeNamed req.header.service
  pub sized : req.header.data_size ≡ length req.content
  pub small : length req.content < 2 ^ 31

abbrev pub AllSent : List Request → Type 0
AllSent [] = Unit {0}
AllSent (req ∷ reqs) = Sent req × AllSent reqs

abbrev pub sent : List Request → Bytes
sent [] = []
sent (req ∷ reqs) = request_to_string req ++ sent reqs

read_line-request_to_string :
    (ahead : ℕ) (req : Request) (rest : Bytes) (c : Connection)
    → Sent req
    → ahead_of c ≡ request_to_string req ++ rest
    → read_line ahead c
      ≡ some (
        request_header_to_string req.header ++ [],
        record {
          read_buffer = take ahead (req.content ++ rest);
          incoming = drop ahead (req.content ++ rest);
        },
      )
unfolding read_line request_to_string
read_line-request_to_string ahead req rest c sends e =
    let line : Bytes =
      fields_line (
        request_front req.header sends.version sends.service ++ (int, req.header.data_size) ∷ []) in
    let text : ahead_of c ≡ line ++ newline ∷ (req.content ++ rest) =
      e
      ∙ append_assoc (request_header_to_string req.header) req.content rest
      ∙ request_header_line req.header sends.version sends.service int (req.content ++ rest) in
    ap
      (λ (p : Bytes × Option Bytes). elim p.1 as (λ _. Option (Bytes × Connection)) [
        | none ↦ none
        | some behind ↦ some (
          p.0 ++ newline ∷ [],
          record { read_buffer = take ahead behind; incoming = drop ahead behind },
        )
      ])
      (ap split_line text
        ∙ split_line-fields_line
            (request_front req.header sends.version sends.service
              ++ (int, req.header.data_size) ∷ [])
            (req.content ++ rest))
    ∙ ap
        (λ header_str. some (
          header_str,
          record {
            read_buffer = take ahead (req.content ++ rest);
            incoming = drop ahead (req.content ++ rest);
          },
        ))
        (sym (request_header_line req.header sends.version sends.service int []))

with_header-Sent :
    (req : Request) → Sent req → request_with_header req.header req.content ≡ returned req
with_header-Sent req sends =
    ap (λ b. if b then returned req else thrown data_size_mismatch)
      (ap (λ n. n == length req.content) sends.sized ∙ beq_refl (length req.content))

module _ {ℓ} {State : Type ℓ} (handle : State → Request → State × Outcome Response) where
  process_request-Sent :
      (s : State) (req : Request) (c : Connection)
      → Sent req
      → take req.header.data_size c.read_buffer ≡ req.content
      → process_request handle s req.header c
        ≡ finish
            (record {
              read_buffer = drop req.header.data_size c.read_buffer;
              incoming = c.incoming;
            })
            (handle s req)
  unfolding process_request
  process_request-Sent s req c sends front =
      ap
        (with_request handle s
          (record { read_buffer = drop req.header.data_size c.read_buffer; incoming = c.incoming }))
        (ap (request_with_header req.header) front ∙ with_header-Sent req sends)

  -- A pass answers one request, and what is left of the connection are the others.
  do_read-Sent :
      (ahead : ℕ) (s : State) (req : Request) (rest : Bytes) (c : Connection)
      → Sent req
      → ahead_of c ≡ request_to_string req ++ rest
      → (c' : Connection) × (do_read handle ahead s c ≡ finish c' (handle s req))
        × (ahead_of c' ≡ rest)
  unfolding do_read
  do_read-Sent ahead s req rest c sends e =
      let behind : Connection = record {
        read_buffer = take ahead (req.content ++ rest);
        incoming = drop ahead (req.content ++ rest);
      } in
      elim (subst (λ n. Read n req.content rest behind) (sym sends.sized)
        (reads_on req.content rest behind (take-append-drop ahead (req.content ++ rest)))) [
          | read c' found front back ↦ (
            record {
              read_buffer = drop req.header.data_size c'.read_buffer;
              incoming = c'.incoming;
            },
            ap (with_line handle s) (read_line-request_to_string ahead req rest c sends e)
                ∙ ap (with_header handle s behind) (
                    request_header_from_string-to_string req.header sends.version sends.service
                      (subst (λ n. n < 2 ^ 31) (sym sends.sized) sends.small) [])
                ∙ ap (with_data handle s req.header) found
                ∙ process_request-Sent s req c' sends front,
            back,
          )
        ]

  -- What a session says to requests that come one by one.
  abbrev pub reply :
      (State → State × Outcome (List Bytes))
      → State × Outcome Response
      → State × Outcome (List Bytes)
  reply next (s, returned response) =
      let (s', texts) = next s in
      (s', texts >>= (λ more. returned (response_to_string response ∷ more)))
  reply next (s, thrown e) = (s, returned [])
  reply next (s, undefined) = (s, undefined)
  reply next (s, terminated) = (s, terminated)

  abbrev pub answers : List Request → State → State × Outcome (List Bytes)
  answers [] s = (s, returned [])
  answers (req ∷ reqs) s = reply (answers reqs) (handle s req)

  go_on-finish :
      (aheads : List ℕ) (reqs : List Request) (c : Connection) (p : State × Outcome Response)
      → ((s : State) → session handle aheads s c ≡ answers reqs s)
      → go_on (session handle aheads) (finish c p) ≡ reply (answers reqs) p
  go_on-finish aheads reqs c (s, returned response) same =
      ap
        (λ (q : State × Outcome (List Bytes)).
          (q.0, q.1 >>= (λ more. returned (response_to_string response ∷ more))))
        (same s)
  go_on-finish aheads reqs c (s, thrown e) same = refl
  go_on-finish aheads reqs c (s, undefined) same = refl
  go_on-finish aheads reqs c (s, terminated) same = refl

  -- A session on a connection on which requests come, one behind the other, each with named fields and
  -- less than 2^31 bytes of data, answers in as many passes each of them as the handler does, in their
  -- order, up to the first that ends the session, however many bytes each read finds.
  pub session-answers :
      (aheads : List ℕ) (reqs : List Request) (s : State) (c : Connection)
      → length aheads ≡ length reqs
      → AllSent reqs
      → c.read_buffer ++ c.incoming ≡ sent reqs
      → session handle aheads s c ≡ answers reqs s
  unfolding session
  session-answers [] [] s c count sends e = refl
  session-answers [] (req ∷ reqs) s c count sends e = absurd (omega (arith, count))
  session-answers (ahead ∷ aheads) [] s c count sends e = absurd (omega (arith, count))
  session-answers (ahead ∷ aheads) (req ∷ reqs) s c count (first, others) e =
      let (c', pass, left) = do_read-Sent ahead s req (sent reqs) c first e in
      ap (go_on (session handle aheads)) pass
      ∙ go_on-finish aheads reqs c' (handle s req)
          (λ s'. session-answers aheads reqs s' c' (omega (arith, count)) others left)
