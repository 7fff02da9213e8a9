-- ===== src/Node/Client/Receives.antt =====
-- A client gets the response that a server wrote, however the bytes arrive.
use co_fhe.Base.{
  ℕ, ◌^◌, ◌<◌, ◌≡◌, sym, ap, ◌∙◌, subst, Option, none, some, [], ◌∷◌, ◌++◌, append_assoc, length,
  take, drop, take-append-drop, Bytes,
}
use co_fhe.Wire.Stream.{newline, split_line, size_t}
use co_fhe.Wire.Fields.{fields_line, split_line-fields_line}
use co_fhe.Wire.Enums.{StatusNamed, ProtocolVersionNamed, ServiceTypeNamed}
use co_fhe.Wire.Outcome.{Outcome}
use co_fhe.Wire.Envelope.{Response, response_header_to_string, response_to_string}
use co_fhe.Wire.Envelope.RoundTrip.{
  response_front, response_header_line, response_header_from_string-to_string,
}
use co_fhe.Node.Session.{Connection, read_line}
use co_fhe.Node.Session.Buffer.{ahead_of, Read, read, reads_on}
use co_fhe.Node.Client.{stored, process_response, on_data, on_header, on_line, receive}

-- A response as a server writes it: named fields, the size of its data, and less than 2^64 bytes of it.
pub record Written (r : Response) : Type 0 where
  pub version : ProtocolVersionNamed r.header.version
  pub service : ServiceTypeNamed r.header.service
  pub result : StatusNamed r.header.result
  pub sized : r.header.data_size ≡ length r.content
  pub small : length r.content < 2 ^ 64

module _ (ahead : ℕ) (r : Response) (rest : Bytes) (c : Connection) (w : Written r)
    (e : ahead_of c ≡ response_to_string r ++ rest) where
  abbrev behind : Connection
  behind = record {
    read_buffer = take ahead (r.content ++ rest);
    incoming = drop ahead (r.content ++ rest);
  }

  abbrev line : Bytes
  line =
      fields_line
        (response_front r.header w.version w.service w.result ++ (size_t, r.header.data_size) ∷ [])

  line_read : read_line ahead c ≡ some (response_header_to_string r.header ++ [], behind)
  unfolding read_line response_to_string
  line_read =
      let text : ahead_of c ≡ line ++ newline ∷ (r.content ++ rest) =
        e
        ∙ append_assoc (response_header_to_string r.header) r.content rest
        ∙ response_header_line r.header w.version w.service w.result size_t (r.content ++ rest) in
      ap
        (λ (p : Bytes × Option Bytes). elim p.1 as (λ _. Option (Bytes × Connection)) [
          | none ↦ none
          | some more ↦ some (
            p.0 ++ newline ∷ [],
            record { read_buffer = take ahead more; incoming = drop ahead more },
          )
        ])
        (ap split_line text
          ∙ split_line-fields_line
              (response_front r.header w.version w.service w.result
                ++ (size_t, r.header.data_size) ∷ [])
              (r.content ++ rest))
      ∙ ap (λ header_str. some (header_str, behind))
          (sym (response_header_line r.header w.version w.service w.result size_t []))

  -- On a connection on which a response comes, with named fields and less than 2^64 bytes of data, and
  -- anything behind it, a client stores what its class reads from the data of the response, and is left
  -- with what is behind it, however many bytes each read finds.
  pub receive-response :
      {T : Type 0} (from_string : Bytes → Outcome T)
      → (c' : Connection) × (receive from_string ahead c
          ≡ stored from_string c' (from_string r.content))
        × (ahead_of c' ≡ rest)
  unfolding receive process_response
  receive-response from_string =
      elim (subst (λ n. Read n r.content rest behind) (sym w.sized)
        (reads_on r.content rest behind (take-append-drop ahead (r.content ++ rest)))) [
          | read c' found front back ↦ (
            record { read_buffer = drop r.header.data_size c'.read_buffer; incoming = c'.incoming },
            ap (on_line from_string) line_read
                ∙ ap (on_header from_string behind) (
                    response_header_from_string-to_string r.header w.version w.service w.result
                      (subst (λ n. n < 2 ^ 64) (sym w.sized) w.small) [])
                ∙ ap (on_data from_string r.header) found
                ∙ ap
                    (λ text.
                      stored from_string
                        (record {
                          read_buffer = drop r.header.data_size c'.read_buffer;
                          incoming = c'.incoming;
                        })
                        (from_string text))
                    front,
            back,
          )
        ]
