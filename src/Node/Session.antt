-- ===== src/Node/Session.antt =====
-- Session of include/node/server.hpp, which reads one request after another from a connection, and the
-- read of include/node/client.hpp. A read of Boost.Asio gives more than it was asked for: `ahead` is how
-- many bytes behind the header line have come with it.
pub mod Buffer
pub mod Pipeline
use co_fhe.Base.{
  ℕ, zero, suc, ◌+◌, ◌-◌, ltb, if◌then◌else◌, Option, none, some, List, [], ◌∷◌, ◌++◌, length, take,
  drop, Bytes,
}
use co_fhe.Wire.Stream.{newline, split_line}
use co_fhe.Wire.Outcome.{Outcome, returned, thrown, undefined, terminated, ◌>>=◌}
use co_fhe.Wire.Envelope.{
  RequestHeader, request_header_from_string, Request, request_with_header, Response,
  response_to_string,
}

-- The connection: what has been read of it, and what is still to be read.
pub record Connection : Type 0 where
  pub read_buffer : Bytes
  pub incoming : Bytes

-- `async_read_until(…, '\n')`: the bytes up to the newline, which are erased from the buffer by hand. It
-- fails if the connection ends before.
unfoldable pub read_line : ℕ → Connection → Option (Bytes × Connection)
unfolding split_line
read_line ahead c =
    let (line, rest) = split_line (c.read_buffer ++ c.incoming) in
    elim rest [
      | none ↦ none
      | some rest ↦ some (
        line ++ newline ∷ [],
        record { read_buffer = take ahead rest; incoming = drop ahead rest },
      )
    ]

-- `async_read(…, transfer_exactly(n - read_buffer.size()))` if there are fewer than `n` bytes
unfoldable pub read_data : ℕ → Connection → Option Connection
read_data n c =
    let missing : ℕ = n - length c.read_buffer in
    if ltb (length c.read_buffer) n
    then (if ltb (length c.incoming) missing
        then none
        else some (record {
          read_buffer = c.read_buffer ++ take missing c.incoming;
          incoming = drop missing c.incoming;
        }))
    else some c

-- What a pass comes to: the text written and the connection, or the end of the session, which an
-- exception brings about.
abbrev pub Pass : Type 0
Pass = Outcome (Option (Bytes × Connection))

module _ {ℓ} {State : Type ℓ} where
  abbrev pub finish : Connection → State × Outcome Response → State × Pass
  finish rest (s, returned response) = (s, returned (some (response_to_string response, rest)))
  finish rest (s, thrown e) = (s, returned none)
  finish rest (s, undefined) = (s, undefined)
  finish rest (s, terminated) = (s, terminated)

  -- behind a pass: the end, or the next pass
  abbrev pub go_on :
      (State → Connection → State × Outcome (List Bytes))
      → State × Pass
      → State × Outcome (List Bytes)
  go_on next (s, returned none) = (s, returned [])
  go_on next (s, returned (some (text, c))) =
      let (s', texts) = next s c in (s', texts >>= (λ more. returned (text ∷ more)))
  go_on next (s, thrown e) = (s, thrown e)
  go_on next (s, undefined) = (s, undefined)
  go_on next (s, terminated) = (s, terminated)

  module _ (handle : State → Request → State × Outcome Response) where
    abbrev pub with_request : State → Connection → Outcome Request → State × Pass
    with_request s rest (returned req) = finish rest (handle s req)
    with_request s rest (thrown e) = (s, returned none)
    with_request s rest undefined = (s, undefined)
    with_request s rest terminated = (s, terminated)

    unfoldable pub process_request : State → RequestHeader → Connection → State × Pass
    unfolding response_to_string
    process_request s header c =
        with_request s
          (record { read_buffer = drop header.data_size c.read_buffer; incoming = c.incoming })
          (request_with_header header (take header.data_size c.read_buffer))

    -- the handlers of `async_read` and `async_read_until`
    abbrev pub with_data : State → RequestHeader → Option Connection → State × Pass
    with_data s header none = (s, returned none)
    with_data s header (some c) = process_request s header c

    abbrev pub with_header : State → Connection → Outcome RequestHeader → State × Pass
    with_header s c (returned header) = with_data s header (read_data header.data_size c)
    with_header s c (thrown e) = (s, returned none)
    with_header s c undefined = (s, undefined)
    with_header s c terminated = (s, terminated)

    abbrev pub with_line : State → Option (Bytes × Connection) → State × Pass
    with_line s none = (s, returned none)
    with_line s (some (header_str, c)) = with_header s c (request_header_from_string header_str)

    -- one pass of `do_read`
    unfoldable pub do_read : ℕ → State → Connection → State × Pass
    unfolding read_line read_data process_request request_header_from_string
    do_read ahead s c = with_line s (read_line ahead c)

    -- The session: for each pass how far the read runs ahead. The texts written, in order.
    unfoldable pub session : List ℕ → State → Connection → State × Outcome (List Bytes)
    unfolding do_read
    session [] s c = (s, returned [])
    session (ahead ∷ aheads) s c = go_on (session aheads) (do_read ahead s c)
