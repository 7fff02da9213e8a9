-- ===== src/Node/Client.antt =====
-- The read of a response by Client of include/node/client.hpp, on a connection as in Session.
pub mod Receives
use co_fhe.Base.{ℕ, Option, none, some, take, drop, Bytes}
use co_fhe.Wire.Outcome.{Outcome, returned, thrown, undefined, terminated}
use co_fhe.Wire.Envelope.{ResponseHeader, response_header_from_string}
use co_fhe.Node.Session.{Connection, read_line, read_data}

-- What a read comes to: the response, stored behind the pointer, and the connection; or the end of the
-- session, which an exception brings about, with nothing stored.
abbrev pub Received : Type 0 → Type 0
Received T = Outcome (Option (T × Connection))

-- `from_string` is that of the response's class.
module _ {T : Type 0} (from_string : Bytes → Outcome T) where
  abbrev pub stored : Connection → Outcome T → Received T
  stored rest (returned res) = returned (some (res, rest))
  stored rest (thrown e) = returned none
  stored rest undefined = undefined
  stored rest terminated = terminated

  unfoldable pub process_response : ResponseHeader → Connection → Received T
  process_response header c =
      stored (record { read_buffer = drop header.data_size c.read_buffer; incoming = c.incoming })
        (from_string (take header.data_size c.read_buffer))

  abbrev pub on_data : ResponseHeader → Option Connection → Received T
  on_data header none = returned none
  on_data header (some c) = process_response header c

  abbrev pub on_header : Connection → Outcome ResponseHeader → Received T
  on_header c (returned header) = on_data header (read_data header.data_size c)
  on_header c (thrown e) = returned none
  on_header c undefined = undefined
  on_header c terminated = terminated

  abbrev pub on_line : Option (Bytes × Connection) → Received T
  on_line none = returned none
  on_line (some (header_str, c)) = on_header c (response_header_from_string header_str)

  unfoldable pub receive : ℕ → Connection → Received T
  unfolding read_line read_data process_response response_header_from_string
  receive ahead c = on_line (read_line ahead c)
