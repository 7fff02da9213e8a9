-- ===== src/Compute/Request.antt =====
-- ComputeRequest of include/node/compute_request_handler.hpp: an operation with its operands, and the
-- texts of these. All operands are read from one stream, whose position the code asks for and moves.
pub mod RoundTrip
pub mod Single
use co_fhe.Base.{
  ℕ, zero, suc, ◌-◌, ◌^◌, ltb, leb, ◌==◌, if◌then◌else◌, Option, none, some, List, [], ◌∷◌, ◌++◌,
  length, take, drop, Bytes,
}
use co_fhe.Wire.Decimal.{to_string}
use co_fhe.Wire.Stream.{newline, space, is_space, split_line, Width, int, size_t}
use co_fhe.Wire.Fields.{int_to_string, extract_all}
use co_fhe.Wire.Enums.{DataType, data_type}
use co_fhe.Wire.Outcome.{
  Outcome, returned, thrown, undefined, data_size_mismatch, out_of_range, ◌>>=◌,
}
use co_fhe.Wire.Lined.{read_lined}
use co_fhe.Compute.Types.{
  OperationType, operation_type, Operation, operation, EncryptionType, encryption_type,
}

-- ComputeOperationOperand
pub record Operand : Type 0 where
  pub kind : DataType
  pub encryption : EncryptionType
  pub content : Bytes

unfoldable pub operand_to_string : Operand → Bytes
unfolding int_to_string to_string
operand_to_string o =
    int_to_string (data_type.to_int o.kind)
    ++ space
      ∷ (int_to_string (encryption_type.to_int o.encryption)
          ++ space ∷ (to_string (length o.content) ++ newline ∷ (o.content ++ newline ∷ [])))

abbrev pub header : List Width
header = int ∷ int ∷ size_t ∷ []

abbrev pub operand_of : List (Option ℕ) → Bytes → Outcome Operand
operand_of (some kind ∷ some encryption ∷ some size ∷ []) content =
    let data_read = take size content in
    if length data_read == size
    then returned (record {
      kind = data_type.of_int kind;
      encryption = encryption_type.of_int encryption;
      content = data_read;
    })
    else thrown data_size_mismatch
operand_of _ content = undefined

-- ComputeOperationOperand::from_string of one operand. The numbers are read from the stream that the
-- header line was taken from, which stands behind it.
unfoldable pub operand_from_string : Bytes → Outcome Operand
unfolding split_line extract_all
operand_from_string str =
    let (line, behind) = split_line str in
    elim behind [
      | none ↦ operand_of (extract_all header (some [])) []
      | some content ↦ operand_of (extract_all header (some content)) content
    ]

-- A string stream: the text before its position and behind it; or its end was met; or it failed.
pub data Cursor : Type 0 where
  good : Bytes → Bytes → Cursor
  ended failed : Cursor

abbrev pub line_read : Bytes → Bytes × Option Bytes → Bytes × Cursor
line_read before (line, some rest) = (line, good (before ++ (line ++ newline ∷ [])) rest)
line_read before ([], none) = ([], failed)
line_read before (c ∷ line, none) = (c ∷ line, ended)

-- `std::getline`
unfoldable pub getline : Cursor → Bytes × Cursor
unfolding split_line
getline (good before rest) = line_read before (split_line rest)
getline ended = ([], failed)
getline failed = ([], failed)

-- `stream >> std::ws`
unfoldable pub skip_from : Bytes → Bytes → Cursor
skip_from before [] = ended
skip_from before (c ∷ s) =
    let rest = skip_from (before ++ c ∷ []) s in if is_space c then rest else good before (c ∷ s)

abbrev pub ws : Cursor → Cursor
ws (good before rest) = skip_from before rest
ws ended = failed
ws failed = failed

-- `stream.seekg(size, std::ios_base::cur)`, where `size` becomes a signed number of 64 bits
abbrev pub seek : Bytes → Bytes → ℕ → Cursor
seek before rest size =
    if ltb size (2 ^ 63)
    then (if leb size (length rest)
        then good (before ++ take size rest) (drop size rest)
        else failed)
    else (let back = 2 ^ 64 - size in
        if leb back (length before)
        then good (take (length before - back) before) (drop (length before - back) before ++ rest)
        else failed)

-- What is done with the numbers of a header line. `tellg` is -1 unless the stream is good, and then
-- `substr` throws.
abbrev pub take_operand : Cursor → List (Option ℕ) → Outcome (Operand × Cursor)
take_operand (good before rest) (some kind ∷ some encryption ∷ some size ∷ []) = returned (
  record {
    kind = data_type.of_int kind;
    encryption = encryption_type.of_int encryption;
    content = take size rest;
  },
  ws (seek before rest size),
)
take_operand ended (some kind ∷ some encryption ∷ some size ∷ []) = thrown out_of_range
take_operand failed (some kind ∷ some encryption ∷ some size ∷ []) = thrown out_of_range
take_operand c _ = undefined

abbrev pub read_operand : Bytes × Cursor → Outcome (Operand × Cursor)
read_operand (line, c) = take_operand (ws c) (extract_all header (some line))

-- ComputeOperationOperand::from_string of a number of operands
unfoldable pub operands_from : Cursor → ℕ → Outcome (List Operand)
unfolding getline extract_all skip_from
operands_from c zero = returned []
operands_from c (suc n) = do
  (o, c') ← read_operand (getline c)
  os ← operands_from c' n
  returned (o ∷ os)

-- ComputeOperationInstance, and ComputeRequest, which has nothing else
pub record ComputeRequest : Type 0 where
  pub operation_type : OperationType
  pub operation : Operation
  pub operands : List Operand

unfoldable pub operands_to_string : List Operand → Bytes
unfolding operand_to_string
operands_to_string [] = []
operands_to_string (o ∷ os) = operand_to_string o ++ operands_to_string os

unfoldable pub compute_request_to_string : ComputeRequest → Bytes
unfolding int_to_string to_string operands_to_string
compute_request_to_string r =
    int_to_string (operation_type.to_int r.operation_type)
    ++ space
      ∷ (int_to_string (operation.to_int r.operation)
          ++ space ∷ (to_string (length r.operands) ++ newline ∷ operands_to_string r.operands))

abbrev pub request_of : List (Option ℕ) × Bytes → Outcome ComputeRequest
request_of (some type ∷ some op ∷ some num_operands ∷ [], text) = do
  os ← operands_from (good [] text) num_operands
  returned (record {
    operation_type = operation_type.of_int type;
    operation = operation.of_int op;
    operands = os;
  })
request_of _ = undefined

unfoldable pub compute_request_from_string : Bytes → Outcome ComputeRequest
unfolding read_lined operands_from
compute_request_from_string str = read_lined header str >>= request_of
