-- ===== src/Compute/Handler.antt =====
-- ComputeRequestHandler of include/node/compute_request_handler.hpp: decryption, and what the type and the
-- operation of a request come to.
pub mod Answers
pub mod Refusals
pub mod Tensors
pub mod Matrices
use co_fhe.Base.{ℕ, Bool, true, false, not, ◌&&◌, ◌||◌, ◌==◌, if◌then◌else◌, length, Bytes, codes}
use co_fhe.Bicycl.{Mpz}
use co_fhe.Wire.Enums.{DataType, single, tensor, tensor_id, other_data_type}
use co_fhe.Wire.Outcome.{Outcome, returned, ◌>>=◌}
use co_fhe.Wire.Lined.{LinedResponse}
use co_fhe.Smpc.Multiply.{Encryption, Client}
use co_fhe.Compute.Types.{
  OperationType, unary, binary, ternary, other_operation_type, Operation, decrypt, add, subtract,
  multiply, divide, other_operation, EncryptionType, plaintext, ciphertext, other_encryption_type,
}
use co_fhe.Compute.Request.{ComputeRequest}
use co_fhe.Compute.Operations.{
  ComputeSystem, answer, refusal, operand, caught, handle_single_addition, handle_tensor_addition,
  handle_single_multiplication, handle_tensor_multiplication,
}

abbrev pub is_single : DataType → Bool
is_single single = true
is_single _ = false

abbrev pub is_tensor_id : DataType → Bool
is_tensor_id tensor_id = true
is_tensor_id _ = false

abbrev pub same_type : DataType → DataType → Bool
same_type single single = true
same_type tensor tensor = true
same_type tensor_id tensor_id = true
same_type (other_data_type n) (other_data_type m) = n == m
same_type _ _ = false

module _ {R PlainText CipherText PlainTensor CipherTensor : Type 0} {r : Mpz R}
    (cs : Encryption r PlainText CipherText) (client : Client PlainText CipherText)
    (sys : ComputeSystem PlainText CipherText PlainTensor CipherTensor) where
  open sys use {
    serialize_plaintext, serialize_plaintext_tensor, deserialize_ciphertext,
    deserialize_ciphertext_tensor,
  }

  abbrev pub decryption : EncryptionType → DataType → Bytes → Outcome LinedResponse
  decryption ciphertext single s = do
    ct ← deserialize_ciphertext s
    pt ← client.decrypt ct
    returned (answer (serialize_plaintext pt))
  decryption ciphertext tensor s = do
    ct ← deserialize_ciphertext_tensor s
    pt ← sys.decrypt_tensor ct
    returned (answer (serialize_plaintext_tensor pt))
  decryption ciphertext tensor_id s = returned (refusal (codes "Not implemented"))
  decryption ciphertext (other_data_type n) s = returned (refusal (codes "Invalid data type"))
  decryption _ _ s = returned (refusal (codes "Invalid data encryption type"))

  unfoldable pub handle_decrypt : ComputeRequest → Outcome LinedResponse
  handle_decrypt req = do a ← operand req 0; decryption a.encryption a.kind a.content

  abbrev pub unary_operation : Operation → ComputeRequest → Outcome LinedResponse
  unary_operation decrypt req = handle_decrypt req
  unary_operation _ req = returned (refusal (codes "Not implemented"))

  unfoldable pub handle_unary_operation : ComputeRequest → Outcome LinedResponse
  unfolding handle_decrypt
  handle_unary_operation req =
      if length req.operands == 1
      then unary_operation req.operation req
      else returned (refusal (codes "Unary operation requires 1 operand"))

  -- the switches on the operation and on the type of the first operand
  abbrev pub binary_operation : Operation → DataType → ComputeRequest → Outcome LinedResponse
  binary_operation add single req = handle_single_addition cs client sys req
  binary_operation add tensor req = handle_tensor_addition cs client sys req
  binary_operation add _ req = returned (refusal (codes "Invalid data type"))
  binary_operation multiply single req = handle_single_multiplication cs client sys req
  binary_operation multiply tensor req = handle_tensor_multiplication cs client sys req
  binary_operation multiply _ req = returned (refusal (codes "Invalid data type"))
  binary_operation subtract _ req = returned (refusal (codes "Not implemented"))
  binary_operation divide _ req = returned (refusal (codes "Not implemented"))
  binary_operation _ _ req = returned (refusal (codes "Invalid operation type"))

  abbrev pub binary_of : DataType → DataType → ComputeRequest → Outcome LinedResponse
  binary_of k l req =
      if (is_single k || is_single l) && not (same_type k l)
      then returned (
          refusal (
            codes
              "Data type mismatch. If you want to add a tensor and a single value, convert the single value to tensor"))
      else if is_tensor_id k || is_tensor_id l
      then returned (refusal (codes "Not implemented"))
      else binary_operation req.operation k req

  unfoldable pub handle_binary_operation : ComputeRequest → Outcome LinedResponse
  unfolding handle_single_addition handle_tensor_addition handle_single_multiplication
      handle_tensor_multiplication
  handle_binary_operation req =
      if length req.operands == 2
      then (do a ← operand req 0; b ← operand req 1; binary_of a.kind b.kind req)
      else returned (refusal (codes "Addition requires 2 operands"))

  unfoldable pub handle_ternary_operation : ComputeRequest → Outcome LinedResponse
  handle_ternary_operation req = returned (refusal (codes "Not implemented"))

  abbrev pub operation_of_type : OperationType → ComputeRequest → Outcome LinedResponse
  operation_of_type unary req = handle_unary_operation req
  operation_of_type binary req = handle_binary_operation req
  operation_of_type ternary req = handle_ternary_operation req
  operation_of_type (other_operation_type n) req =
      returned (refusal (codes "Invalid operation type"))

  unfoldable pub handle_request : ComputeRequest → Outcome LinedResponse
  unfolding handle_unary_operation handle_binary_operation handle_ternary_operation
  handle_request req = caught cs client sys (operation_of_type req.operation_type req)
