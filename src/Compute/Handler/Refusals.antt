-- ===== src/Compute/Handler/Refusals.antt =====
-- What a compute node refuses, and that it throws nothing.
pub mod Pairs
use co_fhe.Base.{
  ℕ, not, ◌&&◌, ◌||◌, suc, ◌==◌, Bool, true, false, if◌then◌else◌, length, ◌≡◌, refl, [], ◌∷◌, List,
  Bytes, codes, arith,
}
use co_fhe.Bicycl.{Mpz}
use co_fhe.Wire.Enums.{DataType, error, single, tensor, tensor_id, other_data_type}
use co_fhe.Wire.Outcome.{Error, Outcome, returned, thrown, undefined, terminated}
use co_fhe.Wire.Lined.{LinedResponse}
use co_fhe.Smpc.Multiply.{Encryption, Client}
use co_fhe.Compute.Types.{
  OperationType, unary, binary, ternary, other_operation_type, Operation, decrypt, add, subtract,
  multiply, divide, other_operation, EncryptionType, plaintext, ciphertext, other_encryption_type,
  EncryptionTypeNamed,
}
use co_fhe.Compute.Request.{Operand, ComputeRequest}
use co_fhe.Compute.Operations.{
  ComputeSystem, caught, single_addition, tensor_addition, single_multiplication,
  tensor_multiplication, refusal, handle_single_addition, handle_tensor_addition,
  handle_single_multiplication, handle_tensor_multiplication,
}
use co_fhe.Compute.Handler.{
  handle_request, operation_of_type, binary_of, is_single, is_tensor_id, same_type, decryption,
  unary_operation, handle_decrypt,
}
use co_fhe.Compute.Handler.Refusals.Pairs.{DecryptHandled, Handled, IsRefusal, pair, refused_binary}

module _ {R PlainText CipherText PlainTensor CipherTensor : Type 0} {r : Mpz R}
    (cs : Encryption r PlainText CipherText) (client : Client PlainText CipherText)
    (sys : ComputeSystem PlainText CipherText PlainTensor CipherTensor) where
  caught-thrown : (m : Outcome LinedResponse) (e : Error) → ¬ (caught cs client sys m ≡ thrown e)
  caught-thrown (returned a) e h = cc
  caught-thrown (thrown d) e h = cc
  caught-thrown undefined e h = cc
  caught-thrown terminated e h = cc

  -- No request makes the handler throw: an exception becomes a response.
  pub handle_request-thrown :
      (req : ComputeRequest) (e : Error) → ¬ (handle_request cs client sys req ≡ thrown e)
  unfolding handle_request
  handle_request-thrown req e =
      caught-thrown (operation_of_type cs client sys req.operation_type req) e

  refused_decryption :
      (e : EncryptionType) (k : DataType) (s : Bytes)
      → ¬ DecryptHandled e k
      → IsRefusal (caught cs client sys (decryption cs client sys e k s))
  refused_decryption plaintext k s h = refl
  refused_decryption (other_encryption_type n) k s h = refl
  refused_decryption ciphertext single s h = absurd (h tt)
  refused_decryption ciphertext tensor s h = absurd (h tt)
  refused_decryption ciphertext tensor_id s h = refl
  refused_decryption ciphertext (other_data_type n) s h = refl

  refused_unary :
      (op : Operation) (o : Operand)
      → ¬ Handled unary op (o ∷ [])
      → IsRefusal (
          caught cs client sys (
            unary_operation cs client sys op
              (record { operation_type = unary; operation = op; operands = o ∷ [] })))
  unfolding handle_decrypt
  refused_unary decrypt o h = refused_decryption o.encryption o.kind o.content h
  refused_unary add o h = refl
  refused_unary subtract o h = refl
  refused_unary multiply o h = refl
  refused_unary divide o h = refl
  refused_unary (other_operation n) o h = refl

  not_one : (n : ℕ) → (suc (suc n) == 1) ≡ false
  not_one n = ground arith

  not_two : (n : ℕ) → (suc (suc (suc n)) == 2) ≡ false
  not_two n = ground arith

  -- A request that the node has no operation for is answered with the status ERROR.
  pub handle_request-Handled :
      (type : OperationType) (op : Operation) (os : List Operand)
      → ¬ Handled type op os
      → IsRefusal (
          handle_request cs client sys
            (record { operation_type = type; operation = op; operands = os }))
  unfolding handle_request
  handle_request-Handled unary op [] h = refl
  handle_request-Handled unary op (o ∷ []) h = refused_unary op o h
  handle_request-Handled unary op (o ∷ p ∷ os) h = rw (not_one (length os)) refl
  handle_request-Handled binary op [] h = refl
  handle_request-Handled binary op (o ∷ []) h = refl
  handle_request-Handled binary op (o ∷ p ∷ []) h =
      refused_binary cs client sys o.encryption p.encryption o.content p.content op o.kind p.kind h
  handle_request-Handled binary op (o ∷ p ∷ q ∷ os) h = rw (not_two (length os)) refl
  handle_request-Handled ternary op os h = refl
  handle_request-Handled (other_operation_type n) op os h = refl
