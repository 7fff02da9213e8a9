-- ===== src/Compute/Handler/Refusals/Pairs.antt =====
-- What a compute node refuses of the requests on two operands.
use co_fhe.Base.{
  not, ◌&&◌, ◌||◌, Bool, true, false, if◌then◌else◌, ◌≡◌, refl, [], ◌∷◌, List, Bytes, codes,
}
use co_fhe.Bicycl.{Mpz}
use co_fhe.Wire.Enums.{DataType, error, single, tensor, tensor_id, other_data_type}
use co_fhe.Wire.Outcome.{Outcome, returned, thrown, undefined, terminated}
use co_fhe.Wire.Lined.{LinedResponse}
use co_fhe.Smpc.Multiply.{Encryption, Client}
use co_fhe.Compute.Types.{
  OperationType, unary, binary, Operation, decrypt, add, subtract, multiply, divide,
  other_operation, EncryptionType, plaintext, ciphertext, other_encryption_type,
  EncryptionTypeNamed,
}
use co_fhe.Compute.Request.{Operand, ComputeRequest}
use co_fhe.Compute.Operations.{
  ComputeSystem, caught, single_addition, tensor_addition, single_multiplication,
  tensor_multiplication, refusal, handle_single_addition, handle_tensor_addition,
  handle_single_multiplication, handle_tensor_multiplication,
}
use co_fhe.Compute.Handler.{binary_of, is_single, is_tensor_id, same_type}

-- A second tensor operand is taken for a tensor also where its type has no name.
abbrev pub KindsHandled : DataType → DataType → Type 0
KindsHandled single single = Unit {0}
KindsHandled tensor tensor = Unit {0}
KindsHandled tensor (other_data_type n) = Unit {0}
KindsHandled _ _ = ⊥

abbrev pub PairHandled : Operand → Operand → Type 0
PairHandled o p =
    KindsHandled o.kind p.kind × EncryptionTypeNamed o.encryption × EncryptionTypeNamed p.encryption

abbrev pub DecryptHandled : EncryptionType → DataType → Type 0
DecryptHandled ciphertext single = Unit {0}
DecryptHandled ciphertext tensor = Unit {0}
DecryptHandled _ _ = ⊥

-- The requests that the node has an operation for.
abbrev pub Handled : OperationType → Operation → List Operand → Type 0
Handled unary decrypt (o ∷ []) = DecryptHandled o.encryption o.kind
Handled binary add (o ∷ p ∷ []) = PairHandled o p
Handled binary multiply (o ∷ p ∷ []) = PairHandled o p
Handled _ _ _ = ⊥

-- a response with the status ERROR
abbrev pub IsRefusal : Outcome LinedResponse → Type 0
IsRefusal (returned response) = response.result ≡ error
IsRefusal (thrown e) = ⊥
IsRefusal undefined = ⊥
IsRefusal terminated = ⊥

-- a request for an operation on two operands
abbrev pub pair :
    Operation
    → DataType
    → EncryptionType
    → Bytes
    → DataType
    → EncryptionType
    → Bytes
    → ComputeRequest
pair op k e s l f t = record {
  operation_type = binary;
  operation = op;
  operands =
      record { kind = k; encryption = e; content = s }
      ∷ record { kind = l; encryption = f; content = t }
      ∷ [];
}

module _ {R PlainText CipherText PlainTensor CipherTensor : Type 0} {r : Mpz R}
    (cs : Encryption r PlainText CipherText) (client : Client PlainText CipherText)
    (sys : ComputeSystem PlainText CipherText PlainTensor CipherTensor) where
  -- Operands of one of the two handled types, with an encryption type that has no name.
  unnamed_addition :
      (e f : EncryptionType) (s t : Bytes)
      → ¬ (EncryptionTypeNamed e × EncryptionTypeNamed f)
      → IsRefusal (caught cs client sys (single_addition cs client sys e f s t))
        × IsRefusal (caught cs client sys (tensor_addition cs client sys e f s t))
        × IsRefusal (caught cs client sys (single_multiplication cs client sys e f s t))
        × IsRefusal (caught cs client sys (tensor_multiplication cs client sys e f s t))
  unnamed_addition (other_encryption_type n) f s t h = (refl, refl, refl, refl)
  unnamed_addition plaintext (other_encryption_type n) s t h = (refl, refl, refl, refl)
  unnamed_addition ciphertext (other_encryption_type n) s t h = (refl, refl, refl, refl)
  unnamed_addition plaintext plaintext s t h = absurd (h (tt, tt))
  unnamed_addition plaintext ciphertext s t h = absurd (h (tt, tt))
  unnamed_addition ciphertext plaintext s t h = absurd (h (tt, tt))
  unnamed_addition ciphertext ciphertext s t h = absurd (h (tt, tt))

  module _ (e f : EncryptionType) (s t : Bytes) where
    refused_addition :
        (k l : DataType)
        → ¬ (KindsHandled k l × EncryptionTypeNamed e × EncryptionTypeNamed f)
        → IsRefusal (caught cs client sys (binary_of cs client sys k l (pair add k e s l f t)))
    unfolding handle_single_addition handle_tensor_addition
    refused_addition single single h = (unnamed_addition e f s t (λ n. h (tt, n.0, n.1))).0
    refused_addition single tensor h = refl
    refused_addition single tensor_id h = refl
    refused_addition single (other_data_type n) h = refl
    refused_addition tensor single h = refl
    refused_addition tensor tensor h = (unnamed_addition e f s t (λ n. h (tt, n.0, n.1))).1
    refused_addition tensor tensor_id h = refl
    refused_addition tensor (other_data_type n) h =
        (unnamed_addition e f s t (λ n. h (tt, n.0, n.1))).1
    refused_addition tensor_id single h = refl
    refused_addition tensor_id tensor h = refl
    refused_addition tensor_id tensor_id h = refl
    refused_addition tensor_id (other_data_type n) h = refl
    refused_addition (other_data_type n) single h = refl
    refused_addition (other_data_type n) tensor h = refl
    refused_addition (other_data_type n) tensor_id h = refl
    refused_addition (other_data_type n) (other_data_type m) h = refl

    refused_multiplication :
        (k l : DataType)
        → ¬ (KindsHandled k l × EncryptionTypeNamed e × EncryptionTypeNamed f)
        → IsRefusal (caught cs client sys (binary_of cs client sys k l (pair multiply k e s l f t)))
    unfolding handle_single_multiplication handle_tensor_multiplication
    refused_multiplication single single h = (unnamed_addition e f s t (λ n. h (tt, n.0, n.1))).2
    refused_multiplication single tensor h = refl
    refused_multiplication single tensor_id h = refl
    refused_multiplication single (other_data_type n) h = refl
    refused_multiplication tensor single h = refl
    refused_multiplication tensor tensor h = (unnamed_addition e f s t (λ n. h (tt, n.0, n.1))).3
    refused_multiplication tensor tensor_id h = refl
    refused_multiplication tensor (other_data_type n) h =
        (unnamed_addition e f s t (λ n. h (tt, n.0, n.1))).3
    refused_multiplication tensor_id single h = refl
    refused_multiplication tensor_id tensor h = refl
    refused_multiplication tensor_id tensor_id h = refl
    refused_multiplication tensor_id (other_data_type n) h = refl
    refused_multiplication (other_data_type n) single h = refl
    refused_multiplication (other_data_type n) tensor h = refl
    refused_multiplication (other_data_type n) tensor_id h = refl
    refused_multiplication (other_data_type n) (other_data_type m) h = refl

    -- The tests before the switch refuse, or the switch does.
    abbrev tests : Bool → Bool → Outcome LinedResponse → Outcome LinedResponse
    tests mismatch id m =
        if mismatch
        then returned (
            refusal (
              codes
                "Data type mismatch. If you want to add a tensor and a single value, convert the single value to tensor"))
        else if id
        then returned (refusal (codes "Not implemented"))
        else m

    refused_tests :
        (mismatch id : Bool) (m : Outcome LinedResponse)
        → IsRefusal (caught cs client sys m)
        → IsRefusal (caught cs client sys (tests mismatch id m))
    refused_tests true id m h = refl
    refused_tests false true m h = refl
    refused_tests false false m h = h

    refused_switch :
        (k l : DataType) (text : Bytes)
        → IsRefusal (
            caught cs client sys (
              tests
                ((is_single k || is_single l) && not (same_type k l))
                (is_tensor_id k || is_tensor_id l)
                (returned (refusal text))))
    refused_switch k l text =
        refused_tests ((is_single k || is_single l) && not (same_type k l))
          (is_tensor_id k || is_tensor_id l) (returned (refusal text)) refl

    pub refused_binary :
        (op : Operation) (k l : DataType)
        → ¬ Handled binary op (pair op k e s l f t).operands
        → IsRefusal (caught cs client sys (binary_of cs client sys k l (pair op k e s l f t)))
    refused_binary decrypt k l h = refused_switch k l (codes "Invalid operation type")
    refused_binary add k l h = refused_addition k l h
    refused_binary subtract k l h = refused_switch k l (codes "Not implemented")
    refused_binary multiply k l h = refused_multiplication k l h
    refused_binary divide k l h = refused_switch k l (codes "Not implemented")
    refused_binary (other_operation n) k l h = refused_switch k l (codes "Invalid operation type")
