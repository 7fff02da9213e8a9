-- ===== src/Compute/Types.antt =====
-- The enumeration classes of ComputeRequest in include/node/compute_request_handler.hpp, like those of
-- Wire/Enums. `ComputeRequest::DataType` has the values of `DataType` there.
use co_fhe.Base.{ℕ, zero, suc, ◌≡◌, refl, arith}
use co_fhe.Wire.Stream.{int, Fits}
use co_fhe.Wire.Enums.{Enum}

-- ComputeOperationType
pub data OperationType : Type 0 where
  unary binary ternary : OperationType
  other_operation_type : ℕ → OperationType

abbrev pub operation_type_to_int : OperationType → ℕ
operation_type_to_int unary = 0
operation_type_to_int binary = 1
operation_type_to_int ternary = 2
operation_type_to_int (other_operation_type n) = n

abbrev pub operation_type_of_int : ℕ → OperationType
operation_type_of_int zero = unary
operation_type_of_int (suc zero) = binary
operation_type_of_int (suc (suc zero)) = ternary
operation_type_of_int (suc (suc (suc n))) = other_operation_type (suc (suc (suc n)))

abbrev pub OperationTypeNamed : OperationType → Type 0
OperationTypeNamed (other_operation_type n) = ⊥
OperationTypeNamed _ = Unit {0}

pub operation_type_of_int-to_int :
    (e : OperationType) → OperationTypeNamed e → operation_type_of_int (operation_type_to_int e) ≡ e
operation_type_of_int-to_int unary h = refl
operation_type_of_int-to_int binary h = refl
operation_type_of_int-to_int ternary h = refl
operation_type_of_int-to_int (other_operation_type n) h = absurd h

pub operation_type_to_int-Fits :
    (e : OperationType) → OperationTypeNamed e → Fits int (operation_type_to_int e)
operation_type_to_int-Fits unary h = omega arith
operation_type_to_int-Fits binary h = omega arith
operation_type_to_int-Fits ternary h = omega arith
operation_type_to_int-Fits (other_operation_type n) h = absurd h

abbrev pub operation_type : Enum OperationType
operation_type = record {
  to_int = operation_type_to_int;
  of_int = operation_type_of_int;
  Named = OperationTypeNamed;
  of_int-to_int = operation_type_of_int-to_int;
  to_int-Fits = operation_type_to_int-Fits;
}

-- ComputeOperation
pub data Operation : Type 0 where
  decrypt add subtract multiply divide : Operation
  other_operation : ℕ → Operation

abbrev pub operation_to_int : Operation → ℕ
operation_to_int decrypt = 0
operation_to_int add = 1
operation_to_int subtract = 2
operation_to_int multiply = 3
operation_to_int divide = 4
operation_to_int (other_operation n) = n

abbrev pub operation_of_int : ℕ → Operation
operation_of_int zero = decrypt
operation_of_int (suc zero) = add
operation_of_int (suc (suc zero)) = subtract
operation_of_int (suc (suc (suc zero))) = multiply
operation_of_int (suc (suc (suc (suc zero)))) = divide
operation_of_int (suc (suc (suc (suc (suc n))))) = other_operation (suc (suc (suc (suc (suc n)))))

abbrev pub OperationNamed : Operation → Type 0
OperationNamed (other_operation n) = ⊥
OperationNamed _ = Unit {0}

pub operation_of_int-to_int :
    (e : Operation) → OperationNamed e → operation_of_int (operation_to_int e) ≡ e
operation_of_int-to_int decrypt h = refl
operation_of_int-to_int add h = refl
operation_of_int-to_int subtract h = refl
operation_of_int-to_int multiply h = refl
operation_of_int-to_int divide h = refl
operation_of_int-to_int (other_operation n) h = absurd h

pub operation_to_int-Fits : (e : Operation) → OperationNamed e → Fits int (operation_to_int e)
operation_to_int-Fits decrypt h = omega arith
operation_to_int-Fits add h = omega arith
operation_to_int-Fits subtract h = omega arith
operation_to_int-Fits multiply h = omega arith
operation_to_int-Fits divide h = omega arith
operation_to_int-Fits (other_operation n) h = absurd h

abbrev pub operation : Enum Operation
operation = record {
  to_int = operation_to_int;
  of_int = operation_of_int;
  Named = OperationNamed;
  of_int-to_int = operation_of_int-to_int;
  to_int-Fits = operation_to_int-Fits;
}

-- DataEncrytionType
pub data EncryptionType : Type 0 where
  plaintext ciphertext : EncryptionType
  other_encryption_type : ℕ → EncryptionType

abbrev pub encryption_type_to_int : EncryptionType → ℕ
encryption_type_to_int plaintext = 0
encryption_type_to_int ciphertext = 1
encryption_type_to_int (other_encryption_type n) = n

abbrev pub encryption_type_of_int : ℕ → EncryptionType
encryption_type_of_int zero = plaintext
encryption_type_of_int (suc zero) = ciphertext
encryption_type_of_int (suc (suc n)) = other_encryption_type (suc (suc n))

abbrev pub EncryptionTypeNamed : EncryptionType → Type 0
EncryptionTypeNamed (other_encryption_type n) = ⊥
EncryptionTypeNamed _ = Unit {0}

pub encryption_type_of_int-to_int :
    (e : EncryptionType)
    → EncryptionTypeNamed e
    → encryption_type_of_int (encryption_type_to_int e) ≡ e
encryption_type_of_int-to_int plaintext h = refl
encryption_type_of_int-to_int ciphertext h = refl
encryption_type_of_int-to_int (other_encryption_type n) h = absurd h

pub encryption_type_to_int-Fits :
    (e : EncryptionType) → EncryptionTypeNamed e → Fits int (encryption_type_to_int e)
encryption_type_to_int-Fits plaintext h = omega arith
encryption_type_to_int-Fits ciphertext h = omega arith
encryption_type_to_int-Fits (other_encryption_type n) h = absurd h

abbrev pub encryption_type : Enum EncryptionType
encryption_type = record {
  to_int = encryption_type_to_int;
  of_int = encryption_type_of_int;
  Named = EncryptionTypeNamed;
  of_int-to_int = encryption_type_of_int-to_int;
  to_int-Fits = encryption_type_to_int-Fits;
}
