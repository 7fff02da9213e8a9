-- ===== src/Compute/Tests.antt =====
-- A compute node whose plaintexts and ciphertexts are integers in the clear.
use co_fhe.Base.{zero, suc, ◌≡◌, refl, [], ◌∷◌, Bytes, codes, arith}
use co_fhe.Base.Int.{ℤ, pos, negsuc, ◌+ℤ◌, ◌*ℤ◌}
use co_fhe.Bicycl.Integers.{integers}
use co_fhe.Wire.Decimal.{digits}
use co_fhe.Wire.Enums.{tensor}
use co_fhe.Wire.Outcome.{Outcome, returned, thrown, undefined, out_of_range}
use co_fhe.Smpc.Multiply.{Encryption, Triplet, Client}
use co_fhe.Compute.Types.{unary, binary, decrypt, add, multiply, plaintext, ciphertext}
use co_fhe.Compute.Request.{
  operand_to_string, operand_from_string, ComputeRequest, compute_request_to_string,
  compute_request_from_string,
}
use co_fhe.Compute.Request.RoundTrip.{compute_request_from_string-to_string}
use co_fhe.Compute.Request.Single.{operand_from_string-to_string}
use co_fhe.Compute.Operations.{ComputeSystem, refusal}
use co_fhe.Compute.Handler.{handle_request}
use co_fhe.Compute.Handler.Answers.{
  single_operand, AnswersWith, handle_request-add, handle_request-multiply,
}
use co_fhe.Compute.Handler.Refusals.{handle_request-Handled}
use co_fhe.Compute.Handler.Refusals.Pairs.{IsRefusal}

abbrev clear : Encryption integers ℤ ℤ
clear = record {
  encrypt = λ p. p;
  add_ciphertexts = λ c d. c +ℤ d;
  scal_ciphertext = λ p c. p *ℤ c;
  negate_ciphertext = λ c. negsuc 0 *ℤ c;
  multiply_plaintexts = λ p q. p *ℤ q;
  value = λ p. p;
  message = λ c. c;
  message-encrypt = λ p. refl;
  message-add = λ c d. refl;
  message-scal = λ p c. refl;
  message-negate = λ c. refl;
  value-multiply = λ p q. refl;
}

abbrev triplet : Triplet ℤ
triplet = record { a = pos 3; b = pos 4; c = pos 12 }

abbrev client : Client ℤ ℤ
client = record { next_triplet = returned triplet; decrypt = returned }

-- Integers as texts: a sign and a number.
abbrev write_int : ℤ → Bytes
write_int (pos n) = 0 ∷ n ∷ []
write_int (negsuc n) = 1 ∷ n ∷ []

abbrev read_int : Bytes → Outcome ℤ
read_int (zero ∷ n ∷ []) = returned (pos n)
read_int (suc sign ∷ n ∷ []) = returned (negsuc n)
read_int text = thrown out_of_range

abbrev node : ComputeSystem ℤ ℤ Bytes Bytes
node = record {
  serialize_plaintext = write_int;
  serialize_ciphertext = write_int;
  serialize_plaintext_tensor = λ t. t;
  serialize_ciphertext_tensor = λ t. t;
  deserialize_plaintext = read_int;
  deserialize_ciphertext = read_int;
  deserialize_plaintext_tensor = returned;
  deserialize_ciphertext_tensor = returned;
  encrypt_tensor = returned;
  add_plaintext_tensors = λ s t. returned s;
  add_ciphertext_tensors = λ s t. returned s;
  multiply_plaintext_tensors = λ s t. returned s;
  scal_ciphertext_tensors = λ s t. returned s;
  multiply_ciphertext_tensors = λ s t. returned s;
  decrypt_tensor = returned;
  what = λ e. codes "error";
}

handle_request-add_example :
    AnswersWith clear client node
      (handle_request clear client node (record {
        operation_type = binary;
        operation = add;
        operands =
            single_operand plaintext (write_int (pos 5))
            ∷ single_operand ciphertext (write_int (negsuc 1))
            ∷ [];
      }))
      (integers.add (pos 5) (negsuc 1))
handle_request-add_example =
    handle_request-add clear client node (write_int (pos 5)) (write_int (negsuc 1)) (pos 5)
      (negsuc 1) plaintext ciphertext (pos 5, refl, refl) (negsuc 1, refl, refl)

handle_request-multiply_example :
    AnswersWith clear client node
      (handle_request clear client node (record {
        operation_type = binary;
        operation = multiply;
        operands =
            single_operand ciphertext (write_int (pos 6))
            ∷ single_operand ciphertext (write_int (negsuc 4))
            ∷ [];
      }))
      (integers.mul (pos 6) (negsuc 4))
unfolding ◌*ℤ◌
handle_request-multiply_example =
    handle_request-multiply clear client node (write_int (pos 6)) (write_int (negsuc 4)) (pos 6)
      (negsuc 4) (λ c. c) (record { answers = λ c. refl; right = λ c. refl }) triplet refl refl
      ciphertext ciphertext (pos 6, refl, refl) (negsuc 4, refl, refl)

-- Text that is no ciphertext is refused with what the exception says.
bad_text_run :
    handle_request clear client node (record {
      operation_type = unary;
      operation = decrypt;
      operands = single_operand ciphertext [] ∷ [];
    })
    ≡ returned (refusal (codes "error"))
unfolding handle_request
bad_text_run = refl

-- A tensor and a single value are not added.
handle_request-Handled_example : IsRefusal (
    handle_request clear client node (record {
      operation_type = binary;
      operation = add;
      operands =
          single_operand plaintext (write_int (pos 5))
          ∷ record { kind = tensor; encryption = ciphertext; content = write_int (pos 5) }
          ∷ [];
    }))
handle_request-Handled_example =
    handle_request-Handled clear client node binary add
      (single_operand plaintext (write_int (pos 5))
        ∷ record { kind = tensor; encryption = ciphertext; content = write_int (pos 5) }
        ∷ [])
      (λ h. h.0)

abbrev sum_request : ComputeRequest
sum_request = record {
  operation_type = binary;
  operation = add;
  operands = single_operand plaintext (codes "5") ∷ single_operand ciphertext (codes "a\n b") ∷ [];
}

sum_request_run : compute_request_to_string sum_request ≡ codes "1 1 2\n0 0 1\n5\n0 1 4\na\n b\n"
unfolding compute_request_to_string digits
sum_request_run = refl

compute_request_from_string-to_string_example :
    compute_request_from_string (compute_request_to_string sum_request) ≡ returned sum_request
compute_request_from_string-to_string_example =
    compute_request_from_string-to_string sum_request tt tt
      ((tt, tt, refl, omega arith), ((tt, tt, refl, omega arith), tt)) (omega arith)

operand_from_string-to_string_example :
    operand_from_string (operand_to_string (single_operand ciphertext (codes "abc"))) ≡ undefined
operand_from_string-to_string_example =
    operand_from_string-to_string (single_operand ciphertext (codes "abc"))
      (tt, tt, refl, omega arith) (refl, refl, refl, refl)
