-- ===== src/Compute/TensorTests.antt =====
-- A compute node whose tensors are texts of two numbers, and whose ciphertexts hold integers in the clear.
use co_fhe.Base.{refl, [], ◌∷◌, Bytes, arith}
use co_fhe.Base.Int.{ℤ, pos, negsuc, ◌+ℤ◌, ◌*ℤ◌, zero-+ℤ}
use co_fhe.Bicycl.Integers.{integers, additive}
use co_fhe.Sharing.Decrypt.{CipherText}
use co_fhe.Wire.Outcome.{Outcome, returned, thrown, out_of_range}
use co_fhe.Smpc.Multiply.{Encryption, Client}
use co_fhe.Compute.Types.{binary, add, plaintext, ciphertext}
use co_fhe.Compute.Operations.{ComputeSystem}
use co_fhe.Compute.Handler.{handle_request}
use co_fhe.Compute.Handler.Tensors.{tensor_operand, AnswersAll, handle_request-add_tensors}
use co_fhe.Tensor.Ciphers.{
  Pointers, encrypt_tensor, add_plaintext_tensors, multiply_plaintext_tensors,
  add_ciphertext_tensors, compose, power,
}
use co_fhe.Tensor.Ciphers.Elementwise.{full}

abbrev pub seal : ℤ → ℤ → ℤ → CipherText ℤ
seal p c1 pkr = record { c1 = c1; c2 = pkr +ℤ p }

abbrev pub in_clear : Encryption integers ℤ (CipherText ℤ)
in_clear = record {
  encrypt = λ p. record { c1 = pos 0; c2 = p };
  add_ciphertexts = compose additive;
  scal_ciphertext = power additive;
  negate_ciphertext = power additive (negsuc 0);
  multiply_plaintexts = λ p q. p *ℤ q;
  value = λ p. p;
  message = λ c. c.c2;
  message-encrypt = λ p. refl;
  message-add = λ c d. refl;
  message-scal = λ p c. integers.mul_comm c.c2 p;
  message-negate = λ c. integers.mul_comm c.c2 (negsuc 0);
  value-multiply = λ p q. refl;
}

abbrev pub client : Client ℤ (CipherText ℤ)
client = record { next_triplet = thrown out_of_range; decrypt = λ c. returned c.c2 }

abbrev read_pair : Bytes → Outcome (Pointers ℤ)
read_pair (m ∷ n ∷ []) = returned (full (2 ∷ []) (pos m ∷ pos n ∷ []))
read_pair text = thrown out_of_range

abbrev read_cipher_pair : Bytes → Outcome (Pointers (CipherText ℤ))
read_cipher_pair (m ∷ n ∷ []) =
    returned
      (full (2 ∷ []) (record { c1 = pos 5; c2 = pos m } ∷ record { c1 = pos 5; c2 = pos n } ∷ []))
read_cipher_pair text = thrown out_of_range

abbrev node : ComputeSystem ℤ (CipherText ℤ) (Pointers ℤ) (Pointers (CipherText ℤ))
node = record {
  serialize_plaintext = λ p. [];
  serialize_ciphertext = λ c. [];
  serialize_plaintext_tensor = λ t. [];
  serialize_ciphertext_tensor = λ t. [];
  deserialize_plaintext = λ text. thrown out_of_range;
  deserialize_ciphertext = λ text. thrown out_of_range;
  deserialize_plaintext_tensor = read_pair;
  deserialize_ciphertext_tensor = read_cipher_pair;
  encrypt_tensor = encrypt_tensor seal (pos 5) (pos 0);
  add_plaintext_tensors = add_plaintext_tensors ◌+ℤ◌;
  add_ciphertext_tensors = add_ciphertext_tensors additive (compose additive);
  multiply_plaintext_tensors = multiply_plaintext_tensors ◌*ℤ◌;
  scal_ciphertext_tensors = λ s t. returned t;
  multiply_ciphertext_tensors = λ t u. returned t;
  decrypt_tensor = λ t. thrown out_of_range;
  what = λ e. [];
}

handle_request-add_tensors_example :
    AnswersAll additive in_clear client node seal
      (pos 5)
      (pos 0)
      ◌+ℤ◌
      2
      (handle_request in_clear client node (record {
        operation_type = binary;
        operation = add;
        operands =
            tensor_operand plaintext (3 ∷ 4 ∷ []) ∷ tensor_operand ciphertext (10 ∷ 20 ∷ []) ∷ [];
      }))
      (integers.add (pos 3) (pos 10) ∷ integers.add (pos 4) (pos 20) ∷ [])
handle_request-add_tensors_example =
    handle_request-add_tensors additive in_clear client node seal (pos 5) (pos 0) ◌+ℤ◌
      (record {
        encrypts = λ t. refl;
        adds_plaintexts = λ t u. refl;
        adds_ciphertexts = λ t u. refl;
        message-seal = zero-+ℤ;
        message-compose = λ c d. refl;
        value-add = λ p q. refl;
      })
      2 (omega arith) plaintext ciphertext (3 ∷ 4 ∷ []) (10 ∷ 20 ∷ []) (pos 3 ∷ pos 4 ∷ [])
      (pos 10 ∷ pos 20 ∷ []) (pos 3 ∷ pos 4 ∷ [], refl, refl, refl)
      (
        record { c1 = pos 5; c2 = pos 10 } ∷ record { c1 = pos 5; c2 = pos 20 } ∷ [],
        refl,
        refl,
        refl,
      )
