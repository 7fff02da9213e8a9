-- ===== src/Compute/Operations.antt =====
-- The additions and multiplications of ComputeRequestHandler in include/node/compute_request_handler.hpp.
-- The functions that free the ciphertexts and plaintexts of tensors are not part of them.
use co_fhe.Base.{ℕ, none, some, get_elem?, Bytes, codes}
use co_fhe.Bicycl.{Mpz}
use co_fhe.Wire.Enums.{ok, error}
use co_fhe.Wire.Outcome.{Error, Outcome, returned, thrown, undefined, terminated, ◌>>=◌}
use co_fhe.Wire.Lined.{LinedResponse}
use co_fhe.Smpc.Multiply.{Encryption, Client, multiply_ciphertexts}
use co_fhe.Compute.Types.{EncryptionType, plaintext, ciphertext}
use co_fhe.Compute.Request.{Operand, ComputeRequest}

-- What the handler uses of its template parameter `CryptoSystem` beside `Encryption`, of the multiplier
-- and of the client; and `what()` of the exceptions.
pub record ComputeSystem (PlainText CipherText PlainTensor CipherTensor : Type 0) : Type 0 where
  pub serialize_plaintext : PlainText → Bytes
  pub serialize_ciphertext : CipherText → Bytes
  pub serialize_plaintext_tensor : PlainTensor → Bytes
  pub serialize_ciphertext_tensor : CipherTensor → Bytes
  pub deserialize_plaintext : Bytes → Outcome PlainText
  pub deserialize_ciphertext : Bytes → Outcome CipherText
  pub deserialize_plaintext_tensor : Bytes → Outcome PlainTensor
  pub deserialize_ciphertext_tensor : Bytes → Outcome CipherTensor
  pub encrypt_tensor : PlainTensor → Outcome CipherTensor
  pub add_plaintext_tensors : PlainTensor → PlainTensor → Outcome PlainTensor
  pub add_ciphertext_tensors : CipherTensor → CipherTensor → Outcome CipherTensor
  pub multiply_plaintext_tensors : PlainTensor → PlainTensor → Outcome PlainTensor
  pub scal_ciphertext_tensors : PlainTensor → CipherTensor → Outcome CipherTensor
  pub multiply_ciphertext_tensors : CipherTensor → CipherTensor → Outcome CipherTensor
  pub decrypt_tensor : CipherTensor → Outcome PlainTensor
  pub what : Error → Bytes

abbrev pub answer : Bytes → LinedResponse
answer text = record { result = ok; content = text }

abbrev pub refusal : Bytes → LinedResponse
refusal text = record { result = error; content = text }

-- `operation.operands()[i]`
abbrev pub operand : ComputeRequest → ℕ → Outcome Operand
operand req i = elim (get_elem? req.operands i) [ none ↦ undefined | some o ↦ returned o ]

module _ {R PlainText CipherText PlainTensor CipherTensor : Type 0} {r : Mpz R}
    (cs : Encryption r PlainText CipherText) (client : Client PlainText CipherText)
    (sys : ComputeSystem PlainText CipherText PlainTensor CipherTensor) where
  open sys use {
    serialize_plaintext, serialize_ciphertext, serialize_plaintext_tensor,
    serialize_ciphertext_tensor, deserialize_plaintext, deserialize_ciphertext,
    deserialize_plaintext_tensor, deserialize_ciphertext_tensor, what,
  }

  -- `catch (const std::exception &e)`
  abbrev pub caught : Outcome LinedResponse → Outcome LinedResponse
  caught (returned response) = returned response
  caught (thrown e) = returned (refusal (what e))
  caught undefined = undefined
  caught terminated = terminated

  abbrev pub single_addition :
      EncryptionType → EncryptionType → Bytes → Bytes → Outcome LinedResponse
  single_addition ciphertext ciphertext s t = caught do
    c1 ← deserialize_ciphertext s
    c2 ← deserialize_ciphertext t
    returned (answer (serialize_ciphertext (cs.add_ciphertexts c1 c2)))
  single_addition plaintext plaintext s t = caught do
    p1 ← deserialize_plaintext s
    p2 ← deserialize_plaintext t
    returned (answer (serialize_ciphertext (cs.add_ciphertexts (cs.encrypt p1) (cs.encrypt p2))))
  single_addition ciphertext plaintext s t = caught do
    c1 ← deserialize_ciphertext s
    p2 ← deserialize_plaintext t
    returned (answer (serialize_ciphertext (cs.add_ciphertexts c1 (cs.encrypt p2))))
  single_addition plaintext ciphertext s t = caught do
    p1 ← deserialize_plaintext s
    c2 ← deserialize_ciphertext t
    returned (answer (serialize_ciphertext (cs.add_ciphertexts (cs.encrypt p1) c2)))
  single_addition _ _ s t = returned (refusal (codes "Invalid data encryption type"))

  unfoldable pub handle_single_addition : ComputeRequest → Outcome LinedResponse
  handle_single_addition req = do
    a ← operand req 0
    b ← operand req 1
    single_addition a.encryption b.encryption a.content b.content

  -- Where a ciphertext and a plaintext are added, exceptions are left to the caller.
  abbrev pub tensor_addition :
      EncryptionType → EncryptionType → Bytes → Bytes → Outcome LinedResponse
  tensor_addition ciphertext ciphertext s t = caught do
    ct1 ← deserialize_ciphertext_tensor s
    ct2 ← deserialize_ciphertext_tensor t
    res ← sys.add_ciphertext_tensors ct1 ct2
    returned (answer (serialize_ciphertext_tensor res))
  tensor_addition plaintext plaintext s t = caught do
    pt1 ← deserialize_plaintext_tensor s
    pt2 ← deserialize_plaintext_tensor t
    res ← sys.add_plaintext_tensors pt1 pt2
    res_enc ← sys.encrypt_tensor res
    returned (answer (serialize_ciphertext_tensor res_enc))
  tensor_addition ciphertext plaintext s t = do
    ct ← deserialize_ciphertext_tensor s
    pt ← deserialize_plaintext_tensor t
    pt_enc ← sys.encrypt_tensor pt
    res ← sys.add_ciphertext_tensors ct pt_enc
    returned (answer (serialize_ciphertext_tensor res))
  tensor_addition plaintext ciphertext s t = do
    pt ← deserialize_plaintext_tensor s
    pt_enc ← sys.encrypt_tensor pt
    ct ← deserialize_ciphertext_tensor t
    res ← sys.add_ciphertext_tensors ct pt_enc
    returned (answer (serialize_ciphertext_tensor res))
  tensor_addition _ _ s t = returned (refusal (codes "Invalid data encryption type"))

  unfoldable pub handle_tensor_addition : ComputeRequest → Outcome LinedResponse
  handle_tensor_addition req = do
    a ← operand req 0
    b ← operand req 1
    tensor_addition a.encryption b.encryption a.content b.content

  abbrev pub single_multiplication :
      EncryptionType → EncryptionType → Bytes → Bytes → Outcome LinedResponse
  single_multiplication ciphertext ciphertext s t = caught do
    c1 ← deserialize_ciphertext s
    c2 ← deserialize_ciphertext t
    c ← multiply_ciphertexts cs client c1 c2
    returned (answer (serialize_ciphertext c))
  single_multiplication plaintext plaintext s t = caught do
    p1 ← deserialize_plaintext s
    p2 ← deserialize_plaintext t
    returned (answer (serialize_ciphertext (cs.encrypt (cs.multiply_plaintexts p1 p2))))
  single_multiplication ciphertext plaintext s t = caught do
    p ← deserialize_plaintext t
    c ← deserialize_ciphertext s
    returned (answer (serialize_ciphertext (cs.scal_ciphertext p c)))
  single_multiplication plaintext ciphertext s t = caught do
    p ← deserialize_plaintext s
    c ← deserialize_ciphertext t
    returned (answer (serialize_ciphertext (cs.scal_ciphertext p c)))
  single_multiplication _ _ s t = returned (refusal (codes "Invalid data encryption type"))

  unfoldable pub handle_single_multiplication : ComputeRequest → Outcome LinedResponse
  unfolding multiply_ciphertexts
  handle_single_multiplication req = do
    a ← operand req 0
    b ← operand req 1
    single_multiplication a.encryption b.encryption a.content b.content

  -- Of two plaintexts, exceptions are left to the caller.
  abbrev pub tensor_multiplication :
      EncryptionType → EncryptionType → Bytes → Bytes → Outcome LinedResponse
  tensor_multiplication ciphertext ciphertext s t = caught do
    des_ct1 ← deserialize_ciphertext_tensor s
    des_ct2 ← deserialize_ciphertext_tensor t
    res ← sys.multiply_ciphertext_tensors des_ct1 des_ct2
    returned (answer (serialize_ciphertext_tensor res))
  tensor_multiplication plaintext plaintext s t = do
    pt1 ← deserialize_plaintext_tensor s
    pt2 ← deserialize_plaintext_tensor t
    res ← sys.multiply_plaintext_tensors pt1 pt2
    res_enc ← sys.encrypt_tensor res
    returned (answer (serialize_ciphertext_tensor res_enc))
  tensor_multiplication ciphertext plaintext s t = caught do
    des_ct ← deserialize_ciphertext_tensor s
    des_sc ← deserialize_plaintext_tensor t
    res ← sys.scal_ciphertext_tensors des_sc des_ct
    returned (answer (serialize_ciphertext_tensor res))
  tensor_multiplication plaintext ciphertext s t = caught do
    des_sc ← deserialize_plaintext_tensor s
    des_ct ← deserialize_ciphertext_tensor t
    res ← sys.scal_ciphertext_tensors des_sc des_ct
    returned (answer (serialize_ciphertext_tensor res))
  tensor_multiplication _ _ s t = returned (refusal (codes "Invalid data encryption type"))

  unfoldable pub handle_tensor_multiplication : ComputeRequest → Outcome LinedResponse
  handle_tensor_multiplication req = do
    a ← operand req 0
    b ← operand req 1
    tensor_multiplication a.encryption b.encryption a.content b.content
