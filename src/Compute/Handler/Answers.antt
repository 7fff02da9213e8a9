-- ===== src/Compute/Handler/Answers.antt =====
-- The answers of a compute node to requests on single values.
use co_fhe.Base.{◌≡◌, refl, ap, ap₂, ◌∙◌, [], ◌∷◌, Bytes}
use co_fhe.Bicycl.{Mpz}
use co_fhe.Wire.Enums.{single}
use co_fhe.Wire.Outcome.{Outcome, returned}
use co_fhe.Wire.Lined.{LinedResponse}
use co_fhe.Smpc.Multiply.{Encryption, Triplet, Client}
use co_fhe.Smpc.Multiply.Product.{Decrypts, IsTriplet, multiply_ciphertexts-message}
use co_fhe.Compute.Types.{
  binary, add, multiply, EncryptionType, plaintext, ciphertext, other_encryption_type,
}
use co_fhe.Compute.Request.{Operand}
use co_fhe.Compute.Operations.{
  ComputeSystem, answer, caught, single_addition, single_multiplication,
}
use co_fhe.Compute.Handler.{handle_request}

-- An operand that is a single value.
abbrev pub single_operand : EncryptionType → Bytes → Operand
single_operand e text = record { kind = single; encryption = e; content = text }

module _ {R PlainText CipherText PlainTensor CipherTensor : Type 0} {r : Mpz R}
    (cs : Encryption r PlainText CipherText) (client : Client PlainText CipherText)
    (sys : ComputeSystem PlainText CipherText PlainTensor CipherTensor) where
  -- The text is that of a plaintext or ciphertext of `x`.
  abbrev pub Holds : EncryptionType → Bytes → R → Type 0
  Holds plaintext text x =
      (p : PlainText) × (sys.deserialize_plaintext text ≡ returned p) × (cs.value p ≡ x)
  Holds ciphertext text x =
      (c : CipherText) × (sys.deserialize_ciphertext text ≡ returned c) × (cs.message c ≡ x)
  Holds (other_encryption_type n) text x = ⊥

  -- The outcome is an answer with the text of a ciphertext of `x`.
  abbrev pub AnswersWith : Outcome LinedResponse → R → Type 0
  AnswersWith m x =
      (c : CipherText) × (m ≡ returned (answer (sys.serialize_ciphertext c))) × (cs.message c ≡ x)

  module _ (s t : Bytes) (x y : R) where
    single_addition-message :
        (e f : EncryptionType)
        → Holds e s x
        → Holds f t y
        → AnswersWith (single_addition cs client sys e f s t) (r.add x y)
    single_addition-message ciphertext ciphertext (c, hc, mc) (d, hd, md) =
        (cs.add_ciphertexts c d, rw (hc, hd) refl, cs.message-add c d ∙ ap₂ r.add mc md)
    single_addition-message plaintext plaintext (p, hp, mp) (q, hq, mq) = (
      cs.add_ciphertexts (cs.encrypt p) (cs.encrypt q),
      rw (hp, hq) refl,
      cs.message-add (cs.encrypt p) (cs.encrypt q)
          ∙ ap₂ r.add (cs.message-encrypt p ∙ mp) (cs.message-encrypt q ∙ mq),
    )
    single_addition-message ciphertext plaintext (c, hc, mc) (q, hq, mq) = (
      cs.add_ciphertexts c (cs.encrypt q),
      rw (hc, hq) refl,
      cs.message-add c (cs.encrypt q) ∙ ap₂ r.add mc (cs.message-encrypt q ∙ mq),
    )
    single_addition-message plaintext ciphertext (p, hp, mp) (d, hd, md) = (
      cs.add_ciphertexts (cs.encrypt p) d,
      rw (hp, hd) refl,
      cs.message-add (cs.encrypt p) d ∙ ap₂ r.add (cs.message-encrypt p ∙ mp) md,
    )
    single_addition-message (other_encryption_type n) f h k = absurd h
    single_addition-message plaintext (other_encryption_type n) h k = absurd k
    single_addition-message ciphertext (other_encryption_type n) h k = absurd k

    -- A binary ADD request on two single values, each a plaintext or a ciphertext, is answered with a
    -- ciphertext of their sum.
    pub handle_request-add :
        (e f : EncryptionType)
        → Holds e s x
        → Holds f t y
        → AnswersWith
            (handle_request cs client sys (record {
              operation_type = binary;
              operation = add;
              operands = single_operand e s ∷ single_operand f t ∷ [];
            }))
            (r.add x y)
    unfolding handle_request
    handle_request-add e f h k =
        let (c, eq, m) = single_addition-message e f h k in (c, ap (caught cs client sys) eq, m)

    module _ (decrypted : CipherText → PlainText) (dec : Decrypts cs client decrypted)
        (triplet : Triplet CipherText) (next : client.next_triplet ≡ returned triplet)
        (is_triplet : IsTriplet cs client triplet) where
      single_multiplication-message :
          (e f : EncryptionType)
          → Holds e s x
          → Holds f t y
          → AnswersWith (single_multiplication cs client sys e f s t) (r.mul x y)
      single_multiplication-message ciphertext ciphertext (c, hc, mc) (d, hd, md) =
          let (ct, product, m) =
            multiply_ciphertexts-message cs client decrypted dec triplet next is_triplet c d in
          (ct, rw (hc, hd, product) refl, m ∙ ap₂ r.mul mc md)
      single_multiplication-message plaintext plaintext (p, hp, mp) (q, hq, mq) = (
        cs.encrypt (cs.multiply_plaintexts p q),
        rw (hp, hq) refl,
        cs.message-encrypt (cs.multiply_plaintexts p q) ∙ cs.value-multiply p q ∙ ap₂ r.mul mp mq,
      )
      single_multiplication-message ciphertext plaintext (c, hc, mc) (q, hq, mq) = (
        cs.scal_ciphertext q c,
        rw (hq, hc) refl,
        cs.message-scal q c ∙ ap₂ r.mul mq mc ∙ r.mul_comm y x,
      )
      single_multiplication-message plaintext ciphertext (p, hp, mp) (d, hd, md) =
          (cs.scal_ciphertext p d, rw (hp, hd) refl, cs.message-scal p d ∙ ap₂ r.mul mp md)
      single_multiplication-message (other_encryption_type n) f h k = absurd h
      single_multiplication-message plaintext (other_encryption_type n) h k = absurd k
      single_multiplication-message ciphertext (other_encryption_type n) h k = absurd k

      -- With a client that decrypts and has a triplet, a binary MULTIPLY request on two single values,
      -- each a plaintext or a ciphertext, is answered with a ciphertext of their product.
      pub handle_request-multiply :
          (e f : EncryptionType)
          → Holds e s x
          → Holds f t y
          → AnswersWith
              (handle_request cs client sys (record {
                operation_type = binary;
                operation = multiply;
                operands = single_operand e s ∷ single_operand f t ∷ [];
              }))
              (r.mul x y)
      unfolding handle_request
      handle_request-multiply e f h k =
          let (c, eq, m) = single_multiplication-message e f h k in
          (c, ap (caught cs client sys) eq, m)
