-- ===== src/Smpc/Multiply/Product.antt =====
-- The product that is computed with a triplet is a ciphertext of the product.
use co_fhe.Base.{◌≡◌, refl, sym, ap, ap₂, ◌∙◌}
use co_fhe.Bicycl.{Mpz}
use co_fhe.Bicycl.Sums.{mul-zero}
use co_fhe.Wire.Outcome.{returned}
use co_fhe.Smpc.Multiply.{Encryption, Triplet, Client, recombine, multiply_ciphertexts}

module _ {R : Type 0} (r : Mpz R) where
  -- x - a + a = x
  unmask : (x a : R) → r.add (r.add x (r.mul r.minus_one a)) a ≡ x
  unmask x a =
      r.add_assoc x (r.mul r.minus_one a) a
      ∙ ap (r.add x) (
          ap₂ r.add (r.mul_comm r.minus_one a) (sym (r.one-mul a) ∙ r.mul_comm (r.ulong 1) a)
          ∙ sym (r.mul-add a r.minus_one (r.ulong 1))
          ∙ ap (r.mul a) (r.add_comm r.minus_one (r.ulong 1) ∙ r.one_minus_one)
          ∙ mul-zero r a)
      ∙ r.add_comm x (r.ulong 0)
      ∙ r.zero-add x

  regroup : (p q s t : R) → r.add (r.add (r.add p q) s) t ≡ r.add (r.add t q) (r.add p s)
  regroup p q s t =
      ap (λ x. r.add (r.add x s) t) (r.add_comm p q)
      ∙ ap (λ x. r.add x t) (r.add_assoc q p s)
      ∙ r.add_comm (r.add q (r.add p s)) t
      ∙ sym (r.add_assoc t q (r.add p s))

  -- (d + a)(e + b) = db + ea + ab + de
  expand :
      (d a e b : R)
      → r.mul (r.add d a) (r.add e b)
        ≡ r.add (r.add (r.add (r.mul d b) (r.mul e a)) (r.mul a b)) (r.mul d e)
  expand d a e b =
      r.mul-add (r.add d a) e b
      ∙ ap₂ r.add
          (r.mul_comm (r.add d a) e
            ∙ r.mul-add e d a
            ∙ ap (λ x. r.add x (r.mul e a)) (r.mul_comm e d))
          (r.mul_comm (r.add d a) b ∙ r.mul-add b d a ∙ ap₂ r.add (r.mul_comm b d) (r.mul_comm b a))
      ∙ sym (regroup (r.mul d b) (r.mul e a) (r.mul a b) (r.mul d e))

module _ {R PlainText CipherText : Type 0} {r : Mpz R} (cs : Encryption r PlainText CipherText)
    (client : Client PlainText CipherText) where
  -- Decryption of the client is right.
  pub record Decrypts (decrypted : CipherText → PlainText) : Type 0 where
    pub answers : (c : CipherText) → client.decrypt c ≡ returned (decrypted c)
    pub right : (c : CipherText) → cs.value (decrypted c) ≡ cs.message c

  -- The third ciphertext holds the product of the others.
  abbrev pub IsTriplet : Triplet CipherText → Type 0
  IsTriplet t = cs.message t.c ≡ r.mul (cs.message t.a) (cs.message t.b)

  message-recombine :
      (t : Triplet CipherText) (p q : PlainText)
      → IsTriplet t
      → cs.message (recombine cs client t p q)
        ≡ r.mul (r.add (cs.value p) (cs.message t.a)) (r.add (cs.value q) (cs.message t.b))
  message-recombine t p q is_triplet =
      rw
        (
          cs.message-add
              (cs.add_ciphertexts
                (cs.add_ciphertexts (cs.scal_ciphertext p t.b) (cs.scal_ciphertext q t.a)) t.c)
              (cs.encrypt (cs.multiply_plaintexts p q)),
          cs.message-add (cs.add_ciphertexts (cs.scal_ciphertext p t.b) (cs.scal_ciphertext q t.a))
              t.c,
          cs.message-add (cs.scal_ciphertext p t.b) (cs.scal_ciphertext q t.a),
          cs.message-scal p t.b,
          cs.message-scal q t.a,
          cs.message-encrypt (cs.multiply_plaintexts p q),
          cs.value-multiply p q,
          is_triplet,
        )
        (sym (expand r (cs.value p) (cs.message t.a) (cs.value q) (cs.message t.b)))

  -- Decryption of one value is right.
  abbrev pub IsRight : (CipherText → PlainText) → Type 0
  IsRight decrypted = (c : CipherText) → cs.value (decrypted c) ≡ cs.message c

  masked :
      (decrypted : CipherText → PlainText)
      → IsRight decrypted
      → (x a : CipherText)
      → r.add (cs.value (decrypted (cs.add_ciphertexts x (cs.negate_ciphertext a)))) (cs.message a)
        ≡ cs.message x
  masked decrypted right x a =
      ap (λ v. r.add v (cs.message a))
        (right (cs.add_ciphertexts x (cs.negate_ciphertext a))
          ∙ cs.message-add x (cs.negate_ciphertext a)
          ∙ ap (r.add (cs.message x)) (cs.message-negate a))
      ∙ unmask r (cs.message x) (cs.message a)

  pub recombine-masked :
      (decrypted : CipherText → PlainText)
      → IsRight decrypted
      → (t : Triplet CipherText) → IsTriplet t
      → (x y : CipherText)
      → cs.message (
          recombine cs client t
            (decrypted (cs.add_ciphertexts x (cs.negate_ciphertext t.a)))
            (decrypted (cs.add_ciphertexts y (cs.negate_ciphertext t.b))))
        ≡ r.mul (cs.message x) (cs.message y)
  recombine-masked decrypted right t is_triplet x y =
      message-recombine t (decrypted (cs.add_ciphertexts x (cs.negate_ciphertext t.a)))
        (decrypted (cs.add_ciphertexts y (cs.negate_ciphertext t.b))) is_triplet
      ∙ ap₂ r.mul (masked decrypted right x t.a) (masked decrypted right y t.b)

  -- With a client that decrypts and has a triplet, the product of two ciphertexts is returned, and it
  -- holds the product of their messages.
  pub multiply_ciphertexts-message :
      (decrypted : CipherText → PlainText)
      → Decrypts decrypted
      → (t : Triplet CipherText) → client.next_triplet ≡ returned t
      → IsTriplet t
      → (ct1 ct2 : CipherText)
      → (ct : CipherText) × (multiply_ciphertexts cs client ct1 ct2 ≡ returned ct)
        × (cs.message ct ≡ r.mul (cs.message ct1) (cs.message ct2))
  unfolding multiply_ciphertexts
  multiply_ciphertexts-message decrypted dec t next is_triplet ct1 ct2 =
      let pt1 : PlainText = decrypted (cs.add_ciphertexts ct1 (cs.negate_ciphertext t.a)) in
      let pt2 : PlainText = decrypted (cs.add_ciphertexts ct2 (cs.negate_ciphertext t.b)) in
      (
        recombine cs client t pt1 pt2,
        rw
            (
              next,
              dec.answers (cs.add_ciphertexts ct1 (cs.negate_ciphertext t.a)),
              dec.answers (cs.add_ciphertexts ct2 (cs.negate_ciphertext t.b)),
            )
            refl,
        recombine-masked decrypted dec.right t is_triplet ct1 ct2,
      )
