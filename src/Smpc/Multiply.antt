-- ===== src/Smpc/Multiply.antt =====
-- SMPCCipherTextMultiplier::multiply_ciphertexts of include/smpc/ciphertext_multiplications.hpp: the
-- product of two ciphertexts by a Beaver triplet, of which the client decrypts only masked differences.
pub mod Product
use co_fhe.Base.{◌≡◌}
use co_fhe.Bicycl.{Mpz}
use co_fhe.Wire.Outcome.{Outcome, returned, ◌>>=◌}

-- The operations of `CryptoSystem` that the code uses, under the network's public key, and what they do
-- to the messages. These are the residues that a plaintext can have, a commutative ring; `r` is its
-- arithmetic.
pub record Encryption {R : Type 0} (r : Mpz R) (PlainText CipherText : Type 0) : Type 0 where
  pub encrypt : PlainText → CipherText
  pub add_ciphertexts : CipherText → CipherText → CipherText
  pub scal_ciphertext : PlainText → CipherText → CipherText
  pub negate_ciphertext : CipherText → CipherText
  pub multiply_plaintexts : PlainText → PlainText → PlainText
  pub value : PlainText → R
  pub message : CipherText → R
  pub message-encrypt : (p : PlainText) → message (encrypt p) ≡ value p
  pub message-add :
      (c d : CipherText) → message (add_ciphertexts c d) ≡ r.add (message c) (message d)
  pub message-scal :
      (p : PlainText) (c : CipherText) → message (scal_ciphertext p c) ≡ r.mul (value p) (message c)
  pub message-negate :
      (c : CipherText) → message (negate_ciphertext c) ≡ r.mul r.minus_one (message c)
  pub value-multiply :
      (p q : PlainText) → value (multiply_plaintexts p q) ≡ r.mul (value p) (value q)

pub record Triplet (CipherText : Type 0) : Type 0 where
  pub a : CipherText
  pub b : CipherText
  pub c : CipherText

-- What the multiplier uses of `SMPCClient`: both may throw.
pub record Client (PlainText CipherText : Type 0) : Type 0 where
  pub next_triplet : Outcome (Triplet CipherText)
  pub decrypt : CipherText → Outcome PlainText

module _ {R PlainText CipherText : Type 0} {r : Mpz R} (cs : Encryption r PlainText CipherText)
    (client : Client PlainText CipherText) where
  -- what is computed of the two decrypted differences
  abbrev pub recombine : Triplet CipherText → PlainText → PlainText → CipherText
  recombine t pt1 pt2 =
      let enc_pt1_pt2 = cs.encrypt (cs.multiply_plaintexts pt1 pt2) in
      let pt1_b = cs.scal_ciphertext pt1 t.b in
      let pt2_a = cs.scal_ciphertext pt2 t.a in
      cs.add_ciphertexts (cs.add_ciphertexts (cs.add_ciphertexts pt1_b pt2_a) t.c) enc_pt1_pt2

  unfoldable pub multiply_ciphertexts : CipherText → CipherText → Outcome CipherText
  multiply_ciphertexts ct1 ct2 = do
    t ← client.next_triplet
    pt1 ← client.decrypt (cs.add_ciphertexts ct1 (cs.negate_ciphertext t.a))
    pt2 ← client.decrypt (cs.add_ciphertexts ct2 (cs.negate_ciphertext t.b))
    returned (recombine t pt1 pt2)
