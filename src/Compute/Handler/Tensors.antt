-- ===== src/Compute/Handler/Tensors.antt =====
-- The answers of a compute node to additions of tensors, where these are added and encrypted by
-- include/x86_64/cpu_cryptosystem_tensor_ops.inl.
use co_fhe.Base.{
  ℕ, ◌^◌, ◌<◌, ◌≡◌, refl, sym, ap₂, ◌∙◌, arith, List, [], ◌∷◌, map, length, length-map, Bytes,
}
use co_fhe.Bicycl.{Mpz, ClassGroup}
use co_fhe.Sharing.Decrypt.{CipherText}
use co_fhe.Wire.Enums.{tensor}
use co_fhe.Wire.Outcome.{Outcome, returned}
use co_fhe.Wire.Lined.{LinedResponse}
use co_fhe.Smpc.Multiply.{Encryption, Client}
use co_fhe.Compute.Types.{binary, add, EncryptionType, plaintext, ciphertext, other_encryption_type}
use co_fhe.Compute.Request.{Operand}
use co_fhe.Compute.Operations.{ComputeSystem, answer, caught, tensor_addition}
use co_fhe.Compute.Handler.{handle_request}
use co_fhe.Tensor.Ciphers.{
  Pointers, encrypt_tensor, add_plaintext_tensors, compose, add_ciphertext_tensors,
}
use co_fhe.Tensor.Ciphers.Elementwise.{
  full, each-full, add_ciphertext_tensors-full, plaintext_tensors-full,
}
use co_fhe.Tensor.Loops.Filled.{zip_with, length-zip_with}

-- An operand that is a tensor.
abbrev pub tensor_operand : EncryptionType → Bytes → Operand
tensor_operand e text = record { kind = tensor; encryption = e; content = text }

module _ {Z G R PlainText : Type 0} {z : Mpz Z} (cl : ClassGroup z G) {r : Mpz R}
    (cs : Encryption r PlainText (CipherText G)) (client : Client PlainText (CipherText G))
    (sys : ComputeSystem PlainText (CipherText G) (Pointers PlainText) (Pointers (CipherText G)))
    (seal : PlainText → G → G → CipherText G) (c1 pkr : G)
    (add_plaintexts : PlainText → PlainText → PlainText) where
  -- The system adds and encrypts tensors as the CPU's does, and its operations on single values do to
  -- the messages what they are for.
  pub record AddsTensors : Type 0 where
    pub encrypts : (t : Pointers PlainText) → sys.encrypt_tensor t ≡ encrypt_tensor seal c1 pkr t
    pub adds_plaintexts :
        (t u : Pointers PlainText)
        → sys.add_plaintext_tensors t u ≡ add_plaintext_tensors add_plaintexts t u
    pub adds_ciphertexts :
        (t u : Pointers (CipherText G))
        → sys.add_ciphertext_tensors t u ≡ add_ciphertext_tensors cl cs.add_ciphertexts t u
    pub message-seal : (p : PlainText) → cs.message (seal p c1 pkr) ≡ cs.value p
    pub message-compose :
        (c d : CipherText G) → cs.message (compose cl c d) ≡ r.add (cs.message c) (cs.message d)
    pub value-add :
        (p q : PlainText) → cs.value (add_plaintexts p q) ≡ r.add (cs.value p) (cs.value q)

  -- The text is that of a vector of plaintexts or ciphertexts of these.
  abbrev pub HoldsAll : ℕ → EncryptionType → Bytes → List R → Type 0
  HoldsAll n plaintext text xs =
      (ps : List PlainText) × (sys.deserialize_plaintext_tensor text ≡ returned (full (n ∷ []) ps))
      × (map cs.value ps ≡ xs)
      × (length ps ≡ n)
  HoldsAll n ciphertext text xs =
      (ds : List (CipherText G)) × (sys.deserialize_ciphertext_tensor text
        ≡ returned (full (n ∷ []) ds))
      × (map cs.message ds ≡ xs)
      × (length ds ≡ n)
  HoldsAll n (other_encryption_type k) text xs = ⊥

  -- The outcome is an answer with the text of a vector of ciphertexts of these.
  abbrev pub AnswersAll : ℕ → Outcome LinedResponse → List R → Type 0
  AnswersAll n m xs =
      (ds : List (CipherText G)) × (m
        ≡ returned (answer (sys.serialize_ciphertext_tensor (full (n ∷ []) ds))))
      × (map cs.message ds ≡ xs)

  module _ (adds : AddsTensors) where
    messages-seal :
        (ps : List PlainText) → map cs.message (map (λ p. seal p c1 pkr) ps) ≡ map cs.value ps
    messages-seal [] = refl
    messages-seal (p ∷ ps) = ap₂ ◌∷◌ (adds.message-seal p) (messages-seal ps)

    messages-compose :
        (ds es : List (CipherText G))
        → map cs.message (zip_with (compose cl) ds es)
          ≡ zip_with r.add (map cs.message ds) (map cs.message es)
    messages-compose [] es = refl
    messages-compose (d ∷ ds) [] = refl
    messages-compose (d ∷ ds) (e ∷ es) = ap₂ ◌∷◌ (adds.message-compose d e) (messages-compose ds es)

    zip_with_comm : (xs ys : List R) → zip_with r.add xs ys ≡ zip_with r.add ys xs
    zip_with_comm [] [] = refl
    zip_with_comm [] (y ∷ ys) = refl
    zip_with_comm (x ∷ xs) [] = refl
    zip_with_comm (x ∷ xs) (y ∷ ys) = ap₂ ◌∷◌ (r.add_comm x y) (zip_with_comm xs ys)

    values-add :
        (ps qs : List PlainText)
        → map cs.value (zip_with add_plaintexts ps qs)
          ≡ zip_with r.add (map cs.value ps) (map cs.value qs)
    values-add [] qs = refl
    values-add (p ∷ ps) [] = refl
    values-add (p ∷ ps) (q ∷ qs) = ap₂ ◌∷◌ (adds.value-add p q) (values-add ps qs)

    module _ (n : ℕ) (small : n < 2 ^ 31) where
      sealed : List PlainText → List (CipherText G)
      sealed ps = map (λ p. seal p c1 pkr) ps

      encrypted :
          (ps : List PlainText)
          → length ps ≡ n
          → sys.encrypt_tensor (full (n ∷ []) ps) ≡ returned (full (n ∷ []) (sealed ps))
      unfolding encrypt_tensor sealed
      encrypted ps long =
          adds.encrypts (full (n ∷ []) ps)
          ∙ each-full (n ∷ []) ps (omega arith) (omega arith) (λ p. seal p c1 pkr)

      added :
          (ds es : List (CipherText G))
          → length ds ≡ n
          → length es ≡ n
          → sys.add_ciphertext_tensors (full (n ∷ []) ds) (full (n ∷ []) es)
            ≡ returned (full (n ∷ []) (zip_with (compose cl) ds es))
      added ds es long_d long_e =
          adds.adds_ciphertexts (full (n ∷ []) ds) (full (n ∷ []) es)
          ∙ add_ciphertext_tensors-full cl cs.add_ciphertexts (n ∷ []) ds es (omega arith)
              (omega arith) (omega arith)

      length-sealed : (ps : List PlainText) → length ps ≡ n → length (sealed ps) ≡ n
      unfolding sealed
      length-sealed ps long = length-map ps (λ p. seal p c1 pkr) ∙ long

      tensor_addition-message :
          (e f : EncryptionType) (s t : Bytes) (xs ys : List R)
          → HoldsAll n e s xs
          → HoldsAll n f t ys
          → AnswersAll n
              (caught cs client sys (tensor_addition cs client sys e f s t))
              (zip_with r.add xs ys)
      unfolding sealed
      tensor_addition-message ciphertext ciphertext s t xs ys (ds, hd, md, ld) (es, he, me, le) = (
        zip_with (compose cl) ds es,
        rw (hd, he, added ds es ld le) refl,
        messages-compose ds es ∙ ap₂ (zip_with r.add) md me,
      )
      tensor_addition-message plaintext plaintext s t xs ys (ps, hp, mp, lp) (qs, hq, mq, lq) =
          let sums : List PlainText = zip_with add_plaintexts ps qs in
          let plain : sys.add_plaintext_tensors (full (n ∷ []) ps) (full (n ∷ []) qs)
              ≡ returned (full (n ∷ []) sums) =
            adds.adds_plaintexts (full (n ∷ []) ps) (full (n ∷ []) qs)
            ∙ plaintext_tensors-full add_plaintexts n ps qs lp lq small in
          (
            sealed sums,
            rw
                (
                  hp,
                  hq,
                  plain,
                  encrypted sums (length-zip_with add_plaintexts ps qs (lp ∙ sym lq) ∙ lp),
                )
                refl,
            messages-seal sums ∙ values-add ps qs ∙ ap₂ (zip_with r.add) mp mq,
          )
      tensor_addition-message ciphertext plaintext s t xs ys (ds, hd, md, ld) (qs, hq, mq, lq) = (
        zip_with (compose cl) ds (sealed qs),
        rw (hd, hq, encrypted qs lq, added ds (sealed qs) ld (length-sealed qs lq)) refl,
        messages-compose ds (sealed qs) ∙ ap₂ (zip_with r.add) md (messages-seal qs ∙ mq),
      )
      tensor_addition-message plaintext ciphertext s t xs ys (ps, hp, mp, lp) (es, he, me, le) = (
        zip_with (compose cl) es (sealed ps),
        rw (hp, encrypted ps lp, he, added es (sealed ps) le (length-sealed ps lp)) refl,
        messages-compose es (sealed ps)
            ∙ ap₂ (zip_with r.add) me (messages-seal ps ∙ mp)
            ∙ zip_with_comm ys xs,
      )
      tensor_addition-message (other_encryption_type k) f s t xs ys h g = absurd h
      tensor_addition-message plaintext (other_encryption_type k) s t xs ys h g = absurd g
      tensor_addition-message ciphertext (other_encryption_type k) s t xs ys h g = absurd g

      -- A binary ADD request on two tensors that are vectors of one size below 2^31, each of plaintexts
      -- or of ciphertexts, is answered with a vector of ciphertexts of the sums of their elements.
      pub handle_request-add_tensors :
          (e f : EncryptionType) (s t : Bytes) (xs ys : List R)
          → HoldsAll n e s xs
          → HoldsAll n f t ys
          → AnswersAll n
              (handle_request cs client sys (record {
                operation_type = binary;
                operation = add;
                operands = tensor_operand e s ∷ tensor_operand f t ∷ [];
              }))
              (zip_with r.add xs ys)
      unfolding handle_request
      handle_request-add_tensors e f s t xs ys h g = tensor_addition-message e f s t xs ys h g
