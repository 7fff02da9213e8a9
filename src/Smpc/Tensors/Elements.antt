-- ===== src/Smpc/Tensors/Elements.antt =====
-- What the multiplication of vectors makes of each element.
use co_fhe.Base.{suc, ◌≡◌, refl, ap, ap₂, ◌∙◌, arith, List, [], ◌∷◌, map, length}
use co_fhe.Bicycl.{Mpz, ClassGroup}
use co_fhe.Sharing.Decrypt.{CipherText}
use co_fhe.Smpc.Multiply.{Encryption, Triplet, Client, recombine}
use co_fhe.Smpc.Multiply.Product.{IsTriplet, IsRight, recombine-masked}
use co_fhe.Smpc.Tensors.{Sealing}
use co_fhe.Tensor.Loops.Filled.{zip_with}
use co_fhe.Tensor.Ciphers.{compose, power}

module _ {Z G R : Type 0} {z : Mpz Z} (cl : ClassGroup z G) {r : Mpz R}
    (cs : Encryption r Z (CipherText G)) (sealing : Sealing Z G)
    (client : Client Z (CipherText G)) where
  -- What the operations on the elements of tensors do to the messages.
  pub record ActsOnMessages : Type 0 where
    pub message-seal : (p : Z) → cs.message (sealing.seal p sealing.c1 sealing.pkr) ≡ cs.value p
    pub message-compose :
        (c d : CipherText G) → cs.message (compose cl c d) ≡ r.add (cs.message c) (cs.message d)
    pub message-power :
        (p : Z) (c : CipherText G) → cs.message (power cl p c) ≡ r.mul (cs.value p) (cs.message c)
    pub value-minus_one : cs.value sealing.minus_one ≡ r.minus_one

  -- These operations as those of a system for single values.
  abbrev elementwise : ActsOnMessages → Encryption r Z (CipherText G)
  elementwise acts = record {
    encrypt = λ p. sealing.seal p sealing.c1 sealing.pkr;
    add_ciphertexts = compose cl;
    scal_ciphertext = power cl;
    negate_ciphertext = power cl sealing.minus_one;
    multiply_plaintexts = cs.multiply_plaintexts;
    value = cs.value;
    message = cs.message;
    message-encrypt = acts.message-seal;
    message-add = acts.message-compose;
    message-scal = acts.message-power;
    message-negate = λ c.
        acts.message-power sealing.minus_one c
        ∙ ap (λ v. r.mul v (cs.message c)) acts.value-minus_one;
    value-multiply = cs.value-multiply;
  }

  abbrev pub AllTriplets : List (Triplet (CipherText G)) → Type 0
  AllTriplets [] = Unit {0}
  AllTriplets (t ∷ ts) = IsTriplet cs client t × AllTriplets ts

  -- The list that the operations on tensors make of two lists of decrypted differences.
  abbrev pub recombined : List (Triplet (CipherText G)) → List Z → List Z → List (CipherText G)
  recombined ts ps qs =
      zip_with (compose cl)
        (zip_with (compose cl)
          (zip_with (compose cl) (zip_with (power cl) ps (map (λ t. t.b) ts))
            (zip_with (power cl) qs (map (λ t. t.a) ts)))
          (map (λ t. t.c) ts))
        (map (λ p. sealing.seal p sealing.c1 sealing.pkr) (zip_with cs.multiply_plaintexts ps qs))

  module _ (decrypted : CipherText G → Z) where
    abbrev difference : CipherText G → CipherText G → CipherText G
    difference x a = compose cl x (power cl sealing.minus_one a)

    pub products :
        ActsOnMessages
        → List (Triplet (CipherText G))
        → List (CipherText G)
        → List (CipherText G)
        → List (CipherText G)
    products acts (t ∷ ts) (x ∷ xs) (y ∷ ys) =
        recombine (elementwise acts) client t (decrypted (difference x t.a))
          (decrypted (difference y t.b))
        ∷ products acts ts xs ys
    products acts _ _ _ = []

    abbrev pub decryptions : List (CipherText G) → List (CipherText G) → List Z
    decryptions xs al =
        map decrypted (zip_with (compose cl) xs (map (power cl sealing.minus_one) al))

    pub zips :
        (ts : List (Triplet (CipherText G))) (xs ys : List (CipherText G)) (acts : ActsOnMessages)
        → recombined ts (decryptions xs (map (λ t. t.a) ts)) (decryptions ys (map (λ t. t.b) ts))
          ≡ products acts ts xs ys
    unfolding products
    zips [] [] ys acts = refl
    zips [] (x ∷ xs) ys acts = refl
    zips (t ∷ ts) [] ys acts = refl
    zips (t ∷ ts) (x ∷ xs) [] acts = refl
    zips (t ∷ ts) (x ∷ xs) (y ∷ ys) acts =
        ap
          (◌∷◌ (
            recombine (elementwise acts) client t (decrypted (difference x t.a))
              (decrypted (difference y t.b))))
          (zips ts xs ys acts)

    pub length-products :
        (ts : List (Triplet (CipherText G))) (xs ys : List (CipherText G)) (acts : ActsOnMessages)
        → length xs ≡ length ts
        → length ys ≡ length ts
        → length (products acts ts xs ys) ≡ length ts
    unfolding products
    length-products [] xs ys acts h g = refl
    length-products (t ∷ ts) [] ys acts h g = absurd (omega arith)
    length-products (t ∷ ts) (x ∷ xs) [] acts h g = absurd (omega arith)
    length-products (t ∷ ts) (x ∷ xs) (y ∷ ys) acts h g =
        ap suc (length-products ts xs ys acts (omega arith) (omega arith))

    pub messages-products :
        (ts : List (Triplet (CipherText G))) (xs ys : List (CipherText G)) (acts : ActsOnMessages)
        → IsRight cs client decrypted
        → AllTriplets ts
        → length xs ≡ length ts
        → length ys ≡ length ts
        → map cs.message (products acts ts xs ys)
          ≡ zip_with r.mul (map cs.message xs) (map cs.message ys)
    unfolding products
    messages-products [] [] ys acts right all h g = refl
    messages-products [] (x ∷ xs) ys acts right all h g = absurd (omega arith)
    messages-products (t ∷ ts) [] ys acts right all h g = refl
    messages-products (t ∷ ts) (x ∷ xs) [] acts right all h g = refl
    messages-products (t ∷ ts) (x ∷ xs) (y ∷ ys) acts right (is, all) h g =
        ap₂ ◌∷◌ (recombine-masked (elementwise acts) client decrypted right t is x y)
          (messages-products ts xs ys acts right all (omega arith) (omega arith))
