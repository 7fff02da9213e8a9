-- ===== src/Smpc/Tensors/Vectors.antt =====
-- Products of vectors of ciphertexts, element by element.
use co_fhe.Base.{ℕ, ◌^◌, ◌<◌, ◌≡◌, sym, ap, ◌∙◌, arith, List, [], ◌∷◌, map, length, length-map}
use co_fhe.Bicycl.{Mpz, ClassGroup}
use co_fhe.Sharing.Decrypt.{CipherText}
use co_fhe.Wire.Outcome.{returned}
use co_fhe.Smpc.Multiply.{Encryption, Triplet, Client}
use co_fhe.Smpc.Multiply.Product.{IsRight}
use co_fhe.Smpc.Tensors.{Sealing, TensorClient, recombine_tensors, handle_vector_ciphertext_mul}
use co_fhe.Smpc.Tensors.Elements.{
  ActsOnMessages, AllTriplets, products, recombined, zips, length-products, messages-products,
}
use co_fhe.Smpc.Tensors.Fills.{triplets-full, scal_vectors}
use co_fhe.Tensor.Loops.Filled.{zip_with, length-zip_with}
use co_fhe.Tensor.Ciphers.{
  encrypt_tensor, compose, power, negate_ciphertext_tensor, add_ciphertext_tensors,
  scal_ciphertext_tensors,
}
use co_fhe.Tensor.Ciphers.Elementwise.{
  full, each-full, plaintext_tensors-full, add_ciphertext_tensors-full,
}

module _ {Z G R : Type 0} {z : Mpz Z} (cl : ClassGroup z G) {r : Mpz R}
    (cs : Encryption r Z (CipherText G)) (sealing : Sealing Z G) (client : Client Z (CipherText G))
    (tensors : TensorClient Z G) where
  -- Decryption of vectors gives back one plaintext for each ciphertext.
  abbrev pub DecryptsVectors : ℕ → (CipherText G → Z) → Type 0
  DecryptsVectors n decrypted =
      (ds : List (CipherText G))
      → length ds ≡ n
      → tensors.decrypt_tensor (full (n ∷ []) ds) ≡ returned (full (n ∷ []) (map decrypted ds))

  module _ (n : ℕ) (small : n < 2 ^ 31) where
    negated :
        (ds : List (CipherText G))
        → length ds ≡ n
        → negate_ciphertext_tensor cl sealing.minus_one (full (n ∷ []) ds)
          ≡ returned (full (n ∷ []) (map (power cl sealing.minus_one) ds))
    unfolding negate_ciphertext_tensor
    negated ds long = each-full (n ∷ []) ds (omega arith) (omega arith) (power cl sealing.minus_one)

    added :
        (ds es : List (CipherText G))
        → length ds ≡ n
        → length es ≡ n
        → add_ciphertext_tensors cl cs.add_ciphertexts (full (n ∷ []) ds) (full (n ∷ []) es)
          ≡ returned (full (n ∷ []) (zip_with (compose cl) ds es))
    added ds es ld le =
        add_ciphertext_tensors-full cl cs.add_ciphertexts (n ∷ []) ds es (omega arith) (omega arith)
          (omega arith)

    sealed :
        (ps : List Z)
        → length ps ≡ n
        → encrypt_tensor sealing.seal sealing.c1 sealing.pkr (full (n ∷ []) ps)
          ≡ returned (full (n ∷ []) (map (λ p. sealing.seal p sealing.c1 sealing.pkr) ps))
    unfolding encrypt_tensor
    sealed ps long =
        each-full (n ∷ []) ps (omega arith) (omega arith)
          (λ p. sealing.seal p sealing.c1 sealing.pkr)

    scaled :
        (ps : List Z) (ds : List (CipherText G))
        → length ps ≡ n
        → length ds ≡ n
        → scal_ciphertext_tensors cl cs.scal_ciphertext
            (cs.encrypt sealing.zero_plaintext)
            (full (n ∷ []) ps)
            (full (n ∷ []) ds)
          ≡ returned (full (n ∷ []) (zip_with (power cl) ps ds))
    scaled ps ds lp ld =
        scal_vectors cl cs.scal_ciphertext (cs.encrypt sealing.zero_plaintext) n ps ds lp ld small

    zipped :
        {A B C : Type 0} (g : A → B → C) (xs : List A) (ys : List B)
        → length xs ≡ n
        → length ys ≡ n
        → length (zip_with g xs ys) ≡ n
    zipped g xs ys lx ly = length-zip_with g xs ys (lx ∙ sym ly) ∙ lx

    mapped : {A B : Type 0} (g : A → B) (xs : List A) → length xs ≡ n → length (map g xs) ≡ n
    mapped g xs long = length-map xs g ∙ long

    module _ (ts : List (Triplet (CipherText G))) (lt : length ts ≡ n) where
      abbrev al : List (CipherText G)
      al = map (λ t. t.a) ts

      abbrev bl : List (CipherText G)
      bl = map (λ t. t.b) ts

      abbrev dl : List (CipherText G)
      dl = map (λ t. t.c) ts

      recombine_tensors-full :
          (ps qs : List Z)
          → length ps ≡ n
          → length qs ≡ n
          → recombine_tensors cl cs sealing client tensors
              (full (n ∷ []) al)
              (full (n ∷ []) bl)
              (full (n ∷ []) dl)
              (full (n ∷ []) ps)
              (full (n ∷ []) qs)
            ≡ returned (full (n ∷ []) (recombined cl cs sealing client ts ps qs))
      unfolding recombine_tensors
      recombine_tensors-full ps qs lp lq =
          let la : length al ≡ n = mapped (λ t. t.a) ts lt in
          let lb : length bl ≡ n = mapped (λ t. t.b) ts lt in
          let ld : length dl ≡ n = mapped (λ t. t.c) ts lt in
          let pq : List Z = zip_with cs.multiply_plaintexts ps qs in
          let lpq : length pq ≡ n = zipped cs.multiply_plaintexts ps qs lp lq in
          let enc : List (CipherText G) = map (λ p. sealing.seal p sealing.c1 sealing.pkr) pq in
          let pb : List (CipherText G) = zip_with (power cl) ps bl in
          let qa : List (CipherText G) = zip_with (power cl) qs al in
          let lpb : length pb ≡ n = zipped (power cl) ps bl lp lb in
          let lqa : length qa ≡ n = zipped (power cl) qs al lq la in
          let s : List (CipherText G) = zip_with (compose cl) pb qa in
          let ls : length s ≡ n = zipped (compose cl) pb qa lpb lqa in
          rw
            (
              plaintext_tensors-full cs.multiply_plaintexts n ps qs lp lq small,
              sealed pq lpq,
              scaled ps bl lp lb,
              scaled qs al lq la,
              added pb qa lpb lqa,
              added s dl ls ld,
            )
            (added (zip_with (compose cl) s dl) enc (zipped (compose cl) s dl ls ld)
              (mapped (λ p. sealing.seal p sealing.c1 sealing.pkr) pq lpq))

      module _ (decrypted : CipherText G → Z) (xs ys : List (CipherText G))
          (acts : ActsOnMessages cl cs sealing client) where
        product_vectors :
            tensors.get_beavers_triplets n ≡ returned ts
            → DecryptsVectors n decrypted
            → length xs ≡ n
            → length ys ≡ n
            → handle_vector_ciphertext_mul cl cs sealing client tensors
                (full (n ∷ []) xs)
                (full (n ∷ []) ys)
              ≡ returned (full (n ∷ []) (products cl cs sealing client decrypted acts ts xs ys))
        unfolding handle_vector_ciphertext_mul
        product_vectors given dec lx ly =
            let la : length al ≡ n = mapped (λ t. t.a) ts lt in
            let lb : length bl ≡ n = mapped (λ t. t.b) ts lt in
            let na : List (CipherText G) = map (power cl sealing.minus_one) al in
            let nb : List (CipherText G) = map (power cl sealing.minus_one) bl in
            let lna : length na ≡ n = mapped (power cl sealing.minus_one) al la in
            let lnb : length nb ≡ n = mapped (power cl sealing.minus_one) bl lb in
            let us : List (CipherText G) = zip_with (compose cl) xs na in
            let vs : List (CipherText G) = zip_with (compose cl) ys nb in
            let lu : length us ≡ n = zipped (compose cl) xs na lx lna in
            let lv : length vs ≡ n = zipped (compose cl) ys nb ly lnb in
            rw
              (
                given,
                triplets-full n (λ t. t.a) ts lt small,
                triplets-full n (λ t. t.b) ts lt small,
                triplets-full n (λ t. t.c) ts lt small,
                negated al la,
                negated bl lb,
                added xs na lx lna,
                added ys nb ly lnb,
                dec us lu,
                dec vs lv,
                recombine_tensors-full (map decrypted us) (map decrypted vs)
                    (mapped decrypted us lu) (mapped decrypted vs lv),
              )
              (ap (λ l. returned (full (n ∷ []) l))
                (zips cl cs sealing client decrypted ts xs ys acts))

  -- With a client that decrypts vectors and has a triplet for each element, the product of two vectors
  -- of one size below 2^31 is returned, and its elements hold the products of their messages.
  pub handle_vector_ciphertext_mul-messages :
      (decrypted : CipherText G → Z) (n : ℕ) (ts : List (Triplet (CipherText G)))
      (xs ys : List (CipherText G))
      → ActsOnMessages cl cs sealing client
      → n < 2 ^ 31
      → tensors.get_beavers_triplets n ≡ returned ts
      → AllTriplets cl cs sealing client ts
      → DecryptsVectors n decrypted
      → IsRight cs client decrypted
      → length ts ≡ n
      → length xs ≡ n
      → length ys ≡ n
      → (zs : List (CipherText G)) × (handle_vector_ciphertext_mul cl cs sealing client tensors
            (full (n ∷ []) xs)
            (full (n ∷ []) ys)
          ≡ returned (full (n ∷ []) zs))
        × (length zs ≡ n)
        × (map cs.message zs ≡ zip_with r.mul (map cs.message xs) (map cs.message ys))
  handle_vector_ciphertext_mul-messages decrypted n ts xs ys acts small given all dec right lt lx
        ly =
      (
        products cl cs sealing client decrypted acts ts xs ys,
        product_vectors n small ts lt decrypted xs ys acts given dec lx ly,
        length-products cl cs sealing client decrypted ts xs ys acts (omega arith) (omega arith)
            ∙ lt,
        messages-products cl cs sealing client decrypted ts xs ys acts right all (omega arith)
            (omega arith),
      )
