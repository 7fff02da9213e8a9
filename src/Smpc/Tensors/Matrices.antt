-- ===== src/Smpc/Tensors/Matrices.antt =====
-- Products of matrices of ciphertexts.
use co_fhe.Base.{
  ℕ, ◌+◌, ◌*◌, ◌/◌, ◌%◌, ◌^◌, ◌<◌, ◌≡◌, sym, ap, ap₂, ◌∙◌, arith, some, List, [], ◌∷◌, map, length,
  length-map, get_or,
}
use co_fhe.Bicycl.{Mpz, ClassGroup}
use co_fhe.Bicycl.Sums.{sum, sum_congr}
use co_fhe.Sharing.Decrypt.{CipherText}
use co_fhe.Wire.Outcome.{returned}
use co_fhe.Smpc.Multiply.{Encryption, Triplet, Client}
use co_fhe.Smpc.Multiply.Product.{IsRight}
use co_fhe.Smpc.Tensors.{
  Sealing, TensorClient, fill_in, entry_sum, handle_vector_ciphertext_mul, multiply_matrices,
  multiply_ciphertext_tensors,
}
use co_fhe.Smpc.Tensors.Fills.{fill_in-full}
use co_fhe.Smpc.Tensors.Elements.{ActsOnMessages, AllTriplets}
use co_fhe.Smpc.Tensors.Vectors.{DecryptsVectors, handle_vector_ciphertext_mul-messages}
use co_fhe.Tensor.Positions.{cell-lt, row_position, column_position, position-lt, row-lt, column-lt}
use co_fhe.Smpc.Tensors.Rows.{nought, row_sum, entry_sum-row_sum, row_sum-message}
use co_fhe.Tensor.Accessor.{whole}
use co_fhe.Tensor.Dense.{cells, reshape-dense}
use co_fhe.Tensor.Loops.{object}
use co_fhe.Tensor.Loops.Filled.{zip_with}
use co_fhe.Tensor.Loops.Tables.{
  tabulate, length-tabulate, get_or-tabulate, Makes-tabulate_from, tabulate_congr, map-tabulate,
  get_or-map, object-get_or, get_or-zip_with,
}
use co_fhe.Tensor.Ciphers.Products.{matrix_product, flatten-matrix}
use co_fhe.Tensor.Ciphers.Elementwise.{full}

module _ {Z G R : Type 0} {z : Mpz Z} (cl : ClassGroup z G) {r : Mpz R}
    (cs : Encryption r Z (CipherText G)) (sealing : Sealing Z G) (client : Client Z (CipherText G))
    (tensors : TensorClient Z G) where
  module _ (n m p : ℕ) (xs ys : List (CipherText G)) (lx : length xs ≡ n * m)
      (ly : length ys ≡ m * p) (small_x : n * m < 2 ^ 31) (small_y : m * p < 2 ^ 31)
      (small : n * m * p < 2 ^ 31) (small_z : n * p < 2 ^ 31) where
    abbrev d : CipherText G
    d = nought cl cs sealing client tensors

    -- The operands of the products, in the order of the products.
    abbrev lefts : List (CipherText G)
    lefts = tabulate (n * m * p) (λ q. get_or xs (q / p) d)

    abbrev rights : List (CipherText G)
    rights = tabulate (n * m * p) (λ q. get_or ys (q / p % m * p + q % p) d)

    lefts-filled :
        fill_in
          (n * m * p ∷ [])
          (n * m * p)
          (λ q. object (whole (n * m ∷ []) (map some xs)) (q / p))
        ≡ returned (full (n * m * p ∷ []) lefts)
    lefts-filled =
        fill_in-full (n * m * p) (λ q. object (whole (n * m ∷ []) (map some xs)) (q / p)) lefts
          (Makes-tabulate_from (λ q. object (whole (n * m ∷ []) (map some xs)) (q / p))
            (λ q. get_or xs (q / p) d) 0 (n * m * p)
            λ q h.
              object-get_or (n * m) xs (q / p) d (sym lx) (row-lt (n * m) p q (omega arith))
                (omega arith))
          (length-tabulate (n * m * p) (λ q. get_or xs (q / p) d)) small

    rights-filled :
        fill_in
          (n * m * p ∷ [])
          (n * m * p)
          (λ q. object (whole (m * p ∷ []) (map some ys)) (q / p % m * p + q % p))
        ≡ returned (full (n * m * p ∷ []) rights)
    rights-filled =
        fill_in-full (n * m * p)
          (λ q. object (whole (m * p ∷ []) (map some ys)) (q / p % m * p + q % p)) rights
          (Makes-tabulate_from
            (λ q. object (whole (m * p ∷ []) (map some ys)) (q / p % m * p + q % p))
            (λ q. get_or ys (q / p % m * p + q % p) d) 0 (n * m * p)
            λ q h.
              object-get_or (m * p) ys (q / p % m * p + q % p) d (sym ly)
                (cell-lt m p (q / p % m) (q % p)
                  (column-lt n m (q / p) (row-lt (n * m) p q (omega arith)))
                  (column-lt (n * m) p q (omega arith)))
                (omega arith))
          (length-tabulate (n * m * p) (λ q. get_or ys (q / p % m * p + q % p) d)) small

    entry-message :
        (zs : List (CipherText G)) (i j k : ℕ)
        → cs.message d ≡ r.ulong 0
        → length zs ≡ n * m * p
        → map cs.message zs ≡ zip_with r.mul (map cs.message lefts) (map cs.message rights)
        → i < n
        → j < m
        → k < p
        → cs.message (get_or zs (i * m * p + j * p + k) d)
          ≡ r.mul
              (get_or (map cs.message xs) (i * m + j) (r.ulong 0))
              (get_or (map cs.message ys) (j * p + k) (r.ulong 0))
    entry-message zs i j k nothing long products i_in j_in k_in =
        let q : ℕ = i * m * p + j * p + k in
        let inside : q < n * m * p = position-lt m p i j k j_in k_in n i_in in
        let left : get_or lefts q d ≡ get_or xs (i * m + j) d =
          get_or-tabulate (n * m * p) q (λ q. get_or xs (q / p) d) d inside
          ∙ ap (λ a. get_or xs a d) (row_position m p i j k j_in k_in) in
        let right : get_or rights q d ≡ get_or ys (j * p + k) d =
          get_or-tabulate (n * m * p) q (λ q. get_or ys (q / p % m * p + q % p) d) d inside
          ∙ ap (λ a. get_or ys a d) (column_position m p i j k j_in k_in) in
        let messages : (us : List (CipherText G)) (a : ℕ)
            → get_or (map cs.message us) a (r.ulong 0) ≡ cs.message (get_or us a d) =
          λ us a. ap (get_or (map cs.message us) a) (sym nothing) ∙ get_or-map cs.message us a d in
        sym (messages zs q)
        ∙ ap (λ l. get_or l q (r.ulong 0)) products
        ∙ get_or-zip_with r.mul (map cs.message lefts) (map cs.message rights) q (r.ulong 0)
            (r.ulong 0) (r.ulong 0)
            (omega (
              arith,
              length-map lefts cs.message,
              length-tabulate (n * m * p) (λ q. get_or xs (q / p) d),
            ))
            (omega (
              arith,
              length-map rights cs.message,
              length-tabulate (n * m * p) (λ q. get_or ys (q / p % m * p + q % p) d),
            ))
        ∙ ap₂ r.mul (messages lefts q ∙ ap cs.message left ∙ sym (messages xs (i * m + j)))
            (messages rights q ∙ ap cs.message right ∙ sym (messages ys (j * p + k)))

    abbrev entries : List (CipherText G) → List (CipherText G)
    entries zs =
        tabulate (n * p) (λ q. row_sum cl cs sealing client tensors zs m p (q / p) (q % p) m 0 d)

    entries-filled :
        (zs : List (CipherText G))
        → length zs ≡ n * m * p
        → fill_in (n * p ∷ []) (n * p) (λ q.
          entry_sum cl cs sealing client tensors
            (whole (n * m * p ∷ []) (map some zs))
            m
            p
            (q / p)
            (q % p)
            m
            0
            d)
          ≡ returned (full (n * p ∷ []) (entries zs))
    entries-filled zs long =
        fill_in-full (n * p) _ (entries zs)
          (Makes-tabulate_from _
            (λ q. row_sum cl cs sealing client tensors zs m p (q / p) (q % p) m 0 d) 0 (n * p)
            λ q h.
              entry_sum-row_sum cl cs sealing client tensors n m p (q / p) (q % p) zs m 0 d long
                small (row-lt n p q (omega arith)) (column-lt n p q (omega arith)) (omega arith))
          (length-tabulate (n * p)
            (λ q. row_sum cl cs sealing client tensors zs m p (q / p) (q % p) m 0 d))
          small_z

    entries-messages :
        (zs : List (CipherText G))
        → ActsOnMessages cl cs sealing client
        → cs.message d ≡ r.ulong 0
        → length zs ≡ n * m * p
        → map cs.message zs ≡ zip_with r.mul (map cs.message lefts) (map cs.message rights)
        → map cs.message (entries zs)
          ≡ matrix_product r n m p (map cs.message xs) (map cs.message ys)
    unfolding sum
    entries-messages zs acts nothing long products =
        map-tabulate cs.message 0 (n * p)
          (λ q. row_sum cl cs sealing client tensors zs m p (q / p) (q % p) m 0 d)
        ∙ tabulate_congr 0 (n * p) _ _ λ q h.
          row_sum-message cl cs sealing client tensors acts zs m p (q / p) (q % p) m 0 d nothing
          ∙ ap (λ c. sum r c (λ j. cs.message (get_or zs (q / p * m * p + j * p + q % p) d)))
              (omega arith)
          ∙ sum_congr r m _ _ λ j j_in.
            entry-message zs (q / p) j (q % p) nothing long products (row-lt n p q (omega arith))
              j_in (column-lt n p q (omega arith))

    multiply_matrices-full :
        (zs : List (CipherText G))
        → length zs ≡ n * m * p
        → handle_vector_ciphertext_mul cl cs sealing client tensors
            (full (n * m * p ∷ []) lefts)
            (full (n * m * p ∷ []) rights)
          ≡ returned (full (n * m * p ∷ []) zs)
        → multiply_matrices cl cs sealing client tensors
            (full (n ∷ m ∷ []) xs)
            (full (m ∷ p ∷ []) ys)
          ≡ returned (full (n ∷ p ∷ []) (entries zs))
    unfolding multiply_matrices
    multiply_matrices-full zs long vectors =
        let exact : n * m * p % 2 ^ 64 ≡ n * m * p = omega arith in
        let exact_z : n * p % 2 ^ 64 ≡ n * p = omega arith in
        let same : cells (n ∷ p ∷ []) ≡ cells (n * p ∷ []) = grind arith in
        rw
          (
            flatten-matrix n m xs small_x,
            flatten-matrix m p ys small_y,
            exact,
            lefts-filled,
            rights-filled,
            vectors,
            exact_z,
            entries-filled zs long,
          )
          (reshape-dense (n * p ∷ []) (n ∷ p ∷ []) (map some (entries zs)) same (omega arith))

    -- With a client that decrypts vectors and has a triplet for each product, the product of two matrices
    -- of ciphertexts, n by m and m by p, of which neither they nor the product nor the products of their
    -- elements are 2^31 or more, is returned, and it holds the product of the matrices of their messages.
    pub multiply_ciphertext_tensors-matrices :
        (decrypted : CipherText G → Z) (ts : List (Triplet (CipherText G)))
        → ActsOnMessages cl cs sealing client
        → cs.value sealing.zero_plaintext ≡ r.ulong 0
        → tensors.get_beavers_triplets (n * m * p) ≡ returned ts
        → AllTriplets cl cs sealing client ts
        → DecryptsVectors cl cs sealing client tensors (n * m * p) decrypted
        → IsRight cs client decrypted
        → length ts ≡ n * m * p
        → (zs : List (CipherText G)) × (multiply_ciphertext_tensors cl cs sealing client tensors
              (full (n ∷ m ∷ []) xs)
              (full (m ∷ p ∷ []) ys)
            ≡ returned (full (n ∷ p ∷ []) zs))
          × (map cs.message zs ≡ matrix_product r n m p (map cs.message xs) (map cs.message ys))
    unfolding multiply_ciphertext_tensors
    multiply_ciphertext_tensors-matrices decrypted ts acts nothing given all dec right lt =
        let (zs, done, long, products) =
          handle_vector_ciphertext_mul-messages cl cs sealing client tensors decrypted (n * m * p)
            ts lefts rights acts small given all dec right lt
            (length-tabulate (n * m * p) (λ q. get_or xs (q / p) d))
            (length-tabulate (n * m * p) (λ q. get_or ys (q / p % m * p + q % p) d)) in
        (
          entries zs,
          multiply_matrices-full zs long done,
          entries-messages zs acts (cs.message-encrypt sealing.zero_plaintext ∙ nothing) long
              products,
        )
