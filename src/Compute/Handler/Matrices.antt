-- ===== src/Compute/Handler/Matrices.antt =====
-- The answers of a compute node to products of matrices of ciphertexts, where its client multiplies as
-- include/smpc/ciphertext_multiplications.hpp does.
use co_fhe.Base.{ℕ, ◌*◌, ◌^◌, ◌<◌, ◌≡◌, refl, ◌∙◌, ap₂, List, [], ◌∷◌, map, length, Bytes}
use co_fhe.Bicycl.{Mpz, ClassGroup}
use co_fhe.Sharing.Decrypt.{CipherText}
use co_fhe.Wire.Outcome.{Outcome, returned}
use co_fhe.Wire.Lined.{LinedResponse}
use co_fhe.Smpc.Multiply.{Encryption, Triplet, Client}
use co_fhe.Smpc.Multiply.Product.{IsRight}
use co_fhe.Smpc.Tensors.{Sealing, TensorClient, multiply_ciphertext_tensors}
use co_fhe.Smpc.Tensors.Elements.{ActsOnMessages, AllTriplets}
use co_fhe.Smpc.Tensors.Vectors.{DecryptsVectors}
use co_fhe.Smpc.Tensors.Matrices.{multiply_ciphertext_tensors-matrices}
use co_fhe.Compute.Types.{binary, multiply, ciphertext}
use co_fhe.Compute.Operations.{ComputeSystem, answer}
use co_fhe.Compute.Handler.{handle_request}
use co_fhe.Compute.Handler.Tensors.{tensor_operand}
use co_fhe.Tensor.Ciphers.{Pointers}
use co_fhe.Tensor.Ciphers.Elementwise.{full}
use co_fhe.Tensor.Ciphers.Products.{matrix_product}

module _ {Z G R : Type 0} {z : Mpz Z} (cl : ClassGroup z G) {r : Mpz R}
    (cs : Encryption r Z (CipherText G)) (sealing : Sealing Z G) (client : Client Z (CipherText G))
    (tensors : TensorClient Z G)
    (sys : ComputeSystem Z (CipherText G) (Pointers Z) (Pointers (CipherText G))) where
  -- The system multiplies tensors by the client, and the operations on elements do to the messages what
  -- they are for.
  pub record MultipliesTensors : Type 0 where
    pub multiplies :
        (t u : Pointers (CipherText G))
        → sys.multiply_ciphertext_tensors t u
          ≡ multiply_ciphertext_tensors cl cs sealing client tensors t u
    pub acts : ActsOnMessages cl cs sealing client
    pub nothing : cs.value sealing.zero_plaintext ≡ r.ulong 0

  -- The client has this number of triplets, and decrypts vectors of this size.
  pub record HasTriplets (n : ℕ) : Type 0 where
    pub triplets : List (Triplet (CipherText G))
    pub given : tensors.get_beavers_triplets n ≡ returned triplets
    pub all : AllTriplets cl cs sealing client triplets
    pub enough : length triplets ≡ n
    pub decrypted : CipherText G → Z
    pub decrypts : DecryptsVectors cl cs sealing client tensors n decrypted
    pub right : IsRight cs client decrypted

  -- The text is that of a matrix of ciphertexts of these.
  abbrev pub HoldsMatrix : ℕ → ℕ → Bytes → List R → Type 0
  HoldsMatrix n m text xs =
      (ds : List (CipherText G)) × (sys.deserialize_ciphertext_tensor text
        ≡ returned (full (n ∷ m ∷ []) ds))
      × (map cs.message ds ≡ xs)
      × (length ds ≡ n * m)

  -- The outcome is an answer with the text of a matrix of ciphertexts of these.
  abbrev pub AnswersMatrix : ℕ → ℕ → Outcome LinedResponse → List R → Type 0
  AnswersMatrix n m o xs =
      (ds : List (CipherText G)) × (o
        ≡ returned (answer (sys.serialize_ciphertext_tensor (full (n ∷ m ∷ []) ds))))
      × (map cs.message ds ≡ xs)

  module _ (mul : MultipliesTensors) (n m p : ℕ) (small_x : n * m < 2 ^ 31)
      (small_y : m * p < 2 ^ 31) (small_z : n * p < 2 ^ 31) where
    -- A binary MULTIPLY request on two matrices of ciphertexts, n by m and m by p, is answered with
    -- ciphertexts of their product, if the client has a triplet for each of the n * m * p products of
    -- elements and decrypts vectors of this size, and neither this number nor the size of one of the three
    -- matrices is 2^31 or more.
    pub handle_request-multiply_matrices :
        n * m * p < 2 ^ 31
        → HasTriplets (n * m * p)
        → (s t : Bytes) (xs ys : List R) → HoldsMatrix n m s xs
        → HoldsMatrix m p t ys
        → AnswersMatrix n p
            (handle_request cs client sys (record {
              operation_type = binary;
              operation = multiply;
              operands = tensor_operand ciphertext s ∷ tensor_operand ciphertext t ∷ [];
            }))
            (matrix_product r n m p xs ys)
    unfolding handle_request
    handle_request-multiply_matrices small has s t xs ys (ds, hd, md, ld) (es, he, me, le) =
        let (zs, done, messages) =
          multiply_ciphertext_tensors-matrices cl cs sealing client tensors n m p ds es ld le
            small_x small_y small small_z has.decrypted has.triplets mul.acts mul.nothing has.given
            has.all has.decrypts has.right has.enough in
        (
          zs,
          rw (hd, he, mul.multiplies (full (n ∷ m ∷ []) ds) (full (m ∷ p ∷ []) es), done) refl,
          messages ∙ ap₂ (matrix_product r n m p) md me,
        )
