-- ===== src/Compute/MatrixTests.antt =====
-- A compute node whose matrices are texts of two numbers behind a tag, and whose ciphertexts hold integers
-- in the clear.
use co_fhe.Base.{refl, zero, suc, ◌≡◌, [], ◌∷◌, List, map, length, Bytes, arith}
use co_fhe.Base.Int.{ℤ, pos, negsuc, ◌+ℤ◌, ◌*ℤ◌, zero-+ℤ}
use co_fhe.Bicycl.Integers.{integers, additive}
use co_fhe.Bicycl.Sums.{sum}
use co_fhe.Sharing.Decrypt.{CipherText}
use co_fhe.Wire.Outcome.{Outcome, returned, thrown, out_of_range}
use co_fhe.Smpc.Multiply.{Triplet}
use co_fhe.Smpc.Tensors.{
  Sealing, TensorClient, handle_vector_ciphertext_mul, multiply_ciphertext_tensors,
}
use co_fhe.Smpc.Tensors.Elements.{ActsOnMessages}
use co_fhe.Smpc.Tensors.Vectors.{handle_vector_ciphertext_mul-messages}
use co_fhe.Compute.Types.{binary, multiply, ciphertext}
use co_fhe.Compute.Operations.{ComputeSystem}
use co_fhe.Compute.Handler.{handle_request}
use co_fhe.Compute.Handler.Tensors.{tensor_operand}
use co_fhe.Compute.Handler.Matrices.{
  MultipliesTensors, HasTriplets, AnswersMatrix, handle_request-multiply_matrices,
}
use co_fhe.Compute.TensorTests.{seal, in_clear, client}
use co_fhe.Tensor.Ciphers.{
  Pointers, decrypt_tensor, encrypt_tensor, add_plaintext_tensors, multiply_plaintext_tensors,
  add_ciphertext_tensors, scal_ciphertext_tensors, compose,
}
use co_fhe.Tensor.Ciphers.Elementwise.{full, each-full}
use co_fhe.Tensor.Ciphers.Products.{matrix_product}

abbrev sealing : Sealing ℤ ℤ
sealing = record {
  seal = seal;
  c1 = pos 5;
  pkr = pos 0;
  minus_one = negsuc 0;
  zero_plaintext = pos 0;
}

abbrev holding : ℤ → CipherText ℤ
holding x = record { c1 = pos 5; c2 = x }

abbrev triplet : Triplet (CipherText ℤ)
triplet = record { a = holding (pos 3); b = holding (pos 4); c = holding (pos 12) }

abbrev tensors : TensorClient ℤ ℤ
tensors = record {
  get_beavers_triplets = λ n. returned (triplet ∷ triplet ∷ []);
  decrypt_tensor = decrypt_tensor (λ c. c.c2);
}

acts : ActsOnMessages additive in_clear sealing client
acts = record {
  message-seal = zero-+ℤ;
  message-compose = λ c d. refl;
  message-power = λ p c. integers.mul_comm c.c2 p;
  value-minus_one = refl;
}

decrypts :
    (ds : List (CipherText ℤ))
    → length ds ≡ 2
    → tensors.decrypt_tensor (full (2 ∷ []) ds) ≡ returned (full (2 ∷ []) (map (λ c. c.c2) ds))
unfolding decrypt_tensor
decrypts ds long = each-full (2 ∷ []) ds long (omega arith) (λ c. c.c2)

-- A row is tagged by 0, and a column by 1.
abbrev read_matrix : {A : Type 0} → (ℤ → A) → Bytes → Outcome (Pointers A)
read_matrix f (zero ∷ m ∷ n ∷ []) = returned (full (1 ∷ 2 ∷ []) (f (pos m) ∷ f (pos n) ∷ []))
read_matrix f (suc tag ∷ m ∷ n ∷ []) = returned (full (2 ∷ 1 ∷ []) (f (pos m) ∷ f (pos n) ∷ []))
read_matrix f text = thrown out_of_range

abbrev node : ComputeSystem ℤ (CipherText ℤ) (Pointers ℤ) (Pointers (CipherText ℤ))
node = record {
  serialize_plaintext = λ p. [];
  serialize_ciphertext = λ c. [];
  serialize_plaintext_tensor = λ t. [];
  serialize_ciphertext_tensor = λ t. [];
  deserialize_plaintext = λ text. thrown out_of_range;
  deserialize_ciphertext = λ text. thrown out_of_range;
  deserialize_plaintext_tensor = read_matrix (λ x. x);
  deserialize_ciphertext_tensor = read_matrix holding;
  encrypt_tensor = encrypt_tensor seal (pos 5) (pos 0);
  add_plaintext_tensors = add_plaintext_tensors ◌+ℤ◌;
  add_ciphertext_tensors = add_ciphertext_tensors additive (compose additive);
  multiply_plaintext_tensors = multiply_plaintext_tensors ◌*ℤ◌;
  scal_ciphertext_tensors =
      scal_ciphertext_tensors additive in_clear.scal_ciphertext (in_clear.encrypt (pos 0));
  multiply_ciphertext_tensors =
      multiply_ciphertext_tensors additive in_clear sealing client tensors;
  decrypt_tensor = λ t. thrown out_of_range;
  what = λ e. [];
}

multiplies : MultipliesTensors additive in_clear sealing client tensors node
multiplies = record { multiplies = λ t u. refl; acts = acts; nothing = refl }

has : HasTriplets additive in_clear sealing client tensors node 2
unfolding ◌*ℤ◌
has = record {
  triplets = triplet ∷ triplet ∷ [];
  given = refl;
  all = (refl, (refl, tt));
  enough = refl;
  decrypted = λ c. c.c2;
  decrypts = decrypts;
  right = λ c. refl;
}

abbrev row : Bytes
row = 0 ∷ 3 ∷ 4 ∷ []

abbrev column : Bytes
column = 1 ∷ 5 ∷ 6 ∷ []

handle_request-multiply_matrices_example :
    AnswersMatrix additive in_clear sealing client tensors node 1 1
      (handle_request in_clear client node (record {
        operation_type = binary;
        operation = multiply;
        operands = tensor_operand ciphertext row ∷ tensor_operand ciphertext column ∷ [];
      }))
      (matrix_product integers 1 2 1 (pos 3 ∷ pos 4 ∷ []) (pos 5 ∷ pos 6 ∷ []))
handle_request-multiply_matrices_example =
    handle_request-multiply_matrices additive in_clear sealing client tensors node multiplies 1 2 1
      (omega arith) (omega arith) (omega arith) (omega arith) has row column (pos 3 ∷ pos 4 ∷ [])
      (pos 5 ∷ pos 6 ∷ []) (holding (pos 3) ∷ holding (pos 4) ∷ [], refl, refl, refl)
      (holding (pos 5) ∷ holding (pos 6) ∷ [], refl, refl, refl)

product_test : matrix_product integers 1 2 1 (pos 3 ∷ pos 4 ∷ []) (pos 5 ∷ pos 6 ∷ []) ≡ pos 39 ∷ []
unfolding ◌+ℤ◌ ◌*ℤ◌ sum
product_test = refl

handle_vector_ciphertext_mul-messages_example :
    (zs : List (CipherText ℤ)) × (handle_vector_ciphertext_mul additive in_clear sealing client
        tensors
        (full (2 ∷ []) (holding (pos 3) ∷ holding (pos 4) ∷ []))
        (full (2 ∷ []) (holding (pos 5) ∷ holding (pos 6) ∷ []))
      ≡ returned (full (2 ∷ []) zs))
    × (length zs ≡ 2)
    × (map in_clear.message zs ≡ integers.mul (pos 3) (pos 5) ∷ integers.mul (pos 4) (pos 6) ∷ [])
unfolding ◌*ℤ◌
handle_vector_ciphertext_mul-messages_example =
    handle_vector_ciphertext_mul-messages additive in_clear sealing client tensors (λ c. c.c2) 2
      (triplet ∷ triplet ∷ []) (holding (pos 3) ∷ holding (pos 4) ∷ [])
      (holding (pos 5) ∷ holding (pos 6) ∷ []) acts (omega arith) refl (refl, (refl, tt)) decrypts
      (λ c. refl) refl refl refl
