-- ===== src/Node/CofheNode.antt =====
-- CoFHENodeRequestHandler of include/node/cofhe_node_request_handler.hpp and the
-- PartialDecryptionRequestHandler of include/node/partial_decryption_request_handler.hpp that it calls:
-- a CoFHE node decrypts with the share of the key that a request names.
pub mod Transparent
use co_fhe.Base.{
  ℕ, ◌≤◌, leb, if◌then◌else◌, Option, none, some, List, [], ◌∷◌, get_elem?, length, Bytes, codes,
}
use co_fhe.Wire.Enums.{ok, error, DataType, single, tensor, tensor_id, other_data_type}
use co_fhe.Wire.RequestTypes.{CofheType, partial_decryption, smpc, other_cofhe_type}
use co_fhe.Wire.Outcome.{Outcome, returned, undefined, ◌>>=◌}
use co_fhe.Wire.Messages.{CofheNodeRequest, CofheNodeResponse, cofhe_node_response}
use co_fhe.Wire.Lined.{
  LinedResponse, lined_response_to_string, PartialDecryptionRequest, share_request_from_string,
}
use co_fhe.Node.Details.{NetworkDetails}

-- What the handlers use of their template parameter `CryptoSystem`. What reads a text may throw.
pub record CryptoSystem (Share CipherText Tensor PartResult PartTensor : Type 0) : Type 0 where
  pub deserialize_secret_key_share : Bytes → Outcome Share
  pub deserialize_ciphertext : Bytes → Outcome CipherText
  pub deserialize_ciphertext_tensor : Bytes → Outcome Tensor
  pub part_decrypt : Share → CipherText → PartResult
  pub part_decrypt_tensor : Share → Tensor → PartTensor
  pub serialize_part_decryption_result : PartResult → Bytes
  pub serialize_part_decryption_result_tensor : PartTensor → Bytes

module _ {Share CipherText Tensor PartResult PartTensor : Type 0}
    (cs : CryptoSystem Share CipherText Tensor PartResult PartTensor) where
  -- the loop of the constructor over the texts of the node's shares
  unfoldable pub read_shares : List Bytes → Outcome (List Share)
  read_shares [] = returned []
  read_shares (text ∷ texts) = do
    share ← cs.deserialize_secret_key_share text
    shares ← read_shares texts
    returned (share ∷ shares)

  abbrev pub answer : Bytes → LinedResponse
  answer content = record { result = ok; content = content }

  abbrev pub refuse : Bytes → LinedResponse
  refuse message = record { result = error; content = message }

  unfoldable pub handle_single_value : Share → Bytes → Outcome LinedResponse
  handle_single_value share content = do
    ct ← cs.deserialize_ciphertext content
    returned (answer (cs.serialize_part_decryption_result (cs.part_decrypt share ct)))

  unfoldable pub handle_tensor : Share → Bytes → Outcome LinedResponse
  handle_tensor share content = do
    ct ← cs.deserialize_ciphertext_tensor content
    returned (answer (cs.serialize_part_decryption_result_tensor (cs.part_decrypt_tensor share ct)))

  -- the `switch`
  abbrev pub handle_kind : DataType → Share → Bytes → Outcome LinedResponse
  handle_kind single share content = handle_single_value share content
  handle_kind tensor share content = handle_tensor share content
  handle_kind tensor_id share content = returned (refuse (codes "Not implemented"))
  handle_kind (other_data_type n) share content = returned (refuse (codes "Invalid data type"))

  unfoldable pub handle_partial_decryption :
      List Share → PartialDecryptionRequest → Outcome LinedResponse
  unfolding handle_single_value handle_tensor
  handle_partial_decryption shares request =
      if leb (length shares) request.sk_share_id
      then returned (refuse (codes "Invalid secret key share id"))
      else elim (get_elem? shares request.sk_share_id) [
        | none ↦ undefined
        | some share ↦ handle_kind request.kind share request.content
      ]

  abbrev pub handle_cofhe_kind : CofheType → List Share → Bytes → Outcome CofheNodeResponse
  handle_cofhe_kind partial_decryption shares content = do
    request ← share_request_from_string content
    response ← handle_partial_decryption shares request
    returned (cofhe_node_response ok (lined_response_to_string response))
  handle_cofhe_kind smpc shares content =
      returned (cofhe_node_response error (codes "Not implemented"))
  handle_cofhe_kind (other_cofhe_type n) shares content =
      returned (cofhe_node_response error (codes "Invalid request type"))

  unfoldable pub handle_cofhe : List Share → CofheNodeRequest → Outcome CofheNodeResponse
  unfolding handle_partial_decryption lined_response_to_string share_request_from_string
  handle_cofhe shares request = handle_cofhe_kind request.header.tag shares request.content
