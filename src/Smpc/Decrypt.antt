-- ===== src/Smpc/Decrypt.antt =====
-- SMPCClient::decrypt of include/smpc/smpc_client.hpp: the clients are renewed if there are too few of
-- them, the first ones are asked for their partial decryptions, and the answers are combined.
pub mod Combined
pub mod Network
use co_fhe.Base.{ℕ, Option, none, some, List, [], ◌∷◌, take, Bytes, length, ltb, if◌then◌else◌}
use co_fhe.Wire.Enums.{single}
use co_fhe.Wire.RequestTypes.{partial_decryption, cofhe_type}
use co_fhe.Wire.Outcome.{Outcome, returned, thrown, undefined, terminated, ◌>>=◌}
use co_fhe.Wire.Headed.{make}
use co_fhe.Wire.Messages.{CofheNodeRequest, CofheNodeResponse}
use co_fhe.Wire.Lined.{
  LinedResponse, lined_response_from_string, PartialDecryptionRequest, share_request_to_string,
}
use co_fhe.Node.CofheNode.{CryptoSystem, handle_cofhe}

-- What the client uses of the template parameter `CryptoSystem`.
pub record ClientSystem (CipherText PartResult PlainText : Type 0) : Type 0 where
  pub serialize_ciphertext : CipherText → Bytes
  pub deserialize_part_decryption_result : Bytes → Outcome PartResult
  pub combine_part_decryption_results : CipherText → List PartResult → Outcome PlainText

-- `clients[i]->run(…, &res[i])` and `res[i]->data()`: where the node answers nothing, the pointer that
-- is read is null.
abbrev pub received : Outcome CofheNodeResponse → Outcome Bytes
received (returned response) = returned response.content
received (thrown e) = undefined
received undefined = undefined
received terminated = undefined

module _ {Share CipherText Tensor PartResult PartTensor PlainText : Type 0}
    (cs : CryptoSystem Share CipherText Tensor PartResult PartTensor)
    (client : ClientSystem CipherText PartResult PlainText) where
  abbrev pub share_request : ℕ → CipherText → PartialDecryptionRequest
  share_request index ct = record {
    sk_share_id = index;
    kind = single;
    content = client.serialize_ciphertext ct;
  }

  abbrev pub node_request : ℕ → CipherText → CofheNodeRequest
  node_request index ct =
      make cofhe_type partial_decryption (share_request_to_string (share_request index ct))

  -- The status of an answer is not looked at.
  unfoldable pub read_answer : Bytes → Outcome PartResult
  unfolding lined_response_from_string
  read_answer text = do
    response ← lined_response_from_string text
    client.deserialize_part_decryption_result response.content

  -- the loop over the nodes; a node is the shares that it has
  unfoldable pub collect : ℕ → CipherText → List (List Share) → Outcome (List PartResult)
  unfolding read_answer share_request_to_string handle_cofhe
  collect index ct [] = returned []
  collect index ct (shares ∷ nodes) = do
    text ← received (handle_cofhe cs shares (node_request index ct))
    part ← read_answer text
    parts ← collect index ct nodes
    returned (part ∷ parts)

  -- The clients and the index that a decryption goes on with, and leaves to the next one. The first
  -- argument is what `reinit_partial_decryption_clients` comes to when it is called now.
  unfoldable pub clients_for :
      Outcome (List (List Share) × ℕ) → ℕ → ℕ → List (List Share) → Outcome (List (List Share) × ℕ)
  clients_for renewal threshold index nodes =
      if ltb (length nodes) threshold then renewal else returned (nodes, index)

  -- `clients_partial_decryption_m[i]` for `i < threshold`
  abbrev pub first_clients : ℕ → List (List Share) → Outcome (List (List Share))
  first_clients threshold nodes =
      if ltb (length nodes) threshold then undefined else returned (take threshold nodes)

  unfoldable pub decrypt :
      Outcome (List (List Share) × ℕ) → ℕ → ℕ → List (List Share) → CipherText → Outcome PlainText
  unfolding clients_for collect
  decrypt renewal threshold index nodes ct = do
    s ← clients_for renewal threshold index nodes
    asked ← first_clients threshold s.0
    parts ← collect s.1 ct asked
    client.combine_part_decryption_results ct parts
