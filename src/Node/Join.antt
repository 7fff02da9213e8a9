-- ===== src/Node/Join.antt =====
-- JoinAsNodeRequestHandler of include/node/join_as_node.hpp, the setup node's state: which nodes have
-- joined, and whose keys come next. The mutex makes each request one step.
pub mod Handing
use co_fhe.Base.{
  ℕ, ◌+◌, ◌^◌, ◌%◌, Bool, leb, if◌then◌else◌, Option, none, some, List, [], ◌∷◌, ◌++◌, map,
  get_elem?, Bytes, codes,
}
use co_fhe.Wire.Enums.{ok}
use co_fhe.Wire.RequestTypes.{JoinType, join_as_cofhe_node, join_as_compute_node, other_join_type}
use co_fhe.Wire.Outcome.{Outcome, returned, undefined}
use co_fhe.Node.Details.{
  NodeType, cofhe_node, compute_node, NodeDetails, CryptoSystemDetails, NetworkDetails,
}
use co_fhe.Node.JoinText.{
  JoinRequest, JoinResponse, cofhe_response, compute_response, error_response,
}

-- The numbers of `int` type are bit patterns of 32 bits.
pub record JoinState : Type 0 where
  pub total_nodes : ℕ
  pub public_key : Bytes
  pub secret_key_shares : List (List Bytes)
  pub current_node : ℕ
  pub network_details : NetworkDetails

-- `a <= b` of `int`
abbrev pub int_leb : ℕ → ℕ → Bool
int_leb a b = leb ((a + 2 ^ 31) % 2 ^ 32) ((b + 2 ^ 31) % 2 ^ 32)

-- `init`, given the public key and the keys of the parties that `keygen` made
unfoldable pub init {ℓ} :
    {Share : Type ℓ}
    → (Share → Bytes)
    → CryptoSystemDetails
    → NodeDetails
    → Bytes
    → List (List Share)
    → JoinState
init serialize details self_node public_key sk_shares = record {
  total_nodes = details.total_nodes % 2 ^ 32;
  public_key = public_key;
  secret_key_shares = map (map serialize) sk_shares;
  current_node = 0;
  network_details = record {
    self_node = self_node;
    nodes = self_node ∷ [];
    cryptosystem_details = record details { public_key = public_key };
    secret_key_shares = [];
  };
}

abbrev pub add_node : NetworkDetails → JoinRequest → NodeType → NetworkDetails
add_node details req kind = record details {
  nodes = details.nodes ++ record { ip = req.ip; port = req.port; kind = kind } ∷ [];
}

-- With no list of shares for the node, the vector is read out of bounds.
unfoldable pub handle_join_as_cofhe_node :
    JoinState → JoinRequest → JoinState × Outcome JoinResponse
handle_join_as_cofhe_node s req =
    if int_leb s.total_nodes s.current_node
    then (s, returned (error_response (codes "No more nodes can join")))
    else let joined : NetworkDetails = add_node s.network_details req cofhe_node in
      elim (get_elem? s.secret_key_shares s.current_node) [
        | none ↦ (record s { network_details = joined }, undefined)
        | some shares ↦ (
          record s { network_details = joined; current_node = (s.current_node + 1) % 2 ^ 32 },
          returned (cofhe_response ok s.public_key shares),
        )
      ]

unfoldable pub handle_join_as_compute_node :
    JoinState → JoinRequest → JoinState × Outcome JoinResponse
handle_join_as_compute_node s req = (
  record s { network_details = add_node s.network_details req compute_node },
  returned (compute_response ok),
)

-- the branch of a request type
abbrev pub handle_kind : JoinType → JoinState → JoinRequest → JoinState × Outcome JoinResponse
handle_kind join_as_cofhe_node s req = handle_join_as_cofhe_node s req
handle_kind join_as_compute_node s req = handle_join_as_compute_node s req
handle_kind (other_join_type n) s req =
    (s, returned (error_response (codes "Invalid request type")))

unfoldable pub handle_join : JoinState → JoinRequest → JoinState × Outcome JoinResponse
unfolding handle_join_as_cofhe_node handle_join_as_compute_node
handle_join s req = handle_kind req.kind s req

-- the requests that reach the setup node, in the order in which they take the mutex
unfoldable pub handle_joins : JoinState → List JoinRequest → JoinState × List (Outcome JoinResponse)
unfolding handle_join
handle_joins s [] = (s, [])
handle_joins s (req ∷ reqs) =
    let (s', res) = handle_join s req in let (s'', rest) = handle_joins s' reqs in (s'', res ∷ rest)
