-- ===== src/Node/Details.antt =====
-- The data of include/node/network_details.hpp.
use co_fhe.Base.{ℕ, List, Bytes}

pub data NodeType : Type 0 where
  setup_node cofhe_node compute_node client_node : NodeType

pub record NodeDetails : Type 0 where
  pub ip : Bytes
  pub port : Bytes
  pub kind : NodeType

pub data CryptoSystemType : Type 0 where
  cofhe_cpu : CryptoSystemType

pub record CryptoSystemDetails : Type 0 where
  pub kind : CryptoSystemType
  pub public_key : Bytes
  pub security_level : ℕ
  pub k : ℕ
  pub threshold : ℕ
  pub total_nodes : ℕ

pub record NetworkDetails : Type 0 where
  pub self_node : NodeDetails
  pub nodes : List NodeDetails
  pub cryptosystem_details : CryptoSystemDetails
  pub secret_key_shares : List Bytes
