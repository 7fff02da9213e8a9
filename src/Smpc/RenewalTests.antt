-- ===== src/Smpc/RenewalTests.antt =====
-- A renewal of the clients of a network of three nodes, of which the first cannot be reached.
use co_fhe.Base.{◌≡◌, refl, List, [], ◌∷◌, Bytes, codes}
use co_fhe.Wire.Outcome.{Outcome, returned, thrown, out_of_range}
use co_fhe.Node.Details.{NodeType, setup_node, cofhe_node, NodeDetails}
use co_fhe.Smpc.Renewal.{
  reinit_partial_decryption_clients, combination_sequence_number, binomial_coefficient,
}
use co_fhe.Smpc.Renewal.Index.{reinit_partial_decryption_clients-reachable}

abbrev node : NodeType → Bytes → NodeDetails
node kind port = record { ip = codes "::1"; port = port; kind = kind }

abbrev network : List NodeDetails
network =
    node setup_node (1 ∷ [])
    ∷ node cofhe_node (2 ∷ 2 ∷ [])
    ∷ node cofhe_node (3 ∷ [])
    ∷ node cofhe_node (4 ∷ [])
    ∷ []

-- A client is the port that it is connected to, if that has one digit.
abbrev connect_port : Bytes → Outcome Bytes
connect_port (p ∷ q ∷ ports) = thrown out_of_range
connect_port port = returned port

abbrev connect : NodeDetails → Outcome Bytes
connect n = connect_port n.port

-- The clients are those of the second and the third node, and the index is that of the renewal.
reinit_partial_decryption_clients-reachable_example :
    reinit_partial_decryption_clients connect 2 3 network ≡ returned ((3 ∷ []) ∷ (4 ∷ []) ∷ [], 1)
reinit_partial_decryption_clients-reachable_example =
    reinit_partial_decryption_clients-reachable connect 2 3 network (tt, (tt, (tt, (tt, tt))))

-- The numbers of the combinations of two of three nodes.
numbers_test :
    (combination_sequence_number 3 2 (1 ∷ 2 ∷ []) ≡ returned 1)
    × (combination_sequence_number 3 2 (1 ∷ 3 ∷ []) ≡ returned 2)
    × (combination_sequence_number 3 2 (2 ∷ 3 ∷ []) ≡ returned 3)
unfolding combination_sequence_number
numbers_test = (refl, refl, refl)

binomial_test : binomial_coefficient 6 2 ≡ returned 15
unfolding binomial_coefficient
binomial_test = refl
