-- ===== src/Smpc/Renewal.antt =====
-- The renewal of the clients in include/smpc/smpc_client.hpp: `reinit_partial_decryption_clients`, and the
-- number of a combination of nodes, by which the share for the combination is asked for.
pub mod Index
use co_fhe.Base.{
  ℕ, zero, suc, ◌+◌, ◌-◌, ◌*◌, ◌/◌, ◌^◌, Bool, true, false, ◌&&◌, ◌||◌, ltb, ◌==◌, if◌then◌else◌,
  Option, none, some, List, [], ◌∷◌, ◌++◌, length, get_elem?,
}
use co_fhe.Wire.Outcome.{
  Outcome, returned, thrown, undefined, terminated, ◌>>=◌, not_enough_clients,
}
use co_fhe.Node.Details.{NodeType, cofhe_node, NodeDetails}

-- A result that an `int` cannot hold is not defined.
abbrev pub int : ℕ → Outcome ℕ
int n = if ltb n (2 ^ 31) then returned n else undefined

-- `result *= (n - i + 1); result /= i;` for `rounds` numbers from i on, where i is at most n
unfoldable pub binomial_rounds : ℕ → ℕ → ℕ → ℕ → Outcome ℕ
binomial_rounds n i zero result = returned result
binomial_rounds n i (suc rounds) result = do
  product ← int (result * (n - i + 1))
  binomial_rounds n (suc i) rounds (product / i)

unfoldable pub binomial_coefficient : ℕ → ℕ → Outcome ℕ
unfolding binomial_rounds
binomial_coefficient n k =
    if ltb n k
    then returned 0
    else (if k == 0 || k == n then returned 1 else binomial_rounds n 1 k 1)

-- The inner loop, for `rounds` values of j. A negative n - j is less than any k, which is not negative.
unfoldable pub rank_rounds : ℕ → ℕ → ℕ → ℕ → ℕ → Outcome ℕ
unfolding binomial_coefficient
rank_rounds n k j zero rank = returned rank
rank_rounds n k j (suc rounds) rank = do
  count ← if ltb n j then returned 0 else binomial_coefficient (n - j) k
  sum ← int (rank + count)
  rank_rounds n k (suc j) rounds sum

abbrev pub element : List ℕ → ℕ → Outcome ℕ
element xs i = elim (get_elem? xs i) [ none ↦ undefined | some x ↦ returned x ]

-- `combination[i - 1] + 1`, and 1 for the first
abbrev pub start_of : List ℕ → ℕ → Outcome ℕ
start_of combination zero = returned 1
start_of combination (suc i) = do before ← element combination i; returned (before + 1)

-- The outer loop, for `left` positions from i on, of which k there are. The entries of the combination are
-- numbers of nodes, below 2^31, for which the conversions between `int` and `size_t` change nothing.
unfoldable pub rank_from : ℕ → ℕ → List ℕ → ℕ → ℕ → ℕ → Outcome ℕ
unfolding rank_rounds
rank_from n k combination i zero rank = returned rank
rank_from n k combination i (suc left) rank = do
  start ← start_of combination i
  end ← element combination i
  rank' ← rank_rounds n (k - i - 1) start (end - start) rank
  rank_from n k combination (suc i) left rank'

unfoldable pub combination_sequence_number : ℕ → ℕ → List ℕ → Outcome ℕ
unfolding rank_from
combination_sequence_number n k combination = do
  rank ← rank_from n k combination 0 k 0
  int (rank + 1)

abbrev pub is_cofhe_node : NodeDetails → Bool
is_cofhe_node node = elim node.kind [ cofhe_node ↦ true | _ ↦ false ]

-- What has been renewed so far: the clients, and `partial_decryption_clients`, whose entries are `++i`.
pub record Renewed (C : Type 0) : Type 0 where
  pub clients : List C
  pub combination : List ℕ
  pub i : ℕ

-- `connect` is the constructor of Network::Client. A node to which it throws is passed over.
abbrev pub add_client : {C : Type 0} → Renewed C → Outcome C → Outcome (Renewed C)
add_client s (returned c) = returned (record {
  clients = s.clients ++ c ∷ [];
  combination = s.combination ++ suc s.i ∷ [];
  i = suc s.i;
})
add_client s (thrown e) = returned s
add_client s undefined = undefined
add_client s terminated = terminated

module _ {C : Type 0} (connect : NodeDetails → Outcome C) (threshold : ℕ) where
  unfoldable pub renew : List NodeDetails → Renewed C → Outcome (Renewed C)
  renew [] s = returned s
  renew (node ∷ nodes) s =
      let added = add_client s (connect node) >>= renew nodes in
      if is_cofhe_node node && ltb (length s.clients) threshold then added else renew nodes s

  -- The nodes are those that the setup node tells of, `total_nodes` is what it tells of the network.
  -- Given are the clients and the index.
  unfoldable pub reinit_partial_decryption_clients : ℕ → List NodeDetails → Outcome (List C × ℕ)
  unfolding renew combination_sequence_number
  reinit_partial_decryption_clients total_nodes nodes = do
    s ← renew nodes (record { clients = []; combination = []; i = 0 })
    if ltb (length s.clients) threshold then thrown not_enough_clients else (do
      index ← combination_sequence_number total_nodes threshold s.combination
      returned (s.clients, index))
