-- ===== src/Smpc/Triplets.antt =====
-- The Beaver triplets of SMPCClient in include/smpc/smpc_client.hpp: `get_beavers_triplets` hands out
-- what was fetched ahead, and fetches more when that is not enough. The mutex makes each call one step.
pub mod Fresh
use co_fhe.Base.{
  ℕ, ◌+◌, ◌-◌, ◌^◌, ◌%◌, Bool, true, leb, if◌then◌else◌, List, [], ◌∷◌, ◌++◌, length, take, drop,
}
use co_fhe.Wire.Outcome.{
  Outcome, returned, thrown, undefined, terminated, trusted_node_not_found, ◌>>=◌,
}

-- `connected` tells that `client_trusted_node_m` is not null.
pub record Cache (T : Type 0) : Type 0 where
  pub connected : Bool
  pub triplets : List T
  pub index : ℕ

-- `node` is the setup node behind the connection, with its state: it answers a request for triplets.
-- `cache_size` is the macro CACHE_SIZE.
module _ {T S : Type 0} (node : S → ℕ → S × Outcome (List T)) (cache_size : ℕ) where
  -- How many triplets are left, in `size_t`.
  abbrev pub stock : Cache T → ℕ
  stock c = (length c.triplets + 2 ^ 64 - c.index) % 2 ^ 64

  -- The stock first, and then what was fetched; the rest of that is the new stock. An answer without
  -- enough triplets is read out of bounds, and one that does not come through a null pointer.
  abbrev pub refill : Cache T → ℕ → Outcome (List T) → Cache T × Outcome (List T)
  refill c size (returned res) =
      let missing = size - stock c in
      if leb missing (length res)
      then (
        record { connected = c.connected; triplets = drop missing res; index = 0 },
        returned (drop c.index c.triplets ++ take missing res),
      )
      else (c, undefined)
  refill c size (thrown e) = (c, undefined)
  refill c size undefined = (c, undefined)
  refill c size terminated = (c, terminated)

  unfoldable pub get_beavers_triplets : S → Cache T → ℕ → S × (Cache T × Outcome (List T))
  get_beavers_triplets s c size =
      let (s', answer) = node s ((size + cache_size + 2 ^ 64 - stock c) % 2 ^ 64) in
      if c.connected
      then (if leb size (stock c)
          then (
            s,
            (
              record { connected = true; triplets = c.triplets; index = (c.index + size) % 2 ^ 64 },
              returned (take size (drop c.index c.triplets)),
            ),
          )
          else (s', refill c size answer))
      else (s, (c, thrown trusted_node_not_found))

  -- The triplets of several calls, one behind the other.
  unfoldable pub get_all : S → Cache T → List ℕ → Outcome (List T)
  unfolding get_beavers_triplets
  get_all s c [] = returned []
  get_all s c (size ∷ sizes) =
      let (s', (c', out)) = get_beavers_triplets s c size in
      do some_triplets ← out; others ← get_all s' c' sizes; returned (some_triplets ++ others)
