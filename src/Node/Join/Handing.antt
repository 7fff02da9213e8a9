-- ===== src/Node/Join/Handing.antt =====
-- The shares are handed out in order, each list once, and then no more.
use co_fhe.Base.{
  ◌≢◌, ℕ, zero, suc, ◌+◌, ◌^◌, ◌%◌, ◌≤◌, ◌<◌, ◌≡◌, refl, sym, ap, ◌∙◌, subst, true, false, some,
  List, [], ◌∷◌, ◌++◌, map, length, length-map, take, drop, get_elem?, Bytes, codes, dec_le, arith,
}
use co_fhe.Wire.Enums.{Status, ok}
use co_fhe.Wire.RequestTypes.{JoinType, join_as_cofhe_node, join_as_compute_node, other_join_type}
use co_fhe.Wire.Outcome.{Outcome, returned, thrown, undefined, terminated}
use co_fhe.Node.Details.{cofhe_node, CryptoSystemDetails, NodeDetails}
use co_fhe.Node.JoinText.{JoinRequest, JoinResponse, cofhe_response, error_response}
use co_fhe.Node.Join.{
  JoinState, int_leb, init, add_node, handle_join_as_cofhe_node, handle_join_as_compute_node,
  handle_kind, handle_join, handle_joins,
}

-- The state of a setup node with keys for every node, of less than 2^31.
pub record Ready (s : JoinState) : Type 0 where
  pub small : s.total_nodes < 2 ^ 31
  pub keys : length s.secret_key_shares ≡ s.total_nodes
  pub joined : s.current_node ≤ s.total_nodes

-- the shares that a response hands out
abbrev pub shares_in : Status → JoinType → List Bytes → List (List Bytes)
shares_in ok join_as_cofhe_node shares = shares ∷ []
shares_in status type shares = []

abbrev pub keys_of : Outcome JoinResponse → List (List Bytes)
keys_of (returned r) = shares_in r.header.result r.header.response_type r.secret_key_shares
keys_of (thrown e) = []
keys_of undefined = []
keys_of terminated = []

abbrev pub handed : List (Outcome JoinResponse) → List (List Bytes)
handed [] = []
handed (res ∷ rest) = keys_of res ++ handed rest

abbrev pub asks : JoinType → ℕ
asks join_as_cofhe_node = 1
asks join_as_compute_node = 0
asks (other_join_type n) = 0

-- how many of the requests are to join as a CoFHE node
abbrev pub asked : List JoinRequest → ℕ
asked [] = 0
asked (req ∷ reqs) = asks req.kind + asked reqs

abbrev pub left_shares : JoinState → List (List Bytes)
left_shares s = drop s.current_node s.secret_key_shares

one_plus : (n : ℕ) → 1 + n ≡ suc n
one_plus n = omega arith

plus_one : (n : ℕ) → n + 1 ≡ suc n
plus_one n = omega arith

zero_plus : (n : ℕ) → n ≡ 0 + n
zero_plus n = omega arith

module _ {ℓ} {A : Type ℓ} where
  drop_all : (n : ℕ) (xs : List A) → length xs ≤ n → drop n xs ≡ []
  drop_all zero [] h = refl
  drop_all zero (x ∷ xs) h = absurd (omega arith)
  drop_all (suc n) [] h = refl
  drop_all (suc n) (x ∷ xs) h = drop_all n xs (omega arith)

  take_nil : (n : ℕ) → take {A = A} n [] ≡ []
  take_nil zero = refl
  take_nil (suc n) = refl

  drop_step :
      (n : ℕ) (xs : List A)
      → n < length xs
      → (x : A) × (get_elem? xs n ≡ some x) × (drop n xs ≡ x ∷ drop (suc n) xs)
  drop_step n [] h = absurd (omega arith)
  drop_step zero (x ∷ xs) h = (x, refl, refl)
  drop_step (suc n) (x ∷ xs) h = drop_step n xs (omega arith)

  take_one : (n : ℕ) (x : A) (xs : List A) → take (1 + n) (x ∷ xs) ≡ x ∷ take n xs
  take_one n x xs = ap (λ m. take m (x ∷ xs)) (one_plus n)

int_leb-true : (a b : ℕ) → b < 2 ^ 31 → a ≤ b → int_leb a b ≡ true
int_leb-true a b small h = ground arith

int_leb-false : (a b : ℕ) → a < 2 ^ 31 → b < a → int_leb a b ≡ false
int_leb-false a b small h = ground arith

no_wrap : (n : ℕ) → n < 2 ^ 31 → (n + 1) % 2 ^ 32 ≡ n + 1
no_wrap n h = omega arith

module _ (s : JoinState) (req : JoinRequest) (ready : Ready s) where
  full :
      s.total_nodes ≤ s.current_node
      → handle_join_as_cofhe_node s req
        ≡ (s, returned (error_response (codes "No more nodes can join")))
  unfolding handle_join_as_cofhe_node
  full h =
      rw (int_leb-true s.total_nodes s.current_node (omega (arith, ready.small, ready.joined)) h)

  abbrev after : JoinState
  after = record s {
    network_details = add_node s.network_details req cofhe_node;
    current_node = s.current_node + 1;
  }

  free :
      (shares : List Bytes)
      → s.current_node < s.total_nodes
      → get_elem? s.secret_key_shares s.current_node ≡ some shares
      → handle_join_as_cofhe_node s req ≡ (after, returned (cofhe_response ok s.public_key shares))
  unfolding handle_join_as_cofhe_node
  free shares h e = rw (
    int_leb-false s.total_nodes s.current_node ready.small h,
    e,
    no_wrap s.current_node (omega (arith, ready.small)),
  )

  -- What one request hands out is the next of the lists that are left, and leaves the others.
  abbrev Steps : JoinState × Outcome JoinResponse → ℕ → Type 0
  Steps (s', res) k =
      Ready s'
      × ((n : ℕ) → keys_of res ++ take n (left_shares s') ≡ take (k + n) (left_shares s))
      × (res ≢ undefined)

  abbrev keys : List (List Bytes)
  keys = s.secret_key_shares

  full-left :
      s.total_nodes ≤ s.current_node
      → (n : ℕ) → take n (left_shares s) ≡ take (1 + n) (left_shares s)
  full-left h n =
      let none_left : drop s.current_node keys ≡ [] =
        drop_all s.current_node keys (omega (arith, h, ready.keys)) in
      ap (take n) none_left
      ∙ take_nil n
      ∙ sym (take_nil (1 + n))
      ∙ ap (take (1 + n)) (sym none_left)

  free-left :
      (shares : List Bytes)
      → left_shares s ≡ shares ∷ drop (suc s.current_node) keys
      → (n : ℕ) → shares ∷ take n (drop (s.current_node + 1) keys) ≡ take (1 + n) (left_shares s)
  free-left shares d n =
      ap (λ m. shares ∷ take n (drop m keys)) (plus_one s.current_node)
      ∙ sym (take_one n shares (drop (suc s.current_node) keys))
      ∙ ap (take (1 + n)) (sym d)

  cofhe-Steps : Steps (handle_join_as_cofhe_node s req) 1
  cofhe-Steps = elim (dec_le s.total_nodes s.current_node) [
    | yes h ↦ subst (λ p. Steps p 1) (sym (full h)) (ready, full-left h, (λ e. cc))
    | no h ↦
        let fits : s.current_node < s.total_nodes = omega (arith, h) in
        let (shares, e, d) = drop_step s.current_node keys (omega (arith, fits, ready.keys)) in
        subst (λ p. Steps p 1) (sym (free shares fits e))
          (
            record { small = ready.small; keys = ready.keys; joined = omega (arith, fits) },
            free-left shares d,
            (λ e. cc),
          )
  ]

  kind-Steps : (kind : JoinType) → Steps (handle_kind kind s req) (asks kind)
  unfolding handle_join_as_compute_node
  kind-Steps join_as_cofhe_node = cofhe-Steps
  kind-Steps join_as_compute_node = (
    record { small = ready.small; keys = ready.keys; joined = ready.joined },
    (λ n. ap (λ m. take m (left_shares s)) (zero_plus n)),
    (λ e. cc),
  )
  kind-Steps (other_join_type n) =
      (ready, (λ n. ap (λ m. take m (left_shares s)) (zero_plus n)), (λ e. cc))

-- A setup node with keys for every node stays one, whatever it is asked.
pub handle_joins-Ready :
    (s : JoinState) (reqs : List JoinRequest) → Ready s → Ready (handle_joins s reqs).0
unfolding handle_joins handle_join
handle_joins-Ready s [] ready = ready
handle_joins-Ready s (req ∷ reqs) ready =
    handle_joins-Ready (handle_kind req.kind s req).0 reqs (kind-Steps s req ready req.kind).0

-- The lists of shares that a setup node with keys for every node hands out, in the order of its answers,
-- are the first of those that were left: one for each request to join as a CoFHE node, as long as there are any. So no list goes
-- to two nodes.
pub handed-handle_joins :
    (s : JoinState) (reqs : List JoinRequest)
    → Ready s
    → handed (handle_joins s reqs).1 ≡ take (asked reqs) (left_shares s)
unfolding handle_joins handle_join
handed-handle_joins s [] ready = refl
handed-handle_joins s (req ∷ reqs) ready =
    let (next, hands, _) = kind-Steps s req ready req.kind in
    ap (λ rest. keys_of (handle_kind req.kind s req).1 ++ rest)
      (handed-handle_joins (handle_kind req.kind s req).0 reqs next)
    ∙ hands (asked reqs)

abbrev pub AllDefined : List (Outcome JoinResponse) → Type 0
AllDefined [] = Unit {0}
AllDefined (res ∷ rest) = (res ≢ undefined) × AllDefined rest

-- No answer of a setup node with keys for every node reads behind the end of the list of keys.
pub handle_joins-AllDefined :
    (s : JoinState) (reqs : List JoinRequest) → Ready s → AllDefined (handle_joins s reqs).1
unfolding handle_joins handle_join
handle_joins-AllDefined s [] ready = tt
handle_joins-AllDefined s (req ∷ reqs) ready =
    let (next, _, defined) = kind-Steps s req ready req.kind in
    (defined, handle_joins-AllDefined (handle_kind req.kind s req).0 reqs next)

module _ {ℓ} {Share : Type ℓ} (serialize : Share → Bytes) (details : CryptoSystemDetails)
    (self : NodeDetails) (public_key : Bytes) (sk_shares : List (List Share)) where
  pub init-Ready :
      details.total_nodes < 2 ^ 31
      → length sk_shares ≡ details.total_nodes
      → Ready (init serialize details self public_key sk_shares)
  unfolding init
  init-Ready small count = record {
    small = omega (arith, small);
    keys = length-map sk_shares (map serialize) ∙ count ∙ omega (arith, small);
    joined = omega arith;
  }

  -- A setup node for `total_nodes` nodes, less than 2^31, with a list of shares for each, hands out these
  -- lists in their order, one for each request to join as a CoFHE node, until there are no more.
  pub handed-init :
      (reqs : List JoinRequest)
      → details.total_nodes < 2 ^ 31
      → length sk_shares ≡ details.total_nodes
      → handed (handle_joins (init serialize details self public_key sk_shares) reqs).1
        ≡ take (asked reqs) (map (map serialize) sk_shares)
  unfolding init
  handed-init reqs small count =
      handed-handle_joins (init serialize details self public_key sk_shares) reqs
        (init-Ready small count)
