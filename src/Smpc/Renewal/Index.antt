-- ===== src/Smpc/Renewal/Index.antt =====
-- The clients that a renewal gives, and the index that it gives with them.
use co_fhe.Base.{
  ℕ, zero, suc, ◌+◌, ◌-◌, ◌<◌, Bool, true, false, ltb, if◌then◌else◌, Bool-cases, some, List, [],
  ◌∷◌, ◌++◌, append_assoc, append-nil, length, length-append, length-take, take, get_elem?, min,
  ◌≡◌, refl, sym, ap, ◌∙◌, arith, ℕ_discrete, inl, inr, ◌&&◌,
}
use co_fhe.Wire.Outcome.{
  Outcome, returned, thrown, undefined, terminated, ◌>>=◌, not_enough_clients,
}
use co_fhe.Node.Details.{NodeDetails}
use co_fhe.Smpc.Renewal.{
  element, start_of, rank_rounds, rank_from, combination_sequence_number, is_cofhe_node, Renewed,
  add_client, renew, reinit_partial_decryption_clients,
}

-- 1, ..., n
abbrev pub numbers : ℕ → List ℕ
numbers zero = []
numbers (suc n) = numbers n ++ suc n ∷ []

length-numbers : (n : ℕ) → length (numbers n) ≡ n
length-numbers zero = refl
length-numbers (suc n) = omega (arith, length-append (numbers n) (suc n ∷ []), length-numbers n)

get_elem?-append_left :
    (xs ys : List ℕ) (i : ℕ) → i < length xs → get_elem? (xs ++ ys) i ≡ get_elem? xs i
get_elem?-append_left [] ys i h = absurd (omega arith)
get_elem?-append_left (x ∷ xs) ys zero h = refl
get_elem?-append_left (x ∷ xs) ys (suc i) h = get_elem?-append_left xs ys i (omega arith)

get_elem?-append_last :
    (xs : List ℕ) (y i : ℕ) → i ≡ length xs → get_elem? (xs ++ y ∷ []) i ≡ some y
get_elem?-append_last [] y zero h = refl
get_elem?-append_last [] y (suc i) h = absurd (omega arith)
get_elem?-append_last (x ∷ xs) y zero h = absurd (omega arith)
get_elem?-append_last (x ∷ xs) y (suc i) h = get_elem?-append_last xs y i (omega arith)

get_elem?-numbers : (n i : ℕ) → i < n → get_elem? (numbers n) i ≡ some (suc i)
get_elem?-numbers zero i h = absurd (omega arith)
get_elem?-numbers (suc n) i h = elim (ℕ_discrete i n) [
  | yes e ↦
      get_elem?-append_last (numbers n) (suc n) i (omega (arith, length-numbers n))
      ∙ ap (λ k. some (suc k)) (sym e)
  | no ne ↦
      get_elem?-append_left (numbers n) (suc n ∷ []) i (omega (arith, length-numbers n))
      ∙ get_elem?-numbers n i (omega arith)
]

element-numbers : (k i : ℕ) → i < k → element (numbers k) i ≡ returned (suc i)
element-numbers k i h = rw (get_elem?-numbers k i h, element) refl

start_of-numbers : (k i : ℕ) → i < k → start_of (numbers k) i ≡ returned (suc i)
start_of-numbers k zero h = refl
start_of-numbers k (suc i) h =
    let next : suc i + 1 ≡ suc (suc i) = omega arith in
    ap (λ m. m >>= λ before. returned (before + 1)) (element-numbers k i (omega arith))
    ∙ ap returned next

-- No combination comes before that of the first numbers.
rank_from-numbers :
    (n k i left : ℕ) → i + left ≡ k → rank_from n k (numbers k) i left 0 ≡ returned 0
unfolding rank_from rank_rounds
rank_from-numbers n k i zero e = refl
rank_from-numbers n k i (suc left) e =
    let none_between : suc i - suc i ≡ 0 = omega arith in
    rw (start_of-numbers k i (omega arith), element-numbers k i (omega arith), none_between)
      (rank_from-numbers n k (suc i) left (omega arith))

combination_sequence_number-numbers :
    (n k : ℕ) → combination_sequence_number n k (numbers k) ≡ returned 1
unfolding combination_sequence_number
combination_sequence_number-numbers n k = rw (rank_from-numbers n k 0 k (omega arith)) refl

module _ {C : Type 0} (connect : NodeDetails → Outcome C) where
  -- The clients of the CoFHE nodes that can be reached.
  abbrev pub client_of : Outcome C → List C → List C
  client_of (returned c) cs = c ∷ cs
  client_of _ cs = cs

  abbrev pub reachable : List NodeDetails → List C
  reachable [] = []
  reachable (node ∷ nodes) =
      let rest = reachable nodes in
      if is_cofhe_node node then client_of (connect node) rest else rest

  -- Each connection is made, or throws an exception.
  abbrev pub IsSettled : Outcome C → Type 0
  IsSettled undefined = ⊥
  IsSettled terminated = ⊥
  IsSettled _ = Unit {0}

  abbrev pub AllSettled : List NodeDetails → Type 0
  AllSettled [] = Unit {0}
  AllSettled (node ∷ nodes) = IsSettled (connect node) × AllSettled nodes

  take-nil : (n : ℕ) → take {A = C} n [] ≡ []
  take-nil zero = refl
  take-nil (suc n) = refl

  abbrev renewed : List C → Renewed C
  renewed cs = record { clients = cs; combination = numbers (length cs); i = length cs }

  module _ (threshold : ℕ) where
    -- one node, where `b` tells whether it is a CoFHE node and `o` how the connection to it ends
    renew-step :
        (nodes : List NodeDetails) (cs : List C) (b : Bool) (o : Outcome C)
        → IsSettled o
        → ((ds : List C)
            → renew connect threshold nodes (renewed ds)
              ≡ returned (renewed (ds ++ take (threshold - length ds) (reachable nodes))))
        → (if b && ltb (length cs) threshold
            then add_client (renewed cs) o >>= renew connect threshold nodes
            else renew connect threshold nodes (renewed cs))
          ≡ returned (
              renewed (
                cs
                ++ take
                    (threshold - length cs)
                    (if b then client_of o (reachable nodes) else reachable nodes)))
    renew-step nodes cs false o h rest = rest cs
    renew-step nodes cs true undefined h rest = absurd h
    renew-step nodes cs true terminated h rest = absurd h
    renew-step nodes cs true (thrown e) h rest = elim (Bool-cases (ltb (length cs) threshold)) [
      | inl more ↦ rw more (rest cs)
      | inr done ↦ rw done (rest cs)
    ]
    renew-step nodes cs true (returned c) h rest = elim (Bool-cases (ltb (length cs) threshold)) [
      | inl more ↦
          let longer : length (cs ++ c ∷ []) ≡ suc (length cs) =
            omega (arith, length-append cs (c ∷ [])) in
          let left : threshold - length cs ≡ suc (threshold - suc (length cs)) = ground arith in
          let added : renewed (cs ++ c ∷ []) ≡ record {
            clients = cs ++ c ∷ [];
            combination = numbers (suc (length cs));
            i = suc (length cs);
          } =
            ap (λ n. record { clients = cs ++ c ∷ []; combination = numbers n; i = n }) longer in
          rw more (
            ap (renew connect threshold nodes) (sym added)
            ∙ rest (cs ++ c ∷ [])
            ∙ ap (λ l. returned (renewed l))
                (append_assoc cs (c ∷ [])
                    (take (threshold - length (cs ++ c ∷ [])) (reachable nodes))
                  ∙ ap (λ k. cs ++ c ∷ take (threshold - k) (reachable nodes)) longer
                  ∙ ap (λ k. cs ++ take k (c ∷ reachable nodes)) (sym left)))
      | inr done ↦
          let none_left : threshold - length cs ≡ 0 = ground arith in
          rw done (
            rest cs
            ∙ ap (λ k. returned (renewed (cs ++ take k (reachable nodes)))) none_left
            ∙ ap (λ k. returned (renewed (cs ++ take k (c ∷ reachable nodes)))) (sym none_left))
    ]

    renew-reachable :
        (nodes : List NodeDetails) (cs : List C)
        → AllSettled nodes
        → renew connect threshold nodes (renewed cs)
          ≡ returned (renewed (cs ++ take (threshold - length cs) (reachable nodes)))
    unfolding renew
    renew-reachable [] cs h =
        ap (λ l. returned (renewed l))
          (sym (ap (◌++◌ cs) (take-nil (threshold - length cs)) ∙ append-nil cs))
    renew-reachable (node ∷ nodes) cs (h, hs) =
        renew-step nodes cs (is_cofhe_node node) (connect node) h
          (λ ds. renew-reachable nodes ds hs)

    -- When each connection to a CoFHE node is made or throws an exception, the renewal throws if fewer
    -- of these nodes than the threshold can be reached, and else gives clients of the first ones that
    -- can, and always the index 1.
    pub reinit_partial_decryption_clients-reachable :
        (total_nodes : ℕ) (nodes : List NodeDetails)
        → AllSettled nodes
        → reinit_partial_decryption_clients connect threshold total_nodes nodes ≡ (
            if ltb (length (reachable nodes)) threshold
            then thrown not_enough_clients
            else returned (take threshold (reachable nodes), 1))
    unfolding reinit_partial_decryption_clients
    reinit_partial_decryption_clients-reachable total_nodes nodes h =
        let cs : List C = take threshold (reachable nodes) in
        let size : length cs ≡ min threshold (length (reachable nodes)) =
          length-take threshold (reachable nodes) in
        let all : threshold - 0 ≡ threshold = omega arith in
        let done : renew connect threshold nodes (renewed []) ≡ returned (renewed cs) =
          renew-reachable nodes [] h
          ∙ ap (λ k. returned (renewed (take k (reachable nodes)))) all in
        elim (Bool-cases (ltb (length (reachable nodes)) threshold)) [
          | inl few ↦
              let few' : ltb (length cs) threshold ≡ true = rw size (ground arith) in
              rw (done, few, few') refl
          | inr enough ↦
              let enough' : ltb (length cs) threshold ≡ false = rw size (ground arith) in
              let exactly : length cs ≡ threshold = size ∙ ground arith in
              rw
                (
                  done,
                  enough,
                  enough',
                  exactly,
                  combination_sequence_number-numbers total_nodes threshold,
                )
                refl
        ]
