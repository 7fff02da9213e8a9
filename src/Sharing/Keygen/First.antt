-- ===== src/Sharing/Keygen/First.antt =====
-- The first share of each of the first `threshold` parties is its share in the first combination, so
-- these parties decrypt together with their first shares.
use co_fhe.Base.{
  ℕ, zero, suc, ◌+◌, ◌≤◌, ◌<◌, ◌≡◌, refl, ap, ◌∙◌, if◌then◌else◌, ◌==◌, ltb, ◌&&◌, Option, some,
  List, [], ◌∷◌, ◌++◌, length, get_elem?, get_or, replicate, length-replicate, for_up_range, for_up,
  for_up_inv, dec_lt, arith,
}
use co_fhe.Bicycl.{Mpz}
use co_fhe.Sharing.Keygen.{push_at, count_up, share_at, deal, deal_round, deal_all}

module _ {ℓ} {A : Type ℓ} where
  length-push_at : (v : List (List A)) (p : ℕ) (x : A) → length (push_at v p x) ≡ length v
  unfolding push_at
  length-push_at [] p x = refl
  length-push_at (xs ∷ v) zero x = refl
  length-push_at (xs ∷ v) (suc p) x = ap suc (length-push_at v p x)

  get_or-push_at :
      (v : List (List A)) (p : ℕ) (x : A) (j : ℕ)
      → get_or (push_at v p x) j []
        ≡ (if p == j && ltb j (length v) then get_or v j [] ++ x ∷ [] else get_or v j [])
  unfolding push_at
  get_or-push_at [] p x j = ground arith
  get_or-push_at (xs ∷ v) zero x zero = ground arith
  get_or-push_at (xs ∷ v) zero x (suc j) = ground arith
  get_or-push_at (xs ∷ v) (suc p) x zero = ground arith
  get_or-push_at (xs ∷ v) (suc p) x (suc j) = ground (arith, get_or-push_at v p x j)

  -- the first entry of the `j`th list
  abbrev pub first : List (List A) → ℕ → Option A
  first v j = get_elem? (get_or v j []) 0

  first-append :
      (xs ys : List A) {a : A} → get_elem? xs 0 ≡ some a → get_elem? (xs ++ ys) 0 ≡ some a
  first-append [] ys h = cc
  first-append (x ∷ xs) ys h = h

  first-push_at :
      (v : List (List A)) (p : ℕ) (x : A) (j : ℕ) {a : A}
      → first v j ≡ some a
      → first (push_at v p x) j ≡ some a
  first-push_at v p x j h =
      rw (get_or-push_at v p x j) (ground (arith, first-append (get_or v j []) (x ∷ []) h))

get_or-count_up : (start n j : ℕ) → j < n → get_or (count_up start n) j 0 ≡ start + j
get_or-count_up start zero j h = absurd (omega arith)
get_or-count_up start (suc n) zero h = omega arith
get_or-count_up start (suc n) (suc j) h = omega (arith, get_or-count_up (suc start) n j)

get_or-replicate {ℓ} : {A : Type ℓ} (n j : ℕ) → get_or {A = List A} (replicate n []) j [] ≡ []
get_or-replicate zero j = refl
get_or-replicate (suc n) zero = refl
get_or-replicate (suc n) (suc j) = get_or-replicate n j

module _ {Z : Type 0} (z : Mpz Z) (shares : List (List Z)) (t n : ℕ) (fits : t ≤ n) where
  -- after `j` rounds of the first combination
  record Dealt (j : ℕ) (keys : List (List Z)) : Type 0 where
    count : length keys ≡ n
    dealt : (p : ℕ) → p < j → first keys p ≡ some (share_at z shares 0 p)
    rest : (p : ℕ) → j ≤ p → get_or keys p [] ≡ []

  deal_one :
      (j : ℕ) (keys : List (List Z))
      → j < t
      → Dealt j keys
      → Dealt (suc j) (push_at keys (get_or (count_up 0 n) j 0) (share_at z shares 0 j))
  deal_one j keys h d =
      let at_j : get_or (count_up 0 n) j 0 ≡ j = omega (arith, get_or-count_up 0 n j) in
      rw at_j (record {
        count = length-push_at keys j _ ∙ d.count;
        dealt = λ p hp. elim (dec_lt p j) [
          | yes before ↦ first-push_at keys j _ p (d.dealt p before)
          | no now ↦
              let e : p ≡ j = omega arith in
              rw (e, get_or-push_at keys j (share_at z shares 0 j) j)
                (ground (arith, d.rest j (omega arith), d.count))
        ];
        rest = λ p hp.
            ground (arith, get_or-push_at keys j (share_at z shares 0 j) p, d.rest p (omega arith));
      })

  first_deal : Dealt t (deal z shares t 0 (count_up 0 n) (replicate n []))
  unfolding deal
  first_deal =
      for_up_range Dealt
        (λ j keys. push_at keys (get_or (count_up 0 n) j 0) (share_at z shares 0 j)) t deal_one t 0
        (replicate n []) (omega arith)
        (record {
          count = length-replicate n [];
          dealt = λ p h. elim h [ ];
          rest = λ p _. get_or-replicate n p;
        })

  deal-first :
      (i : ℕ) (c : List ℕ) (keys : List (List Z)) (p : ℕ) {a : Z}
      → first keys p ≡ some a
      → first (deal z shares t i c keys) p ≡ some a
  unfolding deal
  deal-first i c keys p {a} h =
      for_up_inv (λ _ keys. first keys p ≡ some a)
        (λ j keys. push_at keys (get_or c j 0) (share_at z shares i j))
        (λ j keys e. first-push_at keys (get_or c j 0) _ p e) t 0 keys h t (omega arith)

  -- The first round deals the first shares, and no later round moves them.
  pub deal_all-first :
      (k p : ℕ) → p < t → first (deal_all z shares t n (suc k)).0 p ≡ some (share_at z shares 0 p)
  unfolding deal_all deal_round for_up
  deal_all-first k p hp =
      for_up_inv (λ _ s. first s.0 p ≡ some (share_at z shares 0 p)) (deal_round z shares t n)
        (λ i s h. deal-first i s.1 s.0 p h) k 1 _ (first_deal.dealt p hp) (suc k) (omega arith)
