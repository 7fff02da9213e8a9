-- ===== src/Sharing/Keygen.antt =====
-- `CPUCryptoSystem::keygen(sk, threshold, num_parties)` of
-- include/x86_64/cpu_cryptosystem_distributed.inl: the shares of each combination go to its parties.
pub mod First
pub mod Threshold
use co_fhe.Base.{
  ℕ, zero, suc, ◌+◌, ◌≡◌, refl, Option, none, some, List, [], ◌∷◌, ◌++◌, get_or, replicate, for_up,
  ◌>>=◌,
}
use co_fhe.Bicycl.{Mpz}
use co_fhe.Sharing.Choose.{ncr}
use co_fhe.Sharing.Combination.{get_next_lexio_combination}
use co_fhe.Sharing.Isp.{generate_isp, get_shares, compute_shares}

-- `v[p].push_back(x)`, for `p` within `v`
unfoldable pub push_at {ℓ} : {A : Type ℓ} → List (List A) → ℕ → A → List (List A)
push_at [] p x = []
push_at (xs ∷ v) zero x = (xs ++ x ∷ []) ∷ v
push_at (xs ∷ v) (suc p) x = xs ∷ push_at v p x

-- `for (i < n) c[i] = i`
abbrev pub count_up : ℕ → ℕ → List ℕ
count_up start zero = []
count_up start (suc n) = start ∷ count_up (suc start) n

module _ {Z : Type 0} (z : Mpz Z) where
  abbrev pub share_at : List (List Z) → ℕ → ℕ → Z
  share_at shares i j = get_or (get_or shares i []) j (z.ulong 0)

  -- one combination: `for (j < threshold) secret_key_shares[c[j]].push_back(shares[i][j])`
  unfoldable pub deal : List (List Z) → ℕ → ℕ → List ℕ → List (List Z) → List (List Z)
  unfolding for_up push_at
  deal shares threshold i c keys =
      for_up 0 threshold (λ j keys. push_at keys (get_or c j 0) (share_at shares i j)) keys

  -- the loop over the combinations; its state is the keys and the current combination
  unfoldable pub deal_round :
      List (List Z) → ℕ → ℕ → ℕ → List (List Z) × List ℕ → List (List Z) × List ℕ
  unfolding deal get_next_lexio_combination
  deal_round shares threshold num_parties i (keys, c) =
      (deal shares threshold i c keys, get_next_lexio_combination c num_parties threshold)

  unfoldable pub deal_all : List (List Z) → ℕ → ℕ → ℕ → List (List Z) × List ℕ
  unfolding deal_round for_up
  deal_all shares threshold num_parties combinations =
      for_up 0 combinations (deal_round shares threshold num_parties)
        (replicate num_parties [], count_up 0 num_parties)

  -- The two numbers are converted to `int` for `AccessStructure` and `nCr`. The conversion changes a number
  -- of 2^31 or more, and `ncr` gives no value for it.
  unfoldable pub keygen : Z → (ℕ → Z) → ℕ → ℕ → Option (List (List Z))
  unfolding deal_all generate_isp compute_shares ncr
  keygen sk random threshold num_parties = do
    isp ← generate_isp num_parties threshold
    let shares = get_shares z isp sk random
    combinations ← ncr num_parties threshold
    some (deal_all shares threshold num_parties combinations).0
