-- ===== src/Sharing/Keygen/Threshold.antt =====
-- From the keys that `keygen` deals to the plaintext that `finalDecrypt` returns.
use co_fhe.Base.{
  ℕ, zero, suc, ◌+◌, ◌-◌, ◌*◌, ◌^◌, lt→ltb, subst, ◌≤◌, ◌<◌, ◌≡◌, refl, sym, ap, ap₂, ◌∙◌, Option,
  none, some, ltb, if◌then◌else◌, ◌>>=◌, List, [], ◌∷◌, map, get_elem?, get_or, arith,
}
use co_fhe.Bicycl.{Mpz, ClassGroup}
use co_fhe.Sharing.Choose.{choose, ncr}
use co_fhe.Sharing.Choose.Exact.{NcrFits, ncr-choose, choose_pos}
use co_fhe.Sharing.Isp.{Isp, isp_of, generate_isp, sie_row, compute_share, compute_rho, get_shares}
use co_fhe.Sharing.Isp.Reconstruct.{isp_of-IsSplit, get_elem?-compute_shares}
use co_fhe.Sharing.Decrypt.{CipherText, part_decrypt, final_decrypt}
use co_fhe.Sharing.Decrypt.Combine.{final_decrypt-combination}
use co_fhe.Sharing.Keygen.{count_up, share_at, deal_all, keygen}
use co_fhe.Sharing.Keygen.First.{deal_all-first}

get_or-of_get_elem? {ℓ} :
    {A : Type ℓ} (xs : List A) (i : ℕ) (d : A) {a : A} → get_elem? xs i ≡ some a → get_or xs i d ≡ a
get_or-of_get_elem? [] i d h = cc
get_or-of_get_elem? (x ∷ xs) zero d h = cc
get_or-of_get_elem? (x ∷ xs) (suc i) d h = get_or-of_get_elem? xs i d h

-- the first share of each of the parties 0, …, threshold - 1
abbrev pub first_shares : {Z : Type 0} → Mpz Z → List (List Z) → ℕ → List Z
first_shares z keys threshold =
    map (λ p. get_or (get_or keys p []) 0 (z.ulong 0)) (count_up 0 threshold)

some-inj {ℓ} : {A : Type ℓ} {a b : A} → some a ≡ some b → a ≡ b
some-inj e = cc

module _ {Z : Type 0} (f : ℕ → Z) (g : Option ℕ → Z) where
  rows_agree :
      (n start : ℕ)
      → ((p : ℕ) → start ≤ p → p < start + n → f p ≡ g (some p))
      → map f (count_up start n) ≡ map g (sie_row n start)
  rows_agree zero start h = refl
  rows_agree (suc n) start h =
      ap₂ ◌∷◌ (h start (omega arith) (omega arith))
        (rows_agree n (suc start) (λ p lo hi. h p (omega arith) (omega arith)))

module _ {Z : Type 0} (g : Option ℕ → Z) (d : Z) where
  get_or-sie_row :
      (n start p : ℕ) → p < n → get_or (map g (sie_row n start)) p d ≡ g (some (start + p))
  get_or-sie_row zero start p h = absurd (omega arith)
  get_or-sie_row (suc n) start zero h = ap (λ i. g (some i)) (omega arith)
  get_or-sie_row (suc n) start (suc p) h =
      get_or-sie_row n (suc start) p (omega arith) ∙ ap (λ i. g (some i)) (omega arith)

module _ {Z : Type 0} (z : Mpz Z) (sk : Z) (random : ℕ → Z) (t k n : ℕ) (fits : suc t ≤ n) where
  abbrev isp : Isp
  isp = isp_of n (suc t) (suc k)

  abbrev rho : ℕ → Z
  rho = compute_rho z sk random

  abbrev shares : List (List Z)
  shares = get_shares z isp sk random

  abbrev share : Option ℕ → Z
  share = compute_share z isp rho

  share_at-first : (p : ℕ) → p < suc t → share_at z shares 0 p ≡ share (some p)
  share_at-first p hp =
      ap (λ row. get_or row p (z.ulong 0))
        (get_or-of_get_elem? shares 0 [] (
          get_elem?-compute_shares z (suc t) (suc k) isp (isp_of-IsSplit z n t k) rho 0
            (omega arith)))
      ∙ get_or-sie_row share (z.ulong 0) (suc t) (0 * suc t) p hp
      ∙ ap (λ i. share (some i)) (omega arith)

  first_shares-combination :
      first_shares z (deal_all z shares (suc t) n (suc k)).0 (suc t)
      ≡ map share (sie_row (suc t) (0 * suc t))
  first_shares-combination =
      rows_agree _ share (suc t) 0 (λ p lo hi.
        get_or-of_get_elem? _ 0 (z.ulong 0)
          (deal_all-first z shares (suc t) n fits k p (omega arith))
        ∙ share_at-first p (omega arith))
      ∙ ap (λ start. map share (sie_row (suc t) start)) (omega arith)

  generate_isp-isp_of :
      ncr n (suc t) ≡ some (suc k) → suc t * suc k < 2 ^ 31 → generate_isp n (suc t) ≡ some isp
  unfolding generate_isp
  generate_isp-isp_of e small =
      ap (λ m. m >>= λ c. if ltb (suc t * c) (2 ^ 31) then some (isp_of n (suc t) c) else none) e
      ∙ rw (lt→ltb (suc t * suc k) (2 ^ 31) small) refl

  keygen_lem :
      ncr n (suc t) ≡ some (suc k)
      → suc t * suc k < 2 ^ 31
      → keygen z sk random (suc t) n ≡ some (deal_all z shares (suc t) n (suc k)).0
  unfolding keygen
  keygen_lem e small = rw (generate_isp-isp_of e small, e) refl

-- What `keygen` counts is counted exactly: the combinations in `nCr`, and the rows of the distribution
-- matrix, which has one for each party of each combination, in an `int`.
abbrev pub KeygenFits : ℕ → ℕ → Type 0
KeygenFits n t = NcrFits n t × (t * choose n t < 2 ^ 31)

-- With a threshold between 1 and the number of parties, both below 2^31, a number of combinations that
-- `nCr` counts exactly, and rows of the distribution matrix that an `int` counts, `keygen` deals keys with which the first `threshold` parties, each using its first share,
-- decrypt a ciphertext to what the secret key itself decrypts it to.
pub keygen-decrypt :
    {Z G : Type 0} (z : Mpz Z) (cl : ClassGroup z G) (sk : Z) (random : ℕ → Z) (t n : ℕ)
    (ct : CipherText G)
    → suc t ≤ n
    → KeygenFits n (suc t)
    → (keys : List (List Z)) × (keygen z sk random (suc t) n ≡ some keys)
      × (final_decrypt z cl ct (map (part_decrypt z cl ct) (first_shares z keys (suc t)))
          ≡ some (cl.dlog_in_f (cl.nucompinv ct.c2 (part_decrypt z cl ct sk))))
keygen-decrypt z cl sk random t n ct h fits =
    let k = choose n (suc t) - 1 in
    let counted : choose n (suc t) ≡ suc k = omega (arith, choose_pos n (suc t) h) in
    let e : ncr n (suc t) ≡ some (suc k) = ncr-choose n (suc t) fits.0 ∙ ap some counted in
    let rows : suc t * suc k < 2 ^ 31 = subst (λ c. suc t * c < 2 ^ 31) counted fits.1 in
    (
      (deal_all z (shares z sk random t k n h) (suc t) n (suc k)).0,
      keygen_lem z sk random t k n h e rows,
      ap (λ xs. final_decrypt z cl ct (map (part_decrypt z cl ct) xs))
            (first_shares-combination z sk random t k n h)
          ∙ final_decrypt-combination z cl ct t (suc k) (isp z sk random t k n h)
              (compute_rho z sk random) 0 (isp_of-IsSplit z n t k) (omega arith),
    )

-- Each of the first `threshold` parties has a share.
pub keygen-first :
    {Z : Type 0} (z : Mpz Z) (sk : Z) (random : ℕ → Z) (t n : ℕ)
    → suc t ≤ n
    → KeygenFits n (suc t)
    → (keys : List (List Z)) → keygen z sk random (suc t) n ≡ some keys
    → (p : ℕ) → p < suc t
    → (x : Z) × (get_elem? (get_or keys p []) 0 ≡ some x)
keygen-first {Z = Z} z sk random t n h fits keys made p hp =
    let k = choose n (suc t) - 1 in
    let counted : choose n (suc t) ≡ suc k = omega (arith, choose_pos n (suc t) h) in
    let e : ncr n (suc t) ≡ some (suc k) = ncr-choose n (suc t) fits.0 ∙ ap some counted in
    let rows : suc t * suc k < 2 ^ 31 = subst (λ c. suc t * c < 2 ^ 31) counted fits.1 in
    let dealt : List (List Z) = (deal_all z (shares z sk random t k n h) (suc t) n (suc k)).0 in
    let same : dealt ≡ keys = some-inj (sym (keygen_lem z sk random t k n h e rows) ∙ made) in
    (
      share_at z (shares z sk random t k n h) 0 p,
      ap (λ ks. get_elem? (get_or ks p []) 0) (sym same)
          ∙ deal_all-first z (shares z sk random t k n h) (suc t) n h k p hp,
    )
