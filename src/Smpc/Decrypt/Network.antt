-- ===== src/Smpc/Decrypt/Network.antt =====
-- Decryption in a network whose first nodes have the keys that the setup node deals.
use co_fhe.Base.{
  ℕ, zero, suc, ◌≤◌, ◌<◌, ◌≡◌, refl, sym, ap, ap₂, ◌∙◌, fun_ext, Option, none, some, List, [], ◌∷◌,
  map, take, length, get_elem?, get_or, arith,
}
use co_fhe.Bicycl.{Mpz, ClassGroup}
use co_fhe.Wire.Outcome.{Outcome, returned, undefined}
use co_fhe.Sharing.Decrypt.{CipherText, part_decrypt, final_decrypt}
use co_fhe.Sharing.Keygen.{count_up, keygen}
use co_fhe.Sharing.Keygen.Threshold.{KeygenFits, first_shares, keygen-decrypt, keygen-first}
use co_fhe.Node.CofheNode.{CryptoSystem}
use co_fhe.Smpc.Decrypt.{ClientSystem, decrypt}
use co_fhe.Smpc.Decrypt.Combined.{one_more, shares_at, Readable, decrypt-combines}

map-count_up {ℓ} :
    {A : Type ℓ} (f : ℕ → A) (start n : ℕ)
    → map f (count_up (suc start) n) ≡ map (λ p. f (suc p)) (count_up start n)
map-count_up f start zero = refl
map-count_up f start (suc n) = ap (◌∷◌ (f (suc start))) (map-count_up f (suc start) n)

module _ {ℓ} {A : Type ℓ} (d : A) where
  none-some : {x : A} → none ≡ some x → ⊥
  none-some e = cc

  get_or-first : (shares : List A) {x : A} → get_elem? shares 0 ≡ some x → get_or shares 0 d ≡ x
  get_or-first [] e = absurd (none-some e)
  get_or-first (a ∷ shares) e = cc

  -- If the first nodes have a first share, these are the shares at index 0.
  shares_at-first :
      (n : ℕ) (nodes : List (List A))
      → ((p : ℕ) → p < n → (x : A) × (get_elem? (get_or nodes p []) 0 ≡ some x))
      → shares_at 0 (take n nodes) ≡ some (map (λ p. get_or (get_or nodes p []) 0 d) (count_up 0 n))
  shares_at-first zero nodes h = refl
  shares_at-first (suc n) [] h = absurd (let (x, e) = h 0 (omega arith) in none-some e)
  shares_at-first (suc n) (shares ∷ nodes) h =
      let (x, e) = h 0 (omega arith) in
      ap₂ one_more e (shares_at-first n nodes (λ p hp. h (suc p) (omega arith)))
      ∙ ap₂ (λ a rest. some (a ∷ rest)) (sym (get_or-first shares e))
          (sym (map-count_up (λ p. get_or (get_or (shares ∷ nodes) p []) 0 d) 0 n))

-- A list with something in it stands within the lists.
get_or-inside {ℓ} :
    {A : Type ℓ} (nodes : List (List A)) (p : ℕ) (x : A)
    → get_elem? (get_or nodes p []) 0 ≡ some x
    → p < length nodes
get_or-inside [] p x e = absurd (none-some x e)
get_or-inside (shares ∷ nodes) zero x e = omega arith
get_or-inside (shares ∷ nodes) (suc p) x e = grind (arith, get_or-inside nodes p x e)

-- the result of `finalDecrypt`, whose reads out of bounds have no defined behaviour
abbrev pub outcome {ℓ} : {A : Type ℓ} → Option A → Outcome A
outcome none = undefined
outcome (some a) = returned a

module _ {Z G Tensor PartTensor : Type 0} (z : Mpz Z) (cl : ClassGroup z G)
    (cs : CryptoSystem Z (CipherText G) Tensor G PartTensor)
    (client : ClientSystem (CipherText G) G Z) (ct : CipherText G) where
  -- The threshold cryptosystem is that of class groups.
  pub record ClassGroups : Type 0 where
    pub parts : (share : Z) → cs.part_decrypt share ct ≡ part_decrypt z cl ct share
    pub combines :
        (parts : List G)
        → client.combine_part_decryption_results ct parts ≡ outcome (final_decrypt z cl ct parts)

  -- With a threshold between 1 and the number of parties, both below 2^31, a number of combinations that
  -- `nCr` counts exactly, and rows of the distribution matrix that an `int` counts, a client that has the
  -- nodes with the parties' keys for its clients, and asks for the first shares, decrypts a ciphertext to
  -- what the secret key decrypts it to, if the texts between them can be read.
  pub decrypt-network :
      (renewal : Outcome (List (List Z) × ℕ)) (sk : Z) (random : ℕ → Z) (t n : ℕ)
      → suc t ≤ n
      → KeygenFits n (suc t)
      → ClassGroups
      → Readable cs client 0 ct
      → (keys : List (List Z)) × (keygen z sk random (suc t) n ≡ some keys)
        × (decrypt cs client renewal (suc t) 0 keys ct
            ≡ returned (cl.dlog_in_f (cl.nucompinv ct.c2 (part_decrypt z cl ct sk))))
  decrypt-network renewal sk random t n h fits groups texts =
      let (keys, made, decrypts) = keygen-decrypt z cl sk random t n ct h fits in
      let firsts = keygen-first z sk random t n h fits keys made in
      let many : suc t ≤ length keys =
        get_or-inside keys t (firsts t (omega arith)).0 (firsts t (omega arith)).1 in
      let chosen : shares_at 0 (take (suc t) keys) ≡ some (first_shares z keys (suc t)) =
        shares_at-first (z.ulong 0) (suc t) keys firsts in
      (
        keys,
        made,
        decrypt-combines cs client 0 ct texts renewal (suc t) keys (first_shares z keys (suc t))
              many chosen
            ∙ ap (client.combine_part_decryption_results ct)
                (ap (λ f. map f (first_shares z keys (suc t))) (fun_ext groups.parts))
            ∙ groups.combines (map (part_decrypt z cl ct) (first_shares z keys (suc t)))
            ∙ ap outcome decrypts,
      )
