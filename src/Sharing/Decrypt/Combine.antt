-- ===== src/Sharing/Decrypt/Combine.antt =====
-- The partial decryptions of one combination combine to the decryption under the whole secret key.
use co_fhe.Base.{
  ℕ, zero, suc, ◌+◌, ◌*◌, ◌≤◌, ◌<◌, ◌≡◌, refl, sym, ap, subst, ◌∙◌, if◌then◌else◌, some, List, [],
  ◌∷◌, ◌++◌, map, length, length-map, get_elem?, replicate, for_up_inv, ◌>>=◌, Bool-cases, inl, inr,
  arith,
}
use co_fhe.Bicycl.{Mpz, ClassGroup}
use co_fhe.Bicycl.Sums.{sum}
use co_fhe.Sharing.Span.{weight}
use co_fhe.Sharing.Isp.{Isp, sie_row, compute_share}
use co_fhe.Sharing.Isp.Reconstruct.{IsSplit, weighted_shares}
use co_fhe.Sharing.Decrypt.{
  CipherText, compute_lambda, d_loop, compute_d, part_decrypt, final_decrypt,
}

replicate_snoc {ℓ} : {A : Type ℓ} (n : ℕ) (a : A) → replicate n a ++ a ∷ [] ≡ replicate (suc n) a
replicate_snoc zero a = refl
replicate_snoc (suc n) a = ap (◌∷◌ a) (replicate_snoc n a)

get_elem?-replicate {ℓ} :
    {A : Type ℓ} (n i : ℕ) (a : A) → i < n → get_elem? (replicate n a) i ≡ some a
get_elem?-replicate zero i a h = absurd (omega arith)
get_elem?-replicate (suc n) zero a h = refl
get_elem?-replicate (suc n) (suc i) a h = get_elem?-replicate n i a (omega arith)

length-sie_row : (t start : ℕ) → length (sie_row t start) ≡ t
length-sie_row zero start = refl
length-sie_row (suc t) start = ap suc (length-sie_row t (suc start))

module _ {Z G : Type 0} (z : Mpz Z) (cl : ClassGroup z G) where
  lambda-replicate : (t : ℕ) → compute_lambda z cl t ≡ z.ulong 1 ∷ replicate t z.minus_one
  unfolding compute_lambda
  lambda-replicate t =
      for_up_inv (λ i l. l ≡ z.ulong 1 ∷ replicate i z.minus_one) (λ _ l. l ++ z.minus_one ∷ [])
        (λ i l h. rw h (ap (◌∷◌ (z.ulong 1)) (replicate_snoc i z.minus_one))) t 0 (z.ulong 1 ∷ [])
        refl t (omega arith)

  lambda-weight : (t i : ℕ) → i ≤ t → get_elem? (compute_lambda z cl t) i ≡ some (weight z i)
  lambda-weight t zero h = rw (lambda-replicate t)
  lambda-weight t (suc i) h =
      rw (lambda-replicate t) (get_elem?-replicate t i z.minus_one (omega arith))

  d_loop-cons :
      (i : ℕ) (x : G) (ds : List G) (lambda : List Z) (d : G) {l : Z}
      → get_elem? lambda i ≡ some l
      → d_loop z cl i (x ∷ ds) lambda d ≡ d_loop z cl (suc i) ds lambda (cl.nucomp d (cl.nupow x l))
  unfolding d_loop
  d_loop-cons i x ds lambda d e = rw (e, d_loop)

  abbrev base : CipherText G → G
  base ct = if cl.compact_variant then cl.to_delta ct.c1 else ct.c1

  part_decrypt-nupow : (ct : CipherText G) (s : Z) → part_decrypt z cl ct s ≡ cl.nupow (base ct) s
  unfolding part_decrypt
  part_decrypt-nupow ct s = elim (Bool-cases cl.compact_variant) [
    | inl e ↦ rw e (cl.to_delta-nupow ct.c1 s)
    | inr e ↦ rw e
  ]

  module _ (ct : CipherText G) (isp : Isp) (rho : ℕ → Z) (t start : ℕ) where
    abbrev share : ℕ → Z
    share i = compute_share z isp rho (some (start + i))

    abbrev weighted : ℕ → Z
    weighted i = z.mul (weight z i) (share i)

    -- the partial decryptions of the parties from the `i`th on
    abbrev parts : ℕ → ℕ → List G
    parts n i = map (part_decrypt z cl ct) (map (compute_share z isp rho) (sie_row n (start + i)))

    one_more :
        (i : ℕ) (e : Z)
        → cl.nucomp (cl.nupow (base ct) e) (cl.nupow (part_decrypt z cl ct (share i)) (weight z i))
          ≡ cl.nupow (base ct) (z.add e (weighted i))
    one_more i e =
        rw
          (
            part_decrypt-nupow ct (share i),
            cl.nupow-nupow (base ct) (share i) (weight z i),
            z.mul_comm (share i) (weight z i),
          )
          (sym (cl.nupow-add (base ct) e (weighted i)))

    loop-sum :
        (n i : ℕ)
        → i + n ≤ t
        → d_loop z cl i (parts n i) (compute_lambda z cl t) (cl.nupow (base ct) (sum z i weighted))
          ≡ some (cl.nupow (base ct) (sum z (i + n) weighted))
    unfolding d_loop sum
    loop-sum zero i h = ap (λ k. some (cl.nupow (base ct) (sum z k weighted))) (omega arith)
    loop-sum (suc n) i h =
        d_loop-cons i _ (map (part_decrypt z cl ct) (map (compute_share z isp rho) (sie_row n _))) _
          _ (lambda-weight t i (omega arith))
        ∙ rw (one_more i (sum z i weighted), next_row)
            (loop-sum n (suc i) (omega arith)
              ∙ ap (λ k. some (cl.nupow (base ct) (sum z k weighted))) (omega arith))
      where
        next_row : suc (start + i) ≡ start + suc i
        next_row = omega arith

    first_form :
        cl.nucomp cl.default_form (cl.nupow (part_decrypt z cl ct (share 0)) (z.ulong 1))
        ≡ cl.nupow (base ct) (sum z 1 weighted)
    unfolding sum
    first_form = rw (
      cl.default-nucomp (cl.nupow (part_decrypt z cl ct (share 0)) (z.ulong 1)),
      part_decrypt-nupow ct (share 0),
      cl.nupow-nupow (base ct) (share 0) (z.ulong 1),
      z.mul_comm (share 0) (z.ulong 1),
      z.zero-add (weighted 0),
    )

    first_step :
        (n : ℕ)
        → suc n ≤ t
        → d_loop z cl 0 (parts (suc n) 0) (compute_lambda z cl t) cl.default_form
          ≡ some (cl.nupow (base ct) (sum z (suc n) weighted))
    first_step n h =
        d_loop-cons 0 _ (map (part_decrypt z cl ct) (map (compute_share z isp rho) (sie_row n _))) _
          _ (lambda-weight t 0 (omega arith))
        ∙ rw (first_form, next_row)
            (loop-sum n 1 (omega arith)
              ∙ ap (λ k. some (cl.nupow (base ct) (sum z k weighted))) (omega arith))
      where
        next_row : suc (start + 0) ≡ start + 1
        next_row = omega arith

  abbrev combination : Isp → (ℕ → Z) → ℕ → ℕ → List Z
  combination isp rho t start = map (compute_share z isp rho) (sie_row t start)

  module _ (ct : CipherText G) (t k : ℕ) (isp : Isp) (rho : ℕ → Z) (q : ℕ) where
    abbrev pub partial : List G
    partial = map (part_decrypt z cl ct) (combination isp rho (suc t) (q * suc t))

    length-partial : length partial ≡ suc t
    length-partial =
        length-map (combination isp rho (suc t) (q * suc t)) (part_decrypt z cl ct)
        ∙ length-map (sie_row (suc t) (q * suc t)) (compute_share z isp rho)
        ∙ length-sie_row (suc t) (q * suc t)

    compute_d-partial :
        IsSplit z (suc t) k isp
        → q < k
        → compute_d z cl partial (compute_lambda z cl (length partial))
          ≡ some (part_decrypt z cl ct (rho 0))
    unfolding compute_d
    compute_d-partial v hq =
        rw
          (
            length-partial,
            part_decrypt-nupow ct (rho 0),
            ← weighted_shares z (suc t) k isp v rho q hq,
          )
          (subst
            (λ start.
              d_loop z cl 0 (map (part_decrypt z cl ct) (combination isp rho (suc t) start))
                (compute_lambda z cl (suc t)) cl.default_form
              ≡ some (cl.nupow (base ct) (sum z (suc t) (weighted ct isp rho (suc t) (q * suc t)))))
            {x = q * suc t + 0} {y = q * suc t} (omega arith)
            (first_step ct isp rho (suc t) (q * suc t) t (omega arith)))

    -- When the matrix splits the secret for each combination, combining the partial decryptions of the
    -- parties of any one combination gives what the secret key itself decrypts to.
    pub final_decrypt-combination :
        IsSplit z (suc t) k isp
        → q < k
        → final_decrypt z cl ct partial
          ≡ some (cl.dlog_in_f (cl.nucompinv ct.c2 (part_decrypt z cl ct (rho 0))))
    unfolding final_decrypt
    final_decrypt-combination v hq =
        ap (λ d. d >>= λ d. some (cl.dlog_in_f (cl.nucompinv ct.c2 d))) (compute_d-partial v hq)
