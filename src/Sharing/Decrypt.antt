-- ===== src/Sharing/Decrypt.antt =====
-- `compute_lambda`, `compute_d`, `partDecrypt` and `finalDecrypt` of
-- include/x86_64/cpu_cryptosystem_distributed.inl.
pub mod Combine
use co_fhe.Base.{
  ℕ, zero, suc, ◌≡◌, refl, true, false, if◌then◌else◌, Option, none, some, List, [], ◌∷◌, ◌++◌,
  length, get_elem?, for_up, ◌>>=◌,
}
use co_fhe.Bicycl.{Mpz, ClassGroup}

pub record CipherText (G : Type 0) : Type 0 where
  pub c1 : G
  pub c2 : G

module _ {Z G : Type 0} (z : Mpz Z) (cl : ClassGroup z G) where
  -- 1, and then -1 for each of the `t` rounds: one more entry than there are parties
  unfoldable pub compute_lambda : ℕ → List Z
  unfolding for_up
  compute_lambda t = for_up 0 t (λ _ lambda. lambda ++ z.minus_one ∷ []) (z.ulong 1 ∷ [])

  -- the loop over `ds`; `none` is a read of `lambda[i]` behind its end
  unfoldable pub d_loop : ℕ → List G → List Z → G → Option G
  d_loop i [] lambda d = some d
  d_loop i (x ∷ ds) lambda d = elim (get_elem? lambda i) [
    | none ↦ none
    | some l ↦ d_loop (suc i) ds lambda (cl.nucomp d (cl.nupow x l))
  ]

  unfoldable pub compute_d : List G → List Z → Option G
  unfolding d_loop
  compute_d ds lambda = d_loop 0 ds lambda cl.default_form

  unfoldable pub part_decrypt : CipherText G → Z → G
  part_decrypt ct ski =
      let di = cl.nupow ct.c1 ski in if cl.compact_variant then cl.to_delta di else di

  unfoldable pub final_decrypt : CipherText G → List G → Option Z
  unfolding compute_lambda compute_d
  final_decrypt ct ds = do
    d ← compute_d ds (compute_lambda (length ds))
    some (cl.dlog_in_f (cl.nucompinv ct.c2 d))
