-- ===== src/Base/Loops.antt =====
-- The counted loop `for (i = lo; i < lo + n; i++) s = body(i, s)`.
use Prim.Native.Nat.{ℕ, zero, suc, ◌+◌, ◌<◌}
use mathlib.Core.Path.{◌≡◌, refl, ◌∙◌}
use native.Mathlib.Omega.{arith}

module _ {ℓ} {S : Type ℓ} where
  unfoldable pub for_up : ℕ → ℕ → (ℕ → S → S) → S → S
  for_up lo zero body s = s
  for_up lo (suc n) body s = for_up (suc lo) n body (body lo s)

  -- What no round changes, the loop does not change.
  pub for_up_keeps {κ} :
      {B : Type κ} (view : S → B) (body : ℕ → S → S)
      → ((i : ℕ) (s : S) → view (body i s) ≡ view s)
      → (lo n : ℕ) (s : S) → view (for_up lo n body s) ≡ view s
  unfolding for_up
  for_up_keeps view body h lo zero s = refl
  for_up_keeps view body h lo (suc n) s = for_up_keeps view body h (suc lo) n (body lo s) ∙ h lo s

  -- The invariant rule of the loop.
  pub for_up_inv {κ} :
      (P : ℕ → S → Type κ) (body : ℕ → S → S)
      → ((i : ℕ) (s : S) → P i s → P (suc i) (body i s))
      → (n lo : ℕ) (s : S) → P lo s
      → (hi : ℕ) → hi ≡ lo + n
      → P hi (for_up lo n body s)
  unfolding for_up
  for_up_inv P body keep zero lo s h hi e = let e' : hi ≡ lo = omega arith in rw e' h
  for_up_inv P body keep (suc n) lo s h hi e =
      for_up_inv P body keep n (suc lo) (body lo s) (keep lo s h) hi (omega arith)

  -- The same, where a round may use that its index lies in the loop's range.
  pub for_up_range {κ} :
      (P : ℕ → S → Type κ) (body : ℕ → S → S) (hi : ℕ)
      → ((i : ℕ) (s : S) → i < hi → P i s → P (suc i) (body i s))
      → (n lo : ℕ) (s : S) → hi ≡ lo + n
      → P lo s
      → P hi (for_up lo n body s)
  unfolding for_up
  for_up_range P body hi keep zero lo s e h = let e' : hi ≡ lo = omega arith in rw e' h
  for_up_range P body hi keep (suc n) lo s e h =
      for_up_range P body hi keep n (suc lo) (body lo s) (omega arith) (keep lo s (omega arith) h)
