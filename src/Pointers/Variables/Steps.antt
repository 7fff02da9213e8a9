-- ===== src/Pointers/Variables/Steps.antt =====
-- The invariant of a program's memory of shared pointers, and the two tests that its operations start with.
use co_fhe.Base.{
  Bool, ℕ, ◌+◌, ◌≤◌, Option, none, some, length, get_elem?, Option-cases, ◌≡◌, ◌≢◌, refl, sym, ap,
  ◌∙◌, subst, arith, ℕ_discrete, ◌==◌, if◌then◌else◌, inl, inr,
}
use co_fhe.Pointers.Block.Counts.{Counted, beq_ne, beq_refl}
use co_fhe.Pointers.Shared.{SharedPtr}
use co_fhe.Pointers.Variables.{Memory, with_variable}
use co_fhe.Pointers.Variables.Owners.{owners, Sound}

-- Every block counts the variables that own it and is freed when there are none; the deleter of a block
-- that was made was called once by then and not before; a variable without a block is null.
pub record WellCounted (m : Memory) : Type 0 where
  pub counted : Counted (owners m.variables) m.heap
  pub sound : Sound m.variables

-- A step that goes on, from a memory of so many variables.
abbrev pub Goes : ℕ → Option Memory → Type 0
Goes size r = (m' : Memory) × (r ≡ some m') × WellCounted m' × (length m'.variables ≤ size + 1)

pub with_variable-Goes :
    (i : ℕ) (m : Memory) (f : SharedPtr → Option Memory)
    → WellCounted m
    → ((s : SharedPtr) → get_elem? m.variables i ≡ some s → Goes (length m.variables) (f s))
    → Goes (length m.variables) (with_variable i m f)
with_variable-Goes i m f w go =
    let after : Option SharedPtr → Type 0 =
      λ o. Goes (length m.variables) (elim o [ none ↦ some m | some s ↦ f s ]) in
    elim (Option-cases (get_elem? m.variables i)) [
      | inl e ↦ subst after (sym e) (m, refl, w, omega arith)
      | inr (s, e) ↦ subst after (sym e) (go s e)
    ]

-- Assignment to the variable itself does nothing.
pub itself-Goes :
    (i j : ℕ) (m : Memory) (assigned : Option Memory)
    → WellCounted m
    → (i ≢ j → Goes (length m.variables) assigned)
    → Goes (length m.variables) (if i == j then some m else assigned)
itself-Goes i j m assigned w go =
    let after : Bool → Type 0 = λ t. Goes (length m.variables) (if t then some m else assigned) in
    elim (ℕ_discrete i j) [
      | yes e ↦ subst after (sym (ap (λ k. k == j) e ∙ beq_refl j)) (m, refl, w, omega arith)
      | no ne ↦ subst after (sym (beq_ne i j ne)) (go ne)
    ]
