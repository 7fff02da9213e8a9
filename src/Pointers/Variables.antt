-- ===== src/Pointers/Variables.antt =====
-- A program's variables of type SharedPtr, and the operations of include/common/pointers.hpp on them.
pub mod Owners
pub mod Steps
pub mod Counted
use co_fhe.Base.{
  ℕ, ◌==◌, if◌then◌else◌, Option, none, some, List, [], ◌∷◌, ◌++◌, get_elem?, set, ◌>>=◌,
}
use co_fhe.Pointers.Block.{Heap, empty}
use co_fhe.Pointers.Shared.{
  SharedPtr, null, construct, copy, reset, destroy, copy_assign, move_assign,
}

pub data Operation : Type 0 where
  constructs : Option ℕ → Operation
  copies : ℕ → Operation
  moves : ℕ → Operation
  assigns : ℕ → ℕ → Operation
  move_assigns : ℕ → ℕ → Operation
  -- `reset(p)` with a pointer that is not null
  resets : ℕ → ℕ → Operation
  destroys : ℕ → Operation

-- The variables in the order in which they were constructed. One that was destroyed is a null pointer.
pub record Memory : Type 0 where
  pub variables : List SharedPtr
  pub heap : Heap

-- An operation on a variable that there is not does nothing.
abbrev pub with_variable : ℕ → Memory → (SharedPtr → Option Memory) → Option Memory
with_variable i m f = elim (get_elem? m.variables i) [ none ↦ some m | some s ↦ f s ]

unfoldable pub step : Operation → Memory → Option Memory
unfolding construct copy reset destroy copy_assign move_assign
step (constructs p) m =
    let (s, h) = construct p m.heap in some (record { variables = m.variables ++ s ∷ []; heap = h })
step (copies j) m = with_variable j m λ other. do
  (s, h) ← copy other m.heap
  some (record { variables = m.variables ++ s ∷ []; heap = h })
step (moves j) m =
    with_variable j m λ other. some (record m { variables = set m.variables j null ++ other ∷ [] })
step (assigns i j) m = with_variable i m λ self. with_variable j m λ other.
    if i == j then some m else (do
      (s, h) ← copy_assign self other m.heap
      some (record { variables = set m.variables i s; heap = h }))
step (move_assigns i j) m = with_variable i m λ self. with_variable j m λ other.
    if i == j then some m else (do
      ((s, o), h) ← move_assign self other m.heap
      some (record { variables = set (set m.variables i s) j o; heap = h }))
step (resets i p) m = with_variable i m λ self. do
  (s, h) ← reset (some p) self m.heap
  some (record { variables = set m.variables i s; heap = h })
step (destroys i) m = with_variable i m λ self. do
  h ← destroy self m.heap
  some (record { variables = set m.variables i null; heap = h })

unfoldable pub run : List Operation → Memory → Option Memory
unfolding step
run [] m = some m
run (o ∷ os) m = do m' ← step o m; run os m'

abbrev pub start : Memory
start = record { variables = []; heap = empty }
