-- ===== src/Pointers/Tests.antt =====
-- Runs of small programs with shared pointers.
use co_fhe.Base.{ℕ, ◌≡◌, refl, arith, Option, none, some, List, [], ◌∷◌, map, ◌>>=◌}
use co_fhe.Pointers.Block.{Heap, empty, allocate, increment, decrement, call_deleter}
use co_fhe.Pointers.Block.Counts.{owns, Counted, empty-Counted, allocate-Counted}
use co_fhe.Pointers.Shared.{reset, destroy, use_count}
use co_fhe.Pointers.Shared.Dangling.{reset-destroy}
use co_fhe.Pointers.Variables.{
  Operation, constructs, copies, moves, assigns, move_assigns, resets, destroys, Memory, run, start,
}
use co_fhe.Pointers.Variables.Steps.{WellCounted}
use co_fhe.Pointers.Variables.Counted.{run-WellCounted}

-- Two objects, of which the first is shared, moved and let go of; and then all the rest.
abbrev sharing : List Operation
sharing =
    constructs (some 7) ∷ constructs (some 8) ∷ copies 0 ∷ moves 0 ∷ assigns 2 1 ∷ destroys 3 ∷ []

abbrev ending : List Operation
ending = resets 2 9 ∷ move_assigns 1 2 ∷ destroys 1 ∷ destroys 2 ∷ []

abbrev counts : Option Memory → Option (List ℕ)
unfolding use_count
counts m = m >>= λ k. some (map (λ s. use_count s k.heap) k.variables)

abbrev log : Option Memory → Option (List (ℕ × Option ℕ))
log m = m >>= λ k. some k.heap.deleted

counts_test : counts (run sharing start) ≡ some (0 ∷ 2 ∷ 2 ∷ 0 ∷ [])
unfolding run counts allocate increment decrement call_deleter
counts_test = refl

log_test : log (run sharing start) ≡ some ((0, some 7) ∷ [])
unfolding run allocate increment decrement call_deleter
log_test = refl

ending_test :
    log (run sharing start >>= run ending) ≡ some ((2, some 9) ∷ (1, some 8) ∷ (0, some 7) ∷ [])
unfolding run allocate increment decrement call_deleter
ending_test = refl

run-WellCounted_example : (m : Memory) × (run sharing start ≡ some m) × WellCounted m
run-WellCounted_example = run-WellCounted sharing (omega arith)

one_owner : Counted (owns (some 0)) (allocate empty).1
unfolding allocate
one_owner = allocate-Counted (λ c. 0) (owns (some 0)) empty empty-Counted (λ c. omega arith)

reset-destroy_example :
    (h' : Heap) × (reset none (record { ptr = some 7; control_block = some 0 }) (allocate empty).1
      ≡ some (record { ptr = none; control_block = some 0 }, h'))
    × (destroy (record { ptr = none; control_block = some 0 }) h' ≡ none)
reset-destroy_example =
    reset-destroy (owns (some 0)) (λ c. 0) 0 (some 7) (allocate empty).1 one_owner (omega arith)
      (λ c. omega arith) refl
