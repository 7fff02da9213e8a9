-- ===== src/Pointers/Variables/Counted.antt =====
-- What a run of a program makes of its shared pointers and of the blocks behind them.
use co_fhe.Base.{
  ℕ, ◌+◌, ◌<◌, Option, some, List, [], ◌∷◌, ◌++◌, ◌>>=◌, length, length-append, length-set,
  get_elem?, get_elem?-set_ne, set, ◌≡◌, refl, ap, ◌∙◌, arith,
}
use co_fhe.Pointers.Block.{word, allocate}
use co_fhe.Pointers.Block.Counts.{empty-Counted, allocate-Counted}
use co_fhe.Pointers.Shared.{SharedPtr, null}
use co_fhe.Pointers.Shared.Keeps.{
  copy-Counted, destroy-Counted, copy_assign-Counted, move_assign-Counted, reset_new-Counted,
}
use co_fhe.Pointers.Variables.{
  Operation, constructs, copies, moves, assigns, move_assigns, resets, destroys, Memory, step, run,
  start,
}
use co_fhe.Pointers.Variables.Steps.{WellCounted, Goes, with_variable-Goes, itself-Goes}
use co_fhe.Pointers.Variables.Owners.{
  owners, owners-le-length, owners-append, owners-set, owners-two, Sound-get, Sound-set,
  Sound-append,
}

module _ (m : Memory) (w : WellCounted m) (small : length m.variables + 2 < word) where
  room : (c : ℕ) → owners m.variables c + 1 < word
  room c = omega (arith, owners-le-length m.variables c)

  constructs-Goes : (p : Option ℕ) → Goes (length m.variables) (step (constructs p) m)
  unfolding step allocate
  constructs-Goes p =
      let s : SharedPtr = record { ptr = p; control_block = some m.heap.next } in
      (
        _,
        refl,
        record {
          counted =
              allocate-Counted (owners m.variables) (owners (m.variables ++ s ∷ [])) m.heap
                w.counted (owners-append m.variables s);
          sound = Sound-append m.variables s w.sound λ e. cc;
        },
        omega (arith, length-append m.variables (s ∷ [])),
      )

  copies-Goes : (j : ℕ) → Goes (length m.variables) (step (copies j) m)
  unfolding step
  copies-Goes j = with_variable-Goes j m _ w λ other e.
      let (h, done, v) =
        copy-Counted (owners m.variables) (owners (m.variables ++ other ∷ [])) m.heap w.counted room
          other (λ c. omega (arith, owners-set m.variables j other null c e))
          (owners-append m.variables other) in
      (
        _,
        ap (λ r. r >>= λ x. some (record { variables = m.variables ++ x.0 ∷ []; heap = x.1 })) done,
        record {
          counted = v;
          sound = Sound-append m.variables other w.sound (Sound-get m.variables j other w.sound e);
        },
        omega (arith, length-append m.variables (other ∷ [])),
      )

  moves-Goes : (j : ℕ) → Goes (length m.variables) (step (moves j) m)
  unfolding step
  moves-Goes j = with_variable-Goes j m _ w λ other e.
      let left : List SharedPtr = set m.variables j null in
      let same : (c : ℕ) → owners (left ++ other ∷ []) c ≡ owners m.variables c =
        λ c. omega (arith, owners-append left other c, owners-set m.variables j other null c e) in
      (
        _,
        refl,
        record {
          counted = λ c. rw (same c) (w.counted c);
          sound =
              Sound-append left other (Sound-set m.variables j null w.sound λ _. refl)
                (Sound-get m.variables j other w.sound e);
        },
        omega (arith, length-append left (other ∷ []), length-set m.variables j null),
      )

  destroys-Goes : (j : ℕ) → Goes (length m.variables) (step (destroys j) m)
  unfolding step
  destroys-Goes j = with_variable-Goes j m _ w λ self e.
      let left : List SharedPtr = set m.variables j null in
      let (h, done, v) =
        destroy-Counted (owners m.variables) (owners left) m.heap w.counted room self
          (Sound-get m.variables j self w.sound e)
          (λ c. omega (arith, owners-set m.variables j self null c e)) in
      (
        _,
        ap (λ r. r >>= λ x. some (record { variables = left; heap = x })) done,
        record { counted = v; sound = Sound-set m.variables j null w.sound λ _. refl },
        omega (arith, length-set m.variables j null),
      )

  resets-Goes : (i p : ℕ) → Goes (length m.variables) (step (resets i p) m)
  unfolding step
  resets-Goes i p = with_variable-Goes i m _ w λ self e.
      let vs : List SharedPtr = m.variables in
      let (s, h, done, sound, v) =
        reset_new-Counted (owners vs) (owners (set vs i null)) m.heap w.counted room self
          (Sound-get vs i self w.sound e) (λ c. omega (arith, owners-set vs i self null c e)) p in
      (
        _,
        ap (λ r. r >>= λ x. some (record { variables = set vs i x.0; heap = x.1 })) done,
        record {
          counted =
              v (owners (set vs i s))
                λ c. omega (arith, owners-set vs i self null c e, owners-set vs i self s c e);
          sound = Sound-set vs i s w.sound sound;
        },
        omega (arith, length-set vs i s),
      )

  assigns-Goes : (i j : ℕ) → Goes (length m.variables) (step (assigns i j) m)
  unfolding step
  assigns-Goes i j = with_variable-Goes i m _ w λ self e. with_variable-Goes j m _ w λ other f.
      itself-Goes i j m _ w λ ne.
        let vs : List SharedPtr = m.variables in
        let (h, done, v) =
          copy_assign-Counted (owners vs) (owners (set vs i null)) (owners (set vs i other)) m.heap
            w.counted room self other (Sound-get vs i self w.sound e)
            (λ c. omega (arith, owners-set vs i self null c e))
            (λ c.
              omega (arith, owners-set vs i self null c e, owners-two vs i j self other c ne e f))
            (λ c. omega (arith, owners-set vs i self null c e, owners-set vs i self other c e)) in
        (
          _,
          ap (λ r. r >>= λ x. some (record { variables = set vs i x.0; heap = x.1 })) done,
          record {
            counted = v;
            sound = Sound-set vs i other w.sound (Sound-get vs j other w.sound f);
          },
          omega (arith, length-set vs i other),
        )

  move_assigns-Goes : (i j : ℕ) → Goes (length m.variables) (step (move_assigns i j) m)
  unfolding step
  move_assigns-Goes i j = with_variable-Goes i m _ w λ self e. with_variable-Goes j m _ w λ other f.
      itself-Goes i j m _ w λ ne.
        let vs : List SharedPtr = m.variables in
        let us : List SharedPtr = set vs i other in
        let found : get_elem? us j ≡ some other = get_elem?-set_ne vs other ne ∙ f in
        let same : (c : ℕ) → owners (set us j null) c ≡ owners (set vs i null) c = λ c. omega (
          arith,
          owners-set us j other null c found,
          owners-set vs i self null c e,
          owners-set vs i self other c e,
        ) in
        let (h, done, v) =
          move_assign-Counted (owners vs) (owners (set vs i null)) (owners us) m.heap w.counted room
            self other (Sound-get vs i self w.sound e)
            (λ c. omega (arith, owners-set vs i self null c e)) in
        (
          _,
          ap
              (λ r.
                r >>= λ x. some (record { variables = set (set vs i x.0.0) j x.0.1; heap = x.1 }))
              done,
          record {
            counted = λ c. rw (same c) (v c);
            sound =
                Sound-set us j null (Sound-set vs i other w.sound (Sound-get vs j other w.sound f))
                  λ _. refl;
          },
          omega (arith, length-set us j null, length-set vs i other),
        )

step-Goes :
    (o : Operation) (m : Memory)
    → WellCounted m
    → length m.variables + 2 < word
    → Goes (length m.variables) (step o m)
step-Goes (constructs p) m w small = constructs-Goes m w small p
step-Goes (copies j) m w small = copies-Goes m w small j
step-Goes (moves j) m w small = moves-Goes m w small j
step-Goes (assigns i j) m w small = assigns-Goes m w small i j
step-Goes (move_assigns i j) m w small = move_assigns-Goes m w small i j
step-Goes (resets i p) m w small = resets-Goes m w small i p
step-Goes (destroys j) m w small = destroys-Goes m w small j

run-from :
    (os : List Operation) (m : Memory)
    → WellCounted m
    → length os + length m.variables + 1 < word
    → (m' : Memory) × (run os m ≡ some m') × WellCounted m'
unfolding run
run-from [] m w small = (m, refl, w)
run-from (o ∷ os) m w small =
    let (m₁, e₁, w₁, grown) = step-Goes o m w (omega arith) in
    let (m₂, e₂, w₂) = run-from os m₁ w₁ (omega arith) in (m₂, ap (λ r. r >>= run os) e₁ ∙ e₂, w₂)

-- A run of fewer than 2 ^ 64 - 1 operations, none of them a reset to null, touches no deleted block, the
-- blocks' mutexes aside. After it each block's count is the number of the variables that own the block,
-- the block is freed when there is none, and its deleter was called once if it was made and is freed
-- and else not at all.
pub run-WellCounted :
    (os : List Operation)
    → length os + 1 < word
    → (m : Memory) × (run os start ≡ some m) × WellCounted m
run-WellCounted os small =
    run-from os start (record { counted = empty-Counted; sound = tt }) (omega arith)
