-- ===== src/Tensor/Rows.antt =====
-- AccessorIterator of include/common/tensor.hpp, as the loops over the rows of an accessor use it, and
-- with it `copy`, `broadcast` and `reshape` of Accessor.
use co_fhe.Base.{
  ℕ, zero, suc, ◌+◌, ◌-◌, ◌*◌, ◌/◌, ◌%◌, ltb, leb, ◌==◌, if◌then◌else◌, none, some, List, [], ◌∷◌,
  ◌++◌, length, get_elem?, get_or, set, drop, take,
}
use co_fhe.Wire.Outcome.{
  Outcome, returned, thrown, undefined, terminated, ◌>>=◌, total_elements_mismatch,
}
use co_fhe.Tensor.Stride.{word, Section, Position, origin, make_forward_stride}
use co_fhe.Tensor.Accessor.{
  Accessor, calculate_stride, ones, num_elements, num_elements_from, is_broadcasted, has_zero,
  whole, at,
}

-- the sections of a row: from its start, the one at number `i` up to an end
abbrev pub start_at : ℕ → List Section → List Section
start_at consumed [] = []
start_at consumed (s ∷ sections) =
    record { start = (s.start + consumed) % word; end = s.end } ∷ sections

abbrev pub end_at : List Section → ℕ → ℕ → Outcome (List Section)
end_at sections i end = elim (get_elem? sections i) [
  | none ↦ undefined
  | some s ↦ returned (set sections i (record { start = s.start; end = end }))
]

-- the degrees of `broadcast`, where the shape has as many dimensions as the new one
abbrev pub degrees : List ℕ → List ℕ → List ℕ → Outcome (List ℕ)
degrees (n ∷ shape) (d ∷ degree) (m ∷ new_shape) =
    if n == 0
    then undefined
    else if m % n == 0
    then (degrees shape degree new_shape >>= λ rest. returned ((m / n * d) % word ∷ rest))
    else terminated
degrees shape degree new_shape = returned []

module _ {ℓ} {A : Type ℓ} where
  -- `*iterator`, at a position
  abbrev pub row_between : Accessor A → Position → ℕ × Position → Outcome (Accessor A)
  row_between a p (left, q) =
      if left == 0
      then elim (get_elem? a.sections q.section) [
        | none ↦ undefined
        | some s ↦
            end_at (start_at p.consumed (drop p.section a.sections)) q.section
              ((s.start + q.consumed) % word)
            >>= λ sections. returned (record {
              shape = drop 1 a.shape;
              broadcast_degree = drop 1 a.broadcast_degree;
              sections = sections;
              strides = calculate_stride (drop 1 a.shape) (drop 1 a.broadcast_degree);
              storage = a.storage;
            })
      ]
      else terminated

  unfoldable pub row : Accessor A → Position → Outcome (Accessor A)
  unfolding make_forward_stride calculate_stride
  row a p = row_between a p (make_forward_stride (get_or a.strides 0 0) a.sections p)

  -- how many rows there are before they repeat
  abbrev pub period : Accessor A → ℕ
  period a = get_or a.shape 0 0 / get_or a.broadcast_degree 0 1

  -- `++iterator`, where `remaining` elements are left behind it
  unfoldable pub next_row : Accessor A → ℕ → Position → Outcome Position
  unfolding make_forward_stride
  next_row a remaining p =
      if leb (period a) (get_or a.shape 0 0 - remaining)
      then returned origin
      else (let (left, q) = make_forward_stride (get_or a.strides 0 0) a.sections p in
          if left == 0 then returned q else terminated)

  -- `for (auto i : *this)`; `end` divides by the number of rows before they repeat
  unfoldable pub rows_from :
      (Accessor A → Outcome (List A)) → Accessor A → ℕ → Position → Outcome (List A)
  unfolding row next_row
  rows_from each a zero p = returned []
  rows_from each a (suc remaining) p = do
    r ← row a p
    xs ← each r
    q ← next_row a remaining p
    ys ← rows_from each a remaining q
    returned (xs ++ ys)

  unfoldable pub column_from : Accessor A → ℕ → ℕ → Outcome (List A)
  unfolding at
  column_from a i zero = returned []
  column_from a i (suc n) = do x ← at a i; xs ← column_from a (suc i) n; returned (x ∷ xs)

  -- `copy(new_storage)`, by the number of dimensions
  unfoldable pub copy_values : ℕ → Accessor A → Outcome (List A)
  unfolding rows_from column_from
  copy_values zero a = undefined
  copy_values (suc zero) a = column_from a 0 (get_or a.shape 0 0)
  copy_values (suc (suc n)) a =
      if period a == 0
      then undefined
      else rows_from (copy_values (suc n)) a (get_or a.shape 0 0) origin

  -- `copy()`
  unfoldable pub copy : Accessor A → Outcome (Accessor A)
  unfolding copy_values
  copy a = copy_values (length a.shape) a >>= λ values. returned (whole a.shape values)

  abbrev pub broadcast_by : Accessor A → List ℕ → List ℕ → Outcome (Accessor A)
  broadcast_by a new_shape degree =
      if has_zero (drop 1 degree)
      then undefined
      else returned (record a {
        shape = new_shape;
        broadcast_degree = degree;
        strides = calculate_stride new_shape degree;
      })

  -- A new dimension, in front of the old ones, is repeated. With fewer dimensions, the vector of the
  -- degrees is written outside its bounds.
  unfoldable pub broadcast : Accessor A → List ℕ → Outcome (Accessor A)
  unfolding calculate_stride
  broadcast a [] = terminated
  broadcast a (m ∷ new_shape) =
      let front = length (m ∷ new_shape) - length a.shape in
      if ltb (length (m ∷ new_shape)) (length a.shape)
      then undefined
      else (degrees a.shape a.broadcast_degree (drop front (m ∷ new_shape)) >>= λ degree.
          broadcast_by a (m ∷ new_shape) (take front (m ∷ new_shape) ++ degree))

  abbrev pub reshaped : List ℕ → Accessor A → Accessor A
  reshaped new_shape a = record a {
    shape = new_shape;
    broadcast_degree = ones new_shape;
    strides = calculate_stride new_shape (ones new_shape);
  }

  unfoldable pub reshape : Accessor A → List ℕ → Outcome (Accessor A)
  unfolding copy num_elements_from calculate_stride
  reshape a new_shape =
      if num_elements new_shape == num_elements a.shape
      then (if is_broadcasted a.broadcast_degree
          then (copy a >>= λ c. returned (reshaped new_shape c))
          else returned (reshaped new_shape a))
      else thrown total_elements_mismatch
