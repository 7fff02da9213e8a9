-- ===== src/Tensor/Accessor.antt =====
-- Accessor of include/common/tensor.hpp: a view of a storage, in sections, with a shape and for each
-- dimension how often it is repeated. The storage that accessors share is a value here. An exception that
-- leaves a function marked `noexcept` ends the program.
use co_fhe.Base.{
  ℕ, ◌+◌, ◌*◌, ◌/◌, ◌%◌, ltb, leb, ◌==◌, Bool, false, not, ◌||◌, if◌then◌else◌, none, some, List,
  [], ◌∷◌, map, length, get_elem?, get_or, set, drop,
}
use co_fhe.Wire.Outcome.{
  Outcome, returned, thrown, undefined, terminated, ◌>>=◌, out_of_range, stride_not_completed,
  index_out_of_range,
}
use co_fhe.Tensor.Stride.{word, Section, Position, origin, capacity, make_forward_stride}

pub record Accessor {ℓ} (A : Type ℓ) : Type ℓ where
  pub shape : List ℕ
  pub broadcast_degree : List ℕ
  pub sections : List Section
  pub strides : List ℕ
  pub storage : List A

-- calculate_stride
unfoldable pub calculate_stride : List ℕ → List ℕ → List ℕ
calculate_stride [] degree = []
calculate_stride (n ∷ []) degree = 1 ∷ []
calculate_stride (n ∷ m ∷ shape) degree =
    let rest = calculate_stride (m ∷ shape) (drop 1 degree) in
    (get_or rest 0 0 * (m / get_or degree 1 1)) % word ∷ rest

-- one_init_broadcast_degree
abbrev pub ones : List ℕ → List ℕ
ones = map (λ n. 1)

-- num_elements
unfoldable pub num_elements_from : ℕ → List ℕ → ℕ
num_elements_from nums [] = nums
num_elements_from nums (n ∷ shape) = num_elements_from ((nums * n) % word) shape

abbrev pub num_elements : List ℕ → ℕ
num_elements shape = num_elements_from 1 shape

-- `noexcept`
abbrev pub no_except {ℓ} : {A : Type ℓ} → Outcome A → Outcome A
no_except (returned a) = returned a
no_except (thrown e) = terminated
no_except undefined = undefined
no_except terminated = terminated

abbrev pub is_broadcasted : List ℕ → Bool
is_broadcasted [] = false
is_broadcasted (d ∷ degree) = not (d == 1) || is_broadcasted degree

abbrev pub has_zero : List ℕ → Bool
has_zero [] = false
has_zero (d ∷ degree) = d == 0 || has_zero degree

-- The sum of an index's strides, and the product that `set` has in its place.
abbrev pub stride_sum : ℕ → List ℕ → List ℕ → ℕ
stride_sum stride [] strides = stride
stride_sum stride (i ∷ index) strides =
    stride_sum ((stride + i * get_or strides 0 0) % word) index (drop 1 strides)

abbrev pub stride_product : ℕ → List ℕ → List ℕ → ℕ
stride_product stride [] strides = stride
stride_product stride (i ∷ index) strides =
    stride_product ((stride * (i * get_or strides 0 0)) % word) index (drop 1 strides)

module _ {ℓ} {A : Type ℓ} where
  -- the constructor from a storage, a shape and sections
  abbrev pub make_accessor : List A → List ℕ → List Section → Accessor A
  make_accessor storage shape sections = record {
    shape = shape;
    broadcast_degree = ones shape;
    sections = sections;
    strides = calculate_stride shape (ones shape);
    storage = storage;
  }

  -- the constructor from a storage alone
  abbrev pub whole : List ℕ → List A → Accessor A
  whole shape storage =
      make_accessor storage shape (record { start = 0; end = length storage } ∷ [])

  -- `storage_m->at(start_m[section] + consumed)`: the index that is read or written
  abbrev pub in_storage : Accessor A → Position → Outcome ℕ
  in_storage a p = elim (get_elem? a.sections p.section) [
    | none ↦ undefined
    | some s ↦
        let i = (s.start + p.consumed) % word in
        if ltb i (length a.storage) then returned i else thrown out_of_range
  ]

  abbrev pub completed : Accessor A → ℕ × Position → Outcome ℕ
  completed a (left, p) = if left == 0 then in_storage a p else thrown stride_not_completed

  abbrev pub cell : Accessor A → ℕ → Outcome ℕ
  cell a stride = completed a (make_forward_stride stride a.sections origin)

  abbrev pub of_column : Accessor A → ℕ → ℕ → Outcome ℕ
  of_column a index period = if period == 0 then undefined else cell a (index % period)

  -- the index in the storage of `at(index)`
  unfoldable pub locate : Accessor A → ℕ → Outcome ℕ
  unfolding make_forward_stride
  locate a index =
      if length a.shape == 1
      then no_except (of_column a index (get_or a.shape 0 0 / get_or a.broadcast_degree 0 1))
      else terminated

  -- of `at(row_index, column_index)`
  unfoldable pub locate_2d : Accessor A → ℕ → ℕ → Outcome ℕ
  unfolding make_forward_stride
  locate_2d a row column =
      if length a.shape == 2
      then no_except (cell a ((row * get_or a.strides 0 0 + column) % word))
      else terminated

  -- of `at(index)` where the index is a vector
  unfoldable pub locate_index : Accessor A → List ℕ → Outcome ℕ
  unfolding make_forward_stride
  locate_index a index =
      if length index == length a.shape
      then no_except (cell a (stride_sum 0 index a.strides))
      else terminated

  abbrev pub read : Accessor A → ℕ → Outcome A
  read a i = elim (get_elem? a.storage i) [ none ↦ undefined | some v ↦ returned v ]

  abbrev pub store : Accessor A → ℕ → A → Accessor A
  store a i v = record a { storage = set a.storage i v }

  unfoldable pub at : Accessor A → ℕ → Outcome A
  unfolding locate
  at a index = locate a index >>= read a

  -- `a.at(index) = v`
  unfoldable pub write : Accessor A → ℕ → A → Outcome (Accessor A)
  unfolding locate
  write a index v = locate a index >>= λ i. returned (store a i v)

  -- set(i, value)
  unfoldable pub set_element : Accessor A → ℕ → A → Outcome (Accessor A)
  unfolding make_forward_stride
  set_element a i v = no_except (cell a i >>= λ j. returned (store a j v))

  -- set(dim, value)
  unfoldable pub set_at : Accessor A → List ℕ → A → Outcome (Accessor A)
  unfolding make_forward_stride
  set_at a dim v =
      if length dim == length a.shape
      then (cell a (stride_product 1 dim a.strides) >>= λ j. returned (store a j v))
      else thrown out_of_range

  -- where the next value goes: at the end of a section, to the start of the next one
  abbrev pub value_position : Accessor A → Position → Position
  value_position a p = elim (get_elem? a.sections p.section) [
    | none ↦ p
    | some s ↦
        if p.consumed == capacity s then record { section = p.section + 1; consumed = 0 } else p
  ]

  unfoldable pub set_values_from : Accessor A → Position → List A → Outcome (Accessor A)
  set_values_from a p [] = returned a
  set_values_from a p (v ∷ values) =
      if leb (length a.sections) p.section
      then thrown index_out_of_range
      else (in_storage a (value_position a p) >>= λ j.
          set_values_from (store a j v)
            (record {
              section = (value_position a p).section;
              consumed = (value_position a p).consumed + 1;
            })
            values)

  -- set(offset, values)
  unfoldable pub set_values : Accessor A → ℕ → List A → Outcome (Accessor A)
  unfolding make_forward_stride set_values_from
  set_values a offset values =
      let (left, p) = make_forward_stride offset a.sections origin in
      if left == 0 then set_values_from a p values else thrown stride_not_completed
