-- ===== src/Tensor/Class.antt =====
-- Storage and Tensor of include/common/tensor.hpp.
use co_fhe.Base.{
  ℕ, ◌*◌, ◌%◌, ◌^◌, ltb, ◌==◌, Bool, true, false, ◌||◌, if◌then◌else◌, List, [], ◌∷◌, ◌++◌, length,
  take, drop, replicate,
}
use co_fhe.Wire.Outcome.{
  Outcome, returned, thrown, undefined, ◌>>=◌, no_shape, not_zero_degree, zero_degree_reshape,
  zero_degree_broadcast, data_size_not_shape,
}
use co_fhe.Tensor.Accessor.{
  Accessor, calculate_stride, num_elements_from, num_elements, no_except, whole, at,
}
use co_fhe.Tensor.Rows.{broadcast, reshape}

-- The product of a shape in an `int`, as its pattern of 32 bits.
unfoldable pub int_product : ℕ → List ℕ → ℕ
int_product n [] = n
int_product n (m ∷ shape) = int_product ((n * m) % 2 ^ 32) shape

pub record Tensor {ℓ} (A : Type ℓ) : Type ℓ where
  pub accessor : Accessor A
  pub is_zero_degree : Bool

module _ {ℓ} {A : Type ℓ} where
  -- Tensor(value)
  unfoldable pub of_value : A → Tensor A
  unfolding calculate_stride
  of_value v = record { accessor = whole (1 ∷ []) (v ∷ []); is_zero_degree = true }

  -- Tensor(shape, value), by Storage(shape, value). A negative size is too large for a vector.
  unfoldable pub filled : List ℕ → A → Outcome (Tensor A)
  unfolding calculate_stride int_product
  filled shape v =
      let n = int_product 1 shape in
      if ltb n (2 ^ 31)
      then returned (record { accessor = whole shape (replicate n v); is_zero_degree = false })
      else thrown data_size_not_shape

  -- Tensor(shape, values), by the constructor of Storage from these, which is `noexcept`; the capacity of
  -- the vector of the values is an argument.
  unfoldable pub of_values : ℕ → List ℕ → List A → Outcome (Tensor A)
  unfolding calculate_stride num_elements_from
  of_values capacity shape values =
      if num_elements shape == length values || num_elements shape == capacity
      then returned (record { accessor = whole shape values; is_zero_degree = false })
      else no_except (thrown data_size_not_shape)

  unfoldable pub shape : Tensor A → Outcome (List ℕ)
  shape t = if t.is_zero_degree then thrown no_shape else returned t.accessor.shape

  abbrev pub ndim : Tensor A → ℕ
  ndim t = length t.accessor.shape

  unfoldable pub get_value : Tensor A → Outcome A
  unfolding at
  get_value t = if t.is_zero_degree then at t.accessor 0 else thrown not_zero_degree

  abbrev pub on_accessor : Tensor A → Outcome (Accessor A) → Outcome (Tensor A)
  on_accessor t m = m >>= λ a. returned (record t { accessor = a })

  unfoldable pub reshape_tensor : Tensor A → List ℕ → Outcome (Tensor A)
  unfolding reshape
  reshape_tensor t new_shape =
      if t.is_zero_degree
      then thrown zero_degree_reshape
      else on_accessor t (reshape t.accessor new_shape)

  unfoldable pub broadcast_tensor : Tensor A → List ℕ → Outcome (Tensor A)
  unfolding broadcast
  broadcast_tensor t new_shape =
      if t.is_zero_degree
      then thrown zero_degree_broadcast
      else on_accessor t (broadcast t.accessor new_shape)

  -- flatten(start_dim)
  unfoldable pub flatten : Tensor A → ℕ → Outcome (Tensor A)
  unfolding reshape num_elements_from
  flatten t start_dim =
      if t.is_zero_degree
      then returned t
      else (if ltb (length t.accessor.shape) start_dim
          then undefined
          else on_accessor t (
              reshape t.accessor (
                take start_dim t.accessor.shape
                ++ num_elements (drop start_dim t.accessor.shape) ∷ [])))
