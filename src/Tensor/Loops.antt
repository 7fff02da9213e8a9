-- ===== src/Tensor/Loops.antt =====
-- The loops of include/x86_64/cpu_cryptosystem_tensor_ops.inl: a tensor of pointers, null at first, gets
-- a new object at each index. A null pointer is `none`.
pub mod Filled
pub mod Tables
use co_fhe.Base.{ℕ, zero, suc, Option, none, some, List}
use co_fhe.Wire.Outcome.{Outcome, returned, undefined, ◌>>=◌}
use co_fhe.Tensor.Accessor.{Accessor, num_elements, at, write}
use co_fhe.Tensor.Class.{Tensor, shape, filled, flatten, reshape_tensor}

module _ {ℓ} {A : Type ℓ} where
  abbrev pub pointed : Option A → Outcome A
  pointed none = undefined
  pointed (some x) = returned x

  -- `*t[i]`
  unfoldable pub object : Accessor (Option A) → ℕ → Outcome A
  unfolding at
  object a i = at a i >>= pointed

  -- `res[j] = new A(make(j))`, for `n` indices from `i` on
  unfoldable pub fill_from :
      (ℕ → Outcome A) → ℕ → ℕ → Accessor (Option A) → Outcome (Accessor (Option A))
  unfolding write
  fill_from make i zero res = returned res
  fill_from make i (suc n) res = do
    x ← make i
    res' ← write res i (some x)
    fill_from make (suc i) n res'

  -- A tensor of a shape, made as a vector: null pointers, flattened, filled, and given the shape.
  unfoldable pub fill : List ℕ → ℕ → (ℕ → Outcome A) → Outcome (Tensor (Option A))
  unfolding filled flatten fill_from reshape_tensor
  fill res_shape n make = do
    res ← filled res_shape none
    flat ← flatten res 0
    a ← fill_from make 0 n flat.accessor
    reshape_tensor (record flat { accessor = a }) res_shape
