-- ===== src/Wire/Outcome.antt =====
-- How a call ends: with a value, with an exception, with no behaviour that the language defines, as where
-- it reads a variable that nothing was stored in, or with the end of the program, as where an exception
-- leaves a function that is `noexcept`.
use co_fhe.Base.{◌≡◌, refl}

pub data Error : Type 0 where
  data_size_mismatch : Error
  out_of_range : Error
  invalid_node_type : Error
  invalid_cryptosystem_type : Error
  invalid_number_of_shares : Error
  trusted_node_not_found : Error
  not_enough_clients : Error
  shapes_not_equal shape_mismatch total_elements_mismatch empty_shape : Error
  data_size_not_shape : Error
  no_shape not_zero_degree zero_degree_reshape zero_degree_broadcast : Error
  stride_not_completed index_out_of_range : Error
  not_implemented too_many_dimensions vector_sizes_not_equal : Error

pub data Outcome {ℓ} (A : Type ℓ) : Type ℓ where
  returned : A → Outcome A
  thrown : Error → Outcome A
  undefined : Outcome A
  terminated : Outcome A

infixl 5 ◌>>=◌
abbrev pub ◌>>=◌ {ℓ κ} : {A : Type ℓ} {B : Type κ} → Outcome A → (A → Outcome B) → Outcome B
returned a >>= f = f a
thrown e >>= f = thrown e
undefined >>= f = undefined
terminated >>= f = terminated

pub >>=-eq-returned {ℓ κ} :
    {A : Type ℓ} {B : Type κ} (m : Outcome A) (f : A → Outcome B) {b : B}
    → (m >>= f) ≡ returned b
    → (a : A) × (m ≡ returned a) × (f a ≡ returned b)
>>=-eq-returned (returned a) f h = (a, refl, h)
>>=-eq-returned (thrown e) f h = cc
>>=-eq-returned undefined f h = cc
>>=-eq-returned terminated f h = cc
