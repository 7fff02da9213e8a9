-- ===== src/Tensor/Tests.antt =====
-- Tensors of numbers, and tensors of ciphertexts that are integers.
use co_fhe.Base.{ℕ, ◌-◌, ◌*◌, ◌^◌, ◌<◌, ◌≡◌, refl, some, List, [], ◌∷◌, length, get_elem?, arith}
use co_fhe.Base.Int.{ℤ, pos, negsuc, ◌+ℤ◌, ◌-ℤ◌, ◌*ℤ◌, zero-+ℤ, int_laws}
use co_fhe.Bicycl.Integers.{additive}
use co_fhe.Sharing.Decrypt.{CipherText}
use co_fhe.Wire.Outcome.{returned, undefined, ◌>>=◌}
use co_fhe.Tensor.Stride.{Section, origin, make_forward_stride}
use co_fhe.Tensor.Stride.Landing.{make_forward_stride-lands}
use co_fhe.Tensor.Accessor.{Accessor, whole, calculate_stride, locate_index, set_at, at}
use co_fhe.Tensor.Rows.{copy, broadcast}
use co_fhe.Tensor.Nupow.{Power, get_doubled, qfi_nupow}
use co_fhe.Tensor.Nupow.Cached.{Right, get_doubled-Right}
use co_fhe.Tensor.RowMajor.{locate_index-whole, set_at-elsewhere}
use co_fhe.Tensor.Ciphers.{encrypt_tensor, decrypt_tensor, scal_ciphertext_tensors, power}
use co_fhe.Tensor.Ciphers.Elementwise.{full, decrypt_tensor-encrypt_tensor}

abbrev two_sections : List Section
two_sections = record { start = 10; end = 13 } ∷ record { start = 20; end = 25 } ∷ []

-- Two cells into the second section.
make_forward_stride-lands_example :
    make_forward_stride 5 two_sections origin ≡ (0, record { section = 1; consumed = 2 })
make_forward_stride-lands_example =
    make_forward_stride-lands (record { start = 10; end = 13 } ∷ [])
      (record { start = 20; end = 25 }) [] 2 ((omega arith, omega arith), tt)
      (omega arith, omega arith) (omega arith) (omega arith) (omega arith)

-- At the end of the first section, which is no cell of it.
boundary_run : make_forward_stride 3 two_sections origin ≡ (0, record { section = 0; consumed = 3 })
unfolding make_forward_stride
boundary_run = refl

abbrev numbers : List ℕ
numbers = 0 ∷ 1 ∷ 2 ∷ 3 ∷ 4 ∷ 5 ∷ []

locate_index-whole_example :
    (locate_index (whole (2 ∷ 3 ∷ []) numbers) (1 ∷ 2 ∷ []) ≡ returned 5) × (5 < length numbers)
locate_index-whole_example =
    locate_index-whole (2 ∷ 3 ∷ []) (1 ∷ 2 ∷ []) numbers (omega arith, (omega arith, tt)) refl
      (omega arith)

set_at-elsewhere_example :
    (a : Accessor ℕ) × (set_at (whole (2 ∷ 3 ∷ []) numbers) (1 ∷ 1 ∷ []) 9 ≡ returned a)
    × (get_elem? a.storage 3 ≡ some 9)
    × (get_elem? a.storage 4 ≡ some 4)
set_at-elsewhere_example =
    set_at-elsewhere 2 3 1 1 numbers 9 (omega arith) (omega arith) (omega arith) (omega arith)

abbrev three : List ℕ
three = 7 ∷ 8 ∷ 9 ∷ []

-- A vector, repeated.
broadcast_run : (broadcast (whole (3 ∷ []) three) (6 ∷ []) >>= λ a. at a 4) ≡ returned 8
unfolding broadcast at
broadcast_run = refl

copy_run : copy (whole (2 ∷ 3 ∷ []) numbers) ≡ returned (whole (2 ∷ 3 ∷ []) numbers)
unfolding copy calculate_stride
copy_run = refl

abbrev seal : ℤ → ℤ → ℤ → CipherText ℤ
seal p c1 pkr = record { c1 = c1; c2 = pkr +ℤ p }

decrypt_tensor-encrypt_tensor_example :
    (encrypt_tensor seal (pos 5) (pos 0) (full (2 ∷ 1 ∷ []) (pos 3 ∷ pos 4 ∷ []))
      >>= decrypt_tensor (λ c. c.c2))
    ≡ returned (full (2 ∷ 1 ∷ []) (pos 3 ∷ pos 4 ∷ []))
decrypt_tensor-encrypt_tensor_example =
    decrypt_tensor-encrypt_tensor seal (λ c. c.c2) (pos 5) (pos 0) (2 ∷ 1 ∷ []) (pos 3 ∷ pos 4 ∷ [])
      refl (omega arith) (zero-+ℤ (pos 3), (zero-+ℤ (pos 4), tt))

abbrev cipher : ℕ → CipherText ℤ
cipher n = record { c1 = pos 1; c2 = pos n }

-- The matrix (1 2) of ciphertexts times the column (3 4) of scalars.
product_run :
    scal_ciphertext_tensors additive
      (power additive)
      (cipher 0)
      (full (2 ∷ 1 ∷ []) (pos 3 ∷ pos 4 ∷ []))
      (full (1 ∷ 2 ∷ []) (cipher 1 ∷ cipher 2 ∷ []))
    ≡ returned (full (1 ∷ 1 ∷ []) (record { c1 = pos 8; c2 = pos 11 } ∷ []))
unfolding scal_ciphertext_tensors ◌+ℤ◌ ◌*ℤ◌
product_run = refl

-- The powers of 1 for some exponents, one of them negative.
nupow_run :
    qfi_nupow additive (pos 1) (pos 5 ∷ pos 1000 ∷ negsuc 999 ∷ pos 12345678901234567 ∷ [])
    ≡ returned (pos 5 ∷ pos 1000 ∷ negsuc 999 ∷ pos 12345678901234567 ∷ [])
unfolding qfi_nupow ◌+ℤ◌ ◌-ℤ◌
nupow_run = refl

-- The exponent 0 has no first digit.
nupow_zero_run : qfi_nupow additive (pos 1) (pos 0 ∷ []) ≡ undefined
unfolding qfi_nupow
nupow_zero_run = refl

-- From the degree 2^64 on, the degrees start again at 0, and the form of degree 0 in the cache stays the one
-- of degree 2^64.
nupow_large_run :
    qfi_nupow additive (pos 1) (pos (2 ^ 128 - 1) ∷ []) ≡ returned (pos (2 ^ 64 - 1) ∷ [])
unfolding qfi_nupow ◌+ℤ◌ ◌-ℤ◌
nupow_large_run = refl

-- The form of degree k is k.
double_pos : (k : ℕ) → pos k +ℤ pos k ≡ pos (k * 2)
double_pos k = omega int_laws

abbrev three_started : Power ℤ
three_started = record { r = pos 3; curr_degree = 3; cache = [] }

get_doubled-Right_example :
    (s : Power ℤ) × (get_doubled additive three_started 2 ≡ returned s) × Right additive pos 12 s
get_doubled-Right_example =
    get_doubled-Right additive pos double_pos 2 3 three_started (omega arith) (omega arith)
      (record { r = refl; degree = refl; cache = λ d a e. absurd cc })
