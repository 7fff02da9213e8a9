-- ===== src/Bicycl.antt =====
-- What the code uses of the BICYCL library: big integers, and forms of a class group. Neither is part of
-- the repository, so both are records that the code takes, with the laws of its documented behaviour.
pub mod Sums
pub mod Integers
use co_fhe.Base.{ℕ, ◌≡◌, Bool}

-- `BICYCL::Mpz`: the integers, with the two conversions that the code makes.
pub record Mpz (Z : Type 0) : Type 0 where
  pub ulong : ℕ → Z
  pub minus_one : Z
  pub add : Z → Z → Z
  pub mul : Z → Z → Z
  pub add_assoc : (a b c : Z) → add (add a b) c ≡ add a (add b c)
  pub add_comm : (a b : Z) → add a b ≡ add b a
  pub zero-add : (a : Z) → add (ulong 0) a ≡ a
  pub one_minus_one : add (ulong 1) minus_one ≡ ulong 0
  pub mul_assoc : (a b c : Z) → mul (mul a b) c ≡ mul a (mul b c)
  pub mul_comm : (a b : Z) → mul a b ≡ mul b a
  pub one-mul : (a : Z) → mul (ulong 1) a ≡ a
  pub zero-mul : (a : Z) → mul (ulong 0) a ≡ ulong 0
  pub mul-add : (a b c : Z) → mul a (add b c) ≡ add (mul a b) (mul a c)

-- What `qfi_nupow` reads of an exponent: `Mpz::nbits`, `Mpz::extract_bits` and whether `Mpz::sgn` is
-- negative, and of a limb: `mpn_scan1`, the place of its lowest set bit.
pub record Bits (Z : Type 0) : Type 0 where
  pub nbits : Z → ℕ
  pub extract_bits : Z → ℕ → ℕ → ℕ
  pub is_negative : Z → Bool
  pub scan1 : ℕ → ℕ

-- `BICYCL::CL_HSM2k` and `BICYCL::QFI`. `nupow c e` is `Cl_G().nupow(r, c, e)`, `nucomp` is
-- `Cl_G().nucomp`, `nucompinv a b` is `Cl_Delta().nucompinv`, the quotient of `a` by `b`,
-- `to_delta` is `from_Cl_DeltaK_to_Cl_Delta`, and `default_form` is the form of `QFI`'s default
-- constructor, which composition passes over. `nudupl` is `QFI::nudupl`, and `neg` is `QFI::neg`.
pub record ClassGroup {Z : Type 0} (z : Mpz Z) (G : Type 0) : Type 0 where
  pub nupow : G → Z → G
  pub nucomp : G → G → G
  pub nucompinv : G → G → G
  pub default_form : G
  pub bits : Bits Z
  pub nudupl : G → G
  pub neg : G → G
  pub compact_variant : Bool
  pub to_delta : G → G
  pub dlog_in_f : G → Z
  pub default-nucomp : (a : G) → nucomp default_form a ≡ a
  pub nupow-add : (c : G) (a b : Z) → nupow c (z.add a b) ≡ nucomp (nupow c a) (nupow c b)
  pub nupow-nupow : (c : G) (a b : Z) → nupow (nupow c a) b ≡ nupow c (z.mul a b)
  pub to_delta-nupow : (c : G) (a : Z) → to_delta (nupow c a) ≡ nupow (to_delta c) a
