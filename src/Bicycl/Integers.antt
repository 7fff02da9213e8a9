-- ===== src/Bicycl/Integers.antt =====
-- The two records of `Bicycl` by concrete functions: the integers, and as forms again the integers under
-- addition, so that the tests and examples can run.
use co_fhe.Base.{ℕ, zero, suc, ◌*◌, ◌/◌, ◌%◌, ◌^◌, max, ◌≡◌, refl, true, false}
use co_fhe.Base.Int.{
  ℤ, pos, negsuc, ◌+ℤ◌, ◌-ℤ◌, ◌*ℤ◌, int_laws, +ℤ_comm, +ℤ_assoc, zero-+ℤ, *ℤ_comm, *ℤ_assoc, one-*ℤ,
  zero-*ℤ, *ℤ-+ℤ,
}
use co_fhe.Bicycl.{Mpz, Bits, ClassGroup}

pub one_minus_one : pos 1 +ℤ negsuc 0 ≡ pos 0
one_minus_one = omega int_laws

abbrev pub integers : Mpz ℤ
integers = record {
  ulong = pos;
  minus_one = negsuc 0;
  add = ◌+ℤ◌;
  mul = ◌*ℤ◌;
  add_assoc = +ℤ_assoc;
  add_comm = +ℤ_comm;
  zero-add = zero-+ℤ;
  one_minus_one = one_minus_one;
  mul_assoc = *ℤ_assoc;
  mul_comm = *ℤ_comm;
  one-mul = one-*ℤ;
  zero-mul = zero-*ℤ;
  mul-add = *ℤ-+ℤ;
}

abbrev magnitude : ℤ → ℕ
magnitude (pos n) = n
magnitude (negsuc n) = suc n

-- The number of bits, up to 256.
abbrev count_bits : ℕ → ℕ → ℕ
count_bits zero n = 0
count_bits (suc left) n = elim n [ zero ↦ 0 | suc k ↦ suc (count_bits left (suc k / 2)) ]

abbrev lowest_set : ℕ → ℕ → ℕ
lowest_set zero n = 0
lowest_set (suc left) n = elim (n % 2) [ zero ↦ suc (lowest_set left (n / 2)) | suc k ↦ 0 ]

-- The bits from an index down, those below the last one being 0.
abbrev bits_down : ℕ → ℕ → ℕ → ℕ
bits_down n index len = n * 2 ^ len / 2 ^ suc index % 2 ^ len

abbrev integer_bits : Bits ℤ
integer_bits = record {
  nbits = λ a. max 1 (count_bits 256 (magnitude a));
  extract_bits = λ a. bits_down (magnitude a);
  is_negative = λ a. elim a [ pos n ↦ false | negsuc n ↦ true ];
  scan1 = lowest_set 64;
}

abbrev pub additive : ClassGroup integers ℤ
additive = record {
  nupow = ◌*ℤ◌;
  nucomp = ◌+ℤ◌;
  nucompinv = ◌-ℤ◌;
  default_form = pos 0;
  bits = integer_bits;
  nudupl = λ a. a +ℤ a;
  neg = λ a. pos 0 -ℤ a;
  compact_variant = false;
  to_delta = λ a. a;
  dlog_in_f = λ a. a;
  default-nucomp = zero-+ℤ;
  nupow-add = *ℤ-+ℤ;
  nupow-nupow = *ℤ_assoc;
  to_delta-nupow = λ c a. refl;
}
