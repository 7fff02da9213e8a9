-- ===== src/Bicycl/Sums.antt =====
-- Finite sums of big integers.
use co_fhe.Base.{ℕ, zero, suc, ◌<◌, ◌≡◌, refl, sym, ap, ap₂, ◌∙◌, for_up, for_up_inv, arith}
use co_fhe.Bicycl.{Mpz}

module _ {Z : Type 0} (z : Mpz Z) where
  unfoldable pub sum : ℕ → (ℕ → Z) → Z
  sum zero f = z.ulong 0
  sum (suc n) f = z.add (sum n f) (f n)

  pub add-zero : (a : Z) → z.add a (z.ulong 0) ≡ a
  add-zero a = rw (z.add_comm a (z.ulong 0)) (z.zero-add a)

  pub mul-zero : (a : Z) → z.mul a (z.ulong 0) ≡ z.ulong 0
  mul-zero a = rw (z.mul_comm a (z.ulong 0)) (z.zero-mul a)

  pub add_interchange :
      (a b c d : Z) → z.add (z.add a b) (z.add c d) ≡ z.add (z.add a c) (z.add b d)
  add_interchange a b c d =
      rw (z.add_assoc a b (z.add c d), ← z.add_assoc b c d, z.add_comm b c, z.add_assoc c b d)
        (sym (z.add_assoc a c (z.add b d)))

  pub sum_congr : (n : ℕ) (f g : ℕ → Z) → ((i : ℕ) → i < n → f i ≡ g i) → sum n f ≡ sum n g
  unfolding sum
  sum_congr zero f g h = refl
  sum_congr (suc n) f g h =
      ap₂ z.add (sum_congr n f g (λ i p. h i (omega arith))) (h n (omega arith))

  pub sum-zero : (n : ℕ) → sum n (λ _. z.ulong 0) ≡ z.ulong 0
  unfolding sum
  sum-zero zero = refl
  sum-zero (suc n) = ap (λ s. z.add s (z.ulong 0)) (sum-zero n) ∙ z.zero-add (z.ulong 0)

  pub sum-add : (n : ℕ) (p q : ℕ → Z) → sum n (λ r. z.add (p r) (q r)) ≡ z.add (sum n p) (sum n q)
  unfolding sum
  sum-add zero p q = rw (z.zero-add (z.ulong 0)) refl
  sum-add (suc n) p q =
      ap (λ rest. z.add rest (z.add (p n) (q n))) (sum-add n p q)
      ∙ add_interchange (sum n p) (sum n q) (p n) (q n)

  pub mul-sum : (n : ℕ) (a : Z) (f : ℕ → Z) → z.mul a (sum n f) ≡ sum n (λ i. z.mul a (f i))
  unfolding sum
  mul-sum zero a f = mul-zero a
  mul-sum (suc n) a f =
      z.mul-add a (sum n f) (f n) ∙ ap (λ s. z.add s (z.mul a (f n))) (mul-sum n a f)

  -- A table summed by rows and by columns.
  pub sum_comm :
      (rows cols : ℕ) (cell : ℕ → ℕ → Z)
      → sum rows (λ r. sum cols (cell r)) ≡ sum cols (λ c. sum rows (λ r. cell r c))
  unfolding sum
  sum_comm zero cols cell = sym (sum-zero cols)
  sum_comm (suc rows) cols cell =
      ap (λ above. z.add above (sum cols (cell rows))) (sum_comm rows cols cell)
      ∙ sym (sum-add cols (λ c. sum rows (λ r. cell r c)) (cell rows))

  -- Only the first term counts.
  pub sum_first : (n : ℕ) (f : ℕ → Z) → ((i : ℕ) → f (suc i) ≡ z.ulong 0) → sum (suc n) f ≡ f 0
  unfolding sum
  sum_first zero f h = z.zero-add (f 0)
  sum_first (suc n) f h = ap₂ z.add (sum_first n f h) (h n) ∙ add-zero (f 0)

  -- The loop `s = 0; for (i < n) s += f(i)`.
  pub for_up-sum : (n : ℕ) (f : ℕ → Z) → for_up 0 n (λ i s. z.add s (f i)) (z.ulong 0) ≡ sum n f
  unfolding sum
  for_up-sum n f =
      for_up_inv (λ i s. s ≡ sum i f) (λ i s. z.add s (f i)) (λ i s h. rw h) n 0 (z.ulong 0) refl n
        (omega arith)
