-- ===== src/Sharing/Combination.antt =====
-- `get_next_lexio_combination` of include/x86_64/cpu_cryptosystem_distributed.inl. A combination is the
-- first `t` entries of a vector, counted from 0.
use co_fhe.Base.{
  ℕ, zero, suc, ◌+◌, ◌-◌, ◌≡◌, refl, ◌==◌, if◌then◌else◌, Option, none, some, List, [], ◌∷◌, get_or,
  set, for_up,
}

-- `while (j >= 0 && c[j] == n - t + j) j--`, from `j = count - 1`; `none` is `j = -1`.
unfoldable pub pivot : List ℕ → ℕ → ℕ → ℕ → Option ℕ
pivot c n t zero = none
pivot c n t (suc j) =
    let earlier = pivot c n t j in if get_or c j 0 == n - t + j then earlier else some j

-- `c[j]++`, and the entries behind it follow on from it
abbrev pub bump : List ℕ → ℕ → ℕ → List ℕ
bump c t j =
    for_up (suc j) (t - suc j) (λ k c. set c k (get_or c j 0 + k - j)) (set c j (get_or c j 0 + 1))

abbrev pub advance : List ℕ → ℕ → Option ℕ → List ℕ
advance c t none = c
advance c t (some j) = bump c t j

unfoldable pub get_next_lexio_combination : List ℕ → ℕ → ℕ → List ℕ
unfolding pivot for_up
get_next_lexio_combination c n t = advance c t (pivot c n t t)

after_023 : get_next_lexio_combination (0 ∷ 2 ∷ 3 ∷ []) 4 3 ≡ 1 ∷ 2 ∷ 3 ∷ []
unfolding get_next_lexio_combination
after_023 = refl

after_013 : get_next_lexio_combination (0 ∷ 1 ∷ 3 ∷ 9 ∷ []) 4 3 ≡ 0 ∷ 2 ∷ 3 ∷ 9 ∷ []
unfolding get_next_lexio_combination
after_013 = refl
