-- ===== src/Pointers/Variables/Owners.antt =====
-- How many of a program's variables own a block.
use co_fhe.Base.{
  ℕ, zero, suc, ◌+◌, ◌≤◌, Option, none, some, List, [], ◌∷◌, ◌++◌, length, get_elem?,
  get_elem?-set_ne, set, ◌≡◌, ◌≢◌, ◌∙◌, subst, arith,
}
use co_fhe.Pointers.Block.Counts.{owns}
use co_fhe.Pointers.Shared.{SharedPtr, null}
use co_fhe.Pointers.Shared.Keeps.{IsSound}

abbrev pub owners : List SharedPtr → ℕ → ℕ
owners [] c = 0
owners (s ∷ ss) c = owns s.control_block c + owners ss c

abbrev pub Sound : List SharedPtr → Type 0
Sound [] = Unit {0}
Sound (s ∷ ss) = IsSound s × Sound ss

owns_le_one : (block : Option ℕ) (c : ℕ) → owns block c ≤ 1
owns_le_one none c = omega arith
owns_le_one (some b) c = ground arith

pub owners-le-length : (ss : List SharedPtr) (c : ℕ) → owners ss c ≤ length ss
owners-le-length [] c = omega arith
owners-le-length (s ∷ ss) c = omega (arith, owns_le_one s.control_block c, owners-le-length ss c)

pub owners-append :
    (ss : List SharedPtr) (s : SharedPtr) (c : ℕ)
    → owners (ss ++ s ∷ []) c ≡ owners ss c + owns s.control_block c
owners-append [] s c = omega arith
owners-append (t ∷ ss) s c = omega (arith, owners-append ss s c)

pub owners-set :
    (ss : List SharedPtr) (i : ℕ) (s t : SharedPtr) (c : ℕ)
    → get_elem? ss i ≡ some s
    → owners (set ss i t) c + owns s.control_block c ≡ owners ss c + owns t.control_block c
owners-set [] i s t c e = cc
owners-set (u ∷ ss) zero s t c e = let same : u ≡ s = cc in rw same (omega arith)
owners-set (u ∷ ss) (suc i) s t c e = omega (arith, owners-set ss i s t c e)

-- Two variables are two owners.
pub owners-two :
    (ss : List SharedPtr) (i j : ℕ) (s t : SharedPtr) (c : ℕ)
    → i ≢ j
    → get_elem? ss i ≡ some s
    → get_elem? ss j ≡ some t
    → owns s.control_block c + owns t.control_block c ≤ owners ss c
owners-two ss i j s t c ne e f =
    let first : owners (set ss i null) c + owns s.control_block c ≡ owners ss c + 0 =
      owners-set ss i s null c e in
    let second : owners (set (set ss i null) j null) c + owns t.control_block c
        ≡ owners (set ss i null) c + 0 =
      owners-set (set ss i null) j t null c (get_elem?-set_ne ss null ne ∙ f) in
    omega (arith)

pub Sound-get :
    (ss : List SharedPtr) (i : ℕ) (s : SharedPtr) → Sound ss → get_elem? ss i ≡ some s → IsSound s
Sound-get [] i s v e = cc
Sound-get (u ∷ ss) zero s (v, vs) e = let same : u ≡ s = cc in subst IsSound same v
Sound-get (u ∷ ss) (suc i) s (v, vs) e = Sound-get ss i s vs e

pub Sound-set :
    (ss : List SharedPtr) (i : ℕ) (s : SharedPtr) → Sound ss → IsSound s → Sound (set ss i s)
Sound-set [] i s v w = tt
Sound-set (u ∷ ss) zero s (v, vs) w = (w, vs)
Sound-set (u ∷ ss) (suc i) s (v, vs) w = (v, Sound-set ss i s vs w)

pub Sound-append :
    (ss : List SharedPtr) (s : SharedPtr) → Sound ss → IsSound s → Sound (ss ++ s ∷ [])
Sound-append [] s v w = (w, tt)
Sound-append (u ∷ ss) s (v, vs) w = (v, Sound-append ss s vs w)
