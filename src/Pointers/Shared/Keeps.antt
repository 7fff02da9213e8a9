-- ===== src/Pointers/Shared/Keeps.antt =====
-- What the operations of a shared pointer do to the counts of the blocks.
use co_fhe.Base.{
  ℕ, ◌+◌, ◌<◌, ◌≤◌, Option, none, some, ◌>>=◌, bind_assoc, ◌≡◌, refl, sym, ap, ◌∙◌, arith,
}
use co_fhe.Pointers.Block.{Heap, word, allocate, decrement, call_deleter}
use co_fhe.Pointers.Block.Counts.{
  owns, owns_self, Counted, increment-Counted, allocate-Counted, release-Counted,
}
use co_fhe.Pointers.Shared.{
  SharedPtr, null, copy, new_block, reset, destroy, copy_assign, move_assign,
}

-- A pointer without a control block is null.
abbrev pub IsSound : SharedPtr → Type 0
IsSound s = s.control_block ≡ none → s.ptr ≡ none

module _ (n n' : ℕ → ℕ) (h : Heap) (v : Counted n h) (small : (c : ℕ) → n c + 1 < word) where
  reset-parts :
      (ptr block : Option ℕ)
      → IsSound (record { ptr = ptr; control_block = block })
      → ((c : ℕ) → n' c + owns block c ≡ n c)
      → (s : SharedPtr) × (h' : Heap) × (reset none (record { ptr = ptr; control_block = block }) h
          ≡ some (s, h'))
        × Counted n' h'
  unfolding reset
  reset-parts ptr none sound less =
      let self : SharedPtr = record { ptr = ptr; control_block = none } in
      (
        self,
        h,
        ap (λ p. some (new_block self p h)) (sound refl),
        λ c. let same : n' c ≡ n c = omega (arith, less c) in rw same (v c),
      )
  reset-parts ptr (some b) sound less =
      let self : SharedPtr = record { ptr = none; control_block = some b } in
      let (h', e, v') = release-Counted n n' b ptr h v (omega (arith, small b)) less in
      (
        self,
        h',
        ap (λ m. m >>= λ r. some (new_block r.0 r.0.ptr r.1))
            (sym (bind_assoc (decrement b h) (call_deleter b ptr) (λ k. some (self, k)))
              ∙ ap (λ m. m >>= λ k. some (self, k)) e),
        v',
      )

  pub reset-Counted :
      (self : SharedPtr)
      → IsSound self
      → ((c : ℕ) → n' c + owns self.control_block c ≡ n c)
      → (s : SharedPtr) × (h' : Heap) × (reset none self h ≡ some (s, h')) × Counted n' h'
  reset-Counted self sound less = reset-parts self.ptr self.control_block sound less

  reset_new-parts :
      (ptr block : Option ℕ)
      → IsSound (record { ptr = ptr; control_block = block })
      → ((c : ℕ) → n' c + owns block c ≡ n c)
      → (p : ℕ)
      → (s : SharedPtr) × (h' : Heap) × (reset
            (some p)
            (record { ptr = ptr; control_block = block })
            h
          ≡ some (s, h'))
        × IsSound s
        × ((n₂ : ℕ → ℕ) → ((c : ℕ) → n₂ c ≡ n' c + owns s.control_block c) → Counted n₂ h')
  unfolding reset allocate
  reset_new-parts ptr none sound less p =
      let self : SharedPtr = record { ptr = ptr; control_block = none } in
      (
        self,
        h,
        ap (λ q. some (new_block self q h)) (sound refl),
        sound,
        λ n₂ more c. let same : n₂ c ≡ n c = omega (arith, less c, more c) in rw same (v c),
      )
  reset_new-parts ptr (some b) sound less p =
      let self : SharedPtr = record { ptr = some p; control_block = some b } in
      let (h₁, e, v₁) = release-Counted n n' b ptr h v (omega (arith, small b)) less in
      (
        record { ptr = some p; control_block = some h₁.next },
        (allocate h₁).1,
        ap (λ m. m >>= λ r. some (new_block r.0 r.0.ptr r.1))
            (sym (bind_assoc (decrement b h) (call_deleter b ptr) (λ k. some (self, k)))
              ∙ ap (λ m. m >>= λ k. some (self, k)) e),
        λ e. cc,
        λ n₂ more. allocate-Counted n' n₂ h₁ v₁ more,
      )

  -- `reset(p)` of a pointer that is not null.
  pub reset_new-Counted :
      (self : SharedPtr)
      → IsSound self
      → ((c : ℕ) → n' c + owns self.control_block c ≡ n c)
      → (p : ℕ)
      → (s : SharedPtr) × (h' : Heap) × (reset (some p) self h ≡ some (s, h'))
        × IsSound s
        × ((n₂ : ℕ → ℕ) → ((c : ℕ) → n₂ c ≡ n' c + owns s.control_block c) → Counted n₂ h')
  reset_new-Counted self sound less p = reset_new-parts self.ptr self.control_block sound less p

  pub destroy-Counted :
      (self : SharedPtr)
      → IsSound self
      → ((c : ℕ) → n' c + owns self.control_block c ≡ n c)
      → (h' : Heap) × (destroy self h ≡ some h') × Counted n' h'
  unfolding destroy
  destroy-Counted self sound less =
      let (s, h', e, v') = reset-Counted self sound less in
      (h', ap (λ m. m >>= λ r. some r.1) e, v')

  copy-block :
      (ptr block : Option ℕ)
      → ((c : ℕ) → owns block c ≤ n c)
      → ((c : ℕ) → n' c ≡ n c + owns block c)
      → (h' : Heap) × (copy (record { ptr = ptr; control_block = block }) h
          ≡ some (record { ptr = ptr; control_block = block }, h'))
        × Counted n' h'
  unfolding copy
  copy-block ptr none owned more =
      (h, refl, λ c. let same : n' c ≡ n c = omega (arith, more c) in rw same (v c))
  copy-block ptr (some b) owned more =
      let self : SharedPtr = record { ptr = ptr; control_block = some b } in
      let (h', e, v') =
        increment-Counted n n' b h v (omega (arith, owned b, owns_self b)) (small b) more in
      (h', ap (λ m. m >>= λ k. some (self, k)) e, v')

  pub copy-Counted :
      (other : SharedPtr)
      → ((c : ℕ) → owns other.control_block c ≤ n c)
      → ((c : ℕ) → n' c ≡ n c + owns other.control_block c)
      → (h' : Heap) × (copy other h ≡ some (other, h')) × Counted n' h'
  copy-Counted other owned more = copy-block other.ptr other.control_block owned more

module _ (n n₁ n' : ℕ → ℕ) (h : Heap) (v : Counted n h) (small : (c : ℕ) → n c + 1 < word)
    (self other : SharedPtr) (sound : IsSound self)
    (less : (c : ℕ) → n₁ c + owns self.control_block c ≡ n c) where
  pub copy_assign-Counted :
      ((c : ℕ) → owns other.control_block c ≤ n₁ c)
      → ((c : ℕ) → n' c ≡ n₁ c + owns other.control_block c)
      → (h' : Heap) × (copy_assign self other h ≡ some (other, h')) × Counted n' h'
  unfolding copy_assign
  copy_assign-Counted owned more =
      let (s, h₁, e₁, v₁) = reset-Counted n n₁ h v small self sound less in
      let (h₂, e₂, v₂) =
        copy-Counted n₁ n' h₁ v₁ (λ c. omega (arith, small c, less c)) other owned more in
      (h₂, ap (λ m. m >>= λ r. copy other r.1) e₁ ∙ e₂, v₂)

  pub move_assign-Counted :
      (h' : Heap) × (move_assign self other h ≡ some ((other, null), h')) × Counted n₁ h'
  unfolding move_assign
  move_assign-Counted =
      let (s, h₁, e₁, v₁) = reset-Counted n n₁ h v small self sound less in
      (h₁, ap (λ m. m >>= λ r. some ((other, null), r.1)) e₁, v₁)
