-- ===== src/Pointers/Shared/Dangling.antt =====
-- What `reset()` leaves behind: the address of the control block.
use co_fhe.Base.{
  ℕ, ◌+◌, ◌<◌, Option, none, some, ◌>>=◌, bind_assoc, ◌≡◌, true, refl, sym, ap, ◌∙◌, arith,
}
use co_fhe.Pointers.Block.{Heap, word, decrement, call_deleter}
use co_fhe.Pointers.Block.Counts.{owns, Counted, release-Counted}
use co_fhe.Pointers.Shared.{SharedPtr, new_block, reset, destroy}

module _ (n n' : ℕ → ℕ) (b : ℕ) (ptr : Option ℕ) (h : Heap) (v : Counted n h) (small : n b < word)
    (less : (c : ℕ) → n' c + owns (some b) c ≡ n c) where
  -- Where the counts of all blocks are those of their owners, `reset()` of the only owner of a block
  -- leaves a null pointer that still names that block, which is deleted, so that the pointer's
  -- destructor is an access to a deleted block.
  pub reset-destroy :
      n' b ≡ 0
      → (h' : Heap) × (reset none (record { ptr = ptr; control_block = some b }) h
          ≡ some (record { ptr = none; control_block = some b }, h'))
        × (destroy (record { ptr = none; control_block = some b }) h' ≡ none)
  unfolding reset destroy decrement
  reset-destroy last =
      let self : SharedPtr = record { ptr = none; control_block = some b } in
      let (h₁, e, v₁) = release-Counted n n' b ptr h v small less in
      let gone : (h₁.blocks b).freed ≡ true = (v₁ b).gone ∙ ground arith in
      (
        h₁,
        ap (λ m. m >>= λ r. some (new_block r.0 r.0.ptr r.1))
            (sym (bind_assoc (decrement b h) (call_deleter b ptr) (λ k. some (self, k)))
              ∙ ap (λ m. m >>= λ k. some (self, k)) e),
        rw gone refl,
      )
