-- ===== src/Pointers/Shared.antt =====
-- SharedPtr of include/common/pointers.hpp: its constructors, assignments, destructor and `reset`.
pub mod Keeps
pub mod Dangling
use co_fhe.Base.{ℕ, Option, none, some, ◌>>=◌}
use co_fhe.Pointers.Block.{Heap, allocate, increment, decrement, call_deleter}

pub record SharedPtr : Type 0 where
  pub ptr : Option ℕ
  pub control_block : Option ℕ

abbrev pub null : SharedPtr
null = record { ptr = none; control_block = none }

-- `SharedPtr(pointer)`: a control block is made for a null pointer too.
unfoldable pub construct : Option ℕ → Heap → SharedPtr × Heap
construct p h = let (b, h') = allocate h in (record { ptr = p; control_block = some b }, h')

abbrev increment_block : Option ℕ → Heap → Option Heap
increment_block none h = some h
increment_block (some b) h = increment b h

-- The copy constructor, and what copy assignment does behind `reset`.
unfoldable pub copy : SharedPtr → Heap → Option (SharedPtr × Heap)
copy other h = do
  h' ← increment_block other.control_block h
  some (record { ptr = other.ptr; control_block = other.control_block }, h')

-- The first `if` of `reset`: the old object is let go and the new pointer taken, when there is a block.
abbrev pub let_go : Option ℕ → SharedPtr → Option ℕ → Heap → Option (SharedPtr × Heap)
let_go p self none h = some (self, h)
let_go p self (some b) h = do
  h₁ ← decrement b h
  h₂ ← call_deleter b self.ptr h₁
  some (record self { ptr = p }, h₂)

-- The second: a pointer that is not null gets a new block. A null one keeps the old block's address.
abbrev pub new_block : SharedPtr → Option ℕ → Heap → SharedPtr × Heap
new_block self none h = (self, h)
new_block self (some p) h = let (b, h') = allocate h in (record self { control_block = some b }, h')

unfoldable pub reset : Option ℕ → SharedPtr → Heap → Option (SharedPtr × Heap)
reset p self h = do
  (self', h') ← let_go p self self.control_block h
  some (new_block self' self'.ptr h')

-- What is left of the variable is not used again.
unfoldable pub destroy : SharedPtr → Heap → Option Heap
unfolding reset
destroy self h = do (_, h') ← reset none self h; some h'

-- `operator=(const SharedPtr &)` and `operator=(SharedPtr &&)` of another variable.
unfoldable pub copy_assign : SharedPtr → SharedPtr → Heap → Option (SharedPtr × Heap)
unfolding reset copy
copy_assign self other h = do (_, h') ← reset none self h; copy other h'

unfoldable pub move_assign : SharedPtr → SharedPtr → Heap → Option ((SharedPtr × SharedPtr) × Heap)
unfolding reset
move_assign self other h = do
  (_, h') ← reset none self h
  some ((record { ptr = other.ptr; control_block = other.control_block }, null), h')

unfoldable pub use_count : SharedPtr → Heap → ℕ
use_count self h = elim self.control_block [ none ↦ 0 | some b ↦ (h.blocks b).count ]
