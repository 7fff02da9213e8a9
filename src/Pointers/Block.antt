-- ===== src/Pointers/Block.antt =====
-- SharedPtrControlBlockBase and SharedPtrControlBlock of include/common/pointers.hpp, on a heap that
-- remembers which blocks were deleted and what each block's deleter was called with. The mutex of a
-- block makes each of its calls one step, and is left out.
pub mod Counts
use co_fhe.Base.{
  ℕ, suc, ◌+◌, ◌-◌, ◌%◌, ◌^◌, Bool, true, false, ◌&&◌, ◌==◌, if◌then◌else◌, Option, none, some,
  List, [], ◌∷◌,
}

-- The range of `size_t`.
abbrev pub word : ℕ
word = 2 ^ 64

pub record Block : Type 0 where
  pub count : ℕ
  pub weak_count : ℕ
  pub freed : Bool

-- Blocks are named by numbers, handed out in order: those from `next` on are not allocated yet.
-- `deleted` has an entry for each call of a deleter, the latest first: the block and the pointer.
pub record Heap : Type 0 where
  pub blocks : ℕ → Block
  pub next : ℕ
  pub deleted : List (ℕ × Option ℕ)

abbrev pub empty : Heap
empty = record {
  blocks = λ b. record { count = 0; weak_count = 0; freed = true };
  next = 0;
  deleted = [];
}

abbrev pub put : ℕ → Block → Heap → Heap
put b x h = record h { blocks = λ c. if c == b then x else h.blocks c }

-- `new SharedPtrControlBlock<T, Deleter>()`, whose counts are 1 and 0.
unfoldable pub allocate : Heap → ℕ × Heap
allocate h = (
  h.next,
  record (put h.next (record { count = 1; weak_count = 0; freed = false }) h) { next = suc h.next },
)

-- `none` is an access to a block that was deleted.
unfoldable pub increment : ℕ → Heap → Option Heap
increment b h =
    let x = h.blocks b in
    if x.freed then none else some (put b (record x { count = (x.count + 1) % word }) h)

unfoldable pub decrement : ℕ → Heap → Option Heap
decrement b h =
    let x = h.blocks b in
    if x.freed then none else some (put b (record x { count = (x.count + (word - 1)) % word }) h)

abbrev run_deleter : ℕ → Option ℕ → Heap → Heap
run_deleter b ptr h = record h { deleted = (b, ptr) ∷ h.deleted }

unfoldable pub call_deleter : ℕ → Option ℕ → Heap → Option Heap
call_deleter b ptr h =
    let x = h.blocks b in
    let called = (if x.count == 0 then run_deleter b ptr h else h) in
    if x.freed
    then none
    else (if (x.weak_count == 0) && (x.count == 0)
        then some (put b (record x { freed = true }) called)
        else some called)
