-- ===== src/Mm.antt =====
-- kernel/mm.c, the kernel's heap: a first-fit allocator that splits a block when it hands it out and
-- merges neighbours when one is given back.
--
-- The blocks are the list that `heap_head` and the `next` fields make, in order; a block carries the
-- address of its header. A null result of `kmalloc` is `none`.
pub mod Shape
pub mod Alloc
pub mod Free
pub mod Undo
mod Examples
use mathlib.Core.Option
use chris_os.Base.{ℕ, ◌+◌, ◌-◌, ◌*◌, ◌/◌, Bool, true, false, ◌&&◌, Option, none, some, List}
use chris_os.Base.{[], ◌∷◌, ◌==◌, leb, if◌then◌else◌}
use chris_os.Base.Word.{u32}

pub record Block : Type 0 where
  pub addr : ℕ
  pub size : ℕ
  pub free : Bool

abbrev pub Heap : Type 0
Heap = List Block

abbrev pub heap_start : ℕ
heap_start = 0x200000

abbrev pub heap_size : ℕ
heap_size = 0x100000

-- `sizeof(block_t)` on the 32-bit target: three words
abbrev pub block_hdr : ℕ
block_hdr = 12

unfoldable pub align_up : ℕ → ℕ
align_up n = u32 (n + 7) / 8 * 8

unfoldable pub mm_init : Heap
mm_init = record { addr = heap_start; size = heap_size - block_hdr; free = true } ∷ []

-- What `kmalloc` makes of the block that it has found, and of the blocks behind it.
pub carve : ℕ → Block → Heap → Heap
carve size b bs =
    if leb (u32 (size + block_hdr + 8)) b.size
    then record b { size = size; free = false }
      ∷ record { addr = b.addr + block_hdr + size; size = b.size - size - block_hdr; free = true }
      ∷ bs
    else record b { free = false } ∷ bs

-- The search of `kmalloc` for a size that is aligned.
unfoldable pub find_fit : ℕ → Heap → Option (ℕ × Heap)
find_fit size [] = none
find_fit size (b ∷ bs) =
    if b.free && leb size b.size
    then some (b.addr + block_hdr, carve size b bs)
    else Option.map (λ (p, h). (p, b ∷ h)) (find_fit size bs)

unfoldable pub kmalloc : ℕ → Heap → Option (ℕ × Heap)
kmalloc size h = if size == 0 then none else find_fit (align_up size) h

-- `b->free = 1` at the header in front of the pointer; `none` if no block has its header there, where
-- the C code writes into memory that is no header.
pub mark_free : ℕ → Heap → Option Heap
mark_free ptr [] = none
mark_free ptr (b ∷ bs) =
    if b.addr + block_hdr == ptr
    then some (record b { free = true } ∷ bs)
    else Option.map (λ h. b ∷ h) (mark_free ptr bs)

-- The loop of `kfree` with `cur` at `b` and `bs` behind it.
pub merge_from : Block → Heap → Heap
merge_from b [] = b ∷ []
merge_from b (c ∷ cs) = elim (b.free && c.free) [
  | true ↦ merge_from (record b { size = u32 (b.size + (block_hdr + c.size)) }) cs
  | false ↦ b ∷ merge_from c cs
]

pub merge : Heap → Heap
merge [] = []
merge (b ∷ bs) = merge_from b bs

pub kfree : ℕ → Heap → Option Heap
kfree ptr h = if ptr == 0 then some h else Option.map merge (mark_free ptr h)

pub mm_used : Heap → ℕ
mm_used [] = 0
mm_used (b ∷ bs) = (if b.free then 0 else block_hdr + b.size) + mm_used bs

pub mm_free : Heap → ℕ
mm_free [] = 0
mm_free (b ∷ bs) = (if b.free then b.size else 0) + mm_free bs
