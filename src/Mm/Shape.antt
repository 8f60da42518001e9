-- ===== src/Mm/Shape.antt =====
-- What a heap of kernel/mm.c looks like: its blocks lie end to end over the whole heap area.
use chris_os.Base.{ℕ, ◌+◌, ◌≤◌, ◌≡◌, List, [], ◌∷◌, arith, if◌then◌else◌}
use chris_os.Mm.{Heap, heap_start, heap_size, block_hdr, mm_init, mm_used, mm_free}

-- The headers and payloads of the blocks fill the addresses from `lo` up to `hi`.
abbrev pub Tiles : ℕ → ℕ → Heap → Type 0
Tiles lo hi [] = lo ≡ hi
Tiles lo hi (b ∷ bs) = (b.addr ≡ lo) × Tiles (lo + block_hdr + b.size) hi bs

abbrev pub IsHeap : Heap → Type 0
IsHeap h = Tiles heap_start (heap_start + heap_size) h

-- The payloads that are in use: the pointer handed out and the room behind it.
unfoldable pub live : Heap → List (ℕ × ℕ)
live [] = []
live (b ∷ bs) = if b.free then live bs else (b.addr + block_hdr, b.size) ∷ live bs

pub Tiles-le : (lo hi : ℕ) (h : Heap) → Tiles lo hi h → lo ≤ hi
Tiles-le lo hi [] t = omega arith
Tiles-le lo hi (b ∷ bs) t = omega (arith, Tiles-le (lo + block_hdr + b.size) hi bs t.1)

pub mm_init-IsHeap : IsHeap mm_init
unfolding mm_init
mm_init-IsHeap = omega arith

-- The headers of the free blocks: what is neither in use nor counted as free.
unfoldable pub free_headers : Heap → ℕ
free_headers [] = 0
free_headers (b ∷ bs) = (if b.free then block_hdr else 0) + free_headers bs

pub Tiles-sum :
    (lo hi : ℕ) (h : Heap) → Tiles lo hi h → lo + (mm_used h + mm_free h + free_headers h) ≡ hi
unfolding mm_used mm_free free_headers
Tiles-sum lo hi [] t = omega arith
Tiles-sum lo hi (b ∷ bs) t = ground (arith, Tiles-sum (lo + block_hdr + b.size) hi bs)

-- Nothing of a well-formed heap is lost from the accounts: `mm_used`, `mm_free` and the headers of
-- the free blocks add up to the size of the heap area.
pub mm_used-mm_free : (h : Heap) → IsHeap h → mm_used h + mm_free h + free_headers h ≡ heap_size
mm_used-mm_free h t = omega (arith, Tiles-sum heap_start (heap_start + heap_size) h t)
