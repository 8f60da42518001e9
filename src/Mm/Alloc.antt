-- ===== src/Mm/Alloc.antt =====
-- `kmalloc` of kernel/mm.c: what it hands out, and when it hands out nothing.
use mathlib.Core.Option
use chris_os.Base.{ℕ, ◌+◌, ◌-◌, ◌*◌, ◌/◌, ◌%◌, ◌^◌, ◌≤◌, ◌<◌, ◌≡◌, ◌≢◌, inl, inr, true, false}
use chris_os.Base.{◌&&◌, Option, none, some, List, [], ◌∷◌, ◌++◌, arith, ◌==◌, leb, ne→==}
use chris_os.Base.{Bool-cases, All}
use chris_os.Mm.{Block, Heap, heap_start, heap_size, block_hdr, align_up, carve, find_fit}
use chris_os.Mm.{kmalloc}
use chris_os.Mm.Shape.{Tiles, IsHeap, live, Tiles-le}

carve-Tiles :
    (size lo hi : ℕ) (b : Block) (bs : Heap)
    → hi < 2 ^ 31
    → size ≤ b.size
    → Tiles lo hi (b ∷ bs)
    → Tiles lo hi (carve size b bs)
unfolding carve
carve-Tiles size lo hi b bs small fits t =
    ground (arith, Tiles-le (lo + block_hdr + b.size) hi bs t.1)

-- What a successful search has done: `p` points behind the header of a block that was free, whose
-- payload of at least `size` bytes is now live, and nothing else has become live or stopped to be.
pub record Handed (size lo hi : ℕ) (h : Heap) (p : ℕ) (h' : Heap) : Type 0 where
  pub tiles : Tiles lo hi h'
  pub room : ℕ
  pub before : List (ℕ × ℕ)
  pub after : List (ℕ × ℕ)
  pub was : live h ≡ before ++ after
  pub now : live h' ≡ before ++ ((p, room) ∷ after)
  pub enough : size ≤ room
  pub tight : room < size + 20

carve-Handed :
    (size lo hi : ℕ) (b : Block) (bs : Heap)
    → hi < 2 ^ 31
    → b.free ≡ true
    → size ≤ b.size
    → Tiles lo hi (b ∷ bs)
    → Handed size lo hi (b ∷ bs) (b.addr + block_hdr) (carve size b bs)
unfolding carve live
carve-Handed size lo hi b bs small vacant fits t =
    elim (Bool-cases (leb ((size + 20) % 2 ^ 32) b.size)) [
      | inl e ↦ record {
        tiles = carve-Tiles size lo hi b bs small fits t;
        room = size;
        before = [];
        after = live bs;
        was = ground arith;
        now = ground arith;
        enough = omega arith;
        tight = omega arith;
      }
      | inr e ↦ record {
        tiles = carve-Tiles size lo hi b bs small fits t;
        room = b.size;
        before = [];
        after = live bs;
        was = ground arith;
        now = ground arith;
        enough = omega arith;
        tight = ground (arith, Tiles-le (lo + block_hdr + b.size) hi bs t.1);
      }
    ]

keep-Handed :
    (size lo hi : ℕ) (b : Block) {h h' : Heap} {p : ℕ}
    → b.addr ≡ lo
    → Handed size (lo + block_hdr + b.size) hi h p h'
    → Handed size lo hi (b ∷ h) p (b ∷ h')
unfolding live
keep-Handed size lo hi b {h} {h'} {p} here r = elim (Bool-cases b.free) [
  | inl e ↦ record {
    tiles = (here, r.tiles);
    room = r.room;
    before = r.before;
    after = r.after;
    was = rw (e, r.was);
    now = rw (e, r.now);
    enough = r.enough;
    tight = r.tight;
  }
  | inr e ↦ record {
    tiles = (here, r.tiles);
    room = r.room;
    before = (b.addr + block_hdr, b.size) ∷ r.before;
    after = r.after;
    was = rw (e, r.was);
    now = rw (e, r.now);
    enough = r.enough;
    tight = r.tight;
  }
]

-- A block that `kmalloc` could hand out for `size` bytes.
abbrev pub Fits : ℕ → Block → Type 0
Fits size b = (b.free ≡ true) × (size ≤ b.size)

-- What the search of `kmalloc` has found out when it returns.
abbrev pub Search : ℕ → ℕ → ℕ → Heap → Option (ℕ × Heap) → Type 0
Search size lo hi h none = All (λ b. ¬ Fits size b) h
Search size lo hi h (some (p, h')) = Handed size lo hi h p h'

keep-Search :
    (size lo hi : ℕ) (b : Block) (bs : Heap) (r : Option (ℕ × Heap))
    → b.addr ≡ lo
    → ¬ Fits size b
    → Search size (lo + block_hdr + b.size) hi bs r
    → Search size lo hi (b ∷ bs) (Option.map (λ (p, h). (p, b ∷ h)) r)
keep-Search size lo hi b bs none here unfit s = (unfit, s)
keep-Search size lo hi b bs (some (p, h)) here unfit s = keep-Handed size lo hi b here s

find_fit-Search :
    (size lo hi : ℕ) (h : Heap)
    → hi < 2 ^ 31
    → Tiles lo hi h
    → Search size lo hi h (find_fit size h)
unfolding find_fit
find_fit-Search size lo hi [] small t = tt
find_fit-Search size lo hi (b ∷ bs) small t = elim (Bool-cases (b.free && leb size b.size)) [
  | inl y ↦ rw y (carve-Handed size lo hi b bs small (ground arith) (ground arith) t)
  | inr n ↦ rw n (
      keep-Search size lo hi b bs (find_fit size bs) t.0 (λ fits. ground arith)
        (find_fit-Search size (lo + block_hdr + b.size) hi bs small t.1))
]

-- `kmalloc` of a well-formed heap. When it returns null, the request is 0 or no free block is as
-- large as the rounded request. When it returns `p`, the heap is still well-formed, the payload at
-- `p` has room for the rounded request and less than 20 bytes to spare, and it is new among the live
-- payloads, which are otherwise the same.
pub kmalloc_lem :
    (n : ℕ) (h : Heap)
    → IsHeap h
    → n ≢ 0
    → Search (align_up n) heap_start (heap_start + heap_size) h (kmalloc n h)
unfolding kmalloc
kmalloc_lem n h t some_bytes =
    rw (ne→== n 0 some_bytes)
      (find_fit-Search (align_up n) heap_start (heap_start + heap_size) h (omega arith) t)

-- A request of at most `2 ^ 32 - 8` bytes is rounded up to the next multiple of 8.
pub align_up-le :
    (n : ℕ) → n ≤ 2 ^ 32 - 8 → (n ≤ align_up n) × (align_up n < n + 8) × (align_up n % 8 ≡ 0)
unfolding align_up
align_up-le n h = omega arith

-- The rounding of the last seven requests below `2 ^ 32` wraps round to 0, and a heap with any free
-- block hands out a pointer for them.
pub kmalloc_wraps :
    (n : ℕ) (b : Block) (bs : Heap)
    → 2 ^ 32 - 7 ≤ n
    → n < 2 ^ 32
    → b.free ≡ true
    → kmalloc n (b ∷ bs) ≡ some (b.addr + block_hdr, carve 0 b bs)
unfolding kmalloc find_fit align_up
kmalloc_wraps n b bs large small vacant =
    let wrapped : (n + 7) % 2 ^ 32 / 8 * 8 ≡ 0 = omega arith in
    let some_bytes : (n == 0) ≡ false = ne→== n 0 (omega arith) in
    rw (some_bytes, wrapped) (ground arith)
