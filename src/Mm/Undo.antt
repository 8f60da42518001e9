-- ===== src/Mm/Undo.antt =====
-- `kfree` undoes `kmalloc` in kernel/mm.c.
use mathlib.Core.Option
use chris_os.Base.{ℕ, ◌+◌, ◌-◌, ◌%◌, ◌^◌, ◌≤◌, ◌<◌, ◌≡◌, refl, sym, ap, inl, inr, true, false}
use chris_os.Base.{◌&&◌, Option, none, some, [], ◌∷◌, arith, ◌==◌, leb, ne→==, Bool-cases}
use chris_os.Base.Word.{u32}
use mathlib.Core.Option.{some-injective}
use mathlib.Core.Path.{subst}
use chris_os.Mm.{Block, Heap, heap_start, heap_size, block_hdr, align_up, carve, find_fit}
use chris_os.Mm.{kmalloc, mark_free, merge_from, merge, kfree}
use chris_os.Mm.Free.{Coalesced, Coalesced-tail, merge_from-Coalesced}
use chris_os.Mm.Shape.{Tiles, IsHeap, Tiles-le}

-- Whether the first blocks of two heaps are free alike.
abbrev SameHead : Heap → Heap → Type 0
SameHead [] [] = Unit
SameHead [] (c ∷ cs) = ⊥
SameHead (b ∷ bs) [] = ⊥
SameHead (b ∷ bs) (c ∷ cs) = b.free ≡ c.free

-- Marking the block at `p` in `h'` and merging gives `h`.
record Undone (lo : ℕ) (h : Heap) (p : ℕ) (h' : Heap) : Type 0 where
  above : lo + block_hdr ≤ p
  marked : Heap
  marks : mark_free p h' ≡ some marked
  merges : merge marked ≡ h
  head : SameHead marked h

carve-Undone :
    (size lo hi : ℕ) (b : Block) (bs : Heap)
    → hi < 2 ^ 31
    → b.free ≡ true
    → size ≤ b.size
    → Tiles lo hi (b ∷ bs)
    → Coalesced (b ∷ bs)
    → Undone lo (b ∷ bs) (b.addr + block_hdr) (carve size b bs)
unfolding carve mark_free merge merge_from
carve-Undone size lo hi b bs small vacant fits t c =
    elim (Bool-cases (leb ((size + 20) % 2 ^ 32) b.size)) [
      | inl e ↦ record {
        above = omega arith;
        marked =
            record b { size = size; free = true }
            ∷ record {
              addr = b.addr + block_hdr + size;
              size = b.size - size - block_hdr;
              free = true;
            }
            ∷ bs;
        marks = ground arith;
        merges = rw (merge_from, sized e, ← vacant) (merge_from-Coalesced b bs c);
        head = sym vacant;
      }
      | inr e ↦ record {
        above = omega arith;
        marked = record b { free = true } ∷ bs;
        marks = ground arith;
        merges = rw (← vacant) (merge_from-Coalesced b bs c);
        head = sym vacant;
      }
    ]
  where
    sized :
        leb ((size + 20) % 2 ^ 32) b.size ≡ true
        → u32 (size + (block_hdr + (b.size - size - block_hdr))) ≡ b.size
    sized e = ground (arith, Tiles-le (lo + block_hdr + b.size) hi bs t.1)

merge_from-kept :
    (b : Block) (m h : Heap)
    → SameHead m h
    → Coalesced (b ∷ h)
    → merge m ≡ h
    → merge_from b m ≡ b ∷ h
unfolding merge merge_from
merge_from-kept b [] [] s c e = refl
merge_from-kept b [] (y ∷ ys) s c e = absurd s
merge_from-kept b (x ∷ xs) [] s c e = absurd s
merge_from-kept b (x ∷ xs) (y ∷ ys) s c e =
    let apart : (b.free && x.free) ≡ false = rw s c.0 in rw (apart, merge_from) (ap (λ t. b ∷ t) e)

keep-Undone :
    (lo : ℕ) (b : Block) {h h' : Heap} {p : ℕ}
    → b.addr ≡ lo
    → Coalesced (b ∷ h)
    → Undone (lo + block_hdr + b.size) h p h'
    → Undone lo (b ∷ h) p (b ∷ h')
unfolding mark_free merge
keep-Undone lo b {h} {h'} {p} here c u = record {
  above = omega (arith, u.above);
  marked = b ∷ u.marked;
  marks = rw (ne→== (b.addr + block_hdr) p (omega (arith, u.above)), u.marks) refl;
  merges = merge_from-kept b u.marked h u.head c u.merges;
  head = refl;
}

abbrev Undoing : ℕ → Heap → Option (ℕ × Heap) → Type 0
Undoing lo h none = Unit
Undoing lo h (some (p, h')) = Undone lo h p h'

keep-Undoing :
    (lo : ℕ) (b : Block) (bs : Heap) (r : Option (ℕ × Heap))
    → b.addr ≡ lo
    → Coalesced (b ∷ bs)
    → Undoing (lo + block_hdr + b.size) bs r
    → Undoing lo (b ∷ bs) (Option.map (λ (p, h). (p, b ∷ h)) r)
keep-Undoing lo b bs none here c u = tt
keep-Undoing lo b bs (some (p, h)) here c u = keep-Undone lo b here c u

find_fit-Undoing :
    (size lo hi : ℕ) (h : Heap)
    → hi < 2 ^ 31
    → Tiles lo hi h
    → Coalesced h
    → Undoing lo h (find_fit size h)
unfolding find_fit
find_fit-Undoing size lo hi [] small t c = tt
find_fit-Undoing size lo hi (b ∷ bs) small t c = elim (Bool-cases (b.free && leb size b.size)) [
  | inl y ↦ rw y (carve-Undone size lo hi b bs small (ground arith) (ground arith) t c)
  | inr n ↦ rw n (
      keep-Undoing lo b bs (find_fit size bs) t.0 c
        (find_fit-Undoing size (lo + block_hdr + b.size) hi bs small t.1 (Coalesced-tail b bs c)))
]

Undone-kfree : (lo : ℕ) (h h' : Heap) (p : ℕ) → Undone lo h p h' → kfree p h' ≡ some h
unfolding kfree
Undone-kfree lo h h' p u = rw (ne→== p 0 (omega (arith, u.above)), u.marks) (ap some u.merges)

Undoing-kfree :
    (lo : ℕ) (h : Heap) (r : Option (ℕ × Heap)) {p : ℕ} {h' : Heap}
    → Undoing lo h r
    → r ≡ some (p, h')
    → kfree p h' ≡ some h
Undoing-kfree lo h none {p} {h'} u e = cc
Undoing-kfree lo h (some (q, g)) {p} {h'} u e =
    subst (λ (x : ℕ × Heap). kfree x.0 x.1 ≡ some h) (some-injective (q, g) (p, h') e)
      (Undone-kfree lo h g q u)

-- In a well-formed heap with no two free neighbours, giving back what `kmalloc` has just handed out
-- restores the heap exactly, whether the block was split or not.
pub kfree-kmalloc :
    (n : ℕ) (h : Heap) {p : ℕ} {h' : Heap}
    → IsHeap h
    → Coalesced h
    → kmalloc n h ≡ some (p, h')
    → kfree p h' ≡ some h
unfolding kmalloc
kfree-kmalloc n h {p} {h'} t c e = elim (Bool-cases (n == 0)) [
  | inl z ↦ let nothing : none ≡ some (p, h') = rw z at e in cc
  | inr s ↦
      Undoing-kfree heap_start h (find_fit (align_up n) h)
        (find_fit-Undoing (align_up n) heap_start (heap_start + heap_size) h (omega arith) t c)
        (rw s at e)
]
