-- ===== src/Mm/Free.antt =====
-- `kfree` of kernel/mm.c: giving a block back, and merging neighbours.
use mathlib.Core.Option
use chris_os.Base.{ℕ, ◌+◌, ◌^◌, ◌<◌, ◌≡◌, refl, ap, ◌∙◌, ◌≢◌, inl, inr, true, false, ◌&&◌}
use chris_os.Base.{Option, none, some, List, [], ◌∷◌, arith, ◌==◌, if◌then◌else◌, ne→==}
use chris_os.Base.{Bool-cases, All}
use chris_os.Base.Word.{u32}
use chris_os.Mm.{Block, Heap, heap_start, heap_size, block_hdr, mark_free, merge_from, merge}
use chris_os.Mm.{kfree}
use chris_os.Mm.Shape.{Tiles, IsHeap, live, Tiles-le}

-- No two neighbours are both free.
abbrev pub Coalesced : Heap → Type 0
Coalesced [] = Unit
Coalesced (b ∷ []) = Unit
Coalesced (b ∷ (c ∷ cs)) = ((b.free && c.free) ≡ false) × Coalesced (c ∷ cs)

-- What holds of the blocks that the merging loop leaves from `b` on.
record Merged (lo hi : ℕ) (b : Block) (bs out : Heap) : Type 0 where
  tiles : Tiles lo hi out
  apart : (a : Block) → (a.free && b.free) ≡ false → Coalesced (a ∷ out)
  same_live : live out ≡ live (b ∷ bs)

merge_from-Merged :
    (lo hi : ℕ) (b : Block) (bs : Heap)
    → hi < 2 ^ 32
    → Tiles lo hi (b ∷ bs)
    → Merged lo hi b bs (merge_from b bs)
unfolding merge_from live
merge_from-Merged lo hi b [] small t = record {
  tiles = t;
  apart = λ a e. (e, tt);
  same_live = refl;
}
merge_from-Merged lo hi b (c ∷ cs) small t = elim (Bool-cases (b.free && c.free)) [
  | inl y ↦
      rw (y, merge_from)
        (merged y (
          merge_from-Merged lo hi joined cs small
            (ground (arith, Tiles-le (c.addr + block_hdr + c.size) hi cs))))
  | inr n ↦
      rw (n, merge_from) (kept n (merge_from-Merged (lo + block_hdr + b.size) hi c cs small t.1))
]
  where
    joined : Block
    joined = record b { size = u32 (b.size + (block_hdr + c.size)) }

    merged :
        (b.free && c.free) ≡ true
        → Merged lo hi joined cs (merge_from joined cs)
        → Merged lo hi b (c ∷ cs) (merge_from joined cs)
    merged y r = record { tiles = r.tiles; apart = r.apart; same_live = r.same_live ∙ ground arith }

    kept :
        (b.free && c.free) ≡ false
        → Merged (lo + block_hdr + b.size) hi c cs (merge_from c cs)
        → Merged lo hi b (c ∷ cs) (b ∷ merge_from c cs)
    kept n r = record {
      tiles = (t.0, r.tiles);
      apart = λ a e. (e, r.apart b n);
      same_live = rw (r.same_live) refl;
    }

-- The live payloads less the one at a pointer.
unfoldable pub erase_at : ℕ → List (ℕ × ℕ) → List (ℕ × ℕ)
erase_at ptr [] = []
erase_at ptr ((p, n) ∷ ps) = if p == ptr then ps else (p, n) ∷ erase_at ptr ps

erase_at-below :
    (lo hi ptr : ℕ) (h : Heap)
    → ptr < lo + block_hdr
    → Tiles lo hi h
    → erase_at ptr (live h) ≡ live h
unfolding live erase_at
erase_at-below lo hi ptr [] low t = refl
erase_at-below lo hi ptr (b ∷ bs) low t =
    ground (arith, erase_at-below (lo + block_hdr + b.size) hi ptr bs)

-- What has become of the heap when a header is marked, or that there is no header there.
abbrev Marking : ℕ → ℕ → ℕ → Heap → Option Heap → Type 0
Marking lo hi ptr h none = All (λ b. b.addr + block_hdr ≢ ptr) h
Marking lo hi ptr h (some h') = Tiles lo hi h' × (live h' ≡ erase_at ptr (live h))

keep-Marking :
    (lo hi ptr : ℕ) (b : Block) (bs : Heap) (r : Option Heap)
    → b.addr ≡ lo
    → b.addr + block_hdr ≢ ptr
    → Marking (lo + block_hdr + b.size) hi ptr bs r
    → Marking lo hi ptr (b ∷ bs) (Option.map (λ h. b ∷ h) r)
unfolding live erase_at
keep-Marking lo hi ptr b bs none here ne m = (ne, m)
keep-Marking lo hi ptr b bs (some h) here ne (t, same) = ((here, t), ground arith)

mark_free-Marking :
    (lo hi ptr : ℕ) (h : Heap) → Tiles lo hi h → Marking lo hi ptr h (mark_free ptr h)
unfolding mark_free live erase_at
mark_free-Marking lo hi ptr [] t = tt
mark_free-Marking lo hi ptr (b ∷ bs) t = elim (Bool-cases (b.addr + block_hdr == ptr)) [
  | inl y ↦ rw y (t, ground (arith, erase_at-below (lo + block_hdr + b.size) hi ptr bs))
  | inr n ↦ rw n (
      keep-Marking lo hi ptr b bs (mark_free ptr bs) t.0 (λ e. ground arith)
        (mark_free-Marking (lo + block_hdr + b.size) hi ptr bs t.1))
]

-- What `kfree` has done when it returns.
abbrev pub Freed : ℕ → Heap → Option Heap → Type 0
Freed ptr h none = All (λ b. b.addr + block_hdr ≢ ptr) h
Freed ptr h (some h') = IsHeap h' × Coalesced h' × (live h' ≡ erase_at ptr (live h))

pub Coalesced-tail : (b : Block) (h : Heap) → Coalesced (b ∷ h) → Coalesced h
Coalesced-tail b [] c = tt
Coalesced-tail b (x ∷ xs) c = c.1

merge-Freed :
    (ptr : ℕ) (h : Heap) (r : Option Heap)
    → Marking heap_start (heap_start + heap_size) ptr h r
    → Freed ptr h (Option.map merge r)
unfolding merge
merge-Freed ptr h none m = m
merge-Freed ptr h (some []) (t, e) = absurd (omega arith)
merge-Freed ptr h (some (b ∷ bs)) (t, e) =
    let r = merge_from-Merged heap_start (heap_start + heap_size) b bs (omega arith) t in
    (
      r.tiles,
      Coalesced-tail (record b { free = false }) (merge_from b bs)
          (r.apart (record b { free = false }) refl),
      r.same_live ∙ e,
    )

-- `kfree` of a pointer other than null in a well-formed heap. If some block has its header in front
-- of the pointer, the heap stays well-formed, no two neighbours are left free, and the live payloads
-- are those of before less the one at the pointer. Otherwise no block has its header there.
pub kfree_lem : (ptr : ℕ) (h : Heap) → IsHeap h → ptr ≢ 0 → Freed ptr h (kfree ptr h)
unfolding kfree
kfree_lem ptr h t ne = rw (ne→== ptr 0 ne) (
    merge-Freed ptr h (mark_free ptr h)
      (mark_free-Marking heap_start (heap_start + heap_size) ptr h t))

pub merge_from-Coalesced : (b : Block) (bs : Heap) → Coalesced (b ∷ bs) → merge_from b bs ≡ b ∷ bs
unfolding merge_from
merge_from-Coalesced b [] c = refl
merge_from-Coalesced b (x ∷ xs) c =
    rw (c.0, merge_from) (ap (λ t. b ∷ t) (merge_from-Coalesced x xs c.1))
