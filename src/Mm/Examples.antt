-- ===== src/Mm/Examples.antt =====
-- The allocator of kernel/mm.c at concrete heaps.
use chris_os.Base.{◌+◌, ◌≡◌, refl, true, false, some, [], ◌∷◌, arith}
use chris_os.Mm.{Heap, heap_start, heap_size, align_up, carve, find_fit, kmalloc, mark_free}
use chris_os.Mm.{merge_from, merge, kfree, mm_init}
use chris_os.Mm.Alloc.{Search, kmalloc_lem}
use chris_os.Mm.Free.{Freed, kfree_lem}
use chris_os.Mm.Shape.{IsHeap, mm_init-IsHeap}
use chris_os.Mm.Undo.{kfree-kmalloc}

-- The heap after the first request, for 100 bytes.
abbrev one_live : Heap
one_live =
    record { addr = 0x200000; size = 104; free = false }
    ∷ record { addr = 0x200074; size = 0xfff80; free = true }
    ∷ []

kmalloc_first : kmalloc 100 mm_init ≡ some (0x20000c, one_live)
unfolding kmalloc find_fit carve align_up mm_init
kmalloc_first = refl

one_live-IsHeap : IsHeap one_live
one_live-IsHeap = omega arith

-- A heap with a hole between two live payloads.
abbrev holed : Heap
holed =
    record { addr = 0x200000; size = 104; free = false }
    ∷ record { addr = 0x200074; size = 48; free = true }
    ∷ record { addr = 0x2000b0; size = 0xfff44; free = false }
    ∷ []

kfree_twice :
    kfree 0x2000bc holed
    ≡ some (
        record { addr = 0x200000; size = 104; free = false }
        ∷ record { addr = 0x200074; size = 0xfff80; free = true }
        ∷ [])
unfolding kfree mark_free merge merge_from
kfree_twice = refl

kmalloc_lem_example :
    Search (align_up 32) heap_start (heap_start + heap_size) holed (kmalloc 32 holed)
kmalloc_lem_example = kmalloc_lem 32 holed (omega arith) (omega arith)

kfree_lem_example : Freed 0x20000c holed (kfree 0x20000c holed)
kfree_lem_example = kfree_lem 0x20000c holed (omega arith) (omega arith)

kfree-kmalloc_example : kfree 0x20000c one_live ≡ some mm_init
kfree-kmalloc_example =
    kfree-kmalloc 100 mm_init mm_init-IsHeap (unfold mm_init in tt) kmalloc_first
