-- ===== src/Fs/Fat32/Dir.antt =====
-- fs/fat32.c: the root directory as a buffer of entries of 32 bytes.
pub mod Written
pub mod Laws
pub mod Found
use chris_os.Base.{ℕ, zero, suc, ◌+◌, ◌-◌, ◌*◌, ◌/◌, ◌%◌, ◌^◌, ◌≤◌, ◌<◌, min, bit_and, ◌≡◌}
use chris_os.Base.{refl, sym, ap, ap₂, ◌∙◌, ◌≢◌, ◌↔◌, ◌⊎◌, inl, inr, Bool, true, false, not}
use chris_os.Base.{◌&&◌, ◌||◌, Option, none, some, List, [], ◌∷◌, ◌++◌, map, arith, ◌==◌, ltb}
use chris_os.Base.{leb, if◌then◌else◌, eq→==, ne→==, ==→eq, lt→ltb, le→ltb, Bool-cases}
use chris_os.Base.{Option-cases, length, get_or, set, take, drop, replicate, length-append}
use chris_os.Base.{length-set, length-replicate, get_or-set_self, get_or-set_ne, All}
use chris_os.Base.Word.{u16, u32, le16, le32}
use chris_os.Fs.Fat32.Table.{Volume, write_sector, cluster_lba}
use chris_os.Net.Types.{bytes_at, store16, store32}

-- The loop that compares names: `n` bytes from `i` on.
unfoldable pub same_name : List ℕ → List ℕ → ℕ → Bool
same_name buf [] i = true
same_name buf (c ∷ name) i = c == get_or buf i 0 && same_name buf name (i + 1)

-- The loop of `find_dir_entry`: `left` entries from offset `off` on, with `*free_off` so far. The
-- results are the offset of the entry and that of a free one, `none` for -1.
unfoldable pub scan : List ℕ → List ℕ → ℕ → ℕ → Option ℕ → Option ℕ × Option ℕ
scan buf name zero off free = (none, free)
scan buf name (suc left) off free =
    let first = get_or buf off 0 in
    let here : Option ℕ = elim free [ none ↦ some off | some f ↦ some f ] in
    let next = scan buf name left (off + 32) (if first == 0xE5 then here else free) in
    if first == 0
    then (none, here)
    else if first == 0xE5
    then next
    else if get_or buf (off + 11) 0 == 0x0F
    then next
    else if same_name buf name off
    then (some off, free)
    else next

unfoldable pub find_dir_entry : List ℕ → ℕ → List ℕ → Option ℕ × Option ℕ
find_dir_entry buf cluster_size name = scan buf name (cluster_size / 32) 0 none

-- The 32 bytes of an entry for a file.
unfoldable pub dir_entry : List ℕ → ℕ → ℕ → List ℕ
dir_entry name cluster size =
    name
    ++ (0x20
        ∷ 0
        ∷ 0
        ∷ (replicate 6 0
            ++ (store16 (u16 (cluster / 2 ^ 16))
                ++ (replicate 4 0 ++ (store16 (cluster % 2 ^ 16) ++ store32 size)))))

-- Bytes written into a buffer from an offset on.
unfoldable pub put_bytes : List ℕ → ℕ → List ℕ → List ℕ
put_bytes buf off [] = buf
put_bytes buf off (b ∷ bs) = put_bytes (set buf off b) (off + 1) bs

-- The first cluster and the size of the file of the entry at an offset.
unfoldable pub entry_cluster : List ℕ → ℕ → ℕ
entry_cluster buf off = le16 (bytes_at buf) (off + 20) * 2 ^ 16 + le16 (bytes_at buf) (off + 26)

unfoldable pub entry_size : List ℕ → ℕ → ℕ
entry_size buf off = le32 (bytes_at buf) (off + 28)

unfoldable pub flush_dir_sector : Volume → List ℕ → ℕ → Volume
flush_dir_sector v buf off =
    let sec = off / 512 in
    write_sector v (u32 (cluster_lba v v.root_cluster + sec)) (take 512 (drop (sec * 512) buf))
