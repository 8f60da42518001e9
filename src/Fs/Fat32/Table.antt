-- ===== src/Fs/Fat32/Table.antt =====
-- fs/fat32.c: the volume, its sectors and clusters, and the file allocation table.
--
-- The disk is a function from the sector's number to its bytes; it answers every request. The
-- buffers that the code takes from the heap are values.
pub mod Laws
use chris_os.Base.{ℕ, zero, suc, ◌+◌, ◌-◌, ◌*◌, ◌/◌, ◌%◌, ◌^◌, ◌≤◌, ◌<◌, min, bit_and, ◌≡◌}
use chris_os.Base.{refl, sym, ap, ap₂, ◌∙◌, ◌≢◌, ◌↔◌, ◌⊎◌, inl, inr, Bool, true, false, not}
use chris_os.Base.{◌&&◌, ◌||◌, Option, none, some, List, [], ◌∷◌, ◌++◌, map, arith, ◌==◌, ltb}
use chris_os.Base.{leb, if◌then◌else◌, eq→==, ne→==, ==→eq, lt→ltb, le→ltb, Bool-cases}
use chris_os.Base.{Option-cases, length, get_or, set, take, drop, replicate, length-append}
use chris_os.Base.{length-set, length-replicate, get_or-set_self, get_or-set_ne, All}
use chris_os.Base.Word.{u32, le32}
use chris_os.Net.Types.{bytes_at, store32}

abbrev pub Sector : Type 0
Sector = List ℕ

abbrev pub fat32_start_lba : ℕ
fat32_start_lba = 20480

-- The fields of the parameter block that the code uses after `fat32_init`, the statics that it
-- computes, and the disk.
pub record Volume : Type 0 where
  pub sectors_per_cluster : ℕ
  pub fat_count : ℕ
  pub sectors_per_fat : ℕ
  pub fat_start : ℕ
  pub data_start : ℕ
  pub root_cluster : ℕ
  pub disk : ℕ → Sector

unfoldable pub read_sector : Volume → ℕ → Sector
read_sector v lba = v.disk (u32 (fat32_start_lba + lba))

unfoldable pub write_sector : Volume → ℕ → Sector → Volume
write_sector v lba buf = record v {
  disk = λ n. if n == u32 (fat32_start_lba + lba) then buf else v.disk n;
}

-- The first sector of a cluster.
unfoldable pub cluster_lba : Volume → ℕ → ℕ
cluster_lba v cluster = u32 (v.data_start + (cluster + 2 ^ 32 - 2) * v.sectors_per_cluster)

-- `left` sectors from `lba` on, one behind the other.
unfoldable pub read_sectors : Volume → ℕ → ℕ → List ℕ
read_sectors v zero lba = []
read_sectors v (suc left) lba = read_sector v lba ++ read_sectors v left (u32 (lba + 1))

unfoldable pub read_cluster : Volume → ℕ → List ℕ
read_cluster v cluster = read_sectors v v.sectors_per_cluster (cluster_lba v cluster)

unfoldable pub write_sectors : Volume → ℕ → ℕ → List ℕ → Volume
write_sectors v zero lba buf = v
write_sectors v (suc left) lba buf =
    write_sectors (write_sector v lba (take 512 buf)) left (u32 (lba + 1)) (drop 512 buf)

unfoldable pub write_cluster : Volume → ℕ → List ℕ → Volume
write_cluster v cluster buf = write_sectors v v.sectors_per_cluster (cluster_lba v cluster) buf

-- `*(uint32_t*)(buf + off)`, read and written
abbrev pub word_at : Sector → ℕ → ℕ
word_at buf off = le32 (bytes_at buf) off

abbrev pub set_word : Sector → ℕ → ℕ → Sector
set_word buf off w =
    set (set (set (set buf off (w % 256)) (off + 1) (w / 2 ^ 8 % 256)) (off + 2) (w / 2 ^ 16 % 256))
      (off + 3) (w / 2 ^ 24 % 256)

-- The sector of the table that holds the entry of a cluster, and where it stands there.
abbrev pub fat_sector : Volume → ℕ → ℕ
fat_sector v cluster = u32 (v.fat_start + u32 (cluster * 4) / 512)

abbrev pub fat_offset : ℕ → ℕ
fat_offset cluster = u32 (cluster * 4) % 512

unfoldable pub fat_get : Volume → ℕ → ℕ
fat_get v cluster = word_at (read_sector v (fat_sector v cluster)) (fat_offset cluster) % 2 ^ 28

-- A table entry with its low 28 bits replaced.
abbrev pub merge_entry : ℕ → ℕ → ℕ
merge_entry existing value = existing / 2 ^ 28 * 2 ^ 28 + value % 2 ^ 28

-- The sector goes to the first table, and to the second one if there is one.
unfoldable pub write_fats : Volume → ℕ → ℕ → Sector → Volume
write_fats v first second buf =
    if ltb 1 v.fat_count
    then write_sector (write_sector v first buf) second buf
    else write_sector v first buf

unfoldable pub fat_set : Volume → ℕ → ℕ → Volume
fat_set v cluster value =
    let sector = fat_sector v cluster in
    let off = fat_offset cluster in
    let buf = read_sector v sector in
    write_fats v sector (u32 (sector + v.sectors_per_fat))
      (set_word buf off (merge_entry (word_at buf off) value))

-- The inner loop of `fat_alloc_cluster`: `left` entries of sector `s` from index `i` on.
unfoldable pub free_entry : Sector → ℕ → ℕ → ℕ → Option ℕ
free_entry buf s zero i = none
free_entry buf s (suc left) i =
    let rest = free_entry buf s left (i + 1) in
    if ltb (u32 (s * 128 + i)) 2
    then rest
    else if word_at buf (i * 4) % 2 ^ 28 == 0
    then some i
    else rest

-- The outer loop: `left` sectors of the table from `s` on. The result is the cluster, 0 if there is
-- none.
unfoldable pub alloc_from : Volume → ℕ → ℕ → ℕ × Volume
alloc_from v zero s = (0, v)
alloc_from v (suc left) s =
    let buf = read_sector v (u32 (v.fat_start + s)) in
    let rest = alloc_from v left (s + 1) in
    elim (free_entry buf s 128 0) [
      | none ↦ rest
      | some i ↦ (
        u32 (s * 128 + i),
        write_fats v (u32 (v.fat_start + s)) (u32 (v.fat_start + v.sectors_per_fat + s))
            (set_word buf (i * 4) (merge_entry (word_at buf (i * 4)) 0x0FFFFFFF)),
      )
    ]

unfoldable pub fat_alloc_cluster : Volume → ℕ × Volume
fat_alloc_cluster v = alloc_from v v.sectors_per_fat 0

-- `cluster >= 2 && cluster < 0x0FFFFFF8`
abbrev pub in_chain : ℕ → Bool
in_chain cluster = leb 2 cluster && ltb cluster 0x0FFFFFF8

-- The loop over the chain, with fuel; `none` means that the fuel ran out.
unfoldable pub fat_free_chain : ℕ → Volume → ℕ → Option Volume
fat_free_chain zero v cluster = none
fat_free_chain (suc fuel) v cluster =
    let rest = fat_free_chain fuel (fat_set v cluster 0) (fat_get v cluster) in
    if in_chain cluster then rest else some v
