-- ===== src/Fs/Fat32/Files.antt =====
-- fs/fat32.c: mounting and the operations on files. A buffer from the heap is a value, the disk
-- answers every request, and the messages of the terminal are the outcomes.
pub mod Flush
pub mod Stored
pub mod Single
pub mod Roundtrip
pub mod Target
pub mod Create
mod Examples
use chris_os.Base.{ℕ, zero, suc, ◌+◌, ◌-◌, ◌*◌, ◌&&◌, ◌||◌, Option, none, some, List, [], ◌++◌}
use chris_os.Base.{◌==◌, ltb, leb, if◌then◌else◌, length, set, replicate}
use chris_os.Base.Word.{u32, le16, le32}
use chris_os.Fs.Fat32.Dir.{find_dir_entry, dir_entry, put_bytes, entry_cluster, entry_size}
use chris_os.Fs.Fat32.Dir.{flush_dir_sector}
use chris_os.Fs.Fat32.Names.{name_to_fat83}
use chris_os.Fs.Fat32.Table.{Volume, Sector, read_cluster, write_cluster, fat_get}
use chris_os.Fs.Fat32.Table.{fat_alloc_cluster, fat_free_chain, in_chain}
use chris_os.Net.Types.{bytes_at}

-- What an operation reports: its result 1, or the message before its result 0.
pub data Outcome : Type 0 where
  done : Outcome
  not_found : Outcome
  already_exists : Outcome
  directory_full : Outcome
  disk_full : Outcome
  too_large : Outcome

-- `fat32_init`: the fields of the parameter block in sector 0, or `none` for a bad signature.
unfoldable pub fat32_init : (ℕ → Sector) → Option Volume
fat32_init disk =
    let at = bytes_at (disk (u32 20480)) in
    let fats = at 16 in
    let per_fat = le32 at 36 in
    let start = le16 at 14 in
    if at 66 == 0x28 || at 66 == 0x29
    then some (record {
      sectors_per_cluster = at 13;
      fat_count = fats;
      sectors_per_fat = per_fat;
      fat_start = start;
      data_start = u32 (start + fats * per_fat);
      root_cluster = le32 at 44;
      disk = disk;
    })
    else none

unfoldable pub cluster_size : Volume → ℕ
cluster_size v = v.sectors_per_cluster * 512

-- The loop of `fat32_read_file`, with fuel: the bytes that it stores at `buf`. A cluster is always
-- stored whole, so the last one may go past the end of the file.
unfoldable pub read_chain : ℕ → Volume → ℕ → ℕ → Option (List ℕ)
read_chain zero v cluster remaining = none
read_chain (suc fuel) v cluster remaining =
    let chunk = if ltb (cluster_size v) remaining then cluster_size v else remaining in
    let rest = read_chain fuel v (fat_get v cluster) (remaining - chunk) in
    if in_chain cluster && ltb 0 remaining
    then (elim rest [ none ↦ none | some bytes ↦ some (read_cluster v cluster ++ bytes) ])
    else some []

-- The size of the file and the bytes at `buf`.
unfoldable pub read_entry : ℕ → Volume → List ℕ → Option ℕ → Option (ℕ × List ℕ)
read_entry fuel v dir none = some (0, [])
read_entry fuel v dir (some off) =
    elim (read_chain fuel v (entry_cluster dir off) (entry_size dir off)) [
      | none ↦ none
      | some bytes ↦ some (entry_size dir off, bytes)
    ]

unfoldable pub fat32_read_file : ℕ → Volume → List ℕ → Option (ℕ × List ℕ)
fat32_read_file fuel v name =
    let dir = read_cluster v v.root_cluster in
    read_entry fuel v dir (find_dir_entry dir (cluster_size v) (name_to_fat83 name)).0

-- `fat32_create_file` once the entry has been looked for.
unfoldable pub create_at : Volume → List ℕ → List ℕ → Option ℕ → Option ℕ → Outcome × Volume
create_at v dir name (some off) free = (already_exists, v)
create_at v dir name none none = (directory_full, v)
create_at v dir name none (some off) =
    (done, flush_dir_sector v (put_bytes dir off (dir_entry name 0 0)) off)

unfoldable pub fat32_create_file : Volume → List ℕ → Outcome × Volume
fat32_create_file v name =
    let dir = read_cluster v v.root_cluster in
    let fatname = name_to_fat83 name in
    let found = find_dir_entry dir (cluster_size v) fatname in
    create_at v dir fatname found.0 found.1

-- The end of `fat32_write_file`: the entry of the file is written.
unfoldable pub write_entry : Volume → List ℕ → List ℕ → ℕ → ℕ → ℕ → Volume
write_entry v dir name off cluster size =
    flush_dir_sector v (put_bytes dir off (dir_entry name cluster size)) off

-- The cluster's bytes: those of the file, then zeros.
unfoldable pub cluster_image : Volume → List ℕ → List ℕ
cluster_image v bytes = bytes ++ replicate (cluster_size v - length bytes) 0

-- What follows the allocation of a cluster, whose number is 0 on a full disk.
unfoldable pub write_allocated : List ℕ → List ℕ → ℕ → List ℕ → ℕ × Volume → Outcome × Volume
write_allocated dir name off bytes (zero, v) = (disk_full, v)
write_allocated dir name off bytes (suc c, v) = (
  done,
  write_entry (write_cluster v (suc c) (cluster_image v bytes)) dir name off (suc c) (length bytes),
)

unfoldable pub write_at : Volume → List ℕ → List ℕ → ℕ → List ℕ → Outcome × Volume
write_at v dir name off bytes =
    if ltb 0 (length bytes)
    then write_allocated dir name off bytes (fat_alloc_cluster v)
    else (done, write_entry v dir name off 0 0)

-- The old chain of an existing file is freed, if it has one.
unfoldable pub free_old : ℕ → Volume → ℕ → Option Volume
free_old fuel v cluster = if leb 2 cluster then fat_free_chain fuel v cluster else some v

unfoldable pub write_found :
    ℕ → Volume → List ℕ → List ℕ → List ℕ → Option ℕ → Option ℕ → Option (Outcome × Volume)
write_found fuel v dir name bytes (some off) free = elim (free_old fuel v (entry_cluster dir off)) [
  | none ↦ none
  | some w ↦ some (write_at w dir name off bytes)
]
write_found fuel v dir name bytes none none = some (directory_full, v)
write_found fuel v dir name bytes none (some off) = some (write_at v dir name off bytes)

-- `fat32_write_file`, the size being the length of the bytes; `none` means that the fuel ran out.
unfoldable pub fat32_write_file : ℕ → Volume → List ℕ → List ℕ → Option (Outcome × Volume)
fat32_write_file fuel v name bytes =
    let dir = read_cluster v v.root_cluster in
    let fatname = name_to_fat83 name in
    let found = find_dir_entry dir (cluster_size v) fatname in
    if ltb (cluster_size v) (length bytes)
    then some (too_large, v)
    else write_found fuel v dir fatname bytes found.0 found.1

unfoldable pub delete_found : ℕ → Volume → List ℕ → Option ℕ → Option (Outcome × Volume)
delete_found fuel v dir none = some (not_found, v)
delete_found fuel v dir (some off) = elim (free_old fuel v (entry_cluster dir off)) [
  | none ↦ none
  | some w ↦ some (done, flush_dir_sector w (set dir off 0xE5) off)
]

unfoldable pub fat32_delete_file : ℕ → Volume → List ℕ → Option (Outcome × Volume)
fat32_delete_file fuel v name =
    let dir = read_cluster v v.root_cluster in
    delete_found fuel v dir (find_dir_entry dir (cluster_size v) (name_to_fat83 name)).0
