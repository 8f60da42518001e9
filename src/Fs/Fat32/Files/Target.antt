-- ===== src/Fs/Fat32/Files/Target.antt =====
-- Where fat32_write_file of fs/fat32.c puts the entry of a file.
use chris_os.Base.{ℕ, ◌/◌, ◌≡◌, ◌≢◌, List, [], none, some, arith, All}
use chris_os.Fs.Fat32.Chain.{IsChain}
use chris_os.Fs.Fat32.Dir.{find_dir_entry, dir_entry, put_bytes, entry_cluster}
use chris_os.Fs.Fat32.Dir.Found.{IsSlot, free-IsSlot, scan-IsSlot, scan-rewritten}
use chris_os.Fs.Fat32.Dir.Laws.{IsEntry, IsName, scan-created}
use chris_os.Fs.Fat32.Dir.Written.{put_bytes-below}
use chris_os.Fs.Fat32.Files.{cluster_size}
use chris_os.Fs.Fat32.Files.Stored.{IsPlace}
use chris_os.Fs.Fat32.Table.{Volume, read_cluster}

-- Where the search for a name sends a write: to a free entry, for a name that is not there, or to
-- the entry of the name, whose clusters are not those of the directory.
pub data IsTarget (v : Volume) (name : List ℕ) (off : ℕ) : List ℕ → Type 0 where
  fresh :
      (find_dir_entry (read_cluster v v.root_cluster) (cluster_size v) name).0 ≡ none
      → (find_dir_entry (read_cluster v v.root_cluster) (cluster_size v) name).1 ≡ some off
      → IsTarget v name off []
  old :
      (cs : List ℕ)
      → (find_dir_entry (read_cluster v v.root_cluster) (cluster_size v) name).0 ≡ some off
      → IsChain v (entry_cluster (read_cluster v v.root_cluster) off) cs
      → All (λ c. c ≢ v.root_cluster) cs
      → IsTarget v name off cs

slot-IsPlace :
    (dir name : List ℕ) (size off : ℕ)
    → IsSlot (size / 32) 0 off
    → ((c n : ℕ)
        → IsEntry (put_bytes dir off (dir_entry name c n)) name off
        → (find_dir_entry (put_bytes dir off (dir_entry name c n)) size name).0 ≡ some off)
    → IsPlace dir size name off
slot-IsPlace dir name size off slot again =
    let a = slot.aligned in
    let r = slot.room in record { aligned = omega arith; inside = omega arith; found_again = again }

pub IsTarget-IsPlace :
    (v : Volume) (name : List ℕ) (off : ℕ) (cs : List ℕ)
    → IsName name
    → IsTarget v name off cs
    → IsPlace (read_cluster v v.root_cluster) (cluster_size v) name off
unfolding find_dir_entry
IsTarget-IsPlace v name off cs is (fresh e0 e1) =
    let dir = read_cluster v v.root_cluster in
    let n = cluster_size v / 32 in
    slot-IsPlace dir name (cluster_size v) off (free-IsSlot dir name n 0 off e0 e1) (λ c k entry.
      scan-created dir (put_bytes dir off (dir_entry name c k)) name n 0 off is.size
        (put_bytes-below (dir_entry name c k) dir off) entry e0 e1)
IsTarget-IsPlace v name off cs is (old ds e0 chain apart) =
    let dir = read_cluster v v.root_cluster in
    let n = cluster_size v / 32 in
    slot-IsPlace dir name (cluster_size v) off (scan-IsSlot dir name n 0 off none e0) (λ c k entry.
      scan-rewritten dir (put_bytes dir off (dir_entry name c k)) name n 0 off none none is.size
        (put_bytes-below (dir_entry name c k) dir off) entry e0)
