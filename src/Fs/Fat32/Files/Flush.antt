-- ===== src/Fs/Fat32/Files/Flush.antt =====
-- The root directory of fs/fat32.c after one of its sectors has been written back.
use chris_os.Base.{ℕ, ◌+◌, ◌*◌, ◌/◌, ◌%◌, ◌≤◌, ◌≡◌, sym, ◌∙◌, ◌≢◌, List, arith, length, get_or}
use chris_os.Base.{take, drop, length-take, length-drop, Bool-cases, inl, inr, ltb}
use chris_os.Base.Word.{u32}
use chris_os.Fs.Fat32.Areas.{Written, unchanged, written}
use chris_os.Fs.Fat32.Dir.{flush_dir_sector, put_bytes}
use chris_os.Fs.Fat32.Dir.Found.{length-put_bytes, put_bytes-above}
use chris_os.Fs.Fat32.Dir.Written.{put_bytes-below}
use chris_os.Fs.Fat32.Layout.{IsLaidOut, first, cluster_lba-first, length-read_cluster}
use chris_os.Fs.Fat32.Sectors.{read_sectors-write_sector}
use chris_os.Fs.Fat32.Table.{Volume, read_cluster, cluster_lba, write_sector}

-- A directory that differs from the one on the disk in one entry only.
pub record IsEdited (v : Volume) (new : List ℕ) (off : ℕ) : Type 0 where
  pub aligned : off % 32 ≡ 0
  pub inside : off + 32 ≤ v.sectors_per_cluster * 512
  pub size : length new ≡ v.sectors_per_cluster * 512
  pub others :
      (k : ℕ) → k / 32 ≢ off / 32 → get_or new k 0 ≡ get_or (read_cluster v v.root_cluster) k 0

-- Only the cluster of the directory is written, and the directory reads as the changed buffer.
pub record IsFlushed (v : Volume) (new : List ℕ) (w : Volume) : Type 0 where
  pub root_only :
      Written (first v v.root_cluster) (first v v.root_cluster + v.sectors_per_cluster) v w
  pub reads : read_cluster w w.root_cluster ≡ new

pub flush_dir_sector_lem :
    (v : Volume) (new : List ℕ) (off : ℕ)
    → IsLaidOut v
    → IsEdited v new off
    → IsFlushed v new (flush_dir_sector v new off)
unfolding flush_dir_sector read_cluster cluster_lba write_sector
flush_dir_sector_lem v new off lay ed =
    let inside = ed.inside in
    let fits = lay.clusters v.root_cluster lay.root in
    let lba = cluster_lba-first v v.root_cluster lay lay.root in
    let start = cluster_lba v v.root_cluster in
    let no : u32 (start + off / 512) ≡ start + off / 512 = omega arith in
    let sector = take 512 (drop (off / 512 * 512) new) in
    let lt = length-take 512 (drop (off / 512 * 512) new) in
    let ld = length-drop (off / 512 * 512) new in
    let size = ed.size in
    record {
      root_only =
          rw no (
            written (start + off / 512) sector (omega arith) (omega arith) (omega arith) unchanged);
      reads = rw no (
          read_sectors-write_sector v v.sectors_per_cluster start (off / 512) new (omega arith)
            lay.volume.sectors (omega arith) ed.size (λ k ne. ed.others k (λ e. ne (omega arith))));
    }

-- The directory with an entry written over.
pub put_bytes-IsEdited :
    (v : Volume) (entry : List ℕ) (off : ℕ)
    → IsLaidOut v
    → length entry ≡ 32
    → off % 32 ≡ 0
    → off + 32 ≤ v.sectors_per_cluster * 512
    → IsEdited v (put_bytes (read_cluster v v.root_cluster) off entry) off
put_bytes-IsEdited v entry off lay len al inside =
    let dir = read_cluster v v.root_cluster in
    record {
      aligned = al;
      inside = inside;
      size = length-put_bytes entry dir off ∙ length-read_cluster v v.root_cluster lay;
      others = λ k ne. elim (Bool-cases (ltb k off)) [
        | inl l ↦ sym (put_bytes-below entry dir off k (ground arith))
        | inr g ↦
            (let h : off ≤ k = ground arith in
              let far : off + 32 ≤ k = omega arith in put_bytes-above entry dir off k (omega arith))
      ];
    }
