-- ===== src/Fs/Fat32/Files/Create.antt =====
-- Creating an empty file of fs/fat32.c, and creating it again.
use chris_os.Base.{ℕ, suc, ◌+◌, ◌≤◌, ◌≡◌, refl, sym, ap, ◌∙◌, List, [], Option, none, some}
use chris_os.Base.{arith, length}
use mathlib.Core.Path.{subst}
use chris_os.Fs.Fat32.Dir.{find_dir_entry, dir_entry, put_bytes, entry_cluster, entry_size}
use chris_os.Fs.Fat32.Dir.Laws.{IsName, IsEntry-written}
use chris_os.Fs.Fat32.Dir.Written.{fields-written}
use chris_os.Fs.Fat32.Files.{done, already_exists, cluster_size, create_at, fat32_create_file}
use chris_os.Fs.Fat32.Files.{fat32_read_file, read_chain, read_entry, write_entry}
use chris_os.Fs.Fat32.Files.Flush.{IsFlushed}
use chris_os.Fs.Fat32.Files.Stored.{IsPlace, cluster_size-Written, length-dir, write_entry_lem}
use chris_os.Fs.Fat32.Files.Target.{fresh, IsTarget-IsPlace}
use chris_os.Fs.Fat32.Layout.{IsLaidOut, IsLaidOut-Written}
use chris_os.Fs.Fat32.Names.{name_to_fat83}
use chris_os.Fs.Fat32.Table.{Volume, read_cluster}

create_at-free :
    (v : Volume) (dir name : List ℕ) (off : ℕ)
    → create_at v dir name none (some off) ≡ (done, write_entry v dir name off 0 0)
unfolding create_at write_entry
create_at-free v dir name off = refl

create_at-found :
    (v : Volume) (dir name : List ℕ) (off : ℕ) (free : Option ℕ)
    → create_at v dir name (some off) free ≡ (already_exists, v)
unfolding create_at
create_at-found v dir name off free = refl

read_entry-empty :
    (v : Volume) (dir : List ℕ) (off fuel : ℕ)
    → entry_cluster dir off ≡ 0
    → entry_size dir off ≡ 0
    → read_entry (suc fuel) v dir (some off) ≡ some (0, [])
unfolding read_entry read_chain
read_entry-empty v dir off fuel ec en = rw (read_entry, read_chain, ec, en) refl

-- A volume on which a file exists that has no bytes.
pub record IsCreated (name : List ℕ) (w : Volume) : Type 0 where
  pub laid_out : IsLaidOut w
  pub reads : (fuel : ℕ) → fat32_read_file (suc fuel) w name ≡ some (0, [])
  pub again : fat32_create_file w name ≡ (already_exists, w)

-- The search after an entry has been flushed for a name.
found_flushed :
    (v w : Volume) (dir name : List ℕ) (off : ℕ)
    → IsLaidOut v
    → read_cluster v v.root_cluster ≡ dir
    → IsName name
    → IsPlace dir (cluster_size v) name off
    → IsFlushed v (put_bytes dir off (dir_entry name 0 0)) w
    → ((find_dir_entry (read_cluster w w.root_cluster) (cluster_size w) name).0 ≡ some off)
      × (entry_cluster (read_cluster w w.root_cluster) off ≡ 0)
      × (entry_size (read_cluster w w.root_cluster) off ≡ 0)
found_flushed v w dir name off lay same is place flushed =
    let size = cluster_size-Written flushed.root_only in
    let len = length-dir v dir lay same in
    let inside = place.inside in
    let room : off + 32 ≤ length dir = omega arith in
    let fields = fields-written dir name 0 0 off is.size room (omega arith) (omega arith) in
    let found = place.found_again 0 0 (IsEntry-written dir name 0 0 off is room) in
    subst
      (λ d.
        ((find_dir_entry d (cluster_size w) name).0 ≡ some off)
        × (entry_cluster d off ≡ 0)
        × (entry_size d off ≡ 0))
      (sym flushed.reads)
      (
        subst (λ s. (find_dir_entry (put_bytes dir off (dir_entry name 0 0)) s name).0 ≡ some off)
            size found,
        fields.0,
        fields.1,
      )

IsFlushed-IsCreated :
    (v w : Volume) (name : List ℕ) (off : ℕ)
    → IsLaidOut v
    → IsName (name_to_fat83 name)
    → IsPlace (read_cluster v v.root_cluster) (cluster_size v) (name_to_fat83 name) off
    → IsFlushed v
        (put_bytes (read_cluster v v.root_cluster) off (dir_entry (name_to_fat83 name) 0 0))
        w
    → IsCreated name w
unfolding fat32_read_file fat32_create_file
IsFlushed-IsCreated v w name off lay is place flushed =
    let fatname = name_to_fat83 name in
    let dir = read_cluster w w.root_cluster in
    let found =
      found_flushed v w (read_cluster v v.root_cluster) fatname off lay refl is place flushed in
    record {
      laid_out = IsLaidOut-Written lay flushed.root_only;
      reads = λ fuel.
          ap (read_entry (suc fuel) w dir) found.0
          ∙ read_entry-empty w dir off fuel found.1 found.2;
      again =
          ap (λ o. create_at w dir fatname o (find_dir_entry dir (cluster_size w) fatname).1)
            found.0
          ∙ create_at-found w dir fatname off _;
    }

-- Creating a file whose name is not in the directory, of a laid-out volume with a free entry there,
-- succeeds: on the volume that it leaves the file reads with size 0 and no bytes, and creating it a
-- second time is refused and changes nothing.
pub fat32_create_file-create_file :
    (v : Volume) (name : List ℕ) (off : ℕ)
    → IsLaidOut v
    → IsName (name_to_fat83 name)
    → (find_dir_entry (read_cluster v v.root_cluster) (cluster_size v) (name_to_fat83 name)).0
      ≡ none
    → (find_dir_entry (read_cluster v v.root_cluster) (cluster_size v) (name_to_fat83 name)).1
      ≡ some off
    → (w : Volume) × (fat32_create_file v name ≡ (done, w)) × IsCreated name w
unfolding fat32_create_file
fat32_create_file-create_file v name off lay is e0 e1 =
    let fatname = name_to_fat83 name in
    let dir = read_cluster v v.root_cluster in
    let place = IsTarget-IsPlace v fatname off [] is (fresh e0 e1) in
    (
      write_entry v dir fatname off 0 0,
      rw (fat32_create_file, e0, e1) (create_at-free v dir fatname off),
      IsFlushed-IsCreated v (write_entry v dir fatname off 0 0) name off lay is place
          (write_entry_lem v dir fatname off 0 0 lay refl is place),
    )
