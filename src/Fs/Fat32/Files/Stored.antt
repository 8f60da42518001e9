-- ===== src/Fs/Fat32/Files/Stored.antt =====
-- A file of fs/fat32.c that has been written, and its clusters.
use chris_os.Base.{ℕ, zero, suc, ◌+◌, ◌-◌, ◌*◌, ◌%◌, ◌^◌, ◌≤◌, ◌<◌, ◌≡◌, refl, sym, ap, ◌∙◌}
use chris_os.Base.{◌≢◌, ◌++◌, List, some, arith, length, replicate}
use mathlib.Core.Path.{subst}
use chris_os.Fs.Fat32.Areas.{Written-params, Written}
use chris_os.Fs.Fat32.Dir.{find_dir_entry, dir_entry, put_bytes, entry_cluster, entry_size}
use chris_os.Fs.Fat32.Dir.Laws.{IsName, IsEntry, IsEntry-written}
use chris_os.Fs.Fat32.Dir.Written.{length-dir_entry, fields-written}
use chris_os.Fs.Fat32.Files.{done, cluster_image, cluster_size, fat32_read_file}
use chris_os.Fs.Fat32.Files.{write_allocated, write_entry}
use chris_os.Fs.Fat32.Files.Flush.{IsEdited, IsFlushed, flush_dir_sector_lem}
use chris_os.Fs.Fat32.Files.Flush.{put_bytes-IsEdited}
use chris_os.Fs.Fat32.Files.Single.{length-cluster_image, fat32_read_file-one_cluster}
use chris_os.Fs.Fat32.Layout.{IsCluster, IsLaidOut, IsLaidOut-Written, IsCluster-Written}
use chris_os.Fs.Fat32.Layout.{root-Written, other_cluster, tables_apart}
use chris_os.Fs.Fat32.Layout.{read_cluster-write_cluster, write_cluster-Written}
use chris_os.Fs.Fat32.Layout.{length-read_cluster}
use chris_os.Fs.Fat32.Names.{name_to_fat83}
use chris_os.Fs.Fat32.Table.{Volume, read_cluster, write_cluster}

-- Where the entry of a file goes in a directory: an entry of 32 bytes, which the search finds once
-- it is written there.
pub record IsPlace (dir : List ℕ) (size : ℕ) (name : List ℕ) (off : ℕ) : Type 0 where
  pub aligned : off % 32 ≡ 0
  pub inside : off + 32 ≤ size
  pub found_again :
      (c n : ℕ)
      → IsEntry (put_bytes dir off (dir_entry name c n)) name off
      → (find_dir_entry (put_bytes dir off (dir_entry name c n)) size name).0 ≡ some off

-- A volume after a file has been written: the file reads back, and of the other clusters only that
-- of the directory and the one taken for the file are changed.
pub record IsSaved (v : Volume) (name bytes : List ℕ) (w : Volume) : Type 0 where
  pub laid_out : IsLaidOut w
  pub reads :
      (fuel : ℕ)
      → fat32_read_file (suc (suc fuel)) w name ≡ some (length bytes, cluster_image v bytes)
  pub taken : ℕ
  pub others :
      (d : ℕ) → IsCluster v d → d ≢ v.root_cluster → d ≢ taken → read_cluster w d ≡ read_cluster v d

-- What writing the entry of a file leaves of a volume whose directory is `dir`.
pub write_entry_lem :
    (v : Volume) (dir name : List ℕ) (off c n : ℕ)
    → IsLaidOut v
    → read_cluster v v.root_cluster ≡ dir
    → IsName name
    → IsPlace dir (cluster_size v) name off
    → IsFlushed v (put_bytes dir off (dir_entry name c n)) (write_entry v dir name off c n)
unfolding write_entry cluster_size
write_entry_lem v dir name off c n lay same is place =
    let new = put_bytes dir off (dir_entry name c n) in
    flush_dir_sector_lem v new off lay (
      subst (λ d. IsEdited v (put_bytes d off (dir_entry name c n)) off) same
        (put_bytes-IsEdited v (dir_entry name c n) off lay (length-dir_entry name c n is.size)
          place.aligned place.inside))

pub cluster_size-Written :
    {lo hi : ℕ} {v w : Volume} → Written lo hi v w → cluster_size v ≡ cluster_size w
unfolding cluster_size
cluster_size-Written wr = ap (λ x. x.sectors_per_cluster * 512) (Written-params wr)

cluster_image-Written :
    {lo hi : ℕ} {v w : Volume} (bytes : List ℕ)
    → Written lo hi v w
    → cluster_image v bytes ≡ cluster_image w bytes
unfolding cluster_image cluster_size
cluster_image-Written bytes wr =
    ap (λ x. bytes ++ replicate (x.sectors_per_cluster * 512 - length bytes) 0) (Written-params wr)

pub cluster_size-bound : (v : Volume) → IsLaidOut v → cluster_size v < 2 ^ 32
unfolding cluster_size
cluster_size-bound v lay = let p = lay.per_cluster in omega arith

pub length-dir :
    (v : Volume) (dir : List ℕ)
    → IsLaidOut v
    → read_cluster v v.root_cluster ≡ dir
    → length dir ≡ cluster_size v
unfolding cluster_size
length-dir v dir lay same = ap length (sym same) ∙ length-read_cluster v v.root_cluster lay

-- A file whose entry has just been flushed is read from its cluster.
flushed_reads :
    (v w : Volume) (dir name : List ℕ) (off c n fuel : ℕ)
    → IsLaidOut v
    → IsCluster v c
    → read_cluster v v.root_cluster ≡ dir
    → IsName (name_to_fat83 name)
    → IsPlace dir (cluster_size v) (name_to_fat83 name) off
    → 0 < n
    → n ≤ cluster_size v
    → IsFlushed v (put_bytes dir off (dir_entry (name_to_fat83 name) c n)) w
    → fat32_read_file (suc (suc fuel)) w name ≡ some (n, read_cluster w c)
flushed_reads v w dir name off c n fuel lay isc same is place pos fits flushed =
    let fatname = name_to_fat83 name in
    let new = put_bytes dir off (dir_entry fatname c n) in
    let size = cluster_size-Written flushed.root_only in
    let len = length-dir v dir lay same in
    let inside = place.inside in
    let room : off + 32 ≤ length dir = omega arith in
    let entry = IsEntry-written dir fatname c n off is room in
    let numbers = lay.numbers in
    let bound = cluster_size-bound v lay in
    let fields = fields-written dir fatname c n off is.size room (omega arith) (omega arith) in
    let whole = sym flushed.reads in
    fat32_read_file-one_cluster w name off c n fuel (IsLaidOut-Written lay flushed.root_only)
      (IsCluster-Written c flushed.root_only isc) pos (omega arith)
      (subst (λ d. (find_dir_entry d (cluster_size w) fatname).0 ≡ some off) whole
        (subst (λ s. (find_dir_entry new s fatname).0 ≡ some off) size
          (place.found_again c n entry)))
      (subst (λ d. entry_cluster d off ≡ c) whole fields.0)
      (subst (λ d. entry_size d off ≡ n) whole fields.1)

-- A cluster that is free takes the bytes of a file, and the directory its entry.
pub write_allocated-IsSaved :
    (v v1 : Volume) (dir name bytes : List ℕ) (off c : ℕ)
    → IsLaidOut v
    → IsCluster v c
    → c ≢ v.root_cluster
    → Written v.fat_start v.data_start v v1
    → read_cluster v v.root_cluster ≡ dir
    → IsName (name_to_fat83 name)
    → IsPlace dir (cluster_size v) (name_to_fat83 name) off
    → 0 < length bytes
    → length bytes ≤ cluster_size v
    → (w : Volume) × (write_allocated dir (name_to_fat83 name) off bytes (c, v1) ≡ (done, w))
      × IsSaved v name bytes w
unfolding write_allocated
write_allocated-IsSaved v v1 dir name bytes off zero lay isc ne wr1 same is place pos fits =
    absurd (omega arith)
write_allocated-IsSaved v v1 dir name bytes off (suc c') lay isc ne wr1 same is place pos fits =
    let c = suc c' in
    let fatname = name_to_fat83 name in
    let n = length bytes in
    let image = cluster_image v1 bytes in
    let v2 = write_cluster v1 c image in
    let v3 = write_entry v2 dir fatname off c n in
    let lay1 = IsLaidOut-Written lay wr1 in
    let isc1 = IsCluster-Written c wr1 isc in
    let size1 = cluster_size-Written wr1 in
    let len : length image ≡ v1.sectors_per_cluster * 512 =
      length-cluster_image v1 bytes (omega arith) in
    let wr2 = write_cluster-Written v1 c image lay1 isc1 len in
    let lay2 = IsLaidOut-Written lay1 wr2 in
    let isc2 = IsCluster-Written c wr2 isc1 in
    let ne1 : v1.root_cluster ≢ c = λ e. ne (sym e ∙ sym (root-Written wr1)) in
    let same2 : read_cluster v2 v2.root_cluster ≡ dir =
      (ap (read_cluster v2) (sym (root-Written wr2))
        ∙ (other_cluster c v1.root_cluster lay1 isc1 lay1.root ne1 wr2
            ∙ (ap (read_cluster v1) (sym (root-Written wr1))
                ∙ (tables_apart v.root_cluster lay lay.root wr1 ∙ same)))) in
    let place2 : IsPlace dir (cluster_size v2) fatname off =
      subst (λ s. IsPlace dir s fatname off) (size1 ∙ cluster_size-Written wr2) place in
    let flushed = write_entry_lem v2 dir fatname off c n lay2 same2 is place2 in
    let only = flushed.root_only in
    let ne2 : c ≢ v2.root_cluster = λ e. ne1 (root-Written wr2 ∙ sym e) in
    let stored : read_cluster v3 c ≡ cluster_image v bytes =
      (other_cluster v2.root_cluster c lay2 lay2.root isc2 ne2 only
        ∙ (read_cluster-write_cluster v1 c image lay1 isc1 len
            ∙ sym (cluster_image-Written bytes wr1))) in
    let fits2 : n ≤ cluster_size v2 = subst (λ s. n ≤ s) (size1 ∙ cluster_size-Written wr2) fits in
    (
      v3,
      refl,
      record {
        laid_out = IsLaidOut-Written lay2 only;
        reads = λ fuel.
            flushed_reads v2 v3 dir name off c n fuel lay2 isc2 same2 is place2 pos fits2 flushed
            ∙ ap (λ x. some (n, x)) stored;
        taken = c;
        others = λ d isd nr nc.
            (let isd1 = IsCluster-Written d wr1 isd in
              other_cluster v2.root_cluster d lay2 lay2.root (IsCluster-Written d wr2 isd1)
                (λ e. nr (e ∙ sym (root-Written wr1 ∙ root-Written wr2))) only
              ∙ (other_cluster c d lay1 isc1 isd1 nc wr2 ∙ tables_apart d lay isd wr1));
      },
    )
