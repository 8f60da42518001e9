-- ===== src/Fs/Fat32/Files/Roundtrip.antt =====
-- Writing a file of fs/fat32.c and reading it back.
use chris_os.Base.{ℕ, ◌≤◌, ◌<◌, ◌≡◌, refl, sym, ap, ◌∙◌, ◌≢◌, List, [], ◌∷◌, Option, none}
use chris_os.Base.{some, arith, length, All, false, leb, lt→ltb, le→ltb, ne→==, Bool-cases}
use chris_os.Base.{inl, inr}
use mathlib.Core.Path.{subst}
use chris_os.Fs.Fat32.Alloc.{Allocates, full, takes, fat_alloc_cluster_lem}
use chris_os.Fs.Fat32.Areas.{unchanged, Written, Written-params, Written-trans}
use chris_os.Fs.Fat32.Chain.{IsChain, IsFreed, listed, fat_free_chain_lem, fat_set-Written}
use chris_os.Fs.Fat32.Dir.{find_dir_entry, entry_cluster}
use chris_os.Fs.Fat32.Dir.Laws.{IsName}
use chris_os.Fs.Fat32.Files.{done, cluster_size, fat32_write_file, free_old, write_allocated}
use chris_os.Fs.Fat32.Files.{write_at, write_found}
use chris_os.Fs.Fat32.Files.Stored.{IsPlace, IsSaved, write_allocated-IsSaved}
use chris_os.Fs.Fat32.Files.Target.{fresh, old, IsTarget, IsTarget-IsPlace}
use chris_os.Fs.Fat32.Layout.{IsCluster, IsLaidOut, IsLaidOut-Written, IsCluster-Written}
use chris_os.Fs.Fat32.Names.{name_to_fat83}
use chris_os.Fs.Fat32.Table.{Volume, fat_get, fat_set, read_cluster, fat_alloc_cluster}

-- A write once the old chain has been freed.
module _ (v u : Volume) (name bytes : List ℕ) (off : ℕ) (lay : IsLaidOut v)
    (is : IsName (name_to_fat83 name)) (freed : Written v.fat_start v.data_start v u)
    (place : IsPlace (read_cluster v v.root_cluster) (cluster_size v) (name_to_fat83 name) off)
    (pos : 0 < length bytes) (fits : length bytes ≤ cluster_size v)
    (root_used : fat_get u v.root_cluster ≢ 0) where
  allocated-IsSaved :
      (r : ℕ × Volume) (free : ℕ)
      → IsCluster u free
      → fat_get u free ≡ 0
      → Allocates u r
      → (w : Volume) × (write_allocated
            (read_cluster v v.root_cluster)
            (name_to_fat83 name)
            off
            bytes
            r
          ≡ (done, w))
        × IsSaved v name bytes w
  allocated-IsSaved r free isf zero_entry (full none_free) = absurd (none_free free isf zero_entry)
  allocated-IsSaved r free isf zero_entry (takes c isc zero_c least) =
      let lay_u = IsLaidOut-Written lay freed in
      let marked = fat_set-Written u c 0x0FFFFFFF lay_u isc in
      write_allocated-IsSaved v (fat_set u c 0x0FFFFFFF) (read_cluster v v.root_cluster) name bytes
        off c lay (subst (λ x. IsCluster x c) (sym (Written-params freed)) isc)
        (λ e. root_used (ap (fat_get u) (sym e) ∙ zero_c))
        (Written-trans freed (
          subst (λ x. Written x.fat_start x.data_start u (fat_set u c 0x0FFFFFFF))
            (sym (Written-params freed)) marked))
        refl is place pos fits

  write_at-IsSaved :
      (free : ℕ)
      → IsCluster u free
      → fat_get u free ≡ 0
      → (w : Volume) × (write_at u (read_cluster v v.root_cluster) (name_to_fat83 name) off bytes
          ≡ (done, w))
        × IsSaved v name bytes w
  unfolding write_at
  write_at-IsSaved free isf zero_entry =
      rw (write_at, lt→ltb 0 (length bytes) pos)
        (allocated-IsSaved (fat_alloc_cluster u) free isf zero_entry
          (fat_alloc_cluster_lem u (IsLaidOut-Written lay freed)))

listed-none : (r : ℕ) (cs : List ℕ) → All (λ c. c ≢ r) cs → listed r cs ≡ false
listed-none r [] h = refl
listed-none r (c ∷ cs) h = rw (ne→== r c (λ e. h.0 (sym e)), listed-none r cs h.1) refl

no_chain : (v : Volume) (c : ℕ) (cs : List ℕ) → IsChain v c cs → leb 2 c ≡ false → IsFreed v cs v
no_chain v c [] chain e = record { tables_only = unchanged; entries = λ d is. refl }
no_chain v c (d ∷ cs) chain e = let is = chain.1 in absurd (ground arith)

-- The old chain of a file is freed, whether the entry names a cluster or not.
free_old_lem :
    (v : Volume) (c fuel : ℕ) (cs : List ℕ)
    → IsLaidOut v
    → IsChain v c cs
    → length cs < fuel
    → (u : Volume) × (free_old fuel v c ≡ some u) × IsFreed v cs u
unfolding free_old
free_old_lem v c fuel cs lay chain h = elim (Bool-cases (leb 2 c)) [
  | inl e ↦ rw (free_old, e) (fat_free_chain_lem v c fuel cs lay chain h)
  | inr e ↦ rw (free_old, e) (v, refl, no_chain v c cs chain e)
]

-- The clusters of the directory and the free ones after a chain has been freed.
freed_entries :
    (v u : Volume) (cs : List ℕ) (free : ℕ)
    → IsLaidOut v
    → IsFreed v cs u
    → All (λ c. c ≢ v.root_cluster) cs
    → fat_get v v.root_cluster ≢ 0
    → IsCluster v free
    → fat_get v free ≡ 0
    → (fat_get u v.root_cluster ≢ 0) × (fat_get u free ≡ 0)
freed_entries v u cs free lay freed apart used isf zero_entry = (
  λ e. used (
      sym (freed.entries v.root_cluster lay.root ∙ rw (listed-none v.root_cluster cs apart) refl)
      ∙ e),
  freed.entries free isf
      ∙ rw zero_entry
          (elim (Bool-cases (listed free cs)) [ inl e ↦ rw e refl | inr e ↦ rw e refl ]),
)

write_found-fresh :
    (fuel : ℕ) (v : Volume) (dir name bytes : List ℕ) (off : ℕ)
    → write_found fuel v dir name bytes none (some off) ≡ some (write_at v dir name off bytes)
unfolding write_found
write_found-fresh fuel v dir name bytes off = refl

write_found-old :
    (fuel : ℕ) (v u : Volume) (dir name bytes : List ℕ) (off : ℕ) (free : Option ℕ)
    → free_old fuel v (entry_cluster dir off) ≡ some u
    → write_found fuel v dir name bytes (some off) free ≡ some (write_at u dir name off bytes)
unfolding write_found
write_found-old fuel v u dir name bytes off free e = rw (write_found, e) refl

write_found-IsSaved :
    (v : Volume) (name bytes : List ℕ) (off fuel free : ℕ) (cs : List ℕ)
    → IsLaidOut v
    → IsName (name_to_fat83 name)
    → IsTarget v (name_to_fat83 name) off cs
    → length cs < fuel
    → IsCluster v free
    → fat_get v free ≡ 0
    → fat_get v v.root_cluster ≢ 0
    → 0 < length bytes
    → length bytes ≤ cluster_size v
    → let found =
        find_dir_entry (read_cluster v v.root_cluster) (cluster_size v) (name_to_fat83 name) in
      (w : Volume) × (write_found fuel v
          (read_cluster v v.root_cluster)
          (name_to_fat83 name)
          bytes
          found.0
          found.1
        ≡ some (done, w))
      × IsSaved v name bytes w
write_found-IsSaved v name bytes off fuel free cs lay is (fresh e0 e1) h isf zero_entry used pos
      fits =
    let saved =
      write_at-IsSaved v v name bytes off lay is unchanged
        (IsTarget-IsPlace v (name_to_fat83 name) off [] is (fresh e0 e1)) pos fits used free isf
        zero_entry in
    (
      saved.0,
      rw (e0, e1)
          (write_found-fresh fuel v (read_cluster v v.root_cluster) (name_to_fat83 name) bytes off
            ∙ ap some saved.1),
      saved.2,
    )
write_found-IsSaved v name bytes off fuel free cs lay is (old ds e0 chain apart) h isf zero_entry
      used pos fits =
    let dir = read_cluster v v.root_cluster in
    let freeing = free_old_lem v (entry_cluster dir off) fuel ds lay chain h in
    let u = freeing.0 in
    let freed = freeing.2 in
    let entries = freed_entries v u ds free lay freed apart used isf zero_entry in
    let saved =
      write_at-IsSaved v u name bytes off lay is freed.tables_only
        (IsTarget-IsPlace v (name_to_fat83 name) off ds is (old ds e0 chain apart)) pos fits
        entries.0 free (IsCluster-Written free freed.tables_only isf) entries.1 in
    (
      saved.0,
      rw e0 (
          write_found-old fuel v u dir (name_to_fat83 name) bytes off _ freeing.1
          ∙ ap some saved.1),
      saved.2,
    )

-- Writing a file of at least one byte and at most one cluster to a laid-out volume succeeds, when a
-- cluster is free, that of the directory is in use, the name is new and the directory has a free
-- entry, or the name is there and the fuel is more than the length of its old chain of clusters,
-- which is freed. On the volume that it leaves the file reads back, with two units of fuel or more:
-- its size, its bytes and zeros up to the end of the cluster. Of all clusters only that of the
-- directory and the one taken have changed.
pub fat32_read_file-write_file :
    (v : Volume) (name bytes : List ℕ) (off fuel free : ℕ) (cs : List ℕ)
    → IsLaidOut v
    → IsName (name_to_fat83 name)
    → IsTarget v (name_to_fat83 name) off cs
    → length cs < fuel
    → IsCluster v free
    → fat_get v free ≡ 0
    → fat_get v v.root_cluster ≢ 0
    → 0 < length bytes
    → length bytes ≤ cluster_size v
    → (w : Volume) × (fat32_write_file fuel v name bytes ≡ some (done, w)) × IsSaved v name bytes w
unfolding fat32_write_file
fat32_read_file-write_file v name bytes off fuel free cs lay is target h isf zero_entry used pos
      fits =
    rw (fat32_write_file, le→ltb (cluster_size v) (length bytes) fits)
      (write_found-IsSaved v name bytes off fuel free cs lay is target h isf zero_entry used pos
        fits)
