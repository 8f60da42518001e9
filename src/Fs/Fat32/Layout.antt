-- ===== src/Fs/Fat32/Layout.antt =====
-- The areas of a volume of fs/fat32.c: the tables, the clusters, and what a write to one of them
-- leaves of the others.
use chris_os.Base.{Bool-cases, ℕ, ◌+◌, ◌-◌, ◌*◌, ◌%◌, ◌^◌, ◌≤◌, ◌<◌, ◌≡◌, ap, ◌∙◌, ◌≢◌, ◌⊎◌}
use chris_os.Base.{inl, inr, List, arith, ltb, if◌then◌else◌, length}
use chris_os.Base.Word.{u32}
use mathlib.Core.Path.{subst}
use native.Mathlib.Nat.{add-mul, mul-le-mul_right}
use chris_os.Fs.Fat32.Areas.{Written, Written-params, Written-sectors, Written-outside}
use chris_os.Fs.Fat32.Sectors.{read_sectors-write_sectors, write_sectors-Written}
use chris_os.Fs.Fat32.Sectors.{read_sectors-same, length-read_sectors}
use chris_os.Fs.Fat32.Table.{read_sectors, write_sectors, Volume, cluster_lba, fat_get}
use chris_os.Fs.Fat32.Table.{read_cluster, write_cluster, read_sector, fat_sector, fat_offset}
use chris_os.Fs.Fat32.Table.{word_at}
use chris_os.Fs.Fat32.Table.Laws.{IsVolume}

-- A cluster of the volume: the numbers 0 and 1 have no sectors.
abbrev pub IsCluster : Volume → ℕ → Type 0
IsCluster v c = (2 ≤ c) × (c < v.sectors_per_fat * 128)

-- The first sector of a cluster, without the 32-bit arithmetic.
abbrev pub first : Volume → ℕ → ℕ
first v c = v.data_start + (c - 2) * v.sectors_per_cluster

-- The tables come before the data, all clusters lie within the disk, and the cluster of the root
-- directory is one of them.
pub record IsLaidOut (v : Volume) : Type 0 where
  pub volume : IsVolume v
  pub per_cluster : (1 ≤ v.sectors_per_cluster) × (v.sectors_per_cluster < 256)
  pub numbers : v.sectors_per_fat * 128 ≤ 0x0FFFFFF8
  pub tables :
      v.fat_start
        + (if ltb 1 v.fat_count then v.sectors_per_fat + v.sectors_per_fat else v.sectors_per_fat)
      ≤ v.data_start
  pub clusters : (c : ℕ) → IsCluster v c → 20480 + first v c + v.sectors_per_cluster ≤ 2 ^ 32
  pub root : IsCluster v v.root_cluster

pub cluster_lba-first :
    (v : Volume) (c : ℕ) → IsLaidOut v → IsCluster v c → cluster_lba v c ≡ first v c
unfolding cluster_lba
cluster_lba-first v c lay is =
    let fits = lay.clusters c is in
    let n = v.sectors_per_cluster in
    let shift : c + 2 ^ 32 - 2 ≡ c - 2 + 2 ^ 32 = omega arith in
    ap (λ x. u32 (v.data_start + x * n)) shift
    ∙ (ap (λ x. u32 (v.data_start + x)) (add-mul (c - 2) (2 ^ 32) n) ∙ omega arith)

first_below : (v : Volume) (c d : ℕ) → 2 ≤ c → c < d → first v c + v.sectors_per_cluster ≤ first v d
first_below v c d h less =
    let n = v.sectors_per_cluster in
    let le : c - 2 + 1 ≤ d - 2 = omega arith in
    let product = mul-le-mul_right n le in let split = add-mul (c - 2) 1 n in omega arith

-- Two clusters have no sector in common.
pub clusters-apart :
    (v : Volume) (c d : ℕ)
    → 2 ≤ c
    → 2 ≤ d
    → c ≢ d
    → (first v c + v.sectors_per_cluster ≤ first v d)
      ⊎ (first v d + v.sectors_per_cluster ≤ first v c)
clusters-apart v c d hc hd ne = elim (Bool-cases (ltb c d)) [
  | inl lt ↦ inl (first_below v c d hc (ground arith))
  | inr ge ↦ inr (first_below v d c hd (ground arith))
]

pub IsLaidOut-Written : {lo hi : ℕ} {v w : Volume} → IsLaidOut v → Written lo hi v w → IsLaidOut w
IsLaidOut-Written {lo} {hi} {v} {w} lay wr = subst IsLaidOut (Written-params wr) (record {
  volume = record { room = lay.volume.room; sectors = Written-sectors wr lay.volume.sectors };
  per_cluster = lay.per_cluster;
  numbers = lay.numbers;
  tables = lay.tables;
  clusters = lay.clusters;
  root = lay.root;
})

-- A cluster that is apart from the area written keeps its bytes.
pub read_cluster-Written :
    {lo hi : ℕ} {v w : Volume} (c : ℕ)
    → IsLaidOut v
    → IsCluster v c
    → 20480 + hi ≤ 2 ^ 32
    → (first v c + v.sectors_per_cluster ≤ lo) ⊎ (hi ≤ first v c)
    → Written lo hi v w
    → read_cluster w c ≡ read_cluster v c
unfolding read_cluster read_sector cluster_lba
read_cluster-Written {lo} {hi} {v} {w} c lay is hh apart wr =
    let fits = lay.clusters c is in
    let lba = cluster_lba-first v c lay is in
    subst (λ x. read_cluster x c ≡ read_cluster v c) (Written-params wr)
      (read_sectors-same v (record v { disk = w.disk }) v.sectors_per_cluster (cluster_lba v c)
        (omega arith)
        (λ k a b.
          Written-outside k hh (omega arith)
            (elim apart [ inl l ↦ inl (omega arith) | inr r ↦ inr (omega arith) ]) wr))

-- The entries of the table stay when no sector before the data is written.
pub fat_get-Written :
    {lo hi : ℕ} {v w : Volume} (c : ℕ)
    → IsLaidOut v
    → IsCluster v c
    → 20480 + hi ≤ 2 ^ 32
    → v.data_start ≤ lo
    → Written lo hi v w
    → fat_get w c ≡ fat_get v c
unfolding fat_get read_sector
fat_get-Written {lo} {hi} {v} {w} c lay is hh before wr =
    let t = lay.tables in
    let n = lay.numbers in
    let inside : fat_sector v c < v.data_start = ground arith in
    let room = lay.volume.room in
    subst (λ x. fat_get x c ≡ fat_get v c) (Written-params wr)
      (ap (λ s. word_at s (fat_offset c) % 2 ^ 28)
        (Written-outside (fat_sector v c) hh (omega arith) (inl (omega arith)) wr))

pub length-read_cluster :
    (v : Volume) (c : ℕ) → IsLaidOut v → length (read_cluster v c) ≡ v.sectors_per_cluster * 512
unfolding read_cluster
length-read_cluster v c lay =
    length-read_sectors v v.sectors_per_cluster (cluster_lba v c) lay.volume.sectors

pub write_cluster-Written :
    (v : Volume) (c : ℕ) (buf : List ℕ)
    → IsLaidOut v
    → IsCluster v c
    → length buf ≡ v.sectors_per_cluster * 512
    → Written (first v c) (first v c + v.sectors_per_cluster) v (write_cluster v c buf)
unfolding write_cluster
write_cluster-Written v c buf lay is len =
    let fits = lay.clusters c is in
    let lba = cluster_lba-first v c lay is in
    rw lba (write_sectors-Written v v.sectors_per_cluster (first v c) buf (omega arith) len)

pub read_cluster-write_cluster :
    (v : Volume) (c : ℕ) (buf : List ℕ)
    → IsLaidOut v
    → IsCluster v c
    → length buf ≡ v.sectors_per_cluster * 512
    → read_cluster (write_cluster v c buf) c ≡ buf
unfolding read_cluster write_cluster cluster_lba
read_cluster-write_cluster v c buf lay is len =
    let fits = lay.clusters c is in
    let lba = cluster_lba-first v c lay is in
    let w = write_sectors v v.sectors_per_cluster (cluster_lba v c) buf in
    let wr : Written (cluster_lba v c) (cluster_lba v c + v.sectors_per_cluster) v w =
      write_sectors-Written v v.sectors_per_cluster (cluster_lba v c) buf (omega arith) len in
    subst (λ x. read_sectors w x.sectors_per_cluster (cluster_lba x c) ≡ buf) (Written-params wr)
      (read_sectors-write_sectors v v.sectors_per_cluster (cluster_lba v c) buf (omega arith) len)

pub first-Written : {lo hi : ℕ} {v w : Volume} (c : ℕ) → Written lo hi v w → first v c ≡ first w c
first-Written c wr = ap (λ x. first x c) (Written-params wr)

pub root-Written : {lo hi : ℕ} {v w : Volume} → Written lo hi v w → v.root_cluster ≡ w.root_cluster
root-Written wr = ap (λ x. x.root_cluster) (Written-params wr)

pub per_cluster-Written :
    {lo hi : ℕ} {v w : Volume} → Written lo hi v w → v.sectors_per_cluster ≡ w.sectors_per_cluster
per_cluster-Written wr = ap (λ x. x.sectors_per_cluster) (Written-params wr)

pub IsCluster-Written :
    {lo hi : ℕ} {v w : Volume} (c : ℕ) → Written lo hi v w → IsCluster v c → IsCluster w c
IsCluster-Written c wr is = subst (λ x. IsCluster x c) (Written-params wr) is

-- Writes of one cluster leave the others, and writes of the tables leave all of them.
pub other_cluster :
    {v w : Volume} (c d : ℕ)
    → IsLaidOut v
    → IsCluster v c
    → IsCluster v d
    → d ≢ c
    → Written (first v c) (first v c + v.sectors_per_cluster) v w
    → read_cluster w d ≡ read_cluster v d
other_cluster {v} {w} c d lay isc isd ne wr =
    let fits = lay.clusters c isc in
    read_cluster-Written d lay isd (omega arith) (clusters-apart v d c isd.0 isc.0 ne) wr

pub tables_apart :
    {v w : Volume} (d : ℕ)
    → IsLaidOut v
    → IsCluster v d
    → Written v.fat_start v.data_start v w
    → read_cluster w d ≡ read_cluster v d
tables_apart {v} {w} d lay is wr =
    let fits = lay.clusters d is in
    read_cluster-Written d lay is (omega arith) (inr (omega arith)) wr
