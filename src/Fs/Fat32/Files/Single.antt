-- ===== src/Fs/Fat32/Files/Single.antt =====
-- Files of fs/fat32.c that have one cluster.
use chris_os.Base.{lt→ltb, le→ltb, ℕ, suc, ◌-◌, ◌*◌, ◌≤◌, ◌<◌, ◌≡◌, ap, ◌∙◌, List, some, arith}
use chris_os.Base.{length, replicate, length-append, length-replicate}
use mathlib.Core.List.{append-nil}
use chris_os.Fs.Fat32.Chain.{in_chain-IsCluster}
use chris_os.Fs.Fat32.Dir.{find_dir_entry, entry_cluster, entry_size}
use chris_os.Fs.Fat32.Files.{cluster_image, cluster_size, fat32_read_file, read_chain}
use chris_os.Fs.Fat32.Files.{read_entry}
use chris_os.Fs.Fat32.Layout.{IsCluster, IsLaidOut}
use chris_os.Fs.Fat32.Names.{name_to_fat83}
use chris_os.Fs.Fat32.Table.{Volume, read_cluster}

pub length-cluster_image :
    (v : Volume) (bytes : List ℕ)
    → length bytes ≤ cluster_size v
    → length (cluster_image v bytes) ≡ v.sectors_per_cluster * 512
unfolding cluster_image cluster_size
length-cluster_image v bytes h =
    let z = length-replicate {A = ℕ} (v.sectors_per_cluster * 512 - length bytes) 0 in
    length-append bytes (replicate (v.sectors_per_cluster * 512 - length bytes) 0) ∙ omega arith

read_chain-one_cluster :
    (v : Volume) (c n fuel : ℕ)
    → IsLaidOut v
    → IsCluster v c
    → 0 < n
    → n ≤ cluster_size v
    → read_chain (suc (suc fuel)) v c n ≡ some (read_cluster v c)
unfolding read_chain
read_chain-one_cluster v c n fuel lay is pos fits =
    let chain = in_chain-IsCluster v c lay is in
    let nil = append-nil (read_cluster v c) in
    let whole = le→ltb (cluster_size v) n fits in
    let some_left = lt→ltb 0 n pos in
    let none_left : n - n ≡ 0 = omega arith in
    rw (chain, whole, some_left, none_left) (ground arith)

read_entry-one_cluster :
    (v : Volume) (dir : List ℕ) (off c n fuel : ℕ)
    → IsLaidOut v
    → IsCluster v c
    → 0 < n
    → n ≤ cluster_size v
    → entry_cluster dir off ≡ c
    → entry_size dir off ≡ n
    → read_entry (suc (suc fuel)) v dir (some off) ≡ some (n, read_cluster v c)
unfolding read_entry
read_entry-one_cluster v dir off c n fuel lay is pos fits ec en =
    rw (read_entry, ec, en, read_chain-one_cluster v c n fuel lay is pos fits)
      (ap (λ k. some (k, read_cluster v c)) en)

-- A file of one cluster is read whole, and its size with it.
pub fat32_read_file-one_cluster :
    (v : Volume) (name : List ℕ) (off c n fuel : ℕ)
    → IsLaidOut v
    → IsCluster v c
    → 0 < n
    → n ≤ cluster_size v
    → let dir = read_cluster v v.root_cluster in
      (find_dir_entry dir (cluster_size v) (name_to_fat83 name)).0 ≡ some off
      → entry_cluster dir off ≡ c
      → entry_size dir off ≡ n
      → fat32_read_file (suc (suc fuel)) v name ≡ some (n, read_cluster v c)
unfolding fat32_read_file
fat32_read_file-one_cluster v name off c n fuel lay is pos fits found ec en =
    let dir = read_cluster v v.root_cluster in
    ap (read_entry (suc (suc fuel)) v dir) found
    ∙ read_entry-one_cluster v dir off c n fuel lay is pos fits ec en
