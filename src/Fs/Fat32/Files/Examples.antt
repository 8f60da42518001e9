-- ===== src/Fs/Fat32/Files/Examples.antt =====
-- The file operations of fs/fat32.c on a small volume, with an empty root directory.
use chris_os.Base.{◌^◌, ◌%◌, ℕ, ◌≤◌, ◌≡◌, refl, ap, ◌≢◌, ◌==◌, if◌then◌else◌, ◌++◌}
use chris_os.Base.{length-replicate, List, [], ◌∷◌, none, some, arith, length, replicate}
use chris_os.Fs.Fat32.Alloc.{Allocates, fat_alloc_cluster_lem}
use chris_os.Fs.Fat32.Chain.{IsChain, IsFreed, fat_free_chain_lem}
use chris_os.Fs.Fat32.Dir.{find_dir_entry, scan}
use chris_os.Fs.Fat32.Dir.Laws.{IsName}
use chris_os.Fs.Fat32.Files.{done, cluster_size, fat32_create_file, fat32_write_file}
use chris_os.Fs.Fat32.Files.Create.{IsCreated, fat32_create_file-create_file}
use chris_os.Fs.Fat32.Files.Roundtrip.{fat32_read_file-write_file}
use chris_os.Fs.Fat32.Files.Stored.{IsSaved}
use chris_os.Fs.Fat32.Files.Target.{fresh}
use chris_os.Fs.Fat32.Layout.{IsLaidOut}
use chris_os.Fs.Fat32.Names.{name_to_fat83, base_part, ext_part, extension, upper}
use chris_os.Fs.Fat32.Table.{fat_set, Volume, Sector, fat_get, read_cluster, read_sector}
use chris_os.Fs.Fat32.Table.{read_sectors, cluster_lba, fat_alloc_cluster, fat_free_chain}
use chris_os.Fs.Fat32.Table.Laws.{HasEntry, fat_get-fat_set}

-- The first sector of the table: the entries 0 to 2 end their chains, 3 is followed by 4, and the
-- others are free.
abbrev table_sector : Sector
table_sector =
    (0xF8 ∷ 0xFF ∷ 0xFF ∷ 0x0F ∷ 0xFF ∷ 0xFF ∷ 0xFF ∷ 0x0F ∷ 0xF8 ∷ 0xFF ∷ 0xFF ∷ 0x0F ∷ 4 ∷ 0 ∷ 0
      ∷ 0 ∷ 0xF8 ∷ 0xFF ∷ 0xFF ∷ 0x0F ∷ [])
    ++ replicate 492 0

abbrev formatted : Volume
formatted = record {
  sectors_per_cluster = 1;
  fat_count = 1;
  sectors_per_fat = 1;
  fat_start = 32;
  data_start = 33;
  root_cluster = 2;
  disk = λ n. if n == 20512 then table_sector else replicate 512 0;
}

-- `a`
abbrev a_name : List ℕ
a_name = 97 ∷ []

a_name-IsName : IsName (name_to_fat83 a_name)
unfolding name_to_fat83 base_part ext_part extension upper
a_name-IsName = record { size = refl; not_end = λ e. omega arith; not_deleted = λ e. omega arith }

length-table_sector : length table_sector ≡ 512
length-table_sector = refl

formatted-IsLaidOut : IsLaidOut formatted
formatted-IsLaidOut =
    let blank = length-replicate {A = ℕ} 512 0 in
    record {
      volume = record {
        room = omega arith;
        sectors = λ n. ground (arith, length-table_sector, blank);
      };
      per_cluster = omega arith;
      numbers = omega arith;
      tables = omega arith;
      clusters = λ c is. omega arith;
      root = omega arith;
    }

search :
    (find_dir_entry (read_cluster formatted 2) (cluster_size formatted) (name_to_fat83 a_name))
    ≡ (none, some 0)
unfolding find_dir_entry scan read_cluster read_sector read_sectors cluster_lba cluster_size
    name_to_fat83 base_part ext_part extension upper
search = refl

entry_5 : fat_get formatted 5 ≡ 0
unfolding fat_get read_sector
entry_5 = refl

entry_2 : fat_get formatted 2 ≢ 0
unfolding fat_get read_sector
entry_2 = λ e. omega arith

fits : 3 ≤ cluster_size formatted
unfolding cluster_size
fits = omega arith

fat32_read_file-write_file_example :
    (w : Volume) × (fat32_write_file 1 formatted a_name (7 ∷ 8 ∷ 9 ∷ []) ≡ some (done, w))
    × IsSaved formatted a_name (7 ∷ 8 ∷ 9 ∷ []) w
fat32_read_file-write_file_example =
    fat32_read_file-write_file formatted a_name (7 ∷ 8 ∷ 9 ∷ []) 0 1 5 [] formatted-IsLaidOut
      a_name-IsName (fresh (ap (λ r. r.0) search) (ap (λ r. r.1) search)) (omega arith)
      (omega arith) entry_5 entry_2 (omega arith) fits

fat32_create_file-create_file_example :
    (w : Volume) × (fat32_create_file formatted a_name ≡ (done, w)) × IsCreated a_name w
fat32_create_file-create_file_example =
    fat32_create_file-create_file formatted a_name 0 formatted-IsLaidOut a_name-IsName
      (ap (λ r. r.0) search) (ap (λ r. r.1) search)

fat_alloc_cluster_lem_example : Allocates formatted (fat_alloc_cluster formatted)
fat_alloc_cluster_lem_example = fat_alloc_cluster_lem formatted formatted-IsLaidOut

-- The clusters 3 and 4 are a chain.
formatted-IsChain : IsChain formatted 3 (3 ∷ 4 ∷ [])
unfolding fat_get read_sector
formatted-IsChain = (refl, omega arith, (λ e. omega arith, tt), (refl, omega arith, tt, refl))

fat_free_chain_lem_example :
    (w : Volume) × (fat_free_chain 3 formatted 3 ≡ some w) × IsFreed formatted (3 ∷ 4 ∷ []) w
fat_free_chain_lem_example =
    fat_free_chain_lem formatted 3 3 (3 ∷ 4 ∷ []) formatted-IsLaidOut formatted-IsChain
      (omega arith)

formatted-HasEntry : HasEntry formatted 5
formatted-HasEntry = omega arith

fat_get-fat_set_example :
    fat_get (fat_set formatted 5 0x0FFFFFFF) 5
    ≡ (if 5 == 5 then 0x0FFFFFFF % 2 ^ 28 else fat_get formatted 5)
fat_get-fat_set_example =
    fat_get-fat_set formatted 5 5 0x0FFFFFFF formatted-IsLaidOut.volume formatted-HasEntry
      formatted-HasEntry
