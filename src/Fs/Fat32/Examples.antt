-- ===== src/Fs/Fat32/Examples.antt =====
-- The file system of fs/fat32.c at a concrete volume and directory.
use chris_os.Base.{ℕ, ◌≡◌, refl, none, some, List, [], ◌∷◌, arith, replicate, length-replicate}
use chris_os.Fs.Fat32.Dir.{find_dir_entry, scan}
use chris_os.Fs.Fat32.Dir.Laws.{IsName}
use chris_os.Fs.Fat32.Names.{base_part, ext_part, extension, name_to_fat83, upper}
use chris_os.Fs.Fat32.Table.{Volume}
use chris_os.Fs.Fat32.Table.Laws.{HasEntry, IsVolume}

-- A volume whose sectors are all zero.
abbrev blank : Volume
blank = record {
  sectors_per_cluster = 1;
  fat_count = 2;
  sectors_per_fat = 4;
  fat_start = 32;
  data_start = 40;
  root_cluster = 2;
  disk = λ n. replicate 512 0;
}

blank-IsVolume : IsVolume blank
blank-IsVolume = record { room = omega arith; sectors = λ n. length-replicate {A = ℕ} 512 0 }

blank-HasEntry : HasEntry blank 200
blank-HasEntry = omega arith

-- `hi.txt`
abbrev hi_txt : List ℕ
hi_txt = 104 ∷ 105 ∷ 46 ∷ 116 ∷ 120 ∷ 116 ∷ []

abbrev hi_entry : List ℕ
hi_entry = 72 ∷ 73 ∷ 32 ∷ 32 ∷ 32 ∷ 32 ∷ 32 ∷ 32 ∷ 84 ∷ 88 ∷ 84 ∷ []

name_to_fat83-hi_txt : name_to_fat83 hi_txt ≡ hi_entry
unfolding name_to_fat83 base_part ext_part extension upper
name_to_fat83-hi_txt = refl

-- A directory of two entries, both of them free.
abbrev empty_dir : List ℕ
empty_dir = replicate 64 0

hi_entry-IsName : IsName hi_entry
hi_entry-IsName = record { size = refl; not_end = λ e. omega arith; not_deleted = λ e. omega arith }

find_dir_entry-empty_dir : find_dir_entry empty_dir 64 hi_entry ≡ (none, some 0)
unfolding find_dir_entry scan
find_dir_entry-empty_dir = refl
