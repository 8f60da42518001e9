-- ===== src/Fs/Fat32/Table/Laws.antt =====
-- The allocation table of fs/fat32.c as a map from clusters to entries.
use chris_os.Base.{inl, inr, ◌∙◌, ap, ==→eq, Bool-cases, ℕ, ◌+◌, ◌*◌, ◌/◌, ◌%◌, ◌^◌, ◌≤◌, ◌<◌}
use chris_os.Base.{◌≡◌, arith, ◌==◌, if◌then◌else◌, length, get_or, set, length-set}
use chris_os.Base.{get_or-set}
use chris_os.Base.Word.{u32}
use chris_os.Fs.Fat32.Table.{fat_get, fat_offset, fat_sector, fat_set, merge_entry}
use chris_os.Fs.Fat32.Table.{read_sector, write_fats, write_sector, Sector, Volume, set_word}
use chris_os.Fs.Fat32.Table.{word_at}

-- Both tables lie within the disk's 32-bit sector numbers, and a sector has 512 bytes.
pub record IsVolume (v : Volume) : Type 0 where
  pub room : 20480 + v.fat_start + v.sectors_per_fat + v.sectors_per_fat < 2 ^ 32
  pub sectors : (n : ℕ) → length (v.disk n) ≡ 512

-- A cluster that has an entry in the table.
abbrev pub HasEntry : Volume → ℕ → Type 0
HasEntry v c = (c < 2 ^ 28) × (c / 128 < v.sectors_per_fat)

-- A byte of a sector after a word has been written.
byte-set_word :
    (buf : Sector) (off w j : ℕ)
    → off + 4 ≤ length buf
    → get_or (set_word buf off w) j 0 ≡ (
        if j == off
        then w % 256
        else if j == off + 1
        then w / 2 ^ 8 % 256
        else if j == off + 2
        then w / 2 ^ 16 % 256
        else if j == off + 3
        then w / 2 ^ 24 % 256
        else get_or buf j 0)
byte-set_word buf off w j h =
    let b0 = set buf off (w % 256) in
    let b1 = set b0 (off + 1) (w / 2 ^ 8 % 256) in
    let b2 = set b1 (off + 2) (w / 2 ^ 16 % 256) in
    let l0 : length b0 ≡ length buf = length-set buf off (w % 256) in
    let l1 : length b1 ≡ length b0 = length-set b0 (off + 1) (w / 2 ^ 8 % 256) in
    let l2 : length b2 ≡ length b1 = length-set b1 (off + 2) (w / 2 ^ 16 % 256) in
    let e0 = get_or-set buf off j (w % 256) 0 (omega arith) in
    let e1 = get_or-set b0 (off + 1) j (w / 2 ^ 8 % 256) 0 (omega arith) in
    let e2 = get_or-set b1 (off + 2) j (w / 2 ^ 16 % 256) 0 (omega arith) in
    let e3 = get_or-set b2 (off + 3) j (w / 2 ^ 24 % 256) 0 (omega arith) in
    rw (e3, e2, e1, e0) (ground arith)

-- A word of a sector after a word has been written there or at another place.
word_at-set_word :
    (buf : Sector) (i j w : ℕ)
    → i * 4 + 4 ≤ length buf
    → word_at (set_word buf (i * 4) w) (j * 4)
      ≡ (if i == j then w % 2 ^ 32 else word_at buf (j * 4))
word_at-set_word buf i j w h =
    let b : (k : ℕ) → _ = λ k. byte-set_word buf (i * 4) w k h in
    rw (b (j * 4), b (j * 4 + 1), b (j * 4 + 2), b (j * 4 + 2 + 1)) (ground arith)

-- The tables' sectors after a write: the first table has it at the sector given, and only there.
read_sector-write_fats :
    (v : Volume) (c d : ℕ) (buf : Sector)
    → IsVolume v
    → HasEntry v c
    → HasEntry v d
    → read_sector
        (write_fats v (fat_sector v c) (u32 (fat_sector v c + v.sectors_per_fat)) buf)
        (fat_sector v d)
      ≡ (if c / 128 == d / 128 then buf else read_sector v (fat_sector v d))
unfolding read_sector write_fats write_sector
read_sector-write_fats v c d buf iv (c28, cs) (d28, ds) = let room = iv.room in ground arith

fat_start-write_fats :
    (v : Volume) (m n : ℕ) (buf : Sector) → (write_fats v m n buf).fat_start ≡ v.fat_start
unfolding write_fats write_sector
fat_start-write_fats v m n buf = ground arith

fat_offset_lem : (c : ℕ) → c < 2 ^ 28 → fat_offset c ≡ c % 128 * 4
fat_offset_lem c h = omega arith

-- The entry of a cluster in the sector that has been written for another.
entry-merged :
    (v : Volume) (c d value : ℕ)
    → IsVolume v
    → HasEntry v c
    → HasEntry v d
    → c / 128 ≡ d / 128
    → word_at
          (set_word
            (read_sector v (fat_sector v c))
            (c % 128 * 4)
            (merge_entry (word_at (read_sector v (fat_sector v c)) (c % 128 * 4)) value))
          (d % 128 * 4)
        % 2 ^ 28
      ≡ (if c == d
          then value % 2 ^ 28
          else word_at (read_sector v (fat_sector v d)) (d % 128 * 4) % 2 ^ 28)
unfolding read_sector
entry-merged v c d value iv (c28, cs) (d28, ds) same =
    let old = read_sector v (fat_sector v c) in
    let merged = merge_entry (word_at old (c % 128 * 4)) value in
    let len : length old ≡ 512 = iv.sectors (u32 (20480 + fat_sector v c)) in
    let sector : fat_sector v c ≡ fat_sector v d = omega arith in
    rw (word_at-set_word old (c % 128) (d % 128) merged (omega arith), ← sector) (ground arith)

-- Setting the entry of a cluster sets its low 28 bits, and leaves every other cluster its entry, for
-- clusters that have an entry, on volumes whose tables fit into the disk and whose sectors have 512
-- bytes. The volume may have one table or more.
pub fat_get-fat_set :
    (v : Volume) (c d value : ℕ)
    → IsVolume v
    → HasEntry v c
    → HasEntry v d
    → fat_get (fat_set v c value) d ≡ (if c == d then value % 2 ^ 28 else fat_get v d)
unfolding fat_get fat_set
fat_get-fat_set v c d value iv hc hd =
    let old = read_sector v (fat_sector v c) in
    let merged = merge_entry (word_at old (fat_offset c)) value in
    let buf = set_word old (fat_offset c) merged in
    let second = u32 (fat_sector v c + v.sectors_per_fat) in
    let w = write_fats v (fat_sector v c) second buf in
    ap (λ n. word_at (read_sector w (u32 (n + u32 (d * 4) / 512))) (fat_offset d) % 2 ^ 28)
      (fat_start-write_fats v (fat_sector v c) second buf)
    ∙ (ap (λ s. word_at s (fat_offset d) % 2 ^ 28) (read_sector-write_fats v c d buf iv hc hd)
        ∙ rw (fat_offset_lem c hc.0, fat_offset_lem d hd.0)
            (elim (Bool-cases (c / 128 == d / 128)) [
              | inl e ↦ rw e (entry-merged v c d value iv hc hd (==→eq (c / 128) (d / 128) e))
              | inr e ↦ rw e (ground arith)
            ]))
