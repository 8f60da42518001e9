-- ===== src/Fs/Fat32/Alloc.antt =====
-- The search for a free cluster of fs/fat32.c.
use chris_os.Base.{ℕ, zero, suc, ◌+◌, ◌-◌, ◌*◌, ◌%◌, ◌^◌, ◌≤◌, ◌<◌, ◌≡◌, refl, sym, ap, ap₂}
use chris_os.Base.{◌∙◌, ◌≢◌, ◌⊎◌, inl, inr, none, some, arith, ltb, ◌==◌, Bool-cases}
use chris_os.Base.{Option-cases, ==→eq}
use chris_os.Base.Word.{u32}
use mathlib.Core.Path.{subst}
use chris_os.Fs.Fat32.Layout.{IsCluster, IsLaidOut}
use chris_os.Fs.Fat32.Table.{Volume, Sector, fat_get, fat_set, read_sector, fat_sector}
use chris_os.Fs.Fat32.Table.{fat_offset, word_at, free_entry, alloc_from, fat_alloc_cluster}
use chris_os.Fs.Fat32.Table.{write_fats, set_word, merge_entry}

-- The entry at an index of a sector of the table is in use, or is none that the search looks at.
abbrev Used : Sector → ℕ → ℕ → Type 0
Used buf s k = 2 ≤ u32 (s * 128 + k) → word_at buf (k * 4) % 2 ^ 28 ≢ 0

free_entry_past :
    (buf : Sector) (s left i : ℕ)
    → free_entry buf s (suc left) i ≡ none
    → Used buf s i × (free_entry buf s left (i + 1) ≡ none)
unfolding free_entry
free_entry_past buf s left i e = ground arith

free_entry_found :
    (buf : Sector) (s left i j : ℕ)
    → free_entry buf s (suc left) i ≡ some j
    → ((i ≡ j) × (2 ≤ u32 (s * 128 + i)) × (word_at buf (i * 4) % 2 ^ 28 ≡ 0))
      ⊎ (Used buf s i × (free_entry buf s left (i + 1) ≡ some j))
unfolding free_entry
free_entry_found buf s left i j e = ground arith

-- A fact about the next index and all those behind it.
from_next : {P : ℕ → Type 0} (i : ℕ) → P i → ((k : ℕ) → i + 1 ≤ k → P k) → (k : ℕ) → i ≤ k → P k
from_next {P} i here later k h = elim (Bool-cases (k == i)) [
  | inl e ↦ subst P (sym (==→eq k i e)) here
  | inr e ↦ later k (ground arith)
]

free_entry-none :
    (buf : Sector) (s left i : ℕ)
    → free_entry buf s left i ≡ none
    → (k : ℕ) → i ≤ k
    → k < i + left
    → Used buf s k
unfolding free_entry
free_entry-none buf s zero i e k h hk = absurd (omega arith)
free_entry-none buf s (suc left) i e k h hk =
    let past = free_entry_past buf s left i e in
    let rest = free_entry-none buf s left (i + 1) past.1 in
    from_next {P = λ k. k < i + suc left → Used buf s k} i (λ h. past.0)
      (λ k a b. rest k a (omega arith)) k h hk

free_entry-some :
    (buf : Sector) (s left i j : ℕ)
    → free_entry buf s left i ≡ some j
    → (i ≤ j)
      × (j < i + left)
      × (2 ≤ u32 (s * 128 + j))
      × (word_at buf (j * 4) % 2 ^ 28 ≡ 0)
      × ((k : ℕ) → i ≤ k → k < j → Used buf s k)
unfolding free_entry
free_entry-some buf s zero i j e = ground arith
free_entry-some buf s (suc left) i j e = elim (free_entry_found buf s left i j e) [
  | inl here ↦ (
    omega arith,
    omega arith,
    subst (λ n. 2 ≤ u32 (s * 128 + n)) here.0 here.1,
    subst (λ n. word_at buf (n * 4) % 2 ^ 28 ≡ 0) here.0 here.2,
    λ k a b. absurd (omega arith),
  )
  | inr later ↦
      let rest = free_entry-some buf s left (i + 1) j later.1 in
      (
        omega arith,
        omega arith,
        rest.2,
        rest.3,
        from_next {P = λ k. k < j → Used buf s k} i (λ h. later.0) rest.4,
      )
]

-- The outcomes of a search: no cluster is free, and nothing is changed, or the free cluster with
-- the least number is marked as the last one of a chain.
pub data Allocates (v : Volume) : ℕ × Volume → Type 0 where
  full : ((c : ℕ) → IsCluster v c → fat_get v c ≢ 0) → Allocates v (0, v)
  takes :
      (c : ℕ)
      → IsCluster v c
      → fat_get v c ≡ 0
      → ((d : ℕ) → 2 ≤ d → d < c → fat_get v d ≢ 0)
      → Allocates v (c, fat_set v c 0x0FFFFFFF)

-- Where the entry of a cluster stands.
fat_get_entry :
    (v : Volume) (s k : ℕ)
    → IsLaidOut v
    → k < 128
    → s < v.sectors_per_fat
    → fat_get v (s * 128 + k) ≡ word_at (read_sector v (u32 (v.fat_start + s))) (k * 4) % 2 ^ 28
unfolding fat_get
fat_get_entry v s k lay hk hs =
    let n = lay.numbers in
    let sector : fat_sector v (s * 128 + k) ≡ u32 (v.fat_start + s) = omega arith in
    let off : fat_offset (s * 128 + k) ≡ k * 4 = omega arith in rw (sector, off) refl

-- What the search writes is what `fat_set` writes.
mark_entry :
    (v : Volume) (s k : ℕ)
    → IsLaidOut v
    → k < 128
    → s < v.sectors_per_fat
    → write_fats v (u32 (v.fat_start + s)) (u32 (v.fat_start + v.sectors_per_fat + s)) (
        set_word
          (read_sector v (u32 (v.fat_start + s)))
          (k * 4)
          (merge_entry (word_at (read_sector v (u32 (v.fat_start + s))) (k * 4)) 0x0FFFFFFF))
      ≡ fat_set v (s * 128 + k) 0x0FFFFFFF
unfolding fat_set
mark_entry v s k lay hk hs =
    let n = lay.numbers in
    let room = lay.volume.room in
    let sector : fat_sector v (s * 128 + k) ≡ u32 (v.fat_start + s) = omega arith in
    let off : fat_offset (s * 128 + k) ≡ k * 4 = omega arith in
    let second : u32 (v.fat_start + v.sectors_per_fat + s)
        ≡ u32 (u32 (v.fat_start + s) + v.sectors_per_fat) =
      omega arith in
    rw (sector, off, second) refl

-- The entries below a sector of the table, and those of the sector itself.
entries_below :
    (v : Volume) (s n : ℕ)
    → IsLaidOut v
    → s < v.sectors_per_fat
    → ((d : ℕ) → 2 ≤ d → d < s * 128 → fat_get v d ≢ 0)
    → ((k : ℕ) → 0 ≤ k → k < n → Used (read_sector v (u32 (v.fat_start + s))) s k)
    → n ≤ 128
    → (d : ℕ) → 2 ≤ d
    → d < s * 128 + n
    → fat_get v d ≢ 0
entries_below v s n lay hs below here hn d two less zero_entry =
    elim (Bool-cases (ltb d (s * 128))) [
      | inl lt ↦ below d two (ground arith) zero_entry
      | inr ge ↦
          let h : s * 128 ≤ d = ground arith in
          let numbers = lay.numbers in
          let k = d - s * 128 in
          let at : s * 128 + k ≡ d = omega arith in
          here k (omega arith) (omega arith) (omega arith) (
            sym (fat_get_entry v s k lay (omega arith) hs)
            ∙ (ap (λ x. fat_get v x) at ∙ zero_entry))
    ]

alloc_from-Allocates :
    (v : Volume) (left s : ℕ)
    → IsLaidOut v
    → s + left ≡ v.sectors_per_fat
    → ((d : ℕ) → 2 ≤ d → d < s * 128 → fat_get v d ≢ 0)
    → Allocates v (alloc_from v left s)
unfolding alloc_from
alloc_from-Allocates v zero s lay end below = full (λ c is. below c is.0 (omega arith))
alloc_from-Allocates v (suc left) s lay end below =
    let buf = read_sector v (u32 (v.fat_start + s)) in
    elim (Option-cases (free_entry buf s 128 0)) [
      | inl e ↦
          rw (alloc_from, e)
            (alloc_from-Allocates v left (s + 1) lay (omega arith) (λ d two less.
              entries_below v s 128 lay (omega arith) below (free_entry-none buf s 128 0 e)
                (omega arith) d two (omega arith)))
      | inr found ↦
          let numbers = lay.numbers in
          let j = found.0 in
          let is = free_entry-some buf s 128 0 j found.1 in
          let small : j < 128 = omega arith in
          let inside : s < v.sectors_per_fat = omega arith in
          let cluster : s * 128 + j ≡ u32 (s * 128 + j) = omega arith in
          rw (alloc_from, found.1)
            (subst (Allocates v)
              (ap₂ (λ a b. (a, b)) cluster (sym (mark_entry v s j lay small inside)))
              (takes (s * 128 + j) (omega arith) (fat_get_entry v s j lay small inside ∙ is.3)
                (entries_below v s j lay inside below is.4 (omega arith))))
    ]

-- `fat_alloc_cluster` finds the free cluster with the least number, and marks it as the end of a
-- chain in the table (or tables) as `fat_set` does; when it returns 0 no cluster of the volume is
-- free and nothing has been written.
pub fat_alloc_cluster_lem : (v : Volume) → IsLaidOut v → Allocates v (fat_alloc_cluster v)
unfolding fat_alloc_cluster
fat_alloc_cluster_lem v lay =
    alloc_from-Allocates v v.sectors_per_fat 0 lay (omega arith)
      (λ d two less. absurd (omega arith))
