-- ===== src/Fs/Fat32/Dir/Laws.antt =====
-- The search of a directory of fs/fat32.c after an entry has been written.
use chris_os.Base.{◌^◌, ◌/◌, ◌==◌, Bool-cases, inl, inr, ◌⊎◌, ℕ, zero, suc, ◌+◌, ◌*◌, ◌≤◌, ◌<◌}
use chris_os.Base.{◌≡◌, refl, sym, ◌∙◌, ◌≢◌, true, Option, none, some, List, arith, ne→==}
use chris_os.Base.{length, get_or}
use mathlib.Core.Path.{subst}
use chris_os.Fs.Fat32.Dir.{entry_cluster, entry_size, find_dir_entry, dir_entry, put_bytes}
use chris_os.Fs.Fat32.Dir.{same_name, scan}
use chris_os.Fs.Fat32.Dir.Written.{SameBelow, byte-written, fields-written, name-written}
use chris_os.Fs.Fat32.Dir.Written.{put_bytes-below, same_name-at, same_name-below}
use chris_os.Net.Arp.{entry}

-- Once a free entry is known it is kept.
free-scan : (buf name : List ℕ) (left off f : ℕ) → (scan buf name left off (some f)).1 ≡ some f
unfolding scan
free-scan buf name zero off f = refl
free-scan buf name (suc left) off f = ground (arith, free-scan buf name left (off + 32) f)

-- The free entry that a search finds lies behind its start.
scan-bound :
    (buf name : List ℕ) (left off f : ℕ)
    → (scan buf name left off none).1 ≡ some f
    → (off ≤ f) × (f + 32 ≤ off + left * 32)
unfolding scan
scan-bound buf name zero off f e = ground arith
scan-bound buf name (suc left) off f e =
    ground (arith, scan-bound buf name left (off + 32) f, free-scan buf name left (off + 32) off)

-- The entry at an offset is the one looked for.
pub record IsEntry (buf name : List ℕ) (off : ℕ) : Type 0 where
  pub in_use : get_or buf off 0 ≢ 0
  pub not_deleted : get_or buf off 0 ≢ 0xE5
  pub no_long_name : get_or buf (off + 11) 0 ≢ 0x0F
  pub named : same_name buf name off ≡ true

pub scan-here :
    (buf name : List ℕ) (left off : ℕ) (free : Option ℕ)
    → IsEntry buf name off
    → (scan buf name (suc left) off free).0 ≡ some off
unfolding scan
scan-here buf name left off free e =
    rw
      (
        ne→== (get_or buf off 0) 0 e.in_use,
        ne→== (get_or buf off 0) 0xE5 e.not_deleted,
        ne→== (get_or buf (off + 11) 0) 0x0F e.no_long_name,
        e.named,
      )
      refl

pub scan-later :
    (buf name : List ℕ) (left off f : ℕ)
    → (scan buf name (suc left) off none).1 ≡ some f
    → (f ≡ off) ⊎ (off + 32 ≤ f)
unfolding scan
scan-later buf name left off f e =
    ground (arith, scan-bound buf name left (off + 32) f, free-scan buf name left (off + 32) off)

-- Where it does not stop at once, what it finds is found behind.
pub scan-step :
    (buf name : List ℕ) (left off f : ℕ)
    → off + 32 ≤ f
    → (scan buf name (suc left) off none).0 ≡ none
    → (scan buf name (suc left) off none).1 ≡ some f
    → ((scan buf name left (off + 32) none).0 ≡ none)
      × ((scan buf name left (off + 32) none).1 ≡ some f)
unfolding scan
scan-step buf name left off f h e0 e1 = ground (arith, free-scan buf name left (off + 32) off)

-- A search that found a free entry only finds the entry that is written there.
pub scan-created :
    (buf buf' name : List ℕ) (left off f : ℕ)
    → length name ≡ 11
    → SameBelow f buf buf'
    → IsEntry buf' name f
    → (scan buf name left off none).0 ≡ none
    → (scan buf name left off none).1 ≡ some f
    → (scan buf' name left off none).0 ≡ some f
unfolding scan
scan-created buf buf' name zero off f len same entry e0 e1 = ground arith
scan-created buf buf' name (suc left) off f len same entry e0 e1 =
    let kept = free-scan buf name left (off + 32) off in
    elim (scan-later buf name left off f e1) [
      | inl e ↦ rw e (scan-here buf' name left off none (subst (IsEntry buf' name) e entry))
      | inr h ↦
          let step = scan-step buf name left off f h e0 e1 in
          let rest = scan-created buf buf' name left (off + 32) f len same entry step.0 step.1 in
          rw
            (
              ← same off (omega arith),
              ← same (off + 11) (omega arith),
              same_name-below buf buf' name off f same (omega arith),
            )
            (elim (Bool-cases (get_or buf off 0 == 0xE5)) [
              | inl d ↦ absurd (ground (arith, kept))
              | inr d ↦ rw d (ground (arith, rest))
            ])
    ]

-- A name as `name_to_fat83` makes one of a name that is not empty.
pub record IsName (name : List ℕ) : Type 0 where
  pub size : length name ≡ 11
  pub not_end : get_or name 0 0 ≢ 0
  pub not_deleted : get_or name 0 0 ≢ 0xE5

pub IsEntry-written :
    (buf name : List ℕ) (c n f : ℕ)
    → IsName name
    → f + 32 ≤ length buf
    → IsEntry (put_bytes buf f (dir_entry name c n)) name f
IsEntry-written buf name c n f is room =
    let z : f + 0 ≡ f = omega arith in
    let whole = put_bytes buf f (dir_entry name c n) in
    let first : get_or whole f 0 ≡ get_or name 0 0 =
      subst (λ i. get_or whole i 0 ≡ get_or name 0 0) z
        (name-written buf name c n f 0 is.size room (omega arith)) in
    let attributes : get_or whole (f + 11) 0 ≡ 0x20 =
      byte-written buf name c n f 0 is.size room (omega arith) in
    let size = is.size in
    record {
      in_use = λ e. is.not_end (sym first ∙ e);
      not_deleted = λ e. is.not_deleted (sym first ∙ e);
      no_long_name = λ e. omega arith;
      named =
          same_name-at whole name f
            (λ k h. name-written buf name c n f k is.size room (omega arith));
    }

-- When a name of 11 bytes, whose first one is no mark, is not in the directory and an entry is free,
-- the search finds the entry that is written there for it, with the first cluster and the size that
-- were written, both of them 32-bit numbers. The buffer has the size that is searched.
pub find_dir_entry-dir_entry :
    (buf name : List ℕ) (size cluster n f : ℕ)
    → length buf ≡ size
    → IsName name
    → cluster < 2 ^ 32
    → n < 2 ^ 32
    → (find_dir_entry buf size name).0 ≡ none
    → (find_dir_entry buf size name).1 ≡ some f
    → let new = put_bytes buf f (dir_entry name cluster n) in
      ((find_dir_entry new size name).0 ≡ some f)
      × (entry_cluster new f ≡ cluster)
      × (entry_size new f ≡ n)
unfolding find_dir_entry
find_dir_entry-dir_entry buf name size cluster n f len is hc hn e0 e1 =
    let bound = scan-bound buf name (size / 32) 0 f e1 in
    let room : f + 32 ≤ length buf = omega arith in
    let fields = fields-written buf name cluster n f is.size room hc hn in
    (
      scan-created buf (put_bytes buf f (dir_entry name cluster n)) name (size / 32) 0 f is.size
          (put_bytes-below (dir_entry name cluster n) buf f)
          (IsEntry-written buf name cluster n f is room) e0 e1,
      fields.0,
      fields.1,
    )
