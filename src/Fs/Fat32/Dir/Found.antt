-- ===== src/Fs/Fat32/Dir/Found.antt =====
-- Where the search of a directory of fs/fat32.c finds an entry, and the search once that entry is
-- written again.
use chris_os.Base.{sym, ℕ, zero, suc, ◌+◌, ◌*◌, ◌%◌, ◌≤◌, ◌≡◌, refl, ◌∙◌, ◌⊎◌, inl, inr, ◌≢◌}
use chris_os.Base.{Option, none, some, List, [], ◌∷◌, arith, length, get_or, set, length-set}
use chris_os.Base.{get_or-set_ne, ◌==◌, Bool-cases, ==→eq, true}
use mathlib.Core.Path.{subst}
use chris_os.Fs.Fat32.Dir.{put_bytes, same_name, scan}
use chris_os.Fs.Fat32.Dir.Laws.{scan-here, IsEntry, scan-later, scan-step}
use chris_os.Fs.Fat32.Dir.Written.{SameBelow, same_name-below}

pub length-put_bytes : (bs buf : List ℕ) (off : ℕ) → length (put_bytes buf off bs) ≡ length buf
unfolding put_bytes
length-put_bytes [] buf off = refl
length-put_bytes (b ∷ bs) buf off =
    length-put_bytes bs (set buf off b) (off + 1) ∙ length-set buf off b

pub put_bytes-above :
    (bs buf : List ℕ) (off k : ℕ)
    → off + length bs ≤ k
    → get_or (put_bytes buf off bs) k 0 ≡ get_or buf k 0
unfolding put_bytes
put_bytes-above [] buf off k h = refl
put_bytes-above (b ∷ bs) buf off k h =
    put_bytes-above bs (set buf off b) (off + 1) k (omega arith)
    ∙ get_or-set_ne buf off k b 0 (λ e. omega arith)

-- An offset of an entry, among `left` of them from `off` on.
pub record IsSlot (left off f : ℕ) : Type 0 where
  pub aligned : f % 32 ≡ off % 32
  pub start : off ≤ f
  pub room : f + 32 ≤ off + left * 32

IsSlot-behind : (left off f : ℕ) → IsSlot left (off + 32) f → IsSlot (suc left) off f
IsSlot-behind left off f is =
    let a = is.aligned in
    let b = is.start in
    let c = is.room in record { aligned = omega arith; start = omega arith; room = omega arith }

IsSlot-here : (left off f : ℕ) → off ≡ f → IsSlot (suc left) off f
IsSlot-here left off f e = record { aligned = omega arith; start = omega arith; room = omega arith }

-- The entry found stands here, or the search goes on behind.
scan_found :
    (buf name : List ℕ) (left off f : ℕ) (free : Option ℕ)
    → (scan buf name (suc left) off free).0 ≡ some f
    → (off ≡ f)
      ⊎ ((g : Option ℕ) × ((scan buf name left (off + 32) g).0 ≡ some f)
          × (get_or buf off 0 ≢ 0)
          × ((get_or buf off 0 ≡ 0xE5)
              ⊎ ((get_or buf (off + 11) 0 ≡ 0x0F) ⊎ (same_name buf name off ≢ true))))
unfolding scan
scan_found buf name left off f free e =
    let first = get_or buf off 0 in
    let here : Option ℕ = elim free [ none ↦ some off | some g ↦ some g ] in
    elim (Bool-cases (first == 0xE5)) [
      | inl d ↦ inr (here, ground arith, ground arith, inl (==→eq first 0xE5 d))
      | inr d ↦ elim (Bool-cases (get_or buf (off + 11) 0 == 0x0F)) [
        | inl l ↦
            inr
              (free, ground arith, ground arith, inr (inl (==→eq (get_or buf (off + 11) 0) 0x0F l)))
        | inr l ↦ elim (Bool-cases (same_name buf name off)) [
          | inl s ↦ inl (ground arith)
          | inr s ↦ inr (free, ground arith, ground arith, inr (inr (λ t. ground arith)))
        ]
      ]
    ]

pub scan-IsSlot :
    (buf name : List ℕ) (left off f : ℕ) (free : Option ℕ)
    → (scan buf name left off free).0 ≡ some f
    → IsSlot left off f
unfolding scan
scan-IsSlot buf name zero off f free e = absurd (ground arith)
scan-IsSlot buf name (suc left) off f free e = elim (scan_found buf name left off f free e) [
  | inl here ↦ IsSlot-here left off f here
  | inr later ↦ IsSlot-behind left off f (scan-IsSlot buf name left (off + 32) f later.0 later.1)
]

-- The free entry, of a search that does not find the name.
pub free-IsSlot :
    (buf name : List ℕ) (left off f : ℕ)
    → (scan buf name left off none).0 ≡ none
    → (scan buf name left off none).1 ≡ some f
    → IsSlot left off f
unfolding scan
free-IsSlot buf name zero off f e0 e1 = absurd (ground arith)
free-IsSlot buf name (suc left) off f e0 e1 = elim (scan-later buf name left off f e1) [
  | inl here ↦ IsSlot-here left off f (sym here)
  | inr later ↦
      let step = scan-step buf name left off f later e0 e1 in
      IsSlot-behind left off f (free-IsSlot buf name left (off + 32) f step.0 step.1)
]

-- The search goes on behind an entry that is not the one looked for.
scan_skips :
    (buf name : List ℕ) (left off : ℕ) (free : Option ℕ)
    → get_or buf off 0 ≢ 0
    → (get_or buf off 0 ≡ 0xE5)
      ⊎ ((get_or buf (off + 11) 0 ≡ 0x0F) ⊎ (same_name buf name off ≢ true))
    → (g : Option ℕ) × ((scan buf name (suc left) off free).0 ≡ (scan buf name left (off + 32) g).0)
unfolding scan
scan_skips buf name left off free used other =
    let first = get_or buf off 0 in
    let here : Option ℕ = elim free [ none ↦ some off | some g ↦ some g ] in
    elim (Bool-cases (first == 0xE5)) [
      | inl d ↦ (here, ground arith)
      | inr d ↦ (free, ground arith)
    ]

-- The entry that a search finds is found again once it is written again for the same name.
pub scan-rewritten :
    (buf buf' name : List ℕ) (left off f : ℕ) (free free' : Option ℕ)
    → length name ≡ 11
    → SameBelow f buf buf'
    → IsEntry buf' name f
    → (scan buf name left off free).0 ≡ some f
    → (scan buf' name left off free').0 ≡ some f
unfolding scan
scan-rewritten buf buf' name zero off f free free' len same entry e = absurd (ground arith)
scan-rewritten buf buf' name (suc left) off f free free' len same entry e =
    elim (scan_found buf name left off f free e) [
      | inl here ↦
          subst (λ o. (scan buf' name (suc left) o free').0 ≡ some f) (sym here)
            (scan-here buf' name left f free' entry)
      | inr later ↦
          let slot = scan-IsSlot buf name left (off + 32) f later.0 later.1 in
          let h = slot.start in
          let first = same off (omega arith) in
          let attribute = same (off + 11) (omega arith) in
          let name_same = same_name-below buf buf' name off f same (omega arith) in
          let skip =
            scan_skips buf' name left off free' (λ z. later.2 (first ∙ z))
              (rw (← first, ← attribute, name_same) later.3) in
          skip.1
          ∙ scan-rewritten buf buf' name left (off + 32) f later.0 skip.0 len same entry later.1
    ]
