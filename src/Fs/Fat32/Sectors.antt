-- ===== src/Fs/Fat32/Sectors.antt =====
-- The clusters of fs/fat32.c as runs of sectors: reading what has been written, and changing one
-- sector of a cluster.
use chris_os.Base.{eq→==, ==→eq, ltb, Bool-cases, ℕ, zero, suc, ◌+◌, ◌-◌, ◌*◌, ◌/◌, ◌%◌, ◌^◌}
use chris_os.Base.{◌≤◌, ◌<◌, ◌≡◌, refl, sym, ap, ap₂, ◌∙◌, ◌≢◌, inl, inr, List, [], ◌∷◌, ◌++◌}
use chris_os.Base.{arith, ◌==◌, length, get_or, take, drop, length-append, length-take}
use chris_os.Base.{length-drop, get_or-append}
use chris_os.Base.Slices.{take-append-drop, get_or-take, get_or-drop, get_or-left, get_or-ext}
use chris_os.Base.Word.{u32}
use mathlib.Core.Path.{subst}
use chris_os.Fs.Fat32.Areas.{Written-widen, Written, Written-sectors, unchanged, written}
use chris_os.Fs.Fat32.Areas.{Written-outside, read_sector-write_sector}
use chris_os.Fs.Fat32.Table.{Volume, Sector, read_sector, write_sector, read_sectors}
use chris_os.Fs.Fat32.Table.{write_sectors}

-- The sectors from `lba` on lie on the disk.
abbrev pub OnDisk : ℕ → ℕ → Type 0
OnDisk n lba = 20480 + lba + n ≤ 2 ^ 32

pub write_sectors-Written :
    (v : Volume) (n lba : ℕ) (buf : List ℕ)
    → OnDisk n lba
    → length buf ≡ n * 512
    → Written lba (lba + n) v (write_sectors v n lba buf)
unfolding write_sectors
write_sectors-Written v zero lba buf h len = unchanged
write_sectors-Written v (suc n) lba buf h len =
    let next : u32 (lba + 1) ≡ lba + 1 = omega arith in
    let lt = length-take 512 buf in
    let ld = length-drop 512 buf in
    let rest =
      write_sectors-Written (write_sector v lba (take 512 buf)) n (lba + 1) (drop 512 buf)
        (omega arith) (omega arith) in
    written lba (take 512 buf) (omega arith) (omega arith) (omega arith)
      (rw next (Written-widen (omega arith) (omega arith) rest))

pub read_sectors-same :
    (v w : Volume) (n lba : ℕ)
    → OnDisk n lba
    → ((k : ℕ) → lba ≤ k → k < lba + n → read_sector w k ≡ read_sector v k)
    → read_sectors w n lba ≡ read_sectors v n lba
unfolding read_sectors
read_sectors-same v w zero lba h same = refl
read_sectors-same v w (suc n) lba h same =
    let next : u32 (lba + 1) ≡ lba + 1 = omega arith in
    rw
      (
        next,
        same lba (omega arith) (omega arith),
        read_sectors-same v w n (lba + 1) (omega arith)
            (λ k a b. same k (omega arith) (omega arith)),
      )
      refl

pub length-read_sector :
    (v : Volume) (lba : ℕ) → ((k : ℕ) → length (v.disk k) ≡ 512) → length (read_sector v lba) ≡ 512
unfolding read_sector
length-read_sector v lba hs = hs (u32 (20480 + lba))

pub length-read_sectors :
    (v : Volume) (n lba : ℕ)
    → ((k : ℕ) → length (v.disk k) ≡ 512)
    → length (read_sectors v n lba) ≡ n * 512
unfolding read_sectors
length-read_sectors v zero lba hs = refl
length-read_sectors v (suc n) lba hs =
    length-append (read_sector v lba) (read_sectors v n (u32 (lba + 1)))
    ∙ omega (arith, length-read_sector v lba hs, length-read_sectors v n (u32 (lba + 1)) hs)

read_sector-write_self :
    (v : Volume) (lba : ℕ) (buf : Sector)
    → 20480 + lba < 2 ^ 32
    → read_sector (write_sector v lba buf) lba ≡ buf
read_sector-write_self v lba buf h = read_sector-write_sector v lba lba buf h h ∙ ground arith

write_sectors-next :
    (v : Volume) (n lba : ℕ) (buf : List ℕ)
    → lba + 1 < 2 ^ 32
    → write_sectors v (suc n) lba buf
      ≡ write_sectors (write_sector v lba (take 512 buf)) n (lba + 1) (drop 512 buf)
unfolding write_sectors
write_sectors-next v n lba buf h =
    let next : u32 (lba + 1) ≡ lba + 1 = omega arith in
    ap (λ l. write_sectors (write_sector v lba (take 512 buf)) n l (drop 512 buf)) next

pub read_sectors-write_sectors :
    (v : Volume) (n lba : ℕ) (buf : List ℕ)
    → OnDisk n lba
    → length buf ≡ n * 512
    → read_sectors (write_sectors v n lba buf) n lba ≡ buf
unfolding read_sectors
read_sectors-write_sectors v zero lba [] h len = refl
read_sectors-write_sectors v zero lba (b ∷ buf) h len = absurd (omega arith)
read_sectors-write_sectors v (suc n) lba buf h len =
    let next : u32 (lba + 1) ≡ lba + 1 = omega arith in
    let ld = length-drop 512 buf in
    let w = write_sector v lba (take 512 buf) in
    let rest = write_sectors-Written w n (lba + 1) (drop 512 buf) (omega arith) (omega arith) in
    let here : read_sector (write_sectors w n (lba + 1) (drop 512 buf)) lba ≡ take 512 buf =
      Written-outside lba (omega arith) (omega arith) (inl (omega arith)) rest
      ∙ read_sector-write_self v lba (take 512 buf) (omega arith) in
    subst (λ x. read_sectors x (suc n) lba ≡ buf)
      (sym (write_sectors-next v n lba buf (omega arith)))
      (rw
        (
          next,
          here,
          read_sectors-write_sectors w n (lba + 1) (drop 512 buf) (omega arith) (omega arith),
        )
        (take-append-drop 512 buf))

-- A byte of a run of sectors stands in its sector.
get_or-read_sectors :
    (v : Volume) (n lba k : ℕ)
    → OnDisk n lba
    → ((m : ℕ) → length (v.disk m) ≡ 512)
    → k < n * 512
    → get_or (read_sectors v n lba) k 0 ≡ get_or (read_sector v (lba + k / 512)) (k % 512) 0
unfolding read_sectors
get_or-read_sectors v zero lba k h hs hk = absurd (omega arith)
get_or-read_sectors v (suc n) lba k h hs hk =
    let next : u32 (lba + 1) ≡ lba + 1 = omega arith in
    let len = length-read_sector v lba hs in
    let ys = read_sectors v n (u32 (lba + 1)) in
    elim (Bool-cases (ltb k 512)) [
      | inl lt ↦
          let small : k < 512 = ground arith in
          let quot : lba + k / 512 ≡ lba = omega arith in
          let rest : k % 512 ≡ k = omega arith in
          get_or-left (read_sector v lba) ys k 0 (ground arith) ∙ rw (quot, rest) refl
      | inr ge ↦
          let j : 512 ≤ k = ground arith in
          let at : k ≡ length (read_sector v lba) + (k - 512) = omega arith in
          let sector : lba + 1 + (k - 512) / 512 ≡ lba + k / 512 = omega arith in
          let byte : (k - 512) % 512 ≡ k % 512 = omega arith in
          ap (λ i. get_or (read_sector v lba ++ ys) i 0) at
          ∙ (get_or-append (read_sector v lba) ys (k - 512) 0
              ∙ rw next (
                  get_or-read_sectors v n (lba + 1) (k - 512) (omega arith) hs (omega arith)
                  ∙ ap₂ (λ s i. get_or (read_sector v s) i 0) sector byte))
    ]

-- A run of sectors of which sector `s` is overwritten with its part of a changed buffer: it reads
-- as the changed buffer, when the change lies within that sector.
pub read_sectors-write_sector :
    (v : Volume) (n lba s : ℕ) (new : List ℕ)
    → OnDisk n lba
    → ((m : ℕ) → length (v.disk m) ≡ 512)
    → s < n
    → length new ≡ n * 512
    → ((k : ℕ) → k / 512 ≢ s → get_or new k 0 ≡ get_or (read_sectors v n lba) k 0)
    → read_sectors (write_sector v (lba + s) (take 512 (drop (s * 512) new))) n lba ≡ new
read_sectors-write_sector v n lba s new h hs hn len same =
    let slice = take 512 (drop (s * 512) new) in
    let w = write_sector v (lba + s) slice in
    let ld = length-drop (s * 512) new in
    let lt = length-take 512 (drop (s * 512) new) in
    let whole : length slice ≡ 512 = omega arith in
    let one : Written (lba + s) (lba + s + 1) v w =
      written (lba + s) slice (omega arith) (omega arith) whole unchanged in
    let ws : (m : ℕ) → length (w.disk m) ≡ 512 = Written-sectors one hs in
    let at : (k : ℕ)
        → k < n * 512
        → get_or (read_sectors w n lba) k 0 ≡ get_or (read_sector w (lba + k / 512)) (k % 512) 0 =
      λ k hk. get_or-read_sectors w n lba k h ws hk in
    get_or-ext (read_sectors w n lba) new 0 (length-read_sectors w n lba ws ∙ sym len) (λ k hk.
      let ll = length-read_sectors w n lba ws in
      let inside : k < n * 512 = omega arith in
      at k inside
      ∙ ap (λ x. get_or x (k % 512) 0)
          (read_sector-write_sector v (lba + s) (lba + k / 512) slice (omega arith) (omega arith))
      ∙ elim (Bool-cases (lba + k / 512 == lba + s)) [
        | inl e ↦
            let quot : lba + k / 512 ≡ lba + s = ==→eq (lba + k / 512) (lba + s) e in
            rw e (
              get_or-take 512 (drop (s * 512) new) (k % 512) 0 (omega arith)
              ∙ (get_or-drop (s * 512) new (k % 512) 0 ∙ ap (λ i. get_or new i 0) (omega arith)))
        | inr e ↦
            let other : k / 512 ≢ s =
              λ f. (let g = eq→== (lba + k / 512) (lba + s) (omega arith) in ground arith) in
            rw e (sym (get_or-read_sectors v n lba k h hs inside) ∙ sym (same k other))
      ])
