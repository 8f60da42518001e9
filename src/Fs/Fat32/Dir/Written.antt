-- ===== src/Fs/Fat32/Dir/Written.antt =====
-- The bytes of a directory of fs/fat32.c after an entry has been written.
use chris_os.Base.{◌%◌, ◌^◌, ◌/◌, get_or-append, replicate, ◌++◌, eq→==, length-append, ap, ℕ}
use chris_os.Base.{zero, suc, ◌+◌, ◌≤◌, ◌<◌, ◌≡◌, refl, sym, ◌∙◌, true, List, [], ◌∷◌, arith}
use chris_os.Base.{length, get_or, set, length-set, get_or-set_self, get_or-set_ne}
use chris_os.Base.Word.{u16}
use mathlib.Core.Path.{subst}
use chris_os.Fs.Fat32.Dir.{entry_cluster, entry_size, dir_entry, put_bytes, same_name}
use chris_os.Net.Types.{bytes_at, store16, store32}

-- Two buffers have the same bytes below an offset.
abbrev pub SameBelow : ℕ → List ℕ → List ℕ → Type 0
SameBelow n xs ys = (k : ℕ) → k < n → get_or xs k 0 ≡ get_or ys k 0

pub put_bytes-below : (bs buf : List ℕ) (off : ℕ) → SameBelow off buf (put_bytes buf off bs)
unfolding put_bytes
put_bytes-below [] buf off k h = refl
put_bytes-below (b ∷ bs) buf off k h =
    sym (get_or-set_ne buf off k b 0 (λ e. omega arith))
    ∙ put_bytes-below bs (set buf off b) (off + 1) k (omega arith)

pub put_bytes-at :
    (bs buf : List ℕ) (off k : ℕ)
    → off + length bs ≤ length buf
    → k < length bs
    → get_or (put_bytes buf off bs) (off + k) 0 ≡ get_or bs k 0
unfolding put_bytes
put_bytes-at [] buf off k h hk = absurd (omega arith)
put_bytes-at (b ∷ bs) buf off zero h hk =
    let start : off + zero ≡ off = omega arith in
    rw start (sym (put_bytes-below bs (set buf off b) (off + 1) off (omega arith)))
    ∙ get_or-set_self buf off b 0 (omega arith)
put_bytes-at (b ∷ bs) buf off (suc k) h hk =
    let len = length-set buf off b in
    let shift : off + suc k ≡ off + 1 + k = omega arith in
    rw shift (put_bytes-at bs (set buf off b) (off + 1) k (omega arith) (omega arith))

pub same_name-below :
    (xs ys name : List ℕ) (i n : ℕ)
    → SameBelow n xs ys
    → i + length name ≤ n
    → same_name ys name i ≡ same_name xs name i
unfolding same_name
same_name-below xs ys [] i n same h = refl
same_name-below xs ys (c ∷ name) i n same h =
    rw (same i (omega arith), same_name-below xs ys name (i + 1) n same (omega arith)) refl

pub length-dir_entry :
    (name : List ℕ) (c n : ℕ) → length name ≡ 11 → length (dir_entry name c n) ≡ 32
unfolding dir_entry
length-dir_entry name c n h = length-append name _ ∙ ap (λ k. k + 21) h

get_or-left : (xs ys : List ℕ) (k : ℕ) → k < length xs → get_or (xs ++ ys) k 0 ≡ get_or xs k 0
get_or-left [] ys k h = absurd (omega arith)
get_or-left (x ∷ xs) ys zero h = refl
get_or-left (x ∷ xs) ys (suc k) h = get_or-left xs ys k (omega arith)

pub same_name-at :
    (xs name : List ℕ) (i : ℕ)
    → ((k : ℕ) → k < length name → get_or xs (i + k) 0 ≡ get_or name k 0)
    → same_name xs name i ≡ true
unfolding same_name
same_name-at xs [] i same = refl
same_name-at xs (c ∷ name) i same =
    let first : get_or xs i 0 ≡ c =
      (let z : i + 0 ≡ i = omega arith in
        subst (λ n. get_or xs n 0 ≡ c) z (same 0 (omega arith))) in
    let rest = same_name-at xs name (i + 1) (λ k h.
      (let z : i + suc k ≡ i + 1 + k = omega arith in
        subst (λ n. get_or xs n 0 ≡ get_or name k 0) z (same (suc k) (omega arith)))) in
    rw (first, rest, eq→== c c refl) refl

-- The bytes of an entry behind its name.
abbrev entry_tail : ℕ → ℕ → List ℕ
entry_tail c n =
    0x20
    ∷ 0
    ∷ 0
    ∷ (replicate 6 0
        ++ (store16 (u16 (c / 2 ^ 16)) ++ (replicate 4 0 ++ (store16 (c % 2 ^ 16) ++ store32 n))))

-- A byte of a buffer in which an entry has been written.
pub byte-written :
    (buf name : List ℕ) (c n f k : ℕ)
    → length name ≡ 11
    → f + 32 ≤ length buf
    → k < 21
    → get_or (put_bytes buf f (dir_entry name c n)) (f + (11 + k)) 0 ≡ get_or (entry_tail c n) k 0
unfolding dir_entry
byte-written buf name c n f k len room hk =
    let whole = length-dir_entry name c n len in
    put_bytes-at (dir_entry name c n) buf f (11 + k) (omega arith) (omega arith)
    ∙ rw (← len) (get_or-append name (entry_tail c n) k 0)

pub name-written :
    (buf name : List ℕ) (c n f k : ℕ)
    → length name ≡ 11
    → f + 32 ≤ length buf
    → k < 11
    → get_or (put_bytes buf f (dir_entry name c n)) (f + k) 0 ≡ get_or name k 0
unfolding dir_entry
name-written buf name c n f k len room hk =
    let whole = length-dir_entry name c n len in
    put_bytes-at (dir_entry name c n) buf f k (omega arith) (omega arith)
    ∙ get_or-left name (entry_tail c n) k (omega arith)

byte-at :
    (buf name : List ℕ) (c n f i k : ℕ)
    → length name ≡ 11
    → f + 32 ≤ length buf
    → k < 21
    → i ≡ f + (11 + k)
    → get_or (put_bytes buf f (dir_entry name c n)) i 0 ≡ get_or (entry_tail c n) k 0
byte-at buf name c n f i k len room h e = rw e (byte-written buf name c n f k len room h)

-- The fields of an entry that has been written.
pub fields-written :
    (buf name : List ℕ) (cluster n f : ℕ)
    → length name ≡ 11
    → f + 32 ≤ length buf
    → cluster < 2 ^ 32
    → n < 2 ^ 32
    → let new = put_bytes buf f (dir_entry name cluster n) in
      (entry_cluster new f ≡ cluster) × (entry_size new f ≡ n)
unfolding entry_cluster entry_size
fields-written buf name cluster n f len room hc hn =
    let byte : (k : ℕ) → ℕ = bytes_at (put_bytes buf f (dir_entry name cluster n)) in
    let b0 : byte (f + 20) ≡ u16 (cluster / 2 ^ 16) % 256 =
      byte-at buf name cluster n f (f + 20) 9 len room (omega arith) (omega arith) in
    let b1 : byte (f + 20 + 1) ≡ u16 (cluster / 2 ^ 16) / 256 % 256 =
      byte-at buf name cluster n f (f + 20 + 1) 10 len room (omega arith) (omega arith) in
    let b2 : byte (f + 26) ≡ cluster % 2 ^ 16 % 256 =
      byte-at buf name cluster n f (f + 26) 15 len room (omega arith) (omega arith) in
    let b3 : byte (f + 26 + 1) ≡ cluster % 2 ^ 16 / 256 % 256 =
      byte-at buf name cluster n f (f + 26 + 1) 16 len room (omega arith) (omega arith) in
    let s0 : byte (f + 28) ≡ n % 256 =
      byte-at buf name cluster n f (f + 28) 17 len room (omega arith) (omega arith) in
    let s1 : byte (f + 28 + 1) ≡ n / 2 ^ 8 % 256 =
      byte-at buf name cluster n f (f + 28 + 1) 18 len room (omega arith) (omega arith) in
    let s2 : byte (f + 28 + 2) ≡ n / 2 ^ 16 % 256 =
      byte-at buf name cluster n f (f + 28 + 2) 19 len room (omega arith) (omega arith) in
    let s3 : byte (f + 28 + 2 + 1) ≡ n / 2 ^ 24 % 256 =
      byte-at buf name cluster n f (f + 28 + 2 + 1) 20 len room (omega arith) (omega arith) in
    (rw (b0, b1, b2, b3) (omega arith), rw (s0, s1, s2, s3) (omega arith))
