-- ===== src/Fs/Fat32/Areas.antt =====
-- The disk of fs/fat32.c under writes: what a sequence of writes to one area of the volume leaves.
use chris_os.Base.{ℕ, ◌+◌, ◌^◌, ◌≤◌, ◌<◌, ◌≡◌, refl, ◌∙◌, ◌⊎◌, arith, ◌==◌, if◌then◌else◌}
use chris_os.Base.{length}
use chris_os.Fs.Fat32.Table.{Volume, Sector, read_sector, write_sector}

-- Writes of whole sectors from `lo` up to `hi`, one after the other.
pub data Written (lo hi : ℕ) : Volume → Volume → Type 0 where
  unchanged : {v : Volume} → Written lo hi v v
  written :
      {v w : Volume} (lba : ℕ) (buf : Sector)
      → lo ≤ lba
      → lba < hi
      → length buf ≡ 512
      → Written lo hi (write_sector v lba buf) w
      → Written lo hi v w

pub Written-trans :
    {lo hi : ℕ} {u v w : Volume} → Written lo hi u v → Written lo hi v w → Written lo hi u w
Written-trans unchanged s = s
Written-trans (written lba buf h k len r) s = written lba buf h k len (Written-trans r s)

pub Written-widen :
    {lo hi lo' hi' : ℕ} {v w : Volume}
    → lo' ≤ lo
    → hi ≤ hi'
    → Written lo hi v w
    → Written lo' hi' v w
Written-widen a b unchanged = unchanged
Written-widen a b (written lba buf h k len r) =
    written lba buf (omega arith) (omega arith) len (Written-widen a b r)

-- The parameters of the volume stay.
pub Written-params : {lo hi : ℕ} {v w : Volume} → Written lo hi v w → record v { disk = w.disk } ≡ w
unfolding write_sector
Written-params unchanged = refl
Written-params (written lba buf h k len r) = Written-params r

pub read_sector-write_sector :
    (v : Volume) (lba k : ℕ) (buf : Sector)
    → 20480 + lba < 2 ^ 32
    → 20480 + k < 2 ^ 32
    → read_sector (write_sector v lba buf) k ≡ (if k == lba then buf else read_sector v k)
unfolding read_sector write_sector
read_sector-write_sector v lba k buf h hk = ground arith

-- The sectors outside the area stay.
pub Written-outside :
    {lo hi : ℕ} {v w : Volume} (k : ℕ)
    → 20480 + hi ≤ 2 ^ 32
    → 20480 + k < 2 ^ 32
    → (k < lo) ⊎ (hi ≤ k)
    → Written lo hi v w
    → read_sector w k ≡ read_sector v k
Written-outside k hh hk out unchanged = refl
Written-outside {lo} {hi} {v} {w} k hh hk out (written lba buf h h' len r) =
    Written-outside k hh hk out r
    ∙ (read_sector-write_sector v lba k buf (omega arith) hk ∙ ground arith)

-- Every sector keeps its 512 bytes.
pub Written-sectors :
    {lo hi : ℕ} {v w : Volume}
    → Written lo hi v w
    → ((n : ℕ) → length (v.disk n) ≡ 512)
    → (n : ℕ) → length (w.disk n) ≡ 512
unfolding write_sector
Written-sectors unchanged hs n = hs n
Written-sectors (written lba buf h h' len r) hs n =
    Written-sectors r (λ m. ground (arith, hs m, len)) n
