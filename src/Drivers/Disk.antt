-- ===== src/Drivers/Disk.antt =====
-- The two drives as their users see them, and what the users rely on: numbered sectors of 512 bytes.
use chris_os.Base.{ℕ, ◌^◌, ◌<◌, ◌≡◌, Bool, true, ◌&&◌, Option, some, List, ◌==◌, if◌then◌else◌}
use chris_os.Base.{length, All}

-- `ata_detect`, `ata_read_sector_ex` and `ata_write_sector_ex` on the state of the hardware.
pub record Drives (S : Type 0) : Type 0 where
  pub detect : ℕ → S → Bool × S
  pub read_at : ℕ → ℕ → S → Option (List ℕ) × S
  pub write_at : ℕ → ℕ → List ℕ → S → Bool × S

-- The contents of a sector.
pub record IsSector (bytes : List ℕ) : Type 0 where
  pub size : length bytes ≡ 512
  pub bytes_in : All (λ b. b < 256) bytes

-- A sector of a drive that the driver can address.
pub record IsPlace (drive lba : ℕ) : Type 0 where
  pub drive_in : drive < 2
  pub lba_in : lba < 2 ^ 28

-- The abstract disks: `bytes` is what stands in each sector. While the hardware is ready, a read
-- gives it and changes nothing, and a write replaces one sector and no other.
pub record IsDrives {S : Type 0} (drives : Drives S) (bytes : S → ℕ → ℕ → List ℕ)
    (Ready : S → Type 0) : Type 0 where
  pub sector : (s : S) (d l : ℕ) → Ready s → IsSector (bytes s d l)
  pub read_some :
      (s : S) (d l : ℕ) → Ready s → IsPlace d l → (drives.read_at d l s).0 ≡ some (bytes s d l)
  pub read_keeps :
      (s : S) (d l e m : ℕ)
      → Ready s
      → IsPlace d l
      → bytes (drives.read_at d l s).1 e m ≡ bytes s e m
  pub read_ready : (s : S) (d l : ℕ) → Ready s → IsPlace d l → Ready (drives.read_at d l s).1
  pub write_true :
      (s : S) (d l : ℕ) (buf : List ℕ)
      → Ready s
      → IsPlace d l
      → IsSector buf
      → (drives.write_at d l buf s).0 ≡ true
  pub write_puts :
      (s : S) (d l e m : ℕ) (buf : List ℕ)
      → Ready s
      → IsPlace d l
      → IsSector buf
      → bytes (drives.write_at d l buf s).1 e m ≡ (if e == d && m == l then buf else bytes s e m)
  pub write_ready :
      (s : S) (d l : ℕ) (buf : List ℕ)
      → Ready s
      → IsPlace d l
      → IsSector buf
      → Ready (drives.write_at d l buf s).1
