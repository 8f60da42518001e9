-- ===== src/Drivers/Ata/Protocol.antt =====
-- What drivers/ata.c relies on: the documented behaviour of an ATA controller whose two drives
-- answer without errors, and that its status shows neither an error nor a request while it is busy. The hardware is no code of the repository, so that its state is abstract
-- and is seen only through the observations of `Channel`.
use chris_os.Base.{All, ℕ, ◌+◌, ◌-◌, ◌*◌, ◌/◌, ◌%◌, ◌^◌, ◌<◌, ◌≡◌, true, false, ◌&&◌, List, []}
use chris_os.Base.{◌∷◌, ◌++◌, ◌==◌, if◌then◌else◌, length}
use chris_os.Base.Word.{bit}
use chris_os.Drivers.Ata.{ata_data, ata_seccount, ata_hddevsel, ata_command, ata_cmd_read}
use chris_os.Drivers.Ata.{ata_cmd_write, ata_timeout, ata_lba_low, ata_lba_mid, ata_lba_high}
use chris_os.Drivers.Ports.{Ports}

-- What goes on at the data port: nothing, words left to be read, or words that have been written.
pub data Phase : Type 0 where
  idle : Phase
  sending : List ℕ → Phase
  receiving : List ℕ → Phase

-- Drive, sector number and the 256 words of the sector.
abbrev pub Sectors : Type 0
Sectors = ℕ → ℕ → List ℕ

-- The sectors with one of them replaced.
unfoldable pub put_sector : Sectors → ℕ → ℕ → List ℕ → Sectors
put_sector f drive lba ws d l = if d == drive && l == lba then ws else f d l

-- The contents of the disks, the values last written to the registers, the phase, and how often the
-- status reads as busy before it shows the phase.
pub record Channel (S : Type 0) : Type 0 where
  pub sectors : S → Sectors
  pub register : S → ℕ → ℕ
  pub phase : S → Phase
  pub busy : S → ℕ

-- The drive and the sector number that stand in the registers.
unfoldable pub selected : (ℕ → ℕ) → ℕ
selected register = register ata_hddevsel / 2 ^ 4 % 2

unfoldable pub addressed : (ℕ → ℕ) → ℕ
addressed register =
    register ata_lba_low
    + register ata_lba_mid * 2 ^ 8
    + register ata_lba_high * 2 ^ 16
    + register ata_hddevsel % 2 ^ 4 * 2 ^ 24

-- Which bits of the status show that a phase has begun: not the busy and the error bit, and the
-- request bit exactly when data are to be moved.
unfoldable pub IsShown : Phase → ℕ → Type 0
IsShown idle status = bit 7 status ≡ false
IsShown (sending ws) status = (bit 0 status ≡ false) × (bit 3 status ≡ true)
IsShown (receiving ws) status = (bit 0 status ≡ false) × (bit 3 status ≡ true)

-- The controller takes registers and commands: it is not busy, and no data are to be moved.
pub record IsFree {S : Type 0} (c : Channel S) (s : S) : Type 0 where
  pub waits : c.phase s ≡ idle
  pub done : c.busy s ≡ 0

-- The protocol of a transfer by programmed I/O. While the controller is busy, only the busy bit of
-- its status means anything, and nothing is said of what a register, a command or the data port does
-- then. A command finds a sector only by a device register with bit 6, which says that the
-- registers hold the number of a sector and not a cylinder and a head.
pub record IsAta {S : Type 0} (ports : Ports S) (c : Channel S) : Type 0 where
  -- A read of the status changes nothing but the time that the controller stays busy.
  pub status_sectors : (s : S) → c.sectors (ports.inb ata_command s).1 ≡ c.sectors s
  pub status_register : (s : S) → c.register (ports.inb ata_command s).1 ≡ c.register s
  pub status_phase : (s : S) → c.phase (ports.inb ata_command s).1 ≡ c.phase s
  pub status_busy : (s : S) → c.busy (ports.inb ata_command s).1 ≡ c.busy s - 1
  pub status_waits : (s : S) → 0 < c.busy s → bit 7 (ports.inb ata_command s).0 ≡ true
  pub status_shows : (s : S) → c.busy s ≡ 0 → IsShown (c.phase s) (ports.inb ata_command s).0
  -- A register of the command block keeps what is written to it.
  pub register_set :
      (port v : ℕ) (s : S)
      → IsFree c s
      → port < ata_command
      → ata_data < port
      → (q : ℕ) → c.register (ports.outb port v s) q ≡ (if q == port then v else c.register s q)
  pub register_sectors :
      (port v : ℕ) (s : S)
      → IsFree c s
      → port < ata_command
      → ata_data < port
      → c.sectors (ports.outb port v s) ≡ c.sectors s
  pub register_free :
      (port v : ℕ) (s : S)
      → IsFree c s
      → port < ata_command
      → ata_data < port
      → IsFree c (ports.outb port v s)
  -- A command keeps the registers, and the controller answers within the driver's timeout.
  pub command_sectors :
      (v : ℕ) (s : S) → IsFree c s → c.sectors (ports.outb ata_command v s) ≡ c.sectors s
  pub command_register :
      (v : ℕ) (s : S) → IsFree c s → c.register (ports.outb ata_command v s) ≡ c.register s
  pub command_busy :
      (v : ℕ) (s : S) → IsFree c s → c.busy (ports.outb ata_command v s) < ata_timeout
  pub command_read :
      (s : S)
      → IsFree c s
      → bit 6 (c.register s ata_hddevsel) ≡ true
      → c.register s ata_seccount ≡ 1
      → c.phase (ports.outb ata_command ata_cmd_read s)
        ≡ sending (c.sectors s (selected (c.register s)) (addressed (c.register s)))
  pub command_write :
      (s : S)
      → IsFree c s
      → bit 6 (c.register s ata_hddevsel) ≡ true
      → c.register s ata_seccount ≡ 1
      → c.phase (ports.outb ata_command ata_cmd_write s) ≡ receiving []
  -- The data port moves one word after the other, in either direction, while the controller is not
  -- busy. It becomes busy again only with the last word that it takes.
  pub read_word :
      (s : S) (w : ℕ) (ws : List ℕ)
      → c.busy s ≡ 0
      → c.phase s ≡ sending (w ∷ ws)
      → (ports.inw ata_data s).0 ≡ w
  pub read_next :
      (s : S) (w : ℕ) (ws : List ℕ)
      → c.busy s ≡ 0
      → c.phase s ≡ sending (w ∷ ws)
      → c.phase (ports.inw ata_data s).1 ≡ (if length ws == 0 then idle else sending ws)
  pub read_sectors :
      (s : S) (w : ℕ) (ws : List ℕ)
      → c.busy s ≡ 0
      → c.phase s ≡ sending (w ∷ ws)
      → c.sectors (ports.inw ata_data s).1 ≡ c.sectors s
  pub read_busy :
      (s : S) (w : ℕ) (ws : List ℕ)
      → c.busy s ≡ 0
      → c.phase s ≡ sending (w ∷ ws)
      → c.busy (ports.inw ata_data s).1 ≡ 0
  pub write_next :
      (s : S) (v : ℕ) (ws : List ℕ)
      → c.busy s ≡ 0
      → c.phase s ≡ receiving ws
      → c.phase (ports.outw ata_data v s)
        ≡ (if length ws == 255 then idle else receiving (ws ++ (v ∷ [])))
  pub write_register :
      (s : S) (v : ℕ) (ws : List ℕ)
      → c.busy s ≡ 0
      → c.phase s ≡ receiving ws
      → c.register (ports.outw ata_data v s) ≡ c.register s
  -- Where the words go is what the registers say at the last of them, as at the command.
  pub write_sectors :
      (s : S) (v : ℕ) (ws : List ℕ)
      → c.busy s ≡ 0
      → c.phase s ≡ receiving ws
      → c.sectors (ports.outw ata_data v s) ≡ (
          if length ws == 255
          then put_sector
              (c.sectors s)
              (selected (c.register s))
              (addressed (c.register s))
              (ws ++ (v ∷ []))
          else c.sectors s)
  pub write_more :
      (s : S) (v : ℕ) (ws : List ℕ)
      → c.busy s ≡ 0
      → c.phase s ≡ receiving ws
      → length ws < 255
      → c.busy (ports.outw ata_data v s) ≡ 0
  pub write_busy :
      (s : S) (v : ℕ) (ws : List ℕ)
      → c.busy s ≡ 0
      → c.phase s ≡ receiving ws
      → c.busy (ports.outw ata_data v s) < ata_timeout

-- More than the protocol says, and what the driver relies on besides: `ata_wait_drq` looks at the
-- error and the request bit of a status without looking at its busy bit, so that the controller must
-- show neither while it is busy.
pub record IsQuiet {S : Type 0} (ports : Ports S) (c : Channel S) : Type 0 where
  pub no_error : (s : S) → 0 < c.busy s → bit 0 (ports.inb ata_command s).0 ≡ false
  pub no_request : (s : S) → 0 < c.busy s → bit 3 (ports.inb ata_command s).0 ≡ false

-- Between two commands, the controller waits for the next one and shows it soon enough.
pub record IsReady {S : Type 0} (c : Channel S) (s : S) : Type 0 where
  pub waits : c.phase s ≡ idle
  pub soon : c.busy s < ata_timeout
  -- Every sector has 256 words.
  pub whole : (drive lba : ℕ) → length (c.sectors s drive lba) ≡ 256
  pub words : (drive lba : ℕ) → All (λ w. w < 2 ^ 16) (c.sectors s drive lba)
