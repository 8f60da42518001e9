-- ===== src/Drivers/Ata/Sectors.antt =====
-- drivers/ata.c is a pair of disks: on a controller that follows the protocol, its reads and writes
-- are those of `IsDrives`.
use chris_os.Base.{ℕ, zero, suc, ◌+◌, ◌*◌, ◌^◌, ◌<◌, ◌≡◌, refl, sym, ap, ap₂, ◌∙◌, inl, inr}
use chris_os.Base.{Bool, true, ◌&&◌, Option, some, List, [], ◌∷◌, arith, ◌==◌, Bool-cases}
use chris_os.Base.{length, get_or, All}
use mathlib.Core.Path.{subst}
use chris_os.Drivers.Ata.{ata_timeout, ata_cmd_read, ata_cmd_write, drive_select, buffer_word}
use chris_os.Drivers.Ata.{address_sector, command_sector, read_words, write_words}
use chris_os.Drivers.Ata.{ata_wait_bsy, ata_wait_drq, ata_detect, ata_read_sector_ex}
use chris_os.Drivers.Ata.{ata_write_sector_ex}
use chris_os.Drivers.Ata.Laws.{address_sector-Keeps, address_sector-IsAddressed}
use chris_os.Drivers.Ata.Protocol.{Channel, IsFree, IsQuiet, IsAta, IsReady, sending}
use chris_os.Drivers.Ata.Protocol.{receiving, IsShown, Sectors, put_sector, selected}
use chris_os.Drivers.Ata.Protocol.{addressed}
use chris_os.Drivers.Ata.Transfer.{bytes_of, words_of, length-words_of, AllBytes}
use chris_os.Drivers.Ata.Transfer.{bytes_of-words_of, Read, read_words-Read}
use chris_os.Drivers.Ata.Transfer.{write_words-Written}
use chris_os.Drivers.Ata.Waits.{ata_wait_drq-Answers, ata_wait_bsy-Answers}
use chris_os.Drivers.Disk.{Drives, IsPlace, IsDrives}
use chris_os.Drivers.Ports.{Ports}

-- The functions of drivers/ata.c for two drives.
pub ata_drives : {S : Type 0} → Ports S → Drives S
ata_drives ports = record {
  detect = ata_detect ports;
  read_at = ata_read_sector_ex ports;
  write_at = ata_write_sector_ex ports;
}

-- The bytes of a sector.
pub sector_bytes : {S : Type 0} → Channel S → S → ℕ → ℕ → List ℕ
sector_bytes c s drive lba = bytes_of (c.sectors s drive lba)

length-bytes_of : (ws : List ℕ) → length (bytes_of ws) ≡ 2 * length ws
length-bytes_of [] = refl
length-bytes_of (w ∷ ws) = omega (arith, length-bytes_of ws)

bytes_of-AllBytes : (ws : List ℕ) → All (λ w. w < 2 ^ 16) ws → AllBytes (bytes_of ws)
bytes_of-AllBytes [] h = tt
bytes_of-AllBytes (w ∷ ws) (hw, h) = (omega arith, (omega arith, bytes_of-AllBytes ws h))

byte_at : (buf : List ℕ) (i : ℕ) → AllBytes buf → get_or buf i 0 < 256
byte_at [] i h = omega arith
byte_at (b ∷ buf) zero (hb, h) = hb
byte_at (b ∷ buf) (suc i) (hb, h) = byte_at buf i h

buffer_word-word : (buf : List ℕ) (i : ℕ) → AllBytes buf → buffer_word buf i < 2 ^ 16
unfolding buffer_word
buffer_word-word buf i h = omega (arith, byte_at buf (2 * i) h, byte_at buf (2 * i + 1) h)

words_of-words :
    (count i : ℕ) (buf : List ℕ) → AllBytes buf → All (λ w. w < 2 ^ 16) (words_of count i buf)
words_of-words zero i buf h = tt
words_of-words (suc count) i buf h = (buffer_word-word buf i h, words_of-words count (i + 1) buf h)

module _ {S : Type 0} {ports : Ports S} {c : Channel S} (laws : IsAta ports c)
    (quiet : IsQuiet ports c) where
  -- The controller has taken the command for one sector of one drive.
  record Commanded (s t : S) (drive lba : ℕ) : Type 0 where
    sectors : c.sectors t ≡ c.sectors s
    drive_in : selected (c.register t) ≡ drive
    lba_in : addressed (c.register t) ≡ lba
    busy : c.busy t < ata_timeout

  command_sector-Commanded :
      (command drive lba : ℕ) (s : S)
      → IsFree c s
      → IsPlace drive lba
      → Commanded s (command_sector ports (drive_select drive lba) lba command s) drive lba
  unfolding command_sector
  command_sector-Commanded command drive lba s f h =
      let t = address_sector ports (drive_select drive lba) lba s in
      let there = address_sector-IsAddressed laws drive lba s f h.drive_in h.lba_in in
      let keeps = address_sector-Keeps laws (drive_select drive lba) lba s f in
      record {
        sectors = laws.command_sectors command t keeps.free ∙ keeps.sectors;
        drive_in = ap selected (laws.command_register command t keeps.free) ∙ there.drive_in;
        lba_in = ap addressed (laws.command_register command t keeps.free) ∙ there.lba_in;
        busy = laws.command_busy command t keeps.free;
      }

  -- A read command to an idle controller has the words of the sector sent.
  command_sector-sending :
      (drive lba : ℕ) (s : S)
      → IsPlace drive lba
      → IsFree c s
      → c.phase (command_sector ports (drive_select drive lba) lba ata_cmd_read s)
        ≡ sending (c.sectors s drive lba)
  unfolding command_sector
  command_sector-sending drive lba s place f =
      let a = address_sector ports (drive_select drive lba) lba s in
      let there = address_sector-IsAddressed laws drive lba s f place.drive_in place.lba_in in
      let keeps = address_sector-Keeps laws (drive_select drive lba) lba s f in
      let content : c.sectors a (selected (c.register a)) (addressed (c.register a))
          ≡ c.sectors s drive lba =
        ap (λ f. f (selected (c.register a)) (addressed (c.register a))) keeps.sectors
        ∙ ap₂ (λ d l. c.sectors s d l) there.drive_in there.lba_in in
      laws.command_read a keeps.free there.lba_mode there.one ∙ ap sending content

  -- A write command to an idle controller has it take words.
  command_sector-receiving :
      (drive lba : ℕ) (s : S)
      → IsPlace drive lba
      → IsFree c s
      → c.phase (command_sector ports (drive_select drive lba) lba ata_cmd_write s) ≡ receiving []
  unfolding command_sector
  command_sector-receiving drive lba s place f =
      let a = address_sector ports (drive_select drive lba) lba s in
      let there = address_sector-IsAddressed laws drive lba s f place.drive_in place.lba_in in
      let keeps = address_sector-Keeps laws (drive_select drive lba) lba s f in
      laws.command_write a keeps.free there.lba_mode there.one

  -- A read of one sector: its bytes, and everything as it was.
  record Fetched (s : S) (drive lba : ℕ) (r : Option (List ℕ) × S) : Type 0 where
    result : r.0 ≡ some (sector_bytes c s drive lba)
    sectors : c.sectors r.1 ≡ c.sectors s
    ready : IsReady c r.1

  ata_read_sector_ex-Fetched :
      (s : S) (drive lba : ℕ)
      → IsReady c s
      → IsPlace drive lba
      → Fetched s drive lba (ata_read_sector_ex ports drive lba s)
  unfolding ata_read_sector_ex IsShown sector_bytes
  ata_read_sector_ex-Fetched s drive lba h place =
      let wait = ata_wait_bsy-Answers laws s h in
      let v = (ata_wait_bsy ports s).1 in
      let free : IsFree c v = record { waits = wait.phase ∙ h.waits; done = wait.busy } in
      let t = command_sector ports (drive_select drive lba) lba ata_cmd_read v in
      let done = command_sector-Commanded ata_cmd_read drive lba v free place in
      let ws = c.sectors s drive lba in
      let phase : c.phase t ≡ sending ws =
        command_sector-sending drive lba v place free
        ∙ ap (λ f. sending (f drive lba)) wait.sectors in
      let request =
        ata_wait_drq-Answers laws quiet t
          (λ status shown. subst (λ p. IsShown p status) phase shown) done.busy in
      let u = (ata_wait_drq ports t).1 in
      let full : length ws ≡ 256 = h.whole drive lba in
      let read : Read laws u ws (read_words ports 256 u) =
        subst (λ n. Read laws u ws (read_words ports n u)) full
          (read_words-Read laws u ws request.busy (request.phase ∙ phase) (omega arith)) in
      let same = read.sectors ∙ (request.sectors ∙ (done.sectors ∙ wait.sectors)) in
      rw (ata_read_sector_ex, wait.answered, request.answered)
        (record {
          result = ap some read.bytes;
          sectors = same;
          ready = record {
            waits = read.phase;
            soon = omega (arith, read.busy);
            whole = λ d l. ap (λ f. length (f d l)) same ∙ h.whole d l;
            words = λ d l. subst (λ f. All (λ w. w < 2 ^ 16) (f d l)) (sym same) (h.words d l);
          };
        })

  -- A write of one sector: it holds the words of the buffer, and every other is as it was.
  record Stored (s : S) (drive lba : ℕ) (buf : List ℕ) (r : Bool × S) : Type 0 where
    result : r.0 ≡ true
    sectors : c.sectors r.1 ≡ put_sector (c.sectors s) drive lba (words_of 256 0 buf)
    ready : IsReady c r.1

  -- One sector replaced by another of 256 words leaves all whole.
  put_sector-whole {κ} :
      (f : Sectors) (drive lba : ℕ) (ws : List ℕ) (P : List ℕ → Type κ)
      → P ws
      → ((d l : ℕ) → P (f d l))
      → (d l : ℕ) → P (put_sector f drive lba ws d l)
  unfolding put_sector
  put_sector-whole f drive lba ws P hw hf d l = elim (Bool-cases (d == drive && l == lba)) [
    | inl e ↦ rw e hw
    | inr e ↦ rw e (hf d l)
  ]

  ata_write_sector_ex-Stored :
      (s : S) (drive lba : ℕ) (buf : List ℕ)
      → IsReady c s
      → IsPlace drive lba
      → AllBytes buf
      → Stored s drive lba buf (ata_write_sector_ex ports drive lba buf s)
  unfolding ata_write_sector_ex IsShown
  ata_write_sector_ex-Stored s drive lba buf h place bytes =
      let wait = ata_wait_bsy-Answers laws s h in
      let v = (ata_wait_bsy ports s).1 in
      let free : IsFree c v = record { waits = wait.phase ∙ h.waits; done = wait.busy } in
      let t = command_sector ports (drive_select drive lba) lba ata_cmd_write v in
      let done = command_sector-Commanded ata_cmd_write drive lba v free place in
      let ws = words_of 256 0 buf in
      let phase : c.phase t ≡ receiving [] = command_sector-receiving drive lba v place free in
      let request =
        ata_wait_drq-Answers laws quiet t
          (λ status shown. subst (λ p. IsShown p status) phase shown) done.busy in
      let u = (ata_wait_drq ports t).1 in
      let written =
        write_words-Written laws 255 0 buf u [] request.busy (request.phase ∙ phase)
          (omega arith) in
      let same : c.sectors u ≡ c.sectors s = request.sectors ∙ (done.sectors ∙ wait.sectors) in
      let drive_in = ap selected request.register ∙ done.drive_in in
      let lba_in = ap addressed request.register ∙ done.lba_in in
      let stored : c.sectors (write_words ports 256 0 buf u)
          ≡ put_sector (c.sectors s) drive lba ws =
        written.sectors
        ∙ (ap (λ f. put_sector f (selected (c.register u)) (addressed (c.register u)) ws) same
            ∙ ap₂ (λ d l. put_sector (c.sectors s) d l ws) drive_in lba_in) in
      let all_words = words_of-words 256 0 buf bytes in
      rw (ata_write_sector_ex, wait.answered, request.answered)
        (record {
          result = refl;
          sectors = stored;
          ready = record {
            waits = written.phase;
            soon = written.busy;
            whole = λ d l.
                ap (λ f. length (f d l)) stored
                ∙ put_sector-whole (c.sectors s) drive lba ws (λ x. length x ≡ 256)
                    (length-words_of 256 0 buf) h.whole d l;
            words = λ d l.
                subst (λ f. All (λ w. w < 2 ^ 16) (f d l)) (sym stored)
                  (put_sector-whole (c.sectors s) drive lba ws (λ x. All (λ w. w < 2 ^ 16) x)
                    all_words h.words d l);
          };
        })

  pub ata_drives-IsDrives : IsDrives (ata_drives ports) (sector_bytes c) (IsReady c)
  unfolding ata_drives sector_bytes put_sector
  ata_drives-IsDrives = record {
    sector = λ s d l h. record {
      size = omega (arith, length-bytes_of (c.sectors s d l), h.whole d l);
      bytes_in = bytes_of-AllBytes (c.sectors s d l) (h.words d l);
    };
    read_some = λ s d l h k. (ata_read_sector_ex-Fetched s d l h k).result;
    read_keeps =
        λ s d l e m h k. ap (λ f. bytes_of (f e m)) (ata_read_sector_ex-Fetched s d l h k).sectors;
    read_ready = λ s d l h k. (ata_read_sector_ex-Fetched s d l h k).ready;
    write_true = λ s d l buf h k b. (ata_write_sector_ex-Stored s d l buf h k b.bytes_in).result;
    write_puts = λ s d l e m buf h k b.
        ap (λ f. bytes_of (f e m)) (ata_write_sector_ex-Stored s d l buf h k b.bytes_in).sectors
        ∙ elim (Bool-cases (e == d && m == l)) [
          | inl same ↦ rw same (bytes_of-words_of 256 buf b.size b.bytes_in)
          | inr other ↦ rw other refl
        ];
    write_ready = λ s d l buf h k b. (ata_write_sector_ex-Stored s d l buf h k b.bytes_in).ready;
  }
