-- ===== src/Drivers/Ata.antt =====
-- drivers/ata.c, the driver of the two disks on the primary ATA channel, by programmed I/O.
--
-- The loops of `nop` that wait for the controller have no effect on the state and are left out.
-- `ata_init` and `ata_detect` read their 256 words of identification only to take them off.
pub mod Protocol
pub mod Waits
pub mod Laws
pub mod Transfer
pub mod Sectors
use chris_os.Base.{ℕ, zero, suc, ◌+◌, ◌*◌, ◌/◌, ◌%◌, ◌^◌, Bool, true, false, ◌||◌, Option}
use chris_os.Base.{none, some, List, [], ◌∷◌, ◌==◌, ltb, get_or}
use chris_os.Base.Word.{u8, bit, bit_or}
use chris_os.Drivers.Ports.{Ports}

abbrev pub ata_primary_ctl : ℕ
ata_primary_ctl = 0x3f6

abbrev pub ata_data : ℕ
ata_data = 0x1f0

abbrev pub ata_seccount : ℕ
ata_seccount = 0x1f2

abbrev pub ata_lba_low : ℕ
ata_lba_low = 0x1f3

abbrev pub ata_lba_mid : ℕ
ata_lba_mid = 0x1f4

abbrev pub ata_lba_high : ℕ
ata_lba_high = 0x1f5

abbrev pub ata_hddevsel : ℕ
ata_hddevsel = 0x1f6

-- The same port is the command register when it is written and the status register when it is read.
abbrev pub ata_command : ℕ
ata_command = 0x1f7

abbrev pub ata_cmd_read : ℕ
ata_cmd_read = 0x20

abbrev pub ata_cmd_write : ℕ
ata_cmd_write = 0x30

abbrev pub ata_cmd_identify : ℕ
ata_cmd_identify = 0xec

abbrev pub ata_timeout : ℕ
ata_timeout = 100000

-- The device register of a drive: `0xE0 | (drive << 4) | ((lba >> 24) & 0x0F)`.
unfoldable pub drive_select : ℕ → ℕ → ℕ
drive_select drive lba = u8 (bit_or (bit_or 0xe0 (drive * 2 ^ 4)) (lba / 2 ^ 24 % 2 ^ 4))

-- The 16-bit word `((uint16_t*)buf)[i]`.
unfoldable pub buffer_word : List ℕ → ℕ → ℕ
buffer_word buf i = get_or buf (2 * i) 0 + get_or buf (2 * i + 1) 0 * 2 ^ 8

module _ {S : Type 0} (ports : Ports S) where
  -- The loop on the busy bit, with `left` of its rounds to go.
  unfoldable pub wait_bsy : ℕ → S → Bool × S
  wait_bsy zero s = (false, s)
  wait_bsy (suc left) s =
      let (status, t) = ports.inb ata_command s in
      elim (bit 7 status) [ false ↦ (true, t) | true ↦ wait_bsy left t ]

  unfoldable pub ata_wait_bsy : S → Bool × S
  ata_wait_bsy s = wait_bsy ata_timeout s

  -- The loop on the error and the request bits, with `left` of its rounds to go.
  unfoldable pub wait_drq : ℕ → S → Bool × S
  wait_drq zero s = (false, s)
  wait_drq (suc left) s =
      let (status, t) = ports.inb ata_command s in
      elim (bit 0 status) [
        | true ↦ (false, t)
        | false ↦ elim (bit 3 status) [ true ↦ (true, t) | false ↦ wait_drq left t ]
      ]

  unfoldable pub ata_wait_drq : S → Bool × S
  ata_wait_drq s = wait_drq ata_timeout s

  -- `count` words from the data port, as the bytes that they leave in memory.
  unfoldable pub read_words : ℕ → S → List ℕ × S
  read_words zero s = ([], s)
  read_words (suc count) s =
      let (w, t) = ports.inw ata_data s in
      let (bytes, u) = read_words count t in (w % 2 ^ 8 ∷ w / 2 ^ 8 ∷ bytes, u)

  -- `count` words of the buffer to the data port, from the word `i` on.
  unfoldable pub write_words : ℕ → ℕ → List ℕ → S → S
  write_words zero i buf s = s
  write_words (suc count) i buf s =
      write_words count (i + 1) buf (ports.outw ata_data (buffer_word buf i) s)

  -- The registers for one sector.
  unfoldable pub address_sector : ℕ → ℕ → S → S
  address_sector select lba s =
      let s = ports.outb ata_hddevsel select s in
      let s = ports.outb ata_seccount 1 s in
      let s = ports.outb ata_lba_low (u8 lba) s in
      let s = ports.outb ata_lba_mid (u8 (lba / 2 ^ 8)) s in
      ports.outb ata_lba_high (u8 (lba / 2 ^ 16)) s

  unfoldable pub command_sector : ℕ → ℕ → ℕ → S → S
  command_sector select lba command s = ports.outb ata_command command (address_sector select lba s)

  -- `none` is the result 0, and `some` the bytes in the buffer.
  unfoldable pub ata_read_sector_ex : ℕ → ℕ → S → Option (List ℕ) × S
  ata_read_sector_ex drive lba s =
      let (ready, s) = ata_wait_bsy s in
      elim ready [
        | false ↦ (none, s)
        | true ↦
            let (request, s) =
              ata_wait_drq (command_sector (drive_select drive lba) lba ata_cmd_read s) in
            elim request [
              | false ↦ (none, s)
              | true ↦ let (bytes, s) = read_words 256 s in (some bytes, s)
            ]
      ]

  unfoldable pub ata_write_sector_ex : ℕ → ℕ → List ℕ → S → Bool × S
  ata_write_sector_ex drive lba buf s =
      let (ready, s) = ata_wait_bsy s in
      elim ready [
        | false ↦ (false, s)
        | true ↦
            let (request, s) =
              ata_wait_drq (command_sector (drive_select drive lba) lba ata_cmd_write s) in
            elim request [ false ↦ (false, s) | true ↦ (true, write_words 256 0 buf s) ]
      ]

  -- The two functions on the first drive do nothing without `ata_present`.
  unfoldable pub ata_read_sector : Bool → ℕ → S → Option (List ℕ) × S
  ata_read_sector ata_present lba s = elim ata_present [
    | false ↦ (none, s)
    | true ↦ ata_read_sector_ex 0 lba s
  ]

  unfoldable pub ata_write_sector : Bool → ℕ → List ℕ → S → Bool × S
  ata_write_sector ata_present lba buf s = elim ata_present [
    | false ↦ (false, s)
    | true ↦ ata_write_sector_ex 0 lba buf s
  ]

  -- What `ata_init` and `ata_detect` do behind the selection of a drive: ask it to identify itself.
  unfoldable pub identify : S → Bool × S
  identify s =
      let s = ports.outb ata_seccount 0 s in
      let s = ports.outb ata_lba_low 0 s in
      let s = ports.outb ata_lba_mid 0 s in
      let s = ports.outb ata_lba_high 0 s in
      let (status, s) = ports.inb ata_command (ports.outb ata_command ata_cmd_identify s) in
      elim (status == 0) [
        | true ↦ (false, s)
        | false ↦
            let (ready, s) = ata_wait_bsy s in
            elim ready [
              | false ↦ (false, s)
              | true ↦
                  let (mid, s) = ports.inb ata_lba_mid s in
                  elim (mid == 0) [
                    | false ↦ (false, s)
                    | true ↦
                        let (high, s) = ports.inb ata_lba_high s in
                        elim (high == 0) [
                          | false ↦ (false, s)
                          | true ↦
                              let (request, s) = ata_wait_drq s in
                              elim request [
                                | false ↦ (false, s)
                                | true ↦ (true, (read_words 256 s).1)
                              ]
                        ]
                  ]
            ]
      ]

  unfoldable pub ata_detect : ℕ → S → Bool × S
  ata_detect drive s = elim (ltb 1 drive) [
    | true ↦ (false, s)
    | false ↦
        let s = ports.outb ata_hddevsel (bit_or 0xa0 (drive * 2 ^ 4)) s in
        let (status, s) = ports.inb ata_command s in
        elim (status == 0xff || status == 0) [ true ↦ (false, s) | false ↦ identify s ]
  ]

  -- The result is what becomes of `ata_present`.
  unfoldable pub ata_init : S → Bool × S
  ata_init s =
      let s = ports.outb ata_primary_ctl 0x04 s in
      let s = ports.outb ata_primary_ctl 0x00 s in
      let s = ports.outb ata_hddevsel 0xa0 s in
      let (status, s) = ports.inb ata_command s in
      elim (status == 0xff) [ true ↦ (false, s) | false ↦ identify s ]
