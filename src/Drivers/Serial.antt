-- ===== src/Drivers/Serial.antt =====
-- drivers/serial.c: the first serial port, over what stands behind the ports.
pub mod Laws
mod Examples
use chris_os.Base.{ℕ, zero, suc, ◌+◌, Bool, true, false, Option, none, some, List, [], ◌∷◌}
use chris_os.Base.Word.{bit}
use chris_os.Drivers.Ports.{Ports}

abbrev pub com1 : ℕ
com1 = 0x3F8

module _ {S : Type 0} (ports : Ports S) where
  unfoldable pub serial_init : S → S
  serial_init s =
      let s = ports.outb (com1 + 1) 0x00 s in
      let s = ports.outb (com1 + 3) 0x80 s in
      let s = ports.outb (com1 + 0) 0x03 s in
      let s = ports.outb (com1 + 1) 0x00 s in
      let s = ports.outb (com1 + 3) 0x03 s in
      let s = ports.outb (com1 + 2) 0xC7 s in ports.outb (com1 + 4) 0x0B s

  -- The wait for the transmitter and the character, on fuel; `none` means that the fuel ran out.
  unfoldable pub serial_putchar : ℕ → ℕ → S → Option S
  serial_putchar zero c s = none
  serial_putchar (suc fuel) c s =
      let (status, t) = ports.inb (com1 + 5) s in
      elim (bit 5 status) [ true ↦ some (ports.outb com1 c t) | false ↦ serial_putchar fuel c t ]

  unfoldable pub serial_write : ℕ → List ℕ → S → Option S
  serial_write fuel [] s = some s
  serial_write fuel (c ∷ cs) s = elim (serial_putchar fuel c s) [
    | none ↦ none
    | some t ↦ serial_write fuel cs t
  ]
