-- ===== src/Drivers/Ata/Laws.antt =====
-- drivers/ata.c on a controller that follows the protocol: the registers that a command finds, and
-- the two directions of the data port.
use chris_os.Base.{true, eq→==, false, all_below_sound, ℕ, zero, suc, ◌+◌, ◌*◌, ◌/◌, ◌%◌, ◌^◌}
use chris_os.Base.{◌<◌, ◌≡◌, refl, ◌∙◌, arith, ◌==◌, ==→eq}
use chris_os.Base.Word.{bit, u8, bit_or}
use chris_os.Drivers.Ata.{address_sector, ata_command, ata_data, ata_seccount, ata_lba_low}
use chris_os.Drivers.Ata.{ata_lba_mid, ata_lba_high, ata_hddevsel, drive_select}
use chris_os.Drivers.Ata.Protocol.{Channel, IsFree, IsAta, selected, addressed}
use chris_os.Drivers.Ports.{Ports}

-- The device register names the drive and the top four bits of the sector number.
select_low : (x : ℕ) → x < 16 → u8 (bit_or 224 x) ≡ 224 + x
select_low x h =
    ==→eq (u8 (bit_or 224 x)) (224 + x)
      (all_below_sound 16 (λ x. u8 (bit_or 224 x) == 224 + x) x refl h)

select_high : (x : ℕ) → x < 16 → u8 (bit_or 240 x) ≡ 240 + x
select_high x h =
    ==→eq (u8 (bit_or 240 x)) (240 + x)
      (all_below_sound 16 (λ x. u8 (bit_or 240 x) == 240 + x) x refl h)

pub drive_select_lem :
    (drive lba : ℕ) → drive < 2 → drive_select drive lba ≡ 224 + drive * 16 + lba / 2 ^ 24 % 2 ^ 4
unfolding drive_select
drive_select_lem zero lba h = select_low (lba / 2 ^ 24 % 2 ^ 4) (omega arith)
drive_select_lem (suc zero) lba h = select_high (lba / 2 ^ 24 % 2 ^ 4) (omega arith)
drive_select_lem (suc (suc drive)) lba h = absurd (omega arith)

-- The registers in front of a command hold the drive and all 28 bits of the sector number, and say
-- that they do.
pub record IsAddressed (register : ℕ → ℕ) (drive lba : ℕ) : Type 0 where
  pub drive_in : selected register ≡ drive
  pub lba_in : addressed register ≡ lba
  pub lba_mode : bit 6 (register ata_hddevsel) ≡ true
  pub one : register ata_seccount ≡ 1

registers_hold :
    (r : ℕ → ℕ) (drive lba : ℕ)
    → drive < 2
    → lba < 2 ^ 28
    → r ata_hddevsel ≡ drive_select drive lba
    → r ata_seccount ≡ 1
    → r ata_lba_low ≡ u8 lba
    → r ata_lba_mid ≡ u8 (lba / 2 ^ 8)
    → r ata_lba_high ≡ u8 (lba / 2 ^ 16)
    → IsAddressed r drive lba
unfolding selected addressed
registers_hold r drive lba d l sel one low mid high =
    let top : r ata_hddevsel ≡ 224 + drive * 16 + lba / 2 ^ 24 % 2 ^ 4 =
      sel ∙ drive_select_lem drive lba d in
    record {
      drive_in = omega arith;
      lba_in = omega arith;
      lba_mode = rw top (ground arith);
      one = one;
    }

module _ {S : Type 0} {ports : Ports S} {c : Channel S} (laws : IsAta ports c) where
  -- What a sequence of writes to the command block leaves as it was.
  pub record Keeps (s t : S) : Type 0 where
    pub sectors : c.sectors t ≡ c.sectors s
    pub free : IsFree c t

  out-Keeps :
      (port v : ℕ) (s t : S)
      → port < ata_command
      → ata_data < port
      → Keeps s t
      → Keeps s (ports.outb port v t)
  out-Keeps port v s t a b h = record {
    sectors = laws.register_sectors port v t h.free a b ∙ h.sectors;
    free = laws.register_free port v t h.free a b;
  }

  pub address_sector-Keeps :
      (select lba : ℕ) (s : S) → IsFree c s → Keeps s (address_sector ports select lba s)
  unfolding address_sector
  address_sector-Keeps select lba s h =
      let start : Keeps s s = record { sectors = refl; free = h } in
      let a = out-Keeps ata_hddevsel select s s (omega arith) (omega arith) start in
      let t = ports.outb ata_hddevsel select s in
      let b = out-Keeps ata_seccount 1 s t (omega arith) (omega arith) a in
      let u = ports.outb ata_seccount 1 t in
      let d = out-Keeps ata_lba_low (u8 lba) s u (omega arith) (omega arith) b in
      let v = ports.outb ata_lba_low (u8 lba) u in
      let e = out-Keeps ata_lba_mid (u8 (lba / 2 ^ 8)) s v (omega arith) (omega arith) d in
      let w = ports.outb ata_lba_mid (u8 (lba / 2 ^ 8)) v in
      out-Keeps ata_lba_high (u8 (lba / 2 ^ 16)) s w (omega arith) (omega arith) e

  -- A register that a later write goes past.
  past :
      (port v q x : ℕ) (s : S)
      → IsFree c s
      → port < ata_command
      → ata_data < port
      → (q == port) ≡ false
      → c.register s q ≡ x
      → c.register (ports.outb port v s) q ≡ x
  past port v q x s f a b ne h = laws.register_set port v s f a b q ∙ rw ne h

  here :
      (port v : ℕ) (s : S)
      → IsFree c s
      → port < ata_command
      → ata_data < port
      → c.register (ports.outb port v s) port ≡ v
  here port v s f a b = laws.register_set port v s f a b port ∙ rw (eq→== port port refl) refl

  pub address_sector-IsAddressed :
      (drive lba : ℕ) (s : S)
      → IsFree c s
      → drive < 2
      → lba < 2 ^ 28
      → IsAddressed (c.register (address_sector ports (drive_select drive lba) lba s)) drive lba
  unfolding address_sector
  address_sector-IsAddressed drive lba s f hd hl =
      let select = drive_select drive lba in
      let low = u8 lba in
      let mid = u8 (lba / 2 ^ 8) in
      let high = u8 (lba / 2 ^ 16) in
      let t = ports.outb 0x1f6 select s in
      let ft = laws.register_free 0x1f6 select s f (omega arith) (omega arith) in
      let u = ports.outb 0x1f2 1 t in
      let fu = laws.register_free 0x1f2 1 t ft (omega arith) (omega arith) in
      let v = ports.outb 0x1f3 low u in
      let fv = laws.register_free 0x1f3 low u fu (omega arith) (omega arith) in
      let w = ports.outb 0x1f4 mid v in
      let fw = laws.register_free 0x1f4 mid v fv (omega arith) (omega arith) in
      registers_hold (c.register (address_sector ports select lba s)) drive lba hd hl
        (past 0x1f5 high 0x1f6 select w fw (omega arith) (omega arith) refl (
          past 0x1f4 mid 0x1f6 select v fv (omega arith) (omega arith) refl (
            past 0x1f3 low 0x1f6 select u fu (omega arith) (omega arith) refl (
              past 0x1f2 1 0x1f6 select t ft (omega arith) (omega arith) refl
                (here 0x1f6 select s f (omega arith) (omega arith))))))
        (past 0x1f5 high 0x1f2 1 w fw (omega arith) (omega arith) refl (
          past 0x1f4 mid 0x1f2 1 v fv (omega arith) (omega arith) refl (
            past 0x1f3 low 0x1f2 1 u fu (omega arith) (omega arith) refl
              (here 0x1f2 1 t ft (omega arith) (omega arith)))))
        (past 0x1f5 high 0x1f3 low w fw (omega arith) (omega arith) refl (
          past 0x1f4 mid 0x1f3 low v fv (omega arith) (omega arith) refl
            (here 0x1f3 low u fu (omega arith) (omega arith))))
        (past 0x1f5 high 0x1f4 mid w fw (omega arith) (omega arith) refl
          (here 0x1f4 mid v fv (omega arith) (omega arith)))
        (here 0x1f5 high w fw (omega arith) (omega arith))
