-- ===== src/Net/Eth/Start.antt =====
-- `eth_init` of net/eth.c: the configuration space of the PCI bus and the start of the card.
--
-- What the configuration space and the card answer are arguments; what is written to ports is a
-- list, in its order. The kernel's messages are left out.
use chris_os.Base.{Option, none, some, ℕ, zero, suc, ◌+◌, ◌*◌, ◌/◌, ◌%◌, ◌^◌, true, List, []}
use chris_os.Base.{◌∷◌, ◌++◌, if◌then◌else◌}
use chris_os.Base.Word.{u8, u16, bit, bit_or}
use chris_os.Net.Eth.{found, not_found, out_of_fuel, pci_find_rtl8139, Nic}

-- The address that is written to 0xCF8 for a register.
unfoldable pub pci_address : ℕ → ℕ → ℕ → ℕ → ℕ
pci_address bus dev fn reg = 2 ^ 31 + bus * 2 ^ 16 + dev * 2 ^ 11 + fn * 2 ^ 8 + reg / 4 * 4 % 2 ^ 8

unfoldable pub pci_read : (ℕ → ℕ) → ℕ → ℕ → ℕ → ℕ → ℕ
pci_read space bus dev fn reg = space (pci_address bus dev fn reg)

-- A write to a port, of 1, 2 or 4 bytes, or a number of reads of the command register.
pub data Out : Type 0 where
  reads : ℕ → Out
  outb : ℕ → ℕ → Out
  outw : ℕ → ℕ → Out
  outl : ℕ → ℕ → Out

unfoldable pub pci_write : ℕ → ℕ → ℕ → ℕ → ℕ → List Out
pci_write bus dev fn reg val = outl 0xCF8 (pci_address bus dev fn reg) ∷ outl 0xCFC val ∷ []

-- What the card answers: the configuration space, its command register at each read, and its address.
pub record Card : Type 0 where
  pub space : ℕ → ℕ
  pub command : ℕ → ℕ
  pub idr : ℕ → ℕ
  pub rx_buf : ℕ

-- The driver's statics beside those of `Nic`.
pub record Started : Type 0 where
  pub nic : Nic
  pub nic_base : ℕ
  pub nic_irq : ℕ

-- The wait for the end of the reset, with `timeout` rounds left, from the read `i` on: the number
-- of reads.
unfoldable pub reset_wait : (ℕ → ℕ) → ℕ → ℕ → ℕ
reset_wait command zero i = i + 1
reset_wait command (suc timeout) i =
    let rest = reset_wait command timeout (i + 1) in if bit 4 (command i) then rest else i + 1

-- The start of the card that stands at `bus` and `dev`.
unfoldable pub start_card : Card → ℕ → ℕ → Started → Started × List Out
start_card card bus dev s =
    let base = u16 (pci_read card.space bus dev 0 0x10 / 4 * 4) in
    let cmd = pci_read card.space bus dev 0 0x04 in
    (
      record {
        nic = record s.nic {
          nic_ok = true;
          my_mac = record {
            m0 = card.idr 0;
            m1 = card.idr 1;
            m2 = card.idr 2;
            m3 = card.idr 3;
            m4 = card.idr 4;
            m5 = card.idr 5;
          };
        };
        nic_base = base;
        nic_irq = u8 (pci_read card.space bus dev 0 0x3C);
      },
      pci_write bus dev 0 0x04 (bit_or cmd 0x5)
          ++ (outb (u16 (base + 0x52)) 0x00
              ∷ outb (u16 (base + 0x37)) 0x10
              ∷ reads (reset_wait card.command 100000 0)
              ∷ outl (u16 (base + 0x30)) card.rx_buf
              ∷ outw (u16 (base + 0x3C)) 0x000F
              ∷ outl (u16 (base + 0x44)) 0x88F
              ∷ outl (u16 (base + 0x40)) 0x600
              ∷ outb (u16 (base + 0x37)) 0x0C
              ∷ []),
    )

-- `eth_init`, with fuel for the search; `none` means that the fuel ran out.
unfoldable pub eth_init : ℕ → Card → Started → Option (Started × List Out)
eth_init fuel card s = elim (pci_find_rtl8139 (λ bus dev. pci_read card.space bus dev 0 0) fuel 0) [
  | found bus dev ↦ some (start_card card bus dev s)
  | not_found ↦ some (s, [])
  | out_of_fuel ↦ none
]
