-- ===== src/Net/Eth.antt =====
-- net/eth.c, the RTL8139 driver: the search on the PCI bus, the transmit ring and the receive ring.
--
-- What the device answers is an argument: the identifiers on the bus, and for each round of
-- `eth_poll` the registers that it reads and the contents of the receive buffer. What the driver
-- hands to the device is a result.
pub mod Laws
pub mod Start
pub mod Found
mod Examples
use chris_os.Base.{ℕ, zero, suc, ◌+◌, ◌-◌, ◌*◌, ◌/◌, ◌%◌, ◌^◌, ◌≤◌, ◌<◌, min, bit_and, ◌≡◌}
use chris_os.Base.{refl, sym, ap, ap₂, ◌∙◌, ◌≢◌, ◌↔◌, ◌⊎◌, inl, inr, Bool, true, false, not}
use chris_os.Base.{◌&&◌, ◌||◌, Option, none, some, List, [], ◌∷◌, ◌++◌, map, arith, ◌==◌, ltb}
use chris_os.Base.{leb, if◌then◌else◌, eq→==, ne→==, ==→eq, lt→ltb, le→ltb, Bool-cases}
use chris_os.Base.{Option-cases, length, get_or, set, take, drop, replicate, length-append}
use chris_os.Base.{length-set, length-replicate, get_or-set_self, get_or-set_ne, All}
use chris_os.Base.Word.{u8, u16, u32, bit, Memory, offset, le16}
use chris_os.Net.Types.{Ip, Mac, htons, mac_bytes, store16}

abbrev pub eth_type_ipv4 : ℕ
eth_type_ipv4 = 0x0800

abbrev pub eth_type_arp : ℕ
eth_type_arp = 0x0806

abbrev pub eth_header_len : ℕ
eth_header_len = 14

abbrev pub tx_buf_size : ℕ
tx_buf_size = 1536

abbrev pub tx_buf_count : ℕ
tx_buf_count = 4

pub record Nic : Type 0 where
  pub nic_ok : Bool
  pub tx_cur : ℕ
  pub rx_offset : ℕ
  pub my_mac : Mac
  pub my_ip : Ip

-- `vendor == RTL8139_VENDOR && device == RTL8139_DEVICE` of the word that the bus answers.
unfoldable pub is_rtl8139 : ℕ → Bool
is_rtl8139 id = u16 id == 0x10ec && u16 (id / 2 ^ 16) == 0x8139

-- The inner loop over the devices of one bus, with `left` of the 32 still to ask.
unfoldable pub find_dev : (ℕ → ℕ → ℕ) → ℕ → ℕ → ℕ → Option ℕ
unfolding is_rtl8139
find_dev pci bus zero dev = none
find_dev pci bus (suc left) dev =
    let rest = find_dev pci bus left (dev + 1) in
    if is_rtl8139 (pci bus dev) then some dev else rest

-- The outcome of a search on fuel.
pub data Search : Type 0 where
  found : ℕ → ℕ → Search
  not_found : Search
  out_of_fuel : Search

-- The outer loop, `for (uint8_t bus = 0; bus < 256; bus++)`: the counter wraps at 256.
unfoldable pub pci_find_rtl8139 : (ℕ → ℕ → ℕ) → ℕ → ℕ → Search
unfolding find_dev
pci_find_rtl8139 pci zero bus = out_of_fuel
pci_find_rtl8139 pci (suc fuel) bus =
    let rest = pci_find_rtl8139 pci fuel (u8 (bus + 1)) in
    if ltb bus 256
    then elim (find_dev pci bus 32 0) [ some dev ↦ found bus dev | none ↦ rest ]
    else not_found

-- The frame that goes to the device, with the transmit descriptor that it goes through.
pub record Sent : Type 0 where
  pub descriptor : ℕ
  pub frame : List ℕ

-- `len` is the length of the payload.
unfoldable pub eth_send : Nic → Mac → ℕ → List ℕ → Nic × Option Sent
eth_send nic dest type payload =
    if not nic.nic_ok
    then (nic, none)
    else if ltb tx_buf_size (u16 (eth_header_len + length payload))
    then (nic, none)
    else (
      record nic { tx_cur = (nic.tx_cur + 1) % tx_buf_count },
      some (record {
        descriptor = nic.tx_cur;
        frame = mac_bytes dest ++ (mac_bytes nic.my_mac ++ (store16 (htons type) ++ payload));
      }),
    )

-- What the device answers in one round of `eth_poll`.
pub record Round : Type 0 where
  pub isr : ℕ
  pub cmd : ℕ
  pub cbr : ℕ
  pub rx_buf : Memory

-- A frame that is handed to `netstack_rx`: where it starts, and its length.
pub record Received : Type 0 where
  pub frame : Memory
  pub len : ℕ

-- What `eth_poll` has done: the new offset, the frames delivered and the values written to CAPR.
pub record Polled : Type 0 where
  pub rx_offset : ℕ
  pub delivered : List Received
  pub capr : List ℕ

-- `(uint16_t)((rx_offset - 16 + 32768) % 32768)`
unfoldable pub capr_of : ℕ → ℕ
capr_of off = (off + 32768 - 16) % 32768

-- `(rx_offset + pkt_len + 4 + 3) & ~3`, wrapped within the ring of 32K
unfoldable pub advance : ℕ → ℕ → ℕ
advance off len = u16 ((off + len + 4 + 3) / 4 * 4) % 32768

-- `!(pkt_status & RX_STAT_ROK) || pkt_len == 0 || pkt_len > 1514`
unfoldable pub bad_packet : ℕ → ℕ → Bool
bad_packet status len = not (bit 0 status) || (len == 0 || ltb 1514 len)

-- The loop with `budget` rounds left; the rounds are numbered from `i` on.
unfoldable pub poll : (ℕ → Round) → ℕ → ℕ → ℕ → Polled
unfolding capr_of advance bad_packet
poll device zero i off = record { rx_offset = off; delivered = []; capr = [] }
poll device (suc budget) i off =
    let r = device i in
    let status = le16 (offset r.rx_buf off) 0 in
    let len = le16 (offset r.rx_buf off) 2 in
    let next = advance off len in
    let rest = poll device budget (i + 1) next in
    if not (bit 0 r.isr || bit 1 r.isr)
    then record { rx_offset = off; delivered = []; capr = [] }
    else if bit 0 r.cmd
    then record { rx_offset = off; delivered = []; capr = [] }
    else if bad_packet status len
    then record { rx_offset = r.cbr % 32768; delivered = []; capr = capr_of (r.cbr % 32768) ∷ [] }
    else record {
      rx_offset = rest.rx_offset;
      delivered =
          record { frame = offset r.rx_buf (off + 4); len = u16 (len + 2 ^ 16 - 4) }
          ∷ rest.delivered;
      capr = capr_of next ∷ rest.capr;
    }

unfoldable pub eth_poll : (ℕ → Round) → Nic → Polled
unfolding poll
eth_poll device nic =
    if nic.nic_ok
    then poll device 32 0 nic.rx_offset
    else record { rx_offset = nic.rx_offset; delivered = []; capr = [] }

unfoldable pub eth_handle_interrupt : (ℕ → Round) → Nic → Polled
eth_handle_interrupt device nic =
    let polled = eth_poll device nic in
    if nic.nic_ok then polled else record { rx_offset = nic.rx_offset; delivered = []; capr = [] }

unfoldable pub eth_set_ip : Ip → Nic → Nic
eth_set_ip i nic = record nic { my_ip = i }
