-- ===== src/Net/Eth/Laws.antt =====
-- Laws of the RTL8139 driver of net/eth.c.
use chris_os.Base.{ℕ, zero, suc, ◌+◌, ◌-◌, ◌%◌, ◌^◌, ◌≤◌, ◌<◌, ◌≡◌, refl, ◌⊎◌, inl, inr, false}
use chris_os.Base.{not, ◌||◌, none, some, List, [], ◌∷◌, ◌++◌, arith, lt→ltb, Bool-cases}
use chris_os.Base.{length, length-append, All}
use chris_os.Base.Word.{u8, u16, bit, offset, le16}
use chris_os.Net.Eth.{Nic, Sent, eth_send, tx_buf_count, tx_buf_size, Round, Polled, poll}
use chris_os.Net.Eth.{eth_poll, capr_of, advance, bad_packet, is_rtl8139, find_dev}
use chris_os.Net.Eth.{out_of_fuel, pci_find_rtl8139}
use chris_os.Net.Types.{Mac, htons, mac_bytes, store16}

pub find_dev-none :
    (pci : ℕ → ℕ → ℕ) (bus left dev : ℕ)
    → ((b d : ℕ) → is_rtl8139 (pci b d) ≡ false)
    → find_dev pci bus left dev ≡ none
unfolding find_dev
find_dev-none pci bus zero dev h = refl
find_dev-none pci bus (suc left) dev h = rw (h bus dev) (find_dev-none pci bus left (dev + 1) h)

-- On a bus without the card the search never returns: its counter is a byte, which is always below
-- 256, so every amount of fuel runs out.
pub pci_find-never :
    (pci : ℕ → ℕ → ℕ) (fuel bus : ℕ)
    → ((b d : ℕ) → is_rtl8139 (pci b d) ≡ false)
    → bus < 256
    → pci_find_rtl8139 pci fuel bus ≡ out_of_fuel
unfolding pci_find_rtl8139
pci_find-never pci zero bus h small = refl
pci_find-never pci (suc fuel) bus h small =
    rw (lt→ltb bus 256 small, find_dev-none pci bus 32 0 h)
      (pci_find-never pci fuel (u8 (bus + 1)) h (omega arith))

-- Whatever is passed to `eth_send`, the descriptor stays below four, and a frame that goes out is
-- the header and the payload, at most as long as a transmit buffer, if the payload is below 64K.
pub eth_send_lem :
    (nic : Nic) (dest : Mac) (type : ℕ) (payload : List ℕ) (s : Sent)
    → length payload < 2 ^ 16 - 14
    → nic.tx_cur < tx_buf_count
    → (eth_send nic dest type payload).1 ≡ some s
    → (s.descriptor < tx_buf_count)
      × (length s.frame ≡ 14 + length payload)
      × (length s.frame ≤ tx_buf_size)
      × ((eth_send nic dest type payload).0.tx_cur < tx_buf_count)
unfolding eth_send
eth_send_lem nic dest type payload s short cur e = ground (
  arith,
  length-append (mac_bytes dest) (mac_bytes nic.my_mac ++ (store16 (htons type) ++ payload)),
)

-- What every call of the receive loop keeps: the offset is inside the ring of 32K, each frame costs
-- a unit of the budget, and no frame is longer than 1510 bytes, but for the packets of fewer than
-- four bytes, whose length wraps to at least 65533.
pub record IsPolled (budget : ℕ) (p : Polled) : Type 0 where
  pub inside : p.rx_offset < 32768
  pub at_most : length p.delivered ≤ budget
  pub short : All (λ d. (d.len ≤ 1510) ⊎ (65533 ≤ d.len)) p.delivered

IsPolled-stop :
    (budget off : ℕ) (capr : List ℕ)
    → off < 32768
    → IsPolled budget (record { rx_offset = off; delivered = []; capr = capr })
IsPolled-stop budget off capr h = record { inside = h; at_most = omega arith; short = tt }

poll-IsPolled :
    (device : ℕ → Round) (budget i off : ℕ)
    → off < 32768
    → IsPolled budget (poll device budget i off)
unfolding poll
poll-IsPolled device zero i off h = IsPolled-stop 0 off [] h
poll-IsPolled device (suc budget) i off h =
    let r = device i in
    let len = le16 (offset r.rx_buf off) 2 in
    let rest =
      poll-IsPolled device budget (i + 1) (advance off len) (unfold advance in omega arith) in
    elim (Bool-cases (not (bit 0 r.isr || bit 1 r.isr))) [
      | inl e ↦ rw e (IsPolled-stop (suc budget) off [] h)
      | inr e ↦ rw e (elim (Bool-cases (bit 0 r.cmd)) [
        | inl c ↦ rw c (IsPolled-stop (suc budget) off [] h)
        | inr c ↦ rw c (elim (Bool-cases (bad_packet (le16 (offset r.rx_buf off) 0) len)) [
          | inl b ↦ rw b (
              IsPolled-stop (suc budget) (r.cbr % 32768) (capr_of (r.cbr % 32768) ∷ [])
                (omega arith))
          | inr b ↦ rw b (record {
            inside = rest.inside;
            at_most = omega (arith, rest.at_most);
            short = (accepted len b, rest.short);
          })
        ])
      ])
    ]
  where
    accepted :
        (len : ℕ)
        → bad_packet (le16 (offset (device i).rx_buf off) 0) len ≡ false
        → (u16 (len + 2 ^ 16 - 4) ≤ 1510) ⊎ (65533 ≤ u16 (len + 2 ^ 16 - 4))
    accepted len b = unfold bad_packet in ground arith

-- `eth_poll` keeps the offset inside the ring, delivers at most 32 frames whatever the device
-- answers, and no frame longer than 1510 bytes, but for packets of one to three bytes, whose length
-- wraps to at least 65533.
pub eth_poll-IsPolled :
    (device : ℕ → Round) (nic : Nic) → nic.rx_offset < 32768 → IsPolled 32 (eth_poll device nic)
unfolding eth_poll
eth_poll-IsPolled device nic h = elim (Bool-cases nic.nic_ok) [
  | inl e ↦ rw e (poll-IsPolled device 32 0 nic.rx_offset h)
  | inr e ↦ rw e (IsPolled-stop 32 nic.rx_offset [] h)
]
