-- ===== src/Net/Eth/Examples.antt =====
-- `eth_init` of net/eth.c with a card in the fourth place of the first bus.
use chris_os.Base.{ℕ, ◌+◌, ◌*◌, ◌^◌, ◌<◌, ◌≡◌, true, false, some, none, ◌==◌, if◌then◌else◌}
use chris_os.Net.Eth.{is_rtl8139}
use chris_os.Net.Eth.Found.{eth_init_lem, id_of}
use chris_os.Net.Eth.Start.{Card, Started, eth_init, start_card}
use chris_os.Net.Types.{ip, mac_zero}

abbrev card : Card
card = record {
  space = λ a. if a == 2 ^ 31 + 3 * 2 ^ 11 then 0x813910EC else 0;
  command = λ i. 0;
  idr = λ i. i;
  rx_buf = 0x100000;
}

abbrev before : Started
before = record {
  nic = record {
    nic_ok = false;
    tx_cur = 0;
    rx_offset = 0;
    my_mac = mac_zero;
    my_ip = ip 10 0 2 15;
  };
  nic_base = 0;
  nic_irq = 11;
}

eth_init_lem_example :
    ((b d : ℕ)
      → b < 256
      → d < 32
      → is_rtl8139 (id_of card b d) ≡ true
      → (bus : ℕ) × (dev : ℕ) × (is_rtl8139 (id_of card bus dev) ≡ true)
        × (eth_init 256 card before ≡ some (start_card card bus dev before)))
    × (((b d : ℕ) → is_rtl8139 (id_of card b d) ≡ false)
        → (fuel : ℕ) → eth_init fuel card before ≡ none)
eth_init_lem_example = eth_init_lem card before
