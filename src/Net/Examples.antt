-- ===== src/Net/Examples.antt =====
-- The layers of net/ below TCP at concrete packets.
use chris_os.Base.{ℕ, ◌%◌, ◌≡◌, refl, ◌≢◌, true, false, none, some, List, [], ◌∷◌, arith, ◌==◌}
use chris_os.Base.{if◌then◌else◌, length, drop}
use chris_os.Base.Word.{Memory}
use chris_os.Net.Arp.{Arp, ArpEntry, Packet, arp_handle, arp_lookup, arp_packet, arp_request}
use chris_os.Net.Arp.{cache_find, cache_store, next_hop, poll_round, same_subnet, store_in}
use chris_os.Net.Arp.{wait_reply}
use chris_os.Net.Arp.Cache.{cache_find-cache_store, crowded}
use chris_os.Net.Arp.Laws.{received}
use chris_os.Net.Dhcp.{Dhcp}
use chris_os.Net.Dns.{Dns, dns_rx}
use chris_os.Net.Dns.Laws.{dns_rx-ne-none}
use chris_os.Net.Eth.{Nic, Round, eth_poll, eth_send, is_rtl8139}
use chris_os.Net.Eth.Laws.{IsPolled, eth_poll-IsPolled}
use chris_os.Net.Icmp.{EchoPacket, Icmp}
use chris_os.Net.Ipv4.Laws.{IsIp}
use chris_os.Net.Types.{Ip, Mac, bytes_at, htons, ip, ip_eq, mac_zero, ntohs}
use chris_os.Net.Udp.{Sockets, udp_hdr, udp_send}

abbrev host_a : Ip
host_a = ip 10 0 2 15

abbrev host_b : Ip
host_b = ip 10 0 2 2

abbrev mac_a : Mac
mac_a = record { m0 = 0x52; m1 = 0x54; m2 = 0; m3 = 0x12; m4 = 0x34; m5 = 0x56 }

abbrev mac_b : Mac
mac_b = record { m0 = 0x52; m1 = 0x55; m2 = 10; m3 = 0; m4 = 2; m5 = 2 }

abbrev stale : ArpEntry
stale = record { ip = host_a; mac = mac_zero; valid = false }

abbrev arp_a : Arp
arp_a = record {
  cache = stale ∷ stale ∷ [];
  gateway = host_b;
  subnet = ip 255 255 255 0;
  my_ip = host_a;
  my_mac = mac_a;
}

abbrev arp_b : Arp
arp_b = record {
  cache = record { ip = host_a; mac = mac_b; valid = true } ∷ [];
  gateway = host_b;
  subnet = ip 255 255 255 0;
  my_ip = host_b;
  my_mac = mac_b;
}

-- A bus without any device answers all ones.
no_card : (b d : ℕ) → is_rtl8139 0xffffffff ≡ false
unfolding is_rtl8139
no_card b d = refl

abbrev card : Nic
card = record { nic_ok = true; tx_cur = 3; rx_offset = 32764; my_mac = mac_a; my_ip = host_a }

eth_send-card :
    (eth_send card mac_b 0x0806 (1 ∷ 2 ∷ [])).1
    ≡ some (record {
      descriptor = 3;
      frame =
          0x52 ∷ 0x55 ∷ 10 ∷ 0 ∷ 2 ∷ 2 ∷ 0x52 ∷ 0x54 ∷ 0 ∷ 0x12 ∷ 0x34 ∷ 0x56 ∷ 8 ∷ 6 ∷ 1 ∷ 2 ∷ [];
    })
unfolding eth_send htons
eth_send-card = refl

-- A device that has a packet of 64 bytes wherever it is asked.
abbrev busy : Round
busy = record {
  isr = 1;
  cmd = 0;
  cbr = 0;
  rx_buf = λ i. if i % 4 == 0 then 1 else if i % 4 == 2 then 64 else 0;
}

eth_poll-IsPolled_example : IsPolled 32 (eth_poll (λ i. busy) card)
eth_poll-IsPolled_example = eth_poll-IsPolled (λ i. busy) card (omega arith)

cache_find-cache_store_example :
    (cache_find host_b (cache_store host_b mac_b arp_a.cache) ≡ (
      if ip_eq host_b host_b
      then some mac_b
      else cache_find host_b
          (if crowded host_b arp_a.cache then drop 1 arp_a.cache else arp_a.cache)))
    × (length (cache_store host_b mac_b arp_a.cache) ≡ 2)
cache_find-cache_store_example =
    cache_find-cache_store host_b host_b mac_b arp_a.cache (omega arith)

-- Host a looks for host b, whose reply comes in the second round.
abbrev reply_round : List (List Packet)
reply_round =
    []
    ∷ ((received (record {
      dest = mac_a;
      type = 0x0806;
      payload = arp_packet 2 mac_b host_b mac_a host_a;
    })
          ∷ [])
        ∷ [])

arp_lookup_found : (arp_lookup arp_a host_b reply_round).0 ≡ mac_b
unfolding arp_lookup next_hop same_subnet wait_reply poll_round arp_handle arp_packet arp_request
    cache_find cache_store store_in ip_eq ntohs htons
arp_lookup_found = refl

host_a-IsIp : IsIp host_a
host_a-IsIp = omega arith

host_b-IsIp : IsIp host_b
host_b-IsIp = omega arith

-- A header whose total length is 3.
abbrev short_header : List ℕ
short_header =
    0x45 ∷ 0 ∷ 0 ∷ 3 ∷ 0 ∷ 0 ∷ 0 ∷ 0 ∷ 64 ∷ 17 ∷ 0 ∷ 0 ∷ 10 ∷ 0 ∷ 2 ∷ 2 ∷ 10 ∷ 0 ∷ 2 ∷ 15 ∷ []

abbrev sockets : Sockets
sockets =
    record { port = 68; cb = 1; used = true }
    ∷ record { port = 53; cb = 2; used = false }
    ∷ record { port = 68; cb = 3; used = true }
    ∷ []

udp_send_small :
    udp_send host_b 68 67 (5 ∷ 6 ∷ [])
    ≡ some (record {
      dest = host_b;
      proto = 17;
      payload = 0 ∷ 67 ∷ 0 ∷ 68 ∷ 0 ∷ 10 ∷ 0 ∷ 0 ∷ 5 ∷ 6 ∷ [];
    })
unfolding udp_send udp_hdr htons
udp_send_small = refl

abbrev client : Dhcp
client = record {
  offered_ip = ip 0 0 0 0;
  got_offer = false;
  got_ack = false;
  xid = 0x12345678;
  my_ip = ip 0 0 0 0;
  my_mac = mac_a;
}

abbrev options : Memory
options = bytes_at (0 ∷ 53 ∷ 1 ∷ 5 ∷ 255 ∷ [])

abbrev pinger : Icmp
pinger = record { ping_seq = 4; reply_received = false }

abbrev echoed : Ip → List ℕ → EchoPacket
echoed src bytes = record { src = src; payload = bytes_at bytes; len = 10 }

abbrev resolver : Dns
resolver = record { server = host_b; result = ip 0 0 0 0; done = false; tid = 0; cache = [] }

dns_rx-ne-none_example : dns_rx resolver (λ i. 1) 200 ≢ none
dns_rx-ne-none_example = dns_rx-ne-none resolver (λ i. 1) 200
