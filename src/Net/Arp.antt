-- ===== src/Net/Arp.antt =====
-- net/arp.c: the address cache, the handler of ARP packets and the lookup of a hardware address.
--
-- A packet that is sent is the call of `eth_send` with its arguments, in order. While `arp_lookup`
-- waits, the packets that each round of polling hands to `arp_handle` before the deadline are an
-- argument: a list of rounds, each a list of packets.
pub mod Cache
pub mod Laws
use chris_os.Base.{ℕ, zero, suc, ◌+◌, ◌-◌, ◌*◌, ◌/◌, ◌%◌, ◌^◌, ◌≤◌, ◌<◌, min, bit_and, ◌≡◌}
use chris_os.Base.{refl, sym, ap, ap₂, ◌∙◌, ◌≢◌, ◌↔◌, ◌⊎◌, inl, inr, Bool, true, false, not}
use chris_os.Base.{◌&&◌, ◌||◌, Option, none, some, List, [], ◌∷◌, ◌++◌, map, arith, ◌==◌, ltb}
use chris_os.Base.{leb, if◌then◌else◌, eq→==, ne→==, ==→eq, lt→ltb, le→ltb, Bool-cases}
use chris_os.Base.{Option-cases, length, get_or, set, take, drop, replicate, length-append}
use chris_os.Base.{length-set, length-replicate, get_or-set_self, get_or-set_ne, All}
use chris_os.Base.Word.{Memory, le16}
use chris_os.Net.Eth.{eth_type_arp, eth_type_ipv4}
use chris_os.Net.Types.{Ip, Mac, ip, ip_eq, ip_at, mac_at, ip_bytes, mac_bytes, store16, htons}
use chris_os.Net.Types.{ntohs, mac_broadcast, mac_zero}

pub record ArpEntry : Type 0 where
  pub ip : Ip
  pub mac : Mac
  pub valid : Bool

abbrev pub Cache : Type 0
Cache = List ArpEntry

abbrev pub arp_cache_size : ℕ
arp_cache_size = 16

-- The state of arp.c, with the two addresses that it asks of eth.c.
pub record Arp : Type 0 where
  pub cache : Cache
  pub gateway : Ip
  pub subnet : Ip
  pub my_ip : Ip
  pub my_mac : Mac

-- A call of `eth_send`.
pub record EthSend : Type 0 where
  pub dest : Mac
  pub type : ℕ
  pub payload : List ℕ

unfoldable pub arp_init : Cache → Cache
arp_init [] = []
arp_init (e ∷ es) = record e { valid = false } ∷ arp_init es

unfoldable pub arp_set_gateway : Ip → Arp → Arp
arp_set_gateway gw a = record a { gateway = gw }

unfoldable pub arp_set_subnet : Ip → Arp → Arp
arp_set_subnet mask a = record a { subnet = mask }

abbrev pub entry : Ip → Mac → ArpEntry
entry i m = record { ip = i; mac = m; valid = true }

-- The loop of `cache_store`; `none` if it runs through.
unfoldable pub store_in : Ip → Mac → Cache → Option Cache
unfolding ip_eq
store_in i m [] = none
store_in i m (e ∷ es) =
    if not e.valid || ip_eq e.ip i
    then some (entry i m ∷ es)
    else elim (store_in i m es) [ some c ↦ some (e ∷ c) | none ↦ none ]

unfoldable pub cache_store : Ip → Mac → Cache → Cache
unfolding store_in
cache_store i m c = elim (store_in i m c) [ some c' ↦ c' | none ↦ set c 0 (entry i m) ]

unfoldable pub cache_find : Ip → Cache → Option Mac
unfolding ip_eq
cache_find i [] = none
cache_find i (e ∷ es) = if e.valid && ip_eq e.ip i then some e.mac else cache_find i es

unfoldable pub same_subnet : Ip → Ip → Ip → Bool
same_subnet subnet a b =
    bit_and a.b0 subnet.b0 == bit_and b.b0 subnet.b0
    && (bit_and a.b1 subnet.b1 == bit_and b.b1 subnet.b1
        && (bit_and a.b2 subnet.b2 == bit_and b.b2 subnet.b2
            && bit_and a.b3 subnet.b3 == bit_and b.b3 subnet.b3))

-- The 28 bytes of an `arp_packet_t`.
unfoldable pub arp_packet : ℕ → Mac → Ip → Mac → Ip → List ℕ
unfolding htons
arp_packet op sender_mac sender_ip target_mac target_ip =
    store16 (htons 1)
    ++ (store16 (htons eth_type_ipv4)
        ++ (6
            ∷ 4
            ∷ (store16 (htons op)
                ++ (mac_bytes sender_mac
                    ++ (ip_bytes sender_ip ++ (mac_bytes target_mac ++ ip_bytes target_ip))))))

unfoldable pub arp_request : Arp → Ip → EthSend
arp_request a target = record {
  dest = mac_broadcast;
  type = eth_type_arp;
  payload = arp_packet 1 a.my_mac a.my_ip mac_zero target;
}

-- A packet as `netstack_rx` passes it on: the payload and its length.
pub record Packet : Type 0 where
  pub payload : Memory
  pub len : ℕ

unfoldable pub arp_handle : Arp → Packet → Arp × List EthSend
arp_handle a k =
    let p = k.payload in
    let op = ntohs (le16 p 6) in
    let sender_mac = mac_at p 8 in
    let sender_ip = ip_at p 14 in
    let a' : Arp = record a { cache = cache_store sender_ip sender_mac a.cache } in
    let reply : EthSend = record {
      dest = sender_mac;
      type = eth_type_arp;
      payload = arp_packet 2 a.my_mac a.my_ip sender_mac sender_ip;
    } in
    if ltb k.len 28
    then (a, [])
    else if op == 1 && ip_eq (ip_at p 24) a.my_ip
    then (a', reply ∷ [])
    else (a', [])

-- One call of `eth_poll`, as far as it reaches arp.c.
unfoldable pub poll_round : Arp → List Packet → Arp × List EthSend
poll_round a [] = (a, [])
poll_round a (k ∷ ks) =
    let (a1, out1) = arp_handle a k in let (a2, out2) = poll_round a1 ks in (a2, out1 ++ out2)

-- The waiting loop of `arp_lookup`; the list is of the rounds before the deadline.
unfoldable pub wait_reply : Ip → Arp → List (List Packet) → Option Mac × Arp × List EthSend
wait_reply i a [] = (none, a, [])
wait_reply i a (r ∷ rs) =
    let (a1, out1) = poll_round a r in
    let rest = wait_reply i a1 rs in
    elim (cache_find i a1.cache) [
      | some m ↦ (some m, a1, out1)
      | none ↦ (rest.0, rest.1, out1 ++ rest.2)
    ]

-- The address whose hardware address `arp_lookup` looks for.
unfoldable pub next_hop : Arp → Ip → Ip
unfolding same_subnet
next_hop a dest = if same_subnet a.subnet dest a.my_ip then dest else a.gateway

unfoldable pub arp_lookup : Arp → Ip → List (List Packet) → Mac × Arp × List EthSend
arp_lookup a dest rounds =
    let hop = next_hop a dest in
    let waited = wait_reply hop a rounds in
    elim (cache_find hop a.cache) [
      | some m ↦ (m, a, [])
      | none ↦
          (elim (waited.0) [ some m ↦ m | none ↦ mac_zero ], waited.1, arp_request a hop ∷ waited.2)
    ]
