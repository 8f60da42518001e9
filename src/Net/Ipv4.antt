-- ===== src/Net/Ipv4.antt =====
-- net/ipv4.c and `netstack_rx` of net/netstack.c: sending and dispatching packets.
--
-- A handler of the layer above is named by a constructor of `Upper`, with the arguments of its call.
pub mod Laws
use chris_os.Base.{ℕ, zero, suc, ◌+◌, ◌-◌, ◌*◌, ◌/◌, ◌%◌, ◌^◌, ◌≤◌, ◌<◌, min, bit_and, ◌≡◌}
use chris_os.Base.{refl, sym, ap, ap₂, ◌∙◌, ◌≢◌, ◌↔◌, ◌⊎◌, inl, inr, Bool, true, false, not}
use chris_os.Base.{◌&&◌, ◌||◌, Option, none, some, List, [], ◌∷◌, ◌++◌, map, arith, ◌==◌, ltb}
use chris_os.Base.{leb, if◌then◌else◌, eq→==, ne→==, ==→eq, lt→ltb, le→ltb, Bool-cases}
use chris_os.Base.{Option-cases, length, get_or, set, take, drop, replicate, length-append}
use chris_os.Base.{length-set, length-replicate, get_or-set_self, get_or-set_ne, All}
use chris_os.Base.Word.{Memory, u8, u16, le16, be16, offset}
use chris_os.Net.Arp.{Arp, Packet, EthSend, arp_lookup}
use chris_os.Net.Checksum.{ipv4_checksum}
use chris_os.Net.Eth.{eth_type_ipv4, eth_type_arp}
use chris_os.Net.Types.{Ip, Mac, ip, ip_eq, ip_at, mac_at, ip_bytes, mac_bytes, store16, htons}
use chris_os.Net.Types.{ntohs, mac_broadcast, ip_broadcast}

abbrev pub ip_proto_icmp : ℕ
ip_proto_icmp = 1

abbrev pub ip_proto_tcp : ℕ
ip_proto_tcp = 6

abbrev pub ip_proto_udp : ℕ
ip_proto_udp = 17

-- The counter of net/ipv4.c beside the state of net/arp.c that it sends through.
pub record Ipv4 : Type 0 where
  pub ip_id : ℕ
  pub arp : Arp

unfoldable pub ipv4_init : Ipv4 → Ipv4
ipv4_init s = record s { ip_id = 0 }

-- The 20 bytes of an `ipv4_hdr_t` as `ipv4_send` fills it in.
unfoldable pub ipv4_hdr : ℕ → ℕ → ℕ → ℕ → Ip → Ip → List ℕ
ipv4_hdr len id proto checksum src dst =
    0x45
    ∷ 0
    ∷ (store16 (htons (u16 (20 + len)))
        ++ (store16 (htons id)
            ++ (store16 (htons 0x4000)
                ++ (64 ∷ proto ∷ (store16 checksum ++ (ip_bytes src ++ ip_bytes dst))))))

-- Whether the packet goes to all hosts, and so needs no hardware address of one.
unfoldable pub is_broadcast : Ip → Bool
is_broadcast dest = ip_eq dest ip_broadcast || leb 224 dest.b0

-- The packet: its header with the checksum over the header whose checksum is 0, then the payload.
unfoldable pub ipv4_packet : ℕ → ℕ → Ip → Ip → List ℕ → List ℕ
ipv4_packet id proto src dst payload =
    let checksum = htons (ipv4_checksum (ipv4_hdr (length payload) id proto 0 src dst)) in
    ipv4_hdr (length payload) id proto checksum src dst ++ payload

unfoldable pub ipv4_send : Ipv4 → Ip → ℕ → List ℕ → List (List Packet) → Ipv4 × List EthSend
ipv4_send s dest proto payload rounds =
    let packet = ipv4_packet s.ip_id proto s.arp.my_ip dest payload in
    let next = u16 (s.ip_id + 1) in
    let (mac, arp, out) = arp_lookup s.arp dest rounds in
    let frame_to : Mac → EthSend =
      λ m. record { dest = m; type = eth_type_ipv4; payload = packet } in
    if ltb 1500 (length payload + 20)
    then (s, [])
    else if is_broadcast dest
    then (record s { ip_id = next }, frame_to mac_broadcast ∷ [])
    else (record { ip_id = next; arp = arp }, out ++ (frame_to mac ∷ []))

-- The handler that a packet is passed to: the source, the data and its length.
pub data Upper : Type 0 where
  to_icmp : Ip → Memory → ℕ → Upper
  to_udp : Ip → Memory → ℕ → Upper
  to_tcp : Ip → Memory → ℕ → Upper
  dropped : Upper

unfoldable pub ipv4_handle : Ip → Memory → ℕ → Upper
ipv4_handle my_ip p len =
    let ihl = u8 (p 0 % 16 * 4) in
    let data_len = u16 (ntohs (le16 p 2) + 2 ^ 16 - ihl) in
    let content = offset p ihl in
    let src = ip_at p 12 in
    let dst = ip_at p 16 in
    let proto = p 9 in
    if ltb len 20
    then dropped
    else if not (ip_eq dst my_ip) && not (ip_eq dst ip_broadcast)
    then dropped
    else if proto == ip_proto_icmp
    then to_icmp src content data_len
    else if proto == ip_proto_udp
    then to_udp src content data_len
    else if proto == ip_proto_tcp
    then to_tcp src content data_len
    else dropped

-- Where `netstack_rx` passes a frame on to.
pub data Layer : Type 0 where
  to_arp : Packet → Layer
  to_ipv4 : Packet → Layer
  ignored : Layer

unfoldable pub netstack_rx : Memory → ℕ → Layer
netstack_rx frame len =
    let type = be16 frame 12 in
    let packet : Packet = record { payload = offset frame 14; len = u16 (len - 14) } in
    if ltb len 14
    then ignored
    else if type == eth_type_arp
    then to_arp packet
    else if type == eth_type_ipv4
    then to_ipv4 packet
    else ignored
