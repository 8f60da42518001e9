-- ===== src/Net/Dhcp.antt =====
-- net/dhcp.c: the messages of the client, the parser of the server's answers and the exchange.
--
-- A message that is sent is the result of `udp_send`. While `dhcp_request` waits, the datagrams that
-- each round of polling hands to `dhcp_rx` before the deadline are an argument.
pub mod Laws
use chris_os.Base.{ℕ, zero, suc, ◌+◌, ◌-◌, ◌*◌, ◌/◌, ◌%◌, ◌^◌, ◌≤◌, ◌<◌, min, bit_and, ◌≡◌}
use chris_os.Base.{refl, sym, ap, ap₂, ◌∙◌, ◌≢◌, ◌↔◌, ◌⊎◌, inl, inr, Bool, true, false, not}
use chris_os.Base.{◌&&◌, ◌||◌, Option, none, some, List, [], ◌∷◌, ◌++◌, map, arith, ◌==◌, ltb}
use chris_os.Base.{leb, if◌then◌else◌, eq→==, ne→==, ==→eq, lt→ltb, le→ltb, Bool-cases}
use chris_os.Base.{Option-cases, length, get_or, set, take, drop, replicate, length-append}
use chris_os.Base.{length-set, length-replicate, get_or-set_self, get_or-set_ne, All}
use chris_os.Base.Word.{Memory, u8, u32, le32, offset}
use chris_os.Fs.Fat32.Names.{padded}
use chris_os.Net.Types.{Ip, Mac, ip, ip_at, mac_bytes, ip_bytes, store16, store32, htons}
use chris_os.Net.Types.{htonl, ntohl, ip_broadcast}
use chris_os.Net.Udp.{Sockets, udp_bind, IpSend, udp_send}

abbrev pub dhcp_pkt_size : ℕ
dhcp_pkt_size = 552

abbrev pub options_at : ℕ
options_at = 240

-- The file's statics, with the address that it sets in eth.c.
pub record Dhcp : Type 0 where
  pub offered_ip : Ip
  pub got_offer : Bool
  pub got_ack : Bool
  pub xid : ℕ
  pub my_ip : Ip
  pub my_mac : Mac

-- The walk over the options of a received packet, with fuel; the last argument is `msg_type`.
unfoldable pub walk : Memory → ℕ → ℕ → ℕ → ℕ → Option ℕ
walk p n zero i m = none
walk p n (suc fuel) i m =
    let opt = p i in
    let olen = p (i + 1) in
    let m' = if opt == 53 && olen == 1 then p (i + 2) else m in
    let padded = walk p n fuel (i + 1) m in
    let rest = walk p n fuel (i + 2 + olen) m' in
    if not (ltb i n)
    then some m
    else if opt == 255
    then some m
    else if opt == 0
    then padded
    else if leb n (i + 1)
    then some m
    else if ltb n (i + 2 + olen)
    then some m
    else rest

-- `len` is at least the size of a `dhcp_pkt_t` where this is used.
unfoldable pub opts_len : ℕ → ℕ
opts_len len = if ltb 312 (len - options_at) then 312 else len - options_at

unfoldable pub message_type : Memory → ℕ → Option ℕ
message_type p len = walk (offset p options_at) (opts_len len) (opts_len len + 1) 0 0

-- What a message of the given type changes.
unfoldable pub on_message : Dhcp → ℕ → Ip → Dhcp
on_message d type yiaddr =
    let d1 : Dhcp = if type == 2 then record d { offered_ip = yiaddr; got_offer = true } else d in
    if type == 5 then record d1 { my_ip = yiaddr; got_ack = true } else d1

-- A datagram for the client's port.
pub record Datagram : Type 0 where
  pub content : Memory
  pub len : ℕ

unfoldable pub dhcp_rx : Dhcp → Datagram → Dhcp
dhcp_rx d g =
    let p = g.content in
    if ltb g.len dhcp_pkt_size
    then d
    else if not (p 0 == 2)
    then d
    else if not (ntohl (le32 p 4) == d.xid)
    then d
    else elim (message_type p g.len) [ some type ↦ on_message d type (ip_at p 16) | none ↦ d ]

-- The 552 bytes of a `dhcp_pkt_t` of the client, with the options given and zeros behind them.
unfoldable pub dhcp_pkt : ℕ → Mac → List ℕ → List ℕ
dhcp_pkt xid mac options =
    1
    ∷ 1
    ∷ 6
    ∷ 0
    ∷ (store32 (htonl xid)
        ++ (store16 0
            ++ (store16 (htons 0x8000)
                ++ (replicate 16 0
                    ++ (mac_bytes mac
                        ++ (replicate 10 0
                            ++ (replicate 192 0
                                ++ (store32 (htonl 0x63825363)
                                    ++ (options ++ replicate (312 - length options) 0)))))))))

abbrev pub discover_options : List ℕ
discover_options = 53 ∷ 1 ∷ 1 ∷ 255 ∷ []

abbrev pub request_options : Ip → List ℕ
request_options i = 53 ∷ 1 ∷ 3 ∷ 50 ∷ 4 ∷ i.b0 ∷ i.b1 ∷ i.b2 ∷ i.b3 ∷ 255 ∷ []

unfoldable pub send_discover : Dhcp → Option IpSend
send_discover d = udp_send ip_broadcast 67 68 (dhcp_pkt d.xid d.my_mac discover_options)

unfoldable pub send_request : Dhcp → Ip → Option IpSend
send_request d i = udp_send ip_broadcast 67 68 (dhcp_pkt d.xid d.my_mac (request_options i))

-- One call of `eth_poll`, as far as it reaches dhcp.c.
unfoldable pub poll_round : Dhcp → List Datagram → Dhcp
poll_round d [] = d
poll_round d (g ∷ gs) = poll_round (dhcp_rx d g) gs

-- The two waiting loops.
unfoldable pub wait_offer : Dhcp → List (List Datagram) → Dhcp
wait_offer d [] = d
wait_offer d (r ∷ rs) = let rest = wait_offer (poll_round d r) rs in if d.got_offer then d else rest

unfoldable pub wait_ack : Dhcp → List (List Datagram) → Dhcp
wait_ack d [] = d
wait_ack d (r ∷ rs) = let rest = wait_ack (poll_round d r) rs in if d.got_ack then d else rest

-- `true` is the result 0, `false` the result -1.
unfoldable pub dhcp_request :
    Dhcp → List (List Datagram) → List (List Datagram) → Bool × Dhcp × List (Option IpSend)
dhcp_request d before after =
    let d1 : Dhcp = record d { got_offer = false; got_ack = false } in
    let d2 = wait_offer d1 before in
    let d3 = wait_ack d2 after in
    if not d2.got_offer
    then (false, d2, send_discover d1 ∷ [])
    else (d3.got_ack, d3, send_discover d1 ∷ send_request d2 d2.offered_ip ∷ [])

-- `cb` stands for `dhcp_rx`, and `ss` is the table of net/udp.c.
unfoldable pub dhcp_init : ℕ → Sockets → Option Sockets
dhcp_init cb ss = udp_bind 68 cb ss
