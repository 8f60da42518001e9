-- ===== src/Net/Tcp.antt =====
-- net/tcp.c: the sockets, the segments that they send, the state machine and the receive ring.
--
-- A segment that is sent is the call of `ipv4_send` with its arguments, in order. While an operation
-- waits, the segments that each round of polling hands to `tcp_handle` before the deadline are an
-- argument: a list of rounds, each a list of segments. A socket is named by its place in the table.
pub mod Calls
pub mod Ring
pub mod States
pub mod Rings
pub mod Open
pub mod Transfer
mod Examples
use chris_os.Base.{ℕ, zero, suc, ◌+◌, ◌-◌, ◌*◌, ◌/◌, ◌%◌, ◌^◌, ◌≤◌, ◌<◌, min, bit_and, ◌≡◌}
use chris_os.Base.{refl, sym, ap, ap₂, ◌∙◌, ◌≢◌, ◌↔◌, ◌⊎◌, inl, inr, Bool, true, false, not}
use chris_os.Base.{◌&&◌, ◌||◌, Option, none, some, List, [], ◌∷◌, ◌++◌, map, arith, ◌==◌, ltb}
use chris_os.Base.{leb, if◌then◌else◌, eq→==, ne→==, ==→eq, lt→ltb, le→ltb, Bool-cases}
use chris_os.Base.{Option-cases, length, get_or, set, take, drop, replicate, length-append}
use chris_os.Base.{length-set, length-replicate, get_or-set_self, get_or-set_ne, All}
use chris_os.Base.Word.{Memory, u8, u16, u32, bit, le16, le32, offset}
use chris_os.Net.Checksum.{tcp_checksum}
use chris_os.Net.Ipv4.{ip_proto_tcp}
use chris_os.Net.Types.{Ip, store16, store32, htons, ntohs, htonl, ntohl}
use chris_os.Net.Udp.{IpSend}

pub data TcpState : Type 0 where
  closed syn_sent established fin_wait : TcpState

pub record TcpSocket : Type 0 where
  pub remote_ip : Ip
  pub remote_port : ℕ
  pub local_port : ℕ
  pub seq : ℕ
  pub ack : ℕ
  pub state : TcpState
  pub rx_buf : List ℕ
  pub rx_head : ℕ
  pub rx_tail : ℕ

-- The file's statics, with the address that it asks of eth.c.
pub record Tcp : Type 0 where
  pub sockets : List TcpSocket
  pub next_port : ℕ
  pub my_ip : Ip

abbrev pub max_tcp_sockets : ℕ
max_tcp_sockets = 4

abbrev pub tcp_max_payload : ℕ
tcp_max_payload = 1440

abbrev pub rx_size : ℕ
rx_size = 4096

abbrev pub flag_fin : ℕ
flag_fin = 0x01

abbrev pub flag_syn : ℕ
flag_syn = 0x02

abbrev pub flag_ack : ℕ
flag_ack = 0x10

abbrev pub is_closed : TcpState → Bool
is_closed closed = true
is_closed _ = false

abbrev pub is_syn_sent : TcpState → Bool
is_syn_sent syn_sent = true
is_syn_sent _ = false

abbrev pub is_established : TcpState → Bool
is_established established = true
is_established _ = false

-- The 20 bytes of a `tcp_hdr_t`.
unfoldable pub tcp_hdr : TcpSocket → ℕ → ℕ → List ℕ
tcp_hdr s flags checksum =
    store16 (htons s.local_port)
    ++ (store16 (htons s.remote_port)
        ++ (store32 (htonl s.seq)
            ++ (store32 (if bit 4 flags then htonl s.ack else 0)
                ++ (0x50 ∷ flags ∷ (store16 (htons 4096) ++ (store16 checksum ++ store16 0))))))

-- `my_ip` is what `eth_get_ip` returns.
unfoldable pub tcp_send_flags : Ip → TcpSocket → ℕ → List ℕ → IpSend
tcp_send_flags my_ip s flags content =
    let sent = take tcp_max_payload content in
    let checksum = htons (tcp_checksum my_ip s.remote_ip (tcp_hdr s flags 0 ++ sent)) in
    record { dest = s.remote_ip; proto = ip_proto_tcp; payload = tcp_hdr s flags checksum ++ sent }

unfoldable pub tcp_init : List TcpSocket → List TcpSocket
tcp_init [] = []
tcp_init (s ∷ ss) = record s { state = closed } ∷ tcp_init ss

-- The first closed socket, made ready, and its place; `none` is a null result.
unfoldable pub tcp_open : List TcpSocket → Option (ℕ × List TcpSocket)
tcp_open [] = none
tcp_open (s ∷ ss) =
    if is_closed s.state
    then some (0, record s { rx_head = 0; rx_tail = 0; seq = 0xABCD1234; ack = 0 } ∷ ss)
    else elim (tcp_open ss) [ some (i, t) ↦ some (i + 1, s ∷ t) | none ↦ none ]

-- The copying loop of `tcp_handle`: `n` bytes from index `j` on go into the ring.
unfoldable pub rx_store : Memory → ℕ → ℕ → TcpSocket → TcpSocket
rx_store p zero j s = s
rx_store p (suc n) j s =
    rx_store p n (j + 1) (record s {
      rx_buf = set s.rx_buf s.rx_head (p j);
      rx_head = u16 ((s.rx_head + 1) % rx_size);
    })

-- A segment as `ipv4_handle` passes it on.
pub record Segment : Type 0 where
  pub src : Ip
  pub payload : Memory
  pub len : ℕ

-- The fields of the header that `tcp_handle` reads first.
pub record Header : Type 0 where
  pub src : Ip
  pub src_port : ℕ
  pub dst_port : ℕ
  pub flags : ℕ
  pub seq : ℕ
  pub ack : ℕ
  pub content : Memory
  pub dlen : ℕ

-- What `tcp_handle` does with a socket in state SYN_SENT.
unfoldable pub on_syn_sent : Ip → Header → TcpSocket → TcpSocket × List IpSend
on_syn_sent my_ip h s =
    let s' : TcpSocket = record s {
      ack = u32 (h.seq + 1);
      seq = h.ack;
      state = established;
      remote_ip = h.src;
      remote_port = h.src_port;
    } in
    if bit 1 h.flags && bit 4 h.flags
    then (s', tcp_send_flags my_ip s' flag_ack [] ∷ [])
    else (s, [])

-- What it does with one in state ESTABLISHED.
unfoldable pub on_established : Ip → Header → TcpSocket → TcpSocket × List IpSend
on_established my_ip h s =
    let fin : TcpSocket = record s { ack = u32 (h.seq + 1) } in
    let got : TcpSocket = rx_store h.content h.dlen 0 (record s { ack = u32 (h.seq + h.dlen) }) in
    if bit 2 h.flags
    then (record s { state = closed }, [])
    else if bit 0 h.flags
    then (record fin { state = closed }, tcp_send_flags my_ip fin (flag_ack + flag_fin) [] ∷ [])
    else if ltb 0 h.dlen
    then (got, tcp_send_flags my_ip got flag_ack [] ∷ [])
    else (s, [])

-- The loop of `tcp_handle` over the sockets.
unfoldable pub dispatch : Ip → Header → List TcpSocket → List TcpSocket × List IpSend
dispatch my_ip h [] = ([], [])
dispatch my_ip h (s ∷ ss) =
    let rest = dispatch my_ip h ss in
    let skipped : List TcpSocket × List IpSend = (s ∷ rest.0, rest.1) in
    if is_closed s.state
    then skipped
    else if not (s.local_port == h.dst_port)
    then skipped
    else if is_syn_sent s.state
    then ((on_syn_sent my_ip h s).0 ∷ ss, (on_syn_sent my_ip h s).1)
    else if is_established s.state
    then ((on_established my_ip h s).0 ∷ ss, (on_established my_ip h s).1)
    else skipped

unfoldable pub header_of : Segment → Header
header_of g =
    let p = g.payload in
    let off = u8 (p 12 / 16 * 4) in
    record {
      src = g.src;
      src_port = ntohs (le16 p 0);
      dst_port = ntohs (le16 p 2);
      flags = p 13;
      seq = ntohl (le32 p 4);
      ack = ntohl (le32 p 8);
      content = offset p off;
      dlen = u16 (g.len - off);
    }

unfoldable pub tcp_handle : Tcp → Segment → Tcp × List IpSend
tcp_handle t g =
    let off = u8 (g.payload 12 / 16 * 4) in
    let done = dispatch t.my_ip (header_of g) t.sockets in
    if ltb g.len 20
    then (t, [])
    else if ltb off 20 || ltb g.len off
    then (t, [])
    else (record t { sockets = done.0 }, done.1)

-- One call of `eth_poll`, as far as it reaches tcp.c.
unfoldable pub poll_round : Tcp → List Segment → Tcp × List IpSend
poll_round t [] = (t, [])
poll_round t (g ∷ gs) =
    let now = tcp_handle t g in let rest = poll_round now.0 gs in (rest.0, now.1 ++ rest.1)
