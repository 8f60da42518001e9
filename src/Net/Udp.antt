-- ===== src/Net/Udp.antt =====
-- net/udp.c: the table of bound ports, the delivery of datagrams and their sending.
--
-- A callback is the number that its function pointer holds.
pub mod Laws
use chris_os.Base.{ℕ, zero, suc, ◌+◌, ◌-◌, ◌*◌, ◌/◌, ◌%◌, ◌^◌, ◌≤◌, ◌<◌, min, bit_and, ◌≡◌}
use chris_os.Base.{refl, sym, ap, ap₂, ◌∙◌, ◌≢◌, ◌↔◌, ◌⊎◌, inl, inr, Bool, true, false, not}
use chris_os.Base.{◌&&◌, ◌||◌, Option, none, some, List, [], ◌∷◌, ◌++◌, map, arith, ◌==◌, ltb}
use chris_os.Base.{leb, if◌then◌else◌, eq→==, ne→==, ==→eq, lt→ltb, le→ltb, Bool-cases}
use chris_os.Base.{Option-cases, length, get_or, set, take, drop, replicate, length-append}
use chris_os.Base.{length-set, length-replicate, get_or-set_self, get_or-set_ne, All}
use chris_os.Base.Word.{Memory, u16, le16, offset}
use chris_os.Net.Ipv4.{ip_proto_udp}
use chris_os.Net.Types.{Ip, store16, htons, ntohs}

abbrev pub max_udp_sockets : ℕ
max_udp_sockets = 8

pub record UdpSocket : Type 0 where
  pub port : ℕ
  pub cb : ℕ
  pub used : Bool

abbrev pub Sockets : Type 0
Sockets = List UdpSocket

unfoldable pub udp_init : Sockets → Sockets
udp_init [] = []
udp_init (s ∷ ss) = record s { used = false } ∷ udp_init ss

-- `none` is the result -1, when every socket is in use.
unfoldable pub udp_bind : ℕ → ℕ → Sockets → Option Sockets
udp_bind port cb [] = none
udp_bind port cb (s ∷ ss) =
    if not s.used
    then some (record { port = port; cb = cb; used = true } ∷ ss)
    else elim (udp_bind port cb ss) [ some t ↦ some (s ∷ t) | none ↦ none ]

unfoldable pub udp_unbind : ℕ → Sockets → Sockets
udp_unbind port [] = []
udp_unbind port (s ∷ ss) =
    (if s.used && s.port == port then record s { used = false } else s) ∷ udp_unbind port ss

-- A call of a callback with its arguments.
pub record Call : Type 0 where
  pub cb : ℕ
  pub src : Ip
  pub src_port : ℕ
  pub content : Memory
  pub len : ℕ

-- The loop of `udp_handle` over the sockets, given the port and the call but for its callback.
unfoldable pub deliver : ℕ → (ℕ → Call) → Sockets → List Call
deliver port call [] = []
deliver port call (s ∷ ss) =
    if s.used && s.port == port then call s.cb ∷ deliver port call ss else deliver port call ss

-- The calls that `udp_handle` makes, in order.
unfoldable pub udp_handle : Sockets → Ip → Memory → ℕ → List Call
udp_handle ss src p len =
    let port = ntohs (le16 p 2) in
    let dlen = u16 (ntohs (le16 p 4) + 2 ^ 16 - 8) in
    let call : ℕ → Call = λ f. record {
      cb = f;
      src = src;
      src_port = ntohs (le16 p 0);
      content = offset p 8;
      len = dlen;
    } in
    if ltb len 8 then [] else deliver port call ss

-- A call of `ipv4_send`.
pub record IpSend : Type 0 where
  pub dest : Ip
  pub proto : ℕ
  pub payload : List ℕ

unfoldable pub udp_hdr : ℕ → ℕ → ℕ → List ℕ
udp_hdr src_port dst_port len =
    store16 (htons src_port)
    ++ (store16 (htons dst_port) ++ (store16 (htons (u16 (8 + len))) ++ store16 0))

unfoldable pub udp_send : Ip → ℕ → ℕ → List ℕ → Option IpSend
udp_send dest dst_port src_port content =
    if ltb 1472 (length content + 8)
    then none
    else some (record {
      dest = dest;
      proto = ip_proto_udp;
      payload = udp_hdr src_port dst_port (length content) ++ content;
    })
