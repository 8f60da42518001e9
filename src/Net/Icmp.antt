-- ===== src/Net/Icmp.antt =====
-- net/icmp.c: answering an echo request, and sending one. The statics are a record; the wait for the
-- reply takes a list of rounds, each the packets of one poll.
pub mod Laws
use chris_os.Base.{ℕ, zero, suc, ◌+◌, ◌-◌, Bool, true, false, List, [], ◌∷◌, ◌++◌, ◌==◌, ltb}
use chris_os.Base.{if◌then◌else◌}
use chris_os.Base.Word.{Memory, u8, u16, le16}
use chris_os.Net.Checksum.{ipv4_checksum}
use chris_os.Net.Ipv4.{ip_proto_icmp}
use chris_os.Net.Types.{Ip, htons, store16}
use chris_os.Net.Udp.{IpSend}

pub record Icmp : Type 0 where
  pub ping_seq : ℕ
  pub reply_received : Bool

abbrev pub icmp_data_len : ℕ
icmp_data_len = 32

-- The copying loop of `icmp_handle`: `n` bytes from offset `i` on.
unfoldable pub copied : Memory → ℕ → ℕ → List ℕ
copied p zero i = []
copied p (suc n) i = p i ∷ copied p n (i + 1)

-- The 8 bytes of an `icmp_hdr_t`; the last three numbers are stored as they are.
unfoldable pub icmp_hdr : ℕ → ℕ → ℕ → ℕ → List ℕ
icmp_hdr type checksum id seq = type ∷ 0 ∷ (store16 checksum ++ (store16 id ++ store16 seq))

-- A packet with its checksum, which is computed with the field 0.
unfoldable pub icmp_packet : ℕ → ℕ → ℕ → List ℕ → List ℕ
icmp_packet type id seq content =
    icmp_hdr type (htons (ipv4_checksum (icmp_hdr type 0 id seq ++ content))) id seq ++ content

-- What `ipv4_handle` passes on.
pub record EchoPacket : Type 0 where
  pub src : Ip
  pub payload : Memory
  pub len : ℕ

-- The reply to a request: at most 32 bytes of its data come back.
unfoldable pub echo_reply : EchoPacket → IpSend
echo_reply r =
    let p = r.payload in
    let given = u16 (r.len - 8) in
    let data_len = if ltb icmp_data_len given then icmp_data_len else given in
    record {
      dest = r.src;
      proto = ip_proto_icmp;
      payload = icmp_packet 0 (le16 p 4) (le16 p 6) (copied p data_len 8);
    }

unfoldable pub icmp_handle : Icmp → EchoPacket → Icmp × List IpSend
icmp_handle s r =
    if ltb r.len 8
    then (s, [])
    else if r.payload 0 == 8
    then (s, echo_reply r ∷ [])
    else if r.payload 0 == 0
    then (record s { reply_received = true }, [])
    else (s, [])

-- The data of a request: the numbers from `i` on, as bytes.
unfoldable pub pattern_from : ℕ → ℕ → List ℕ
pattern_from zero i = []
pattern_from (suc n) i = u8 i ∷ pattern_from n (i + 1)

unfoldable pub echo_request : ℕ → Ip → IpSend
echo_request seq dest = record {
  dest = dest;
  proto = ip_proto_icmp;
  payload = icmp_packet 8 (htons 0x1337) (htons seq) (pattern_from icmp_data_len 0);
}

-- One call of `eth_poll`, as far as it reaches icmp.c.
unfoldable pub poll_round : Icmp → List EchoPacket → Icmp × List IpSend
poll_round s [] = (s, [])
poll_round s (r ∷ rs) =
    let now = icmp_handle s r in let rest = poll_round now.0 rs in (rest.0, now.1 ++ rest.1)

-- `while (... && !icmp_reply_received) eth_poll()`
unfoldable pub wait_reply : Icmp → List (List EchoPacket) → Icmp × List IpSend
wait_reply s [] = (s, [])
wait_reply s (r ∷ rs) =
    let now = poll_round s r in
    let rest = wait_reply now.0 rs in
    if s.reply_received then (s, []) else (rest.0, now.1 ++ rest.1)

unfoldable pub icmp_ping : Icmp → Ip → List (List EchoPacket) → Icmp × List IpSend
icmp_ping s dest rounds =
    let waited =
      wait_reply (record { ping_seq = u16 (s.ping_seq + 1); reply_received = false }) rounds in
    (waited.0, echo_request s.ping_seq dest ∷ waited.1)
