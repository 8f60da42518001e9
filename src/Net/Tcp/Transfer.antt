-- ===== src/Net/Tcp/Transfer.antt =====
-- From `tcp_send` on one host to `tcp_recv` on another, in net/tcp.c.
use chris_os.Base.{zero, suc, set, ◌%◌, take-take, take_all, ℕ, ◌+◌, ◌-◌, ◌^◌, ◌≤◌, ◌<◌, ◌≡◌}
use chris_os.Base.{refl, ap, ◌∙◌, inl, inr, some, List, [], ◌∷◌, ◌++◌, arith, if◌then◌else◌}
use chris_os.Base.{lt→ltb, Bool-cases, length, take}
use chris_os.Base.Word.{Memory, u16, u32, bit, offset, le16, le32}
use chris_os.Net.Checksum.{tcp_checksum}
use chris_os.Net.Tcp.{Header, rx_size, rx_store, established, TcpSocket, Tcp, Segment}
use chris_os.Net.Tcp.{header_of, on_established, flag_ack, tcp_hdr, tcp_send_flags}
use chris_os.Net.Tcp.Calls.{socket, tcp_send, drain}
use chris_os.Net.Tcp.Ring.{ack-rx_store, read-bytes_at, IsRing, unread, contents}
use chris_os.Net.Tcp.Ring.{rx_store-Stored, drain-Drained}
use chris_os.Net.Types.{Ip, store16, store32, htons, ntohs, htonl, ntohl, bytes_at}
use chris_os.Net.Types.{offset-append}
use chris_os.Net.Udp.{IpSend}

-- The ranges of the fields of a socket.
pub record IsSocket (s : TcpSocket) : Type 0 where
  pub local_16 : s.local_port < 2 ^ 16
  pub remote_16 : s.remote_port < 2 ^ 16
  pub seq_32 : s.seq < 2 ^ 32
  pub ack_32 : s.ack < 2 ^ 32

-- A segment as the peer receives it.
abbrev pub segment : Ip → IpSend → Segment
segment src s = record { src = src; payload = bytes_at s.payload; len = length s.payload }

load16 : (v : ℕ) → v < 2 ^ 16 → ntohs (le16 (bytes_at (store16 (htons v))) 0) ≡ v
unfolding ntohs htons
load16 v h = omega arith

load32 : (v : ℕ) → v < 2 ^ 32 → ntohl (le32 (bytes_at (store32 (htonl v))) 0) ≡ v
unfolding ntohl htonl
load32 v h = omega arith

ack_field :
    (s : TcpSocket) (flags : ℕ)
    → IsSocket s
    → ntohl (le32 (bytes_at (store32 (if bit 4 flags then htonl s.ack else 0))) 0)
      ≡ (if bit 4 flags then s.ack else 0)
ack_field s flags v = elim (Bool-cases (bit 4 flags)) [
  | inl y ↦ rw y (load32 s.ack v.ack_32)
  | inr n ↦ rw n (unfold ntohl htonl in refl)
]

tcp_hdr-content :
    (s : TcpSocket) (flags c : ℕ) (content : List ℕ)
    → offset (bytes_at (tcp_hdr s flags c ++ content)) 20 ≡ bytes_at content
tcp_hdr-content s flags c content =
    offset-append (tcp_hdr s flags c) content 20 (unfold tcp_hdr in refl)

-- The header that a socket sends is read back field by field: the ports the other way round, the
-- sequence number, the acknowledgement if the flag says that there is one, and the content, as far
-- as one segment takes it.
pub header_of-tcp_send_flags :
    (me : Ip) (s : TcpSocket) (flags : ℕ) (content : List ℕ)
    → IsSocket s
    → length content ≤ 1440
    → header_of (segment me (tcp_send_flags me s flags content)) ≡ record {
      src = me;
      src_port = s.local_port;
      dst_port = s.remote_port;
      flags = flags;
      seq = s.seq;
      ack = if bit 4 flags then s.ack else 0;
      content = bytes_at content;
      dlen = length content;
    }
unfolding header_of tcp_send_flags tcp_hdr
header_of-tcp_send_flags me s flags content v h =
    let c = htons (tcp_checksum me s.remote_ip (tcp_hdr s flags 0 ++ content)) in
    let len : u16 (length (tcp_hdr s flags c ++ content) - 20) ≡ length content = omega arith in
    rw
      (
        take_all 1440 content h,
        load16 s.local_port v.local_16,
        load16 s.remote_port v.remote_16,
        load32 s.seq v.seq_32,
        ack_field s flags v,
        tcp_hdr-content s flags c content,
        len,
      )
      refl

-- Storing bytes leaves the fields of a socket that its packets are made of.
rx_store_fields :
    (p : Memory) (n j : ℕ) (s : TcpSocket)
    → ((rx_store p n j s).local_port ≡ s.local_port)
      × ((rx_store p n j s).remote_port ≡ s.remote_port)
      × ((rx_store p n j s).remote_ip ≡ s.remote_ip)
      × ((rx_store p n j s).seq ≡ s.seq)
unfolding rx_store
rx_store_fields p zero j s = (refl, refl, refl, refl)
rx_store_fields p (suc n) j s =
    rx_store_fields p n (j + 1) (record s {
      rx_buf = set s.rx_buf s.rx_head (p j);
      rx_head = u16 ((s.rx_head + 1) % rx_size);
    })

-- The socket when the content of a segment is stored.
abbrev got : Header → TcpSocket → TcpSocket
got h s = rx_store h.content h.dlen 0 (record s { ack = u32 (h.seq + h.dlen) })

-- The header of a segment from socket `a` as it is read.
abbrev sent_header : Ip → TcpSocket → List ℕ → Header
sent_header me a content = header_of (segment me (tcp_send_flags me a flag_ack content))

stored_segment :
    (me you : Ip) (a b : TcpSocket) (content : List ℕ)
    → IsSocket a
    → IsRing b
    → 0 < length content
    → length content ≤ 1440
    → unread b + length content < 4096
    → let h = sent_header me a content in
      (on_established you h b ≡ (got h b, tcp_send_flags you (got h b) flag_ack [] ∷ []))
      × (contents (got h b) ≡ contents b ++ content)
      × ((got h b).ack ≡ u32 (a.seq + length content))
      × IsRing (got h b)
unfolding on_established
stored_segment me you a b content v r some_bytes h room =
    let n = length content in
    let b1 : TcpSocket = record b { ack = u32 (a.seq + n) } in
    let ring : IsRing b1 = record { size = r.size; head_in = r.head_in; tail_in = r.tail_in } in
    let stored = rx_store-Stored (bytes_at content) n 0 b1 ring room in
    rw (header_of-tcp_send_flags me a flag_ack content v h, lt→ltb 0 n some_bytes)
      (
        refl,
        stored.queue ∙ ap (λ t. contents b ++ t) (read-bytes_at content),
        ack-rx_store (bytes_at content) n 0 b1,
        stored.ring,
      )

got-IsSocket : (h : Header) (s : TcpSocket) → IsSocket s → IsSocket (got h s)
got-IsSocket h s v =
    let start : TcpSocket = record s { ack = u32 (h.seq + h.dlen) } in
    let same = rx_store_fields h.content h.dlen 0 start in
    let ack = ack-rx_store h.content h.dlen 0 start in
    record {
      local_16 = rw same.0 v.local_16;
      remote_16 = rw same.1 v.remote_16;
      seq_32 = rw same.3 v.seq_32;
      ack_32 = rw ack (omega arith);
    }

-- The packet with which a socket answers stored content, as its peer reads it.
answer-got :
    (you : Ip) (h : Header) (s : TcpSocket)
    → IsSocket s
    → header_of (segment you (tcp_send_flags you (got h s) flag_ack [])) ≡ record {
      src = you;
      src_port = s.local_port;
      dst_port = s.remote_port;
      flags = flag_ack;
      seq = s.seq;
      ack = u32 (h.seq + h.dlen);
      content = bytes_at [];
      dlen = 0;
    }
answer-got you h s v =
    let start : TcpSocket = record s { ack = u32 (h.seq + h.dlen) } in
    let same = rx_store_fields h.content h.dlen 0 start in
    let ack = ack-rx_store h.content h.dlen 0 start in
    rw
      (
        header_of-tcp_send_flags you (got h s) flag_ack [] (got-IsSocket h s v) (omega arith),
        same.0,
        same.1,
        same.3,
        ack,
      )
      refl

-- One segment of content, from `tcp_send` of one host into the ring of an established socket of
-- another: if it fits there, it goes to the end of the queue of unread bytes, whatever its sequence
-- number, and exactly one packet is sent, to the other side of the connection. Whoever reads that
-- packet finds an acknowledgement of the number behind the content, with no other flag and no
-- content, from the socket's own port and number to the port of its peer.
pub transfer :
    (me you : Ip) (a b : TcpSocket) (content : List ℕ)
    → IsSocket a
    → IsSocket b
    → IsRing b
    → 0 < length content
    → length content ≤ 1440
    → unread b + length content < 4096
    → let (b', out) =
        on_established you (header_of (segment me (tcp_send_flags me a flag_ack content))) b in
      (contents b' ≡ contents b ++ content)
      × IsRing b'
      × ((answer : IpSend) × (out ≡ answer ∷ [])
          × (answer.dest ≡ b.remote_ip)
          × (header_of (segment you answer) ≡ record {
            src = you;
            src_port = b.local_port;
            dst_port = b.remote_port;
            flags = flag_ack;
            seq = b.seq;
            ack = u32 (a.seq + length content);
            content = bytes_at [];
            dlen = 0;
          }))
transfer me you a b content v w r some_bytes fits room =
    let h = sent_header me a content in
    let s = stored_segment me you a b content v r some_bytes fits room in
    let same = rx_store_fields h.content h.dlen 0 (record b { ack = u32 (h.seq + h.dlen) }) in
    let field = header_of-tcp_send_flags me a flag_ack content v fits in
    rw s.0 (
      s.1,
      s.3,
      (
        tcp_send_flags you (got h b) flag_ack [],
        refl,
        unfold tcp_send_flags in same.2,
        answer-got you h b w ∙ rw field refl,
      ),
    )

-- The same from end to end: after the transfer into an empty ring, a receive with room for the
-- content returns exactly the bytes that were sent.
pub drain-transfer :
    (me you : Ip) (a b : TcpSocket) (content : List ℕ) (max_len : ℕ)
    → IsSocket a
    → IsRing b
    → 0 < length content
    → length content ≤ 1440
    → b.rx_head ≡ b.rx_tail
    → length content ≤ max_len
    → (drain max_len
        (on_established you (header_of (segment me (tcp_send_flags me a flag_ack content))) b).0).0
      ≡ content
drain-transfer me you a b content max_len v r some_bytes h empty fits =
    let none_left : unread b ≡ 0 = omega (arith, r.head_in) in
    let queued : contents b ≡ [] = rw none_left refl in
    let t = stored_segment me you a b content v r some_bytes h (omega arith) in
    let b' = got (sent_header me a content) b in
    rw t.0 (drain-Drained max_len b' t.3).taken
    ∙ (ap (take max_len) (t.1 ∙ ap (λ q. q ++ content) queued) ∙ take_all max_len content fits)

-- A call of `tcp_send` on an established socket with more than one segment's worth of content
-- reports all of it as sent and advances the sequence number by all of it, but the one segment
-- that goes out holds the first 1440 bytes only.
pub tcp_send-truncates :
    (t : Tcp) (i : ℕ) (content : List ℕ)
    → (socket t i).state ≡ established
    → 1440 < length content
    → ((tcp_send t i content).0 ≡ some (length content))
      × ((tcp_send t i content).2
          ≡ tcp_send_flags t.my_ip (socket t i) flag_ack (take 1440 content) ∷ [])
unfolding tcp_send tcp_send_flags
tcp_send-truncates t i content e long = rw (e, take-take 1440 content) (refl, refl)
