-- ===== src/Net/Udp/Laws.antt =====
-- What a bound port receives, in net/udp.c.
use chris_os.Base.{ℕ, ◌+◌, ◌-◌, ◌*◌, ◌/◌, ◌^◌, ◌≤◌, ◌<◌, ◌≡◌, refl, inl, inr, true, false}
use chris_os.Base.{◌&&◌, Option, none, some, List, [], ◌∷◌, ◌++◌, map, arith, ◌==◌, ltb}
use chris_os.Base.{if◌then◌else◌, Bool-cases, length, All}
use chris_os.Base.Word.{u16, le16, offset}
use mathlib.Core.Option.{some-injective}
use mathlib.Core.Path.{subst}
use chris_os.Net.Types.{Ip, store16, htons, ntohs, bytes_at, offset-append}
use chris_os.Net.Udp.{UdpSocket, Sockets, udp_bind, udp_unbind, Call, deliver, udp_handle}
use chris_os.Net.Udp.{IpSend, udp_hdr, udp_send}

-- The callbacks of the sockets bound to a port, in the order of the table.
unfoldable pub listeners : ℕ → Sockets → List ℕ
listeners port [] = []
listeners port (s ∷ ss) =
    if s.used && s.port == port then s.cb ∷ listeners port ss else listeners port ss

-- Binding puts the callback into the list of its port, at some place, and leaves every other port's
-- list alone; it fails only where all sockets are in use.
abbrev pub Bound : ℕ → ℕ → ℕ → Sockets → Option Sockets → Type 0
Bound port cb q ss none = All (λ s. s.used ≡ true) ss
Bound port cb q ss (some t) =
    (before : List ℕ) × (after : List ℕ) × (listeners q ss ≡ before ++ after)
    × (listeners q t ≡ (if port == q then before ++ (cb ∷ after) else before ++ after))

keep-Bound :
    (port cb q : ℕ) (s : UdpSocket) (ss : Sockets) (r : Option Sockets)
    → s.used ≡ true
    → Bound port cb q ss r
    → Bound port cb q (s ∷ ss) (elim r [ some t ↦ some (s ∷ t) | none ↦ none ])
unfolding listeners
keep-Bound port cb q s ss none u b = (u, b)
keep-Bound port cb q s ss (some t) u (before, after, was, now) = elim (Bool-cases (s.port == q)) [
  | inl e ↦ (s.cb ∷ before, after, rw (u, e, was) refl, rw (u, e, now) (ground arith))
  | inr e ↦ (before, after, rw (u, e, was) refl, rw (u, e, now) refl)
]

-- A call of `udp_bind` on any table. When it succeeds, the port has one listener more and every other
-- port those that it had; when it fails, every socket is in use.
pub udp_bind_lem : (port cb q : ℕ) (ss : Sockets) → Bound port cb q ss (udp_bind port cb ss)
unfolding udp_bind listeners
udp_bind_lem port cb q [] = tt
udp_bind_lem port cb q (s ∷ ss) = elim (Bool-cases s.used) [
  | inl u ↦ simp u (keep-Bound port cb q s ss (udp_bind port cb ss) u (udp_bind_lem port cb q ss))
  | inr u ↦ simp u ([], listeners q ss, refl, ground arith)
]

-- After `udp_unbind` the port has no listener, and every other port has those that it had.
pub listeners-udp_unbind :
    (port q : ℕ) (ss : Sockets)
    → listeners q (udp_unbind port ss) ≡ (if port == q then [] else listeners q ss)
unfolding udp_unbind listeners
listeners-udp_unbind port q [] = ground arith
listeners-udp_unbind port q (s ∷ ss) = ground (arith, listeners-udp_unbind port q ss)

deliver-listeners :
    (port : ℕ) (call : ℕ → Call) (ss : Sockets)
    → deliver port call ss ≡ map call (listeners port ss)
unfolding deliver listeners
deliver-listeners port call [] = refl
deliver-listeners port call (s ∷ ss) = ground (arith, deliver-listeners port call ss)

abbrev pub call_for : Ip → ℕ → List ℕ → ℕ → Call
call_for src src_port content f = record {
  cb = f;
  src = src;
  src_port = src_port;
  content = bytes_at content;
  len = length content;
}

udp_hdr-received :
    (ss : Sockets) (src : Ip) (dst_port src_port : ℕ) (content : List ℕ)
    → dst_port < 2 ^ 16
    → src_port < 2 ^ 16
    → length content ≤ 1464
    → udp_handle ss src
        (bytes_at (udp_hdr src_port dst_port (length content) ++ content))
        (length (udp_hdr src_port dst_port (length content) ++ content))
      ≡ map (call_for src src_port content) (listeners dst_port ss)
unfolding udp_handle udp_hdr ntohs htons
udp_hdr-received ss src dst_port src_port content hd hs h =
    let fits : ltb (length (udp_hdr src_port dst_port (length content) ++ content)) 8 ≡ false =
      ground arith in
    let port : u16 (
          le16 (bytes_at (store16 (htons dst_port))) 0 / 256
          + le16 (bytes_at (store16 (htons dst_port))) 0 * 256)
        ≡ dst_port =
      omega arith in
    let from : u16 (
          le16 (bytes_at (store16 (htons src_port))) 0 / 256
          + le16 (bytes_at (store16 (htons src_port))) 0 * 256)
        ≡ src_port =
      omega arith in
    let len : u16 (
          u16 (
            le16 (bytes_at (store16 (htons (u16 (8 + length content))))) 0 / 256
            + le16 (bytes_at (store16 (htons (u16 (8 + length content))))) 0 * 256)
          + 2 ^ 16
          - 8)
        ≡ length content =
      omega arith in
    let behind : offset (bytes_at (udp_hdr src_port dst_port (length content) ++ content)) 8
        ≡ bytes_at content =
      offset-append (udp_hdr src_port dst_port (length content)) content 8 refl in
    rw (fits, port, from, len, behind)
      (deliver-listeners dst_port (call_for src src_port content) ss)

-- A datagram that `udp_send` sends is received as it was sent: `udp_handle` calls exactly the
-- listeners of the destination port, in the order of the table, each with the sender's address and
-- port, the content and its length. Ports are 16-bit numbers.
pub udp_handle-udp_send :
    (ss : Sockets) (src dest : Ip) (dst_port src_port : ℕ) (content : List ℕ) {s : IpSend}
    → dst_port < 2 ^ 16
    → src_port < 2 ^ 16
    → udp_send dest dst_port src_port content ≡ some s
    → udp_handle ss src (bytes_at s.payload) (length s.payload)
      ≡ map (call_for src src_port content) (listeners dst_port ss)
unfolding udp_send
udp_handle-udp_send ss src dest dst_port src_port content {s} hd hs e =
    elim (Bool-cases (ltb 1472 (length content + 8))) [
      | inl long ↦ let nothing : none ≡ some s = rw long at e in cc
      | inr fits ↦
          let sent : some (record {
            dest = dest;
            proto = 17;
            payload = udp_hdr src_port dst_port (length content) ++ content;
          })
              ≡ some s =
            rw fits at e in
          subst
            (λ (x : IpSend).
              udp_handle ss src (bytes_at x.payload) (length x.payload)
              ≡ map (call_for src src_port content) (listeners dst_port ss))
            (some-injective
              (record {
                dest = dest;
                proto = 17;
                payload = udp_hdr src_port dst_port (length content) ++ content;
              })
              s sent)
            (udp_hdr-received ss src dst_port src_port content hd hs (ground arith))
    ]
