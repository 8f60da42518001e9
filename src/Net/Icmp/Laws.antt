-- ===== src/Net/Icmp/Laws.antt =====
-- The echo of net/icmp.c between two hosts.
use chris_os.Base.{get_or-append, ℕ, suc, ◌+◌, ◌-◌, ◌*◌, ◌/◌, ◌%◌, ◌^◌, ◌≤◌, ◌<◌, ◌≡◌, refl}
use chris_os.Base.{ap₂, true, false, List, [], ◌∷◌, ◌++◌, arith, ltb, le→ltb, length, get_or}
use chris_os.Base.Word.{Memory, u16, le16}
use mathlib.Core.Path.{subst}
use chris_os.Net.Checksum.{ipv4_checksum}
use chris_os.Net.Icmp.{echo_reply, Icmp, EchoPacket, copied, icmp_handle, icmp_hdr}
use chris_os.Net.Icmp.{icmp_packet}
use chris_os.Net.Ipv4.{ip_proto_icmp}
use chris_os.Net.Types.{Ip, bytes_at, htons}

copied-bytes_at :
    (content : List ℕ) (p : Memory) (i : ℕ)
    → ((k : ℕ) → p (i + k) ≡ get_or content k 0)
    → copied p (length content) i ≡ content
unfolding copied
copied-bytes_at [] p i same = refl
copied-bytes_at (c ∷ cs) p i same =
    let z : i + 0 ≡ i = omega arith in
    ap₂ ◌∷◌ (subst (λ n. p n ≡ c) z (same 0)) (
      copied-bytes_at cs p (i + 1) (λ k.
        let e : i + suc k ≡ i + 1 + k = omega arith in
        subst (λ n. p n ≡ get_or cs k 0) e (same (suc k))))

-- The data of a packet.
content-icmp_packet :
    (type id seq : ℕ) (content : List ℕ)
    → copied (bytes_at (icmp_packet type id seq content)) (length content) 8 ≡ content
unfolding icmp_packet icmp_hdr
content-icmp_packet type id seq content =
    let checksum = htons (ipv4_checksum (icmp_hdr type 0 id seq ++ content)) in
    copied-bytes_at content (bytes_at (icmp_packet type id seq content)) 8
      (λ k. get_or-append (icmp_hdr type checksum id seq) content k 0)

le16-store16 : (v : ℕ) → v < 2 ^ 16 → v % 256 + v / 256 % 256 * 256 ≡ v
le16-store16 v h = omega arith

fields-icmp_packet :
    (type id seq : ℕ) (content : List ℕ)
    → id < 2 ^ 16
    → seq < 2 ^ 16
    → (bytes_at (icmp_packet type id seq content) 0 ≡ type)
      × (le16 (bytes_at (icmp_packet type id seq content)) 4 ≡ id)
      × (le16 (bytes_at (icmp_packet type id seq content)) 6 ≡ seq)
unfolding icmp_packet icmp_hdr
fields-icmp_packet type id seq content hi hs = (refl, le16-store16 id hi, le16-store16 seq hs)

echo_reply-icmp_packet :
    (me : Ip) (id seq : ℕ) (content : List ℕ)
    → id < 2 ^ 16
    → seq < 2 ^ 16
    → length content ≤ 32
    → echo_reply (record {
      src = me;
      payload = bytes_at (icmp_packet 8 id seq content);
      len = 8 + length content;
    })
      ≡ record { dest = me; proto = ip_proto_icmp; payload = icmp_packet 0 id seq content }
unfolding echo_reply
echo_reply-icmp_packet me id seq content hi hs hl =
    let (type, i4, i6) = fields-icmp_packet 8 id seq content hi hs in
    let given : u16 (8 + length content - 8) ≡ length content = omega arith in
    rw (i4, i6, given, le→ltb 32 (length content) hl, content-icmp_packet 8 id seq content) refl

-- A request with at most 32 bytes of data is answered, to its sender, with the same number, sequence
-- and data and a checksum of its own; the answer makes the sender's wait end, and sends nothing.
pub icmp_handle-icmp_packet :
    (a b : Icmp) (me you : Ip) (id seq : ℕ) (content : List ℕ)
    → id < 2 ^ 16
    → seq < 2 ^ 16
    → length content ≤ 32
    → let received : Ip → List ℕ → EchoPacket =
        λ src bytes. record { src = src; payload = bytes_at bytes; len = 8 + length content } in
      (icmp_handle b (received me (icmp_packet 8 id seq content)) ≡ (
        b,
        record { dest = me; proto = ip_proto_icmp; payload = icmp_packet 0 id seq content } ∷ [],
      ))
      × (icmp_handle a (received you (icmp_packet 0 id seq content))
          ≡ (record a { reply_received = true }, []))
unfolding icmp_handle
icmp_handle-icmp_packet a b me you id seq content hi hs hl =
    let asked = fields-icmp_packet 8 id seq content hi hs in
    let answered = fields-icmp_packet 0 id seq content hi hs in
    let whole : ltb (8 + length content) 8 ≡ false = ground arith in
    (
      rw (whole, asked.0, echo_reply-icmp_packet me id seq content hi hs hl) refl,
      rw (whole, answered.0) refl,
    )
