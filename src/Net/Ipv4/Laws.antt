-- ===== src/Net/Ipv4/Laws.antt =====
-- What net/ipv4.c sends, and what it makes of what it receives.
use chris_os.Base.{◌-◌, ◌/◌, ◌==◌, if◌then◌else◌, ◌++◌, le→ltb, refl, length, List, ℕ, ◌+◌}
use chris_os.Base.{◌*◌, ◌^◌, ◌≤◌, ◌<◌, ◌≡◌, arith}
use chris_os.Base.Word.{le16, u16, Memory, offset}
use chris_os.Net.Checksum.{finish_completes, finish-lt, finish, ipv4_checksum, sum_words}
use chris_os.Net.Ipv4.{dropped, Upper, to_tcp, to_udp, to_icmp, ipv4_packet, ipv4_handle}
use chris_os.Net.Ipv4.{ipv4_hdr}
use chris_os.Net.Types.{store16, ip_at, offset-append, ntohs, ip_eq_refl, bytes_at, Ip, htons}

abbrev pub IsIp : Ip → Type 0
IsIp a = (a.b0 < 256) × (a.b1 < 256) × (a.b2 < 256) × (a.b3 < 256)

-- The sum of the words of a header.
hdr_sum :
    (len id proto c : ℕ) (src dst : Ip)
    → len ≤ 1480
    → id < 2 ^ 16
    → proto < 256
    → c < 2 ^ 16
    → IsIp src
    → IsIp dst
    → sum_words 0 (ipv4_hdr len id proto (htons c) src dst)
      ≡ 0x4500
        + (20 + len)
        + id
        + 0x4000
        + (64 * 256 + proto)
        + c
        + (src.b0 * 256 + src.b1)
        + (src.b2 * 256 + src.b3)
        + (dst.b0 * 256 + dst.b1)
        + (dst.b2 * 256 + dst.b3)
unfolding sum_words ipv4_hdr htons
hdr_sum len id proto c src dst hl hi hp hc hs hd = omega arith

-- The header that `ipv4_send` puts in front of a payload passes the receiver's test: its own
-- checksum is 0. The addresses are bytes, the payload is one that `ipv4_send` accepts.
pub ipv4_checksum-ipv4_hdr :
    (len id proto : ℕ) (src dst : Ip)
    → len ≤ 1480
    → id < 2 ^ 16
    → proto < 256
    → IsIp src
    → IsIp dst
    → ipv4_checksum
        (ipv4_hdr len id proto (htons (ipv4_checksum (ipv4_hdr len id proto 0 src dst))) src dst)
      ≡ 0
unfolding ipv4_checksum
ipv4_checksum-ipv4_hdr len id proto src dst hl hi hp hs hd =
    let zero_sum : ℕ = sum_words 0 (ipv4_hdr len id proto 0 src dst) in
    let c : ℕ = finish zero_sum in
    let s0 = hdr_sum len id proto 0 src dst hl hi hp (omega arith) hs hd in
    let s0' : sum_words 0 (ipv4_hdr len id proto 0 src dst)
        ≡ sum_words 0 (ipv4_hdr len id proto (htons 0) src dst) =
      unfold htons in refl in
    let s1 = hdr_sum len id proto c src dst hl hi hp (finish-lt zero_sum) hs hd in
    let same : sum_words 0 (ipv4_hdr len id proto (htons c) src dst) ≡ zero_sum + c =
      omega (arith, s0, s0', s1) in
    rw same (finish_completes zero_sum (omega (arith, s0, s0')) (omega (arith, s0, s0')))

-- The handler for a protocol number.
abbrev pub by_proto : ℕ → Ip → Memory → ℕ → Upper
by_proto proto src p len =
    if proto == 1
    then to_icmp src p len
    else if proto == 17
    then to_udp src p len
    else if proto == 6
    then to_tcp src p len
    else dropped

length_field :
    (len : ℕ)
    → len ≤ 1480
    → u16 (ntohs (le16 (bytes_at (store16 (htons (u16 (20 + len))))) 0) + 2 ^ 16 - 20) ≡ len
unfolding ntohs htons
length_field len h = omega arith

ipv4_hdr-content :
    (len id proto c : ℕ) (src dst : Ip) (payload : List ℕ)
    → offset (bytes_at (ipv4_hdr len id proto c src dst ++ payload)) 20 ≡ bytes_at payload
ipv4_hdr-content len id proto c src dst payload =
    offset-append (ipv4_hdr len id proto c src dst) payload 20 (unfold ipv4_hdr in refl)

-- A packet that `ipv4_send` builds for a host is passed by `ipv4_handle` of that host to the
-- handler of its protocol, with the source address, the length of the payload and the payload
-- itself.
pub ipv4_handle-ipv4_packet :
    (id proto : ℕ) (src dst : Ip) (payload : List ℕ)
    → length payload ≤ 1480
    → ipv4_handle dst (bytes_at (ipv4_packet id proto src dst payload)) (20 + length payload)
      ≡ by_proto proto src (bytes_at payload) (length payload)
unfolding ipv4_handle ipv4_packet ipv4_hdr
ipv4_handle-ipv4_packet id proto src dst payload h =
    rw
      (
        le→ltb (20 + length payload) 20 (omega arith),
        ip_eq_refl dst,
        length_field (length payload) h,
        ipv4_hdr-content (length payload) id proto
            (htons (ipv4_checksum (ipv4_hdr (length payload) id proto 0 src dst))) src dst payload,
      )
      refl

-- The length that `ipv4_handle` passes on is not bounded by the length received: a UDP packet
-- addressed to the host whose total length is below its header length, with no options, is passed
-- on with a length of more than 65000 bytes, for any number of bytes received from 20 on.
pub ipv4_handle-overlong :
    (my_ip : Ip) (p : Memory) (len : ℕ)
    → 20 ≤ len
    → ip_at p 16 ≡ my_ip
    → p 0 ≡ 0x45
    → p 2 ≡ 0
    → p 3 < 20
    → p 9 ≡ 17
    → ipv4_handle my_ip p len ≡ to_udp (ip_at p 12) (offset p 20) (65516 + p 3)
unfolding ipv4_handle ntohs htons
ipv4_handle-overlong my_ip p len h dst version high low udp =
    let wrapped : u16 (u16 (le16 p 2 / 256 + le16 p 2 * 256) + 2 ^ 16 - 20) ≡ 65516 + p 3 =
      omega arith in
    rw (le→ltb len 20 h, dst, ip_eq_refl my_ip, version, udp, wrapped) refl
