-- ===== src/Net/Wire/Laws.antt =====
-- A datagram from `udp_send` of one host to the callbacks of another.
use chris_os.Base.{Bool-cases, inl, inr, ℕ, ◌+◌, ◌-◌, ◌^◌, ◌≤◌, ◌<◌, ◌≡◌, refl, ap, ◌∙◌, true}
use chris_os.Base.{false, some, none, List, ◌++◌, map, arith, length, ltb, le→ltb}
use chris_os.Base.Word.{Memory, be16, u16, offset}
use mathlib.Core.Option.{some-injective}
use mathlib.Core.Path.{subst}
use chris_os.Net.Eth.{Nic, Sent, eth_send, eth_type_ipv4}
use chris_os.Net.Ipv4.{ipv4_handle, ipv4_hdr, ipv4_packet, netstack_rx, to_ipv4, to_udp}
use chris_os.Net.Ipv4.Laws.{ipv4_handle-ipv4_packet}
use chris_os.Net.Types.{Ip, Mac, bytes_at, htons, mac_bytes, offset-append, store16}
use chris_os.Net.Udp.{IpSend, Sockets, udp_hdr, udp_send}
use chris_os.Net.Udp.Laws.{call_for, listeners, udp_handle-udp_send}
use chris_os.Net.Wire.{frame_calls, layer_calls, udp_calls}

-- The frame that goes to the device.
abbrev frame_of : Mac → Mac → List ℕ → List ℕ
frame_of dest src packet = mac_bytes dest ++ (mac_bytes src ++ (store16 (htons 0x0800) ++ packet))

length-ipv4_packet :
    (id proto : ℕ) (src dst : Ip) (payload : List ℕ)
    → length (ipv4_packet id proto src dst payload) ≡ 20 + length payload
unfolding ipv4_packet ipv4_hdr
length-ipv4_packet id proto src dst payload = omega arith

eth_send-frame :
    (nic : Nic) (dest : Mac) (packet : List ℕ)
    → nic.nic_ok ≡ true
    → length packet ≤ 1500
    → (eth_send nic dest eth_type_ipv4 packet).1
      ≡ some (record { descriptor = nic.tx_cur; frame = frame_of dest nic.my_mac packet })
unfolding eth_send
eth_send-frame nic dest packet ok h =
    let fits : ltb 1536 (u16 (14 + length packet)) ≡ false =
      le→ltb 1536 (u16 (14 + length packet)) (omega arith) in
    rw (ok, fits) refl

netstack_rx-ipv4 :
    (frame : Memory) (n len : ℕ)
    → be16 frame 12 ≡ 0x0800
    → len ≡ 14 + n
    → n ≤ 1500
    → netstack_rx frame len ≡ to_ipv4 (record { payload = offset frame 14; len = n })
unfolding netstack_rx
netstack_rx-ipv4 frame n len type e h =
    let rest : u16 (len - 14) ≡ n = omega arith in rw (le→ltb len 14 (omega arith), type, rest) refl

netstack_rx-frame :
    (dest src : Mac) (packet : List ℕ)
    → length packet ≤ 1500
    → netstack_rx (bytes_at (frame_of dest src packet)) (length (frame_of dest src packet))
      ≡ to_ipv4 (record { payload = bytes_at packet; len = length packet })
unfolding htons mac_bytes
netstack_rx-frame dest src packet h =
    let header = mac_bytes dest ++ (mac_bytes src ++ store16 (htons 0x0800)) in
    let frame = frame_of dest src packet in
    let behind : offset (bytes_at frame) 14 ≡ bytes_at packet =
      offset-append header packet 14 refl in
    let size : length frame ≡ 14 + length packet = omega arith in
    netstack_rx-ipv4 (bytes_at frame) (length packet) (length frame) refl size h
    ∙ ap (λ p. to_ipv4 (record { payload = p; len = length packet })) behind

udp_hdr-size :
    (src_port dst_port : ℕ) (content : List ℕ)
    → length content + 8 ≤ 1472
    → length (udp_hdr src_port dst_port (length content) ++ content) ≤ 1472
unfolding udp_hdr htons
udp_hdr-size src_port dst_port content h = omega arith

udp_send-size :
    (dest : Ip) (dst_port src_port : ℕ) (content : List ℕ) (s : IpSend)
    → udp_send dest dst_port src_port content ≡ some s
    → (s.dest ≡ dest) × (s.proto ≡ 17) × (length s.payload ≤ 1472)
unfolding udp_send
udp_send-size dest dst_port src_port content s e =
    let built : IpSend = record {
      dest = dest;
      proto = 17;
      payload = udp_hdr src_port dst_port (length content) ++ content;
    } in
    elim (Bool-cases (ltb 1472 (length content + 8))) [
      | inl long ↦ (let nothing : none ≡ some s = rw long at e in absurd (ground (arith, nothing)))
      | inr fits ↦
          let sent : some built ≡ some s = rw fits at e in
          let small : length content + 8 ≤ 1472 = ground (arith, fits) in
          subst (λ x. (x.dest ≡ dest) × (x.proto ≡ 17) × (length x.payload ≤ 1472))
            (some-injective built s sent) (refl, refl, udp_hdr-size src_port dst_port content small)
    ]

handled_udp :
    (id proto n : ℕ) (src dst dest : Ip) (payload : List ℕ)
    → proto ≡ 17
    → dst ≡ dest
    → n ≡ 20 + length payload
    → length payload ≤ 1480
    → ipv4_handle dest (bytes_at (ipv4_packet id proto src dst payload)) n
      ≡ to_udp src (bytes_at payload) (length payload)
handled_udp id proto n src dst dest payload ep ed en h =
    rw (ep, ed, en) (ipv4_handle-ipv4_packet id 17 src dest payload h)

-- A datagram that `udp_send` accepts, in a packet of IPv4 and a frame of a card that is ready,
-- makes `netstack_rx` of the host that it is sent to call exactly the listeners of the destination
-- port, in the order of their table, each with the sender's address and port and with the content.
-- Ports are 16-bit numbers.
pub frame_calls-udp_send :
    (ss : Sockets) (nic : Nic) (mac : Mac) (id : ℕ) (src dest : Ip) (dst_port src_port : ℕ)
    (content : List ℕ) (s : IpSend)
    → nic.nic_ok ≡ true
    → dst_port < 2 ^ 16
    → src_port < 2 ^ 16
    → udp_send dest dst_port src_port content ≡ some s
    → (sent : Sent) × ((eth_send nic mac eth_type_ipv4
          (ipv4_packet id s.proto src s.dest s.payload)).1
        ≡ some sent)
      × (frame_calls ss dest (bytes_at sent.frame) (length sent.frame)
          ≡ map (call_for src src_port content) (listeners dst_port ss))
unfolding frame_calls layer_calls udp_calls
frame_calls-udp_send ss nic mac id src dest dst_port src_port content s ok hd hs e =
    let size = udp_send-size dest dst_port src_port content s e in
    let packet = ipv4_packet id s.proto src s.dest s.payload in
    let whole = length-ipv4_packet id s.proto src s.dest s.payload in
    let handled : ipv4_handle dest (bytes_at packet) (length packet)
        ≡ to_udp src (bytes_at s.payload) (length s.payload) =
      handled_udp id s.proto (length packet) src s.dest dest s.payload size.1 size.0 whole
        (omega arith) in
    (
      record { descriptor = nic.tx_cur; frame = frame_of mac nic.my_mac packet },
      eth_send-frame nic mac packet ok (omega arith),
      ap (layer_calls ss dest) (netstack_rx-frame mac nic.my_mac packet (omega arith))
          ∙ (ap (udp_calls ss) handled
              ∙ udp_handle-udp_send ss src dest dst_port src_port content hd hs e),
    )
