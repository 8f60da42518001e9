-- ===== src/Net/Wire/Examples.antt =====
-- A datagram of two bytes from port 67 to port 68 of the second host.
use chris_os.Base.{◌≡◌, refl, true, some, [], ◌∷◌, map, length, arith, ◌++◌}
use chris_os.Net.Eth.{Nic, Sent, eth_send, eth_type_ipv4}
use chris_os.Net.Ipv4.{ipv4_packet}
use chris_os.Net.Types.{Ip, ip, bytes_at, mac_broadcast, mac_zero}
use chris_os.Net.Udp.{IpSend, Sockets, udp_hdr, udp_send}
use chris_os.Net.Udp.Laws.{call_for, listeners}
use chris_os.Net.Wire.{frame_calls}
use chris_os.Net.Wire.Laws.{frame_calls-udp_send}

abbrev sender : Ip
sender = ip 10 0 2 15

abbrev receiver : Ip
receiver = ip 10 0 2 2

abbrev card : Nic
card = record { nic_ok = true; tx_cur = 1; rx_offset = 0; my_mac = mac_zero; my_ip = sender }

abbrev bound : Sockets
bound = record { port = 68; cb = 1; used = true } ∷ []

abbrev datagram : IpSend
datagram = record { dest = receiver; proto = 17; payload = udp_hdr 67 68 2 ++ (5 ∷ 6 ∷ []) }

datagram-sent : udp_send receiver 68 67 (5 ∷ 6 ∷ []) ≡ some datagram
unfolding udp_send
datagram-sent = refl

frame_calls-udp_send_example :
    (sent : Sent) × ((eth_send card mac_broadcast eth_type_ipv4
        (ipv4_packet 7 17 sender receiver datagram.payload)).1
      ≡ some sent)
    × (frame_calls bound receiver (bytes_at sent.frame) (length sent.frame)
        ≡ map (call_for sender 67 (5 ∷ 6 ∷ [])) (listeners 68 bound))
frame_calls-udp_send_example =
    frame_calls-udp_send bound card mac_broadcast 7 sender receiver 68 67 (5 ∷ 6 ∷ []) datagram refl
      (omega arith) (omega arith) datagram-sent
