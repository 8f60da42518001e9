-- ===== src/Net/Tcp/Examples.antt =====
-- The connections of net/tcp.c at concrete sockets and segments.
use chris_os.Base.{ℕ, ◌<◌, ◌≡◌, refl, some, List, [], ◌∷◌, ◌++◌, arith, length, replicate}
use chris_os.Base.{length-replicate, All}
use chris_os.Base.Word.{u32}
use chris_os.Net.Tcp.{Segment, Tcp, TcpSocket, closed, established, flag_ack, header_of}
use chris_os.Net.Tcp.{on_established, tcp_handle, tcp_open, tcp_send_flags}
use chris_os.Net.Tcp.Calls.{drain, tcp_close, tcp_connect, tcp_recv}
use chris_os.Net.Tcp.Ring.{IsRing, contents}
use chris_os.Net.Tcp.Rings.{Session, start, opened, connected, taken, closing, Session-IsRing}
use chris_os.Net.Tcp.States.{AllMoved, tcp_handle-AllMoved}
use chris_os.Net.Tcp.Transfer.{IsSocket, drain-transfer, segment, transfer}
use chris_os.Net.Types.{bytes_at, Ip, ip}
use chris_os.Net.Udp.{IpSend}

abbrev host_a : Ip
host_a = ip 10 0 2 15

abbrev host_b : Ip
host_b = ip 10 0 2 2

-- An established socket whose ring has its indices at an offset near its end.
abbrev peer : ℕ → TcpSocket
peer seq = record {
  remote_ip = host_b;
  remote_port = 80;
  local_port = 49152;
  seq = seq;
  ack = 1000;
  state = established;
  rx_buf = replicate 4096 0;
  rx_head = 4095;
  rx_tail = 4095;
}

peer-IsRing : (seq : ℕ) → IsRing (peer seq)
peer-IsRing seq = record {
  size = length-replicate {A = ℕ} 4096 0;
  head_in = omega arith;
  tail_in = omega arith;
}

peer-IsSocket : IsSocket (peer 7)
peer-IsSocket = record {
  local_16 = omega arith;
  remote_16 = omega arith;
  seq_32 = omega arith;
  ack_32 = omega arith;
}

abbrev text : List ℕ
text = 72 ∷ 105 ∷ []

abbrev two_sockets : Tcp
two_sockets = record {
  sockets = record (peer 7) { state = closed } ∷ peer 7 ∷ [];
  next_port = 49153;
  my_ip = host_a;
}

two_sockets-IsRing : All IsRing two_sockets.sockets
two_sockets-IsRing = (
  record { size = length-replicate {A = ℕ} 4096 0; head_in = omega arith; tail_in = omega arith },
  (peer-IsRing 7, tt),
)

abbrev from_b : Segment
from_b = segment host_b (tcp_send_flags host_b (peer 9) flag_ack text)

tcp_handle-AllMoved_example : AllMoved two_sockets.sockets (tcp_handle two_sockets from_b).0.sockets
tcp_handle-AllMoved_example = tcp_handle-AllMoved two_sockets from_b two_sockets-IsRing

abbrev made_ready : List TcpSocket
made_ready =
    record (peer 0xABCD1234) { state = closed; ack = 0; rx_head = 0; rx_tail = 0 } ∷ peer 7 ∷ []

tcp_open_first : tcp_open two_sockets.sockets ≡ some (0, made_ready)
unfolding tcp_open
tcp_open_first = refl

-- A socket is opened and connected, reads, and is closed, while a segment arrives.
abbrev ready_sockets : Tcp
ready_sockets = record two_sockets { sockets = made_ready }

abbrev connected_sockets : Tcp
connected_sockets = (tcp_connect ready_sockets 0 host_b 80 ((from_b ∷ []) ∷ [])).1

abbrev read_sockets : Tcp
read_sockets = (tcp_recv connected_sockets 1 100 ((from_b ∷ []) ∷ [])).1

abbrev session : Session two_sockets (tcp_close read_sockets 1).0
session = closing 1 (
    taken 1 100 ((from_b ∷ []) ∷ [])
      (connected 0 host_b 80 ((from_b ∷ []) ∷ []) (opened start tcp_open_first)))

Session-IsRing_example : All IsRing (tcp_close read_sockets 1).0.sockets
Session-IsRing_example = Session-IsRing session two_sockets-IsRing

abbrev after : TcpSocket × List IpSend
after =
    on_established host_a
      (header_of (segment host_b (tcp_send_flags host_b (peer 7) flag_ack text))) (peer 7)

transfer_example :
    (contents after.0 ≡ contents (peer 7) ++ text)
    × IsRing after.0
    × ((answer : IpSend) × (after.1 ≡ answer ∷ [])
        × (answer.dest ≡ host_b)
        × (header_of (segment host_a answer) ≡ record {
          src = host_a;
          src_port = 49152;
          dst_port = 80;
          flags = 16;
          seq = 7;
          ack = u32 9;
          content = bytes_at [];
          dlen = 0;
        }))
transfer_example =
    transfer host_b host_a (peer 7) (peer 7) text peer-IsSocket peer-IsSocket (peer-IsRing 7)
      (omega arith) (omega arith) (omega arith)

drain-transfer_example : (drain 100 after.0).0 ≡ text
drain-transfer_example =
    drain-transfer host_b host_a (peer 7) (peer 7) text 100 peer-IsSocket (peer-IsRing 7)
      (omega arith) (omega arith) refl (omega arith)

abbrev long : List ℕ
long = replicate 2000 65

length-long : 1440 < length long
length-long = rw (length-replicate {A = ℕ} 2000 65) (omega arith)
