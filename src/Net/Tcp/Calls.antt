-- ===== src/Net/Tcp/Calls.antt =====
-- The operations of net/tcp.c that its clients call on a socket: connect, send, receive and close.
use chris_os.Base.{ℕ, zero, suc, ◌+◌, ◌%◌, Bool, Option, none, some, List, [], ◌∷◌, ◌++◌, ◌==◌}
use chris_os.Base.{if◌then◌else◌, length, get_or, set}
use chris_os.Base.Word.{u16, u32}
use chris_os.Net.Tcp.{closed, syn_sent, TcpSocket, Tcp, Segment, is_syn_sent, is_established}
use chris_os.Net.Tcp.{flag_syn, flag_ack, flag_fin, rx_size, tcp_send_flags, poll_round}
use chris_os.Net.Types.{Ip, ip}
use chris_os.Net.Udp.{IpSend}

-- A socket of an untouched table.
abbrev pub no_socket : TcpSocket
no_socket = record {
  remote_ip = ip 0 0 0 0;
  remote_port = 0;
  local_port = 0;
  seq = 0;
  ack = 0;
  state = closed;
  rx_buf = [];
  rx_head = 0;
  rx_tail = 0;
}

abbrev pub socket : Tcp → ℕ → TcpSocket
socket t i = get_or t.sockets i no_socket

abbrev pub put_socket : Tcp → ℕ → TcpSocket → Tcp
put_socket t i s = record t { sockets = set t.sockets i s }

-- `while (... && s->state == TCP_STATE_SYN_SENT) eth_poll()`
unfoldable pub wait_connect : ℕ → Tcp → List (List Segment) → Tcp × List IpSend
wait_connect i t [] = (t, [])
wait_connect i t (r ∷ rs) =
    let now = poll_round t r in
    let rest = wait_connect i now.0 rs in
    if is_syn_sent (socket t i).state then (rest.0, now.1 ++ rest.1) else (t, [])

-- The socket when its SYN goes out.
unfoldable pub connecting : Tcp → ℕ → Ip → ℕ → TcpSocket
connecting t i dest port = record (socket t i) {
  remote_ip = dest;
  remote_port = port;
  local_port = t.next_port;
  state = syn_sent;
}

-- `true` is the result 0, `false` the result -1.
unfoldable pub tcp_connect : Tcp → ℕ → Ip → ℕ → List (List Segment) → Bool × Tcp × List IpSend
tcp_connect t i dest port rounds =
    let s = connecting t i dest port in
    let syn = tcp_send_flags t.my_ip s flag_syn [] in
    let t' =
      put_socket (record t { next_port = u16 (t.next_port + 1) }) i
        (record s { seq = u32 (s.seq + 1) }) in
    let waited = wait_connect i t' rounds in
    (is_established (socket waited.0 i).state, waited.0, syn ∷ waited.1)

-- The result is the length given, or `none` for -1.
unfoldable pub tcp_send : Tcp → ℕ → List ℕ → Option ℕ × Tcp × List IpSend
tcp_send t i content =
    let s = socket t i in
    let s' : TcpSocket = record s { seq = u32 (s.seq + length content) } in
    if is_established s.state
    then (some (length content), put_socket t i s', tcp_send_flags t.my_ip s flag_ack content ∷ [])
    else (none, t, [])

-- `while (... && s->rx_head == s->rx_tail) eth_poll()`
unfoldable pub wait_data : ℕ → Tcp → List (List Segment) → Tcp × List IpSend
wait_data i t [] = (t, [])
wait_data i t (r ∷ rs) =
    let now = poll_round t r in
    let rest = wait_data i now.0 rs in
    if (socket t i).rx_head == (socket t i).rx_tail then (rest.0, now.1 ++ rest.1) else (t, [])

-- The copying loop of `tcp_recv` with room for `n` bytes more: the bytes taken, and the socket.
unfoldable pub drain : ℕ → TcpSocket → List ℕ × TcpSocket
drain zero s = ([], s)
drain (suc n) s =
    let rest = drain n (record s { rx_tail = u16 ((s.rx_tail + 1) % rx_size) }) in
    if s.rx_head == s.rx_tail then ([], s) else (get_or s.rx_buf s.rx_tail 0 ∷ rest.0, rest.1)

unfoldable pub tcp_recv : Tcp → ℕ → ℕ → List (List Segment) → List ℕ × Tcp × List IpSend
tcp_recv t i max_len rounds =
    let waited = wait_data i t rounds in
    let drained = drain max_len (socket waited.0 i) in
    (drained.0, put_socket waited.0 i drained.1, waited.1)

unfoldable pub tcp_close : Tcp → ℕ → Tcp × List IpSend
tcp_close t i =
    let s = socket t i in
    let fin = tcp_send_flags t.my_ip s (flag_fin + flag_ack) [] in
    (put_socket t i (record s { state = closed }), if is_established s.state then fin ∷ [] else [])
