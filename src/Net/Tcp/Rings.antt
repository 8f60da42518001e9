-- ===== src/Net/Tcp/Rings.antt =====
-- What an application does with the sockets of net/tcp.c, in any order, keeps their rings.
use chris_os.Base.{Option, none, Option-cases, arith, some, ◌≡◌, ℕ, ◌+◌, inl, inr, List, []}
use chris_os.Base.{◌∷◌, ◌==◌, Bool-cases, length, set, All, All-set}
use chris_os.Base.Word.{u32}
use mathlib.Core.Path.{subst}
use chris_os.Net.Tcp.{is_closed, tcp_open, closed, TcpSocket, Tcp, Segment, is_syn_sent}
use chris_os.Net.Tcp.{is_established, tcp_handle, poll_round}
use chris_os.Net.Tcp.Calls.{no_socket, socket, wait_connect, connecting, tcp_connect, tcp_send}
use chris_os.Net.Tcp.Calls.{wait_data, drain, tcp_recv, tcp_close}
use chris_os.Net.Tcp.Ring.{IsRing, drain-Drained}
use chris_os.Net.Tcp.States.{AllMoved, tcp_handle-AllMoved}
use chris_os.Net.Types.{Ip}

AllMoved-IsRing : (ss ts : List TcpSocket) → AllMoved ss ts → All IsRing ts
AllMoved-IsRing [] [] m = tt
AllMoved-IsRing [] (t ∷ ts) m = absurd m
AllMoved-IsRing (s ∷ ss) [] m = absurd m
AllMoved-IsRing (s ∷ ss) (t ∷ ts) m = (m.0.ring, AllMoved-IsRing ss ts m.1)

tcp_handle-IsRing :
    (t : Tcp) (g : Segment) → All IsRing t.sockets → All IsRing (tcp_handle t g).0.sockets
tcp_handle-IsRing t g r =
    AllMoved-IsRing t.sockets (tcp_handle t g).0.sockets (tcp_handle-AllMoved t g r)

poll_round-IsRing :
    (t : Tcp) (gs : List Segment) → All IsRing t.sockets → All IsRing (poll_round t gs).0.sockets
unfolding poll_round
poll_round-IsRing t [] r = r
poll_round-IsRing t (g ∷ gs) r = poll_round-IsRing (tcp_handle t g).0 gs (tcp_handle-IsRing t g r)

wait_connect-IsRing :
    (i : ℕ) (t : Tcp) (rounds : List (List Segment))
    → All IsRing t.sockets
    → All IsRing (wait_connect i t rounds).0.sockets
unfolding wait_connect
wait_connect-IsRing i t [] r = r
wait_connect-IsRing i t (g ∷ gs) r = elim (Bool-cases (is_syn_sent (socket t i).state)) [
  | inl y ↦ rw y (wait_connect-IsRing i (poll_round t g).0 gs (poll_round-IsRing t g r))
  | inr n ↦ rw n r
]

wait_data-IsRing :
    (i : ℕ) (t : Tcp) (rounds : List (List Segment))
    → All IsRing t.sockets
    → All IsRing (wait_data i t rounds).0.sockets
unfolding wait_data
wait_data-IsRing i t [] r = r
wait_data-IsRing i t (g ∷ gs) r = elim (Bool-cases ((socket t i).rx_head == (socket t i).rx_tail)) [
  | inl y ↦ rw y (wait_data-IsRing i (poll_round t g).0 gs (poll_round-IsRing t g r))
  | inr n ↦ rw n r
]

put-IsRing :
    (t : Tcp) (i : ℕ) (s : TcpSocket)
    → All IsRing t.sockets
    → (IsRing (socket t i) → IsRing s)
    → All IsRing (set t.sockets i s)
put-IsRing t i s r f = All-set IsRing t.sockets i s no_socket r f

calls-IsRing :
    (t : Tcp) (i : ℕ) (dest : Ip) (port max_len : ℕ) (content : List ℕ)
    (rounds : List (List Segment))
    → All IsRing t.sockets
    → All IsRing (tcp_connect t i dest port rounds).1.sockets
      × All IsRing (tcp_send t i content).1.sockets
      × All IsRing (tcp_recv t i max_len rounds).1.sockets
      × All IsRing (tcp_close t i).0.sockets
unfolding tcp_connect tcp_send tcp_recv tcp_close connecting
calls-IsRing t i dest port max_len content rounds r = (
  wait_connect-IsRing i _ rounds (
      put-IsRing t i _ r (λ h. record { size = h.size; head_in = h.head_in; tail_in = h.tail_in })),
  sent,
  put-IsRing (wait_data i t rounds).0 i (drain max_len (socket (wait_data i t rounds).0 i)).1
      (wait_data-IsRing i t rounds r)
      (λ h. (drain-Drained max_len (socket (wait_data i t rounds).0 i) h).ring),
  put-IsRing t i (record (socket t i) { state = closed }) r
      (λ h. record { size = h.size; head_in = h.head_in; tail_in = h.tail_in }),
)
  where
    sent : All IsRing (tcp_send t i content).1.sockets
    sent = elim (Bool-cases (is_established (socket t i).state)) [
      | inl y ↦ simp y (
          put-IsRing t i (record (socket t i) { seq = u32 ((socket t i).seq + length content) }) r
            (λ h. record { size = h.size; head_in = h.head_in; tail_in = h.tail_in }))
      | inr n ↦ simp n r
    ]

-- The table behind an attempt to open a socket.
abbrev table_after : List TcpSocket → Option (ℕ × List TcpSocket) → List TcpSocket
table_after ss none = ss
table_after ss (some r) = r.1

table_after-IsRing :
    (ss : List TcpSocket) → All IsRing ss → All IsRing (table_after ss (tcp_open ss))
unfolding tcp_open
table_after-IsRing [] r = tt
table_after-IsRing (s ∷ ss) r =
    let rest = table_after-IsRing ss r.1 in
    elim (Bool-cases (is_closed s.state)) [
      | inl y ↦ rw y (record { size = r.0.size; head_in = omega arith; tail_in = omega arith }, r.1)
      | inr n ↦ rw n (elim (Option-cases (tcp_open ss)) [
        | inl e ↦ rw e r
        | inr o ↦ rw o.1 (r.0, subst (λ x. All IsRing (table_after ss x)) o.1 rest)
      ])
    ]

tcp_open-IsRing :
    (ss ts : List TcpSocket) (i : ℕ) → tcp_open ss ≡ some (i, ts) → All IsRing ss → All IsRing ts
tcp_open-IsRing ss ts i e r = subst (λ x. All IsRing (table_after ss x)) e (table_after-IsRing ss r)

-- What happens to the table of the sockets between two moments: an application opens, connects,
-- writes, reads or closes a socket, or a segment arrives, any number of times and in any order.
pub data Session : Tcp → Tcp → Type 0 where
  start : {t : Tcp} → Session t t
  opened :
      {t u : Tcp} {i : ℕ} {ss : List TcpSocket}
      → Session t u
      → tcp_open u.sockets ≡ some (i, ss)
      → Session t (record u { sockets = ss })
  connected :
      {t u : Tcp} (i : ℕ) (dest : Ip) (port : ℕ) (rounds : List (List Segment))
      → Session t u
      → Session t (tcp_connect u i dest port rounds).1
  written :
      {t u : Tcp} (i : ℕ) (content : List ℕ) → Session t u → Session t (tcp_send u i content).1
  taken :
      {t u : Tcp} (i max_len : ℕ) (rounds : List (List Segment))
      → Session t u
      → Session t (tcp_recv u i max_len rounds).1
  closing : {t u : Tcp} (i : ℕ) → Session t u → Session t (tcp_close u i).0
  arrived : {t u : Tcp} (g : Segment) → Session t u → Session t (tcp_handle u g).0

-- Whatever applications do with the sockets and whatever segments arrive, in any order and while
-- they wait as well, the indices of every ring stay inside its buffer of 4096 bytes.
pub Session-IsRing : {t u : Tcp} → Session t u → All IsRing t.sockets → All IsRing u.sockets
Session-IsRing start r = r
Session-IsRing (opened {u = u} s e) r = tcp_open-IsRing u.sockets _ _ e (Session-IsRing s r)
Session-IsRing (connected {u = u} i dest port rounds s) r =
    (calls-IsRing u i dest port 0 [] rounds (Session-IsRing s r)).0
Session-IsRing (written {u = u} i content s) r =
    (calls-IsRing u i u.my_ip 0 0 content [] (Session-IsRing s r)).1
Session-IsRing (taken {u = u} i max_len rounds s) r =
    (calls-IsRing u i u.my_ip 0 max_len [] rounds (Session-IsRing s r)).2
Session-IsRing (closing {u = u} i s) r = (calls-IsRing u i u.my_ip 0 0 [] [] (Session-IsRing s r)).3
Session-IsRing (arrived {u = u} g s) r = tcp_handle-IsRing u g (Session-IsRing s r)
