-- ===== src/Net/Tcp/States.antt =====
-- The state machine of net/tcp.c: which moves a received segment can cause, and what every operation
-- keeps of the sockets.
use chris_os.Base.{ℕ, zero, suc, ◌+◌, ◌*◌, ◌/◌, ◌%◌, ◌≡◌, refl, ◌∙◌, inl, inr, Bool, true}
use chris_os.Base.{false, not, ◌&&◌, ◌||◌, List, [], ◌∷◌, arith, ◌==◌, ltb, Bool-cases, set}
use chris_os.Base.{length-set, All}
use chris_os.Base.Word.{bit, u16, u32, Memory, u8}
use chris_os.Net.Tcp.{TcpState, closed, syn_sent, established, fin_wait, TcpSocket, Tcp}
use chris_os.Net.Tcp.{Segment, Header, header_of, is_closed, is_syn_sent, is_established}
use chris_os.Net.Tcp.{rx_size, rx_store, on_syn_sent, on_established, dispatch, tcp_handle}
use chris_os.Net.Tcp.Ring.{IsRing}
use chris_os.Net.Types.{Ip}

-- The moves that a segment may cause: a handshake ends, or a connection is closed by the peer.
abbrev pub allowed : TcpState → TcpState → Bool
allowed closed closed = true
allowed syn_sent syn_sent = true
allowed syn_sent established = true
allowed established established = true
allowed established closed = true
allowed fin_wait fin_wait = true
allowed _ _ = false

-- What a segment does to one socket.
pub record Moved (s t : TcpSocket) : Type 0 where
  pub move : allowed s.state t.state ≡ true
  pub port : t.local_port ≡ s.local_port
  pub ring : IsRing t

abbrev pub AllMoved : List TcpSocket → List TcpSocket → Type 0
AllMoved [] [] = Unit
AllMoved [] (t ∷ ts) = ⊥
AllMoved (s ∷ ss) [] = ⊥
AllMoved (s ∷ ss) (t ∷ ts) = Moved s t × AllMoved ss ts

same_allowed : (x : TcpState) → allowed x x ≡ true
same_allowed closed = refl
same_allowed syn_sent = refl
same_allowed established = refl
same_allowed fin_wait = refl

Moved-refl : (s : TcpSocket) → IsRing s → Moved s s
Moved-refl s r = record { move = same_allowed s.state; port = refl; ring = r }

AllMoved-refl : (ss : List TcpSocket) → All IsRing ss → AllMoved ss ss
AllMoved-refl [] r = tt
AllMoved-refl (s ∷ ss) r = (Moved-refl s r.0, AllMoved-refl ss r.1)

-- Storing bytes leaves all but the ring alone, however many they are.
record Kept (s t : TcpSocket) : Type 0 where
  ring : IsRing t
  state : t.state ≡ s.state
  port : t.local_port ≡ s.local_port

rx_store-Kept : (p : Memory) (n j : ℕ) (s : TcpSocket) → IsRing s → Kept s (rx_store p n j s)
unfolding rx_store
rx_store-Kept p zero j s r = record { ring = r; state = refl; port = refl }
rx_store-Kept p (suc n) j s r =
    let k =
      rx_store-Kept p n (j + 1)
        (record s {
          rx_buf = set s.rx_buf s.rx_head (p j);
          rx_head = u16 ((s.rx_head + 1) % rx_size);
        })
        (record {
          size = length-set s.rx_buf s.rx_head (p j) ∙ r.size;
          head_in = omega arith;
          tail_in = r.tail_in;
        }) in
    record { ring = k.ring; state = k.state; port = k.port }

opens : (x : TcpState) → is_syn_sent x ≡ true → allowed x established ≡ true
opens closed e = cc
opens syn_sent e = refl
opens established e = cc
opens fin_wait e = cc

closes : (x : TcpState) → is_established x ≡ true → allowed x closed ≡ true
closes closed e = cc
closes syn_sent e = cc
closes established e = refl
closes fin_wait e = cc

on_syn_sent-Moved :
    (me : Ip) (h : Header) (s : TcpSocket)
    → is_syn_sent s.state ≡ true
    → IsRing s
    → Moved s (on_syn_sent me h s).0
unfolding on_syn_sent
on_syn_sent-Moved me h s e r = elim (Bool-cases (bit 1 h.flags && bit 4 h.flags)) [
  | inl y ↦ rw y (record {
    move = opens s.state e;
    port = refl;
    ring = record { size = r.size; head_in = r.head_in; tail_in = r.tail_in };
  })
  | inr n ↦ rw n (Moved-refl s r)
]

same-IsRing :
    (s : TcpSocket) (a : ℕ) (x : TcpState) → IsRing s → IsRing (record s { ack = a; state = x })
same-IsRing s a x r = record { size = r.size; head_in = r.head_in; tail_in = r.tail_in }

on_established-Moved :
    (me : Ip) (h : Header) (s : TcpSocket)
    → is_established s.state ≡ true
    → IsRing s
    → Moved s (on_established me h s).0
unfolding on_established
on_established-Moved me h s e r = elim (Bool-cases (bit 2 h.flags)) [
  | inl reset ↦
      rw reset
        (record { move = closes s.state e; port = refl; ring = same-IsRing s s.ack closed r })
  | inr no_reset ↦ rw no_reset (elim (Bool-cases (bit 0 h.flags)) [
    | inl fin ↦ rw fin (record {
      move = closes s.state e;
      port = refl;
      ring = same-IsRing s (u32 (h.seq + 1)) closed r;
    })
    | inr no_fin ↦ rw no_fin (elim (Bool-cases (ltb 0 h.dlen)) [
      | inl full ↦
          let k =
            rx_store-Kept h.content h.dlen 0 (record s { ack = u32 (h.seq + h.dlen) })
              (same-IsRing s (u32 (h.seq + h.dlen)) s.state r) in
          rw full
            (record { move = rw (k.state) (same_allowed s.state); port = k.port; ring = k.ring })
      | inr empty ↦ rw empty (Moved-refl s r)
    ])
  ])
]

dispatch-AllMoved :
    (me : Ip) (h : Header) (ss : List TcpSocket) → All IsRing ss → AllMoved ss (dispatch me h ss).0
unfolding dispatch
dispatch-AllMoved me h [] r = tt
dispatch-AllMoved me h (s ∷ ss) r =
    let skipped : AllMoved (s ∷ ss) (s ∷ (dispatch me h ss).0) =
      (Moved-refl s r.0, dispatch-AllMoved me h ss r.1) in
    elim (Bool-cases (is_closed s.state)) [
      | inl c ↦ rw (c, dispatch) skipped
      | inr c ↦
          rw (c, dispatch)
            (elim (Bool-cases (not (s.local_port == h.dst_port))) [
              | inl p ↦ rw p skipped
              | inr p ↦ rw p (elim (Bool-cases (is_syn_sent s.state)) [
                | inl y ↦ rw y (on_syn_sent-Moved me h s y r.0, AllMoved-refl ss r.1)
                | inr y ↦ rw y (elim (Bool-cases (is_established s.state)) [
                  | inl w ↦ rw w (on_established-Moved me h s w r.0, AllMoved-refl ss r.1)
                  | inr w ↦ rw w skipped
                ])
              ])
            ])
    ]

-- When the indices of every ring are inside its buffer, any segment whatever moves every socket
-- along the state machine or leaves it where it is: from SYN_SENT to ESTABLISHED, from ESTABLISHED
-- to CLOSED, and no other way. In particular no segment opens a closed socket, and none leads to
-- FIN_WAIT. No socket changes its port, and the indices of every ring stay inside its buffer.
pub tcp_handle-AllMoved :
    (t : Tcp) (g : Segment) → All IsRing t.sockets → AllMoved t.sockets (tcp_handle t g).0.sockets
unfolding tcp_handle
tcp_handle-AllMoved t g r =
    let off = u8 (g.payload 12 / 16 * 4) in
    elim (Bool-cases (ltb g.len 20)) [
      | inl short ↦ rw short (AllMoved-refl t.sockets r)
      | inr long ↦ rw long (elim (Bool-cases (ltb off 20 || ltb g.len off)) [
        | inl bad ↦ rw bad (AllMoved-refl t.sockets r)
        | inr good ↦ rw good (dispatch-AllMoved t.my_ip (header_of g) t.sockets r)
      ])
    ]
