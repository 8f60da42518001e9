-- ===== src/Net/Tcp/Ring.antt =====
-- The receive ring of a socket of net/tcp.c as a queue of bytes.
use chris_os.Base.{ℕ, zero, suc, ◌+◌, ◌-◌, ◌%◌, ◌<◌, ◌≡◌, refl, sym, ap, ap₂, ◌∙◌, inl, inr}
use chris_os.Base.{List, [], ◌∷◌, ◌++◌, arith, ◌==◌, Bool-cases, length, get_or, set, take}
use chris_os.Base.{drop, length-set, get_or-set_self, get_or-set_ne}
use chris_os.Base.Word.{u16, Memory}
use mathlib.Core.List.{append-nil, append_assoc}
use chris_os.Net.Tcp.{TcpSocket, rx_size, rx_store}
use chris_os.Net.Tcp.Calls.{drain}
use chris_os.Net.Types.{bytes_at}

-- The indices of the ring are inside its buffer.
pub record IsRing (s : TcpSocket) : Type 0 where
  pub size : length s.rx_buf ≡ 4096
  pub head_in : s.rx_head < 4096
  pub tail_in : s.rx_tail < 4096

-- The number of bytes that wait in the ring.
abbrev pub unread : TcpSocket → ℕ
unread s = (s.rx_head + 4096 - s.rx_tail) % 4096

-- `n` bytes of the buffer from index `t` on, going round at its end.
abbrev pub window : List ℕ → ℕ → ℕ → List ℕ
window buf t zero = []
window buf t (suc n) = get_or buf t 0 ∷ window buf ((t + 1) % 4096) n

abbrev pub contents : TcpSocket → List ℕ
contents s = window s.rx_buf s.rx_tail (unread s)

-- `n` bytes of memory from offset `j` on.
abbrev pub read : Memory → ℕ → ℕ → List ℕ
read p zero j = []
read p (suc n) j = p j ∷ read p n (j + 1)

window-set :
    (buf : List ℕ) (x n t i : ℕ)
    → length buf ≡ 4096
    → t < 4096
    → n < 4096
    → i ≡ (t + n) % 4096
    → window (set buf i x) t (suc n) ≡ window buf t n ++ (x ∷ [])
window-set buf x zero t i size ht hn e =
    let here : i ≡ t = omega arith in rw (here, get_or-set_self buf t x 0 (omega arith)) refl
window-set buf x (suc n) t i size ht hn e =
    ap₂ ◌∷◌ (get_or-set_ne buf i t x 0 (λ same. omega arith))
      (window-set buf x n ((t + 1) % 4096) i size (omega arith) (omega arith) (omega arith))

-- One byte that fits goes to the end of the queue.
push-contents :
    (s : TcpSocket) (x : ℕ)
    → IsRing s
    → unread s < 4095
    → contents
        (record s { rx_buf = set s.rx_buf s.rx_head x; rx_head = u16 ((s.rx_head + 1) % rx_size) })
      ≡ contents s ++ (x ∷ [])
push-contents s x r room =
    let grown : (u16 ((s.rx_head + 1) % rx_size) + 4096 - s.rx_tail) % 4096 ≡ suc (unread s) =
      omega (arith, r.head_in, r.tail_in) in
    rw grown (
      window-set s.rx_buf x (unread s) s.rx_tail s.rx_head r.size r.tail_in (omega arith)
        (omega (arith, r.head_in, r.tail_in)))

-- What storing a segment's bytes leaves.
pub record Stored (s : TcpSocket) (bytes : List ℕ) (s' : TcpSocket) : Type 0 where
  pub ring : IsRing s'
  pub queue : contents s' ≡ contents s ++ bytes
  pub count : unread s' ≡ unread s + length bytes

-- Bytes that fit into the ring, which holds 4095 at most, go to the end of the queue in order.
pub rx_store-Stored :
    (p : Memory) (n j : ℕ) (s : TcpSocket)
    → IsRing s
    → unread s + n < 4096
    → Stored s (read p n j) (rx_store p n j s)
unfolding rx_store
rx_store-Stored p zero j s r fits = record {
  ring = r;
  queue = sym (append-nil (contents s));
  count = omega arith;
}
rx_store-Stored p (suc n) j s r fits =
    let s1 : TcpSocket = record s {
      rx_buf = set s.rx_buf s.rx_head (p j);
      rx_head = u16 ((s.rx_head + 1) % rx_size);
    } in
    let r1 : IsRing s1 = record {
      size = length-set s.rx_buf s.rx_head (p j) ∙ r.size;
      head_in = omega arith;
      tail_in = r.tail_in;
    } in
    let count1 : unread s1 ≡ suc (unread s) = omega (arith, r.head_in, r.tail_in) in
    let rest = rx_store-Stored p n (j + 1) s1 r1 (omega (arith, count1)) in
    record {
      ring = rest.ring;
      queue =
          rest.queue
          ∙ (ap (λ c. c ++ read p n (j + 1)) (push-contents s (p j) r (omega arith))
              ∙ append_assoc (contents s) (p j ∷ []) (read p n (j + 1)));
      count = omega (arith, rest.count, count1);
    }

-- What draining the ring with room for `n` bytes leaves.
pub record Drained (s : TcpSocket) (n : ℕ) (bytes : List ℕ) (s' : TcpSocket) : Type 0 where
  pub ring : IsRing s'
  pub taken : bytes ≡ take n (contents s)
  pub left : contents s' ≡ drop n (contents s)

window-step :
    (buf : List ℕ) (t k : ℕ)
    → 0 < k
    → window buf t k ≡ get_or buf t 0 ∷ window buf ((t + 1) % 4096) (k - 1)
window-step buf t zero h = absurd (omega arith)
window-step buf t (suc k) h = ap (λ m. get_or buf t 0 ∷ window buf ((t + 1) % 4096) m) (omega arith)

-- The loop of `tcp_recv` takes the first bytes of the queue, as many as there are and there is room
-- for, and leaves the others.
pub drain-Drained : (n : ℕ) (s : TcpSocket) → IsRing s → Drained s n (drain n s).0 (drain n s).1
unfolding drain
drain-Drained zero s r = record { ring = r; taken = refl; left = refl }
drain-Drained (suc n) s r = elim (Bool-cases (s.rx_head == s.rx_tail)) [
  | inl e ↦
      let none_left : unread s ≡ 0 = ground (arith, r.head_in, r.tail_in) in
      rw e (record { ring = r; taken = rw none_left refl; left = rw none_left refl })
  | inr e ↦
      let s1 : TcpSocket = record s { rx_tail = u16 ((s.rx_tail + 1) % rx_size) } in
      let r1 : IsRing s1 = record { size = r.size; head_in = r.head_in; tail_in = omega arith } in
      let some_left : 0 < unread s = ground (arith, r.head_in, r.tail_in) in
      let next : u16 ((s.rx_tail + 1) % rx_size) ≡ (s.rx_tail + 1) % 4096 = omega arith in
      let fewer : unread s1 ≡ unread s - 1 = omega (arith, some_left, r.head_in, r.tail_in) in
      let step : contents s ≡ get_or s.rx_buf s.rx_tail 0 ∷ contents s1 =
        window-step s.rx_buf s.rx_tail (unread s) some_left ∙ rw (fewer, next) refl in
      let rest = drain-Drained n s1 r1 in
      rw e (record {
        ring = rest.ring;
        taken = rw step (ap (λ t. get_or s.rx_buf s.rx_tail 0 ∷ t) rest.taken);
        left = rw step rest.left;
      })
]

read_ext : (p q : Memory) (n j k : ℕ) → ((i : ℕ) → p (j + i) ≡ q (k + i)) → read p n j ≡ read q n k
read_ext p q zero j k h = refl
read_ext p q (suc n) j k h =
    ap₂ ◌∷◌ (ap p (omega arith) ∙ (h 0 ∙ ap q (omega arith)))
      (read_ext p q n (j + 1) (k + 1) (λ i. ap p (omega arith) ∙ (h (1 + i) ∙ ap q (omega arith))))

-- Reading an array from its start gives its elements.
pub read-bytes_at : (xs : List ℕ) → read (bytes_at xs) (length xs) 0 ≡ xs
read-bytes_at [] = refl
read-bytes_at (x ∷ xs) =
    let shifted : (i : ℕ) → bytes_at (x ∷ xs) (0 + 1 + i) ≡ bytes_at xs (0 + i) =
      λ i. let e : 0 + 1 + i ≡ suc (0 + i) = omega arith in ap (bytes_at (x ∷ xs)) e in
    ap (λ t. x ∷ t)
      (read_ext (bytes_at (x ∷ xs)) (bytes_at xs) (length xs) (0 + 1) 0 shifted ∙ read-bytes_at xs)

pub ack-rx_store : (p : Memory) (n j : ℕ) (s : TcpSocket) → (rx_store p n j s).ack ≡ s.ack
unfolding rx_store
ack-rx_store p zero j s = refl
ack-rx_store p (suc n) j s =
    ack-rx_store p n (j + 1) (record s {
      rx_buf = set s.rx_buf s.rx_head (p j);
      rx_head = u16 ((s.rx_head + 1) % rx_size);
    })
