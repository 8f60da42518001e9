-- ===== src/Net/Tcp/Open.antt =====
-- What tcp_open of net/tcp.c does not do: reserve the socket that it hands out.
use chris_os.Base.{ℕ, ◌+◌, ◌≡◌, refl, inl, inr, false, Option, none, some, List, [], ◌∷◌}
use chris_os.Base.{Bool-cases}
use mathlib.Core.Path.{subst}
use chris_os.Net.Tcp.{TcpSocket, is_closed, tcp_open}

abbrev Twice : Option (ℕ × List TcpSocket) → Type 0
Twice none = Unit
Twice (some (i, ts)) = tcp_open ts ≡ some (i, ts)

keep-Twice :
    (s : TcpSocket) (r : Option (ℕ × List TcpSocket))
    → is_closed s.state ≡ false
    → Twice r
    → Twice (elim r [ some (i, t) ↦ some (i + 1, s ∷ t) | none ↦ none ])
unfolding tcp_open
keep-Twice s none e w = tt
keep-Twice s (some (i, t)) e w = rw (e, w) refl

tcp_open-Twice : (ss : List TcpSocket) → Twice (tcp_open ss)
unfolding tcp_open
tcp_open-Twice [] = tt
tcp_open-Twice (s ∷ ss) = elim (Bool-cases (is_closed s.state)) [
  | inl c ↦ simp c refl
  | inr c ↦ rw c (keep-Twice s (tcp_open ss) c (tcp_open-Twice ss))
]

-- Opening does not reserve the socket: opening again with nothing in between hands out the same
-- socket and changes nothing.
pub tcp_open_twice :
    (ss : List TcpSocket) {i : ℕ} {ts : List TcpSocket}
    → tcp_open ss ≡ some (i, ts)
    → tcp_open ts ≡ some (i, ts)
tcp_open_twice ss {i} {ts} e = subst Twice e (tcp_open-Twice ss)
