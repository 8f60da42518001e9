-- ===== src/Net/Dhcp/Laws.antt =====
-- The parser of net/dhcp.c stays inside what it has received, and the exchange sets the address only
-- by an acknowledgement.
use chris_os.Base.{ℕ, zero, suc, ◌+◌, ◌≤◌, ◌<◌, ◌≡◌, refl, ◌≢◌, ◌⊎◌, inl, inr, true, false}
use chris_os.Base.{none, List, [], ◌∷◌, arith, Bool-cases}
use chris_os.Base.Word.{Memory}
use chris_os.Net.Dhcp.{Dhcp, Datagram, walk, on_message, dhcp_rx}
use chris_os.Net.Dhcp.{poll_round, wait_offer, wait_ack, dhcp_request}

-- The walk over the options ends on every input: a unit of fuel for each byte that is left, and one
-- more, is enough.
pub walk-ne-none : (p : Memory) (n fuel i m : ℕ) → i ≤ n → n < fuel + i → walk p n fuel i m ≢ none
unfolding walk
walk-ne-none p n zero i m inside h = absurd (omega arith)
walk-ne-none p n (suc fuel) i m inside h = ground (
  arith,
  walk-ne-none p n fuel (i + 1) m,
  walk-ne-none p n fuel (i + 2 + p (i + 1)) m,
  walk-ne-none p n fuel (i + 2 + p (i + 1)) (p (i + 2)),
)

-- Two memories that hold the same first `n` bytes.
abbrev pub Agree : ℕ → Memory → Memory → Type 0
Agree n p q = (i : ℕ) → i < n → p i ≡ q i

-- What a datagram may do to the client: it sets the address only together with `got_ack`.
pub record Kept (d e : Dhcp) : Type 0 where
  pub xid : e.xid ≡ d.xid
  pub acked : (e.got_ack ≡ true) ⊎ ((e.got_ack ≡ d.got_ack) × (e.my_ip ≡ d.my_ip))

dhcp_rx-Kept : (d : Dhcp) (g : Datagram) → Kept d (dhcp_rx d g)
unfolding dhcp_rx on_message
dhcp_rx-Kept d g = ground arith

Kept-trans : {d e f : Dhcp} → Kept d e → Kept e f → Kept d f
Kept-trans k l = ground arith

poll_round-Kept : (d : Dhcp) (gs : List Datagram) → Kept d (poll_round d gs)
unfolding poll_round
poll_round-Kept d [] = record { xid = refl; acked = inr (refl, refl) }
poll_round-Kept d (g ∷ gs) = Kept-trans (dhcp_rx-Kept d g) (poll_round-Kept (dhcp_rx d g) gs)

wait_offer-Kept : (d : Dhcp) (rounds : List (List Datagram)) → Kept d (wait_offer d rounds)
unfolding wait_offer
wait_offer-Kept d [] = record { xid = refl; acked = inr (refl, refl) }
wait_offer-Kept d (r ∷ rs) = elim (Bool-cases d.got_offer) [
  | inl y ↦ simp y (record { xid = refl; acked = inr (refl, refl) })
  | inr n ↦ simp n (Kept-trans (poll_round-Kept d r) (wait_offer-Kept (poll_round d r) rs))
]

wait_ack-Kept : (d : Dhcp) (rounds : List (List Datagram)) → Kept d (wait_ack d rounds)
unfolding wait_ack
wait_ack-Kept d [] = record { xid = refl; acked = inr (refl, refl) }
wait_ack-Kept d (r ∷ rs) = elim (Bool-cases d.got_ack) [
  | inl y ↦ simp y (record { xid = refl; acked = inr (refl, refl) })
  | inr n ↦ simp n (Kept-trans (poll_round-Kept d r) (wait_ack-Kept (poll_round d r) rs))
]

-- The exchange, whatever datagrams arrive while it waits: the transaction number stays, the address
-- of the host is as before unless an acknowledgement has come, and a success means that one has.
pub dhcp_request_lem :
    (d : Dhcp) (before after : List (List Datagram))
    → let (success, e, out) = dhcp_request d before after in
      (e.xid ≡ d.xid) × ((e.got_ack ≡ true) ⊎ ((e.my_ip ≡ d.my_ip) × (success ≡ false)))
unfolding dhcp_request
dhcp_request_lem d before after =
    let d1 : Dhcp = record d { got_offer = false; got_ack = false } in
    let k = wait_offer-Kept d1 before in
    let l = wait_ack-Kept (wait_offer d1 before) after in
    ground (arith, k.xid, k.acked, l.xid, l.acked)
