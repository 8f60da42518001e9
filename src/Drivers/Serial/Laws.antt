-- ===== src/Drivers/Serial/Laws.antt =====
-- Texts through the serial port of drivers/serial.c.
use chris_os.Base.{ℕ, zero, suc, ◌+◌, ◌-◌, ◌≤◌, ◌<◌, ◌≡◌, refl, sym, ap, ◌∙◌, inl, inr, true}
use chris_os.Base.{false, ltb, Bool-cases, Option, some, List, [], ◌∷◌, ◌++◌, arith}
use chris_os.Base.Word.{bit}
use mathlib.Core.List.{append-nil, append_assoc}
use chris_os.Drivers.Ports.{Ports}
use chris_os.Drivers.Serial.{com1, serial_putchar, serial_write}

-- What the port has sent, and for how many reads of its status it is busy still.
pub record Uart (S : Type 0) : Type 0 where
  pub sent : S → List ℕ
  pub busy : S → ℕ

-- A port whose transmitter is empty again after at most `limit` reads of the status. A character is
-- taken only by an empty transmitter: nothing is said of a write while it is busy.
pub record IsUart {S : Type 0} (ports : Ports S) (u : Uart S) (limit : ℕ) : Type 0 where
  pub status_sent : (s : S) → u.sent (ports.inb (com1 + 5) s).1 ≡ u.sent s
  pub status_busy : (s : S) → u.busy (ports.inb (com1 + 5) s).1 ≡ u.busy s - 1
  pub status_waits : (s : S) → 0 < u.busy s → bit 5 (ports.inb (com1 + 5) s).0 ≡ false
  pub status_ready : (s : S) → u.busy s ≡ 0 → bit 5 (ports.inb (com1 + 5) s).0 ≡ true
  pub send_sent :
      (c : ℕ) (s : S) → u.busy s ≡ 0 → u.sent (ports.outb com1 c s) ≡ u.sent s ++ (c ∷ [])
  pub send_busy : (c : ℕ) (s : S) → u.busy s ≡ 0 → u.busy (ports.outb com1 c s) ≤ limit

module _ {S : Type 0} {ports : Ports S} {u : Uart S} {limit : ℕ} (laws : IsUart ports u limit) where
  -- A character has gone out behind the ones before.
  HasSent : List ℕ → S → Option S → Type 0
  HasSent cs s r = (t : S) × (r ≡ some t) × (u.sent t ≡ u.sent s ++ cs) × (u.busy t ≤ limit)

  serial_putchar-HasSent :
      (fuel c : ℕ) (s : S) → u.busy s < fuel → HasSent (c ∷ []) s (serial_putchar ports fuel c s)
  unfolding serial_putchar HasSent
  serial_putchar-HasSent zero c s h = absurd (omega arith)
  serial_putchar-HasSent (suc fuel) c s h =
      let t = (ports.inb (com1 + 5) s).1 in
      let less = laws.status_busy s in
      elim (Bool-cases (ltb 0 (u.busy s))) [
        | inl e ↦
            let pending : 0 < u.busy s = ground (arith, e) in
            let rest = serial_putchar-HasSent fuel c t (omega arith) in
            rw (serial_putchar, laws.status_waits s pending)
              (rest.0, rest.1, rest.2 ∙ ap (λ x. x ++ (c ∷ [])) (laws.status_sent s), rest.3)
        | inr e ↦
            let idle : u.busy s ≡ 0 = ground (arith, e) in
            let empty : u.busy t ≡ 0 = omega arith in
            rw (serial_putchar, laws.status_ready s idle)
              (
                ports.outb com1 c t,
                refl,
                laws.send_sent c t empty ∙ ap (λ x. x ++ (c ∷ [])) (laws.status_sent s),
                laws.send_busy c t empty,
              )
      ]

  -- On a port that is never busy for as many reads of its status as there is fuel for each
  -- character, every text goes out completely and in order, behind what has gone out before.
  pub serial_write-sent :
      (fuel : ℕ) (cs : List ℕ) (s : S)
      → limit < fuel
      → u.busy s ≤ limit
      → (t : S) × (serial_write ports fuel cs s ≡ some t)
        × (u.sent t ≡ u.sent s ++ cs)
        × (u.busy t ≤ limit)
  unfolding serial_write HasSent
  serial_write-sent fuel [] s h hs = (s, refl, sym (append-nil (u.sent s)), hs)
  serial_write-sent fuel (c ∷ cs) s h hs =
      let first = serial_putchar-HasSent fuel c s (omega arith) in
      let rest = serial_write-sent fuel cs first.0 h first.3 in
      (
        rest.0,
        rw (serial_write, first.1) rest.1,
        rest.2 ∙ (ap (λ x. x ++ cs) first.2 ∙ append_assoc (u.sent s) (c ∷ []) cs),
        rest.3,
      )
