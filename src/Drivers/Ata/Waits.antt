-- ===== src/Drivers/Ata/Waits.antt =====
-- The loops of drivers/ata.c on the status, on a controller that follows the protocol.
use chris_os.Base.{ℕ, zero, suc, ◌<◌, ◌≡◌, refl, ◌∙◌, inl, inr, Bool, true, false, arith, ltb}
use chris_os.Base.{Bool-cases}
use chris_os.Base.Word.{bit}
use mathlib.Core.Path.{subst}
use chris_os.Drivers.Ata.{ata_wait_drq, ata_command, ata_timeout, ata_wait_bsy, wait_bsy}
use chris_os.Drivers.Ata.{wait_drq}
use chris_os.Drivers.Ata.Protocol.{IsQuiet, Channel, IsAta, IsReady, idle, IsShown}
use chris_os.Drivers.Ports.{Ports}

-- A loop has seen what it waits for, and nothing else has changed.
pub record Answers {S : Type 0} (c : Channel S) (s : S) (r : Bool × S) : Type 0 where
  pub answered : r.0 ≡ true
  pub sectors : c.sectors r.1 ≡ c.sectors s
  pub register : c.register r.1 ≡ c.register s
  pub phase : c.phase r.1 ≡ c.phase s
  pub busy : c.busy r.1 ≡ 0

module _ {S : Type 0} {ports : Ports S} {c : Channel S} (laws : IsAta ports c) where
  -- One more read of the status in front of a loop.
  later : (s : S) (r : Bool × S) → Answers c (ports.inb ata_command s).1 r → Answers c s r
  later s r h = record {
    answered = h.answered;
    sectors = h.sectors ∙ laws.status_sectors s;
    register = h.register ∙ laws.status_register s;
    phase = h.phase ∙ laws.status_phase s;
    busy = h.busy;
  }

  -- The read of the status that ends a loop.
  last : (s : S) → c.busy s ≡ 0 → Answers c s (true, (ports.inb ata_command s).1)
  last s h = record {
    answered = refl;
    sectors = laws.status_sectors s;
    register = laws.status_register s;
    phase = laws.status_phase s;
    busy = omega (arith, laws.status_busy s);
  }

  wait_bsy-Answers :
      (left : ℕ) (s : S) → c.phase s ≡ idle → c.busy s < left → Answers c s (wait_bsy ports left s)
  unfolding wait_bsy IsShown
  wait_bsy-Answers zero s h k = absurd (omega arith)
  wait_bsy-Answers (suc left) s h k =
      let t = (ports.inb ata_command s).1 in
      elim (Bool-cases (ltb 0 (c.busy s))) [
        | inl e ↦
            let pending : 0 < c.busy s = ground (arith, e) in
            rw (wait_bsy, laws.status_waits s pending)
              (later s (wait_bsy ports left t) (
                wait_bsy-Answers left t (laws.status_phase s ∙ h)
                  (omega (arith, laws.status_busy s))))
        | inr e ↦
            let none_left : c.busy s ≡ 0 = ground (arith, e) in
            let shown : bit 7 (ports.inb ata_command s).0 ≡ false =
              subst (λ p. IsShown p (ports.inb ata_command s).0) h
                (laws.status_shows s none_left) in
            rw (wait_bsy, shown) (last s none_left)
      ]

  -- Ready for a command, the controller lets the first loop go on.
  pub ata_wait_bsy-Answers : (s : S) → IsReady c s → Answers c s (ata_wait_bsy ports s)
  unfolding ata_wait_bsy
  ata_wait_bsy-Answers s h = wait_bsy-Answers ata_timeout s h.waits h.soon

module _ {S : Type 0} {ports : Ports S} {c : Channel S} (laws : IsAta ports c)
    (quiet : IsQuiet ports c) where
  -- The phase asks for data, so that the status shows a request once the controller is not busy.
  wait_drq-Answers :
      (left : ℕ) (s : S)
      → ((status : ℕ) → IsShown (c.phase s) status → (bit 0 status ≡ false) × (bit 3 status ≡ true))
      → c.busy s < left
      → Answers c s (wait_drq ports left s)
  unfolding wait_drq
  wait_drq-Answers zero s h k = absurd (omega arith)
  wait_drq-Answers (suc left) s h k =
      let t = (ports.inb ata_command s).1 in
      elim (Bool-cases (ltb 0 (c.busy s))) [
        | inl e ↦
            let pending : 0 < c.busy s = ground (arith, e) in
            let again : Answers c t (wait_drq ports left t) =
              wait_drq-Answers left t
                (λ status shown.
                  h status (subst (λ p. IsShown p status) (laws.status_phase s) shown))
                (omega (arith, laws.status_busy s)) in
            rw (wait_drq, quiet.no_error s pending, quiet.no_request s pending)
              (later laws s (wait_drq ports left t) again)
        | inr e ↦
            let none_left : c.busy s ≡ 0 = ground (arith, e) in
            let shown = h (ports.inb ata_command s).0 (laws.status_shows s none_left) in
            rw (wait_drq, shown.0, shown.1) (last laws s none_left)
      ]

  -- While data are to be moved, the second loop goes on too.
  pub ata_wait_drq-Answers :
      (s : S)
      → ((status : ℕ) → IsShown (c.phase s) status → (bit 0 status ≡ false) × (bit 3 status ≡ true))
      → c.busy s < ata_timeout
      → Answers c s (ata_wait_drq ports s)
  unfolding ata_wait_drq
  ata_wait_drq-Answers s h k = wait_drq-Answers ata_timeout s h k
