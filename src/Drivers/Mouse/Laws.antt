-- ===== src/Drivers/Mouse/Laws.antt =====
-- The packets of drivers/mouse.c: the bytes stay in step, and the pointer stays on the screen.
use chris_os.Base.{if_lem, ℕ, ◌+◌, ◌-◌, ◌<◌, ◌≡◌, refl, ◌∙◌, inl, inr, Bool, true, false, not}
use chris_os.Base.{◌&&◌, ◌||◌, arith, ◌==◌, leb, if◌then◌else◌, eq→==, Bool-cases, length}
use chris_os.Base.{get_or, set, length-set}
use chris_os.Base.Int.{ℤ, pos, negsuc, sub_ℕ}
use chris_os.Base.Word.{u8, bit}
use chris_os.Drivers.Mouse.{Screen, Mouse, clamp, delta, add_ℤ, sub_ℤ, packet, mouse_handler}

-- A coordinate on a screen of this size.
pub data IsInside (limit : ℕ) : ℤ → Type 0 where
  inside : (n : ℕ) → n < limit → IsInside limit (pos n)

clamp-IsInside : (limit : ℕ) (x : ℤ) → 0 < limit → IsInside limit (clamp limit x)
unfolding clamp
clamp-IsInside limit (pos n) h =
    if_lem (IsInside limit) (leb limit n) (sub_ℕ limit 1) (pos n)
      (λ e.
        if_lem (IsInside limit) (leb 1 limit) (pos (limit - 1)) (negsuc (1 - limit - 1))
          (λ k. inside (limit - 1) (omega arith)) (λ k. absurd (ground (arith, k, h))))
      (λ e. inside n (ground (arith, e)))
clamp-IsInside limit (negsuc n) h =
    if_lem (IsInside limit) (leb limit 0) (sub_ℕ limit 1) (pos 0)
      (λ e. absurd (ground (arith, e, h))) (λ e. inside 0 h)

-- The bytes of a packet that has begun, and on an active screen a pointer that is on it.
pub record IsMouse (screen : Screen) (m : Mouse) : Type 0 where
  pub cycle : m.mouse_cycle < 3
  pub bytes : length m.mouse_byte ≡ 3
  pub x_in : screen.fb_active ≡ true → IsInside screen.fb_width m.mouse_x
  pub y_in : screen.fb_active ≡ true → IsInside screen.fb_height m.mouse_y

packet-IsMouse :
    (screen : Screen) (b0 b1 b2 : ℕ) (m : Mouse)
    → 0 < screen.fb_width
    → 0 < screen.fb_height
    → length m.mouse_byte ≡ 3
    → IsMouse screen (packet screen b0 b1 b2 m).0
unfolding packet
packet-IsMouse screen b0 b1 b2 m hw hh h = elim (Bool-cases screen.fb_active) [
  | inl e ↦
      rw (packet, e)
        (record {
          cycle = omega arith;
          bytes = h;
          x_in = λ a. clamp-IsInside screen.fb_width (add_ℤ m.mouse_x (delta (bit 4 b0) b1)) hw;
          y_in = λ a. clamp-IsInside screen.fb_height (sub_ℤ m.mouse_y (delta (bit 5 b0) b2)) hh;
        })
  | inr e ↦
      rw (packet, e)
        (record {
          cycle = omega arith;
          bytes = h;
          x_in = λ a. absurd (ground (arith, a, e));
          y_in = λ a. absurd (ground (arith, a, e));
        })
]

-- After any byte, less than a packet is waiting, and on an active screen that is not empty the
-- pointer is on it.
pub mouse_handler-IsMouse :
    (screen : Screen) (d : ℕ) (m : Mouse)
    → 0 < screen.fb_width
    → 0 < screen.fb_height
    → IsMouse screen m
    → IsMouse screen (mouse_handler screen d m).0
unfolding mouse_handler
mouse_handler-IsMouse screen d m hw hh v =
    let bytes = set m.mouse_byte m.mouse_cycle d in
    let kept : Mouse = record m { mouse_byte = bytes; mouse_cycle = u8 (m.mouse_cycle + 1) } in
    let sized = length-set m.mouse_byte m.mouse_cycle d ∙ v.bytes in
    let full : Mouse × Bool =
      packet screen (get_or bytes 0 0) (get_or bytes 1 0) (get_or bytes 2 0) kept in
    let next : Mouse × Bool = if u8 (m.mouse_cycle + 1) == 3 then full else (kept, false) in
    let cycle_in = v.cycle in
    if_lem (λ r. IsMouse screen r.0) (m.mouse_cycle == 0 && (not (bit 3 d) || d == 0xfa)) (m, false)
      next (λ e. v)
      (λ e.
        if_lem (λ r. IsMouse screen r.0) (u8 (m.mouse_cycle + 1) == 3) full (kept, false)
          (λ k.
            packet-IsMouse screen (get_or bytes 0 0) (get_or bytes 1 0) (get_or bytes 2 0) kept hw
              hh sized)
          (λ k. record {
            cycle = ground (arith, k, cycle_in);
            bytes = sized;
            x_in = v.x_in;
            y_in = v.y_in;
          }))

-- In step, a byte that cannot begin a packet is dropped.
pub mouse_handler-resync :
    (screen : Screen) (d : ℕ) (m : Mouse)
    → m.mouse_cycle ≡ 0
    → bit 3 d ≡ false
    → mouse_handler screen d m ≡ (m, false)
unfolding mouse_handler
mouse_handler-resync screen d m z b = rw (mouse_handler, eq→== m.mouse_cycle 0 z, b) refl
