-- ===== src/Drivers/Mouse.antt =====
-- drivers/mouse.c: the bytes of the PS/2 mouse, three of which make a packet, and the handshake with
-- the controller. `mouse_tick` is in Ui.Pointer. That the coordinates wrap at 2^31 while no screen
-- limits them is not modelled.
pub mod Laws
use chris_os.Base.{ℕ, zero, suc, ◌+◌, ◌-◌, ◌*◌, ◌/◌, ◌%◌, ◌^◌, ◌≤◌, ◌<◌, min, bit_and, ◌≡◌}
use chris_os.Base.{refl, sym, ap, ap₂, ◌∙◌, ◌≢◌, ◌↔◌, ◌⊎◌, inl, inr, Bool, true, false, not}
use chris_os.Base.{◌&&◌, ◌||◌, Option, none, some, List, [], ◌∷◌, ◌++◌, map, arith, ◌==◌, ltb}
use chris_os.Base.{leb, if◌then◌else◌, eq→==, ne→==, ==→eq, lt→ltb, le→ltb, Bool-cases}
use chris_os.Base.{Option-cases, length, get_or, set, take, drop, replicate, length-append}
use chris_os.Base.{length-set, length-replicate, get_or-set_self, get_or-set_ne, All}
use chris_os.Base.Int.{ℤ, pos, negsuc, pos_part, neg_part, sub_ℕ}
use chris_os.Base.Word.{u8, bit, bit_or}
use chris_os.Drivers.Ports.{Ports}

pub record Screen : Type 0 where
  pub fb_active : Bool
  pub fb_width : ℕ
  pub fb_height : ℕ

pub record Mouse : Type 0 where
  pub mouse_x : ℤ
  pub mouse_y : ℤ
  pub mouse_b : ℕ
  pub last_dx : ℤ
  pub last_dy : ℤ
  pub mouse_cycle : ℕ
  pub mouse_byte : List ℕ

-- The movement of one axis: `dx |= 0xFFFFFF00` when the sign bit is set.
unfoldable pub delta : Bool → ℕ → ℤ
delta sign d = if sign then sub_ℕ d 256 else pos d

unfoldable pub add_ℤ : ℤ → ℤ → ℤ
add_ℤ a b = sub_ℕ (pos_part a + pos_part b) (neg_part a + neg_part b)

unfoldable pub sub_ℤ : ℤ → ℤ → ℤ
sub_ℤ a b = sub_ℕ (pos_part a + neg_part b) (neg_part a + pos_part b)

-- Not below 0, and then not at or above `limit`.
unfoldable pub clamp : ℕ → ℤ → ℤ
clamp limit (pos n) = if leb limit n then sub_ℕ limit 1 else pos n
clamp limit (negsuc n) = if leb limit 0 then sub_ℕ limit 1 else pos 0

-- Whether the point is on the button of the taskbar that starts the installer: `y >= sh - 36 + 4` and
-- `y <= sh - 36 + 4 + 28`.
unfoldable pub on_button : Screen → ℤ → ℤ → Bool
on_button screen x y =
    leb (4 + neg_part x) (pos_part x)
    && (leb (pos_part x) (76 + neg_part x)
        && (leb (screen.fb_height + neg_part y) (pos_part y + 32)
            && leb (pos_part y + 4) (screen.fb_height + neg_part y)))

-- A packet is complete. The flag is the call of `installer_start`.
unfoldable pub packet : Screen → ℕ → ℕ → ℕ → Mouse → Mouse × Bool
unfolding delta add_ℤ sub_ℤ clamp on_button
packet screen b0 b1 b2 m =
    let dx = delta (bit 4 b0) b1 in
    let dy = delta (bit 5 b0) b2 in
    let x = add_ℤ m.mouse_x dx in
    let y = sub_ℤ m.mouse_y dy in
    let buttons = b0 % 2 ^ 3 in
    let cx = clamp screen.fb_width x in
    let cy = clamp screen.fb_height y in
    let moved = record m { mouse_cycle = 0; mouse_b = buttons; last_dx = dx; last_dy = dy } in
    if screen.fb_active
    then (
      record moved { mouse_x = cx; mouse_y = cy },
      bit 0 buttons && (not (bit 0 m.mouse_b) && on_button screen cx cy),
    )
    else (record moved { mouse_x = x; mouse_y = y }, false)

-- `d` is the byte that the controller has.
unfoldable pub mouse_handler : Screen → ℕ → Mouse → Mouse × Bool
unfolding packet
mouse_handler screen d m =
    let bytes = set m.mouse_byte m.mouse_cycle d in
    let kept : Mouse = record m { mouse_byte = bytes; mouse_cycle = u8 (m.mouse_cycle + 1) } in
    if m.mouse_cycle == 0 && (not (bit 3 d) || d == 0xfa)
    then (m, false)
    else if u8 (m.mouse_cycle + 1) == 3
    then packet screen (get_or bytes 0 0) (get_or bytes 1 0) (get_or bytes 2 0) kept
    else (kept, false)

module _ {S : Type 0} (ports : Ports S) where
  -- The two loops of `mouse_wait`, which both give up after 100000 rounds.
  unfoldable pub wait_full : ℕ → S → S
  wait_full zero s = s
  wait_full (suc timeout) s =
      let (status, t) = ports.inb 0x64 s in
      elim (bit 0 status) [ true ↦ t | false ↦ wait_full timeout t ]

  unfoldable pub wait_empty : ℕ → S → S
  wait_empty zero s = s
  wait_empty (suc timeout) s =
      let (status, t) = ports.inb 0x64 s in
      elim (bit 1 status) [ false ↦ t | true ↦ wait_empty timeout t ]

  unfoldable pub mouse_wait : ℕ → S → S
  unfolding wait_full wait_empty
  mouse_wait a_type s = if a_type == 0 then wait_full 100000 s else wait_empty 100000 s

  unfoldable pub mouse_write : ℕ → S → S
  mouse_write v s =
      let s = ports.outb 0x64 0xd4 (mouse_wait 1 s) in ports.outb 0x60 v (mouse_wait 1 s)

  unfoldable pub mouse_read : S → ℕ × S
  mouse_read s = ports.inb 0x60 (mouse_wait 0 s)

  -- What `mouse_init` does behind the loop that empties the output buffer: the hardware, and whether
  -- the handler has been installed.
  unfoldable pub enable_mouse : S → Bool × S
  unfolding mouse_write mouse_read
  enable_mouse s =
      let (status, s) = ports.inb 0x64 (mouse_wait 1 s) in
      elim (bit 1 status) [
        | true ↦ (false, s)
        | false ↦
            let s = ports.outb 0x64 0xa8 s in
            let s = ports.outb 0x64 0x20 (mouse_wait 1 s) in
            let (command, s) = mouse_read s in
            let with_interrupt = bit_or command 2 in
            let enabled = if bit 5 with_interrupt then with_interrupt - 2 ^ 5 else with_interrupt in
            let s = ports.outb 0x64 0x60 (mouse_wait 1 s) in
            let s = ports.outb 0x60 enabled (mouse_wait 1 s) in
            let (ack, s) = mouse_read (mouse_write 0xf6 s) in
            elim (ack == 0xfa) [
              | false ↦ (false, s)
              | true ↦ let (ack, s) = mouse_read (mouse_write 0xf4 s) in (ack == 0xfa, s)
            ]
      ]
