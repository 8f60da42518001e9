-- ===== src/Drivers/Examples.antt =====
-- A controller with two drives in memory, which follows the protocol of drivers/ata.c and ignores
-- everything but a read of its status while it is busy, and the witnesses of the drivers.
use chris_os.Base.{◌∙◌, ltb, not, ◌^◌, All-replicate, length-replicate, ◌∷◌, [], true, refl, ℕ}
use chris_os.Base.{zero, suc, ◌-◌, ◌<◌, ◌≡◌, ap, false, ◌++◌, arith, ◌==◌, if◌then◌else◌}
use chris_os.Base.{ne→==, length, replicate}
use chris_os.Base.Int.{pos}
use chris_os.Base.Word.{bit}
use chris_os.Drivers.Ata.Protocol.{Channel, IsQuiet, IsAta, IsReady, Phase, idle, sending}
use chris_os.Drivers.Ata.Protocol.{receiving, IsShown, Sectors, put_sector, selected}
use chris_os.Drivers.Ata.Protocol.{addressed}
use chris_os.Drivers.Mouse.{Screen, Mouse, mouse_handler}
use chris_os.Drivers.Mouse.Laws.{IsMouse, inside, mouse_handler-IsMouse}
use chris_os.Drivers.Ports.{Ports}

pub record Machine : Type 0 where
  pub disks : Sectors
  pub registers : ℕ → ℕ
  pub at : Phase
  pub delay : ℕ

-- BSY alone, or DRDY with DRQ when data are to be moved.
abbrev status_of : ℕ → Phase → ℕ
status_of zero idle = 0x40
status_of zero (sending ws) = 0x48
status_of zero (receiving ws) = 0x48
status_of (suc delay) p = 0x80

abbrev take_command : ℕ → Machine → Phase
take_command v m =
    if not (bit 6 (m.registers 0x1f6))
    then idle
    else if v == 0x20
    then sending (m.disks (selected m.registers) (addressed m.registers))
    else if v == 0x30
    then receiving []
    else idle

abbrev next_word : Phase → ℕ × Phase
next_word idle = (0, idle)
next_word (sending []) = (0, idle)
next_word (sending (w ∷ ws)) = (w, if length ws == 0 then idle else sending ws)
next_word (receiving ws) = (0, receiving ws)

abbrev give_word : ℕ → Machine → Phase → Machine
give_word v m idle = record m { delay = 3 }
give_word v m (sending ws) = record m { delay = 3 }
give_word v m (receiving ws) = record {
  disks =
      if length ws == 255
      then put_sector m.disks (selected m.registers) (addressed m.registers) (ws ++ (v ∷ []))
      else m.disks;
  registers = m.registers;
  at = if length ws == 255 then idle else receiving (ws ++ (v ∷ []));
  delay = if length ws == 255 then 3 else 0;
}

abbrev pub machine_ports : Ports Machine
machine_ports = record {
  inb = λ port m.
      if port == 0x1f7
      then (status_of m.delay m.at, record m { delay = m.delay - 1 })
      else (m.registers port, m);
  outb = λ port v m.
      if ltb 0 m.delay
      then m
      else if port == 0x1f7
      then record m { at = take_command v m; delay = 3 }
      else record m { registers = λ q. if q == port then v else m.registers q };
  inw = λ port m.
      if ltb 0 m.delay
      then (0xffff, m)
      else ((next_word m.at).0, record m { at = (next_word m.at).1 });
  outw = λ port v m. if ltb 0 m.delay then m else give_word v m m.at;
}

abbrev pub machine_channel : Channel Machine
machine_channel = record {
  sectors = λ m. m.disks;
  register = λ m. m.registers;
  phase = λ m. m.at;
  busy = λ m. m.delay;
}

status_of-busy : (delay : ℕ) (p : Phase) → 0 < delay → status_of delay p ≡ 0x80
status_of-busy zero p h = absurd (omega arith)
status_of-busy (suc delay) p h = refl

status_of-IsShown : (delay : ℕ) (p : Phase) → delay ≡ 0 → IsShown p (status_of delay p)
unfolding IsShown
status_of-IsShown zero idle h = refl
status_of-IsShown zero (sending ws) h = (refl, refl)
status_of-IsShown zero (receiving ws) h = (refl, refl)
status_of-IsShown (suc delay) p h = absurd (omega arith)

give_word-delay : (v : ℕ) (m : Machine) (p : Phase) → (give_word v m p).delay < 4
give_word-delay v m idle = omega arith
give_word-delay v m (sending ws) = omega arith
give_word-delay v m (receiving ws) = ground arith

-- Not busy, it looks at what it is told.
free_now : (m : Machine) → m.delay ≡ 0 → ltb 0 m.delay ≡ false
free_now m h = ground arith

give_word-registers : (v : ℕ) (m : Machine) (p : Phase) → (give_word v m p).registers ≡ m.registers
give_word-registers v m idle = refl
give_word-registers v m (sending ws) = refl
give_word-registers v m (receiving ws) = refl

abbrev outside : (port : ℕ) → port < 0x1f7 → (port == 0x1f7) ≡ false
outside port h = ne→== port 0x1f7 (ground arith)

pub machine-IsAta : IsAta machine_ports machine_channel
machine-IsAta = record {
  status_sectors = λ s. refl;
  status_register = λ s. refl;
  status_phase = λ s. refl;
  status_busy = λ s. refl;
  status_waits = λ s h. rw (status_of-busy s.delay s.at h) refl;
  status_shows = λ s h. status_of-IsShown s.delay s.at h;
  register_set = λ port v s f a b q. rw (free_now s f.done, outside port a) refl;
  register_sectors = λ port v s f a b. rw (free_now s f.done, outside port a) refl;
  register_free = λ port v s f a b.
      rw (free_now s f.done, outside port a) (record { waits = f.waits; done = f.done });
  command_sectors = λ v s f. rw (free_now s f.done) refl;
  command_register = λ v s f. rw (free_now s f.done) refl;
  command_busy = λ v s f. rw (free_now s f.done) (omega arith);
  command_read = λ s f m k. rw (free_now s f.done, m) refl;
  command_write = λ s f m k. rw (free_now s f.done, m) refl;
  read_word = λ s w ws d h. rw (free_now s d) (ap (λ p. (next_word p).0) h);
  read_next = λ s w ws d h. rw (free_now s d) (ap (λ p. (next_word p).1) h);
  read_sectors = λ s w ws d h. rw (free_now s d) refl;
  read_busy = λ s w ws d h. rw (free_now s d) d;
  write_next = λ s v ws d h. rw (free_now s d) (ap (λ p. (give_word v s p).at) h);
  write_register = λ s v ws d h. rw (free_now s d) (give_word-registers v s s.at);
  write_sectors = λ s v ws d h. rw (free_now s d) (ap (λ p. (give_word v s p).disks) h);
  write_more = λ s v ws d h k.
      rw (free_now s d)
        (ap (λ p. (give_word v s p).delay) h ∙ rw (ne→== (length ws) 255 (ground arith)) refl);
  write_busy = λ s v ws d h. rw (free_now s d) (omega (arith, give_word-delay v s s.at));
}

pub machine-IsQuiet : IsQuiet machine_ports machine_channel
machine-IsQuiet = record {
  no_error = λ s h. rw (status_of-busy s.delay s.at h) refl;
  no_request = λ s h. rw (status_of-busy s.delay s.at h) refl;
}

-- Two drives, the first full of ones and the second of zeros.
abbrev pub machine : Machine
machine = record {
  disks = λ drive lba. replicate 256 (1 - drive);
  registers = λ port. 0;
  at = idle;
  delay = 0;
}

pub machine-IsReady : IsReady machine_channel machine
machine-IsReady = record {
  waits = refl;
  soon = omega arith;
  whole = λ d l. length-replicate 256 (1 - d);
  words = λ d l. All-replicate (λ w. w < 2 ^ 16) 256 (1 - d) (omega arith);
}

abbrev screen : Screen
screen = record { fb_active = true; fb_width = 1024; fb_height = 768 }

-- Two bytes of a packet to the left have come.
abbrev at_edge : Mouse
at_edge = record {
  mouse_x = pos 3;
  mouse_y = pos 700;
  mouse_b = 0;
  last_dx = pos 0;
  last_dy = pos 0;
  mouse_cycle = 2;
  mouse_byte = 0x18 ∷ 0xf0 ∷ 0 ∷ [];
}

at_edge-IsMouse : IsMouse screen at_edge
at_edge-IsMouse = record {
  cycle = omega arith;
  bytes = refl;
  x_in = λ a. inside 3 (omega arith);
  y_in = λ a. inside 700 (omega arith);
}

mouse_handler-IsMouse_example : IsMouse screen (mouse_handler screen 5 at_edge).0
mouse_handler-IsMouse_example =
    mouse_handler-IsMouse screen 5 at_edge (omega arith) (omega arith) at_edge-IsMouse
