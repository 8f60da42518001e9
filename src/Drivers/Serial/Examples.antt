-- ===== src/Drivers/Serial/Examples.antt =====
-- The serial port of drivers/serial.c with a transmitter that is busy for two reads of its status
-- and loses what is written meanwhile.
use chris_os.Base.{ℕ, ◌-◌, ◌≤◌, ◌≡◌, refl, ◌++◌, List, [], ◌∷◌, some, arith, ◌==◌}
use chris_os.Base.{if◌then◌else◌}
use chris_os.Drivers.Ports.{Ports}
use chris_os.Drivers.Serial.{com1, serial_write}
use chris_os.Drivers.Serial.Laws.{IsUart, Uart, serial_write-sent}

-- What has been sent, and for how long the port is busy.
abbrev Line : Type 0
Line = List ℕ × ℕ

abbrev line_ports : Ports Line
line_ports = record {
  inb = λ port s. (if s.1 == 0 then 0x20 else 0, (s.0, s.1 - 1));
  outb = λ port v s. if port == com1 then (if s.1 == 0 then (s.0 ++ (v ∷ []), 2) else s) else s;
  inw = λ port s. (0, s);
  outw = λ port v s. s;
}

abbrev line : Uart Line
line = record { sent = λ s. s.0; busy = λ s. s.1 }

line-IsUart : IsUart line_ports line 2
line-IsUart = record {
  status_sent = λ s. refl;
  status_busy = λ s. refl;
  status_waits = λ s h. ground arith;
  status_ready = λ s h. ground arith;
  send_sent = λ c s h. ground arith;
  send_busy = λ c s h. ground arith;
}

serial_write-sent_example :
    (t : Line) × (serial_write line_ports 3 (79 ∷ 75 ∷ []) ([], 0) ≡ some t)
    × (t.0 ≡ [] ++ (79 ∷ 75 ∷ []))
    × (t.1 ≤ 2)
serial_write-sent_example =
    serial_write-sent line-IsUart 3 (79 ∷ 75 ∷ []) ([], 0) (omega arith) (omega arith)
