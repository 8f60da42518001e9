-- ===== src/Drivers/Ports.antt =====
-- The x86 instructions `inb`, `outb`, `inw` and `outw`, which the drivers reach the hardware with.
-- What stands behind the ports is a parameter: a state and what each instruction does to it.
use chris_os.Base.{ℕ}

pub record Ports (S : Type 0) : Type 0 where
  pub inb : ℕ → S → ℕ × S
  pub outb : ℕ → ℕ → S → S
  pub inw : ℕ → S → ℕ × S
  pub outw : ℕ → ℕ → S → S
