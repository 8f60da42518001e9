-- ===== src/Kernel/Interrupts.antt =====
-- kernel/idt.c, kernel/isr.c and kernel/irq.c: the table of interrupt gates and the dispatch of the
-- hardware's interrupts. The entry points are labels of the assembly code and so arguments: their
-- addresses by number. A handler is its address, 0 if there is none.
pub mod Laws
use chris_os.Base.{ℕ, zero, suc, ◌+◌, ◌-◌, ◌*◌, ◌/◌, ◌%◌, ◌^◌, ◌≤◌, ◌<◌, min, bit_and, ◌≡◌}
use chris_os.Base.{refl, sym, ap, ap₂, ◌∙◌, ◌≢◌, ◌↔◌, ◌⊎◌, inl, inr, Bool, true, false, not}
use chris_os.Base.{◌&&◌, ◌||◌, Option, none, some, List, [], ◌∷◌, ◌++◌, map, arith, ◌==◌, ltb}
use chris_os.Base.{leb, if◌then◌else◌, eq→==, ne→==, ==→eq, lt→ltb, le→ltb, Bool-cases}
use chris_os.Base.{Option-cases, length, get_or, set, take, drop, replicate, length-append}
use chris_os.Base.{length-set, length-replicate, get_or-set_self, get_or-set_ne, All}
use chris_os.Base.Word.{u16}

pub record IdtEntry : Type 0 where
  pub base_low : ℕ
  pub selector : ℕ
  pub zeroed : ℕ
  pub flags : ℕ
  pub base_high : ℕ

abbrev pub Idt : Type 0
Idt = List IdtEntry

unfoldable pub gate : ℕ → ℕ → ℕ → IdtEntry
gate base selector flags = record {
  base_low = u16 base;
  selector = selector;
  zeroed = 0;
  flags = flags;
  base_high = u16 (base / 2 ^ 16);
}

unfoldable pub idt_set_entry : ℕ → ℕ → ℕ → ℕ → Idt → Idt
unfolding gate
idt_set_entry num base selector flags idt = set idt num (gate base selector flags)

-- The loop over the entries from the number `i` on.
unfoldable pub clear_entries : ℕ → ℕ → Idt → Idt
unfolding idt_set_entry
clear_entries zero i idt = idt
clear_entries (suc left) i idt = clear_entries left (i + 1) (idt_set_entry i 0 0 0 idt)

unfoldable pub idt_init : Idt → Idt
unfolding clear_entries
idt_init idt = clear_entries 256 0 idt

-- `count` gates in the kernel's code segment, from the vector `num` on, for the entry points from
-- the number `i` on.
unfoldable pub set_gates : ℕ → ℕ → ℕ → (ℕ → ℕ) → Idt → Idt
unfolding idt_set_entry
set_gates zero num i entry idt = idt
set_gates (suc count) num i entry idt =
    set_gates count (num + 1) (i + 1) entry (idt_set_entry num (entry i) 0x08 0x8e idt)

unfoldable pub isr_init : (ℕ → ℕ) → Idt → Idt
unfolding set_gates
isr_init isr idt = set_gates 16 0 0 isr idt

-- A write to a port of the interrupt controllers.
pub record PortWrite : Type 0 where
  pub port : ℕ
  pub value : ℕ

-- The two controllers are moved to the vectors 32 to 47, and then come the gates.
unfoldable pub irq_init : (ℕ → ℕ) → Idt → List PortWrite × Idt
unfolding set_gates
irq_init irq idt =
    let write : ℕ → ℕ → PortWrite = λ port value. record { port = port; value = value } in
    (
      write 0x20 0x11
          ∷ write 0x21 0x20
          ∷ write 0x21 0x04
          ∷ write 0x21 0x01
          ∷ write 0x21 0x00
          ∷ write 0xa0 0x11
          ∷ write 0xa1 0x28
          ∷ write 0xa1 0x02
          ∷ write 0xa1 0x01
          ∷ write 0xa1 0x00
          ∷ [],
      set_gates 16 32 0 irq idt,
    )

abbrev pub Handlers : Type 0
Handlers = List ℕ

unfoldable pub irq_install_handler : ℕ → ℕ → Handlers → Handlers
irq_install_handler irq handler handlers = set handlers irq handler

unfoldable pub irq_uninstall_handler : ℕ → Handlers → Handlers
irq_uninstall_handler irq handlers = set handlers irq 0

-- The ends of interrupt that are written, and the handler that is called.
unfoldable pub irq_handler : ℕ → Handlers → List PortWrite × Option ℕ
irq_handler int_no handlers =
    let master = record { port = 0x20; value = 0x20 } ∷ [] in
    let slave = record { port = 0xa0; value = 0x20 } ∷ master in
    let handler = get_or handlers (int_no - 32) 0 in
    (if leb 40 int_no then slave else master, if handler == 0 then none else some handler)
