-- ===== src/Kernel/Interrupts/Laws.antt =====
-- The table of gates after the initialisation of the kernel, and the dispatch.
use chris_os.Base.{get_or-set, ℕ, zero, suc, ◌+◌, ◌-◌, ◌*◌, ◌^◌, ◌≤◌, ◌<◌, ◌≡◌, refl, ap, ◌∙◌}
use chris_os.Base.{◌≢◌, ◌⊎◌, inl, inr, some, arith, ◌==◌, if◌then◌else◌, ne→==, Bool-cases}
use chris_os.Base.{length, get_or, set, length-set, get_or-set_self, get_or-set_ne}
use mathlib.Core.Path.{subst}
use chris_os.Kernel.Interrupts.{IdtEntry, Idt, gate, idt_set_entry, clear_entries, idt_init}
use chris_os.Kernel.Interrupts.{set_gates, isr_init, irq_init, Handlers, irq_install_handler}
use chris_os.Kernel.Interrupts.{irq_handler}

-- The address that the processor takes from an entry.
unfoldable pub entry_base : IdtEntry → ℕ
entry_base e = e.base_low + e.base_high * 2 ^ 16

-- A 32-bit address survives its two halves.
pub entry_base-gate : (base s f : ℕ) → base < 2 ^ 32 → entry_base (gate base s f) ≡ base
unfolding entry_base gate
entry_base-gate base s f h = omega arith

abbrev pub no_gate : IdtEntry
no_gate = record { base_low = 0; selector = 0; zeroed = 0; flags = 0; base_high = 0 }

length-set_gates :
    (count num i : ℕ) (entry : ℕ → ℕ) (idt : Idt)
    → length (set_gates count num i entry idt) ≡ length idt
unfolding set_gates idt_set_entry
length-set_gates zero num i entry idt = refl
length-set_gates (suc count) num i entry idt =
    length-set_gates count (num + 1) (i + 1) entry (set idt num (gate (entry i) 0x08 0x8e))
    ∙ length-set idt num (gate (entry i) 0x08 0x8e)

length-clear_entries : (left i : ℕ) (idt : Idt) → length (clear_entries left i idt) ≡ length idt
unfolding clear_entries idt_set_entry
length-clear_entries zero i idt = refl
length-clear_entries (suc left) i idt =
    length-clear_entries left (i + 1) (set idt i (gate 0 0 0)) ∙ length-set idt i (gate 0 0 0)

-- The gates outside the range keep what they have.
set_gates-outside :
    (count num i v : ℕ) (entry : ℕ → ℕ) (idt : Idt)
    → (v < num) ⊎ (num + count ≤ v)
    → get_or (set_gates count num i entry idt) v no_gate ≡ get_or idt v no_gate
unfolding set_gates idt_set_entry
set_gates-outside zero num i v entry idt h = refl
set_gates-outside (suc count) num i v entry idt h =
    let g = gate (entry i) 0x08 0x8e in
    let ne : num ≢ v = ground (arith, h) in
    set_gates-outside count (num + 1) (i + 1) v entry (set idt num g) (ground (arith, h))
    ∙ get_or-set_ne idt num v g no_gate ne

-- A gate in the range has the entry point of its number.
set_gates-inside :
    (count num i k : ℕ) (entry : ℕ → ℕ) (idt : Idt)
    → k < count
    → num + count ≤ length idt
    → get_or (set_gates count num i entry idt) (num + k) no_gate ≡ gate (entry (i + k)) 0x08 0x8e
unfolding set_gates idt_set_entry
set_gates-inside zero num i k entry idt h l = absurd (omega arith)
set_gates-inside (suc count) num i zero entry idt h l =
    let g = gate (entry i) 0x08 0x8e in
    let a : num + 0 ≡ num = omega arith in
    let b : i + 0 ≡ i = omega arith in
    rw (a, b)
      (set_gates-outside count (num + 1) (i + 1) num entry (set idt num g) (inl (omega arith))
        ∙ get_or-set_self idt num g no_gate (omega arith))
set_gates-inside (suc count) num i (suc k) entry idt h l =
    let g = gate (entry i) 0x08 0x8e in
    let a : num + suc k ≡ num + 1 + k = omega arith in
    let b : i + suc k ≡ i + 1 + k = omega arith in
    let sized = length-set idt num g in
    rw (a, b)
      (set_gates-inside count (num + 1) (i + 1) k entry (set idt num g) (omega arith) (omega arith))

-- The table that the kernel starts with.
unfoldable pub booted : (ℕ → ℕ) → (ℕ → ℕ) → Idt → Idt
booted isr irq idt = (irq_init irq (isr_init isr (idt_init idt))).1

-- After the initialisation of the kernel, the sixteen exceptions and the sixteen hardware interrupts
-- each lead to their own entry point.
pub entry_base-booted :
    (isr irq : ℕ → ℕ) (idt : Idt) (k : ℕ)
    → length idt ≡ 256
    → ((i : ℕ) → isr i < 2 ^ 32)
    → ((i : ℕ) → irq i < 2 ^ 32)
    → k < 16
    → (entry_base (get_or (booted isr irq idt) k no_gate) ≡ isr k)
      × (entry_base (get_or (booted isr irq idt) (32 + k) no_gate) ≡ irq k)
unfolding booted irq_init isr_init idt_init
entry_base-booted isr irq idt k size a b h =
    let start = clear_entries 256 0 idt in
    let traps = set_gates 16 0 0 isr start in
    let start_size : length start ≡ 256 = length-clear_entries 256 0 idt ∙ size in
    let traps_size : length traps ≡ 256 = length-set_gates 16 0 0 isr start ∙ start_size in
    let from_zero : 0 + k ≡ k = omega arith in
    let trap : get_or traps k no_gate ≡ gate (isr k) 0x08 0x8e =
      subst (λ j. get_or traps j no_gate ≡ gate (isr j) 0x08 0x8e) from_zero
        (set_gates-inside 16 0 0 k isr start h (omega arith)) in
    let hardware : get_or (set_gates 16 32 0 irq traps) (32 + k) no_gate ≡ gate (irq k) 0x08 0x8e =
      subst (λ j. get_or (set_gates 16 32 0 irq traps) (32 + k) no_gate ≡ gate (irq j) 0x08 0x8e)
        from_zero (set_gates-inside 16 32 0 k irq traps h (omega arith)) in
    let kept : get_or (set_gates 16 32 0 irq traps) k no_gate ≡ get_or traps k no_gate =
      set_gates-outside 16 32 0 k irq traps (inl (omega arith)) in
    (
      ap entry_base (kept ∙ trap) ∙ entry_base-gate (isr k) 0x08 0x8e (a k),
      ap entry_base hardware ∙ entry_base-gate (irq k) 0x08 0x8e (b k),
    )

-- A handler other than null that has been installed for an interrupt of the table is called for that
-- interrupt; every other interrupt calls what it called before.
pub irq_handler-irq_install_handler :
    (irq other handler : ℕ) (handlers : Handlers)
    → irq < length handlers
    → handler ≢ 0
    → (irq_handler (32 + other) (irq_install_handler irq handler handlers)).1
      ≡ (if other == irq then some handler else (irq_handler (32 + other) handlers).1)
unfolding irq_handler irq_install_handler
irq_handler-irq_install_handler irq other handler handlers h ne =
    let place : 32 + other - 32 ≡ other = omega arith in
    let read = get_or-set handlers irq other handler 0 h in
    rw (place, read)
      (elim (Bool-cases (other == irq)) [
        | inl e ↦ rw (e, ne→== handler 0 ne) refl
        | inr e ↦ rw e refl
      ])
