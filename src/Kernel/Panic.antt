-- ===== src/Kernel/Panic.antt =====
-- kernel/panic.c, the last screen of the kernel, and `klog` of kernel/kprintf.c. The screen is the
-- VGA terminal. What goes to the serial port is a list of characters; the halt is the end of the
-- model.
pub mod Laws
pub mod Painted
mod Examples
pub mod Shown
use chris_os.Base.{◌||◌, ℕ, zero, suc, ◌+◌, Bool, true, false, Option, none, some, List, []}
use chris_os.Base.{◌∷◌, ◌++◌, ◌==◌, ltb, if◌then◌else◌, get_or, replicate}
use chris_os.Base.Int.{int32}
use chris_os.Base.Text.{codes}
use Prim.Native.String.{String}
use chris_os.Kernel.Print.{Arg, word, text, emit_hex8, emit_str, kprintf, and_then}
use chris_os.Kernel.Terminal.{Terminal, make_color, terminal_putchar, terminal_setcolor}
use chris_os.Kernel.Terminal.{terminal_write}
use chris_os.Kernel.Text.{itoa}

-- A directive of `klog` at its argument: what it prints and the arguments behind, or an argument
-- that is of another kind, or none left.
pub data Taken : Type 0 where
  chars : List ℕ → List Arg → Taken
  other_kind : ℕ → Arg → Taken
  no_argument : Taken

-- `%d`, which prints as `itoa` does, `%x` and `%s`, for which the word 0 is a null pointer.
unfoldable pub log_arg : ℕ → Arg → List Arg → Taken
log_arg d (word w) rest =
    if d == b'd'
    then chars (itoa (int32 w)) rest
    else if d == b'x'
    then chars (emit_hex8 w) rest
    else if w == 0
    then chars (emit_str none) rest
    else other_kind d (word w)
log_arg d (text s) rest = if d == b's' then chars (emit_str s) rest else other_kind d (text s)

-- `%%` and a directive that `klog` does not know take no argument.
unfoldable pub log_directive : ℕ → List Arg → Taken
log_directive d args =
    if d == b'd' || (d == b'x' || d == b's')
    then elim args [ [] ↦ no_argument | a ∷ rest ↦ log_arg d a rest ]
    else if d == b'%'
    then chars (b'%' ∷ []) args
    else chars (b'%' ∷ d ∷ []) args

-- What becomes of an entry in the log: its line goes out, or the code has sent some characters and
-- then takes an argument for what it is not, which a directive and the argument say: a word for the
-- address of a text, or the other way round. It may as well read an argument that is not there, or
-- run past the format's end.
pub data Logged : Type 0 where
  entry : List ℕ → Logged
  misread : List ℕ → ℕ → Arg → Logged
  overread : List ℕ → Logged

unfoldable pub behind : List ℕ → Logged → Logged
behind s (entry out) = entry (s ++ out)
behind s (misread out d a) = misread (s ++ out) d a
behind s (overread out) = overread (s ++ out)

unfoldable pub log_taken : Taken → (List Arg → Logged) → Logged
log_taken (chars out rest) k = behind out (k rest)
log_taken (other_kind d a) k = misread [] d a
log_taken no_argument k = overread []

-- The loop of `klog`.
unfoldable pub log_chars : List ℕ → List Arg → Logged
log_chars [] args = entry (10 ∷ [])
log_chars (c ∷ []) args = if c == b'%' then overread [] else entry (c ∷ 10 ∷ [])
log_chars (c ∷ d ∷ fmt) args =
    let plain = behind (c ∷ []) (log_chars (d ∷ fmt) args) in
    if c == b'%' then log_taken (log_directive d args) (log_chars fmt) else plain

unfoldable pub klog : List ℕ → List Arg → Logged
klog fmt args = behind (codes "[LOG] ") (log_chars fmt args)

-- `count` calls of `terminal_putchar` with one character.
unfoldable pub put_times : ℕ → ℕ → Terminal → Terminal
put_times zero c t = t
put_times (suc count) c t = put_times count c (terminal_putchar c t)

infixl 1 ◌>>=◌
abbrev pub ◌>>=◌ {ℓ κ} : {A : Type ℓ} {B : Type κ} → Option A → (A → Option B) → Option B
none >>= f = none
some a >>= f = f a

-- White on red.
abbrev pub panic_color : ℕ
panic_color = make_color 15 4

unfoldable pub paint_panic_screen : Terminal → Terminal
paint_panic_screen t = record (put_times 2000 b' ' (terminal_setcolor panic_color t)) {
  row = 1;
  column = 0;
}

unfoldable pub print_bar : Terminal → Terminal
print_bar t = put_times 80 b'=' (terminal_setcolor panic_color t)

-- The screen, and what has gone to the serial port.
pub record Console : Type 0 where
  pub screen : Terminal
  pub serial : List ℕ

-- `kprintf`: every character goes to both.
unfoldable pub print : String → List Arg → Console → Option Console
print fmt args c = elim (kprintf (codes fmt) args) [
  | none ↦ none
  | some out ↦ some (record { screen = terminal_write out c.screen; serial = c.serial ++ out })
]

-- An entry that takes an argument for what it is not ends the model.
unfoldable pub log_sent : Console → Logged → Option Console
log_sent c (entry out) = some (record c { serial = c.serial ++ out })
log_sent c (misread out d a) = none
log_sent c (overread out) = none

unfoldable pub log : String → List Arg → Console → Option Console
unfolding log_sent
log fmt args c = log_sent c (klog (codes fmt) args)

unfoldable pub bar : Console → Console
bar c = record c { screen = print_bar c.screen }

unfoldable pub panic_screen : Console → Console
panic_screen c = record c { screen = terminal_setcolor panic_color (paint_panic_screen c.screen) }

-- `kpanic`, up to its halt.
unfoldable pub kpanic : List ℕ → List ℕ → ℕ → Console → Option Console
kpanic msg file line c = do
  c ← print "  *** KERNEL PANIC ***\n" [] (bar (panic_screen c))
  c ← print "\n  %s\n\n" (text (some msg) ∷ []) (bar c)
  c ← print "  File : %s\n" (text (some file) ∷ []) c
  c ← print "  Line : %d\n" (word line ∷ []) c
  c ← print "\n" [] c
  c ← print "  System halted. Restart your computer.\n" [] (bar c)
  log "PANIC: %s at %s:%d" (text (some msg) ∷ text (some file) ∷ word line ∷ []) c

abbrev pub exception_names : List String
exception_names =
    "Division By Zero" ∷ "Debug" ∷ "Non-Maskable Interrupt" ∷ "Breakpoint" ∷ "Overflow"
    ∷ "Bound Range Exceeded" ∷ "Invalid Opcode" ∷ "Device Not Available" ∷ "Double Fault"
    ∷ "Coprocessor Segment Overrun" ∷ "Invalid TSS" ∷ "Segment Not Present" ∷ "Stack-Segment Fault"
    ∷ "General Protection Fault" ∷ "Page Fault" ∷ "Reserved" ∷ "x87 Floating-Point"
    ∷ "Alignment Check" ∷ "Machine Check" ∷ "SIMD Floating-Point" ∷ []

-- The frame that an exception's entry point has pushed.
pub record Registers : Type 0 where
  pub edi : ℕ
  pub esi : ℕ
  pub ebp : ℕ
  pub esp : ℕ
  pub ebx : ℕ
  pub edx : ℕ
  pub ecx : ℕ
  pub eax : ℕ
  pub int_no : ℕ
  pub err_code : ℕ
  pub eip : ℕ
  pub cs : ℕ
  pub eflags : ℕ

unfoldable pub exception_name : ℕ → List ℕ
exception_name n = codes (if ltb n 20 then get_or exception_names n "" else "Unknown Exception")

-- What `panic_isr_handler` prints, up to its entries in the log.
unfoldable pub show_exception : Registers → Console → Option Console
show_exception r c = do
  c ← print "  *** KERNEL PANIC: CPU EXCEPTION ***\n" [] (bar (panic_screen c))
  c ←
      print "\n  Exception : #%u - %s\n"
        (word r.int_no ∷ text (some (exception_name r.int_no)) ∷ []) (bar c)
  c ← print "  Error Code: 0x%x\n\n" (word r.err_code ∷ []) c
  c ← print "  EIP=%p  CS=0x%x  EFLAGS=0x%x\n" (word r.eip ∷ word r.cs ∷ word r.eflags ∷ []) c
  c ←
      print "  EAX=%p  EBX=%p  ECX=%p  EDX=%p\n"
        (word r.eax ∷ word r.ebx ∷ word r.ecx ∷ word r.edx ∷ []) c
  c ←
      print "  ESI=%p  EDI=%p  EBP=%p  ESP=%p\n"
        (word r.esi ∷ word r.edi ∷ word r.ebp ∷ word r.esp ∷ []) c
  c ← print "\n" [] c
  print "  System halted. Restart your computer.\n" [] (bar c)

-- `panic_isr_handler`, up to its halt.
unfoldable pub panic_isr_handler : Registers → Console → Option Console
panic_isr_handler r c = do
  c ← show_exception r c
  c ←
      log "EXCEPTION #%u (%s) EIP=%x ERR=%x"
        (word r.int_no ∷ text (some (exception_name r.int_no)) ∷ word r.eip ∷ word r.err_code ∷ [])
        c
  log "  EAX=%x EBX=%x ECX=%x EDX=%x" (word r.eax ∷ word r.ebx ∷ word r.ecx ∷ word r.edx ∷ []) c
