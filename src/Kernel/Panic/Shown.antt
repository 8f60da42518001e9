-- ===== src/Kernel/Panic/Shown.antt =====
-- The printing of kernel/panic.c: formats and arguments, and what is read where they do not fit.
use chris_os.Base.{◌==◌, if◌then◌else◌, ℕ, ◌≡◌, refl, sym}
use chris_os.Base.{Option, some, List, [], ◌∷◌, ◌++◌}
use chris_os.Base.Text.{codes}
use Prim.Native.String.{String}
use mathlib.Core.Path.{subst}
use chris_os.Kernel.Panic.{log_arg, Console, Registers, bar, exception_name, klog, kpanic, log}
use chris_os.Kernel.Panic.{log_sent, log_chars, log_directive, log_taken, behind, Logged}
use chris_os.Kernel.Panic.{entry, misread, panic_color, panic_screen, print}
use chris_os.Kernel.Panic.{print_bar, ◌>>=◌}
use chris_os.Kernel.Panic.Laws.{put_times-IsTerminal, paint_panic_screen-IsTerminal}
use chris_os.Kernel.Print.{Arg, directive, emit_arg, emit_str, emit_word, kprintf, takes_arg}
use chris_os.Kernel.Print.{text, word}
use chris_os.Kernel.Terminal.{terminal_write, terminal_setcolor}
use chris_os.Kernel.Terminal.Laws.{IsTerminal, terminal_write-IsTerminal}

-- Printing goes through, and leaves a terminal.
IsShown : Option Console → Type 0
IsShown o = (d : Console) × (o ≡ some d) × IsTerminal d.screen

then-IsShown :
    (o : Option Console) (f : Console → Option Console)
    → IsShown o
    → ((d : Console) → IsTerminal d.screen → IsShown (f d))
    → IsShown (o >>= f)
unfolding IsShown
then-IsShown o f (d, e, is) next = subst (λ x. IsShown (x >>= f)) (sym e) (next d is)

-- The arguments fit the format.
Fits : String → List Arg → Type 0
Fits fmt args = (out : List ℕ) × (kprintf (codes fmt) args ≡ some out)

FitsLog : String → List Arg → Type 0
FitsLog fmt args = (out : List ℕ) × (klog (codes fmt) args ≡ entry out)

print-IsShown :
    (fmt : String) (args : List Arg) (c : Console)
    → Fits fmt args
    → IsTerminal c.screen
    → IsShown (print fmt args c)
unfolding print IsShown Fits
print-IsShown fmt args c (out, e) is = (
  record { screen = terminal_write out c.screen; serial = c.serial ++ out },
  rw (print, e) refl,
  terminal_write-IsTerminal out c.screen is,
)

log-IsShown :
    (fmt : String) (args : List Arg) (c : Console)
    → FitsLog fmt args
    → IsTerminal c.screen
    → IsShown (log fmt args c)
unfolding log log_sent IsShown FitsLog
log-IsShown fmt args c (out, e) is = (record c { serial = c.serial ++ out }, rw (log, e) refl, is)

bar-IsTerminal : (c : Console) → IsTerminal c.screen → IsTerminal (bar c).screen
unfolding bar print_bar terminal_setcolor
bar-IsTerminal c is =
    put_times-IsTerminal 80 61 (terminal_setcolor panic_color c.screen)
      (record { size = is.size; row_in = is.row_in; column_in = is.column_in })

panic_screen-IsTerminal : (c : Console) → IsTerminal c.screen → IsTerminal (panic_screen c).screen
unfolding panic_screen terminal_setcolor
panic_screen-IsTerminal c is =
    let painted = paint_panic_screen-IsTerminal c.screen is in
    record { size = painted.size; row_in = painted.row_in; column_in = painted.column_in }

-- `kpanic` prints its message, file and line whatever they are: the arguments fit the formats, on
-- the screen and in the log, and no character is put outside of the screen.
pub kpanic-IsShown :
    (msg file : List ℕ) (line : ℕ) (c : Console)
    → IsTerminal c.screen
    → (d : Console) × (kpanic msg file line c ≡ some d) × IsTerminal d.screen
unfolding kpanic IsShown Fits FitsLog kprintf directive takes_arg emit_arg emit_word emit_str klog
    log_chars log_directive log_arg log_taken behind
kpanic-IsShown msg file line c is =
    then-IsShown _ _
      (print-IsShown _ _ _ (_, refl) (bar-IsTerminal _ (panic_screen-IsTerminal c is)))
      (λ c is. then-IsShown _ _ (print-IsShown _ _ _ (_, refl) (bar-IsTerminal c is)) (λ c is.
        then-IsShown _ _ (print-IsShown _ _ _ (_, refl) is) (λ c is.
          then-IsShown _ _ (print-IsShown _ _ _ (_, refl) is) (λ c is.
            then-IsShown _ _ (print-IsShown _ _ _ (_, refl) is) (λ c is.
              then-IsShown _ _ (print-IsShown _ _ _ (_, refl) (bar-IsTerminal c is))
                (λ c is. log-IsShown _ _ _ (_, refl) is))))))

-- The arguments of the first entry in the log.
abbrev pub exception_args : Registers → List Arg
exception_args r =
    word r.int_no ∷ text (some (exception_name r.int_no)) ∷ word r.eip ∷ word r.err_code ∷ []

abbrev pub exception_format : List ℕ
exception_format = codes "EXCEPTION #%u (%s) EIP=%x ERR=%x"

-- What becomes of that entry.
abbrev pub exception_logged : Registers → Logged
exception_logged r =
    if r.int_no == 0
    then misread (codes "[LOG] EXCEPTION #%u ((null)) EIP=") b'x'
        (text (some (exception_name r.int_no)))
    else misread (codes "[LOG] EXCEPTION #%u (") b's' (word r.int_no)
