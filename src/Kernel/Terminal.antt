-- ===== src/Kernel/Terminal.antt =====
-- The VGA text terminal of kernel/kernel.c. The buffer at 0xB8000 is a list of cells; the hardware's
-- cursor is not modelled.
pub mod Laws
use chris_os.Base.{ℕ, ◌+◌, ◌-◌, ◌*◌, ◌^◌, List, [], ◌∷◌, ◌++◌, ◌==◌, leb, if◌then◌else◌, set}
use chris_os.Base.{take, drop, replicate}
use chris_os.Base.Text.{codes}
use Prim.Native.String.{String}

abbrev pub vga_width : ℕ
vga_width = 80

abbrev pub vga_height : ℕ
vga_height = 25

-- `fb_active` is 0: otherwise the calls go to ui/gterm.c.
pub record Terminal : Type 0 where
  pub row : ℕ
  pub column : ℕ
  pub color : ℕ
  pub buffer : List ℕ

unfoldable pub make_color : ℕ → ℕ → ℕ
make_color fg bg = fg + bg * 2 ^ 4

unfoldable pub vga_entry : ℕ → ℕ → ℕ
vga_entry c color = c + color * 2 ^ 8

unfoldable pub terminal_initialize : Terminal → Terminal
terminal_initialize t =
    let color = make_color 7 0 in
    record {
      row = 0;
      column = 0;
      color = color;
      buffer = replicate (vga_height * vga_width) (vga_entry b' ' color);
    }

unfoldable pub terminal_setcolor : ℕ → Terminal → Terminal
terminal_setcolor color t = record t { color = color }

unfoldable pub terminal_putentryat : ℕ → ℕ → ℕ → ℕ → Terminal → Terminal
terminal_putentryat c color x y t = record t {
  buffer = set t.buffer (y * vga_width + x) (vga_entry c color);
}

-- The first rows of the buffer move up, and the last one is cleared.
unfoldable pub terminal_scroll_vga : Terminal → Terminal
terminal_scroll_vga t = record t {
  buffer =
      take ((vga_height - 1) * vga_width) (drop vga_width t.buffer)
      ++ replicate vga_width (vga_entry b' ' t.color);
  row = vga_height - 1;
}

-- A character is put where the cursor is, which goes on.
unfoldable pub terminal_advance : ℕ → Terminal → Terminal
terminal_advance c t =
    if c == 10
    then record t { column = 0; row = t.row + 1 }
    else let u = terminal_putentryat c t.color t.column t.row t in
      if t.column + 1 == vga_width
      then record u { column = 0; row = t.row + 1 }
      else record u { column = t.column + 1 }

unfoldable pub terminal_putchar : ℕ → Terminal → Terminal
terminal_putchar c t =
    let u = terminal_advance c t in if leb vga_height u.row then terminal_scroll_vga u else u

unfoldable pub terminal_write : List ℕ → Terminal → Terminal
terminal_write [] t = t
terminal_write (c ∷ cs) t = terminal_write cs (terminal_putchar c t)

-- A call of the terminal: what the other parts of the kernel print is a list of these. `writestring`
-- is called with a literal, or with a text that is computed.
pub data TermCall : Type 0 where
  putchar : ℕ → TermCall
  writestring : String → TermCall
  writetext : List ℕ → TermCall
  setcolor : ℕ → TermCall

unfoldable pub show_call : TermCall → Terminal → Terminal
unfolding terminal_putchar terminal_write terminal_setcolor
show_call (putchar c) t = terminal_putchar c t
show_call (writestring s) t = terminal_write (codes s) t
show_call (writetext s) t = terminal_write s t
show_call (setcolor color) t = terminal_setcolor color t
