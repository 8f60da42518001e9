-- ===== src/Kernel/Terminal/Laws.antt =====
-- The VGA buffer of kernel/kernel.c keeps its size, and its cursor stays inside of it.
use chris_os.Base.{ℕ, ◌+◌, ◌*◌, ◌≤◌, ◌<◌, ◌≡◌, ◌∙◌, inl, inr, List, [], ◌∷◌, arith, ◌==◌, leb}
use chris_os.Base.{Bool-cases, length, take, drop, replicate, length-append, length-set}
use chris_os.Base.{length-replicate, length-take, length-drop}
use chris_os.Kernel.Terminal.{Terminal, vga_entry, make_color, terminal_initialize}
use chris_os.Kernel.Terminal.{terminal_putentryat, terminal_scroll_vga, terminal_advance}
use chris_os.Kernel.Terminal.{terminal_putchar, terminal_write}

-- 25 rows of 80 cells, the cursor on one of them.
pub record IsTerminal (t : Terminal) : Type 0 where
  pub size : length t.buffer ≡ 2000
  pub row_in : t.row < 25
  pub column_in : t.column < 80

pub terminal_initialize-IsTerminal : (t : Terminal) → IsTerminal (terminal_initialize t)
unfolding terminal_initialize
terminal_initialize-IsTerminal t = record {
  size = length-replicate 2000 (vga_entry 32 (make_color 7 0));
  row_in = omega arith;
  column_in = omega arith;
}

scrolled_size :
    (t : Terminal) → length t.buffer ≡ 2000 → length (terminal_scroll_vga t).buffer ≡ 2000
unfolding terminal_scroll_vga
scrolled_size t h = omega (
  arith,
  length-append (take 1920 (drop 80 t.buffer)) (replicate 80 (vga_entry 32 t.color)),
  length-take 1920 (drop 80 t.buffer),
  length-drop 80 t.buffer,
  length-replicate 80 (vga_entry 32 t.color),
)

-- The cursor may leave the last row, which the scrolling of `terminal_putchar` undoes.
record IsAdvanced (t : Terminal) : Type 0 where
  size : length t.buffer ≡ 2000
  row_in : t.row ≤ 25
  column_in : t.column < 80

terminal_advance-IsAdvanced :
    (c : ℕ) (t : Terminal) → IsTerminal t → IsAdvanced (terminal_advance c t)
unfolding terminal_advance terminal_putentryat
terminal_advance-IsAdvanced c t h =
    let written = length-set t.buffer (t.row * 80 + t.column) (vga_entry c t.color) in
    elim (Bool-cases (c == 10)) [
      | inl e ↦
          rw e (record { size = h.size; row_in = omega (arith, h.row_in); column_in = omega arith })
      | inr e ↦ elim (Bool-cases (t.column + 1 == 80)) [
        | inl k ↦
            rw (e, k)
              (record {
                size = written ∙ h.size;
                row_in = omega (arith, h.row_in);
                column_in = omega arith;
              })
        | inr k ↦
            rw (e, k)
              (record {
                size = written ∙ h.size;
                row_in = omega (arith, h.row_in);
                column_in = ground (arith, h.column_in, k);
              })
      ]
    ]

terminal_scroll_vga-IsTerminal : (t : Terminal) → IsAdvanced t → IsTerminal (terminal_scroll_vga t)
unfolding terminal_scroll_vga
terminal_scroll_vga-IsTerminal t h = record {
  size = scrolled_size t h.size;
  row_in = omega arith;
  column_in = h.column_in;
}

pub terminal_putchar-IsTerminal :
    (c : ℕ) (t : Terminal) → IsTerminal t → IsTerminal (terminal_putchar c t)
unfolding terminal_putchar
terminal_putchar-IsTerminal c t h =
    let u = terminal_advance c t in
    let k = terminal_advance-IsAdvanced c t h in
    elim (Bool-cases (leb 25 u.row)) [
      | inl e ↦ rw e (terminal_scroll_vga-IsTerminal u k)
      | inr e ↦ rw e (record { size = k.size; row_in = ground (arith, e); column_in = k.column_in })
    ]

-- Whatever is written to a terminal of 25 rows of 80 cells, it stays one, and the cursor stays on
-- a cell: no character is ever put outside of the buffer.
pub terminal_write-IsTerminal :
    (s : List ℕ) (t : Terminal) → IsTerminal t → IsTerminal (terminal_write s t)
unfolding terminal_write
terminal_write-IsTerminal [] t h = h
terminal_write-IsTerminal (c ∷ cs) t h =
    terminal_write-IsTerminal cs (terminal_putchar c t) (terminal_putchar-IsTerminal c t h)
