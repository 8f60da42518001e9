-- ===== src/Kernel/Panic/Laws.antt =====
-- What the screen of kernel/panic.c shows, whatever was on it before.
use chris_os.Base.{ap₂, suc, ℕ, zero, ◌≡◌, refl, sym, ◌∙◌, inl, arith, replicate}
use chris_os.Base.{length-replicate}
use chris_os.Base.Slices.{get_or-replicate_in, get_or-ext}
use chris_os.Kernel.Panic.{paint_panic_screen, panic_color, put_times}
use chris_os.Kernel.Panic.Painted.{put_times-Painted, all_blank, cursor, cursor-bound}
use chris_os.Kernel.Terminal.{Terminal, vga_entry, terminal_putchar, terminal_setcolor}
use chris_os.Kernel.Terminal.Laws.{IsTerminal, terminal_putchar-IsTerminal}

-- Whatever a terminal of 25 rows of 80 cells shows and wherever its cursor is, the panic screen is
-- painted over all of it: every cell is a space in white on red, and the cursor stands at the start
-- of the second row.
pub paint_panic_screen_lem :
    (t : Terminal)
    → IsTerminal t
    → paint_panic_screen t ≡ record {
      row = 1;
      column = 0;
      color = panic_color;
      buffer = replicate 2000 (vga_entry 32 panic_color);
    }
unfolding paint_panic_screen terminal_setcolor
paint_panic_screen_lem t is =
    let start = terminal_setcolor panic_color t in
    let b = vga_entry 32 panic_color in
    let painted = put_times-Painted b (cursor t) 0 2000 start (record {
      is = record { size = is.size; row_in = is.row_in; column_in = is.column_in };
      kept = refl;
      space = refl;
      before = λ j h h'. absurd (omega arith);
      behind = inl (omega arith);
    }) in
    let size = painted.is.size in
    let bound = cursor-bound (put_times 2000 32 start) painted.is in
    let cells : (put_times 2000 32 start).buffer ≡ replicate 2000 b =
      get_or-ext (put_times 2000 32 start).buffer (replicate 2000 b) 0
        (size ∙ sym (length-replicate 2000 b))
        (λ j h.
          all_blank (put_times 2000 32 start) b (cursor t) j painted (omega arith)
          ∙ sym (get_or-replicate_in 2000 j b 0 (omega arith))) in
    ap₂ (λ c xs. record { row = 1; column = 0; color = c; buffer = xs }) painted.kept cells

pub put_times-IsTerminal : (n c : ℕ) (t : Terminal) → IsTerminal t → IsTerminal (put_times n c t)
unfolding put_times
put_times-IsTerminal zero c t is = is
put_times-IsTerminal (suc n) c t is =
    put_times-IsTerminal n c (terminal_putchar c t) (terminal_putchar-IsTerminal c t is)

pub paint_panic_screen-IsTerminal :
    (t : Terminal) → IsTerminal t → IsTerminal (paint_panic_screen t)
unfolding paint_panic_screen terminal_setcolor
paint_panic_screen-IsTerminal t is =
    let painted =
      put_times-IsTerminal 2000 32 (terminal_setcolor panic_color t)
        (record { size = is.size; row_in = is.row_in; column_in = is.column_in }) in
    record { size = painted.size; row_in = omega arith; column_in = omega arith }
