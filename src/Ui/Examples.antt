-- ===== src/Ui/Examples.antt =====
-- The witness of the terminal on the screen.
use chris_os.Base.{◌<◌, if◌then◌else◌, ◌&&◌, All-replicate, ◌≡◌, refl, arith, length}
use chris_os.Base.{replicate, length-replicate}
use chris_os.Ui.Draw.{Frame, on_screen, fb_get_pixel, draw_rect}
use chris_os.Ui.Draw.Laws.{IsFrame, within, fb_get_pixel-draw_rect}
use chris_os.Ui.Gterm.{Gterm, gterm_putchar, blank_row}
use chris_os.Ui.Gterm.Laws.{IsGterm}
use chris_os.Ui.Gterm.Shown.{cell_at, gterm_putchar-Shown}

-- The cursor is behind the last cell of the last row.
abbrev full : Gterm
full = record { cells = replicate 24 (blank_row 7); row = 23; col = 80; cur_fg = 7 }

full-IsGterm : IsGterm full
unfolding blank_row
full-IsGterm = record {
  rows = length-replicate 24 (blank_row 7);
  wide = All-replicate (λ r. length r ≡ 80) 24 (blank_row 7) refl;
  row_in = omega arith;
  col_in = omega arith;
}

-- The grid scrolls, and the character is the first of the last row.
gterm_putchar-Shown_example :
    IsGterm (gterm_putchar b'x' full)
    × (23 < 24)
    × (0 < 80)
    × (cell_at (gterm_putchar b'x' full).cells 23 0 ≡ record { char = b'x'; fg = 7 })
gterm_putchar-Shown_example =
    gterm_putchar-Shown b'x' full 23 0 full-IsGterm (omega arith) (omega arith) (omega arith)
      (omega arith)

-- A screen of four by three pixels, all black.
abbrev black : Frame
black = record { fb_width = 4; fb_height = 3; fb_stride = 4; fb_addr = λ i. 0 }

black-IsFrame : IsFrame black
unfolding IsFrame
black-IsFrame = omega arith

fb_get_pixel-draw_rect_example :
    fb_get_pixel 2 1 (draw_rect 1 1 9 1 7 black)
    ≡ (if (within 1 9 2 && within 1 1 1) && on_screen 2 1 black then 7 else fb_get_pixel 2 1 black)
fb_get_pixel-draw_rect_example =
    fb_get_pixel-draw_rect 1 1 9 1 7 2 1 black black-IsFrame (omega arith) (omega arith)
