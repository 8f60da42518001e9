-- ===== src/Ui/Gterm.antt =====
-- ui/gterm.c: the terminal window as a grid of cells with a cursor. What it draws, which the grid
-- says, is not modelled.
pub mod Laws
pub mod Shown
use chris_os.Base.{ℕ, ◌+◌, ◌-◌, List, [], ◌∷◌, ◌++◌, ◌==◌, ltb, leb, if◌then◌else◌, get_or}
use chris_os.Base.{set, take, drop, replicate}

abbrev pub gterm_cols : ℕ
gterm_cols = 80

abbrev pub gterm_rows : ℕ
gterm_rows = 24

-- `cell_char` and `cell_fg` at one place.
pub record Cell : Type 0 where
  pub char : ℕ
  pub fg : ℕ

pub record Gterm : Type 0 where
  pub col : ℕ
  pub row : ℕ
  pub cur_fg : ℕ
  pub cells : List (List Cell)

abbrev pub space : ℕ → Cell
space fg = record { char = b' '; fg = fg }

abbrev pub blank_row : ℕ → List Cell
blank_row fg = replicate gterm_cols (space fg)

-- The rows move up by one; `gterm_rows` of them are kept.
unfoldable pub scroll_up : Gterm → Gterm
scroll_up g = record g {
  cells = take (gterm_rows - 1) (drop 1 g.cells) ++ (blank_row g.cur_fg ∷ []);
  row = gterm_rows - 1;
}

unfoldable pub gterm_clear : Gterm → Gterm
gterm_clear g = record g { cells = replicate gterm_rows (blank_row g.cur_fg); col = 0; row = 0 }

-- `COLOR_TERM_FG` is the argument.
unfoldable pub gterm_init : ℕ → Gterm → Gterm
gterm_init fg g = gterm_clear (record g { cur_fg = fg })

unfoldable pub put_cell : Gterm → Cell → List (List Cell)
put_cell g c = set g.cells g.row (set (get_or g.cells g.row []) g.col c)

-- `cur_col = 0; cur_row++; if (cur_row >= GTERM_ROWS) scroll_up();`
unfoldable pub next_line : Gterm → Gterm
next_line g =
    let down : Gterm = record g { col = 0; row = g.row + 1 } in
    if leb gterm_rows (g.row + 1) then scroll_up down else down

-- The end of `gterm_putchar`, where the cursor is inside the line.
unfoldable pub put_here : ℕ → Gterm → Gterm
put_here c g = record g { cells = put_cell g (record { char = c; fg = g.cur_fg }); col = g.col + 1 }

-- A backspace clears the character of the cell before the cursor, whose colour stays.
unfoldable pub erase : Gterm → Gterm
erase g =
    let back : Gterm = record g { col = g.col - 1 } in
    let old = get_or (get_or g.cells g.row []) (g.col - 1) (space 0) in
    record back { cells = put_cell back (record old { char = b' ' }) }

unfoldable pub gterm_putchar : ℕ → Gterm → Gterm
gterm_putchar c g =
    if c == 10
    then next_line g
    else if c == 8
    then (if ltb 0 g.col then erase g else g)
    else put_here c (if leb gterm_cols g.col then next_line g else g)

unfoldable pub gterm_writestring : List ℕ → Gterm → Gterm
gterm_writestring [] g = g
gterm_writestring (c ∷ cs) g = gterm_writestring cs (gterm_putchar c g)
