-- ===== src/Ui/Gterm/Laws.antt =====
-- The grid of ui/gterm.c keeps its shape and its cursor.
use chris_os.Base.{All-drop, All-take, length-drop, All-append, All-set, length-take, ◌∙◌, ℕ}
use chris_os.Base.{◌+◌, ◌-◌, ◌≤◌, ◌<◌, ◌≡◌, [], ◌∷◌, ◌++◌, arith, length, get_or, set, take}
use chris_os.Base.{drop, length-append, length-set, length-replicate, All}
use chris_os.Ui.Gterm.{Cell, blank_row, space, Gterm, erase, gterm_putchar, next_line}
use chris_os.Ui.Gterm.{put_cell, put_here, scroll_up}

-- 24 rows of 80 cells, the cursor in a row of the grid and at most behind its last cell.
pub record IsGterm (g : Gterm) : Type 0 where
  pub rows : length g.cells ≡ 24
  pub wide : All (λ r. length r ≡ 80) g.cells
  pub row_in : g.row < 24
  pub col_in : g.col ≤ 80

rows_scrolled :
    (g : Gterm)
    → length g.cells ≡ 24
    → length (take 23 (drop 1 g.cells) ++ (blank_row g.cur_fg ∷ [])) ≡ 24
rows_scrolled g h = omega (
  arith,
  length-append (take 23 (drop 1 g.cells)) (blank_row g.cur_fg ∷ []),
  length-take 23 (drop 1 g.cells),
  length-drop 1 g.cells,
)

pub scroll_up-IsGterm :
    (g : Gterm)
    → length g.cells ≡ 24
    → All (λ r. length r ≡ 80) g.cells
    → g.col ≤ 80
    → IsGterm (scroll_up g)
unfolding scroll_up
scroll_up-IsGterm g rows wide h = record {
  rows = rows_scrolled g rows;
  wide =
      (All-append (λ r. length r ≡ 80) (take 23 (drop 1 g.cells)) (blank_row g.cur_fg ∷ [])
        (All-take (λ r. length r ≡ 80) 23 (drop 1 g.cells)
          (All-drop (λ r. length r ≡ 80) 1 g.cells wide))
        (length-replicate 80 (space g.cur_fg), tt));
  row_in = omega arith;
  col_in = h;
}

pub next_line-IsGterm : (g : Gterm) → IsGterm g → IsGterm (next_line g)
unfolding next_line
next_line-IsGterm g v =
    ground (arith, scroll_up-IsGterm (record g { col = 0; row = g.row + 1 }) v.rows v.wide)

-- A cell that is put inside the grid keeps its shape.
put_cell-IsGterm :
    (g : Gterm) (c : Cell)
    → IsGterm g
    → (length (put_cell g c) ≡ 24) × All (λ r. length r ≡ 80) (put_cell g c)
unfolding put_cell
put_cell-IsGterm g c v =
    let row = get_or g.cells g.row [] in
    (
      length-set g.cells g.row (set row g.col c) ∙ v.rows,
      All-set (λ r. length r ≡ 80) g.cells g.row (set row g.col c) [] v.wide
          (λ h. length-set row g.col c ∙ h),
    )

pub put_here-IsGterm : (c : ℕ) (g : Gterm) → IsGterm g → g.col < 80 → IsGterm (put_here c g)
unfolding put_here
put_here-IsGterm c g v h =
    let put = put_cell-IsGterm g (record { char = c; fg = g.cur_fg }) v in
    record { rows = put.0; wide = put.1; row_in = v.row_in; col_in = omega arith }

erase-IsGterm : (g : Gterm) → IsGterm g → 0 < g.col → IsGterm (erase g)
unfolding erase
erase-IsGterm g v h =
    let back : Gterm = record g { col = g.col - 1 } in
    let old = get_or (get_or g.cells g.row []) (g.col - 1) (space 0) in
    let col_in = v.col_in in
    let inside : IsGterm back = record {
      rows = v.rows;
      wide = v.wide;
      row_in = v.row_in;
      col_in = omega arith;
    } in
    let put = put_cell-IsGterm back (record old { char = b' ' }) inside in
    record { rows = put.0; wide = put.1; row_in = v.row_in; col_in = omega arith }

-- A new line starts at column 0.
pub col-next_line : (g : Gterm) → (next_line g).col ≡ 0
unfolding next_line scroll_up
col-next_line g = ground arith

pub gterm_putchar-IsGterm : (c : ℕ) (g : Gterm) → IsGterm g → IsGterm (gterm_putchar c g)
unfolding gterm_putchar
gterm_putchar-IsGterm c g v = ground (
  arith,
  next_line-IsGterm g v,
  col-next_line g,
  erase-IsGterm g v,
  put_here-IsGterm c g v,
  put_here-IsGterm c (next_line g),
)
