-- ===== src/Ui/Gterm/Shown.antt =====
-- Every cell of the grid of ui/gterm.c behind a character that is put on it.
use chris_os.Base.{true, false, replicate, List, Bool, inl, inr, zero, suc, ◌≢◌, ◌&&◌, ◌==◌}
use chris_os.Base.{leb, if◌then◌else◌, Bool-cases, ==→eq, ne→==, eq→==, refl, get_or-set_self}
use chris_os.Base.{get_or-set_ne, ◌∙◌, ℕ, ◌+◌, ◌≤◌, ◌<◌, ◌≡◌, [], ◌∷◌, ◌++◌, arith, length}
use chris_os.Base.{get_or, set, take, drop, length-drop, All}
use chris_os.Ui.Gterm.{Cell, blank_row, space, Gterm, gterm_putchar, next_line, put_cell}
use chris_os.Ui.Gterm.{put_here, scroll_up}
use chris_os.Ui.Gterm.Laws.{IsGterm, next_line-IsGterm, gterm_putchar-IsGterm, col-next_line}

-- The cell in a row and a column, and a space outside of the grid.
abbrev pub cell_at : List (List Cell) → ℕ → ℕ → Cell
cell_at cells row col = get_or (get_or cells row []) col (space 0)

-- Where the next character goes: a full line is left for the next one, and behind the last row the
-- grid scrolls.
abbrev pub wraps : Gterm → Bool
wraps g = leb 80 g.col

abbrev pub scrolls : Gterm → Bool
scrolls g = wraps g && leb 24 (g.row + 1)

abbrev pub row_of : Gterm → ℕ
row_of g = if wraps g then (if leb 24 (g.row + 1) then 23 else g.row + 1) else g.row

abbrev pub col_of : Gterm → ℕ
col_of g = if wraps g then 0 else g.col

-- What stands in a cell before the character goes there.
abbrev pub moved_cell : Gterm → ℕ → ℕ → Cell
moved_cell g row col =
    if scrolls g
    then (if row == 23 then space g.cur_fg else cell_at g.cells (suc row) col)
    else cell_at g.cells row col

length-row :
    (rows : List (List Cell)) (i : ℕ)
    → All (λ r. length r ≡ 80) rows
    → i < length rows
    → length (get_or rows i []) ≡ 80
length-row [] i h k = absurd (omega arith)
length-row (r ∷ rows) zero h k = h.0
length-row (r ∷ rows) (suc i) h k = length-row rows i h.1 (omega arith)

-- A cell that is put in the grid is the only one that changes, and is there afterwards.
cell_at-put_cell :
    (g : Gterm) (c : Cell) (row col : ℕ)
    → IsGterm g
    → g.col < 80
    → cell_at (put_cell g c) row col
      ≡ (if row == g.row && col == g.col then c else cell_at g.cells row col)
unfolding put_cell
cell_at-put_cell g c row col v h =
    let old = get_or g.cells g.row [] in
    let here : g.row < length g.cells = omega (arith, v.rows, v.row_in) in
    let wide : g.col < length old = omega (arith, length-row g.cells g.row v.wide here) in
    elim (Bool-cases (row == g.row)) [
      | inr e ↦
          let other : g.row ≢ row = ground (arith, e) in
          rw (e, get_or-set_ne g.cells g.row row (set old g.col c) [] other) refl
      | inl e ↦
          let same : row ≡ g.row = ==→eq row g.row e in
          rw (same, eq→== g.row g.row refl, get_or-set_self g.cells g.row (set old g.col c) [] here)
            (elim (Bool-cases (col == g.col)) [
              | inr f ↦
                  let past : g.col ≢ col = ground (arith, f) in
                  rw (f, get_or-set_ne old g.col col c (space 0) past) refl
              | inl f ↦
                  rw
                    (
                      ==→eq col g.col f,
                      eq→== g.col g.col refl,
                      get_or-set_self old g.col c (space 0) wide,
                    )
                    refl
            ])
    ]

-- What remains of the rows, with one row behind them.
get_or-scrolled :
    (n i : ℕ) (rows : List (List Cell)) (last : List Cell)
    → length rows ≡ n
    → i ≤ n
    → get_or (take n rows ++ (last ∷ [])) i [] ≡ (if i == n then last else get_or rows i [])
get_or-scrolled zero zero [] last h k = refl
get_or-scrolled zero (suc i) rows last h k = absurd (omega arith)
get_or-scrolled zero zero (r ∷ rows) last h k = absurd (omega arith)
get_or-scrolled (suc n) i [] last h k = absurd (omega arith)
get_or-scrolled (suc n) zero (r ∷ rows) last h k = rw (ne→== 0 (suc n) (ground arith)) refl
get_or-scrolled (suc n) (suc i) (r ∷ rows) last h k =
    ground (arith, get_or-scrolled n i rows last (omega arith) (omega arith))

get_or-drop : (rows : List (List Cell)) (i : ℕ) → get_or (drop 1 rows) i [] ≡ get_or rows (suc i) []
get_or-drop [] i = refl
get_or-drop (r ∷ rows) i = refl

get_or-blank : (n i : ℕ) (c d : Cell) → i < n → get_or (replicate n c) i d ≡ c
get_or-blank zero i c d h = absurd (omega arith)
get_or-blank (suc n) zero c d h = refl
get_or-blank (suc n) (suc i) c d h = get_or-blank n i c d (omega arith)

cell_at-scroll_up :
    (g : Gterm) (row col : ℕ)
    → length g.cells ≡ 24
    → row < 24
    → col < 80
    → cell_at (scroll_up g).cells row col
      ≡ (if row == 23 then space g.cur_fg else cell_at g.cells (suc row) col)
unfolding scroll_up
cell_at-scroll_up g row col h r c =
    let rows = drop 1 g.cells in
    let size : length rows ≡ 23 = omega (arith, length-drop 1 g.cells) in
    rw (get_or-scrolled 23 row rows (blank_row g.cur_fg) size (omega arith))
      (elim (Bool-cases (row == 23)) [
        | inl e ↦ rw e (get_or-blank 80 col (space g.cur_fg) (space 0) c)
        | inr e ↦ rw (e, get_or-drop g.cells row) refl
      ])

-- The cells and the cursor at the start of the next line, which is new when the grid scrolls.
record Turned (scroll : Bool) (g h : Gterm) : Type 0 where
  row : h.row ≡ (if scroll then 23 else g.row + 1)
  fg : h.cur_fg ≡ g.cur_fg
  cells :
      (r q : ℕ)
      → r < 24
      → q < 80
      → cell_at h.cells r q ≡ (
          if scroll
          then (if r == 23 then space g.cur_fg else cell_at g.cells (suc r) q)
          else cell_at g.cells r q)

scroll_up-Turned :
    (scroll : Bool) (g : Gterm)
    → IsGterm g
    → let down : Gterm = record g { col = 0; row = g.row + 1 } in
      Turned scroll g (if scroll then scroll_up down else down)
scroll_up-Turned true g v = record {
  row = unfold scroll_up in refl;
  fg = unfold scroll_up in refl;
  cells = λ r q hr hq. cell_at-scroll_up (record g { col = 0; row = g.row + 1 }) r q v.rows hr hq;
}
scroll_up-Turned false g v = record { row = refl; fg = refl; cells = λ r q hr hq. refl }

next_line-Turned : (g : Gterm) → IsGterm g → Turned (leb 24 (g.row + 1)) g (next_line g)
unfolding next_line
next_line-Turned g v = scroll_up-Turned (leb 24 (g.row + 1)) g v

-- A printable character stands where the cursor was, in the colour of the terminal, and that is
-- inside of the grid: at the start of the next line if the line was full. No other cell changes but
-- by scrolling, which happens exactly when there is no next line: then every row shows the one that
-- was below it, and the last one is blank. The grid keeps its shape, and the cursor its bounds.
pub gterm_putchar-Shown :
    (c : ℕ) (g : Gterm) (row col : ℕ)
    → IsGterm g
    → c ≢ 10
    → c ≢ 8
    → row < 24
    → col < 80
    → IsGterm (gterm_putchar c g)
      × (row_of g < 24)
      × (col_of g < 80)
      × (cell_at (gterm_putchar c g).cells row col ≡ (
          if row == row_of g && col == col_of g
          then record { char = c; fg = g.cur_fg }
          else moved_cell g row col))
unfolding gterm_putchar put_here
gterm_putchar-Shown c g row col v nl bs hr hc =
    let row_in = v.row_in in
    let cell : Cell = record { char = c; fg = g.cur_fg } in
    (
      gterm_putchar-IsGterm c g v,
      ground arith,
      ground arith,
      rw (gterm_putchar, ne→== c 10 nl, ne→== c 8 bs)
          (elim (Bool-cases (leb 80 g.col)) [
            | inr e ↦ rw e (cell_at-put_cell g cell row col v (ground (arith, e)))
            | inl e ↦
                let h = next_line g in
                let turned = next_line-Turned g v in
                rw e (
                  cell_at-put_cell h (record { char = c; fg = h.cur_fg }) row col
                    (next_line-IsGterm g v) (omega (arith, col-next_line g))
                  ∙ rw (turned.row, col-next_line g, turned.fg, turned.cells row col hr hc) refl)
          ]),
    )
