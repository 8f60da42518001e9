-- ===== src/Ui/Pointer.antt =====
-- `mouse_tick` of drivers/mouse.c: the pointer on the frame buffer, and what is under it. The
-- screen is active; a coordinate is the 32-bit pattern of an `int`.
pub mod Kept
pub mod Laws
mod Examples
use chris_os.Base.{ℕ, zero, suc, ◌+◌, ◌/◌, Bool, true, false, ◌&&◌, ltb, if◌then◌else◌}
use chris_os.Base.Word.{u32}
use chris_os.Ui.Draw.{Frame, fb_get_pixel, fb_put_pixel}
use chris_os.Ui.Shapes.{draw_cursor}

-- `cursor_bg` is the colour of each row and column.
pub record Pointer : Type 0 where
  pub initialized : Bool
  pub mouse_x : ℕ
  pub mouse_y : ℕ
  pub cursor_drawn : Bool
  pub cursor_drawn_x : ℕ
  pub cursor_drawn_y : ℕ
  pub cursor_bg : ℕ → ℕ → ℕ

-- `left` pixels of a row of the background, from column `col` on.
unfoldable pub restore_row : ℕ → ℕ → (ℕ → ℕ) → ℕ → ℕ → Frame → Frame
restore_row zero col bg x y f = f
restore_row (suc left) col bg x y f =
    restore_row left (col + 1) bg x y (fb_put_pixel (u32 (x + col)) y (bg col) f)

unfoldable pub restore_rows : ℕ → ℕ → (ℕ → ℕ → ℕ) → ℕ → ℕ → Frame → Frame
restore_rows zero row bg x y f = f
restore_rows (suc left) row bg x y f =
    restore_rows left (row + 1) bg x y (restore_row 12 0 (bg row) x (u32 (y + row)) f)

-- The background under a pointer of 20 rows of 12 pixels; the array has no other elements.
unfoldable pub save_background : ℕ → ℕ → Frame → (ℕ → ℕ → ℕ) → ℕ → ℕ → ℕ
save_background x y f old row col =
    if ltb row 20 && ltb col 12 then fb_get_pixel (u32 (x + col)) (u32 (y + row)) f else old row col

-- The first part: the pointer is put on the middle of the screen for once, and what was under it
-- comes back.
unfoldable pub erase_pointer : Pointer → Frame → Pointer × Frame
erase_pointer p f =
    let q : Pointer =
      if p.initialized
      then p
      else record p { mouse_x = f.fb_width / 2; mouse_y = f.fb_height / 2; initialized = true } in
    (
      q,
      if q.cursor_drawn
          then restore_rows 20 0 q.cursor_bg q.cursor_drawn_x q.cursor_drawn_y f
          else f,
    )

-- The second part: the background is kept and the pointer drawn over it.
unfoldable pub show_pointer : Pointer → Frame → Pointer × Frame
show_pointer p f = (
  record p {
    cursor_drawn = true;
    cursor_drawn_x = p.mouse_x;
    cursor_drawn_y = p.mouse_y;
    cursor_bg = save_background p.mouse_x p.mouse_y f p.cursor_bg;
  },
  draw_cursor p.mouse_x p.mouse_y f,
)

unfoldable pub mouse_tick : Pointer → Frame → Pointer × Frame
mouse_tick p f = let (q, g) = erase_pointer p f in show_pointer q g
