-- ===== src/Ui/Pointer/Laws.antt =====
-- The pointer of drivers/mouse.c leaves no trace on the screen.
use chris_os.Base.{lt→ltb, ◌/◌, true, if_lem, if◌then◌else◌, refl, ℕ, zero, suc, ◌+◌, ◌≡◌, ◌⊎◌}
use chris_os.Base.{inl, inr, arith, Bool-cases}
use chris_os.Base.Word.{u32}
use chris_os.Ui.Draw.{Frame, fb_get_pixel, fb_put_pixel}
use chris_os.Ui.Draw.Laws.{IsFrame, IsFrame-fb_put_pixel}
use chris_os.Ui.Pointer.{mouse_tick, restore_row, restore_rows, save_background, show_pointer}
use chris_os.Ui.Pointer.{Pointer, erase_pointer}
use chris_os.Ui.Pointer.Kept.{Kept, Under, cursor_rows-Kept, restore_rows-Kept}
use chris_os.Ui.Shapes.{draw_cursor}

IsFrame-restore_row :
    (left col : ℕ) (bg : ℕ → ℕ) (x y : ℕ) (f : Frame)
    → IsFrame f
    → IsFrame (restore_row left col bg x y f)
unfolding restore_row
IsFrame-restore_row zero col bg x y f v = v
IsFrame-restore_row (suc left) col bg x y f v =
    IsFrame-restore_row left (col + 1) bg x y (fb_put_pixel (u32 (x + col)) y (bg col) f)
      (IsFrame-fb_put_pixel (u32 (x + col)) y (bg col) f v)

IsFrame-restore_rows :
    (left row : ℕ) (bg : ℕ → ℕ → ℕ) (x y : ℕ) (f : Frame)
    → IsFrame f
    → IsFrame (restore_rows left row bg x y f)
unfolding restore_rows
IsFrame-restore_rows zero row bg x y f v = v
IsFrame-restore_rows (suc left) row bg x y f v =
    IsFrame-restore_rows left (row + 1) bg x y (restore_row 12 0 (bg row) x (u32 (y + row)) f)
      (IsFrame-restore_row 12 0 (bg row) x (u32 (y + row)) f v)

IsFrame-erase_pointer : (p : Pointer) (f : Frame) → IsFrame f → IsFrame (erase_pointer p f).1
unfolding erase_pointer
IsFrame-erase_pointer p f v =
    let q : Pointer =
      if p.initialized
      then p
      else record p { mouse_x = f.fb_width / 2; mouse_y = f.fb_height / 2; initialized = true } in
    if_lem IsFrame q.cursor_drawn
      (restore_rows 20 0 q.cursor_bg q.cursor_drawn_x q.cursor_drawn_y f) f
      (λ e. IsFrame-restore_rows 20 0 q.cursor_bg q.cursor_drawn_x q.cursor_drawn_y f v) (λ e. v)

initialized-erase_pointer : (p : Pointer) (f : Frame) → (erase_pointer p f).0.initialized ≡ true
unfolding erase_pointer
initialized-erase_pointer p f = elim (Bool-cases p.initialized) [
  | inl e ↦ rw e refl
  | inr e ↦ rw e refl
]

-- The mouse has gone elsewhere.
abbrev pub moved : ℕ → ℕ → Pointer → Pointer
moved x y p = record p { mouse_x = x; mouse_y = y }

save-restore :
    (x y : ℕ) (f : Frame) (old : ℕ → ℕ → ℕ) (a b : ℕ)
    → IsFrame f
    → fb_get_pixel a b (restore_rows 20 0 (save_background x y f old) x y (draw_cursor x y f))
      ≡ fb_get_pixel a b f
unfolding save_background draw_cursor Kept
save-restore x y f old a b v =
    let start : Kept a b (⊥ ⊎ Under a b 20 0 x y) f f =
      (record { on = refl; frame = v }, inl refl) in
    let drawn = cursor_rows-Kept a b 20 0 x y f f (⊥ ⊎ Under a b 20 0 x y) start (λ u. inr u) in
    let kept =
      restore_rows-Kept a b 20 0 (save_background x y f old) x y f (draw_cursor x y f) ⊥
        (λ r k h h' h''. rw (lt→ltb r 20 (omega arith), lt→ltb k 12 h'') refl) drawn in
    elim kept.1 [ inl e ↦ e | inr never ↦ absurd never ]

erase-show :
    (p : Pointer) (f : Frame) (x y a b : ℕ)
    → IsFrame f
    → p.initialized ≡ true
    → fb_get_pixel a b (erase_pointer (moved x y (show_pointer p f).0) (show_pointer p f).1).1
      ≡ fb_get_pixel a b f
unfolding erase_pointer show_pointer
erase-show p f x y a b v e = rw e (save-restore p.mouse_x p.mouse_y f p.cursor_bg a b v)

-- When the pointer is erased for the next tick, every pixel of the screen has the colour again that
-- it had before the tick had drawn the pointer, wherever the pointer is, on the screen, over its
-- edge or outside of it, and wherever the mouse has gone meanwhile. The lines of the frame buffer
-- have room for their pixels, and nothing else has been drawn in between.
pub erase_pointer-mouse_tick :
    (p : Pointer) (f : Frame) (x y a b : ℕ)
    → IsFrame f
    → fb_get_pixel a b (erase_pointer (moved x y (mouse_tick p f).0) (mouse_tick p f).1).1
      ≡ fb_get_pixel a b (erase_pointer p f).1
unfolding mouse_tick
erase_pointer-mouse_tick p f x y a b v =
    let before = erase_pointer p f in
    erase-show before.0 before.1 x y a b (IsFrame-erase_pointer p f v)
      (initialized-erase_pointer p f)
