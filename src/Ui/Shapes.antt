-- ===== src/Ui/Shapes.antt =====
-- ui/draw.c: the window, the task bar, the desktop and the pointer, and the colours of
-- drivers/vesa.h. The glyphs of ui/font.c are an argument.
use chris_os.Base.{ℕ, zero, suc, ◌+◌, ◌-◌, ◌*◌, ◌/◌, ◌%◌, ◌^◌, List, [], ◌∷◌, ltb}
use chris_os.Base.{if◌then◌else◌, get_or}
use chris_os.Base.Text.{codes}
use chris_os.Base.Word.{u8, u32, bit}
use chris_os.Ui.Draw.{Frame, fb_put_pixel, draw_hline, draw_rect, draw_rect_outline}
use chris_os.Ui.Draw.{draw_string, draw_string_alpha}

unfoldable pub rgb : ℕ → ℕ → ℕ → ℕ
rgb r g b = r * 2 ^ 16 + g * 2 ^ 8 + b

abbrev pub color_white : ℕ
color_white = rgb 255 255 255

abbrev pub color_desktop : ℕ
color_desktop = rgb 20 30 48

abbrev pub color_taskbar : ℕ
color_taskbar = rgb 30 40 60

abbrev pub color_win_bg : ℕ
color_win_bg = rgb 240 240 245

abbrev pub color_win_title : ℕ
color_win_title = rgb 60 100 180

abbrev pub color_win_text : ℕ
color_win_text = rgb 20 20 20

abbrev pub color_prompt : ℕ
color_prompt = rgb 80 200 120

abbrev pub color_term_fg : ℕ
color_term_fg = rgb 200 210 200

abbrev pub titlebar_h : ℕ
titlebar_h = 24

abbrev pub taskbar_h : ℕ
taskbar_h = 36

-- `a - b` on 32-bit patterns.
abbrev pub minus : ℕ → ℕ → ℕ
minus a b = u32 (a + 2 ^ 32 - b)

unfoldable pub draw_window : (ℕ → List ℕ) → ℕ → ℕ → ℕ → ℕ → List ℕ → Frame → Frame
draw_window font_data x y w h title f =
    let f = draw_rect (u32 (x + 3)) (u32 (y + 3)) w h (rgb 0 0 0) f in
    let f = draw_rect x y w h color_win_bg f in
    let f = draw_rect x y w (titlebar_h / 2) (rgb 80 120 200) f in
    let f = draw_rect x (u32 (y + titlebar_h / 2)) w (titlebar_h / 2) color_win_title f in
    let f = (draw_string_alpha font_data (u32 (x + 6)) (u32 (y + 4)) title color_white f).1 in
    let cx = minus (u32 (x + w)) 18 in
    let cy = u32 (y + 4) in
    let f = draw_rect cx cy 14 14 (rgb 200 60 60) f in
    let f = (draw_string_alpha font_data (u32 (cx + 3)) cy (codes "x") color_white f).1 in
    draw_rect_outline x y w h (rgb 40 60 100) f

-- The clock of the task bar: minutes and seconds of the ticks of the timer. Each of the five digits
-- is a `char`.
unfoldable pub time_text : ℕ → List ℕ
time_text ticks =
    let secs = ticks / 18 in
    let mins = secs / 60 in
    let sec = secs % 60 in
    u8 (b'0' + mins / 10)
    ∷ u8 (b'0' + mins % 10)
    ∷ b':'
    ∷ (b'0' + sec / 10)
    ∷ (b'0' + sec % 10)
    ∷ []

unfoldable pub draw_taskbar : (ℕ → List ℕ) → ℕ → Frame → Frame
draw_taskbar font_data ticks f =
    let sw = f.fb_width in
    let top = minus f.fb_height taskbar_h in
    let f = draw_rect 0 top sw taskbar_h color_taskbar f in
    let f = draw_hline 0 top sw (rgb 70 90 130) f in
    let f = draw_rect 4 (u32 (top + 4)) 72 (taskbar_h - 8) color_win_title f in
    let f = draw_rect_outline 4 (u32 (top + 4)) 72 (taskbar_h - 8) (rgb 100 140 220) f in
    let f = (draw_string_alpha font_data 10 (u32 (top + 10)) (codes "ChrisOS") color_white f).1 in
    (draw_string font_data (minus sw 60) (u32 (top + 10)) (time_text ticks) color_white
      color_taskbar f).1

-- The dots of one line of the desktop, 32 pixels apart, with `left` rounds at most.
unfoldable pub desktop_dots : ℕ → ℕ → ℕ → ℕ → Frame → Frame
desktop_dots zero x y limit f = f
desktop_dots (suc left) x y limit f =
    let rest = desktop_dots left (x + 32) y limit (fb_put_pixel x y (rgb 35 50 70) f) in
    if ltb x limit then rest else f

unfoldable pub dot_lines : ℕ → ℕ → ℕ → ℕ → Frame → Frame
dot_lines zero y width limit f = f
dot_lines (suc left) y width limit f =
    let rest = dot_lines left (y + 32) width limit (desktop_dots width 16 y width f) in
    if ltb y limit then rest else f

-- The screen is at least as high as the task bar; each loop has a round for each pixel, more than
-- it needs.
unfoldable pub draw_desktop : Frame → Frame
draw_desktop f =
    let height = f.fb_height - taskbar_h in
    dot_lines height 16 f.fb_width height (draw_rect 0 0 f.fb_width height color_desktop f)

abbrev pub cursor_bmp : List ℕ
cursor_bmp =
    0x8000 ∷ 0xC000 ∷ 0xE000 ∷ 0xF000 ∷ 0xF800 ∷ 0xFC00 ∷ 0xFE00 ∷ 0xFF00 ∷ 0xFF80 ∷ 0xFFC0 ∷ 0xFC00
    ∷ 0xEC00 ∷ 0xC600 ∷ 0x0600 ∷ 0x0300 ∷ 0x0300 ∷ 0x0180 ∷ 0x0180 ∷ 0x00C0 ∷ 0x0000 ∷ []

-- `left` pixels of a row of the pointer, from column `col` on.
unfoldable pub cursor_row : ℕ → ℕ → ℕ → ℕ → ℕ → Frame → Frame
cursor_row zero col bits cx y f = f
cursor_row (suc left) col bits cx y f =
    cursor_row left (col + 1) bits cx y
      (if bit (15 - col) bits then fb_put_pixel (u32 (cx + col)) y color_white f else f)

unfoldable pub cursor_rows : ℕ → ℕ → ℕ → ℕ → Frame → Frame
cursor_rows zero row cx cy f = f
cursor_rows (suc left) row cx cy f =
    cursor_rows left (row + 1) cx cy
      (cursor_row 12 0 (get_or cursor_bmp row 0) cx (u32 (cy + row)) f)

unfoldable pub draw_cursor : ℕ → ℕ → Frame → Frame
draw_cursor cx cy f = cursor_rows 20 0 cx cy f
