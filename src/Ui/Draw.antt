-- ===== src/Ui/Draw.antt =====
-- The frame buffer of drivers/vesa.h with 32 bits for a pixel, and the lines,
-- rectangles and texts of ui/draw.c. A
-- coordinate is the 32-bit pattern of an `int`, and a length is not negative. The glyphs of
-- ui/font.c are an argument.
pub mod Laws
use chris_os.Base.{ℕ, zero, suc, ◌+◌, ◌-◌, ◌*◌, ◌/◌, ◌%◌, ◌^◌, ◌≤◌, ◌<◌, min, bit_and, ◌≡◌}
use chris_os.Base.{refl, sym, ap, ap₂, ◌∙◌, ◌≢◌, ◌↔◌, ◌⊎◌, inl, inr, Bool, true, false, not}
use chris_os.Base.{◌&&◌, ◌||◌, Option, none, some, List, [], ◌∷◌, ◌++◌, map, arith, ◌==◌, ltb}
use chris_os.Base.{leb, if◌then◌else◌, eq→==, ne→==, ==→eq, lt→ltb, le→ltb, Bool-cases}
use chris_os.Base.{Option-cases, length, get_or, set, take, drop, replicate, length-append}
use chris_os.Base.{length-set, length-replicate, get_or-set_self, get_or-set_ne, All}
use chris_os.Base.Word.{u32, bit}

-- `fb_stride` is `fb_pitch >> 2`.
pub record Frame : Type 0 where
  pub fb_width : ℕ
  pub fb_height : ℕ
  pub fb_stride : ℕ
  pub fb_addr : ℕ → ℕ

-- The test of both functions on a pixel.
unfoldable pub on_screen : ℕ → ℕ → Frame → Bool
on_screen x y f = ltb x f.fb_width && ltb y f.fb_height

unfoldable pub fb_put_pixel : ℕ → ℕ → ℕ → Frame → Frame
unfolding on_screen
fb_put_pixel x y color f =
    if on_screen x y f
    then record f { fb_addr = λ i. if i == y * f.fb_stride + x then color else f.fb_addr i }
    else f

unfoldable pub fb_get_pixel : ℕ → ℕ → Frame → ℕ
unfolding on_screen
fb_get_pixel x y f = if on_screen x y f then f.fb_addr (y * f.fb_stride + x) else 0

-- The loop of `draw_hline` with `left` pixels to go, from the pixel `i` on.
unfoldable pub hline_from : ℕ → ℕ → ℕ → ℕ → ℕ → Frame → Frame
unfolding fb_put_pixel
hline_from zero i x y color f = f
hline_from (suc left) i x y color f =
    hline_from left (i + 1) x y color (fb_put_pixel (u32 (x + i)) y color f)

unfoldable pub draw_hline : ℕ → ℕ → ℕ → ℕ → Frame → Frame
unfolding hline_from
draw_hline x y len color f = hline_from len 0 x y color f

unfoldable pub vline_from : ℕ → ℕ → ℕ → ℕ → ℕ → Frame → Frame
unfolding fb_put_pixel
vline_from zero i x y color f = f
vline_from (suc left) i x y color f =
    vline_from left (i + 1) x y color (fb_put_pixel x (u32 (y + i)) color f)

unfoldable pub draw_vline : ℕ → ℕ → ℕ → ℕ → Frame → Frame
unfolding vline_from
draw_vline x y len color f = vline_from len 0 x y color f

-- The rows of a rectangle, `left` of them from the row `row` on.
unfoldable pub rows_from : ℕ → ℕ → ℕ → ℕ → ℕ → Frame → Frame
unfolding draw_hline
rows_from zero row x w color f = f
rows_from (suc left) row x w color f =
    rows_from left (u32 (row + 1)) x w color (draw_hline x row w color f)

unfoldable pub draw_rect : ℕ → ℕ → ℕ → ℕ → ℕ → Frame → Frame
unfolding rows_from
draw_rect x y w h color f = rows_from h y x w color f

unfoldable pub draw_rect_outline : ℕ → ℕ → ℕ → ℕ → ℕ → Frame → Frame
unfolding draw_hline draw_vline
draw_rect_outline x y w h color f =
    let f = draw_hline x y w color f in
    let f = draw_hline x (u32 (y + h + 2 ^ 32 - 1)) w color f in
    let f = draw_vline x y h color f in draw_vline (u32 (x + w + 2 ^ 32 - 1)) y h color f

-- One row of a glyph, whose bits are drawn in `fg` and, if there is one, in the background.
unfoldable pub glyph_row : ℕ → ℕ → ℕ → ℕ → ℕ → ℕ → Option ℕ → Frame → Frame
unfolding fb_put_pixel
glyph_row zero col bits x y fg bg f = f
glyph_row (suc left) col bits x y fg bg f =
    let blank : Frame = elim bg [
      | none ↦ f
      | some color ↦ fb_put_pixel (u32 (x + col)) y color f
    ] in
    let g = if bit (7 - col) bits then fb_put_pixel (u32 (x + col)) y fg f else blank in
    glyph_row left (col + 1) bits x y fg bg g

unfoldable pub glyph_rows : List ℕ → ℕ → ℕ → ℕ → Option ℕ → Frame → Frame
unfolding glyph_row
glyph_rows [] x y fg bg f = f
glyph_rows (bits ∷ rows) x y fg bg f =
    glyph_rows rows x (u32 (y + 1)) fg bg (glyph_row 8 0 bits x y fg bg f)

-- The glyph of a character; one that the font does not have is drawn as a question mark.
unfoldable pub glyph_of : (ℕ → List ℕ) → ℕ → List ℕ
glyph_of font_data c = if ltb c 32 || ltb 126 c then font_data (b'?' - 32) else font_data (c - 32)

unfoldable pub draw_char : (ℕ → List ℕ) → ℕ → ℕ → ℕ → ℕ → ℕ → Frame → ℕ × Frame
unfolding glyph_rows glyph_of
draw_char font_data x y c fg bg f =
    (u32 (x + 8), glyph_rows (glyph_of font_data c) x y fg (some bg) f)

unfoldable pub draw_string : (ℕ → List ℕ) → ℕ → ℕ → List ℕ → ℕ → ℕ → Frame → ℕ × Frame
unfolding draw_char
draw_string font_data x y [] fg bg f = (x, f)
draw_string font_data x y (c ∷ s) fg bg f =
    let (next, g) = draw_char font_data x y c fg bg f in draw_string font_data next y s fg bg g

unfoldable pub draw_string_alpha : (ℕ → List ℕ) → ℕ → ℕ → List ℕ → ℕ → Frame → ℕ × Frame
unfolding glyph_rows glyph_of
draw_string_alpha font_data x y [] fg f = (x, f)
draw_string_alpha font_data x y (c ∷ s) fg f =
    draw_string_alpha font_data (u32 (x + 8)) y s fg
      (glyph_rows (glyph_of font_data c) x y fg none f)
