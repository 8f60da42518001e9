-- ===== src/Ui/Draw/Laws.antt =====
-- What the shapes of ui/draw.c leave on the screen.
use chris_os.Base.{suc, zero, ltb, ◌^◌, leb, ◌||◌, Bool, refl, if_lem, ℕ, ◌+◌, ◌*◌, ◌/◌, ◌≤◌}
use chris_os.Base.{◌<◌, ◌≡◌, sym, ap, ◌∙◌, false, ◌&&◌, arith, ◌==◌, if◌then◌else◌, ne→==}
use chris_os.Base.Word.{u32}
use mathlib.Core.Path.{subst}
use native.Mathlib.Nat.{mul-add-div_right, div-eq_of_lt}
use chris_os.Ui.Draw.{draw_hline, draw_rect, hline_from, rows_from, Frame, on_screen}
use chris_os.Ui.Draw.{fb_put_pixel, fb_get_pixel}

-- A line of the frame buffer has room for the pixels of a row.
unfoldable pub IsFrame : Frame → Type 0
IsFrame f = f.fb_width ≤ f.fb_stride

-- Two pixels of the screen that have the same place are the same.
same_place : (s x y a b : ℕ) → x < s → a < s → y * s + x ≡ b * s + a → (x ≡ a) × (y ≡ b)
same_place s x y a b hx ha e =
    let room : 0 < s = omega arith in
    let row : (v u : ℕ) → u < s → (v * s + u) / s ≡ v =
      λ v u h. mul-add-div_right room v u ∙ (ap (λ z. v + z) (div-eq_of_lt h) ∙ omega arith) in
    let same_row : y ≡ b = sym (row y x hx) ∙ (ap (λ z. z / s) e ∙ row b a ha) in
    let start : y * s ≡ b * s = ap (λ z. z * s) same_row in (omega arith, same_row)

-- Another pixel of the screen has another place.
other_place :
    (s x y a b : ℕ)
    → x < s
    → a < s
    → ((a == x && b == y) ≡ false)
    → (b * s + a == y * s + x) ≡ false
other_place s x y a b hx ha ne = ne→== (b * s + a) (y * s + x) (λ e.
    let (same_column, same_row) = same_place s x y a b hx ha (sym e) in
    absurd (ground (arith, ne, same_column, same_row)))

-- A pixel that has been put is read back, and every other is as before.
pub fb_get_pixel-fb_put_pixel :
    (x y a b color : ℕ) (f : Frame)
    → IsFrame f
    → fb_get_pixel a b (fb_put_pixel x y color f)
      ≡ (if (a == x && b == y) && on_screen a b f then color else fb_get_pixel a b f)
unfolding fb_get_pixel fb_put_pixel on_screen IsFrame
fb_get_pixel-fb_put_pixel x y a b color f v = ground (arith, v, other_place f.fb_stride x y a b)

pub IsFrame-fb_put_pixel :
    (x y color : ℕ) (f : Frame) → IsFrame f → IsFrame (fb_put_pixel x y color f)
unfolding fb_put_pixel IsFrame
IsFrame-fb_put_pixel x y color f v =
    if_lem (λ g. g.fb_width ≤ g.fb_stride) (on_screen x y f)
      (record f { fb_addr = λ i. if i == y * f.fb_stride + x then color else f.fb_addr i }) f
      (λ e. v) (λ e. v)

pub on_screen-fb_put_pixel :
    (x y color a b : ℕ) (f : Frame) → on_screen a b (fb_put_pixel x y color f) ≡ on_screen a b f
unfolding fb_put_pixel on_screen
on_screen-fb_put_pixel x y color a b f =
    if_lem (λ g. on_screen a b g ≡ on_screen a b f) (on_screen x y f)
      (record f { fb_addr = λ i. if i == y * f.fb_stride + x then color else f.fb_addr i }) f
      (λ e. refl) (λ e. refl)

-- What a shape makes of a pixel: its colour where the shape is on the screen, and else what was
-- there.
Painted : Bool → ℕ → ℕ → ℕ → Frame → Frame → Type 0
Painted covers color a b f g =
    (fb_get_pixel a b g ≡ (if covers && on_screen a b f then color else fb_get_pixel a b f))
    × (on_screen a b g ≡ on_screen a b f)
    × IsFrame g

put-Painted :
    (x y color a b : ℕ) (f : Frame)
    → IsFrame f
    → Painted (a == x && b == y) color a b f (fb_put_pixel x y color f)
unfolding Painted
put-Painted x y color a b f v = (
  fb_get_pixel-fb_put_pixel x y a b color f v,
  on_screen-fb_put_pixel x y color a b f,
  IsFrame-fb_put_pixel x y color f v,
)

-- One shape after the other in the same colour.
both-Painted :
    (p q r : Bool) (color a b : ℕ) (f g h : Frame)
    → (p || q) ≡ r
    → Painted p color a b f g
    → Painted q color a b g h
    → Painted r color a b f h
unfolding Painted
both-Painted p q r color a b f g h e (one, same, v) (two, same', w) =
    (ground (arith, one, two, same, same', e), same' ∙ same, w)

-- Whether a number is one of `len` numbers from `start` on.
abbrev pub within : ℕ → ℕ → ℕ → Bool
within start len a = leb start a && ltb a (start + len)

none-Painted : (color a b : ℕ) (f : Frame) → IsFrame f → Painted false color a b f f
unfolding Painted
none-Painted color a b f v = (refl, refl, v)

same-Painted :
    (p q : Bool) (color a b : ℕ) (f g : Frame)
    → p ≡ q
    → Painted p color a b f g
    → Painted q color a b f g
same-Painted p q color a b f g e h = subst (λ r. Painted r color a b f g) e h

frame_of : (p : Bool) (color a b : ℕ) (f g : Frame) → Painted p color a b f g → IsFrame g
unfolding Painted
frame_of p color a b f g (one, same, v) = v

hline_from-Painted :
    (left i x y color a b : ℕ) (f : Frame)
    → IsFrame f
    → x + i + left ≤ 2 ^ 32
    → Painted (within (x + i) left a && b == y) color a b f (hline_from left i x y color f)
unfolding hline_from
hline_from-Painted zero i x y color a b f v h =
    same-Painted false (within (x + i) 0 a && b == y) color a b f f (ground arith)
      (none-Painted color a b f v)
hline_from-Painted (suc left) i x y color a b f v h =
    let column = u32 (x + i) in
    let g = fb_put_pixel column y color f in
    let put = put-Painted column y color a b f v in
    let rest =
      hline_from-Painted left (i + 1) x y color a b g
        (frame_of (a == column && b == y) color a b f g put) (omega arith) in
    let whole : column ≡ x + i = omega arith in
    both-Painted (a == column && b == y) (within (x + (i + 1)) left a && b == y)
      (within (x + i) (suc left) a && b == y) color a b f g (hline_from left (i + 1) x y color g)
      (rw whole (ground arith)) put rest

rows_from-Painted :
    (left row x w color a b : ℕ) (f : Frame)
    → IsFrame f
    → x + w ≤ 2 ^ 32
    → row + left < 2 ^ 32
    → Painted (within x w a && within row left b) color a b f (rows_from left row x w color f)
unfolding rows_from draw_hline
rows_from-Painted zero row x w color a b f v h k =
    same-Painted false (within x w a && within row 0 b) color a b f f (ground arith)
      (none-Painted color a b f v)
rows_from-Painted (suc left) row x w color a b f v h k =
    let g = draw_hline x row w color f in
    let start : x + 0 ≡ x = omega arith in
    let line : Painted (within x w a && b == row) color a b f g =
      subst (λ s. Painted (within s w a && b == row) color a b f g) start
        (hline_from-Painted w 0 x row color a b f v (omega arith)) in
    let down = u32 (row + 1) in
    let next : down ≡ row + 1 = omega arith in
    let rest =
      rows_from-Painted left down x w color a b g
        (frame_of (within x w a && b == row) color a b f g line) h (omega arith) in
    both-Painted (within x w a && b == row) (within x w a && within down left b)
      (within x w a && within row (suc left) b) color a b f g (rows_from left down x w color g)
      (rw next (ground arith)) line rest

-- A rectangle that does not go past 2^32 paints exactly its pixels that are on the screen, and no
-- other pixel changes.
pub fb_get_pixel-draw_rect :
    (x y w h color a b : ℕ) (f : Frame)
    → IsFrame f
    → x + w ≤ 2 ^ 32
    → y + h < 2 ^ 32
    → fb_get_pixel a b (draw_rect x y w h color f)
      ≡ (if (within x w a && within y h b) && on_screen a b f then color else fb_get_pixel a b f)
unfolding draw_rect Painted
fb_get_pixel-draw_rect x y w h color a b f v k l =
    let (painted, same, frame) = rows_from-Painted h y x w color a b f v k l in painted
