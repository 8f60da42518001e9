-- ===== src/Ui/Pointer/Kept.antt =====
-- The pixels of the screen while the pointer of drivers/mouse.c is drawn and erased.
use chris_os.Base.{refl, false, sym, ◌-◌, ℕ, zero, suc, ◌+◌, ◌≤◌, ◌<◌, ◌≡◌, ap, ◌∙◌, ◌⊎◌, inl}
use chris_os.Base.{inr, arith, ◌==◌, Bool-cases, get_or, ==→eq}
use chris_os.Base.Word.{u32, bit}
use chris_os.Ui.Draw.{Frame, fb_get_pixel, fb_put_pixel, on_screen}
use chris_os.Ui.Draw.Laws.{IsFrame, IsFrame-fb_put_pixel, fb_get_pixel-fb_put_pixel}
use chris_os.Ui.Draw.Laws.{on_screen-fb_put_pixel}
use chris_os.Ui.Pointer.{restore_row, restore_rows}
use chris_os.Ui.Shapes.{color_white, cursor_bmp, cursor_row, cursor_rows}

-- `a` is one of `left` coordinates from `i` on, behind the start `x`.
abbrev pub InRun : ℕ → ℕ → ℕ → ℕ → Type 0
InRun left i x a = (k : ℕ) × (i ≤ k) × (k < i + left) × (a ≡ u32 (x + k))

first_InRun : (left i x a : ℕ) → a ≡ u32 (x + i) → InRun (suc left) i x a
first_InRun left i x a e = (i, omega arith, omega arith, e)

next_InRun : (left i x a : ℕ) → InRun left (i + 1) x a → InRun (suc left) i x a
next_InRun left i x a (k, h, h', e) = (k, omega arith, omega arith, e)

-- A coordinate of a run is its first one or one of the rest.
split_InRun : (left i x a : ℕ) → InRun (suc left) i x a → (a ≡ u32 (x + i)) ⊎ InRun left (i + 1) x a
split_InRun left i x a (k, h, h', e) = elim (Bool-cases (k == i)) [
  | inl f ↦ inl (e ∙ ap (λ n. u32 (x + n)) (==→eq k i f))
  | inr f ↦ inr (k, ground (arith, f), omega arith, e)
]

module _ (a b : ℕ) where
  -- Two frames with the same screen.
  pub record SameScreen (f g : Frame) : Type 0 where
    pub on : on_screen a b g ≡ on_screen a b f
    pub frame : IsFrame g

  SameScreen-put : (x y c : ℕ) (f g : Frame) → SameScreen f g → SameScreen f (fb_put_pixel x y c g)
  SameScreen-put x y c f g s = record {
    on = on_screen-fb_put_pixel x y c a b g ∙ s.on;
    frame = IsFrame-fb_put_pixel x y c g s.frame;
  }

  -- The pixel has its old colour, or is one of those that may have been drawn over.
  unfoldable pub Kept : Type 0 → Frame → Frame → Type 0
  Kept P f g = SameScreen f g × ((fb_get_pixel a b g ≡ fb_get_pixel a b f) ⊎ P)

  put_pixel-cases :
      (x y c : ℕ) (g : Frame)
      → IsFrame g
      → (fb_get_pixel a b (fb_put_pixel x y c g) ≡ fb_get_pixel a b g) ⊎ ((a ≡ x) × (b ≡ y))
  put_pixel-cases x y c g v = let at = fb_get_pixel-fb_put_pixel x y a b c g v in ground (arith, at)

  cursor_row-Kept :
      (left col bits cx y : ℕ) (f g : Frame) (P : Type 0)
      → Kept P f g
      → (InRun left col cx a → b ≡ y → P)
      → Kept P f (cursor_row left col bits cx y g)
  unfolding cursor_row Kept
  cursor_row-Kept zero col bits cx y f g P kept in_row = kept
  cursor_row-Kept (suc left) col bits cx y f g P (s, same) in_row =
      let put = fb_put_pixel (u32 (cx + col)) y color_white g in
      let later : InRun left (col + 1) cx a → b ≡ y → P =
        λ r e. in_row (next_InRun left col cx a r) e in
      let drawn : Kept P f put = (
        SameScreen-put (u32 (cx + col)) y color_white f g s,
        elim (put_pixel-cases (u32 (cx + col)) y color_white g s.frame) [
          | inl e ↦ elim same [ inl old ↦ inl (e ∙ old) | inr p ↦ inr p ]
          | inr at ↦ inr (in_row (first_InRun left col cx a at.0) at.1)
        ],
      ) in
      elim (Bool-cases (bit (15 - col) bits)) [
        | inl e ↦ rw (cursor_row, e) (cursor_row-Kept left (col + 1) bits cx y f put P drawn later)
        | inr e ↦
            rw (cursor_row, e) (cursor_row-Kept left (col + 1) bits cx y f g P (s, same) later)
      ]

  -- The pixel is on one of `left` rows from `row` on of the pointer at `x` and `y`.
  abbrev pub Under : ℕ → ℕ → ℕ → ℕ → Type 0
  Under left row x y = InRun 12 0 x a × InRun left row y b

  pub cursor_rows-Kept :
      (left row cx cy : ℕ) (f g : Frame) (P : Type 0)
      → Kept P f g
      → (Under left row cx cy → P)
      → Kept P f (cursor_rows left row cx cy g)
  unfolding cursor_rows
  cursor_rows-Kept zero row cx cy f g P kept under = kept
  cursor_rows-Kept (suc left) row cx cy f g P kept under =
      cursor_rows-Kept left (row + 1) cx cy f
        (cursor_row 12 0 (get_or cursor_bmp row 0) cx (u32 (cy + row)) g) P
        (cursor_row-Kept 12 0 (get_or cursor_bmp row 0) cx (u32 (cy + row)) f g P kept
          (λ r e. under (r, first_InRun left row cy b e)))
        (λ u. under (u.0, next_InRun left row cy b u.1))

  off_screen-zero : (f : Frame) → on_screen a b f ≡ false → fb_get_pixel a b f ≡ 0
  unfolding fb_get_pixel
  off_screen-zero f e = rw (fb_get_pixel, e) refl

  restored :
      (x y c : ℕ) (f g : Frame)
      → SameScreen f g
      → c ≡ fb_get_pixel x y f
      → a ≡ x
      → b ≡ y
      → fb_get_pixel a b (fb_put_pixel x y c g) ≡ fb_get_pixel a b f
  restored x y c f g s back ex ey =
      let at = fb_get_pixel-fb_put_pixel x y a b c g s.frame in
      let here : c ≡ fb_get_pixel a b f = rw (ex, ey) back in
      elim (Bool-cases (on_screen a b g)) [
        | inl e ↦ ground (arith, at, here, e, ex, ey)
        | inr e ↦
            at
            ∙ (let g_zero = off_screen-zero g e in
                let f_zero = off_screen-zero f (sym s.on ∙ e) in ground (arith, e, g_zero, f_zero))
      ]

  restore_row-Kept :
      (left col : ℕ) (bg : ℕ → ℕ) (x y : ℕ) (f g : Frame) (P : Type 0)
      → ((k : ℕ) → col ≤ k → k < col + left → bg k ≡ fb_get_pixel (u32 (x + k)) y f)
      → Kept (P ⊎ (InRun left col x a × (b ≡ y))) f g
      → Kept P f (restore_row left col bg x y g)
  unfolding restore_row Kept
  restore_row-Kept zero col bg x y f g P back (s, same) = (
    s,
    elim same [
      | inl old ↦ inl old
      | inr (inl p) ↦ inr p
      | inr (inr (r, e)) ↦ (let h = r.1 in let h' = r.2 in absurd (omega arith))
    ],
  )
  restore_row-Kept (suc left) col bg x y f g P back (s, same) =
      let column = u32 (x + col) in
      let put = fb_put_pixel column y (bg col) g in
      let rest : (k : ℕ)
          → col + 1 ≤ k
          → k < col + 1 + left
          → bg k ≡ fb_get_pixel (u32 (x + k)) y f =
        λ k h h'. back k (omega arith) (omega arith) in
      let here : a ≡ column → b ≡ y → fb_get_pixel a b put ≡ fb_get_pixel a b f =
        restored column y (bg col) f g s (back col (omega arith) (omega arith)) in
      let now : Kept (P ⊎ (InRun left (col + 1) x a × (b ≡ y))) f put = (
        SameScreen-put column y (bg col) f g s,
        elim (put_pixel-cases column y (bg col) g s.frame) [
          | inl e ↦ elim same [
            | inl old ↦ inl (e ∙ old)
            | inr (inl p) ↦ inr (inl p)
            | inr (inr (r, ey)) ↦ elim (split_InRun left col x a r) [
              | inl ex ↦ inl (here ex ey)
              | inr later ↦ inr (inr (later, ey))
            ]
          ]
          | inr at ↦ inl (here at.0 at.1)
        ],
      ) in
      restore_row-Kept left (col + 1) bg x y f put P rest now

  pub restore_rows-Kept :
      (left row : ℕ) (bg : ℕ → ℕ → ℕ) (x y : ℕ) (f g : Frame) (P : Type 0)
      → ((r k : ℕ)
          → row ≤ r
          → r < row + left
          → k < 12
          → bg r k ≡ fb_get_pixel (u32 (x + k)) (u32 (y + r)) f)
      → Kept (P ⊎ Under left row x y) f g
      → Kept P f (restore_rows left row bg x y g)
  unfolding restore_rows Kept
  restore_rows-Kept zero row bg x y f g P back (s, same) = (
    s,
    elim same [
      | inl old ↦ inl old
      | inr (inl p) ↦ inr p
      | inr (inr (c, r)) ↦ (let h = r.1 in let h' = r.2 in absurd (omega arith))
    ],
  )
  restore_rows-Kept (suc left) row bg x y f g P back (s, same) =
      let g' = restore_row 12 0 (bg row) x (u32 (y + row)) g in
      let now : Kept (P ⊎ Under left (row + 1) x y) f g' =
        restore_row-Kept 12 0 (bg row) x (u32 (y + row)) f g (P ⊎ Under left (row + 1) x y)
          (λ k h h'. back row k (omega arith) (omega arith) (omega arith))
          (
            s,
            elim same [
              | inl old ↦ inl old
              | inr (inl p) ↦ inr (inl (inl p))
              | inr (inr (c, r)) ↦ elim (split_InRun left row y b r) [
                | inl e ↦ inr (inr (c, e))
                | inr later ↦ inr (inl (inr (c, later)))
              ]
            ],
          ) in
      restore_rows-Kept left (row + 1) bg x y f g' P
        (λ r k h h' h''. back r k (omega arith) (omega arith) h'') now
