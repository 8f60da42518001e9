-- ===== src/Kernel/Panic/Painted.antt =====
-- The screen of kernel/panic.c while it is painted, one space after the other.
use chris_os.Base.{◌-◌, suc, false, ne→==, ℕ, zero, ◌+◌, ◌*◌, ◌≤◌, ◌<◌, ◌≡◌, refl, ap, ◌∙◌}
use chris_os.Base.{◌⊎◌, inl, inr, List, arith, length, get_or, set, take, drop, replicate}
use chris_os.Base.{◌++◌, ◌==◌, leb, ltb, Bool-cases, get_or-set, get_or-append, length-take}
use chris_os.Base.{length-drop, length-set, if◌then◌else◌}
use chris_os.Base.Slices.{get_or-replicate_in, get_or-take, get_or-drop, get_or-left}
use mathlib.Core.Path.{subst}
use chris_os.Kernel.Panic.{panic_color, put_times}
use chris_os.Kernel.Terminal.{Terminal, vga_entry, terminal_advance, terminal_putchar}
use chris_os.Kernel.Terminal.{terminal_putentryat, terminal_scroll_vga}
use chris_os.Kernel.Terminal.Laws.{IsTerminal, terminal_putchar-IsTerminal}

abbrev pub cursor : Terminal → ℕ
cursor t = t.row * 80 + t.column

-- The cell of a space in the colour of the terminal.
abbrev blank : Terminal → ℕ
blank t = vga_entry 32 t.color

-- The buffer after a space has been put, and the scrolling behind the last cell.
abbrev put_space : Terminal → List ℕ
put_space t = set t.buffer (cursor t) (blank t)

abbrev scrolled : List ℕ → ℕ → List ℕ
scrolled buf b = take 1920 (drop 80 buf) ++ replicate 80 b

-- A space goes to the cursor's cell, which is followed by the next one or by a new last row.
record NextCell (t u : Terminal) : Type 0 where
  at : cursor u ≡ cursor t + 1
  buffer : u.buffer ≡ put_space t
  color : u.color ≡ t.color

record NewRow (t u : Terminal) : Type 0 where
  last : cursor t ≡ 1999
  at : cursor u ≡ 1920
  buffer : u.buffer ≡ scrolled (put_space t) (blank t)
  color : u.color ≡ t.color

put_space_lem :
    (t : Terminal)
    → IsTerminal t
    → NextCell t (terminal_putchar 32 t) ⊎ NewRow t (terminal_putchar 32 t)
unfolding terminal_putchar terminal_advance terminal_putentryat terminal_scroll_vga
put_space_lem t is =
    let r = is.row_in in
    let c = is.column_in in
    elim (Bool-cases (t.column + 1 == 80)) [
      | inl e ↦
          let col : t.column ≡ 79 = ground arith in
          elim (Bool-cases (leb 25 (t.row + 1))) [
            | inl f ↦
                let row : t.row ≡ 24 = ground arith in
                rw (e, f)
                  (inr
                    (record { last = omega arith; at = omega arith; buffer = refl; color = refl }))
            | inr f ↦ rw (e, f) (inl (record { at = omega arith; buffer = refl; color = refl }))
          ]
      | inr e ↦
          let f : leb 25 t.row ≡ false = ground arith in
          rw (e, f) (inl (record { at = omega arith; buffer = refl; color = refl }))
    ]

pub cursor-bound : (t : Terminal) → IsTerminal t → cursor t < 2000
cursor-bound t is = let r = is.row_in in let c = is.column_in in omega arith

-- The screen after `k` spaces from the cell `p` on: the cells before the cursor that they went to
-- are blank, and once the screen has scrolled those behind it are.
pub record Painted (b p k : ℕ) (t : Terminal) : Type 0 where
  pub is : IsTerminal t
  pub kept : t.color ≡ panic_color
  pub space : blank t ≡ b
  pub before : (j : ℕ) → j < cursor t → cursor t ≤ j + k → get_or t.buffer j 0 ≡ b
  pub behind :
      (cursor t ≡ p + k)
      ⊎ ((1920 ≤ cursor t) × ((j : ℕ) → cursor t ≤ j → j < 2000 → get_or t.buffer j 0 ≡ b))

cell-put_space :
    (t : Terminal) (j : ℕ)
    → IsTerminal t
    → get_or (put_space t) j 0 ≡ (if j == cursor t then blank t else get_or t.buffer j 0)
cell-put_space t j is =
    let size = is.size in
    let c = cursor-bound t is in get_or-set t.buffer (cursor t) j (blank t) 0 (omega arith)

cell-scrolled-old :
    (buf : List ℕ) (b j : ℕ)
    → length buf ≡ 2000
    → j < 1920
    → get_or (scrolled buf b) j 0 ≡ get_or buf (80 + j) 0
cell-scrolled-old buf b j len h =
    let lt = length-take 1920 (drop 80 buf) in
    let ld = length-drop 80 buf in
    get_or-left (take 1920 (drop 80 buf)) (replicate 80 b) j 0 (omega arith)
    ∙ (get_or-take 1920 (drop 80 buf) j 0 h ∙ get_or-drop 80 buf j 0)

cell-scrolled-new :
    (buf : List ℕ) (b j : ℕ)
    → length buf ≡ 2000
    → 1920 ≤ j
    → j < 2000
    → get_or (scrolled buf b) j 0 ≡ b
cell-scrolled-new buf b j len h hj =
    let lt = length-take 1920 (drop 80 buf) in
    let ld = length-drop 80 buf in
    let at : j ≡ length (take 1920 (drop 80 buf)) + (j - 1920) = omega arith in
    ap (λ i. get_or (scrolled buf b) i 0) at
    ∙ (get_or-append (take 1920 (drop 80 buf)) (replicate 80 b) (j - 1920) 0
        ∙ get_or-replicate_in 80 (j - 1920) b 0 (omega arith))

below : (j p : ℕ) → j ≤ p → (j == p) ≡ false → j < p
below j p h e = ground arith

-- One more space.
next-Painted :
    (b p k : ℕ) (t u : Terminal)
    → Painted b p k t
    → IsTerminal u
    → NextCell t u
    → Painted b p (suc k) u
next-Painted b p k t u painted is next =
    let at = next.at in
    let space = painted.space in
    let cell : (j : ℕ)
        → get_or u.buffer j 0 ≡ (if j == cursor t then blank t else get_or t.buffer j 0) =
      λ j. ap (λ xs. get_or xs j 0) next.buffer ∙ cell-put_space t j painted.is in
    record {
      is = is;
      kept = next.color ∙ painted.kept;
      space = ap (λ x. vga_entry 32 x) next.color ∙ space;
      before = λ j h h'. cell j ∙ elim (Bool-cases (j == cursor t)) [
        | inl e ↦ rw e space
        | inr e ↦
            (let small = below j (cursor t) (omega arith) e in
              rw e (painted.before j small (omega arith)))
      ];
      behind = elim painted.behind [
        | inl same ↦ inl (omega arith)
        | inr full ↦ inr (
          omega (arith, full.0),
          λ j h hj.
              cell j
              ∙ (let ne : (j == cursor t) ≡ false = ne→== j (cursor t) (λ e. omega arith) in
                  rw ne (full.1 j (omega arith) hj)),
        )
      ];
    }

scroll-Painted :
    (b p k : ℕ) (t u : Terminal)
    → Painted b p k t
    → IsTerminal u
    → NewRow t u
    → Painted b p (suc k) u
scroll-Painted b p k t u painted is new =
    let at = new.at in
    let last = new.last in
    let space = painted.space in
    let size : length (put_space t) ≡ 2000 =
      length-set t.buffer (cursor t) (blank t) ∙ painted.is.size in
    record {
      is = is;
      kept = new.color ∙ painted.kept;
      space = ap (λ x. vga_entry 32 x) new.color ∙ space;
      before = λ j h h'.
          ap (λ xs. get_or xs j 0) new.buffer
          ∙ (cell-scrolled-old (put_space t) (blank t) j size (omega arith)
              ∙ (cell-put_space t (80 + j) painted.is ∙ elim (Bool-cases (80 + j == cursor t)) [
                | inl e ↦ rw e space
                | inr e ↦
                    (let small = below (80 + j) (cursor t) (omega arith) e in
                      rw e (painted.before (80 + j) small (omega arith)))
              ]));
      behind = inr (
        omega arith,
        λ j h hj.
            ap (λ xs. get_or xs j 0) new.buffer
            ∙ (cell-scrolled-new (put_space t) (blank t) j size (omega arith) hj ∙ space),
      );
    }

pub put_times-Painted :
    (b p k n : ℕ) (t : Terminal) → Painted b p k t → Painted b p (k + n) (put_times n 32 t)
unfolding put_times
put_times-Painted b p k zero t painted = subst (λ m. Painted b p m t) (omega arith) painted
put_times-Painted b p k (suc n) t painted =
    let u = terminal_putchar 32 t in
    let is = terminal_putchar-IsTerminal 32 t painted.is in
    let next : Painted b p (suc k) u = elim (put_space_lem t painted.is) [
      | inl cell ↦ next-Painted b p k t u painted is cell
      | inr row ↦ scroll-Painted b p k t u painted is row
    ] in
    subst (λ m. Painted b p m (put_times n 32 u)) (omega arith)
      (put_times-Painted b p (suc k) n u next)

pub all_blank : (t : Terminal) (b p j : ℕ) → Painted b p 2000 t → j < 2000 → get_or t.buffer j 0 ≡ b
all_blank t b p j painted h =
    let bound = cursor-bound t painted.is in
    elim (Bool-cases (ltb j (cursor t))) [
      | inl e ↦
          (let small : j < cursor t = ground (arith, e) in painted.before j small (omega arith))
      | inr e ↦
          (let after : cursor t ≤ j = ground (arith, e) in
            elim painted.behind [ inl same ↦ absurd (omega arith) | inr full ↦ full.1 j after h ])
    ]
