-- ===== src/Kernel/Main/Laws.antt =====
-- The main loop of kernel/kernel.c: its text on the mouse, and how often it draws.
use chris_os.Base.{ℕ, zero, suc, ◌+◌, ◌%◌, ◌/◌, ◌^◌, ◌≤◌, ◌<◌, ◌≡◌, refl, ap, ◌∙◌, ◌==◌, List}
use chris_os.Base.{[], ◌∷◌, ◌++◌, arith, length, length-append, if◌then◌else◌, if_lem, get_or}
use chris_os.Base.Int.{ℤ, pos, negsuc}
use chris_os.Base.Text.{codes}
use mathlib.Core.List.{reverse, reverse-cons}
use native.Mathlib.Nat.{pow-suc, pow-zero}
use chris_os.Kernel.Main.{debug_text}
use chris_os.Kernel.Text.{max_digits, digits_from, itoa, lower_digits}

length-reverse : {A : Type 0} (xs : List A) → length (reverse xs) ≡ length xs
length-reverse [] = refl
length-reverse (x ∷ xs) =
    ap length (reverse-cons x xs)
    ∙ (length-append (reverse xs) (x ∷ []) ∙ omega (arith, length-reverse xs))

-- The loop ends when the number is used up: below a power of ten, there are no more digits than the
-- exponent says, however many rounds there is room for.
length-digits_from :
    (room k n : ℕ) (table : List ℕ) → n < 10 ^ k → length (digits_from room table 10 n) ≤ k
unfolding digits_from
length-digits_from zero k n table h = omega arith
length-digits_from (suc room) zero n table h =
    if_lem (λ s. length s ≤ 0) (n == 0) []
      (get_or table (n % 10) 0 ∷ digits_from room table 10 (n / 10)) (λ e. omega arith)
      (λ e. absurd (ground (arith, e, pow-zero 10)))
length-digits_from (suc room) (suc k) n table h =
    let rest = length-digits_from room k (n / 10) table (omega (arith, pow-suc 10 k)) in
    if_lem (λ s. length s ≤ suc k) (n == 0) []
      (get_or table (n % 10) 0 ∷ digits_from room table 10 (n / 10)) (λ e. omega arith)
      (λ e. omega arith)

-- A 32-bit number has at most ten digits.
length-digits :
    (n : ℕ) → n < 2 ^ 32 → length (reverse (digits_from max_digits lower_digits 10 n)) ≤ 10
length-digits n h = omega (
  arith,
  length-reverse (digits_from max_digits lower_digits 10 n),
  length-digits_from max_digits 10 n lower_digits (omega arith),
)

-- What an `int` can hold.
abbrev pub IsInt : ℤ → Type 0
IsInt (pos n) = n < 2 ^ 31
IsInt (negsuc m) = m < 2 ^ 31

-- `char tmp[12]` and the sign: no `int` is printed with more than eleven characters.
pub length-itoa : (n : ℤ) → IsInt n → length (itoa n) ≤ 11
unfolding itoa
length-itoa (pos n) h =
    if_lem (λ s. length s ≤ 11) (n == 0) (b'0' ∷ [])
      (reverse (digits_from max_digits lower_digits 10 n)) (λ e. omega arith)
      (λ e. omega (arith, length-digits n (omega arith)))
length-itoa (negsuc m) h =
    let bound = length-digits (if m + 1 == 2 ^ 31 then 0 else m + 1) (ground arith) in omega arith

length-itoa_digit : (n : ℕ) → n < 10 → length (itoa (pos n)) ≤ 1
unfolding itoa
length-itoa_digit n h =
    if_lem (λ s. length s ≤ 1) (n == 0) (b'0' ∷ [])
      (reverse (digits_from max_digits lower_digits 10 n)) (λ e. omega arith)
      (λ e. omega (
        arith,
        length-reverse (digits_from max_digits lower_digits 10 n),
        length-digits_from max_digits 1 n lower_digits (omega arith),
      ))

length-four :
    (a b c d : List ℕ) → length (a ++ (b ++ (c ++ d))) ≡ length a + length b + length c + length d
length-four a b c d =
    omega (arith, length-append a (b ++ (c ++ d)), length-append b (c ++ d), length-append c d)

-- The text on the mouse fits into its array of 64 characters with the zero behind it, for
-- every position and movement that an `int` can hold and the buttons that a packet can report.
pub debug_text-fits :
    (x y : ℤ) (b : ℕ) (dx dy : ℤ)
    → IsInt x
    → IsInt y
    → b < 8
    → IsInt dx
    → IsInt dy
    → length (debug_text x y (pos b) dx dy) + 1 ≤ 64
unfolding debug_text
debug_text-fits x y b dx dy hx hy h hdx hdy =
    let end = codes " DX:" ++ (itoa dx ++ (codes " DY:" ++ itoa dy)) in
    let middle = codes " B:" ++ (itoa (pos b) ++ end) in
    let fourth = length-four (codes " DX:") (itoa dx) (codes " DY:") (itoa dy) in
    let buttons = length-append (itoa (pos b)) end in
    let third = length-append (codes " B:") (itoa (pos b) ++ end) in
    let first = length-four (codes "X:") (itoa x) (codes " Y:") (itoa y ++ middle) in
    let second = length-append (itoa y) middle in
    omega (
      arith,
      length-itoa x hx,
      length-itoa y hy,
      length-itoa dx hdx,
      length-itoa dy hdy,
      length-itoa_digit b (omega arith),
    )
