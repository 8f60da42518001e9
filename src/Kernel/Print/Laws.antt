-- ===== src/Kernel/Print/Laws.antt =====
-- What kernel/kprintf.c and `itoa` print, read back.
use chris_os.Base.{inl, inr, Option-cases, Bool-cases, ◌∙◌, some, ℕ, ◌+◌, ◌-◌, ◌/◌, ◌^◌, ◌<◌}
use chris_os.Base.{◌≡◌, refl, ◌≢◌, Bool, true, false, List, [], ◌∷◌, ◌++◌, arith, ◌==◌, ltb}
use chris_os.Base.{if◌then◌else◌, ne→==, ==→eq, length, All}
use chris_os.Base.Int.{int32, neg_part, negsuc, pos, ℤ}
use mathlib.Core.List.{reverse}
use chris_os.Fs.Fat32.Names.{upper}
use chris_os.Kernel.Print.{Arg, and_then, emit_hex8, emit_int, emit_uint, hex_from, kprintf}
use chris_os.Kernel.Text.{max_digits, digits_from, itoa, lower_digits, upper_digits}
use chris_os.Kernel.Text.Laws.{number, number-digits, sixteen-IsBase, ten-IsBase, upper-IsBase}

zero_both : (n : ℕ) → n ≡ 0 → (number 10 0 (b'0' ∷ []) ≡ n) × (number 16 0 (b'0' ∷ []) ≡ n)
unfolding number
zero_both n h = omega arith

hex_digits :
    (n : ℕ) (upper : Bool)
    → n < 2 ^ 32
    → number 16 0
        (reverse (digits_from max_digits (if upper then upper_digits else lower_digits) 16 n))
      ≡ n
hex_digits n true h = number-digits 16 upper_digits max_digits n upper-IsBase (omega arith)
hex_digits n false h = number-digits 16 lower_digits max_digits n sixteen-IsBase (omega arith)

-- A word printed in base ten or sixteen is read back, in either case of the digits.
pub number-emit_uint :
    (n : ℕ) (upper : Bool)
    → n < 2 ^ 32
    → (number 10 0 (emit_uint n 10 false) ≡ n) × (number 16 0 (emit_uint n 16 upper) ≡ n)
unfolding emit_uint
number-emit_uint n upper h = elim (Bool-cases (n == 0)) [
  | inl e ↦ rw e (zero_both n (==→eq n 0 e))
  | inr e ↦
      rw e
        (number-digits 10 lower_digits max_digits n ten-IsBase (omega arith), hex_digits n upper h)
]

-- What stands for an integer.
abbrev pub Shows : ℤ → List ℕ → Type 0
Shows (pos n) cs = number 10 0 cs ≡ n
Shows (negsuc m) cs = (ds : List ℕ) × (cs ≡ b'-' ∷ ds) × (number 10 0 ds ≡ m + 1)

-- Every 32-bit integer is printed as what stands for it, the least one included.
pub emit_int_lem : (w : ℕ) → w < 2 ^ 32 → Shows (int32 w) (emit_int (int32 w))
unfolding emit_int
emit_int_lem w h = elim (Bool-cases (ltb w (2 ^ 31))) [
  | inl e ↦ rw e ((number-emit_uint w false h).0)
  | inr e ↦ rw e (
    emit_uint (2 ^ 32 - 1 - w + 1) 10 false,
    refl,
    (number-emit_uint (2 ^ 32 - 1 - w + 1) false (ground arith)).0,
  )
]

no_digits : (table : List ℕ) → digits_from max_digits table 10 0 ≡ []
unfolding digits_from
no_digits table = refl

-- `itoa` prints as `emit_int` does, but for the least integer, of which it prints the sign only.
pub itoa-emit_int : (z : ℤ) → itoa z ≡ (if neg_part z == 2 ^ 31 then b'-' ∷ [] else emit_int z)
unfolding itoa emit_int emit_uint
itoa-emit_int (pos n) = refl
itoa-emit_int (negsuc m) = elim (Bool-cases (m + 1 == 2 ^ 31)) [
  | inl e ↦ ground (arith, no_digits lower_digits)
  | inr e ↦ ground arith
]

-- `emit_hex8` prints eight digits, which stand for the word.
pub emit_hex8_lem :
    (n : ℕ) → n < 2 ^ 32 → (length (emit_hex8 n) ≡ 8) × (number 16 0 (emit_hex8 n) ≡ n)
unfolding emit_hex8 hex_from number
emit_hex8_lem n h =
    let d = λ (k : ℕ). sixteen-IsBase.digit k in
    (
      refl,
      rw
          (
            d (n / 2 ^ 28),
            d (n / 2 ^ 24),
            d (n / 2 ^ 20),
            d (n / 2 ^ 16),
            d (n / 2 ^ 12),
            d (n / 2 ^ 8),
            d (n / 2 ^ 4),
            d (n / 2 ^ 0),
          )
          (omega arith),
    )

-- No character of a text begins a directive.
abbrev pub IsPlain : List ℕ → Type 0
IsPlain s = All (λ c. c ≢ b'%') s

kprintf-cons :
    (c : ℕ) (rest : List ℕ) (args : List Arg)
    → c ≢ b'%'
    → kprintf (c ∷ rest) args ≡ and_then (some (c ∷ [], args)) (kprintf rest)
unfolding kprintf
kprintf-cons c [] args h = rw (ne→== c b'%' h) refl
kprintf-cons c (d ∷ fmt) args h = rw (ne→== c b'%' h) refl

-- The characters of a format in front of the first directive are printed as they are.
pub kprintf-append :
    (s fmt : List ℕ) (args : List Arg)
    → IsPlain s
    → kprintf (s ++ fmt) args ≡ and_then (some (s, args)) (kprintf fmt)
kprintf-append [] fmt args h = elim (Option-cases (kprintf fmt args)) [
  | inl e ↦ rw (e, and_then) refl
  | inr y ↦ rw (y.1, and_then) refl
]
kprintf-append (c ∷ s) fmt args (hc, hs) =
    kprintf-cons c (s ++ fmt) args hc
    ∙ rw (kprintf-append s fmt args hs, and_then)
        (elim (Option-cases (kprintf fmt args)) [
          | inl e ↦ rw (e, and_then) refl
          | inr y ↦ rw (y.1, and_then) refl
        ])
