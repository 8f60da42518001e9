-- ===== src/Kernel/Print.antt =====
-- kernel/kprintf.c: formatted printing. The result is the characters emitted.
pub mod Laws
use chris_os.Base.{ℕ, zero, suc, ◌+◌, ◌*◌, ◌/◌, ◌%◌, ◌^◌, Bool, true, false, ◌||◌, Option}
use chris_os.Base.{none, some, List, [], ◌∷◌, ◌++◌, ◌==◌, if◌then◌else◌, get_or}
use chris_os.Base.Int.{int32, negsuc, pos, ℤ}
use chris_os.Base.Text.{codes}
use chris_os.Base.Word.{u8}
use mathlib.Core.List.{reverse}
use chris_os.Fs.Fat32.Names.{upper}
use chris_os.Kernel.Text.{digits_from, lower_digits, max_digits, upper_digits}

unfoldable pub emit_uint : ℕ → ℕ → Bool → List ℕ
emit_uint n base upper =
    if n == 0
    then b'0' ∷ []
    else reverse (digits_from max_digits (if upper then upper_digits else lower_digits) base n)

-- `(uint32_t)(-n)` of the least number is its magnitude.
unfoldable pub emit_int : ℤ → List ℕ
emit_int (pos n) = emit_uint n 10 false
emit_int (negsuc m) = b'-' ∷ emit_uint (m + 1) 10 false

-- The loop of `emit_hex8`, with `left` digits to go.
unfoldable pub hex_from : ℕ → ℕ → List ℕ
hex_from zero n = []
hex_from (suc left) n = get_or lower_digits (n / 2 ^ (left * 4) % 16) 0 ∷ hex_from left n

unfoldable pub emit_hex8 : ℕ → List ℕ
emit_hex8 n = hex_from 8 n

-- An argument behind the format: a 32-bit word, or a text, `none` for a null pointer.
pub data Arg : Type 0 where
  word : ℕ → Arg
  text : Option (List ℕ) → Arg

-- The characters of a directive that takes a word.
unfoldable pub emit_word : ℕ → ℕ → Option (List ℕ)
emit_word d w =
    if d == b'd'
    then some (emit_int (int32 w))
    else if d == b'u'
    then some (emit_uint w 10 false)
    else if d == b'x'
    then some (emit_uint w 16 false)
    else if d == b'X'
    then some (emit_uint w 16 true)
    else if d == b'p'
    then some (b'0' ∷ b'x' ∷ emit_hex8 w)
    else if d == b'c'
    then some (u8 w ∷ [])
    else none

unfoldable pub emit_str : Option (List ℕ) → List ℕ
emit_str none = codes "(null)"
emit_str (some s) = s

-- Whether a directive takes an argument.
unfoldable pub takes_arg : ℕ → Bool
takes_arg d =
    d == b'd'
    || (d == b'u' || (d == b'x' || (d == b'X' || (d == b'p' || (d == b's' || d == b'c')))))

-- A directive that takes an argument, at the argument; `none` where the argument is of another kind.
unfoldable pub emit_arg : ℕ → Arg → Option (List ℕ)
emit_arg d (word w) = emit_word d w
emit_arg d (text s) = if d == b's' then some (emit_str s) else none

-- A directive at the arguments left: what is emitted, and the arguments behind.
unfoldable pub directive : ℕ → List Arg → Option (List ℕ × List Arg)
directive d args =
    if takes_arg d
    then elim args [
      | [] ↦ none
      | a ∷ rest ↦ elim (emit_arg d a) [ none ↦ none | some out ↦ some (out, rest) ]
    ]
    else if d == b'%'
    then some (b'%' ∷ [], args)
    else some (b'%' ∷ d ∷ [], args)

-- What the directive emits, in front of what the rest of the format does.
abbrev pub and_then : Option (List ℕ × List Arg) → (List Arg → Option (List ℕ)) → Option (List ℕ)
and_then none k = none
and_then (some (out, rest)) k = elim (k rest) [ none ↦ none | some more ↦ some (out ++ more) ]

-- The loop of `kprintf`; `none` where the code reads an argument that is not there or of another
-- kind, or runs past the format's end, which it does behind a last `%`.
unfoldable pub kprintf : List ℕ → List Arg → Option (List ℕ)
kprintf [] args = some []
kprintf (c ∷ []) args = if c == b'%' then none else some (c ∷ [])
kprintf (c ∷ d ∷ fmt) args =
    let plain : Option (List ℕ) = elim (kprintf (d ∷ fmt) args) [
      | none ↦ none
      | some more ↦ some (c ∷ more)
    ] in
    if c == b'%' then and_then (directive d args) (kprintf fmt) else plain
