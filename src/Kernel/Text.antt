-- ===== src/Kernel/Text.antt =====
-- The string functions of kernel/kernel.c. A text is its characters without the terminating zero.
pub mod Laws
use chris_os.Base.{ℕ, zero, suc, ◌+◌, ◌/◌, ◌%◌, ◌^◌, Bool, true, false, ◌&&◌, List, [], ◌∷◌}
use chris_os.Base.{◌==◌, if◌then◌else◌, get_or}
use chris_os.Base.Int.{negsuc, pos, ℤ}
use chris_os.Base.Text.{codes}
use mathlib.Core.List.{reverse}

-- `strcmp(a, b) == 0`
unfoldable pub same_string : List ℕ → List ℕ → Bool
same_string [] [] = true
same_string [] (y ∷ b) = false
same_string (x ∷ a) [] = false
same_string (x ∷ a) (y ∷ b) = x == y && same_string a b

-- `strncmp(a, b, n) == 0`
unfoldable pub same_prefix : ℕ → List ℕ → List ℕ → Bool
same_prefix zero a b = true
same_prefix (suc n) [] [] = true
same_prefix (suc n) [] (y ∷ b) = false
same_prefix (suc n) (x ∷ a) [] = false
same_prefix (suc n) (x ∷ a) (y ∷ b) = x == y && same_prefix n a b

-- The characters that the loops over `n /= base` put into their buffer, the last digit first, for at
-- most as many rounds as the first number says.
unfoldable pub digits_from : ℕ → List ℕ → ℕ → ℕ → List ℕ
digits_from zero table base n = []
digits_from (suc room) table base n =
    let rest = digits_from room table base (n / base) in
    if n == 0 then [] else get_or table (n % base) 0 ∷ rest

abbrev pub lower_digits : List ℕ
lower_digits = codes "0123456789abcdef"

abbrev pub upper_digits : List ℕ
upper_digits = codes "0123456789ABCDEF"

-- The rounds of the loops: a 32-bit number has no more digits in any base, which is at least two.
abbrev pub max_digits : ℕ
max_digits = 32

-- The magnitude of a negative number: `n = -n` leaves the least one as it is, and the loop is not
-- entered for it.
unfoldable pub itoa : ℤ → List ℕ
itoa (pos n) = if n == 0 then b'0' ∷ [] else reverse (digits_from max_digits lower_digits 10 n)
itoa (negsuc m) =
    let magnitude = if m + 1 == 2 ^ 31 then 0 else m + 1 in
    b'-' ∷ reverse (digits_from max_digits lower_digits 10 magnitude)
