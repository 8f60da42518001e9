-- ===== src/Fs/Fat32/Names.antt =====
-- fs/fat32.c: the eleven bytes of a directory entry's name.
pub mod Laws
use chris_os.Base.{ℕ, zero, suc, ◌+◌, ◌-◌, ◌*◌, ◌/◌, ◌%◌, ◌^◌, ◌≤◌, ◌<◌, min, bit_and, ◌≡◌}
use chris_os.Base.{refl, sym, ap, ap₂, ◌∙◌, ◌≢◌, ◌↔◌, ◌⊎◌, inl, inr, Bool, true, false, not}
use chris_os.Base.{◌&&◌, ◌||◌, Option, none, some, List, [], ◌∷◌, ◌++◌, map, arith, ◌==◌, ltb}
use chris_os.Base.{leb, if◌then◌else◌, eq→==, ne→==, ==→eq, lt→ltb, le→ltb, Bool-cases}
use chris_os.Base.{Option-cases, length, get_or, set, take, drop, replicate, length-append}
use chris_os.Base.{length-set, length-replicate, get_or-set_self, get_or-set_ne, All}

-- `if (c >= 'a' && c <= 'z') c -= 32`
unfoldable pub upper : ℕ → ℕ
upper c = if leb b'a' c && leb c b'z' then c - 32 else c

-- The first loop: up to `left` characters before a dot, and what is left of the name.
unfoldable pub base_part : ℕ → List ℕ → List ℕ × List ℕ
base_part zero p = ([], p)
base_part (suc left) [] = ([], [])
base_part (suc left) (c ∷ p) =
    let rest = base_part left p in if c == b'.' then ([], c ∷ p) else (upper c ∷ rest.0, rest.1)

-- The second loop: up to `left` characters of the extension.
unfoldable pub ext_part : ℕ → List ℕ → List ℕ
ext_part zero p = []
ext_part (suc left) [] = []
ext_part (suc left) (c ∷ p) = upper c ∷ ext_part left p

-- `xs`, with spaces up to `n` bytes.
abbrev pub padded : ℕ → List ℕ → List ℕ
padded n xs = xs ++ replicate (n - length xs) b' '

-- The extension, if the base stopped at a dot.
unfoldable pub extension : List ℕ → List ℕ
extension [] = []
extension (c ∷ p) = if c == b'.' then ext_part 3 p else []

-- A name is its bytes without the terminating zero.
unfoldable pub name_to_fat83 : List ℕ → List ℕ
name_to_fat83 name = let base = base_part 8 name in padded 8 base.0 ++ padded 3 (extension base.1)
