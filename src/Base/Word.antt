-- ===== src/Base/Word.antt =====
-- The unsigned integers of the C code: casts keep the wrap-around, shifts and masks are written as
-- arithmetic, and memory read through a pointer is a function from the offset to the byte.
use Prim.Native.Nat.{ℕ, ◌+◌, ◌-◌, ◌*◌, ◌/◌, ◌%◌, ◌^◌, bit_and}
use mathlib.Core.Bool.{Bool}
use chris_os.Base.Tests.{◌==◌}

abbrev pub u8 : ℕ → ℕ
u8 n = n % 2 ^ 8

abbrev pub u16 : ℕ → ℕ
u16 n = n % 2 ^ 16

abbrev pub u32 : ℕ → ℕ
u32 n = n % 2 ^ 32

-- Whether bit `k` of `n` is set: `(n & (1 << k)) != 0`.
abbrev pub bit : ℕ → ℕ → Bool
bit k n = n / 2 ^ k % 2 == 1

-- `a | b`: each bit that both have is counted once.
abbrev pub bit_or : ℕ → ℕ → ℕ
bit_or a b = a + b - bit_and a b

-- What a `uint8_t*` points to: the byte at each offset. An offset past the end of the object reads
-- the memory that happens to follow it.
abbrev pub Memory : Type 0
Memory = ℕ → ℕ

-- `p + n`
abbrev pub offset : Memory → ℕ → Memory
offset p n i = p (n + i)

-- `(p[i] << 8) | p[i + 1]`, a 16-bit field in network order
abbrev pub be16 : Memory → ℕ → ℕ
be16 p i = p i * 256 + p (i + 1)

-- A 32-bit field in network order.
abbrev pub be32 : Memory → ℕ → ℕ
be32 p i = be16 p i * 65536 + be16 p (i + 2)

-- `*(uint16_t*)(p + i)` and `*(uint32_t*)(p + i)` on a little-endian machine
abbrev pub le16 : Memory → ℕ → ℕ
le16 p i = p i + p (i + 1) * 256

abbrev pub le32 : Memory → ℕ → ℕ
le32 p i = le16 p i + le16 p (i + 2) * 65536
