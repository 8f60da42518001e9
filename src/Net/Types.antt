-- ===== src/Net/Types.antt =====
-- net/net_types.h: addresses, and the byte order of the wire.
use chris_os.Base.{◌++◌, length, ℕ, ◌+◌, ◌*◌, ◌/◌, ◌%◌, ◌^◌, ◌<◌, ◌≡◌, Bool, true, ◌&&◌, List}
use chris_os.Base.{[], ◌∷◌, arith, ◌==◌, get_or, get_or-append}
use chris_os.Base.Word.{offset, u16, Memory, le16, le32, be16, be32}
use mathlib.Core.Path.{fun_ext}

pub record Ip : Type 0 where
  pub b0 : ℕ
  pub b1 : ℕ
  pub b2 : ℕ
  pub b3 : ℕ

pub record Mac : Type 0 where
  pub m0 : ℕ
  pub m1 : ℕ
  pub m2 : ℕ
  pub m3 : ℕ
  pub m4 : ℕ
  pub m5 : ℕ

abbrev pub ip : ℕ → ℕ → ℕ → ℕ → Ip
ip a b c d = record { b0 = a; b1 = b; b2 = c; b3 = d }

abbrev pub mac_broadcast : Mac
mac_broadcast = record { m0 = 0xff; m1 = 0xff; m2 = 0xff; m3 = 0xff; m4 = 0xff; m5 = 0xff }

abbrev pub mac_zero : Mac
mac_zero = record { m0 = 0; m1 = 0; m2 = 0; m3 = 0; m4 = 0; m5 = 0 }

abbrev pub ip_broadcast : Ip
ip_broadcast = ip 255 255 255 255

-- The two halves of `htons` have no bit in common, so `|` is a sum; so it is in `htonl`.
unfoldable pub htons : ℕ → ℕ
htons v = u16 (v / 256 + v * 256)

unfoldable pub ntohs : ℕ → ℕ
unfolding htons
ntohs v = htons v

unfoldable pub htonl : ℕ → ℕ
htonl v = v % 256 * 2 ^ 24 + v / 2 ^ 8 % 256 * 2 ^ 16 + v / 2 ^ 16 % 256 * 2 ^ 8 + v / 2 ^ 24 % 256

unfoldable pub ntohl : ℕ → ℕ
unfolding htonl
ntohl v = htonl v

unfoldable pub ip_eq : Ip → Ip → Bool
ip_eq a b = a.b0 == b.b0 && (a.b1 == b.b1 && (a.b2 == b.b2 && a.b3 == b.b3))

-- The early return of the loop is the short cut of `&&`.
unfoldable pub mac_eq : Mac → Mac → Bool
mac_eq a b =
    a.m0 == b.m0
    && (a.m1 == b.m1 && (a.m2 == b.m2 && (a.m3 == b.m3 && (a.m4 == b.m4 && a.m5 == b.m5))))

-- An address as the four bytes of a packet from offset `i` on, and back.
abbrev pub ip_at : Memory → ℕ → Ip
ip_at p i = ip (p i) (p (i + 1)) (p (i + 2)) (p (i + 3))

abbrev pub mac_at : Memory → ℕ → Mac
mac_at p i = record {
  m0 = p i;
  m1 = p (i + 1);
  m2 = p (i + 2);
  m3 = p (i + 3);
  m4 = p (i + 4);
  m5 = p (i + 5);
}

abbrev pub ip_bytes : Ip → List ℕ
ip_bytes a = a.b0 ∷ a.b1 ∷ a.b2 ∷ a.b3 ∷ []

abbrev pub mac_bytes : Mac → List ℕ
mac_bytes a = a.m0 ∷ a.m1 ∷ a.m2 ∷ a.m3 ∷ a.m4 ∷ a.m5 ∷ []

-- What storing a 16-bit or a 32-bit field writes on a little-endian machine.
abbrev pub store16 : ℕ → List ℕ
store16 v = v % 256 ∷ v / 256 % 256 ∷ []

abbrev pub store32 : ℕ → List ℕ
store32 v = v % 256 ∷ v / 2 ^ 8 % 256 ∷ v / 2 ^ 16 % 256 ∷ v / 2 ^ 24 % 256 ∷ []

-- The memory of an array on the stack; what lies behind it is taken to be 0.
abbrev pub bytes_at : List ℕ → Memory
bytes_at xs i = get_or xs i 0

pub ip_eq→eq : (a b : Ip) → ip_eq a b ≡ true → a ≡ b
unfolding ip_eq
ip_eq→eq a b h = ground arith

pub ip_eq_refl : (a : Ip) → ip_eq a a ≡ true
unfolding ip_eq
ip_eq_refl a = ground arith

-- Swapping the byte order twice gives the number back, at both widths.
pub ntohs-htons : (v : ℕ) → v < 2 ^ 16 → ntohs (htons v) ≡ v
unfolding ntohs htons
ntohs-htons v h = omega arith

pub ntohl-htonl : (v : ℕ) → v < 2 ^ 32 → ntohl (htonl v) ≡ v
unfolding ntohl htonl
ntohl-htonl v h = omega arith

-- `ntohs` of a field is the number that the wire holds, high byte first.
pub ntohs-le16 : (p : Memory) (i : ℕ) → p i < 256 → p (i + 1) < 256 → ntohs (le16 p i) ≡ be16 p i
unfolding ntohs htons
ntohs-le16 p i h k = omega arith

pub ntohl-le32 :
    (p : Memory) (i : ℕ)
    → p i < 256
    → p (i + 1) < 256
    → p (i + 2) < 256
    → p (i + 2 + 1) < 256
    → ntohl (le32 p i) ≡ be32 p i
unfolding ntohl htonl
ntohl-le32 p i h0 h1 h2 h3 = omega arith

-- The memory behind a header is what follows the header.
pub offset-append :
    (header content : List ℕ) (n : ℕ)
    → length header ≡ n
    → offset (bytes_at (header ++ content)) n ≡ bytes_at content
offset-append header content n e = fun_ext (λ i. rw (← e) (get_or-append header content i 0))
