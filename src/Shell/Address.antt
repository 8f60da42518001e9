-- ===== src/Shell/Address.antt =====
-- The addresses on the command line of shell/shell.c.
pub mod Laws
use chris_os.Base.{ℕ, zero, suc, ◌+◌, ◌-◌, ◌*◌, ◌/◌, ◌%◌, ◌^◌, ◌≤◌, ◌<◌, min, bit_and, ◌≡◌}
use chris_os.Base.{refl, sym, ap, ap₂, ◌∙◌, ◌≢◌, ◌↔◌, ◌⊎◌, inl, inr, Bool, true, false, not}
use chris_os.Base.{◌&&◌, ◌||◌, Option, none, some, List, [], ◌∷◌, ◌++◌, map, arith, ◌==◌, ltb}
use chris_os.Base.{leb, if◌then◌else◌, eq→==, ne→==, ==→eq, lt→ltb, le→ltb, Bool-cases}
use chris_os.Base.{Option-cases, length, get_or, set, take, drop, replicate, length-append}
use chris_os.Base.{length-set, length-replicate, get_or-set_self, get_or-set_ne, All}
use chris_os.Base.Int.{pos}
use chris_os.Base.Word.{u8}
use chris_os.Kernel.Text.{itoa, upper_digits}
use chris_os.Net.Types.{Ip, Mac}

-- The characters that `print_ip` and `print_mac` write.
unfoldable pub print_ip : Ip → List ℕ
print_ip ip =
    let fourth = itoa (pos ip.b3) in
    let third = itoa (pos ip.b2) ++ (b'.' ∷ fourth) in
    let second = itoa (pos ip.b1) ++ (b'.' ∷ third) in itoa (pos ip.b0) ++ (b'.' ∷ second)

unfoldable pub hex_byte : ℕ → List ℕ
hex_byte b = get_or upper_digits (b / 2 ^ 4) 0 ∷ get_or upper_digits (b % 2 ^ 4) 0 ∷ []

unfoldable pub print_mac : Mac → List ℕ
unfolding hex_byte
print_mac mac =
    hex_byte mac.m0
    ++ (b':' ∷ hex_byte mac.m1)
    ++ (b':' ∷ hex_byte mac.m2)
    ++ (b':' ∷ hex_byte mac.m3)
    ++ (b':' ∷ hex_byte mac.m4)
    ++ (b':' ∷ hex_byte mac.m5)

unfoldable pub is_digit : ℕ → Bool
is_digit c = leb b'0' c && leb c b'9'

-- `ip.bytes[octet] = (uint8_t)v`
unfoldable pub set_octet : ℕ → ℕ → Ip → Ip
set_octet octet v ip =
    if octet == 0
    then record ip { b0 = u8 v }
    else if octet == 1
    then record ip { b1 = u8 v }
    else if octet == 2
    then record ip { b2 = u8 v }
    else if octet == 3
    then record ip { b3 = u8 v }
    else ip

-- The loop of `parse_ip`, and the octet that is set behind it.
unfoldable pub parse_from : List ℕ → ℕ → ℕ → Ip → Ip
unfolding set_octet is_digit
parse_from [] octet v ip = if ltb octet 4 then set_octet octet v ip else ip
parse_from (c ∷ s) octet v ip =
    let digit = parse_from s octet (v * 10 + (c - b'0')) ip in
    let dot = parse_from s (octet + 1) 0 (set_octet octet v ip) in
    let other = parse_from s octet v ip in
    if not (ltb octet 4) then ip else if is_digit c then digit else if c == b'.' then dot else other

unfoldable pub parse_ip : List ℕ → Ip
unfolding parse_from
parse_ip s = parse_from s 0 0 (record { b0 = 0; b1 = 0; b2 = 0; b3 = 0 })

unfoldable pub dots : List ℕ → ℕ
dots [] = 0
dots (c ∷ s) = let rest = dots s in if c == b'.' then rest + 1 else rest

unfoldable pub is_ip : List ℕ → Bool
unfolding dots
is_ip s = dots s == 3
