-- ===== src/Shell/Address/Laws.antt =====
-- The addresses of shell/shell.c: what `print_ip` writes, `parse_ip` reads.
use chris_os.Base.{all_below_sound, ℕ, ◌+◌, ◌-◌, ◌*◌, ◌<◌, ◌≡◌, refl, sym, ap, ap₂, ◌∙◌, inl}
use chris_os.Base.{inr, Bool, true, ◌&&◌, List, [], ◌∷◌, ◌++◌, arith, ◌==◌, eq→==, ==→eq}
use chris_os.Base.{lt→ltb, Bool-cases, All}
use chris_os.Base.Int.{pos}
use chris_os.Base.Word.{u8}
use mathlib.Core.List.{append-nil}
use chris_os.Kernel.Text.{itoa, digits_from}
use chris_os.Net.Types.{Ip}
use chris_os.Shell.Address.{print_ip, parse_ip, parse_from, set_octet, is_digit, is_ip, dots}

pub record IsIp (ip : Ip) : Type 0 where
  pub first : ip.b0 < 256
  pub second : ip.b1 < 256
  pub third : ip.b2 < 256
  pub fourth : ip.b3 < 256

-- The number that a run of digits makes of the one in front of it, and whether all are digits.
abbrev value : ℕ → List ℕ → ℕ
value v [] = v
value v (c ∷ cs) = value (v * 10 + (c - b'0')) cs

abbrev all_digits : List ℕ → Bool
all_digits [] = true
all_digits (c ∷ cs) = is_digit c && all_digits cs

octet_value : (n : ℕ) → n < 256 → value 0 (itoa (pos n)) ≡ n
unfolding itoa digits_from
octet_value n h =
    ==→eq (value 0 (itoa (pos n))) n
      (all_below_sound 256 (λ n. value 0 (itoa (pos n)) == n) n refl h)

octet_digits : (n : ℕ) → n < 256 → all_digits (itoa (pos n)) ≡ true
unfolding itoa digits_from is_digit
octet_digits n h = all_below_sound 256 (λ n. all_digits (itoa (pos n))) n refl h

IsDigits : List ℕ → Type 0
IsDigits cs = All (λ c. is_digit c ≡ true) cs

all_digits-IsDigits : (cs : List ℕ) → all_digits cs ≡ true → IsDigits cs
unfolding IsDigits
all_digits-IsDigits [] h = tt
all_digits-IsDigits (c ∷ cs) h = elim (Bool-cases (is_digit c)) [
  | inl e ↦ (e, all_digits-IsDigits cs (ground (arith, e, h)))
  | inr e ↦ absurd (ground (arith, e, h))
]

octet-IsDigits : (n : ℕ) → n < 256 → IsDigits (itoa (pos n))
octet-IsDigits n h = all_digits-IsDigits (itoa (pos n)) (octet_digits n h)

-- Digits go into the number, and none is a dot.
parse_from-digits :
    (cs s : List ℕ) (octet v : ℕ) (ip : Ip)
    → octet < 4
    → IsDigits cs
    → parse_from (cs ++ s) octet v ip ≡ parse_from s octet (value v cs) ip
unfolding parse_from IsDigits
parse_from-digits [] s octet v ip h d = refl
parse_from-digits (c ∷ cs) s octet v ip h (e, d) =
    let next = parse_from-digits cs s octet (v * 10 + (c - b'0')) ip h d in
    rw (parse_from, lt→ltb octet 4 h, e) next

-- A dot puts the number into its octet.
parse_from-dot :
    (s : List ℕ) (octet v : ℕ) (ip : Ip)
    → octet < 4
    → parse_from (b'.' ∷ s) octet v ip ≡ parse_from s (octet + 1) 0 (set_octet octet v ip)
unfolding parse_from is_digit
parse_from-dot s octet v ip h = rw (parse_from, lt→ltb octet 4 h) refl

-- An octet and the dot behind it.
parse_from-octet :
    (n : ℕ) (s : List ℕ) (octet : ℕ) (ip : Ip)
    → n < 256
    → octet < 4
    → parse_from (itoa (pos n) ++ (b'.' ∷ s)) octet 0 ip
      ≡ parse_from s (octet + 1) 0 (set_octet octet n ip)
parse_from-octet n s octet ip h k =
    parse_from-digits (itoa (pos n)) (b'.' ∷ s) octet 0 ip k (octet-IsDigits n h)
    ∙ (parse_from-dot s octet (value 0 (itoa (pos n))) ip k
        ∙ ap (λ v. parse_from s (octet + 1) 0 (set_octet octet v ip)) (octet_value n h))

-- The last octet ends with the text.
parse_from-last : (n : ℕ) (ip : Ip) → n < 256 → parse_from (itoa (pos n)) 3 0 ip ≡ set_octet 3 n ip
unfolding parse_from
parse_from-last n ip h =
    ap (λ s. parse_from s 3 0 ip) (sym (append-nil (itoa (pos n))))
    ∙ (parse_from-digits (itoa (pos n)) [] 3 0 ip (omega arith) (octet-IsDigits n h)
        ∙ ap (λ v. set_octet 3 v ip) (octet_value n h))

zero_ip : Ip
zero_ip = record { b0 = 0; b1 = 0; b2 = 0; b3 = 0 }

octets_set :
    (ip : Ip)
    → IsIp ip
    → set_octet 3 ip.b3 (set_octet 2 ip.b2 (set_octet 1 ip.b1 (set_octet 0 ip.b0 zero_ip))) ≡ ip
unfolding set_octet zero_ip
octets_set ip h =
    let a : u8 ip.b0 ≡ ip.b0 = omega (arith, h.first) in
    let b : u8 ip.b1 ≡ ip.b1 = omega (arith, h.second) in
    let d : u8 ip.b2 ≡ ip.b2 = omega (arith, h.third) in
    let e : u8 ip.b3 ≡ ip.b3 = omega (arith, h.fourth) in
    ap₂ (λ (x : ℕ × ℕ) (y : ℕ × ℕ). record { b0 = x.0; b1 = x.1; b2 = y.0; b3 = y.1 })
      (ap₂ (λ x y. (x, y)) a b) (ap₂ (λ x y. (x, y)) d e)

-- The shell reads every address as it prints it.
pub parse_ip-print_ip : (ip : Ip) → IsIp ip → parse_ip (print_ip ip) ≡ ip
unfolding parse_ip print_ip zero_ip
parse_ip-print_ip ip h =
    let one = set_octet 0 ip.b0 zero_ip in
    let two = set_octet 1 ip.b1 one in
    let three = set_octet 2 ip.b2 two in
    let last = itoa (pos ip.b3) in
    let end = itoa (pos ip.b2) ++ (b'.' ∷ last) in
    parse_from-octet ip.b0 (itoa (pos ip.b1) ++ (b'.' ∷ end)) 0 zero_ip h.first (omega arith)
    ∙ (parse_from-octet ip.b1 end 1 one h.second (omega arith)
        ∙ (parse_from-octet ip.b2 last 2 two h.third (omega arith)
            ∙ (parse_from-last ip.b3 three h.fourth ∙ octets_set ip h)))

dots-append : (a b : List ℕ) → dots (a ++ b) ≡ dots a + dots b
unfolding dots
dots-append [] b = omega arith
dots-append (c ∷ a) b = ground (arith, dots-append a b)

octet_dots : (n : ℕ) → n < 256 → dots (itoa (pos n)) ≡ 0
unfolding itoa digits_from dots
octet_dots n h =
    ==→eq (dots (itoa (pos n))) 0 (all_below_sound 256 (λ n. dots (itoa (pos n)) == 0) n refl h)

-- The shell takes a printed address for one, and not for the name of a host.
pub is_ip-print_ip : (ip : Ip) → IsIp ip → is_ip (print_ip ip) ≡ true
unfolding is_ip print_ip dots
is_ip-print_ip ip h =
    let fourth = itoa (pos ip.b3) in
    let third = itoa (pos ip.b2) ++ (b'.' ∷ fourth) in
    let second = itoa (pos ip.b1) ++ (b'.' ∷ third) in
    let first_dot : dots (print_ip ip) ≡ dots (itoa (pos ip.b0)) + (dots second + 1) =
      dots-append (itoa (pos ip.b0)) (b'.' ∷ second) in
    let second_dot : dots second ≡ dots (itoa (pos ip.b1)) + (dots third + 1) =
      dots-append (itoa (pos ip.b1)) (b'.' ∷ third) in
    let third_dot : dots third ≡ dots (itoa (pos ip.b2)) + (dots fourth + 1) =
      dots-append (itoa (pos ip.b2)) (b'.' ∷ fourth) in
    let none_0 = octet_dots ip.b0 h.first in
    let none_1 = octet_dots ip.b1 h.second in
    let none_2 = octet_dots ip.b2 h.third in
    let none_3 = octet_dots ip.b3 h.fourth in eq→== (dots (print_ip ip)) 3 (omega arith)
