-- ===== src/Kernel/Text/Laws.antt =====
-- The string functions of kernel/kernel.c meet what they are for.
use chris_os.Base.{all_below, all_below_sound, ℕ, zero, suc, ◌+◌, ◌-◌, ◌*◌, ◌/◌, ◌%◌, ◌^◌, ◌<◌}
use chris_os.Base.{◌≡◌, refl, inl, inr, Bool, true, List, [], ◌∷◌, ◌++◌, arith, ◌==◌, leb}
use chris_os.Base.{if◌then◌else◌, eq→==, ==→eq, Bool-cases, length, get_or, drop}
use mathlib.Core.List.{reverse-cons, reverse}
use native.Mathlib.Nat.{pow-suc, pow-zero}
use chris_os.Kernel.Text.{upper_digits, digits_from, lower_digits, same_prefix, same_string}

pub same_string-eq : (a b : List ℕ) → same_string a b ≡ true → a ≡ b
unfolding same_string
same_string-eq [] [] h = refl
same_string-eq [] (y ∷ b) h = cc
same_string-eq (x ∷ a) [] h = cc
same_string-eq (x ∷ a) (y ∷ b) h = ground (arith, same_string-eq a b)

pub same_string_self : (a : List ℕ) → same_string a a ≡ true
unfolding same_string
same_string_self [] = refl
same_string_self (x ∷ a) = rw (eq→== x x refl, same_string_self a) refl

-- `strncmp` over the whole length of a prefix finds the texts that begin with it.
pub same_prefix-eq : (s p : List ℕ) → same_prefix (length p) s p ≡ true → s ≡ p ++ drop (length p) s
unfolding same_prefix
same_prefix-eq s [] h = refl
same_prefix-eq [] (y ∷ p) h = cc
same_prefix-eq (x ∷ s) (y ∷ p) h = ground (arith, same_prefix-eq s p)

pub same_prefix-append : (p s : List ℕ) → same_prefix (length p) (p ++ s) p ≡ true
unfolding same_prefix
same_prefix-append [] s = refl
same_prefix-append (x ∷ p) s = rw (eq→== x x refl, same_prefix-append p s) refl

-- What a digit stands for.
abbrev pub digit_value : ℕ → ℕ
digit_value c = if leb c b'9' then c - 48 else if leb c b'Z' then c - 55 else c - 87

-- The number that digits stand for behind one that has been read.
unfoldable pub number : ℕ → ℕ → List ℕ → ℕ
number base acc [] = acc
number base acc (c ∷ cs) = number base (acc * base + digit_value c) cs

number-append :
    (base acc : ℕ) (cs : List ℕ) (c : ℕ)
    → number base acc (cs ++ (c ∷ [])) ≡ number base acc cs * base + digit_value c
unfolding number
number-append base acc [] c = refl
number-append base acc (x ∷ cs) c = number-append base (acc * base + digit_value x) cs c

-- A base with the table of its digits.
pub record IsBase (base : ℕ) (table : List ℕ) : Type 0 where
  pub step : (n k : ℕ) → n < base ^ suc k → n / base < base ^ k
  pub join : (n : ℕ) → n / base * base + n % base ≡ n
  pub digit : (n : ℕ) → digit_value (get_or table (n % base) 0) ≡ n % base

-- The loop's digits, read the other way round, stand for the number, if there is room for them.
pub number-digits :
    (base : ℕ) (table : List ℕ) (room n : ℕ)
    → IsBase base table
    → n < base ^ room
    → number base 0 (reverse (digits_from room table base n)) ≡ n
unfolding digits_from number
number-digits base table zero n b h = omega (arith, pow-zero base)
number-digits base table (suc room) n b h =
    let rest = digits_from room table base (n / base) in
    let c = get_or table (n % base) 0 in
    let more : number base 0 (reverse (c ∷ rest)) ≡ n =
      rw
        (
          reverse-cons c rest,
          number-append base 0 (reverse rest) c,
          number-digits base table room (n / base) b (b.step n room h),
          b.digit n,
        )
        (b.join n) in
    elim (Bool-cases (n == 0)) [ inl e ↦ rw e (ground arith) | inr e ↦ rw e more ]

digit_test : (base : ℕ) (table : List ℕ) → Bool
digit_test base table = all_below base (λ n. digit_value (get_or table n 0) == n)

digit_table :
    (base : ℕ) (table : List ℕ) (n : ℕ)
    → digit_test base table ≡ true
    → n < base
    → digit_value (get_or table n 0) ≡ n
unfolding digit_test
digit_table base table n e h =
    ==→eq (digit_value (get_or table n 0)) n
      (all_below_sound base (λ k. digit_value (get_or table k 0) == k) n e h)

pub ten-IsBase : IsBase 10 lower_digits
unfolding digit_test
ten-IsBase = record {
  step = λ n k h. omega (arith, pow-suc 10 k);
  join = λ n. omega arith;
  digit = λ n. digit_table 10 lower_digits (n % 10) refl (omega arith);
}

pub sixteen-IsBase : IsBase 16 lower_digits
unfolding digit_test
sixteen-IsBase = record {
  step = λ n k h. omega (arith, pow-suc 16 k);
  join = λ n. omega arith;
  digit = λ n. digit_table 16 lower_digits (n % 16) refl (omega arith);
}

pub upper-IsBase : IsBase 16 upper_digits
unfolding digit_test
upper-IsBase = record {
  step = λ n k h. omega (arith, pow-suc 16 k);
  join = λ n. omega arith;
  digit = λ n. digit_table 16 upper_digits (n % 16) refl (omega arith);
}
