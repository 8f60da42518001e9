-- ===== src/Net/Checksum.antt =====
-- `ipv4_checksum` of net/ipv4.c and `tcp_checksum` of net/tcp.c: the one's complement sum of RFC
-- 1071.
use chris_os.Base.{ℕ, zero, suc, ◌+◌, ◌-◌, ◌*◌, ◌/◌, ◌%◌, ◌^◌, ◌≤◌, ◌<◌, ◌≡◌, refl, Option}
use chris_os.Base.{none, some, List, [], ◌∷◌, arith, ◌==◌, if◌then◌else◌, ne→==, length}
use chris_os.Base.Word.{u16, u32}
use native.Mathlib.Decide.{dec_lt}
use chris_os.Net.Types.{Ip}

-- The loop over the bytes: 16-bit words, high byte first, and an odd byte at the end as a high byte.
unfoldable pub sum_words : ℕ → List ℕ → ℕ
sum_words sum [] = sum
sum_words sum (a ∷ []) = u32 (sum + u16 (a * 256))
sum_words sum (a ∷ (b ∷ rest)) = sum_words (u32 (sum + u16 (a * 256 + b))) rest

-- `while (sum >> 16) sum = (sum & 0xFFFF) + (sum >> 16)`, with fuel.
unfoldable pub fold_carries : ℕ → ℕ → Option ℕ
fold_carries zero sum = none
fold_carries (suc k) sum =
    let rest = fold_carries k (sum % 2 ^ 16 + sum / 2 ^ 16) in
    if sum / 2 ^ 16 == 0 then some sum else rest

-- Three tests of the loop are enough for any 32-bit sum (`fold_carries_total`).
abbrev pub carries : ℕ
carries = 3

abbrev pub complement16 : ℕ → ℕ
complement16 s = 2 ^ 16 - 1 - s

unfoldable pub finish : ℕ → ℕ
finish sum = elim (fold_carries carries sum) [ none ↦ 0 | some s ↦ complement16 s ]

unfoldable pub ipv4_checksum : List ℕ → ℕ
unfolding sum_words finish fold_carries
ipv4_checksum bytes = finish (sum_words 0 bytes)

-- The pseudo header of the addresses, the protocol number 6 and the length comes first.
unfoldable pub tcp_checksum : Ip → Ip → List ℕ → ℕ
unfolding sum_words finish fold_carries
tcp_checksum src dst seg = finish (
    sum_words
      (u16 (src.b0 * 256 + src.b1)
        + u16 (src.b2 * 256 + src.b3)
        + u16 (dst.b0 * 256 + dst.b1)
        + u16 (dst.b2 * 256 + dst.b3)
        + 6
        + length seg)
      seg)

-- What the folding of a sum results in: a 16-bit number, 0 only for 0, congruent modulo `2 ^ 16 - 1`.
pub record Folded (sum : ℕ) (r : Option ℕ) : Type 0 where
  pub value : ℕ
  pub result : r ≡ some value
  pub fits : value < 2 ^ 16
  pub congruent : value % 65535 ≡ sum % 65535
  pub positive : 0 < sum → 0 < value

fold_carries-done : (k sum : ℕ) → sum < 2 ^ 16 → Folded sum (fold_carries (suc k) sum)
unfolding fold_carries
fold_carries-done k sum h = record {
  value = sum;
  result = ground arith;
  fits = h;
  congruent = refl;
  positive = λ p. p;
}

fold_carries-more :
    (k sum : ℕ)
    → 2 ^ 16 ≤ sum
    → fold_carries (suc k) sum ≡ fold_carries k (sum % 2 ^ 16 + sum / 2 ^ 16)
unfolding fold_carries
fold_carries-more k sum h = rw (ne→== (sum / 2 ^ 16) 0 (omega arith)) refl

Folded-more : (sum : ℕ) {r : Option ℕ} → Folded (sum % 2 ^ 16 + sum / 2 ^ 16) r → Folded sum r
Folded-more sum f = record {
  value = f.value;
  result = f.result;
  fits = f.fits;
  congruent = omega (arith, f.congruent);
  positive = λ p. f.positive (omega arith);
}

fold_carries-step :
    (k sum : ℕ)
    → (2 ^ 16 ≤ sum
        → Folded (sum % 2 ^ 16 + sum / 2 ^ 16) (fold_carries k (sum % 2 ^ 16 + sum / 2 ^ 16)))
    → Folded sum (fold_carries (suc k) sum)
fold_carries-step k sum next = elim (dec_lt sum (2 ^ 16)) [
  | yes small ↦ fold_carries-done k sum small
  | no large ↦
      let big : 2 ^ 16 ≤ sum = omega arith in
      rw (fold_carries-more k sum big) (Folded-more sum (next big))
]

-- The folding loop ends within three tests on any 32-bit sum: with a 16-bit number that is congruent
-- to the sum modulo `2 ^ 16 - 1` and is 0 only if the sum is.
pub fold_carries_total : (sum : ℕ) → sum < 2 ^ 32 → Folded sum (fold_carries carries sum)
fold_carries_total sum h = fold_carries-step 2 sum (λ big.
    fold_carries-step 1 (sum % 2 ^ 16 + sum / 2 ^ 16) (λ big'. fold_carries-done 0 _ (omega arith)))

-- The result of `finish` in terms of the folded sum.
record Finished (sum : ℕ) : Type 0 where
  value : ℕ
  result : finish sum ≡ 2 ^ 16 - 1 - value
  fits : value < 2 ^ 16
  congruent : value % 65535 ≡ sum % 65535
  positive : 0 < sum → 0 < value

finish_lem : (sum : ℕ) → sum < 2 ^ 32 → Finished sum
unfolding finish
finish_lem sum h =
    let f = fold_carries_total sum h in
    record {
      value = f.value;
      result = rw (f.result, finish) refl;
      fits = f.fits;
      congruent = f.congruent;
      positive = f.positive;
    }

-- The checksum of a nonzero sum below 2 ^ 31 completes it: the sum with the checksum added is
-- folded to all ones, whose complement is 0.
pub finish_completes : (sum : ℕ) → 0 < sum → sum < 2 ^ 31 → finish (sum + finish sum) ≡ 0
finish_completes sum pos h =
    let f = finish_lem sum (omega arith) in
    let g = finish_lem (sum + finish sum) (omega (arith, f.result)) in
    omega (
      arith,
      f.result,
      f.fits,
      f.congruent,
      f.positive pos,
      g.result,
      g.fits,
      g.congruent,
      g.positive (omega arith),
    )

pub finish-lt : (sum : ℕ) → finish sum < 2 ^ 16
unfolding finish
finish-lt sum = ground arith
