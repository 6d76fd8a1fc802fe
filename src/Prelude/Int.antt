-- ===== src/Prelude/Int.antt =====
-- Signed integers over the native numbers, and `i64::saturating_sub`.
use agent_first_mail.Prelude.{
  ℕ, suc, ◌+◌, ◌-◌, ◌%◌, ◌≤◌, ◌<◌, ◌≡◌, ◌↔◌, Bool, true, arith, ltb, leb, if◌then◌else◌,
}

-- `negsuc n` is -(n + 1).
pub data ℤ : Type 0 where
  pos : ℕ → ℤ
  negsuc : ℕ → ℤ

abbrev pub pos_part : ℤ → ℕ
pos_part (pos n) = n
pos_part (negsuc n) = 0

abbrev pub neg_part : ℤ → ℕ
neg_part (pos n) = 0
neg_part (negsuc n) = suc n

-- a - b, as an integer.
abbrev pub sub_ℕ : ℕ → ℕ → ℤ
sub_ℕ a b = if leb b a then pos (a - b) else negsuc (b - a - 1)

abbrev pub ltb_ℤ : ℤ → ℤ → Bool
ltb_ℤ a b = ltb (pos_part a + neg_part b) (pos_part b + neg_part a)

infix 50 ◌<ℤ◌
abbrev pub ◌<ℤ◌ : ℤ → ℤ → Type 0
a <ℤ b = pos_part a + neg_part b < pos_part b + neg_part a

abbrev pub i64_max : ℕ
i64_max = 9223372036854775807

-- `x as i64` for a 64-bit number
abbrev pub as_i64 : ℕ → ℤ
as_i64 n =
    let m = n % 18446744073709551616 in
    if leb m i64_max then pos m else negsuc (18446744073709551615 - m)

-- `x as u64`
abbrev as_u64 : ℤ → ℕ
as_u64 (pos n) = n % 18446744073709551616
as_u64 (negsuc n) = 18446744073709551615 - n % 18446744073709551616

-- A sum of two 64-bit integers.
abbrev pub add_i64 : ℤ → ℤ → ℤ
add_i64 a b = as_i64 (as_u64 a + as_u64 b)

clamp_i64 : ℤ → ℤ
clamp_i64 (pos n) = if ltb i64_max n then pos i64_max else pos n
clamp_i64 (negsuc n) = if ltb i64_max n then negsuc i64_max else negsuc n

unfoldable pub saturating_sub : ℤ → ℤ → ℤ
unfolding clamp_i64
saturating_sub a b = clamp_i64 (sub_ℕ (pos_part a + neg_part b) (neg_part a + pos_part b))

-- Saturation does not change the answer of a test against a bound inside the range.
pub saturating_sub_lt :
    (a b : ℤ) (r : ℕ)
    → r ≤ i64_max
    → (ltb_ℤ (saturating_sub a b) (pos r) ≡ true)
      ↔ (pos_part a + neg_part b < r + pos_part b + neg_part a)
unfolding saturating_sub
saturating_sub_lt a b r h = ground arith
