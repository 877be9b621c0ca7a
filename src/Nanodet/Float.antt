-- ===== src/Nanodet/Float.antt =====
-- Numbers of type `f32` as their bit patterns, below 2^32: the comparisons are on the bits, the
-- rounded operations are parameters.
use gstsmith_rs.Prelude.{ℕ, ◌+◌, ◌-◌, ◌^◌, ◌%◌, Bool, not, ◌&&◌, ◌||◌, ltb, leb, if◌then◌else◌}

abbrev pub F32 : Type 0
F32 = ℕ

abbrev pub sign_bit : ℕ
sign_bit = 2 ^ 31

abbrev pub f32_zero : F32
f32_zero = 0

abbrev pub half_bits : F32
half_bits = 0x3f000000

abbrev pub neg_infinity : F32
neg_infinity = 0xff800000

unfoldable pub is_negative : F32 → Bool
is_negative a = leb sign_bit a

abbrev pub magnitude : F32 → ℕ
magnitude a = a % sign_bit

unfoldable pub is_nan : F32 → Bool
is_nan a = ltb 0x7f800000 (magnitude a)

unfoldable pub is_finite : F32 → Bool
is_finite a = ltb (magnitude a) 0x7f800000

-- The place of a number in the order of `f32::total_cmp`.
unfoldable pub total_key : F32 → ℕ
unfolding is_negative
total_key a = if is_negative a then sign_bit - 1 - magnitude a else sign_bit + magnitude a

-- The place of a number in the order of `<`: both zeros have the same.
unfoldable pub value_key : F32 → ℕ
unfolding is_negative
value_key a = if is_negative a then sign_bit - magnitude a else sign_bit + magnitude a

-- `a < b`, `a <= b` and `a > b`, false for a NaN.
unfoldable pub f32_lt : F32 → F32 → Bool
unfolding is_nan value_key
f32_lt a b = not (is_nan a || is_nan b) && ltb (value_key a) (value_key b)

unfoldable pub f32_le : F32 → F32 → Bool
unfolding is_nan value_key
f32_le a b = not (is_nan a || is_nan b) && leb (value_key a) (value_key b)

abbrev pub f32_gt : F32 → F32 → Bool
f32_gt a b = f32_lt b a

-- `f32::max` and `f32::min`: the other number if one is NaN.
unfoldable pub f32_max : F32 → F32 → F32
f32_max a b = if is_nan a then b else if f32_lt a b then b else a

unfoldable pub f32_min : F32 → F32 → F32
f32_min a b = if is_nan a then b else if f32_lt b a then b else a

-- `f32::clamp`, for bounds in order.
unfoldable pub f32_clamp : F32 → F32 → F32 → F32
f32_clamp a low high = if f32_lt a low then low else if f32_lt high a then high else a

-- The operations that round, and the conversion of small numbers.
pub record Rounded : Type 0 where
  pub add : F32 → F32 → F32
  pub sub : F32 → F32 → F32
  pub mul : F32 → F32 → F32
  pub div : F32 → F32 → F32
  pub exp : F32 → F32
  pub from_nat : ℕ → F32
