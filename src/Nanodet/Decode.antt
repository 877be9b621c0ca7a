-- ===== src/Nanodet/Decode.antt =====
-- The decoding of an output tensor: analytics/nanodet/src/nanodettensordec/decode.rs. A failed call
-- has no vector in its result; the decoding of a float16 is the crate half's, a parameter.
pub mod Scan
pub mod Cells
pub mod Total
use gstsmith_rs.Prelude.{
  ℕ, zero, suc, ◌+◌, ◌-◌, ◌*◌, ◌/◌, Bool, true, false, not, ◌&&◌, ◌||◌, Option, none, some, List,
  [], ◌∷◌, ◌++◌, ltb, leb, ◌==◌, if◌then◌else◌, length, take, drop, Text, codes, text_eq, try_below,
  u8_mod, u16_mod, Result, ok, err, ◌>>=◌, ok_or,
}
use gstsmith_rs.Nanodet.Float.{
  F32, f32_zero, half_bits, neg_infinity, is_finite, total_key, f32_lt, f32_le, f32_gt, f32_max,
  f32_clamp, Rounded,
}
use gstsmith_rs.Nanodet.Detection.{Detection}

abbrev pub num_classes : ℕ
num_classes = 80

abbrev pub reg_max : ℕ
reg_max = 7

abbrev pub bins : ℕ
bins = reg_max + 1

abbrev pub channels : ℕ
channels = num_classes + 4 * bins

abbrev pub nanodet_strides : List ℕ
nanodet_strides = 8 ∷ 16 ∷ 32 ∷ []

abbrev pub nanodet_plus_strides : List ℕ
nanodet_plus_strides = 8 ∷ 16 ∷ 32 ∷ 64 ∷ []

pub record Contract : Type 0 where
  pub name : Text
  pub input_size : ℕ
  pub points : ℕ
  pub strides : List ℕ
  pub half_stride_offset : Bool

abbrev pub dims : Contract → List ℕ
dims c = 1 ∷ c.points ∷ channels ∷ []

abbrev pub elements : Contract → ℕ
elements c = c.points * channels

abbrev pub contract : Text → ℕ → ℕ → List ℕ → Bool → Contract
contract name input_size points strides half_stride_offset = record {
  name = name;
  input_size = input_size;
  points = points;
  strides = strides;
  half_stride_offset = half_stride_offset;
}

abbrev pub contracts : List Contract
contracts =
    contract (codes "nanodet-m-320") 320 2_100 nanodet_strides true
    ∷ contract (codes "nanodet-plus-320") 320 2_125 nanodet_plus_strides false
    ∷ contract (codes "nanodet-m-416") 416 3_549 nanodet_strides true
    ∷ contract (codes "nanodet-plus-416") 416 3_598 nanodet_plus_strides false
    ∷ []

-- The first contract with these dimensions; both are lists of numbers.
unfoldable pub find_contract : List ℕ → List Contract → Option Contract
find_contract ds [] = none
find_contract ds (c ∷ cs) =
    let rest = find_contract ds cs in if text_eq ds (dims c) then some c else rest

unfoldable pub contract_for_dims : List ℕ → Option Contract
unfolding find_contract
contract_for_dims ds = find_contract ds contracts

-- The errors of `decode_values`, with the values in their texts.
pub data DecodeError : Type 0 where
  wrong_elements : ℕ → Contract → DecodeError
  row_unavailable class_exceeds ordinal_exceeds : ℕ → DecodeError
  wrong_points : ℕ → Contract → DecodeError

-- `slice.get(start..start + n)`.
unfoldable pub get_range {ℓ} : {A : Type ℓ} → ℕ → ℕ → List A → Option (List A)
get_range start n xs = if leb (start + n) (length xs) then some (take n (drop start xs)) else none

-- `usize::div_ceil`.
abbrev pub div_ceil : ℕ → ℕ → ℕ
div_ceil a b = (a + (b - 1)) / b

module _ (r : Rounded) where
  unfoldable pub center : Contract → ℕ → F32 → F32
  center c grid stride =
      let offset = if c.half_stride_offset then half_bits else f32_zero in
      r.mul (r.add (r.from_nat grid) offset) stride

module _ {T : Type 0} (r : Rounded) (to_f32 : T → F32) where
  -- The greatest value, none if a value is not finite.
  unfoldable pub finite_max : F32 → List T → Option F32
  finite_max top [] = some top
  finite_max top (v ∷ vs) =
      let rest = finite_max (f32_max top (to_f32 v)) vs in
      if is_finite (to_f32 v) then rest else none

  -- The sums of the probabilities, and of those weighed with their places.
  unfoldable pub weigh : F32 → ℕ → F32 → F32 → List T → F32 × F32
  weigh top index denominator numerator [] = (denominator, numerator)
  weigh top index denominator numerator (v ∷ vs) =
      let probability = r.exp (r.sub (to_f32 v) top) in
      weigh top (suc index) (r.add denominator probability)
        (r.add numerator (r.mul (r.from_nat index) probability)) vs

  unfoldable pub distribution_expectation : List T → Option F32
  unfolding finite_max weigh
  distribution_expectation values = elim (finite_max neg_infinity values) [
    | none ↦ none
    | some top ↦
        let (denominator, numerator) = weigh top 0 f32_zero f32_zero values in
        if is_finite denominator && f32_gt denominator f32_zero
        then some (r.div numerator denominator)
        else none
  ]

  -- Whether a score takes the place of the best one: the last of equal ones stays.
  unfoldable pub is_best : Option (ℕ × F32) → F32 → Bool
  is_best none score = true
  is_best (some (class, best)) score = leb (total_key best) (total_key score)

  unfoldable pub best_loop : ℕ → Option (ℕ × F32) → List T → Option (ℕ × F32)
  unfolding is_best
  best_loop class best [] = best
  best_loop class best (v ∷ vs) =
      let score = to_f32 v in
      let rest =
        best_loop (suc class) (if is_best best score then some (class, score) else best) vs in
      if is_finite score then rest else none

  unfoldable pub best_class : List T → Option (ℕ × F32)
  unfolding best_loop
  best_class scores = best_loop 0 none scores
