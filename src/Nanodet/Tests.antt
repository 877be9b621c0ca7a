-- ===== src/Nanodet/Tests.antt =====
-- Runs of the decoder on concrete inputs: analytics/nanodet/src/nanodettensordec.
use gstsmith_rs.Prelude.{
  ℕ, zero, suc, ◌+◌, ◌-◌, ◌*◌, ◌/◌, ◌++◌, none, ◌≤◌, ◌≡◌, refl, ap, false, some, List, [], ◌∷◌,
  arith, length, All, replicate, ok, map, codes, text_eq,
}
use gstsmith_rs.Nanodet.Float.{
  F32, f32_zero, f32_lt, f32_le, f32_clamp, is_finite, f32_max, f32_min, total_key, Rounded,
}
use gstsmith_rs.Nanodet.Detection.{Detection}
use gstsmith_rs.Nanodet.Nms.{suppress, overlaps}
use gstsmith_rs.Nanodet.Nms.Greedy.{greedy, suppress-greedy}
use gstsmith_rs.Nanodet.Nms.Kept.{KeepsApart, suppress-KeepsApart, Explained, suppress-Explained}
use gstsmith_rs.Nanodet.Nms.{sort, detection_le}
use gstsmith_rs.Nanodet.Decode.{
  Contract, contract, nanodet_plus_strides, elements, contract_for_dims, channels, get_range,
  best_class, distribution_expectation, center,
}
use gstsmith_rs.Nanodet.Decode.Scan.{decode_values, read_cell, rows_of}
use gstsmith_rs.Nanodet.Decode.Total.{IsGood, decode_values-ok}

-- Numbers that are not negative, as if a bit pattern were the number itself.
abbrev whole_numbers : Rounded
whole_numbers = record {
  add = λ a b. a + b;
  sub = λ a b. a - b;
  mul = λ a b. a * b;
  div = λ a b. a;
  exp = λ a. a + 1;
  from_nat = λ n. n;
}

abbrev box : ℕ → ℕ → ℕ → ℕ → Detection
box class score x1 ordinal = record {
  class = class;
  score = score;
  x1 = x1;
  y1 = 0;
  x2 = x1 + 10;
  y2 = 10;
  ordinal = ordinal;
}

-- The second overlaps the first by half, the third is of another class.
abbrev boxes : List Detection
boxes = box 1 50 5 0 ∷ box 1 90 0 1 ∷ box 2 70 5 2 ∷ []

kept_boxes : map Detection.ordinal (suppress whole_numbers 20 5 boxes) ≡ 1 ∷ 2 ∷ []
unfolding suppress f32_max f32_min f32_lt total_key sort detection_le
kept_boxes = refl

suppress-greedy_example :
    suppress whole_numbers 20 5 boxes ≡ greedy (overlaps whole_numbers 20) 5 [] (sort boxes)
suppress-greedy_example = suppress-greedy whole_numbers 20 5 boxes

suppress-KeepsApart_example : KeepsApart whole_numbers 20 5 boxes
suppress-KeepsApart_example = suppress-KeepsApart whole_numbers 20 5 boxes

two_kept : length (suppress whole_numbers 20 5 boxes) ≡ 2
unfolding suppress f32_max f32_min f32_lt total_key sort detection_le
two_kept = refl

suppress-Explained_example :
    All (Explained (overlaps whole_numbers 20) [] (suppress whole_numbers 20 5 boxes)) boxes
suppress-Explained_example = suppress-Explained whole_numbers 20 5 boxes (omega (arith, two_kept))

length-replicate : (n a : ℕ) → length (replicate n a) ≡ n
length-replicate zero a = refl
length-replicate (suc n) a = ap suc (length-replicate n a)

abbrev small : Contract
small = contract (codes "nanodet-plus-320") 320 2_125 nanodet_plus_strides false

-- The cell at the origin of a grid finds a box of four sides of 28 cells, cut to the image.
read_five :
    read_cell whole_numbers (λ x. x) small 4 0 0 8 (replicate 112 5)
    ≡ some (record { class = 79; score = 5; x1 = 0; y1 = 0; x2 = 224; y2 = 224 })
unfolding read_cell get_range best_class distribution_expectation is_finite f32_lt f32_le f32_max
    f32_clamp total_key center
read_five = refl

abbrev not_a_number : F32
not_a_number = 0x7fc00000

-- A side with one value that is not a number: no box.
read_not_a_number :
    read_cell whole_numbers (λ x. x) small 4 0 0 8 (replicate 111 5 ++ not_a_number ∷ []) ≡ none
unfolding read_cell get_range best_class distribution_expectation is_finite f32_lt f32_le f32_max
    f32_clamp total_key
read_not_a_number = refl

small_tensor : List F32
small_tensor = replicate 238_000 5

small_tensor_size : length small_tensor ≡ elements small
unfolding small_tensor
small_tensor_size = length-replicate 238_000 5

small_found : contract_for_dims (1 ∷ 2_125 ∷ 112 ∷ []) ≡ some small
unfolding contract_for_dims text_eq
small_found = refl

size_ok : f32_lt (whole_numbers.from_nat 320) f32_zero ≡ false
unfolding f32_lt
size_ok = refl

decode_values-ok_example :
    (found : List Detection) × (decode_values whole_numbers (λ x. x) small 4 20 100 small_tensor
      ≡ ok found)
    × (length found ≤ 100)
    × All
        (IsGood (λ x. x) small 320 4 (rows_of (length small_tensor / channels) small_tensor))
        found
decode_values-ok_example =
    decode_values-ok whole_numbers (λ x. x) 4 20 100 (1 ∷ 2_125 ∷ 112 ∷ []) small small_tensor
      size_ok small_found small_tensor_size
