-- ===== src/Nanodet/Decode/Scan.antt =====
-- The loops over the grids: `decode_values` of analytics/nanodet/src/nanodettensordec/decode.rs.
use gstsmith_rs.Prelude.{
  ℕ, zero, suc, ◌+◌, ◌*◌, ◌/◌, ◌||◌, Option, none, some, List, [], ◌∷◌, ◌++◌, ◌==◌, if◌then◌else◌,
  length, take, drop, try_below, u8_mod, u16_mod, Result, ok, err, ◌>>=◌, ok_or,
}
use gstsmith_rs.Nanodet.Float.{F32, f32_zero, f32_lt, f32_le, f32_clamp, Rounded}
use gstsmith_rs.Nanodet.Detection.{Detection}
use gstsmith_rs.Nanodet.Nms.{suppress}
use gstsmith_rs.Nanodet.Decode.{
  Contract, DecodeError, wrong_elements, row_unavailable, class_exceeds, ordinal_exceeds,
  wrong_points, num_classes, bins, channels, elements, get_range, div_ceil, center, best_class,
  distribution_expectation,
}

-- The rows that are left, the number of the point, and the vector.
pub record Scan (T : Type 0) : Type 0 where
  pub rows : List (List T)
  pub point : ℕ
  pub candidates : List Detection

-- What a row says of its cell.
pub record Cell : Type 0 where
  pub class : ℕ
  pub score : F32
  pub x1 : F32
  pub y1 : F32
  pub x2 : F32
  pub y2 : F32

-- The first `k` rows, as `as_chunks` gives them.
unfoldable pub rows_of : {T : Type 0} → ℕ → List T → List (List T)
rows_of zero output = []
rows_of (suc k) output = take channels output ∷ rows_of k (drop channels output)

module _ {T : Type 0} (r : Rounded) (to_f32 : T → F32) (c : Contract) (score_threshold : F32) where
  -- The distance of a side, none where the loop over the sides sets `valid` to false.
  unfoldable pub side_distance : F32 → List T → ℕ → Option F32
  side_distance stride row side = elim (get_range (num_classes + side * bins) bins row) [
    | none ↦ none
    | some values ↦ elim (distribution_expectation r to_f32 values) [
      | none ↦ none
      | some value ↦ some (r.mul value stride)
    ]
  ]

  unfoldable pub distances : F32 → List T → Option (F32 × F32 × F32 × F32)
  unfolding side_distance
  distances stride row = elim (side_distance stride row 0) [
    | none ↦ none
    | some left ↦ elim (side_distance stride row 1) [
      | none ↦ none
      | some top ↦ elim (side_distance stride row 2) [
        | none ↦ none
        | some right ↦ elim (side_distance stride row 3) [
          | none ↦ none
          | some bottom ↦ some (left, top, right, bottom)
        ]
      ]
    ]
  ]

  -- The box around the center of a cell, none if it has no area.
  unfoldable pub box_of : ℕ → ℕ → F32 → ℕ → F32 → F32 × F32 × F32 × F32 → Option Cell
  box_of grid_x grid_y stride class score (left, top, right, bottom) =
      let size = r.from_nat c.input_size in
      let center_x = center r c grid_x stride in
      let center_y = center r c grid_y stride in
      let x1 = f32_clamp (r.sub center_x left) f32_zero size in
      let y1 = f32_clamp (r.sub center_y top) f32_zero size in
      let x2 = f32_clamp (r.add center_x right) f32_zero size in
      let y2 = f32_clamp (r.add center_y bottom) f32_zero size in
      if f32_le x2 x1 || f32_le y2 y1
      then none
      else some (record { class = class; score = score; x1 = x1; y1 = y1; x2 = x2; y2 = y2 })

  -- A row up to the conversions, none where the loop continues with the next cell.
  unfoldable pub read_cell : ℕ → ℕ → F32 → List T → Option Cell
  unfolding distances box_of
  read_cell grid_x grid_y stride row = elim (get_range 0 num_classes row) [
    | none ↦ none
    | some scores ↦ elim (best_class r to_f32 scores) [
      | none ↦ none
      | some (class, score) ↦
          if f32_lt score score_threshold then none else elim (distances stride row) [
            | none ↦ none
            | some ds ↦ box_of grid_x grid_y stride class score ds
          ]
    ]
  ]

  unfoldable pub push : ℕ → Cell → List Detection → Result DecodeError (List Detection)
  push point cell candidates = do
    class ← ok_or (try_below u8_mod cell.class) (class_exceeds cell.class)
    ordinal ← ok_or (try_below u16_mod point) (ordinal_exceeds point)
    ok (
        candidates
        ++ record {
          class = class;
          score = cell.score;
          x1 = cell.x1;
          y1 = cell.y1;
          x2 = cell.x2;
          y2 = cell.y2;
          ordinal = ordinal;
        }
          ∷ [])

  unfoldable pub push_cell : ℕ → Option Cell → List Detection → Result DecodeError (List Detection)
  unfolding push
  push_cell point none candidates = ok candidates
  push_cell point (some cell) candidates = push point cell candidates

  -- The body of the loops.
  unfoldable pub visit : ℕ → ℕ → ℕ → Scan T → Result DecodeError (Scan T)
  unfolding read_cell push_cell
  visit stride grid_y grid_x s = elim s.rows [
    | [] ↦ err (row_unavailable s.point)
    | row ∷ rows ↦ do
      candidates ← push_cell s.point (read_cell grid_x grid_y (r.from_nat stride) row) s.candidates
      ok (record { rows = rows; point = suc (s.point); candidates = candidates })
  ]

  -- `for grid_x in 0..grid`, with how many columns are left.
  unfoldable pub visit_columns : ℕ → ℕ → ℕ → ℕ → Scan T → Result DecodeError (Scan T)
  unfolding visit
  visit_columns stride grid_y grid_x zero s = ok s
  visit_columns stride grid_y grid_x (suc left) s =
      visit stride grid_y grid_x s >>= visit_columns stride grid_y (suc grid_x) left

  -- `for grid_y in 0..grid`, with how many rows are left.
  unfoldable pub visit_rows : ℕ → ℕ → ℕ → ℕ → Scan T → Result DecodeError (Scan T)
  unfolding visit_columns
  visit_rows stride grid grid_y zero s = ok s
  visit_rows stride grid grid_y (suc left) s =
      visit_columns stride grid_y 0 grid s >>= visit_rows stride grid (suc grid_y) left

  unfoldable pub visit_strides : List ℕ → Scan T → Result DecodeError (Scan T)
  unfolding visit_rows
  visit_strides [] s = ok s
  visit_strides (stride ∷ strides) s =
      let grid = div_ceil c.input_size stride in
      visit_rows stride grid 0 grid s >>= visit_strides strides

  -- The check behind the loops, and the suppression.
  unfoldable pub finish : F32 → ℕ → Scan T → Result DecodeError (List Detection)
  finish iou_threshold max_detections s =
      if s.point == c.points
      then ok (suppress r iou_threshold max_detections s.candidates)
      else err (wrong_points s.point c)

  unfoldable pub decode_values : F32 → ℕ → List T → Result DecodeError (List Detection)
  unfolding visit_strides finish rows_of
  decode_values iou_threshold max_detections output =
      if length output == elements c
      then visit_strides c.strides
          (record { rows = rows_of (length output / channels) output; point = 0; candidates = [] })
        >>= finish iou_threshold max_detections
      else err (wrong_elements (length output) c)

-- On `f32` values, and on the bits of float16 values.
unfoldable pub decode :
    Rounded → List F32 → Contract → F32 → F32 → ℕ → Result DecodeError (List Detection)
unfolding decode_values
decode r output c score_threshold iou_threshold max_detections =
    decode_values r (λ x. x) c score_threshold iou_threshold max_detections output

unfoldable pub decode_float16 :
    Rounded → (ℕ → F32) → List ℕ → Contract → F32 → F32 → ℕ → Result DecodeError (List Detection)
unfolding decode_values
decode_float16 r f16_to_f32 output c score_threshold iou_threshold max_detections =
    decode_values r f16_to_f32 c score_threshold iou_threshold max_detections output
