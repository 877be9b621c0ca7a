-- ===== src/Nanodet/Nms.antt =====
-- Non-maximum suppression: analytics/nanodet/src/nanodettensordec/nms.rs.
pub mod Greedy
pub mod Kept
use gstsmith_rs.Prelude.{
  ℕ, zero, suc, ◌≤◌, Bool, true, false, ◌&&◌, Option, none, some, List, [], ◌∷◌, ltb, leb, ◌==◌,
  if◌then◌else◌, length, get_elem?, set, take, any,
}
use gstsmith_rs.Nanodet.Float.{F32, f32_zero, f32_gt, f32_max, f32_min, total_key, Rounded}
use gstsmith_rs.Nanodet.Detection.{Detection}

-- `detection_order(left, right).is_le()`: by the score downwards, then by the class and the ordinal.
unfoldable pub detection_le : Detection → Detection → Bool
unfolding total_key
detection_le left right =
    if ltb (total_key right.score) (total_key left.score)
    then true
    else if ltb (total_key left.score) (total_key right.score)
    then false
    else if ltb left.class right.class
    then true
    else if ltb right.class left.class
    then false
    else leb left.ordinal right.ordinal

unfoldable pub insert : Detection → List Detection → List Detection
insert d [] = d ∷ []
insert d (e ∷ es) = let rest = insert d es in if detection_le d e then d ∷ e ∷ es else e ∷ rest

-- `sort_unstable_by`. Detections of one image have different ordinals, so that only one order is
-- sorted.
unfoldable pub sort : List Detection → List Detection
unfolding insert
sort [] = []
sort (d ∷ ds) = insert d (sort ds)

module _ (r : Rounded) where
  unfoldable pub intersection_over_union : Detection → Detection → F32
  intersection_over_union left right =
      let width = f32_max (r.sub (f32_min left.x2 right.x2) (f32_max left.x1 right.x1)) f32_zero in
      let height = f32_max (r.sub (f32_min left.y2 right.y2) (f32_max left.y1 right.y1)) f32_zero in
      let intersection = r.mul width height in
      let left_area = r.mul (r.sub left.x2 left.x1) (r.sub left.y2 left.y1) in
      let right_area = r.mul (r.sub right.x2 right.x1) (r.sub right.y2 right.y1) in
      let union = r.sub (r.add left_area right_area) intersection in
      if f32_gt union f32_zero then r.div intersection union else f32_zero

  -- The test of a retained detection against a candidate.
  unfoldable pub overlaps : F32 → Detection → Detection → Bool
  unfolding intersection_over_union
  overlaps iou_threshold candidate previous =
      previous.class == candidate.class
      && f32_gt (intersection_over_union previous candidate) iou_threshold

  -- `candidates.get(..retained).is_some_and(...)`.
  abbrev pub any_before : (Detection → Bool) → ℕ → List Detection → Bool
  any_before p retained cs = if leb retained (length cs) then any p (take retained cs) else false

  -- The loop from `index` on, in place, with how many iterations are left: the number of the
  -- retained ones and the vector.
  unfoldable pub suppress_loop : F32 → ℕ → ℕ → ℕ → ℕ → List Detection → ℕ × List Detection
  unfolding overlaps
  suppress_loop iou_threshold limit zero index retained cs = (retained, cs)
  suppress_loop iou_threshold limit (suc left) index retained cs = elim (get_elem? cs index) [
    | none ↦ (retained, cs)
    | some candidate ↦
        let skipped = suppress_loop iou_threshold limit left (suc index) retained cs in
        let cs' = set cs retained candidate in
        let next = suppress_loop iou_threshold limit left (suc index) (suc retained) cs' in
        if any_before (overlaps iou_threshold candidate) retained cs
        then skipped
        else elim (get_elem? cs retained) [
          | none ↦ (retained, cs)
          | some slot ↦ if suc retained == limit then (suc retained, cs') else next
        ]
  ]

  unfoldable pub suppress : F32 → ℕ → List Detection → List Detection
  unfolding suppress_loop
  suppress iou_threshold limit candidates =
      if limit == 0
      then []
      else let sorted = sort candidates in
        let (retained, cs) = suppress_loop iou_threshold limit (length sorted) 0 0 sorted in
        take retained cs
