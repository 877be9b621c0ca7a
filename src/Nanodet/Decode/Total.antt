-- ===== src/Nanodet/Decode/Total.antt =====
-- The loops over the grids of a contract, cell by cell:
-- analytics/nanodet/src/nanodettensordec/decode.rs.
use gstsmith_rs.Prelude.{
  ℕ, zero, suc, ◌+◌, ◌*◌, ◌/◌, ◌<◌, ◌≤◌, ◌≡◌, refl, ap, subst, ◌∙◌, true, false, Option, none, some,
  get_elem?, sym, List, [], ◌∷◌, ◌++◌, arith, ltb, ◌==◌, Bool-cases, inl, inr, length, All,
  All-append, text_eq, u8_mod, u16_mod, Result, ok, ◌>>=◌,
}
use gstsmith_rs.Nanodet.Float.{F32, f32_zero, f32_lt, Rounded}
use gstsmith_rs.Nanodet.Detection.{Detection}
use gstsmith_rs.Nanodet.Nms.{suppress}
use gstsmith_rs.Nanodet.Nms.Kept.{All-suppress, suppress-KeepsApart}
use gstsmith_rs.Nanodet.Decode.{
  Contract, DecodeError, channels, dims, elements, contracts, find_contract, contract_for_dims,
  div_ceil,
}
use gstsmith_rs.Nanodet.Decode.Scan.{
  Scan, Cell, rows_of, push, push_cell, visit, visit_columns, visit_rows, visit_strides, finish,
  decode_values,
}
use gstsmith_rs.Nanodet.Decode.Cells.{OnSome, IsFound, CellIsFound, read_cell-IsFound}

-- A detection that the row of its cell yields, the cell being a point of the grids.
pub record IsGood {T : Type 0} (to_f32 : T → F32) (c : Contract) (size score_threshold : F32)
    (table : List (List T)) (d : Detection) : Type 0 where
  pub row : List T
  pub row_of_point : get_elem? table d.ordinal ≡ some row
  pub found : IsFound to_f32 row size score_threshold d.class d.score d.x1 d.y1 d.x2 d.y2
  pub in_grids : d.ordinal < c.points

-- How many cells the grids of the strides have.
abbrev pub cells : ℕ → List ℕ → ℕ
cells size [] = 0
cells size (s ∷ ss) = div_ceil size s * div_ceil size s + cells size ss

-- The points of a contract are the cells of its grids, and a u16 numbers them.
abbrev pub Fits : Contract → Type 0
Fits c = (cells c.input_size c.strides ≡ c.points) × (c.points ≤ u16_mod)

contracts-Fits : All Fits contracts
contracts-Fits =
    ((refl, omega arith), ((refl, omega arith), ((refl, omega arith), ((refl, omega arith), tt))))

find_contract-Fits :
    (ds : List ℕ) (cs : List Contract) (c : Contract)
    → All Fits cs
    → find_contract ds cs ≡ some c
    → Fits c
unfolding find_contract
find_contract-Fits ds [] c h e = absurd (cc)
find_contract-Fits ds (d ∷ cs) c h e = elim (Bool-cases (text_eq ds (dims d))) [
  | inl b ↦ let q : d ≡ c = ground arith in subst Fits q h.0
  | inr b ↦ let q : find_contract ds cs ≡ some c = ground arith in find_contract-Fits ds cs c h.1 q
]

length-rows_of : {T : Type 0} (k : ℕ) (output : List T) → length (rows_of k output) ≡ k
unfolding rows_of
length-rows_of zero output = refl
length-rows_of (suc k) output = ap suc (length-rows_of k _)

-- The rows that are left are those of the table from the point on.
ReadsFrom : {T : Type 0} → List (List T) → Scan T → Type 0
ReadsFrom table s = (j : ℕ) → get_elem? s.rows j ≡ get_elem? table (s.point + j)

-- Going over `n` cells succeeds, takes as many rows, and keeps the detections good.
record Visited {T : Type 0} (table : List (List T)) (Good : Detection → Type 0) (n : ℕ) (s : Scan T)
    (result : Result DecodeError (Scan T)) : Type 0 where
  next : Scan T
  succeeds : result ≡ ok next
  rows_left : length next.rows + n ≡ length s.rows
  points : next.point ≡ s.point + n
  reads : ReadsFrom table next
  good : All Good next.candidates

resize :
    {T : Type 0} {table : List (List T)} {Good : Detection → Type 0} {m n : ℕ} {s : Scan T}
    {result : Result DecodeError (Scan T)}
    → m ≡ n
    → Visited table Good m s result
    → Visited table Good n s result
resize {T} {table} {Good} {m} {n} {s} {result} e v = subst (λ k. Visited table Good k s result) e v

module _ {T : Type 0} (r : Rounded) (to_f32 : T → F32) (c : Contract) (score_threshold : F32)
    (size_ok : f32_lt (r.from_nat c.input_size) f32_zero ≡ false) (fits : c.points ≤ u16_mod)
    (table : List (List T)) where
  Good : Detection → Type 0
  Good = IsGood to_f32 c (r.from_nat c.input_size) score_threshold table

  push_cell-Good :
      (point : ℕ) (row : List T) (cell : Option Cell) (ds : List Detection)
      → get_elem? table point ≡ some row
      → OnSome (CellIsFound to_f32 row (r.from_nat c.input_size) score_threshold) cell
      → point < c.points
      → All Good ds
      → (ds' : List Detection) × (push_cell r to_f32 c score_threshold point cell ds ≡ ok ds')
        × All Good ds'
  unfolding push_cell push Good
  push_cell-Good point row none ds at f p g = (ds, refl, g)
  push_cell-Good point row (some cell) ds at f p g =
      let k = f.read.known_class in
      let a : ltb cell.class u8_mod ≡ true = ground arith in
      let b : ltb point u16_mod ≡ true = ground arith in
      let d : Detection = record {
        class = cell.class;
        score = cell.score;
        x1 = cell.x1;
        y1 = cell.y1;
        x2 = cell.x2;
        y2 = cell.y2;
        ordinal = point;
      } in
      let good : Good d = record { row = row; row_of_point = at; found = f; in_grids = p } in
      let q : push r to_f32 c score_threshold point cell ds ≡ ok (ds ++ d ∷ []) = rw (a, b) refl in
      (ds ++ d ∷ [], q, All-append Good ds (d ∷ []) g (good, tt))

  visit-Visited :
      (stride grid_y grid_x : ℕ) (rows : List (List T)) (point : ℕ) (ds : List Detection)
      → 1 ≤ length rows
      → point + 1 ≤ c.points
      → ReadsFrom table (record { rows = rows; point = point; candidates = ds })
      → All Good ds
      → Visited table Good 1
          (record { rows = rows; point = point; candidates = ds })
          (visit r to_f32 c score_threshold stride grid_y grid_x
            (record { rows = rows; point = point; candidates = ds }))
  unfolding visit ReadsFrom
  visit-Visited stride y x [] p ds h k from g = absurd (omega arith)
  visit-Visited stride y x (row ∷ rows) p ds h k from g =
      let cell = read_cell-IsFound r to_f32 c score_threshold size_ok x y (r.from_nat stride) row in
      let at : get_elem? table p ≡ some row =
        let z : p + 0 ≡ p = omega arith in sym (from 0 ∙ ap (get_elem? table) z) in
      let (ds', e, g') = push_cell-Good p row _ ds at cell (omega arith) g in
      record {
        next = record { rows = rows; point = suc p; candidates = ds' };
        succeeds = rw e refl;
        rows_left = omega arith;
        points = omega arith;
        reads = λ j.
            from (suc j) ∙ ap (get_elem? table) (let z : p + suc j ≡ suc p + j = omega arith in z);
        good = g';
      }

  -- One stretch of cells after the other.
  after :
      (m n : ℕ) (s : Scan T) (first : Result DecodeError (Scan T))
      (second : Scan T → Result DecodeError (Scan T))
      → Visited table Good m s first
      → ((t : Scan T)
          → length t.rows + m ≡ length s.rows
          → t.point ≡ s.point + m
          → ReadsFrom table t
          → All Good t.candidates
          → Visited table Good n t (second t))
      → Visited table Good (m + n) s (first >>= second)
  after m n s first second v f =
      let w = f v.next v.rows_left v.points v.reads v.good in
      let a = v.rows_left in
      let b = w.rows_left in
      let p = v.points in
      let q = w.points in
      record {
        next = w.next;
        succeeds = ap (λ x. x >>= second) v.succeeds ∙ w.succeeds;
        rows_left = omega arith;
        points = omega arith;
        reads = w.reads;
        good = w.good;
      }

  none_visited :
      (s : Scan T) → ReadsFrom table s → All Good s.candidates → Visited table Good 0 s (ok s)
  none_visited s from g = record {
    next = s;
    succeeds = refl;
    rows_left = omega arith;
    points = omega arith;
    reads = from;
    good = g;
  }

  visit_columns-Visited :
      (stride y x n : ℕ) (s : Scan T)
      → n ≤ length s.rows
      → s.point + n ≤ c.points
      → ReadsFrom table s
      → All Good s.candidates
      → Visited table Good n s (visit_columns r to_f32 c score_threshold stride y x n s)
  unfolding visit_columns
  visit_columns-Visited stride y x zero s h k from g = none_visited s from g
  visit_columns-Visited stride y x (suc n) s h k from g =
      let e : 1 + n ≡ suc n = omega arith in
      resize e (
        after 1 n s _ _
          (visit-Visited stride y x s.rows s.point s.candidates (omega arith) (omega arith) from g)
          (λ t a b from' g'.
            visit_columns-Visited stride y (suc x) n t (omega arith) (omega arith) from' g'))

  visit_rows-Visited :
      (stride grid y n : ℕ) (s : Scan T)
      → n * grid ≤ length s.rows
      → s.point + n * grid ≤ c.points
      → ReadsFrom table s
      → All Good s.candidates
      → Visited table Good (n * grid) s (visit_rows r to_f32 c score_threshold stride grid y n s)
  unfolding visit_rows
  visit_rows-Visited stride grid y zero s h k from g =
      let e : 0 ≡ 0 * grid = grind arith in resize e (none_visited s from g)
  visit_rows-Visited stride grid y (suc n) s h k from g =
      let e : grid + n * grid ≡ suc n * grid = grind arith in
      resize e (
        after grid (n * grid) s _ _
          (visit_columns-Visited stride y 0 grid s (grind arith) (grind arith) from g)
          (λ t a b from' g'.
            visit_rows-Visited stride grid (suc y) n t (grind arith) (grind arith) from' g'))

  visit_strides-Visited :
      (strides : List ℕ) (s : Scan T)
      → cells c.input_size strides ≤ length s.rows
      → s.point + cells c.input_size strides ≤ c.points
      → ReadsFrom table s
      → All Good s.candidates
      → Visited table Good
          (cells c.input_size strides)
          s
          (visit_strides r to_f32 c score_threshold strides s)
  unfolding visit_strides
  visit_strides-Visited [] s h k from g = none_visited s from g
  visit_strides-Visited (stride ∷ strides) s h k from g =
      let grid = div_ceil c.input_size stride in
      after (grid * grid) (cells c.input_size strides) s _ _
        (visit_rows-Visited stride grid 0 grid s (omega arith) (omega arith) from g)
        (λ t a b from' g'. visit_strides-Visited strides t (omega arith) (omega arith) from' g')

-- A tensor with the dimensions of a contract and as many values as they take is decoded without an
-- error, to at most `max_detections` detections. Each has the number of a point of the contract
-- and is read from the row of the tensor at that point: every value of the row is finite, the class
-- is below 80, the score is the row's for the class, no class of the row has a better one, and it is
-- not under the threshold. The right and lower sides of the box are not at or before the left and
-- upper ones, and no side compares under zero or over the size of the image. The size of the image,
-- as an `f32`, is not under zero.
pub decode_values-ok :
    {T : Type 0} (r : Rounded) (to_f32 : T → F32) (score_threshold iou_threshold : F32)
    (max_detections : ℕ) (ds : List ℕ) (c : Contract) (output : List T)
    → f32_lt (r.from_nat c.input_size) f32_zero ≡ false
    → contract_for_dims ds ≡ some c
    → length output ≡ elements c
    → (found : List Detection) × (decode_values r to_f32 c score_threshold iou_threshold
          max_detections output
        ≡ ok found)
      × (length found ≤ max_detections)
      × All
          (IsGood to_f32 c
            (r.from_nat c.input_size)
            score_threshold
            (rows_of (length output / channels) output))
          found
unfolding decode_values finish contract_for_dims Good ReadsFrom
decode_values-ok r to_f32 threshold iou limit ds c output size_ok e l =
    let (same, fits) = find_contract-Fits ds contracts c contracts-Fits e in
    let rows = rows_of (length output / channels) output in
    let count = length-rows_of (length output / channels) output in
    let v =
      visit_strides-Visited r to_f32 c threshold size_ok fits rows c.strides
        (record { rows = rows; point = 0; candidates = [] }) (omega arith) (omega arith)
        (λ j. ap (get_elem? rows) (let z : j ≡ 0 + j = omega arith in z)) tt in
    let all_points : (v.next.point == c.points) ≡ true = let p = v.points in ground arith in
    let size : (length output == elements c) ≡ true = ground arith in
    (
      suppress r iou limit v.next.candidates,
      rw (size, v.succeeds, all_points) refl,
      (suppress-KeepsApart r iou limit v.next.candidates).at_most,
      All-suppress _ r iou limit v.next.candidates v.good,
    )
