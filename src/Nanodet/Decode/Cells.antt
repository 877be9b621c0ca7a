-- ===== src/Nanodet/Decode/Cells.antt =====
-- What a cell of the grid yields: analytics/nanodet/src/nanodettensordec/decode.rs.
use native.Mathlib.Decide.{dec_lt}
use gstsmith_rs.Prelude.{
  ◌-◌, ◌*◌, ℕ, zero, suc, ◌+◌, ◌<◌, ◌≤◌, ◌≡◌, ◌⊎◌, refl, ap, subst, ◌∙◌, Bool, true, false, ◌||◌,
  Option, none, some, List, [], ◌∷◌, arith, leb, leb→le, if◌then◌else◌, Bool-cases, Option-cases,
  inl, inr, length, length-take, get_elem?, get_elem?-take, get_elem?-drop, sym, take, drop, All,
}
use gstsmith_rs.Nanodet.Float.{
  F32, f32_zero, f32_max, neg_infinity, is_finite, total_key, f32_lt, f32_le, f32_clamp, Rounded,
}
use gstsmith_rs.Nanodet.Decode.{
  Contract, num_classes, bins, channels, get_range, is_best, best_loop, best_class, center,
  finite_max, distribution_expectation,
}
use gstsmith_rs.Nanodet.Decode.Scan.{Cell, side_distance, distances, box_of, read_cell}

module _ {T : Type 0} (r : Rounded) (to_f32 : T → F32) where
  -- The best of the scores from `class` on and of the one before them.
  record BestOf (class : ℕ) (best : Option (ℕ × F32)) (vs : List T) (k : ℕ) (score : F32)
      : Type 0 where
    upper : All (λ v. total_key (to_f32 v) ≤ total_key score) vs
    above : (j : ℕ) (b : F32) → best ≡ some (j, b) → total_key b ≤ total_key score
    origin :
        (best ≡ some (k, score))
        ⊎ ((j : ℕ) × (v : T) × (k ≡ class + j) × (get_elem? vs j ≡ some v) × (to_f32 v ≡ score))

  is_best-le :
      (best : Option (ℕ × F32)) (score : F32) (j : ℕ) (b : F32)
      → is_best r to_f32 best score ≡ true
      → best ≡ some (j, b)
      → total_key b ≤ total_key score
  unfolding is_best
  is_best-le none score j b h e = absurd (cc)
  is_best-le (some (i, a)) score j b h e =
      let q : a ≡ b = cc in
      subst (λ x. total_key x ≤ total_key score) q (leb→le (total_key a) (total_key score) h)

  -- A score that does not take the place of the best one is below it.
  is_best-below :
      (best : Option (ℕ × F32)) (score : F32)
      → is_best r to_f32 best score ≡ false
      → (j : ℕ) × (b : F32) × (best ≡ some (j, b)) × (total_key score ≤ total_key b)
  unfolding is_best
  is_best-below none score h = absurd (cc)
  is_best-below (some (j, b)) score h = (j, b, refl, ground arith)

  later :
      (class k : ℕ) (score : F32) (v : T) (vs : List T)
      → (j : ℕ) × (w : T) × (k ≡ suc class + j) × (get_elem? vs j ≡ some w) × (to_f32 w ≡ score)
      → (j : ℕ) × (w : T) × (k ≡ class + j) × (get_elem? (v ∷ vs) j ≡ some w) × (to_f32 w ≡ score)
  later class k score v vs (j, w, e, g, q) = (suc j, w, omega arith, g, q)

  best_loop-BestOf :
      (class : ℕ) (best : Option (ℕ × F32)) (vs : List T) (k : ℕ) (score : F32)
      → best_loop r to_f32 class best vs ≡ some (k, score)
      → BestOf class best vs k score
  unfolding best_loop
  best_loop-BestOf class best [] k score h = record {
    upper = tt;
    above = λ j b e. let q : b ≡ score = cc in rw q (omega arith);
    origin = inl h;
  }
  best_loop-BestOf class best (v ∷ vs) k score h =
      let next = λ (b : Bool). if b then some (class, to_f32 v) else best in
      let here = is_best r to_f32 best (to_f32 v) in
      elim (Bool-cases (is_finite (to_f32 v))) [
        | inr f ↦ absurd (ground arith)
        | inl f ↦
            let h' =
              subst
                (λ b.
                  (if b then best_loop r to_f32 (suc class) (next here) vs else none)
                  ≡ some (k, score))
                f h in
            elim (Bool-cases here) [
              | inl b ↦
                  let ih = best_loop-BestOf (suc class) (some (class, to_f32 v)) vs k score (
                    subst (λ c. best_loop r to_f32 (suc class) (next c) vs ≡ some (k, score)) b
                      h') in
                  let top = ih.above class (to_f32 v) refl in
                  record {
                    upper = (top, ih.upper);
                    above = λ j a e. let q = is_best-le best (to_f32 v) j a b e in omega arith;
                    origin = inr (elim ih.origin [
                      | inl e ↦
                          let p : class ≡ k = cc in
                          let q : to_f32 v ≡ score = cc in (0, v, omega arith, refl, q)
                      | inr o ↦ later class k score v vs o
                    ]);
                  }
              | inr b ↦
                  let ih = best_loop-BestOf (suc class) best vs k score (
                    subst (λ c. best_loop r to_f32 (suc class) (next c) vs ≡ some (k, score)) b
                      h') in
                  let (j, a, e, below) = is_best-below best (to_f32 v) b in
                  let top = ih.above j a e in
                  record {
                    upper = (omega arith, ih.upper);
                    above = ih.above;
                    origin = elim ih.origin [
                      | inl e ↦ inl e
                      | inr o ↦ inr (later class k score v vs o)
                    ];
                  }
            ]
      ]

  -- The class that is chosen has a score of its own, and no score is above it in the order that
  -- also tells the zeros apart.
  pub best_class-best :
      (scores : List T) (k : ℕ) (score : F32)
      → best_class r to_f32 scores ≡ some (k, score)
      → ((v : T) × (get_elem? scores k ≡ some v) × (to_f32 v ≡ score))
        × All (λ v. total_key (to_f32 v) ≤ total_key score) scores
  unfolding best_class
  best_class-best scores k score h =
      let b = best_loop-BestOf 0 none scores k score h in
      (
        elim b.origin [
          | inl e ↦ absurd (cc)
          | inr (j, v, e, g, q) ↦
              let same : k ≡ j = omega arith in (v, ap (get_elem? scores) same ∙ g, q)
        ],
        b.upper,
      )

-- What holds of a value that is there.
abbrev pub OnSome : {A : Type 0} → (A → Type 0) → Option A → Type 0
OnSome P none = Unit
OnSome P (some a) = P a

pub get_elem?-lt :
    {A : Type 0} (xs : List A) (i : ℕ) (a : A) → get_elem? xs i ≡ some a → i < length xs
get_elem?-lt [] i a h = absurd (cc)
get_elem?-lt (x ∷ xs) zero a h = omega arith
get_elem?-lt (x ∷ xs) (suc i) a h = let q = get_elem?-lt xs i a h in omega arith

length-get_range :
    {A : Type 0} (start n : ℕ) (xs ys : List A) → get_range start n xs ≡ some ys → length ys ≤ n
unfolding get_range
length-get_range start n xs ys h = elim (Bool-cases (leb (start + n) (length xs))) [
  | inr b ↦ absurd (ground arith)
  | inl b ↦
      let q : take n (drop start xs) ≡ ys = ground arith in
      let l = length-take n (drop start xs) in let m = ap length q in omega arith
]

-- A coordinate that is neither under zero nor over the size, as `<` compares them: this holds of a
-- NaN as well.
abbrev pub NotBeyond : F32 → F32 → Type 0
NotBeyond size a = (f32_lt a f32_zero ≡ false) × (f32_lt size a ≡ false)

f32_lt_irrefl : (a : F32) → f32_lt a a ≡ false
unfolding f32_lt
f32_lt_irrefl a = ground arith

f32_clamp-NotBeyond :
    (size a : F32) → f32_lt size f32_zero ≡ false → NotBeyond size (f32_clamp a f32_zero size)
unfolding f32_clamp
f32_clamp-NotBeyond size a h = elim (Bool-cases (f32_lt a f32_zero)) [
  | inl l ↦ rw l (f32_lt_irrefl f32_zero, h)
  | inr l ↦ elim (Bool-cases (f32_lt size a)) [
    | inl u ↦ rw (l, u) (h, f32_lt_irrefl size)
    | inr u ↦ rw (l, u) (l, u)
  ]
]

-- What a row says of a cell: each of its values, of the scores and of the sides, is finite, and the
-- class has the score, which no other class exceeds.
pub record IsRead {T : Type 0} (to_f32 : T → F32) (row : List T) (class : ℕ) (score : F32)
    : Type 0 where
  pub finite :
      (j : ℕ) (v : T) → j < channels → get_elem? row j ≡ some v → is_finite (to_f32 v) ≡ true
  pub known_class : class < num_classes
  pub scored : (v : T) × (get_elem? row class ≡ some v) × (to_f32 v ≡ score)
  pub best :
      (j : ℕ) (v : T)
      → j < num_classes
      → get_elem? row j ≡ some v
      → total_key (to_f32 v) ≤ total_key score

-- A box of the best class of a row, with a score that is not under the threshold; its right and
-- lower sides are not at or before the others, and no side is beyond the image.
pub record IsFound {T : Type 0} (to_f32 : T → F32) (row : List T) (size score_threshold : F32)
    (class : ℕ) (score x1 y1 x2 y2 : F32) : Type 0 where
  pub read : IsRead to_f32 row class score
  pub confident : f32_lt score score_threshold ≡ false
  pub has_area : (f32_le x2 x1 ≡ false) × (f32_le y2 y1 ≡ false)
  pub inside : NotBeyond size x1 × NotBeyond size y1 × NotBeyond size x2 × NotBeyond size y2

abbrev pub CellIsFound : {T : Type 0} → (T → F32) → List T → F32 → F32 → Cell → Type 0
CellIsFound to_f32 row size threshold cell =
    IsFound to_f32 row size threshold cell.class cell.score cell.x1 cell.y1 cell.x2 cell.y2

All-get :
    {A : Type 0} (P : A → Type 0) (xs : List A) (i : ℕ) (a : A)
    → All P xs
    → get_elem? xs i ≡ some a
    → P a
All-get P [] i a h e = absurd (cc)
All-get P (x ∷ xs) zero a h e = let q : x ≡ a = cc in subst P q h.0
All-get P (x ∷ xs) (suc i) a h e = All-get P xs i a h.1 e

-- A value of a range is one of the row.
get_elem?-get_range :
    {A : Type 0} (start n : ℕ) (xs ys : List A) (j : ℕ)
    → get_range start n xs ≡ some ys
    → j < n
    → get_elem? ys j ≡ get_elem? xs (start + j)
unfolding get_range
get_elem?-get_range start n xs ys j h less = elim (Bool-cases (leb (start + n) (length xs))) [
  | inr b ↦ absurd (ground arith)
  | inl b ↦
      let q : take n (drop start xs) ≡ ys = ground arith in
      ap (λ l. get_elem? l j) (sym q)
      ∙ get_elem?-take n (drop start xs) j less
      ∙ get_elem?-drop start xs j
]

or-eq-false : (a b : Bool) → (a || b) ≡ false → (a ≡ false) × (b ≡ false)
or-eq-false a b h = ground arith

module _ {T : Type 0} (r : Rounded) (to_f32 : T → F32) where
  abbrev AllFinite : List T → Type 0
  AllFinite = All λ v. is_finite (to_f32 v) ≡ true

  best_loop-finite :
      (class : ℕ) (best : Option (ℕ × F32)) (vs : List T) (found : ℕ × F32)
      → best_loop r to_f32 class best vs ≡ some found
      → AllFinite vs
  unfolding best_loop
  best_loop-finite class best [] found h = tt
  best_loop-finite class best (v ∷ vs) found h = elim (Bool-cases (is_finite (to_f32 v))) [
    | inr f ↦ absurd (ground arith)
    | inl f ↦
        let next = if is_best r to_f32 best (to_f32 v) then some (class, to_f32 v) else best in
        let h' =
          subst (λ b. (if b then best_loop r to_f32 (suc class) next vs else none) ≡ some found) f
            h in
        (f, best_loop-finite (suc class) next vs found h')
  ]

  finite_max-finite :
      (top : F32) (vs : List T) (found : F32)
      → finite_max r to_f32 top vs ≡ some found
      → AllFinite vs
  unfolding finite_max
  finite_max-finite top [] found h = tt
  finite_max-finite top (v ∷ vs) found h = elim (Bool-cases (is_finite (to_f32 v))) [
    | inr f ↦ absurd (ground arith)
    | inl f ↦
        let next = f32_max top (to_f32 v) in
        let h' = subst (λ b. (if b then finite_max r to_f32 next vs else none) ≡ some found) f h in
        (f, finite_max-finite next vs found h')
  ]

  distribution_expectation-finite :
      (vs : List T) (value : F32) → distribution_expectation r to_f32 vs ≡ some value → AllFinite vs
  unfolding distribution_expectation
  distribution_expectation-finite vs value h =
      elim (Option-cases (finite_max r to_f32 neg_infinity vs)) [
        | inl n ↦ absurd (let k = simp (distribution_expectation, n) at h in cc)
        | inr (top, e) ↦ finite_max-finite neg_infinity vs top e
      ]

module _ {T : Type 0} (r : Rounded) (to_f32 : T → F32) (c : Contract) (score_threshold stride : F32)
    (row : List T) where
  -- The values of a side.
  abbrev FiniteSide : ℕ → Type 0
  FiniteSide side =
      (j : ℕ) (v : T)
      → j < bins
      → get_elem? row (num_classes + side * bins + j) ≡ some v
      → is_finite (to_f32 v) ≡ true

  side_distance-finite :
      (side : ℕ) (value : F32)
      → side_distance r to_f32 c score_threshold stride row side ≡ some value
      → FiniteSide side
  unfolding side_distance
  side_distance-finite side value h j v less e =
      let start = num_classes + side * bins in
      elim (Option-cases (get_range start bins row)) [
        | inl n ↦ absurd (let k = simp (side_distance, n) at h in cc)
        | inr (values, g) ↦ elim (Option-cases (distribution_expectation r to_f32 values)) [
          | inl n ↦ absurd (let k = simp (side_distance, g, n) at h in cc)
          | inr (x, d) ↦
              All-get (λ w. is_finite (to_f32 w) ≡ true) values j v
                (distribution_expectation-finite r to_f32 values x d)
                (get_elem?-get_range start bins row values j g less ∙ e)
        ]
      ]

  distances-finite :
      (ds : F32 × F32 × F32 × F32)
      → distances r to_f32 c score_threshold stride row ≡ some ds
      → FiniteSide 0 × FiniteSide 1 × FiniteSide 2 × FiniteSide 3
  unfolding distances
  distances-finite ds h =
      elim (Option-cases (side_distance r to_f32 c score_threshold stride row 0)) [
        | inl n ↦ absurd (let k = simp (distances, n) at h in cc)
        | inr (a, ea) ↦
            elim (Option-cases (side_distance r to_f32 c score_threshold stride row 1)) [
              | inl n ↦ absurd (let k = simp (distances, ea, n) at h in cc)
              | inr (b, eb) ↦
                  elim (Option-cases (side_distance r to_f32 c score_threshold stride row 2)) [
                    | inl n ↦ absurd (let k = simp (distances, ea, eb, n) at h in cc)
                    | inr (x, ex) ↦
                        elim (Option-cases
                          (side_distance r to_f32 c score_threshold stride row 3)) [
                            | inl n ↦ absurd (let k = simp (distances, ea, eb, ex, n) at h in cc)
                            | inr (y, ey) ↦ (
                              side_distance-finite 0 a ea,
                              side_distance-finite 1 b eb,
                              side_distance-finite 2 x ex,
                              side_distance-finite 3 y ey,
                            )
                          ]
                  ]
            ]
      ]

  -- The scores and the four sides are all the values of a row.
  row-finite :
      (scores : List T)
      → get_range 0 num_classes row ≡ some scores
      → AllFinite r to_f32 scores
      → FiniteSide 0 × FiniteSide 1 × FiniteSide 2 × FiniteSide 3
      → (j : ℕ) (v : T) → j < channels
      → get_elem? row j ≡ some v
      → is_finite (to_f32 v) ≡ true
  row-finite scores g all (s0, s1, s2, s3) j v less e = elim (dec_lt j 80) [
    | yes a ↦
        All-get (λ w. is_finite (to_f32 w) ≡ true) scores j v all
          (get_elem?-get_range 0 num_classes row scores j g a
            ∙ (let z : 0 + j ≡ j = omega arith in rw z e))
    | no a ↦ elim (dec_lt j 88) [
      | yes b ↦ s0 (j - 80) v (omega arith) (let z : 80 + (j - 80) ≡ j = omega arith in rw z e)
      | no after0 ↦ elim (dec_lt j 96) [
        | yes b ↦ s1 (j - 88) v (omega arith) (let z : 88 + (j - 88) ≡ j = omega arith in rw z e)
        | no after1 ↦ elim (dec_lt j 104) [
          | yes b ↦ s2 (j - 96) v (omega arith) (let z : 96 + (j - 96) ≡ j = omega arith in rw z e)
          | no after2 ↦
              s3 (j - 104) v (omega arith) (let z : 104 + (j - 104) ≡ j = omega arith in rw z e)
        ]
      ]
    ]
  ]

  values-IsRead :
      (scores : List T) (class : ℕ) (score : F32) (ds : F32 × F32 × F32 × F32)
      → get_range 0 num_classes row ≡ some scores
      → best_class r to_f32 scores ≡ some (class, score)
      → distances r to_f32 c score_threshold stride row ≡ some ds
      → IsRead to_f32 row class score
  unfolding best_class
  values-IsRead scores class score ds g b d =
      let ((v, at, same), top) = best_class-best r to_f32 scores class score b in
      let k = get_elem?-lt scores class v at in
      let l = length-get_range 0 num_classes row scores g in
      let here : (j : ℕ) → j < num_classes → get_elem? scores j ≡ get_elem? row j = λ j less.
        get_elem?-get_range 0 num_classes row scores j g less
        ∙ ap (get_elem? row) (let z : 0 + j ≡ j = omega arith in z) in
      record {
        finite =
            row-finite scores g (best_loop-finite r to_f32 0 none scores (class, score) b)
              (distances-finite ds d);
        known_class = omega arith;
        scored = (v, sym (here class (omega arith)) ∙ at, same);
        best = λ j w less e.
            All-get (λ x. total_key (to_f32 x) ≤ total_key score) scores j w top (here j less ∙ e);
      }

module _ {T : Type 0} (r : Rounded) (to_f32 : T → F32) (c : Contract) (score_threshold : F32)
    (size_ok : f32_lt (r.from_nat c.input_size) f32_zero ≡ false) where
  box_of-IsFound :
      (grid_x grid_y : ℕ) (stride : F32) (class : ℕ) (score : F32) (ds : F32 × F32 × F32 × F32)
      (row : List T)
      → IsRead to_f32 row class score
      → f32_lt score score_threshold ≡ false
      → OnSome
          (CellIsFound to_f32 row (r.from_nat c.input_size) score_threshold)
          (box_of r to_f32 c score_threshold grid_x grid_y stride class score ds)
  unfolding box_of
  box_of-IsFound grid_x grid_y stride class score (left, top, right, bottom) row k f =
      let size = r.from_nat c.input_size in
      let x1 = r.sub (center r c grid_x stride) left in
      let y1 = r.sub (center r c grid_y stride) top in
      let x2 = r.add (center r c grid_x stride) right in
      let y2 = r.add (center r c grid_y stride) bottom in
      let flat =
        f32_le (f32_clamp x2 f32_zero size) (f32_clamp x1 f32_zero size)
        || f32_le (f32_clamp y2 f32_zero size) (f32_clamp y1 f32_zero size) in
      elim (Bool-cases flat) [
        | inl b ↦ rw b tt
        | inr b ↦ rw b record {
          read = k;
          confident = f;
          has_area = or-eq-false _ _ b;
          inside = (
            f32_clamp-NotBeyond size x1 size_ok,
            f32_clamp-NotBeyond size y1 size_ok,
            f32_clamp-NotBeyond size x2 size_ok,
            f32_clamp-NotBeyond size y2 size_ok,
          );
        }
      ]

  pub read_cell-IsFound :
      (grid_x grid_y : ℕ) (stride : F32) (row : List T)
      → OnSome
          (CellIsFound to_f32 row (r.from_nat c.input_size) score_threshold)
          (read_cell r to_f32 c score_threshold grid_x grid_y stride row)
  unfolding read_cell
  read_cell-IsFound grid_x grid_y stride row = elim (Option-cases (get_range 0 num_classes row)) [
    | inl e ↦ rw (read_cell, e) tt
    | inr (scores, e) ↦ elim (Option-cases (best_class r to_f32 scores)) [
      | inl b ↦ rw (read_cell, e, b) tt
      | inr ((class, score), b) ↦ elim (Bool-cases (f32_lt score score_threshold)) [
        | inl f ↦ rw (read_cell, e, b, f) tt
        | inr f ↦ elim (Option-cases (distances r to_f32 c score_threshold stride row)) [
          | inl d ↦ rw (read_cell, e, b, f, d) tt
          | inr (ds, d) ↦
              rw (read_cell, e, b, f, d)
                (box_of-IsFound grid_x grid_y stride class score ds row
                  (values-IsRead r to_f32 c score_threshold stride row scores class score ds e b d)
                  f)
        ]
      ]
    ]
  ]
