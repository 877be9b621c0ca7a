-- ===== src/Nanodet/Nms/Kept.antt =====
-- What suppression keeps: analytics/nanodet/src/nanodettensordec/nms.rs.
use gstsmith_rs.Prelude.{
  ℕ, suc, ◌-◌, ◌<◌, ◌≤◌, ◌≡◌, ◌⊎◌, refl, sym, subst, Bool, true, false, List, [], ◌∷◌, ◌++◌, arith,
  ◌==◌, if◌then◌else◌, Bool-cases, inl, inr, length, any, All, All-map_imp,
}
use gstsmith_rs.Nanodet.Float.{F32, Rounded}
use gstsmith_rs.Nanodet.Detection.{Detection}
use gstsmith_rs.Nanodet.Nms.{overlaps, suppress, sort, insert, detection_le}
use gstsmith_rs.Nanodet.Nms.Greedy.{greedy, greedy_skip, greedy_keep, suppress-greedy}
use mathlib.Core.List.{append_assoc}

detection_le_trans :
    (a b c : Detection)
    → detection_le a b ≡ true
    → detection_le b c ≡ true
    → detection_le a c ≡ true
unfolding detection_le
detection_le_trans a b c h k = ground arith

detection_le_total : (a b : Detection) → detection_le a b ≡ false → detection_le b a ≡ true
unfolding detection_le
detection_le_total a b h = ground arith

-- Every detection is in order with each that follows it.
abbrev pub Sorted : List Detection → Type 0
Sorted [] = Unit
Sorted (d ∷ ds) = All (λ e. detection_le d e ≡ true) ds × Sorted ds

-- No detection overlaps one that was kept or that comes before it.
abbrev pub Apart : (Detection → Detection → Bool) → List Detection → List Detection → Type 0
Apart over kept [] = Unit
Apart over kept (d ∷ ds) = (any (over d) kept ≡ false) × Apart over (kept ++ d ∷ []) ds

abbrev pub Chosen : Detection → List Detection → Type 0
Chosen d [] = ⊥
Chosen d (e ∷ es) = (d ≡ e) ⊎ Chosen d es

module _ (P : Detection → Type 0) where
  All-insert : (d : Detection) (es : List Detection) → P d → All P es → All P (insert d es)
  unfolding insert
  All-insert d [] p h = (p, tt)
  All-insert d (e ∷ es) p h = elim (Bool-cases (detection_le d e)) [
    | inl b ↦ rw b (p, h)
    | inr b ↦ rw b (h.0, All-insert d es p h.1)
  ]

  All-insert_inv : (d : Detection) (es : List Detection) → All P (insert d es) → P d × All P es
  unfolding insert
  All-insert_inv d [] h = h
  All-insert_inv d (e ∷ es) h = elim (Bool-cases (detection_le d e)) [
    | inl b ↦ subst (λ c. All P (if c then d ∷ e ∷ es else e ∷ insert d es)) b h
    | inr b ↦
        let h' = subst (λ c. All P (if c then d ∷ e ∷ es else e ∷ insert d es)) b h in
        let (p, q) = All-insert_inv d es h'.1 in (p, (h'.0, q))
  ]

  All-sort : (ds : List Detection) → All P ds → All P (sort ds)
  unfolding sort
  All-sort [] h = tt
  All-sort (d ∷ ds) h = All-insert d (sort ds) h.0 (All-sort ds h.1)

  All-sort_inv : (ds : List Detection) → All P (sort ds) → All P ds
  unfolding sort
  All-sort_inv [] h = tt
  All-sort_inv (d ∷ ds) h = let (p, q) = All-insert_inv d (sort ds) h in (p, All-sort_inv ds q)

  All-greedy :
      (over : Detection → Detection → Bool) (room : ℕ) (kept cs : List Detection)
      → All P cs
      → All P (greedy over room kept cs)
  All-greedy over room kept [] h = tt
  All-greedy over room kept (c ∷ cs) h = elim (Bool-cases (room == 0)) [
    | inl z ↦ rw z tt
    | inr z ↦ elim (Bool-cases (any (over c) kept)) [
      | inl a ↦ rw (z, a) (All-greedy over room kept cs h.1)
      | inr a ↦ rw (z, a) (h.0, All-greedy over (room - 1) (kept ++ c ∷ []) cs h.1)
    ]
  ]

insert-Sorted : (d : Detection) (es : List Detection) → Sorted es → Sorted (insert d es)
unfolding insert
insert-Sorted d [] s = (tt, tt)
insert-Sorted d (e ∷ es) s = elim (Bool-cases (detection_le d e)) [
  | inl b ↦ rw b ((b, All-map_imp _ _ es (λ x h. detection_le_trans d e x b h) s.0), s)
  | inr b ↦ rw b (All-insert _ d es (detection_le_total d e b) s.0, insert-Sorted d es s.1)
]

sort-Sorted : (ds : List Detection) → Sorted (sort ds)
unfolding sort
sort-Sorted [] = tt
sort-Sorted (d ∷ ds) = insert-Sorted d (sort ds) (sort-Sorted ds)

module _ (over : Detection → Detection → Bool) where
  greedy-Sorted :
      (room : ℕ) (kept cs : List Detection) → Sorted cs → Sorted (greedy over room kept cs)
  greedy-Sorted room kept [] s = tt
  greedy-Sorted room kept (c ∷ cs) s = elim (Bool-cases (room == 0)) [
    | inl z ↦ rw z tt
    | inr z ↦ elim (Bool-cases (any (over c) kept)) [
      | inl a ↦ rw (z, a) (greedy-Sorted room kept cs s.1)
      | inr a ↦
          rw (z, a)
            (
              All-greedy _ over (room - 1) (kept ++ c ∷ []) cs s.0,
              greedy-Sorted (room - 1) (kept ++ c ∷ []) cs s.1,
            )
    ]
  ]

  greedy-Apart : (room : ℕ) (kept cs : List Detection) → Apart over kept (greedy over room kept cs)
  greedy-Apart room kept [] = tt
  greedy-Apart room kept (c ∷ cs) = elim (Bool-cases (room == 0)) [
    | inl z ↦ rw z tt
    | inr z ↦ elim (Bool-cases (any (over c) kept)) [
      | inl a ↦ rw (z, a) (greedy-Apart room kept cs)
      | inr a ↦ rw (z, a) (a, greedy-Apart (room - 1) (kept ++ c ∷ []) cs)
    ]
  ]

  length-greedy : (room : ℕ) (kept cs : List Detection) → length (greedy over room kept cs) ≤ room
  length-greedy room kept [] = omega arith
  length-greedy room kept (c ∷ cs) = elim (Bool-cases (room == 0)) [
    | inl z ↦ rw z (omega arith)
    | inr z ↦ elim (Bool-cases (any (over c) kept)) [
      | inl a ↦ rw (z, a) (length-greedy room kept cs)
      | inr a ↦ let ih = length-greedy (room - 1) (kept ++ c ∷ []) cs in rw (z, a) (ground arith)
    ]
  ]

  any-append :
      (p : Detection → Bool) (xs ys : List Detection) → any p xs ≡ true → any p (xs ++ ys) ≡ true
  any-append p [] ys h = absurd (cc)
  any-append p (x ∷ xs) ys h = elim (Bool-cases (p x)) [
    | inl b ↦ rw b refl
    | inr b ↦ let q : any p xs ≡ true = ground arith in rw b (any-append p xs ys q)
  ]

  -- A candidate is kept, or overlaps one that is.
  abbrev pub Explained : List Detection → List Detection → Detection → Type 0
  Explained kept chosen c = (any (over c) (kept ++ chosen) ≡ true) ⊎ Chosen c chosen

  greedy-Explained :
      (room : ℕ) (kept cs : List Detection)
      → length (greedy over room kept cs) < room
      → All (Explained kept (greedy over room kept cs)) cs
  greedy-Explained room kept [] h = tt
  greedy-Explained room kept (c ∷ cs) h = elim (Bool-cases (room == 0)) [
    | inl z ↦ absurd (ground arith)
    | inr z ↦ elim (Bool-cases (any (over c) kept)) [
      | inl a ↦
          let e = greedy_skip over room kept c cs z a in
          let ih = greedy-Explained room kept cs (subst (λ xs. length xs < room) e h) in
          subst (λ xs. All (Explained kept xs) (c ∷ cs)) (sym e)
            (inl (any-append (over c) kept _ a), ih)
      | inr a ↦
          let e = greedy_keep over room kept c cs z a in
          let rest = greedy over (room - 1) (kept ++ c ∷ []) cs in
          let shorter : suc (length rest) < room = subst (λ xs. length xs < room) e h in
          let ih = greedy-Explained (room - 1) (kept ++ c ∷ []) cs (omega arith) in
          subst (λ xs. All (Explained kept xs) (c ∷ cs)) (sym e)
            (
              inr (inl refl),
              All-map_imp _ _ cs
                  (λ x q. elim q [
                    | inl o ↦
                        inl
                          (subst (λ xs. any (over x) xs ≡ true) (append_assoc kept (c ∷ []) rest) o)
                    | inr o ↦ inr (inr o)
                  ])
                  ih,
            )
    ]
  ]

-- What is asked of the detections that suppression leaves.
pub record KeepsApart (r : Rounded) (threshold : F32) (limit : ℕ) (ds : List Detection)
    : Type 0 where
  pub at_most : length (suppress r threshold limit ds) ≤ limit
  pub sorted : Sorted (suppress r threshold limit ds)
  pub apart : Apart (overlaps r threshold) [] (suppress r threshold limit ds)

-- Suppression keeps at most `limit` detections, in the order of their scores, classes and ordinals,
-- and none overlaps by more than the threshold an earlier one of its class.
pub suppress-KeepsApart :
    (r : Rounded) (threshold : F32) (limit : ℕ) (ds : List Detection)
    → KeepsApart r threshold limit ds
suppress-KeepsApart r threshold limit ds =
    let e = sym (suppress-greedy r threshold limit ds) in
    let over = overlaps r threshold in
    record {
      at_most = subst (λ xs. length xs ≤ limit) e (length-greedy over limit [] (sort ds));
      sorted = subst Sorted e (greedy-Sorted over limit [] (sort ds) (sort-Sorted ds));
      apart = subst (λ xs. Apart over [] xs) e (greedy-Apart over limit [] (sort ds));
    }

-- Unless the limit is reached, every candidate is kept or overlaps one that is, of its class and by
-- more than the threshold.
pub suppress-Explained :
    (r : Rounded) (threshold : F32) (limit : ℕ) (ds : List Detection)
    → length (suppress r threshold limit ds) < limit
    → All (Explained (overlaps r threshold) [] (suppress r threshold limit ds)) ds
suppress-Explained r threshold limit ds h =
    let e = suppress-greedy r threshold limit ds in
    let over = overlaps r threshold in
    subst (λ xs. All (Explained over [] xs) ds) (sym e)
      (All-sort_inv _ ds
        (greedy-Explained over limit [] (sort ds) (subst (λ xs. length xs < limit) e h)))

-- What holds of every candidate holds of every detection that is kept.
pub All-suppress :
    (P : Detection → Type 0) (r : Rounded) (threshold : F32) (limit : ℕ) (ds : List Detection)
    → All P ds
    → All P (suppress r threshold limit ds)
All-suppress P r threshold limit ds h =
    subst (All P) (sym (suppress-greedy r threshold limit ds))
      (All-greedy P (overlaps r threshold) limit [] (sort ds) (All-sort P ds h))
