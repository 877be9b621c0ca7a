-- ===== src/Nanodet/Nms/Greedy.antt =====
-- The loop in place and the greedy choice: analytics/nanodet/src/nanodettensordec/nms.rs.
use gstsmith_rs.Prelude.{
  ℕ, suc, ◌+◌, ◌-◌, ◌<◌, ◌≡◌, refl, ap, sym, ◌∙◌, Bool, true, false, some, List, [], ◌∷◌, ◌++◌,
  arith, leb, ◌==◌, if◌then◌else◌, Bool-cases, inl, inr, length, length-append, get_elem?, set,
  take, any, take-append_length,
}
use gstsmith_rs.Nanodet.Float.{F32, Rounded}
use gstsmith_rs.Nanodet.Detection.{Detection}
use gstsmith_rs.Nanodet.Nms.{overlaps, any_before, suppress_loop, suppress, sort}
use mathlib.Core.List.{append_assoc, append-nil}

-- Candidates are taken in order, at most `room` of them, each unless one that was kept overlaps it.
abbrev pub greedy :
    (Detection → Detection → Bool) → ℕ → List Detection → List Detection → List Detection
greedy over room kept [] = []
greedy over room kept (c ∷ cs) =
    let skip = greedy over room kept cs in
    let keep = c ∷ greedy over (room - 1) (kept ++ c ∷ []) cs in
    if room == 0 then [] else if any (over c) kept then skip else keep

get_elem?-append :
    {A : Type 0} (xs : List A) (y : A) (ys : List A) → get_elem? (xs ++ y ∷ ys) (length xs) ≡ some y
get_elem?-append [] y ys = refl
get_elem?-append (x ∷ xs) y ys = get_elem?-append xs y ys

set-append :
    {A : Type 0} (xs : List A) (y z : A) (ys : List A)
    → set (xs ++ y ∷ ys) (length xs) z ≡ xs ++ z ∷ ys
set-append [] y z ys = refl
set-append (x ∷ xs) y z ys = ap (◌∷◌ x) (set-append xs y z ys)

pub greedy_full :
    (over : Detection → Detection → Bool) (kept cs : List Detection) → greedy over 0 kept cs ≡ []
greedy_full over kept [] = refl
greedy_full over kept (c ∷ cs) = refl

module _ (over : Detection → Detection → Bool) (room : ℕ) (kept : List Detection) (c : Detection)
    (cs : List Detection) (some_room : (room == 0) ≡ false) where
  pub greedy_skip :
      any (over c) kept ≡ true → greedy over room kept (c ∷ cs) ≡ greedy over room kept cs
  greedy_skip a = rw (some_room, a) refl

  pub greedy_keep :
      any (over c) kept ≡ false
      → greedy over room kept (c ∷ cs) ≡ c ∷ greedy over (room - 1) (kept ++ c ∷ []) cs
  greedy_keep a = rw (some_room, a) refl

-- Where the loop stands: behind the kept candidates and those that were passed over.
module _ {A : Type 0} where
  at_index :
      (kept junk : List A) (c : A) (cs : List A) (i : ℕ)
      → i ≡ length kept + length junk
      → get_elem? (kept ++ (junk ++ c ∷ cs)) i ≡ some c
  at_index kept junk c cs i e =
      let l = length-append kept junk in
      let here : i ≡ length (kept ++ junk) = omega arith in
      rw here (
        ap (λ xs. get_elem? xs (length (kept ++ junk))) (sym (append_assoc kept junk (c ∷ cs)))
        ∙ get_elem?-append (kept ++ junk) c cs)

  -- Writing the candidate behind the kept ones passes over as many as before.
  record Written (kept junk : List A) (c : A) (cs : List A) : Type 0 where
    junk' : List A
    slot : A
    as_many : length junk' ≡ length junk
    readable : get_elem? (kept ++ (junk ++ c ∷ cs)) (length kept) ≡ some slot
    written : set (kept ++ (junk ++ c ∷ cs)) (length kept) c ≡ (kept ++ c ∷ []) ++ (junk' ++ cs)

  write : (kept junk : List A) (c : A) (cs : List A) → Written kept junk c cs
  write kept [] c cs = record {
    junk' = [];
    slot = c;
    as_many = refl;
    readable = get_elem?-append kept c cs;
    written = set-append kept c c cs ∙ sym (append_assoc kept (c ∷ []) cs);
  }
  write kept (j ∷ js) c cs = record {
    junk' = js ++ c ∷ [];
    slot = j;
    as_many = let l = length-append js (c ∷ []) in omega arith;
    readable = get_elem?-append kept j (js ++ c ∷ cs);
    written =
        set-append kept j c (js ++ c ∷ cs)
        ∙ ap (λ xs. kept ++ c ∷ xs) (sym (append_assoc js (c ∷ []) cs))
        ∙ sym (append_assoc kept (c ∷ []) ((js ++ c ∷ []) ++ cs));
  }

module _ (r : Rounded) (iou_threshold : F32) (limit : ℕ) where
  any_before_kept :
      (p : Detection → Bool) (kept rest : List Detection)
      → any_before r p (length kept) (kept ++ rest) ≡ any p kept
  any_before_kept p kept rest =
      let l = length-append kept rest in
      let e : leb (length kept) (length (kept ++ rest)) ≡ true = ground arith in
      rw e (ap (any p) (take-append_length kept rest))

  module _ (c : Detection) (left i n : ℕ) (xs : List Detection)
      (here : get_elem? xs i ≡ some c) where
    loop_skip :
        any_before r (overlaps r iou_threshold c) n xs ≡ true
        → suppress_loop r iou_threshold limit (suc left) i n xs
          ≡ suppress_loop r iou_threshold limit left (suc i) n xs
    unfolding suppress_loop
    loop_skip b = rw (suppress_loop, here, b) refl

    loop_last :
        (slot : Detection)
        → any_before r (overlaps r iou_threshold c) n xs ≡ false
        → get_elem? xs n ≡ some slot
        → (suc n == limit) ≡ true
        → suppress_loop r iou_threshold limit (suc left) i n xs ≡ (suc n, set xs n c)
    unfolding suppress_loop
    loop_last slot b g l = rw (suppress_loop, here, b, g, l) refl

    loop_next :
        (slot : Detection)
        → any_before r (overlaps r iou_threshold c) n xs ≡ false
        → get_elem? xs n ≡ some slot
        → (suc n == limit) ≡ false
        → suppress_loop r iou_threshold limit (suc left) i n xs
          ≡ suppress_loop r iou_threshold limit left (suc i) (suc n) (set xs n c)
    unfolding suppress_loop
    loop_next slot b g l = rw (suppress_loop, here, b, g, l) refl

  -- What the vector is cut to after the loop.
  cut : ℕ × List Detection → List Detection
  cut result = take result.0 result.1

  loop-greedy :
      (rest kept junk : List Detection) (i n : ℕ) (xs : List Detection)
      → i ≡ length kept + length junk
      → n ≡ length kept
      → xs ≡ kept ++ (junk ++ rest)
      → n < limit
      → cut (suppress_loop r iou_threshold limit (length rest) i n xs)
        ≡ kept ++ greedy (overlaps r iou_threshold) (limit - n) kept rest
  unfolding cut suppress_loop
  loop-greedy [] kept junk i n xs hi hn hx h =
      ap (λ m. take m xs) hn
      ∙ ap (take (length kept)) hx
      ∙ take-append_length kept (junk ++ [])
      ∙ sym (append-nil kept)
  loop-greedy (c ∷ rest) kept junk i n xs hi hn hx h =
      let get : get_elem? xs i ≡ some c =
        ap (λ ys. get_elem? ys i) hx ∙ at_index kept junk c rest i hi in
      let before : any_before r (overlaps r iou_threshold c) n xs
          ≡ any (overlaps r iou_threshold c) kept =
        ap (λ m. any_before r (overlaps r iou_threshold c) m xs) hn
        ∙ ap (any_before r (overlaps r iou_threshold c) (length kept)) hx
        ∙ any_before_kept (overlaps r iou_threshold c) kept (junk ++ c ∷ rest) in
      let room : (limit - n == 0) ≡ false = ground arith in
      elim (Bool-cases (any (overlaps r iou_threshold c) kept)) [
        | inl a ↦
            let len = length-append junk (c ∷ []) in
            ap cut (loop_skip c (length rest) i n xs get (before ∙ a))
            ∙ loop-greedy rest kept (junk ++ c ∷ []) (suc i) n xs (omega arith) hn
                (hx ∙ ap (λ ys. kept ++ ys) (sym (append_assoc junk (c ∷ []) rest))) h
            ∙ ap (λ ys. kept ++ ys)
                (sym (greedy_skip (overlaps r iou_threshold) (limit - n) kept c rest room a))
        | inr a ↦
            let w = write kept junk c rest in
            let len = length-append kept (c ∷ []) in
            let same = w.as_many in
            let slot : get_elem? xs n ≡ some w.slot =
              ap (λ m. get_elem? xs m) hn ∙ ap (λ ys. get_elem? ys (length kept)) hx ∙ w.readable in
            let now : set xs n c ≡ (kept ++ c ∷ []) ++ (w.junk' ++ rest) =
              ap (λ m. set xs m c) hn ∙ ap (λ ys. set ys (length kept) c) hx ∙ w.written in
            let kept_here =
              ap (λ ys. kept ++ ys)
                (sym (greedy_keep (overlaps r iou_threshold) (limit - n) kept c rest room a)) in
            elim (Bool-cases (suc n == limit)) [
              | inl l ↦
                  let full : limit - n - 1 ≡ 0 = ground arith in
                  let all : suc n ≡ length (kept ++ c ∷ []) = omega arith in
                  ap cut (loop_last c (length rest) i n xs get w.slot (before ∙ a) slot l)
                  ∙ ap (λ ys. take (suc n) ys) now
                  ∙ ap (λ m. take m ((kept ++ c ∷ []) ++ (w.junk' ++ rest))) all
                  ∙ take-append_length (kept ++ c ∷ []) (w.junk' ++ rest)
                  ∙ ap (λ ys. kept ++ c ∷ ys)
                      (sym (
                        ap (λ m. greedy (overlaps r iou_threshold) m (kept ++ c ∷ []) rest) full
                        ∙ greedy_full (overlaps r iou_threshold) (kept ++ c ∷ []) rest))
                  ∙ kept_here
              | inr l ↦
                  let fewer : limit - suc n ≡ limit - n - 1 = omega arith in
                  ap cut (loop_next c (length rest) i n xs get w.slot (before ∙ a) slot l)
                  ∙ loop-greedy rest (kept ++ c ∷ []) w.junk' (suc i) (suc n) (set xs n c)
                      (omega arith) (omega arith) now (ground arith)
                  ∙ append_assoc kept (c ∷ []) _
                  ∙ ap (λ m. kept ++ c ∷ greedy (overlaps r iou_threshold) m (kept ++ c ∷ []) rest)
                      fewer
                  ∙ kept_here
            ]
      ]

  -- Suppression in place is the greedy choice from the candidates in order.
  pub suppress-greedy :
      (candidates : List Detection)
      → suppress r iou_threshold limit candidates
        ≡ greedy (overlaps r iou_threshold) limit [] (sort candidates)
  unfolding suppress cut
  suppress-greedy candidates = elim (Bool-cases (limit == 0)) [
    | inl e ↦
        let z : limit ≡ 0 = ground arith in
        rw e (
          sym (
            ap (λ m. greedy (overlaps r iou_threshold) m [] (sort candidates)) z
            ∙ greedy_full (overlaps r iou_threshold) [] (sort candidates)))
    | inr e ↦
        let some_room : 0 < limit = ground arith in
        let all_room : limit - 0 ≡ limit = omega arith in
        rw e (
          loop-greedy (sort candidates) [] [] 0 0 (sort candidates) refl refl refl some_room
          ∙ ap (λ m. greedy (overlaps r iou_threshold) m [] (sort candidates)) all_room)
  ]
