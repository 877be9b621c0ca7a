-- ===== src/Statsd/Interval/Recorded.antt =====
-- What the histogram records of a sequence of timestamps: utils/statsd/src/metrics.rs.
use gstsmith_rs.Prelude.{
  ℕ, ◌+◌, ◌-◌, ◌%◌, ◌<◌, ◌≤◌, ◌≡◌, refl, ap, ◌∙◌, sym, subst, Option, none, some, List, [], ◌∷◌,
  ◌++◌, map, max, ltb, leb, if◌then◌else◌, Text, wrapping_add64, u64_mod, length, length-append,
  arith, Bool-cases, ltb→lt, inl, inr,
}
use gstsmith_rs.Statsd.Interval.{
  IntervalSnapshot, interval_buckets, add_to_buckets, add_interval, observe, reset, kept_last,
}
use mathlib.Core.Path.{ap₂}
use mathlib.Core.List.{append_assoc, append-nil}

abbrev pub sum : List ℕ → ℕ
sum [] = 0
sum (x ∷ xs) = x + sum xs

-- How many of the numbers are at most the bound.
abbrev pub count_le : ℕ → List ℕ → ℕ
count_le b [] = 0
count_le b (x ∷ xs) = (if leb x b then 1 else 0) + count_le b xs

-- The timestamps that are not behind the greatest one so far, from `m` on.
abbrev pub climb : ℕ → List ℕ → List ℕ
climb m [] = []
climb m (t ∷ ts) =
    let stay = climb m ts in let move = t ∷ climb t ts in if ltb t m then stay else move

-- The differences of neighbours.
abbrev pub gaps_from : ℕ → List ℕ → List ℕ
gaps_from l [] = []
gaps_from l (t ∷ ts) = (t - l) ∷ gaps_from t ts

abbrev pub gaps : List ℕ → List ℕ
gaps [] = []
gaps (t ∷ ts) = gaps_from t ts

unfoldable pub observe_all : List ℕ → IntervalSnapshot → IntervalSnapshot
observe_all [] d = d
observe_all (t ∷ ts) d = observe_all ts (observe t d)

-- The snapshot counts these intervals, with the wrap-around of a `u64`.
pub record Recorded (xs : List ℕ) (d : IntervalSnapshot) : Type 0 where
  pub all_counted : d.count ≡ length xs % u64_mod
  pub all_summed : d.sum_ns ≡ sum xs % u64_mod
  pub in_buckets : d.buckets ≡ map (λ b. count_le b.0 xs % u64_mod) interval_buckets

sum-append : (xs : List ℕ) (x : ℕ) → sum (xs ++ x ∷ []) ≡ sum xs + x
sum-append [] x = omega arith
sum-append (y ∷ xs) x = omega (arith, sum-append xs x)

count_le-append :
    (b : ℕ) (xs : List ℕ) (x : ℕ)
    → count_le b (xs ++ x ∷ []) ≡ count_le b xs + (if leb x b then 1 else 0)
count_le-append b [] x = omega arith
count_le-append b (y ∷ xs) x = omega (arith, count_le-append b xs x)

add_wraps : (a b : ℕ) → wrapping_add64 (a % u64_mod) b ≡ (a + b) % u64_mod
add_wraps a b = omega arith

bucket_wraps :
    (b : ℕ) (xs : List ℕ) (x : ℕ)
    → (if leb x b then wrapping_add64 (count_le b xs % u64_mod) 1 else count_le b xs % u64_mod)
      ≡ count_le b (xs ++ x ∷ []) % u64_mod
bucket_wraps b xs x = let e = count_le-append b xs x in ground arith

buckets_grow :
    (xs : List ℕ) (x : ℕ) (bounds : List (ℕ × Text))
    → add_to_buckets x bounds (map (λ b. count_le b.0 xs % u64_mod) bounds)
      ≡ map (λ b. count_le b.0 (xs ++ x ∷ []) % u64_mod) bounds
unfolding add_to_buckets
buckets_grow xs x [] = refl
buckets_grow xs x (b ∷ bounds) = ap₂ (◌∷◌) (bucket_wraps b.0 xs x) (buckets_grow xs x bounds)

add_interval-Recorded :
    (xs : List ℕ) (x : ℕ) (d : IntervalSnapshot)
    → Recorded xs d
    → Recorded (xs ++ x ∷ []) (add_interval x d)
unfolding add_interval
add_interval-Recorded xs x d r = record {
  all_counted = let e = length-append xs (x ∷ []) in let c = r.all_counted in omega arith;
  all_summed = let e = sum-append xs x in let c = r.all_summed in omega arith;
  in_buckets =
      ap (add_to_buckets x interval_buckets) r.in_buckets ∙ buckets_grow xs x interval_buckets;
}

module _ (t : ℕ) (d : IntervalSnapshot) where
  -- A timestamp before the last reset changes nothing.
  observe_early : t < d.reset_at → observe t d ≡ d
  unfolding observe
  observe_early h = ground arith

  observe_first : d.last ≡ none → d.reset_at ≤ t → observe t d ≡ record d { last = some t }
  unfolding observe
  observe_first e h = rw e (ground arith)

  observe_late : (l : ℕ) → d.last ≡ some l → t < l → observe t d ≡ d
  unfolding observe
  observe_late l e h = rw e (ground arith)

  observe_next :
      (l : ℕ)
      → d.last ≡ some l
      → d.reset_at ≤ l
      → l ≤ t
      → observe t d ≡ record (add_interval (t - l) d) { last = some t }
  unfolding observe
  observe_next l e h k = rw e (ground arith)

climb_stay : (m t : ℕ) (ts : List ℕ) → t < m → climb m (t ∷ ts) ≡ climb m ts
climb_stay m t ts h = ground arith

climb_move : (m t : ℕ) (ts : List ℕ) → m ≤ t → climb m (t ∷ ts) ≡ t ∷ climb t ts
climb_move m t ts h = ground arith

-- A snapshot records the same intervals whatever it keeps as its last timestamp.
last-Recorded :
    (xs : List ℕ) (d : IntervalSnapshot) (last : Option ℕ)
    → Recorded xs d
    → Recorded xs (record d { last = last })
last-Recorded xs d last r = record {
  all_counted = r.all_counted;
  all_summed = r.all_summed;
  in_buckets = r.in_buckets;
}

same-Recorded :
    {xs ys : List ℕ} {d d' : IntervalSnapshot} → xs ≡ ys → d ≡ d' → Recorded xs d → Recorded ys d'
same-Recorded {xs} {ys} {d} {d'} p q r =
    subst (λ e. Recorded ys e) q (subst (λ zs. Recorded zs d) p r)

-- Once a timestamp was seen, each that is not behind the last one adds its distance.
observe_all-Recorded_from :
    (l : ℕ) (ts xs : List ℕ) (d : IntervalSnapshot)
    → d.last ≡ some l
    → d.reset_at ≤ l
    → Recorded xs d
    → Recorded (xs ++ gaps_from l (climb l ts)) (observe_all ts d)
unfolding observe_all add_interval
observe_all-Recorded_from l [] xs d e h r = same-Recorded (sym (append-nil xs)) refl r
observe_all-Recorded_from l (t ∷ ts) xs d e h r = elim (Bool-cases (ltb t l)) [
  | inl b ↦
      let k = ltb→lt t l b in
      same-Recorded (ap (λ c. xs ++ gaps_from l c) (sym (climb_stay l t ts k)))
        (ap (observe_all ts) (sym (observe_late t d l e k)))
        (observe_all-Recorded_from l ts xs d e h r)
  | inr b ↦
      let k : l ≤ t = ground arith in
      same-Recorded
        (append_assoc xs ((t - l) ∷ []) (gaps_from t (climb t ts))
          ∙ ap (λ c. xs ++ gaps_from l c) (sym (climb_move l t ts k)))
        (ap (observe_all ts) (sym (observe_next t d l e h k)))
        (observe_all-Recorded_from t ts (xs ++ (t - l) ∷ []) _ refl (omega arith)
          (last-Recorded _ _ (some t) (add_interval-Recorded xs (t - l) d r)))
]

-- What a pad's histogram counts, whatever the order in which concurrent hooks reach it: from a
-- snapshot without a last timestamp, the timestamps before the reset or behind a greater one are
-- dropped, and the intervals between neighbours of the others are added, each bucket with those up
-- to its bound, all modulo 2^64.
pub observe_all-Recorded :
    (ts xs : List ℕ) (d : IntervalSnapshot)
    → d.last ≡ none
    → Recorded xs d
    → Recorded (xs ++ gaps (climb d.reset_at ts)) (observe_all ts d)
unfolding observe_all
observe_all-Recorded [] xs d e r = same-Recorded (sym (append-nil xs)) refl r
observe_all-Recorded (t ∷ ts) xs d e r = elim (Bool-cases (ltb t d.reset_at)) [
  | inl b ↦
      let k = ltb→lt t d.reset_at b in
      same-Recorded (ap (λ c. xs ++ gaps c) (sym (climb_stay d.reset_at t ts k)))
        (ap (observe_all ts) (sym (observe_early t d k))) (observe_all-Recorded ts xs d e r)
  | inr b ↦
      let k : d.reset_at ≤ t = ground arith in
      same-Recorded (ap (λ c. xs ++ gaps c) (sym (climb_move d.reset_at t ts k)))
        (ap (observe_all ts) (sym (observe_first t d e k)))
        (observe_all-Recorded_from t ts xs _ refl k (last-Recorded xs d (some t) r))
]

kept_last-none : (at : ℕ) (o : Option ℕ) → ((l : ℕ) → o ≡ some l → l ≤ at) → kept_last at o ≡ none
unfolding kept_last
kept_last-none at none h = refl
kept_last-none at (some l) h = let k = h l refl in ground arith

-- After a reset at a time that no earlier timestamp passes, no interval reaches back over the
-- reset: what is added are the intervals between the timestamps from the reset on.
pub reset-Recorded :
    (at : ℕ) (ts xs : List ℕ) (d : IntervalSnapshot)
    → ((l : ℕ) → d.last ≡ some l → l ≤ max d.reset_at at)
    → Recorded xs d
    → Recorded (xs ++ gaps (climb (max d.reset_at at) ts)) (observe_all ts (reset at d))
unfolding reset
reset-Recorded at ts xs d h r =
    observe_all-Recorded ts xs (reset at d) (kept_last-none _ d.last h)
      record { all_counted = r.all_counted; all_summed = r.all_summed; in_buckets = r.in_buckets }
