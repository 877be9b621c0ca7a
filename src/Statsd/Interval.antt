-- ===== src/Statsd/Interval.antt =====
-- The histogram of the intervals between buffers: `PadInterval` and `IntervalSnapshot` of
-- utils/statsd/src/metrics.rs. The lock around the snapshot makes each call one step.
pub mod Recorded
use gstsmith_rs.Prelude.{
  ℕ, ◌-◌, ◌^◌, Bool, Option, none, some, List, [], ◌∷◌, max, ltb, leb, if◌then◌else◌, Text, codes,
  checked_sub, wrapping_add64, replicate,
}

-- The upper bounds in nanoseconds, with the labels of the tags.
abbrev pub interval_buckets : List (ℕ × Text)
interval_buckets =
    (1_000_000, codes "1")
    ∷ (5_000_000, codes "5")
    ∷ (10_000_000, codes "10")
    ∷ (20_000_000, codes "20")
    ∷ (40_000_000, codes "40")
    ∷ (100_000_000, codes "100")
    ∷ (250_000_000, codes "250")
    ∷ (1_000_000_000, codes "1000")
    ∷ (2 ^ 64 - 1, codes "+Inf")
    ∷ []

pub record IntervalSnapshot : Type 0 where
  pub last : Option ℕ
  pub reset_at : ℕ
  pub buckets : List ℕ
  pub count : ℕ
  pub sum_ns : ℕ

abbrev pub default_snapshot : IntervalSnapshot
default_snapshot = record {
  last = none;
  reset_at = 0;
  buckets = replicate 9 0;
  count = 0;
  sum_ns = 0;
}

pub record PadInterval : Type 0 where
  pub owner : ℕ
  pub data_ : IntervalSnapshot

-- The last timestamp, unless it is not behind the reset.
unfoldable pub kept_last : ℕ → Option ℕ → Option ℕ
kept_last at none = none
kept_last at (some last) = if leb last at then none else some last

unfoldable pub reset : ℕ → IntervalSnapshot → IntervalSnapshot
unfolding kept_last
reset timestamp d =
    let at = max d.reset_at timestamp in record d { last = kept_last at d.last; reset_at = at }

-- The loop over the bounds and the buckets.
unfoldable pub add_to_buckets : ℕ → List (ℕ × Text) → List ℕ → List ℕ
add_to_buckets interval [] buckets = buckets
add_to_buckets interval (bound ∷ bounds) [] = []
add_to_buckets interval (bound ∷ bounds) (bucket ∷ buckets) =
    (if leb interval bound.0 then wrapping_add64 bucket 1 else bucket)
    ∷ add_to_buckets interval bounds buckets

unfoldable pub add_interval : ℕ → IntervalSnapshot → IntervalSnapshot
unfolding add_to_buckets
add_interval interval d = record d {
  buckets = add_to_buckets interval interval_buckets d.buckets;
  count = wrapping_add64 d.count 1;
  sum_ns = wrapping_add64 d.sum_ns interval;
}

unfoldable pub observe : ℕ → IntervalSnapshot → IntervalSnapshot
unfolding add_interval
observe timestamp d = if ltb timestamp d.reset_at then d else elim d.last [
  | none ↦ record d { last = some timestamp }
  | some previous ↦ elim (checked_sub timestamp previous) [
    | none ↦ d
    | some interval ↦ record (add_interval interval d) { last = some timestamp }
  ]
]
