-- ===== src/Statsd/Pads/Counts.antt =====
-- What one call of `update_pad` or `remove_pad_key` adds up to: utils/statsd/src/metrics.rs.
use gstsmith_rs.Prelude.{
  ℕ, ◌+◌, ◌%◌, ◌<◌, ◌≡◌, ◌⊎◌, none, Bool, false, some, List, [], ◌∷◌, length, u64_mod,
}
use gstsmith_rs.Statsd.State.{PadStats, PadEntry, tracked, ignored, filtered, Metrics, lookup}

abbrev pub sum_buffers : List PadStats → ℕ
sum_buffers [] = 0
sum_buffers (s ∷ ss) = s.buffers + sum_buffers ss

-- All buffers that some series or the count of untracked ones has.
unfoldable pub total_buffers : Metrics → ℕ
total_buffers m = (m.untracked_series_limit + sum_buffers m.stats) % u64_mod

-- What an entry does with buffers: it counts them, unless it is one of a pad that a filter left
-- out.
pub data Counted (b : ℕ) (entry : PadEntry) (m m' : Metrics) : Type 0 where
  added : total_buffers m' ≡ (total_buffers m + b) % u64_mod → Counted b entry m m'
  left_out : entry ≡ ignored filtered → total_buffers m' ≡ total_buffers m → Counted b entry m m'

-- What `add_entry` leaves behind.
record Entered (key : ℕ) (m : Metrics) (added : PadEntry × Metrics) : Type 0 where
  found : lookup key added.1.pads ≡ some added.0
  same_total : total_buffers added.1 ≡ total_buffers m
  made : (arc : ℕ) → added.0 ≡ tracked arc → arc < length added.1.stats

-- A pad is left out that an earlier call entered so, or that has no entry yet and that the filters
-- exclude.
abbrev pub IsLeftOut : ℕ → Bool → Metrics → Type 0
IsLeftOut key is_included m =
    (lookup key m.pads ≡ some (ignored filtered))
    ⊎ ((lookup key m.pads ≡ none) × (is_included ≡ false))

-- An update leaves its pad with an entry, and counts the buffers or leaves the pad out.
abbrev pub HasCounted : ℕ → Bool → ℕ → Metrics → Metrics → Type 0
HasCounted key is_included b m m' =
    ((entry : PadEntry) × (lookup key m'.pads ≡ some entry))
    × ((total_buffers m' ≡ (total_buffers m + b) % u64_mod)
        ⊎ (IsLeftOut key is_included m × (total_buffers m' ≡ total_buffers m)))
