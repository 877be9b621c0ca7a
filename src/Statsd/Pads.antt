-- ===== src/Statsd/Pads.antt =====
-- The pads that the tracer counts: utils/statsd/src/metrics.rs. An `Arc<PadStats>` is a position in
-- the list of all statistics that were ever made, so that the map, the channel of retired pads and
-- a thread that still holds one share it. Every atomic operation and every section under the
-- registration lock is one step.
pub mod Entries
pub mod Valid
pub mod Steps
pub mod Counts
pub mod Slots
pub mod Places
use gstsmith_rs.Prelude.{
  ℕ, zero, suc, ◌+◌, ◌-◌, Bool, true, false, not, ◌&&◌, ◌||◌, Option, none, some, List, [], ◌∷◌,
  ◌++◌, map, ltb, leb, ◌==◌, if◌then◌else◌, Text, length, get_elem?, set, checked_add,
  wrapping_add64, u64_mod,
}
use gstsmith_rs.Statsd.Interval.{PadInterval, IntervalSnapshot, default_snapshot, observe, reset}
use gstsmith_rs.Statsd.Tags.{sanitize_tag_value}
use gstsmith_rs.Statsd.State.{
  PadStats, PadEntry, tracked, ignored, IgnoreReason, filtered, series_limit, series_id_overflow,
  RegistrationState, Metrics, Element, Pad, included, lookup, erase,
}

-- One atomic update of shared statistics.
unfoldable pub modify : ℕ → (PadStats → PadStats) → List PadStats → List PadStats
modify arc f stats = elim (get_elem? stats arc) [ none ↦ stats | some s ↦ set stats arc (f s) ]

abbrev pub observe_interval : ℕ → Option PadInterval → Option PadInterval
observe_interval timestamp none = none
observe_interval timestamp (some i) = some (record i { data_ = observe timestamp i.data_ })

abbrev pub count_buffers : ℕ → ℕ → ℕ → PadStats → PadStats
count_buffers buffers bytes timestamp s = record s {
  buffers = wrapping_add64 s.buffers buffers;
  bytes = wrapping_add64 s.bytes bytes;
  interval = observe_interval timestamp s.interval;
}

abbrev pub add_untracked : ℕ → Metrics → Metrics
add_untracked buffers m = record m {
  untracked_series_limit = wrapping_add64 m.untracked_series_limit buffers;
}

unfoldable pub increment_entry : PadEntry → ℕ → ℕ → ℕ → Metrics → Metrics
unfolding modify
increment_entry (tracked arc) buffers bytes timestamp m = record m {
  stats = modify arc (count_buffers buffers bytes timestamp) m.stats;
}
increment_entry (ignored series_limit) buffers bytes timestamp m = add_untracked buffers m
increment_entry (ignored series_id_overflow) buffers bytes timestamp m = add_untracked buffers m
increment_entry (ignored filtered) buffers bytes timestamp m = m

-- The entry of a pad that is registered, with the registration state and the statistics made.
unfoldable pub new_stats : Bool → ℕ → Text → Text → ℕ → PadStats
new_stats track_intervals id element pad owner = record {
  id = id;
  element = element;
  pad = pad;
  buffers = 0;
  bytes = 0;
  interval =
      if track_intervals then some (record { owner = owner; data_ = default_snapshot }) else none;
}

-- The section under the registration lock for a pad that has no entry, up to the insertion.
unfoldable pub add_entry : ℕ → Bool → Text → Text → ℕ → Metrics → PadEntry × Metrics
unfolding new_stats
add_entry key is_included element pad owner m =
    let insert : PadEntry → Metrics → PadEntry × Metrics =
      λ entry m'. (entry, record m' { pads = (key, entry) ∷ m'.pads }) in
    if not is_included
    then insert (ignored filtered) m
    else if leb m.max_pad_series m.registration.active
    then insert (ignored series_limit) m
    else elim (checked_add u64_mod m.registration.next_id 1) [
      | none ↦ insert (ignored series_id_overflow) m
      | some next_id ↦ insert (tracked (length m.stats)) (record m {
        registration = record { active = m.registration.active + 1; next_id = next_id };
        stats =
            m.stats ++ new_stats m.track_intervals m.registration.next_id element pad owner ∷ [];
      })
    ]

-- The section under the registration lock: the entry may have been made since it was looked up.
unfoldable pub register : ℕ → Bool → Text → Text → ℕ → ℕ → ℕ → ℕ → Metrics → Metrics
unfolding add_entry increment_entry
register key is_included element pad owner buffers bytes timestamp m = elim (lookup key m.pads) [
  | some entry ↦ increment_entry entry buffers bytes timestamp m
  | none ↦
      let (entry, m') = add_entry key is_included element pad owner m in
      increment_entry entry buffers bytes timestamp m'
]

-- The identity that the filters see.
abbrev pub identity_of : Element → Pad → Text
identity_of element pad = element.path_string ++ b':' ∷ pad.name

unfoldable pub update_pad : Pad → ℕ → ℕ → ℕ → Metrics → Metrics
unfolding register
update_pad pad buffers bytes timestamp m = elim (lookup pad.key m.pads) [
  | some entry ↦ increment_entry entry buffers bytes timestamp m
  | none ↦ elim pad.parent [
    | none ↦ m
    | some element ↦
        register pad.key (included m (identity_of element pad))
          (sanitize_tag_value element.path_string) (sanitize_tag_value pad.name) element.key buffers
          bytes timestamp m
  ]
]

-- `retirement.try_send`, with the count of those that were dropped: a channel that is full or has
-- lost its receiver refuses.
unfoldable pub retire : ℕ → Metrics → Metrics
retire arc m =
    if m.connected && ltb (length m.retirement) m.max_pad_series
    then record m { retirement = m.retirement ++ arc ∷ [] }
    else record m { dropped_retirements = wrapping_add64 m.dropped_retirements 1 }

abbrev pub release : Metrics → Metrics
release m = record m {
  registration = record (m.registration) { active = m.registration.active - 1 };
}

unfoldable pub remove_pad_key : ℕ → Metrics → Metrics
unfolding retire
remove_pad_key key m =
    let m' = record m { pads = erase key m.pads } in
    elim (lookup key m.pads) [
      | none ↦ m'
      | some (ignored reason) ↦ m'
      | some (tracked arc) ↦ retire arc (release m')
    ]

abbrev pub reset_interval : ℕ → PadStats → PadStats
reset_interval timestamp s = elim s.interval [
  | none ↦ s
  | some i ↦ record s { interval = some (record i { data_ = reset timestamp i.data_ }) }
]

unfoldable pub reset_pad_interval : Pad → ℕ → Metrics → Metrics
unfolding modify
reset_pad_interval pad timestamp m = elim (lookup pad.key m.pads) [
  | none ↦ m
  | some (ignored reason) ↦ m
  | some (tracked arc) ↦ record m { stats = modify arc (reset_interval timestamp) m.stats }
]

abbrev pub owned_by : ℕ → PadStats → Bool
owned_by element s = elim s.interval [ none ↦ false | some i ↦ i.owner == element ]

abbrev pub reset_owned : ℕ → ℕ → PadStats → PadStats
reset_owned element timestamp s = if owned_by element s then reset_interval timestamp s else s

-- The loop over the entries of the map.
unfoldable pub reset_entries : ℕ → ℕ → List (ℕ × PadEntry) → List PadStats → List PadStats
unfolding modify
reset_entries element timestamp [] stats = stats
reset_entries element timestamp ((key, ignored reason) ∷ es) stats =
    reset_entries element timestamp es stats
reset_entries element timestamp ((key, tracked arc) ∷ es) stats =
    reset_entries element timestamp es (modify arc (reset_owned element timestamp) stats)

unfoldable pub reset_element_intervals : Element → ℕ → Metrics → Metrics
unfolding reset_entries
reset_element_intervals element timestamp m =
    if not m.track_intervals
    then m
    else record m { stats = reset_entries element.key timestamp m.pads m.stats }

-- The statistics of the tracked pads.
unfoldable pub active_pads : List (ℕ × PadEntry) → List ℕ
active_pads [] = []
active_pads ((key, ignored reason) ∷ es) = active_pads es
active_pads ((key, tracked arc) ∷ es) = arc ∷ active_pads es
