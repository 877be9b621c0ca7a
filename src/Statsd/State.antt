-- ===== src/Statsd/State.antt =====
-- The state of the tracer's metrics: `Metrics` of utils/statsd/src/metrics.rs, with the maps as
-- association lists and a compiled filter as the predicate that it tests. The two counts of export
-- errors, which only the worker adds to, and the cache of queue labels are left out.
use gstsmith_rs.Prelude.{
  ℕ, Bool, true, false, not, ◌&&◌, Option, none, some, List, [], ◌∷◌, ◌==◌, if◌then◌else◌, Text,
}
use gstsmith_rs.Statsd.Interval.{PadInterval}

pub record PadStats : Type 0 where
  pub id : ℕ
  pub element : Text
  pub pad : Text
  pub buffers : ℕ
  pub bytes : ℕ
  pub interval : Option PadInterval

pub data IgnoreReason : Type 0 where
  filtered series_limit series_id_overflow : IgnoreReason

pub data PadEntry : Type 0 where
  tracked : ℕ → PadEntry
  ignored : IgnoreReason → PadEntry

pub record RegistrationState : Type 0 where
  pub active : ℕ
  pub next_id : ℕ

-- A weak reference is a number that stands for the object.
pub record PipelineEntry : Type 0 where
  pub pipeline : ℕ
  pub name : Text
  pub observed_transition : Bool

pub record Metrics : Type 0 where
  pub pads : List (ℕ × PadEntry)
  pub pipelines : List (ℕ × PipelineEntry)
  pub queues : List (ℕ × ℕ)
  pub queue_identities_dirty : Bool
  pub stats : List PadStats
  pub registration : RegistrationState
  pub include_filter : Option (Text → Bool)
  pub exclude_filter : Option (Text → Bool)
  pub max_pad_series : ℕ
  pub track_intervals : Bool
  pub retirement : List ℕ
  pub connected : Bool
  pub untracked_series_limit : ℕ
  pub dropped_retirements : ℕ

-- What `update_pad` asks GStreamer of an element and of a pad.
pub record Element : Type 0 where
  pub key : ℕ
  pub path_string : Text

pub record Pad : Type 0 where
  pub key : ℕ
  pub name : Text
  pub parent : Option Element

unfoldable pub new : Option (Text → Bool) → Option (Text → Bool) → ℕ → Bool → Metrics
new include_filter exclude_filter max_pad_series track_intervals = record {
  pads = [];
  pipelines = [];
  queues = [];
  queue_identities_dirty = false;
  stats = [];
  registration = record { active = 0; next_id = 1 };
  include_filter = include_filter;
  exclude_filter = exclude_filter;
  max_pad_series = max_pad_series;
  track_intervals = track_intervals;
  retirement = [];
  connected = true;
  untracked_series_limit = 0;
  dropped_retirements = 0;
}

-- `Option::is_none_or`.
abbrev pub is_none_or : Option (Text → Bool) → (Bool → Bool) → Text → Bool
is_none_or none f t = true
is_none_or (some is_match) f t = f (is_match t)

unfoldable pub included : Metrics → Text → Bool
included m identity =
    is_none_or m.include_filter (λ b. b) identity && is_none_or m.exclude_filter not identity

abbrev pub lookup {ℓ} : {V : Type ℓ} → ℕ → List (ℕ × V) → Option V
lookup key [] = none
lookup key (e ∷ es) = let rest = lookup key es in if key == e.0 then some e.1 else rest

abbrev pub erase {ℓ} : {V : Type ℓ} → ℕ → List (ℕ × V) → List (ℕ × V)
erase key [] = []
erase key (e ∷ es) = let rest = erase key es in if key == e.0 then rest else e ∷ rest
