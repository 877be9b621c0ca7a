-- ===== src/Statsd/Pipelines.antt =====
-- The pipelines and queues that the tracer watches: utils/statsd/src/metrics.rs. The answer of
-- GStreamer to the upgrade of a weak reference, with the state of the pipeline, is an argument.
pub mod Snapshots
use gstsmith_rs.Prelude.{
  ℕ, Bool, true, false, Option, none, some, List, [], ◌∷◌, ◌==◌, if◌then◌else◌, Text, is_some,
}
use gstsmith_rs.Statsd.Tags.{sanitize_tag_value}
use gstsmith_rs.Statsd.State.{PipelineEntry, Metrics, included, lookup, erase}
use gstsmith_rs.Statsd.Pads.{remove_pad_key}

-- What the tracer asks of a pipeline: its address, a weak reference to it and its name.
pub record Pipeline : Type 0 where
  pub key : ℕ
  pub weak : ℕ
  pub name : Text

pub record PipelineSnapshot : Type 0 where
  pub pipeline : Text
  pub state : ℕ

-- `entry(key).or_insert_with(...)`.
abbrev pub or_insert {ℓ} : {V : Type ℓ} → ℕ → V → List (ℕ × V) → List (ℕ × V)
or_insert key v es = elim (lookup key es) [ none ↦ (key, v) ∷ es | some old ↦ es ]

abbrev pub new_pipeline : Pipeline → PipelineEntry
new_pipeline pipeline = record {
  pipeline = pipeline.weak;
  name = sanitize_tag_value pipeline.name;
  observed_transition = false;
}

unfoldable pub track_pipeline : Pipeline → Metrics → Metrics
track_pipeline pipeline m =
    if included m pipeline.name
    then record m { pipelines = or_insert pipeline.key (new_pipeline pipeline) m.pipelines }
    else m

-- `entry.observed_transition.store(true)` on the entry of the key, if there is one.
abbrev pub mark_observed : ℕ → List (ℕ × PipelineEntry) → List (ℕ × PipelineEntry)
mark_observed key [] = []
mark_observed key (e ∷ es) =
    let rest = mark_observed key es in
    if key == e.0 then (e.0, record (e.1) { observed_transition = true }) ∷ es else e ∷ rest

unfoldable pub set_pipeline_state : Pipeline → Metrics → Metrics
unfolding track_pipeline
set_pipeline_state pipeline m =
    let m' = track_pipeline pipeline m in
    record m' { pipelines = mark_observed pipeline.key m'.pipelines }

-- The loop over the entries that saw a transition: the snapshots, and the keys of the entries
-- whose pipeline is gone.
unfoldable pub take_snapshots :
    (ℕ → Option ℕ) → List (ℕ × PipelineEntry) → List PipelineSnapshot × List ℕ
take_snapshots upgrade [] = ([], [])
take_snapshots upgrade (e ∷ es) =
    let (result, stale) = take_snapshots upgrade es in
    if e.1.observed_transition
    then elim (upgrade e.1.pipeline) [
      | none ↦ (result, e.0 ∷ stale)
      | some state ↦ (record { pipeline = e.1.name; state = state } ∷ result, stale)
    ]
    else (result, stale)

abbrev pub erase_all {ℓ} : {V : Type ℓ} → List ℕ → List (ℕ × V) → List (ℕ × V)
erase_all [] es = es
erase_all (k ∷ ks) es = erase_all ks (erase k es)

unfoldable pub pipeline_snapshots : (ℕ → Option ℕ) → Metrics → List PipelineSnapshot × Metrics
unfolding take_snapshots
pipeline_snapshots upgrade m =
    let (result, stale) = take_snapshots upgrade m.pipelines in
    (result, record m { pipelines = erase_all stale m.pipelines })

unfoldable pub invalidate_queue_identities : Metrics → Metrics
invalidate_queue_identities m = record m { queue_identities_dirty = true }

-- `weak` is the reference to the element that a new entry holds.
unfoldable pub track_queue : ℕ → ℕ → Metrics → Metrics
unfolding invalidate_queue_identities
track_queue key weak m =
    invalidate_queue_identities (record m { queues = or_insert key weak m.queues })

unfoldable pub remove_queue_key : ℕ → Metrics → Metrics
unfolding invalidate_queue_identities
remove_queue_key key m =
    let m' = record m { queues = erase key m.queues } in
    if is_some (lookup key m.queues) then invalidate_queue_identities m' else m'

unfoldable pub remove_object_key : ℕ → Metrics → Metrics
unfolding invalidate_queue_identities remove_queue_key
remove_object_key key m =
    let m₁ = remove_pad_key key (invalidate_queue_identities m) in
    remove_queue_key key (record m₁ { pipelines = erase key m₁.pipelines })
