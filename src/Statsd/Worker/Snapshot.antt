-- ===== src/Statsd/Worker/Snapshot.antt =====
-- One snapshot of the worker: utils/statsd/src/worker.rs. What the other threads do to the metrics
-- while the worker takes retired series is an argument; the atomic loads behind that are one step.
use Prim.Native.String.{String}
use gstsmith_rs.Prelude.{
  ℕ, Bool, not, ◌&&◌, Option, none, some, List, [], ◌∷◌, drop, any, ◌==◌, if◌then◌else◌, Text,
  codes, get_elem?, wrapping_add64,
}
use gstsmith_rs.Statsd.State.{PadStats, Metrics, lookup, erase}
use gstsmith_rs.Statsd.Pads.{active_pads}
use gstsmith_rs.Statsd.Pipelines.{PipelineSnapshot, pipeline_snapshots}
use gstsmith_rs.Statsd.Worker.{
  Client, PadCursor, default_pad_cursor, ExportState, World, Line, Value, gauge, gauge_f64, failure,
  recovery, accepted, try_send, count_failure, export_internal, count_and_log, suppress_recursion,
  export_pad,
}

pub record QueueSnapshot : Type 0 where
  pub element : Text
  pub level_buffers : ℕ
  pub level_bytes : ℕ
  pub level_seconds : ℕ
  pub capacity_buffers : ℕ
  pub capacity_bytes : ℕ
  pub capacity_seconds : ℕ

-- `map.insert(key, value)`.
unfoldable pub put {ℓ} : {V : Type ℓ} → ℕ → V → List (ℕ × V) → List (ℕ × V)
put key v [] = (key, v) ∷ []
put key v (e ∷ es) = let rest = put key v es in if key == e.0 then (key, v) ∷ es else e ∷ rest

abbrev pub put_all : List PadStats → List (ℕ × PadStats) → List (ℕ × PadStats)
put_all [] es = es
put_all (p ∷ ps) es = put_all ps (put p.id p es)

-- The pads that are exported: a retirement can arrive after the active pads were collected, and
-- replaces its pad's entry.
unfoldable pub snapshot_pads : List PadStats → List PadStats → List (ℕ × PadStats)
snapshot_pads active retired = put_all retired (put_all active [])

-- The cursor of a pad, as `entry(...).or_default()` finds it.
abbrev pub cursor_of : ℕ → List (ℕ × PadCursor) → PadCursor
cursor_of id cursors = elim (lookup id cursors) [ none ↦ default_pad_cursor | some c ↦ c ]

abbrev pub has_id : ℕ → List PadStats → Bool
has_id id pads = any (λ p. p.id == id) pads

-- `retain` of the cursors whose pads are active, and not retired.
unfoldable pub retain : List PadStats → List PadStats → List (ℕ × PadCursor) → List (ℕ × PadCursor)
retain active retired [] = []
retain active retired (e ∷ es) =
    let rest = retain active retired es in
    if has_id e.0 active && not (has_id e.0 retired) then e ∷ rest else rest

abbrev pub remove_retired : List PadStats → List (ℕ × PadCursor) → List (ℕ × PadCursor)
remove_retired [] es = es
remove_retired (p ∷ ps) es = remove_retired ps (erase p.id es)

-- The statistics that the references stand for.
abbrev pub load : List PadStats → List ℕ → List PadStats
load stats [] = []
load stats (arc ∷ arcs) =
    let rest = load stats arcs in elim (get_elem? stats arc) [ none ↦ rest | some s ↦ s ∷ rest ]

-- The loop over `retired.try_recv()`, with what the other threads do before each call as long as
-- they do anything; it ends at a call that finds the channel empty.
unfoldable pub receive_all : List (Metrics → Metrics) → Metrics → List ℕ × Metrics
receive_all [] m = (m.retirement, record m { retirement = [] })
receive_all (others ∷ rest) m =
    let m' = others m in
    let after = receive_all rest (record m' { retirement = drop 1 m'.retirement }) in
    elim m'.retirement [ [] ↦ ([], m') | arc ∷ arcs ↦ (arc ∷ after.0, after.1) ]

-- `gst::State` by its number, and the name of a state that is reported.
unfoldable pub state_name : ℕ → Option String
state_name n =
    if n == 1
    then some "null"
    else if n == 2
    then some "ready"
    else if n == 3
    then some "paused"
    else if n == 4
    then some "playing"
    else none

module _ (client : Client) where
  -- The loop over the values of the map, here in the order of the list.
  unfoldable pub export_pads :
      List (ℕ × PadStats) → List (ℕ × PadCursor) → World → List (ℕ × PadCursor) × World
  export_pads [] cursors w = (cursors, w)
  export_pads ((id, pad) ∷ pads) cursors w =
      let (cursor, w') = export_pad client pad (cursor_of pad.id cursors) w in
      export_pads pads (put pad.id cursor cursors) w'

  unfoldable pub export_pad_snapshot :
      List PadStats → List PadStats → List (ℕ × PadCursor) → World → List (ℕ × PadCursor) × World
  unfolding export_pads snapshot_pads
  export_pad_snapshot active retired cursors w =
      let (cursors', w') = export_pads (snapshot_pads active retired) cursors w in
      (retain active retired (remove_retired retired cursors'), w')

  -- A line whose failure is counted and logged.
  unfoldable pub send_gauge : Line → World → World
  unfolding try_send count_failure
  send_gauge line w =
      let w' = try_send client line w in
      if accepted client w then w' else count_failure client "StatsD metric emission failed" w'

  abbrev pub state_line : Text → String → Bool → Line
  state_line pipeline name is_current = record {
    key = "gstreamer.pipeline.state";
    value = gauge (if is_current then 1 else 0);
    tags = ("pipeline", pipeline) ∷ ("state", codes name) ∷ [];
  }

  -- The four states, with one for the state that the pipeline is in.
  unfoldable pub emit_states : Text → ℕ → World → World
  unfolding send_gauge
  emit_states pipeline state w =
      let w₁ = send_gauge (state_line pipeline "null" (state == 1)) w in
      let w₂ = send_gauge (state_line pipeline "ready" (state == 2)) w₁ in
      let w₃ = send_gauge (state_line pipeline "paused" (state == 3)) w₂ in
      send_gauge (state_line pipeline "playing" (state == 4)) w₃

  -- A pipeline whose state is pending is passed over.
  unfoldable pub export_pipelines : List PipelineSnapshot → World → World
  unfolding emit_states
  export_pipelines [] w = w
  export_pipelines (p ∷ ps) w = elim (state_name p.state) [
    | none ↦ export_pipelines ps w
    | some current ↦ export_pipelines ps (emit_states p.pipeline p.state w)
  ]

  unfoldable pub emit_queue_gauge : String → Value → Text → World → World
  unfolding send_gauge
  emit_queue_gauge key value element =
      send_gauge (record { key = key; value = value; tags = ("element", element) ∷ [] })

  unfoldable pub export_queues : List QueueSnapshot → World → World
  unfolding emit_queue_gauge
  export_queues [] w = w
  export_queues (q ∷ qs) w =
      let w₁ =
        emit_queue_gauge "gstreamer.queue.level_buffers" (gauge q.level_buffers) q.element w in
      let w₂ = emit_queue_gauge "gstreamer.queue.level_bytes" (gauge q.level_bytes) q.element w₁ in
      let w₃ =
        emit_queue_gauge "gstreamer.queue.level_seconds" (gauge_f64 q.level_seconds) q.element w₂ in
      let w₄ =
        emit_queue_gauge "gstreamer.queue.capacity_buffers" (gauge q.capacity_buffers) q.element
          w₃ in
      let w₅ =
        emit_queue_gauge "gstreamer.queue.capacity_bytes" (gauge q.capacity_bytes) q.element w₄ in
      let w₆ =
        emit_queue_gauge "gstreamer.queue.capacity_seconds" (gauge_f64 q.capacity_seconds) q.element
          w₅ in
      export_queues qs w₆

  -- `client.flush()`, with its effect on the log.
  unfoldable pub flush : World → World
  unfolding failure recovery
  flush w = if client.flushes then record w { error_log = recovery w.error_log } else record w {
    export_flush_errors = wrapping_add64 w.export_flush_errors 1;
    error_log = failure (client.now w.given) "StatsD flush failed" w.error_log;
  }

  -- The counts of `Metrics`, in the order in which they are sent.
  unfoldable pub export_diagnostics : Metrics → ExportState → World → ExportState × World
  unfolding export_internal
  export_diagnostics m s w =
      let (untracked, w₁) =
        export_internal client "gstreamer.untracked_pad_events" (codes "series_limit") count_and_log
          m.untracked_series_limit s.untracked w in
      let (emit_errors, w₂) =
        export_internal client "gstreamer.statsd_export_errors" (codes "emit") suppress_recursion
          w₁.export_emit_errors s.emit_errors w₁ in
      let (flush_errors, w₃) =
        export_internal client "gstreamer.statsd_export_errors" (codes "flush") suppress_recursion
          w₂.export_flush_errors s.flush_errors w₂ in
      let (dropped, w₄) =
        export_internal client "gstreamer.statsd_dropped_series" (codes "retirement_queue_full")
          count_and_log m.dropped_retirements s.dropped w₃ in
      (
        record s {
          untracked = untracked;
          emit_errors = emit_errors;
          flush_errors = flush_errors;
          dropped = dropped;
        },
        w₄,
      )

  -- The active pads are collected first, and then the retired ones are taken from the channel while
  -- other threads go on. `upgrade` is GStreamer's answer for a pipeline, `queues` what the snapshots
  -- of the queues hold.
  unfoldable pub export_snapshot :
      (ℕ → Option ℕ)
      → List (Metrics → Metrics)
      → List QueueSnapshot
      → Metrics
      → ExportState
      → World
      → Metrics × ExportState × World
  unfolding receive_all export_pad_snapshot export_pipelines export_queues export_diagnostics flush
  export_snapshot upgrade meanwhile queues m₀ s w =
      let (arcs, m) = receive_all meanwhile m₀ in
      let active = load m.stats (active_pads m₀.pads) in
      let retired = load m.stats arcs in
      let (cursors, w₁) = export_pad_snapshot active retired s.pads w in
      let (pipelines, m₁) = pipeline_snapshots upgrade m in
      let w₂ = export_queues queues (export_pipelines pipelines w₁) in
      let (s', w₃) = export_diagnostics m₁ (record s { pads = cursors }) w₂ in (m₁, s', flush w₃)
