-- ===== src/Vlm/Element/Runs.antt =====
-- The runs of the element: its chain function, its events and its worker in any order. See
-- analytics/vlm/src/vlmanalysis/imp.rs.
use gstsmith_rs.Prelude.{
  ℕ, ◌≤◌, ◌≡◌, inl, inr, refl, subst, Bool, true, false, Option, none, some, List, if◌then◌else◌,
  Bool-cases, Option-cases, wrapping_add64, ok, err, Result, arith, Returns, done, Returns-bind,
  Returns-guard, Returns-sound, map_err,
}
use gstsmith_rs.Vlm.Config.{Host, WorkerConfig, validate_settings}
use gstsmith_rs.Vlm.Sampler.{
  SelectedFrame, fatal, Started, VlmAnalysis, Buffer, reset_generation, collect_batch,
}
use gstsmith_rs.Vlm.Backend.{GenerationResult, BackendError, timeout, http, response}
use gstsmith_rs.Vlm.Element.{
  Batch, Flow, Sent, sent, full, closed, enqueue_batch, transform_ip, Event, sink_event,
  stream_start, segment, flush_stop, other_event, start, stop, Services, report, send_batch,
  error_fields, backpressure, invalid, no_crypto, no_client, no_runtime,
}
use gstsmith_rs.Vlm.Element.Counted.{
  IsCounted, post-IsCounted, same-IsCounted, WasPosted, WasPosted-more, collect_batch-IsCounted,
  count, tells_fatal, bit, is_backpressure,
}

send_batch-IsCounted :
    (batch : Batch) (answer : Sent) (started : Started) (v : VlmAnalysis)
    → v.state ≡ some started
    → IsCounted v
    → IsCounted (send_batch batch answer started v).1
unfolding send_batch
send_batch-IsCounted batch sent started v s i = record {
  drops = i.drops;
  failures = i.failures;
  results = i.results;
  fatals = i.fatals;
}
send_batch-IsCounted batch full started v s i =
    let f = i.failures in
    let r = i.results in
    post-IsCounted v (backpressure batch) i (send_batch batch full started v).1 refl refl
      (omega arith) (omega arith) (WasPosted-more v.state (count tells_fatal v.bus) i.fatals)
send_batch-IsCounted batch closed started v s i =
    let d = i.drops in
    let f = i.failures in
    let r = i.results in
    let t : count tells_fatal v.bus ≡ bit started.error_posted =
      subst (λ o. WasPosted o (count tells_fatal v.bus)) s i.fatals in
    elim (Bool-cases started.error_posted) [
      | inl e ↦ rw (send_batch, e) i
      | inr e ↦
          post-IsCounted v (fatal "VLM analysis worker is unavailable") i
            (send_batch batch closed started v).1 (rw (send_batch, e) refl)
            (rw (send_batch, e) (omega arith)) (rw (send_batch, e) (omega arith))
            (rw (send_batch, e) (omega arith)) (rw (send_batch, e) (ground arith))
    ]

next_id-IsCounted : (v : VlmAnalysis) (n : ℕ) → IsCounted v → IsCounted (record v { next_id = n })
next_id-IsCounted v n i = same-IsCounted v (record v { next_id = n }) refl refl refl i

either-IsCounted :
    (b : Bool) (x y : Flow × VlmAnalysis)
    → IsCounted x.1
    → IsCounted y.1
    → IsCounted (if b then x else y).1
either-IsCounted true x y i j = i
either-IsCounted false x y i j = j

enqueue_batch-IsCounted :
    (frames : List SelectedFrame) (answer : Sent) (v : VlmAnalysis)
    → IsCounted v
    → IsCounted (enqueue_batch frames answer v).1
unfolding enqueue_batch
enqueue_batch-IsCounted frames answer v i =
    let batch : Batch = record { id = v.next_id; generation = v.generation; frames = frames } in
    let n = wrapping_add64 v.next_id 1 in
    let v' : VlmAnalysis = record v { next_id = n } in
    let i' : IsCounted v' = next_id-IsCounted v n i in
    elim (Option-cases v.state) [
      | inl e ↦ rw (enqueue_batch, e) i'
      | inr (started, e) ↦
          rw (enqueue_batch, e)
            (either-IsCounted started.has_sender _ _
              (send_batch-IsCounted batch answer started v' e i') i')
    ]

transform_ip-IsCounted :
    (buffer : Buffer) (answer : Sent) (v : VlmAnalysis)
    → IsCounted v
    → IsCounted (transform_ip buffer answer v).1
unfolding transform_ip
transform_ip-IsCounted buffer answer v i =
    let v' = (collect_batch buffer v.settings v).1 in
    let i' = collect_batch-IsCounted buffer v.settings v i in
    elim (Option-cases (collect_batch buffer v.settings v).0) [
      | inl e ↦ rw (transform_ip, e) i'
      | inr (frames, e) ↦ rw (transform_ip, e) (enqueue_batch-IsCounted frames answer v' i')
    ]

sink_event-IsCounted :
    (event : Event) (v : VlmAnalysis) → IsCounted v → IsCounted (sink_event event v)
unfolding sink_event reset_generation
sink_event-IsCounted stream_start v i = same-IsCounted v (reset_generation v) refl refl refl i
sink_event-IsCounted segment v i = same-IsCounted v (reset_generation v) refl refl refl i
sink_event-IsCounted flush_stop v i = same-IsCounted v (reset_generation v) refl refl refl i
sink_event-IsCounted other_event v i = i

-- An error of the worker is no lost batch.
error_kind : (e : BackendError) → is_backpressure ((error_fields e).0) ≡ false
error_kind timeout = refl
error_kind (http status bytes message) = refl
error_kind (response message) = refl

report-IsCounted :
    (config : WorkerConfig) (batch : Batch) (latency : ℕ)
    (outcome : Result BackendError GenerationResult) (v : VlmAnalysis)
    → IsCounted v
    → IsCounted (report config batch latency outcome v)
unfolding report
report-IsCounted config batch latency (ok r) v i =
    let d = i.drops in
    let f = i.failures in
    let more = WasPosted-more v.state (count tells_fatal v.bus) i.fatals in
    post-IsCounted v _ i (report config batch latency (ok r) v) refl (omega arith) (omega arith)
      refl more
report-IsCounted config batch latency (err e) v i =
    let d = i.drops in
    let r = i.results in
    let more = WasPosted-more v.state (count tells_fatal v.bus) i.fatals in
    let k = error_kind e in
    post-IsCounted v _ i (report config batch latency (err e) v) refl (rw k (omega arith))
      (rw k refl) (omega arith) more

at_most : (o : Option Started) (n : ℕ) → WasPosted o n → n ≤ 1
at_most none n h = h
at_most (some started) n h = ground arith

stop-IsCounted : (v : VlmAnalysis) → IsCounted v → IsCounted (stop v)
unfolding stop
stop-IsCounted v i = record {
  drops = i.drops;
  failures = i.failures;
  results = i.results;
  fatals = at_most v.state (count tells_fatal v.bus) i.fatals;
}

start-IsCounted :
    (host : Host) (services : Services) (v : VlmAnalysis)
    → Returns (λ r. IsCounted r.1) (start host services v)
unfolding start
start-IsCounted host services v =
    Returns-bind (map_err invalid (validate_settings host v.settings)) _ λ config _.
      Returns-guard services.crypto no_crypto _ λ _. Returns-guard services.client no_client _ λ _.
        Returns-guard services.runtime no_runtime _
          λ _. done (record { drops = refl; failures = refl; results = refl; fatals = refl })

-- What an element that was started can come to: buffers with what the channel answers, events,
-- turns of the worker with any outcome, stops and starts.
pub data Run (host : Host) : VlmAnalysis → Type 0 where
  started :
      (services : Services) (v : VlmAnalysis) (r : WorkerConfig × VlmAnalysis)
      → start host services v ≡ ok r
      → Run host (r.1)
  buffered :
      {v : VlmAnalysis} (buffer : Buffer) (answer : Sent)
      → Run host v
      → Run host (transform_ip buffer answer v).1
  signalled : {v : VlmAnalysis} (event : Event) → Run host v → Run host (sink_event event v)
  reported :
      {v : VlmAnalysis} (config : WorkerConfig) (batch : Batch) (latency : ℕ)
      (outcome : Result BackendError GenerationResult)
      → Run host v
      → Run host (report config batch latency outcome v)
  stopped : {v : VlmAnalysis} → Run host v → Run host (stop v)

-- However buffers, events and the worker's turns interleave: the dropped batches, the failures and
-- the results counted since the start are the messages of their sorts on the bus, in `u64`, and the
-- error that the worker is gone is posted at most once.
pub Run-IsCounted : {host : Host} {v : VlmAnalysis} → Run host v → IsCounted v
Run-IsCounted {host} (started services v r e) =
    Returns-sound _ r (start-IsCounted host services v) e
Run-IsCounted (buffered {v} buffer answer run) =
    transform_ip-IsCounted buffer answer v (Run-IsCounted run)
Run-IsCounted (signalled {v} event run) = sink_event-IsCounted event v (Run-IsCounted run)
Run-IsCounted (reported {v} config batch latency outcome run) =
    report-IsCounted config batch latency outcome v (Run-IsCounted run)
Run-IsCounted (stopped {v} run) = stop-IsCounted v (Run-IsCounted run)
