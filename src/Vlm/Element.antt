-- ===== src/Vlm/Element.antt =====
-- The element and its worker: analytics/vlm/src/vlmanalysis/imp.rs. The channel to the worker, the
-- TLS provider, the HTTP client and the runtime are parameters, by what they answer.
pub mod Counted
pub mod Runs
pub mod Requests
use Prim.Native.String.{String}
use gstsmith_rs.Prelude.{
  ℕ, ◌+◌, ◌-◌, Bool, true, false, not, ◌&&◌, ◌||◌, Option, none, some, List, [], ◌∷◌, ◌++◌, map,
  if◌then◌else◌, length, min, Text, codes, wrapping_add64, u32_mod, Result, ok, err, ◌>>=◌, ◌>>◌,
  guard, map_err,
}
use gstsmith_rs.Vlm.Settings.{Settings, Counters, no_counts}
use gstsmith_rs.Vlm.Config.{Host, WorkerConfig, SettingsFault, validate_settings}
use gstsmith_rs.Vlm.Sampler.{
  Bytes, SelectedFrame, Sampler, default_sampler, Message, failed, answered, fatal, ErrorMessage,
  ResultMessage, kind_backpressure, kind_timeout, kind_http, kind_response, Kind, Started,
  VlmAnalysis, Buffer, or, reset_generation, collect_batch,
}
use gstsmith_rs.Vlm.Backend.{
  GenerationRequest, GenerationResult, BackendError, timeout, http, response, literal_messages,
  Prompt,
}
use gstsmith_rs.Vlm.Backend.Answer.{Serde, Answer, generate}

pub record Batch : Type 0 where
  pub id : ℕ
  pub generation : ℕ
  pub frames : List SelectedFrame

-- What `try_send` returns.
pub data Sent : Type 0 where
  sent full closed : Sent

pub data Flow : Type 0 where
  flow_ok flushing : Flow

-- `u32::try_from(...).unwrap_or(u32::MAX)`.
abbrev pub frame_count : List SelectedFrame → ℕ
frame_count frames = min (length frames) (u32_mod - 1)

abbrev pub count_dropped : Counters → Counters
count_dropped c = record c { dropped = wrapping_add64 c.dropped 1 }

abbrev pub count_submitted : Counters → Counters
count_submitted c = record c { submitted = wrapping_add64 c.submitted 1 }

abbrev pub backpressure : Batch → Message
backpressure batch = failed (record {
  id = some batch.id;
  generation = batch.generation;
  kind = kind_backpressure;
  message = "VLM request queue is full; newest batch was dropped";
  http_status = none;
  frame_count = frame_count batch.frames;
})

-- The three answers of a channel whose sender is there.
unfoldable pub send_batch : Batch → Sent → Started → VlmAnalysis → Flow × VlmAnalysis
send_batch batch sent started v = (flow_ok, record v { counters = count_submitted v.counters })
send_batch batch full started v = (
  flow_ok,
  record v { counters = count_dropped v.counters; bus = v.bus ++ backpressure batch ∷ [] },
)
send_batch batch closed started v = (
  flushing,
  if started.error_posted then v else record v {
    state = some (record started { error_posted = true });
    bus = v.bus ++ fatal "VLM analysis worker is unavailable" ∷ [];
  },
)

unfoldable pub enqueue_batch : List SelectedFrame → Sent → VlmAnalysis → Flow × VlmAnalysis
unfolding send_batch
enqueue_batch frames answer v =
    let batch : Batch = record { id = v.next_id; generation = v.generation; frames = frames } in
    let v' = record v { next_id = wrapping_add64 v.next_id 1 } in
    elim v.state [
      | none ↦ (flushing, v')
      | some started ↦
          if started.has_sender then send_batch batch answer started v' else (flushing, v')
    ]

unfoldable pub transform_ip : Buffer → Sent → VlmAnalysis → Flow × VlmAnalysis
unfolding collect_batch enqueue_batch
transform_ip buffer answer v =
    let (batch, v') = collect_batch buffer v.settings v in
    elim batch [ none ↦ (flow_ok, v') | some frames ↦ enqueue_batch frames answer v' ]

-- The events that start a generation, and the others.
pub data Event : Type 0 where
  stream_start segment flush_stop other_event : Event

unfoldable pub sink_event : Event → VlmAnalysis → VlmAnalysis
unfolding reset_generation
sink_event stream_start v = reset_generation v
sink_event segment v = reset_generation v
sink_event flush_stop v = reset_generation v
sink_event other_event v = v

pub data StartFault : Type 0 where
  invalid : SettingsFault → StartFault
  no_crypto no_client no_runtime : StartFault

-- Whether the TLS provider, the HTTP client and the runtime are there.
pub record Services : Type 0 where
  pub crypto : Bool
  pub client : Bool
  pub runtime : Bool

unfoldable pub start :
    Host → Services → VlmAnalysis → Result StartFault (WorkerConfig × VlmAnalysis)
unfolding validate_settings
start host services v = do
  config ← map_err invalid (validate_settings host v.settings)
  guard services.crypto no_crypto
  guard services.client no_client
  guard services.runtime no_runtime
  ok (
    config,
    record v {
      counters = no_counts;
      generation = 1;
      next_id = 1;
      no_pts_warned = false;
      sampler = default_sampler;
      state = some (record {
        has_sender = true;
        drain_timeout = v.settings.drain_timeout;
        error_posted = false;
      });
      bus = [];
    },
  )

-- The worker is joined or aborted, which is no state of the element.
unfoldable pub stop : VlmAnalysis → VlmAnalysis
stop v = record v { state = none; sampler = default_sampler }

-- The timestamps that are there.
abbrev pub valid_pts : List SelectedFrame → List ℕ
valid_pts [] = []
valid_pts (f ∷ fs) = elim f.pts [ none ↦ valid_pts fs | some p ↦ p ∷ valid_pts fs ]

abbrev next_back : List ℕ → Option ℕ
next_back [] = none
next_back (p ∷ ps) = or (next_back ps) (some p)

abbrev ends : List ℕ → Option ℕ × Option ℕ
ends [] = (none, none)
ends (p ∷ ps) = (some p, or (next_back ps) (some p))

unfoldable pub batch_pts : List SelectedFrame → Option ℕ × Option ℕ
batch_pts frames = ends (valid_pts frames)

module _ (encode : Bytes → Text) where
  abbrev pub data_url : SelectedFrame → Text
  data_url frame = codes "data:image/jpeg;base64," ++ encode frame.bytes

  unfoldable pub request_of : WorkerConfig → Batch → GenerationRequest
  unfolding literal_messages
  request_of config batch = record {
    model = config.model;
    messages = literal_messages config.system_prompt config.user_prompt (map data_url batch.frames);
    max_tokens = config.max_tokens;
    temperature = config.temperature;
    top_p = config.top_p;
    token_limit_mode = config.token_limit_mode;
    sampling_mode = config.sampling_mode;
    reasoning_effort = config.reasoning_effort;
    response_format = config.response_format;
    response_schema = config.response_schema;
  }

-- The kind, the message and the status of an error.
abbrev pub error_fields : BackendError → Kind × String × Option ℕ
error_fields timeout = (kind_timeout, "VLM request timed out", none)
error_fields (http status body_bytes message) = (kind_http, message, status)
error_fields (response message) = (kind_response, message, none)

-- One turn of `worker_loop`, for an element that is still there.
unfoldable pub report :
    WorkerConfig → Batch → ℕ → Result BackendError GenerationResult → VlmAnalysis → VlmAnalysis
unfolding batch_pts
report config batch latency (ok r) v = record v {
  counters = record (v.counters) { completed = wrapping_add64 v.counters.completed 1 };
  bus =
      v.bus
      ++ answered (record {
        id = batch.id;
        generation = batch.generation;
        model = config.model;
        content = r.content;
        frame_count = frame_count batch.frames;
        start_pts = (batch_pts batch.frames).0;
        end_pts = (batch_pts batch.frames).1;
        latency = latency;
        prompt_tokens = r.usage.prompt;
        completion_tokens = r.usage.completion;
        reasoning_tokens = r.usage.reasoning;
      })
        ∷ [];
}
report config batch latency (err e) v = record v {
  counters = record (v.counters) { failed = wrapping_add64 v.counters.failed 1 };
  bus =
      v.bus
      ++ failed (record {
        id = some batch.id;
        generation = batch.generation;
        kind = (error_fields e).0;
        message = (error_fields e).1;
        http_status = (error_fields e).2;
        frame_count = frame_count batch.frames;
      })
        ∷ [];
}

unfoldable pub worker_turn :
    Serde → (Bytes → Answer) → (Bytes → Text) → WorkerConfig → Batch → ℕ → VlmAnalysis → VlmAnalysis
unfolding generate request_of report
worker_turn serde send encode config batch latency v =
    report config batch latency (generate serde send (request_of encode config batch)) v
