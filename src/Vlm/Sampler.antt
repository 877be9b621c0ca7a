-- ===== src/Vlm/Sampler.antt =====
-- The element's state and the sampling of frames: analytics/vlm/src/vlmanalysis/imp.rs,
-- `reset_generation`, `post_input_error` and `collect_batch`. A `ClockTime` is its nanoseconds.
-- What GStreamer answers of a buffer is the record `Buffer`. `bus` are the messages posted since the
-- start.
pub mod Batches
pub mod Failures
use Prim.Native.String.{String}
use gstsmith_rs.Prelude.{
  ℕ, ◌+◌, ◌-◌, Bool, true, false, not, ◌&&◌, ◌||◌, Option, none, some, List, [], ◌∷◌, ◌++◌, ◌==◌,
  ltb, leb, if◌then◌else◌, length, is_empty, is_some, Text, wrapping_add64, u64_mod,
}
use gstsmith_rs.Vlm.Settings.{Settings, Counters}

abbrev pub Bytes : Type 0
Bytes = List ℕ

pub record SelectedFrame : Type 0 where
  pub bytes : Bytes
  pub pts : Option ℕ

pub record Sampler : Type 0 where
  pub last_seen_pts : Option ℕ
  pub last_selected_pts : Option ℕ
  pub no_pts_selected : Bool
  pub frames : List SelectedFrame
  pub bytes : ℕ

abbrev pub default_sampler : Sampler
default_sampler = record {
  last_seen_pts = none;
  last_selected_pts = none;
  no_pts_selected = false;
  frames = [];
  bytes = 0;
}

-- "input", "backpressure", "timeout", "http" and "response".
pub data Kind : Type 0 where
  kind_input kind_backpressure kind_timeout kind_http kind_response : Kind

-- The fields of `post_error_message`.
pub record ErrorMessage : Type 0 where
  pub id : Option ℕ
  pub generation : ℕ
  pub kind : Kind
  pub message : String
  pub http_status : Option ℕ
  pub frame_count : ℕ

-- The fields of `post_result_message`.
pub record ResultMessage : Type 0 where
  pub id : ℕ
  pub generation : ℕ
  pub model : Text
  pub content : Text
  pub frame_count : ℕ
  pub start_pts : Option ℕ
  pub end_pts : Option ℕ
  pub latency : ℕ
  pub prompt_tokens : Option ℕ
  pub completion_tokens : Option ℕ
  pub reasoning_tokens : Option ℕ

-- `fatal` is the error of the element.
pub data Message : Type 0 where
  failed : ErrorMessage → Message
  answered : ResultMessage → Message
  fatal : String → Message

-- `State::Started`: whether the sender is there, and whether its error was posted.
pub record Started : Type 0 where
  pub has_sender : Bool
  pub drain_timeout : ℕ
  pub error_posted : Bool

pub record VlmAnalysis : Type 0 where
  pub settings : Settings
  pub state : Option Started
  pub sampler : Sampler
  pub counters : Counters
  pub generation : ℕ
  pub next_id : ℕ
  pub no_pts_warned : Bool
  pub bus : List Message

unfoldable pub reset_generation : VlmAnalysis → VlmAnalysis
reset_generation v = record v {
  generation = wrapping_add64 v.generation 1;
  sampler = default_sampler;
}

unfoldable pub post_input_error : String → VlmAnalysis → VlmAnalysis
post_input_error message v = record v {
  counters = record v.counters { failed = wrapping_add64 v.counters.failed 1 };
  bus =
      v.bus
      ++ failed (record {
        id = none;
        generation = v.generation;
        kind = kind_input;
        message = message;
        http_status = none;
        frame_count = 1;
      })
        ∷ [];
}

-- `data_` are the bytes, where the buffer can be read.
pub record Buffer : Type 0 where
  pub pts : Option ℕ
  pub data_ : Option Bytes

-- Whether the time goes back.
unfoldable pub is_regression : Option ℕ → Option ℕ → Bool
is_regression (some previous) (some current) = ltb current previous
is_regression _ _ = false

-- The timestamp of a buffer: one that goes back starts a generation.
unfoldable pub observe_pts : Option ℕ → VlmAnalysis → VlmAnalysis
unfolding reset_generation is_regression
observe_pts pts v =
    let v' = if is_regression v.sampler.last_seen_pts pts then reset_generation v else v in
    record v' {
      sampler = record (v'.sampler) { last_seen_pts = pts };
      no_pts_warned = v'.no_pts_warned || not (is_some pts);
    }

-- Whether a time is far enough from the last one.
unfoldable pub is_due : ℕ → Option ℕ → ℕ → Bool
is_due analysis_interval none current = true
is_due analysis_interval (some previous) current =
    analysis_interval == 0 || leb analysis_interval (current - previous)

unfoldable pub is_selected : Settings → Option ℕ → Sampler → Bool
unfolding is_due
is_selected s (some current) sampler = is_due s.analysis_interval sampler.last_selected_pts current
is_selected s none sampler =
    s.analysis_interval == 0 || not sampler.no_pts_selected && is_empty sampler.frames

abbrev pub or : Option ℕ → Option ℕ → Option ℕ
or none o = o
or (some n) o = some n

-- A frame that is kept, and the batch that it completes.
unfoldable pub push_frame :
    Settings → Option ℕ → Bytes → VlmAnalysis → Option (List SelectedFrame) × VlmAnalysis
push_frame s pts bytes v =
    let frames = v.sampler.frames ++ record { bytes = bytes; pts = pts } ∷ [] in
    let sampler : Sampler = record {
      last_seen_pts = v.sampler.last_seen_pts;
      last_selected_pts = or pts v.sampler.last_selected_pts;
      no_pts_selected = v.sampler.no_pts_selected || not (is_some pts);
      frames = frames;
      bytes = v.sampler.bytes + length bytes;
    } in
    if ltb (length frames) s.frames_per_request
    then (none, record v { sampler = sampler })
    else (some frames, record v { sampler = record sampler { frames = []; bytes = 0 } })

-- A selected buffer, with the checks of its size.
unfoldable pub select : Settings → Buffer → VlmAnalysis → Option (List SelectedFrame) × VlmAnalysis
unfolding post_input_error push_frame
select s buffer v = elim buffer.data_ [
  | none ↦ (none, post_input_error "failed to read selected JPEG buffer" v)
  | some bytes ↦
      if not (ltb (length bytes) u64_mod)
      then (none, post_input_error "selected JPEG size does not fit the configured limit type" v)
      else if ltb s.max_frame_bytes (length bytes)
      then (none, post_input_error "selected JPEG exceeds max-frame-bytes" v)
      else if not (ltb (v.sampler.bytes + length bytes) u64_mod)
          || ltb s.max_batch_bytes (v.sampler.bytes + length bytes)
      then (none, post_input_error "selected JPEG would exceed max-batch-bytes" v)
      else push_frame s buffer.pts bytes v
]

unfoldable pub collect_batch :
    Buffer → Settings → VlmAnalysis → Option (List SelectedFrame) × VlmAnalysis
unfolding observe_pts is_selected select
collect_batch buffer s v =
    let v' = observe_pts buffer.pts v in
    if is_selected s buffer.pts v'.sampler then select s buffer v' else (none, v')
