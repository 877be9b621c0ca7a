-- ===== src/Vlm/Tests.antt =====
-- Runs of the element on concrete inputs: analytics/vlm/src.
use gstsmith_rs.Prelude.{
  All, none, List, Option, err, ℕ, ◌≡◌, ◌↔◌, ◌≤◌, ◌<◌, refl, subst, true, false, not, none, some,
  [], ◌∷◌, map, length, arith, codes, ok, Returns, Returns-sound, is_some, u64_mod,
}
use gstsmith_rs.Vlm.Settings.{json_schema, Settings, default_settings, no_counts}
use gstsmith_rs.Vlm.Config.{Host, Url, WorkerConfig, validate_settings}
use gstsmith_rs.Vlm.Config.Limits.{IsValid, validate_settings-IsValid}
use gstsmith_rs.Vlm.Sampler.{
  Bytes, default_sampler, VlmAnalysis, Buffer, collect_batch, select, is_due,
}
use gstsmith_rs.Vlm.Sampler.Batches.{IsBatch, IsSampling, collect_all, collect_all-IsBatch}
use gstsmith_rs.Vlm.Sampler.Failures.{select_plain, select-select_plain}
use gstsmith_rs.Vlm.Backend.{response, WireRequest, serialize}
use gstsmith_rs.Vlm.Backend.Answer.{Serde, bounded_body, max_response_bytes, parse}
use gstsmith_rs.Vlm.Backend.Body.{whole, bounded_body-ok}
use gstsmith_rs.Vlm.Backend.Wire.{IsContent, wire_literal, parse-IsContent}
use gstsmith_rs.Vlm.Element.{Batch, full, sent, start, transform_ip, data_url, request_of}
use gstsmith_rs.Vlm.Element.Counted.{IsCounted}
use gstsmith_rs.Vlm.Element.Runs.{Run, started, buffered, Run-IsCounted}
use gstsmith_rs.Vlm.Element.Requests.{serialize-request_of}

abbrev pairs : Settings
pairs = record default_settings {
  model = codes "m";
  frames_per_request = 2;
  analysis_interval = 10;
}

abbrev local : Url
local = record {
  scheme = codes "http";
  username = [];
  password = none;
  fragment = none;
  host_str = some (codes "LocalHost");
}

abbrev machine : Host
machine = record {
  parse_url = λ t. some local;
  address = λ t. none;
  read_to_string = λ t. none;
  from_str = λ t. none;
}

abbrev config : WorkerConfig
config = record {
  endpoint = local;
  api_key = none;
  model = codes "m";
  system_prompt = none;
  user_prompt = pairs.user_prompt;
  max_tokens = pairs.max_tokens;
  temperature = pairs.temperature;
  top_p = pairs.top_p;
  token_limit_mode = pairs.token_limit_mode;
  sampling_mode = pairs.sampling_mode;
  reasoning_effort = none;
  response_format = pairs.response_format;
  response_schema = none;
  request_timeout = pairs.request_timeout;
}

pairs_validated : validate_settings machine pairs ≡ ok config
unfolding validate_settings
pairs_validated = refl

validate_settings-IsValid_example :
    Returns (IsValid machine pairs) (validate_settings machine pairs)
validate_settings-IsValid_example = validate_settings-IsValid machine pairs

pairs-IsValid : IsValid machine pairs config
pairs-IsValid =
    Returns-sound (validate_settings machine pairs) config (validate_settings-IsValid machine pairs)
      pairs_validated

abbrev halfway : VlmAnalysis
halfway = record {
  settings = pairs;
  state = some (record { has_sender = true; drain_timeout = 0; error_posted = false });
  sampler = record {
    last_seen_pts = some 5;
    last_selected_pts = some 5;
    no_pts_selected = false;
    frames = record { bytes = 1 ∷ 2 ∷ []; pts = some 5 } ∷ [];
    bytes = 2;
  };
  counters = no_counts;
  generation = 1;
  next_id = 1;
  no_pts_warned = false;
  bus = [];
}

halfway-IsSampling : IsSampling pairs halfway.sampler
unfolding is_due
halfway-IsSampling = record {
  has_room = omega arith;
  is_counted = refl;
  is_small = (omega arith, tt);
  before = none;
  is_apart = (tt, tt);
  is_last = refl;
}

abbrev buffer : Buffer
buffer = record { pts = some 20; data_ = some (3 ∷ []) }

-- Two frames, one that comes too early between them, and a reset before a last one.
abbrev buffers : List (Option Buffer)
buffers =
    some (record { pts = some 5; data_ = some (1 ∷ 2 ∷ []) })
    ∷ some (record { pts = some 9; data_ = some (9 ∷ []) })
    ∷ some buffer
    ∷ none
    ∷ some (record { pts = some 3; data_ = some (4 ∷ []) })
    ∷ []

abbrev empty_sampler : VlmAnalysis
empty_sampler = record halfway { sampler = default_sampler }

one_batch :
    (collect_all pairs buffers empty_sampler).0
    ≡ (record { bytes = 1 ∷ 2 ∷ []; pts = some 5 } ∷ record { bytes = 3 ∷ []; pts = some 20 } ∷ [])
      ∷ []
unfolding collect_all collect_batch
one_batch = refl

collect_all-IsBatch_example :
    let (batches, v) = collect_all pairs buffers empty_sampler in
    All (IsBatch pairs) batches × IsSampling pairs v.sampler
collect_all-IsBatch_example = collect_all-IsBatch pairs buffers empty_sampler (omega arith) refl

second_frame :
    (collect_batch buffer pairs halfway).0
    ≡ some (
        record { bytes = 1 ∷ 2 ∷ []; pts = some 5 } ∷ record { bytes = 3 ∷ []; pts = some 20 } ∷ [])
unfolding collect_batch
second_frame = refl

short : (bytes : Bytes) → some (3 ∷ []) ≡ some bytes → length bytes < u64_mod
short bytes e = let q : (3 ∷ []) ≡ bytes = cc in subst (λ b. length b < u64_mod) q (omega arith)

select-select_plain_example : select pairs buffer halfway ≡ select_plain pairs buffer halfway
select-select_plain_example =
    select-select_plain pairs buffer halfway pairs-IsValid.has_limits halfway-IsSampling short

abbrev serde : Serde
serde = record {
  to_vec = λ w. some [];
  from_slice = λ b. some (record {
    choices =
        record {
          content = some (codes "a street");
          refusal = none;
          finish_reason = some (codes "stop");
        }
        ∷ [];
    usage = none;
  });
  from_str = λ t. none;
}

bounded_body-ok_example : (bounded_body (some (1 ∷ []) ∷ some (2 ∷ []) ∷ []) ≡ ok (1 ∷ 2 ∷ [])) ↔ (
    (whole (some (1 ∷ []) ∷ some (2 ∷ []) ∷ []) [] ≡ some (1 ∷ 2 ∷ []))
    × (length {A = ℕ} (1 ∷ 2 ∷ []) ≤ max_response_bytes))
bounded_body-ok_example = bounded_body-ok (some (1 ∷ []) ∷ some (2 ∷ []) ∷ []) (1 ∷ 2 ∷ [])

-- A provider that answers with a JSON object.
abbrev json_serde : Serde
json_serde = record serde {
  from_str = λ t. some (record { source = t; is_object = true; root_type = none });
}

parse-IsContent_example :
    Returns (IsContent json_serde [] json_schema) (parse json_serde [] json_schema)
parse-IsContent_example = parse-IsContent json_serde [] json_schema

street_object :
    parse json_serde [] json_schema
    ≡ ok (record {
      content = codes "a street";
      usage = record { prompt = none; completion = none; reasoning = none };
    })
unfolding parse
street_object = refl

street_no_object : parse serde [] json_schema ≡ err (response "response content is not valid JSON")
unfolding parse
street_no_object = refl

street_parsed :
    parse serde [] pairs.response_format
    ≡ ok (record {
      content = codes "a street";
      usage = record { prompt = none; completion = none; reasoning = none };
    })
unfolding parse
street_parsed = refl

abbrev batch : Batch
batch = record { id = 1; generation = 1; frames = record { bytes = 7 ∷ []; pts = none } ∷ [] }

serialize-request_of_example :
    (w : WireRequest) × (serialize (request_of (λ b. b) config batch) ≡ ok w)
    × (w.messages
        ≡ wire_literal config.system_prompt config.user_prompt
            (map (data_url (λ b. b)) batch.frames))
    × (is_some w.max_tokens ≡ not (is_some w.max_completion_tokens))
serialize-request_of_example =
    serialize-request_of (λ b. b) machine pairs config batch pairs-IsValid

abbrev begun : VlmAnalysis
begun = record halfway { sampler = default_sampler }

begun_started :
    start machine
      (record { crypto = true; client = true; runtime = true })
      (record halfway { sampler = default_sampler })
    ≡ ok (
      config,
      record begun {
        state = some (record {
          has_sender = true;
          drain_timeout = pairs.drain_timeout;
          error_posted = false;
        });
      },
    )
unfolding start validate_settings
begun_started = refl

abbrev running : VlmAnalysis
running = record begun {
  state =
      some
        (record { has_sender = true; drain_timeout = pairs.drain_timeout; error_posted = false });
}

running-Run : Run machine running
running-Run =
    started (record { crypto = true; client = true; runtime = true }) begun (config, running)
      begun_started

Run-IsCounted_example :
    IsCounted
      (transform_ip buffer full (transform_ip (record buffer { pts = some 5 }) sent running).1).1
Run-IsCounted_example =
    Run-IsCounted {host = machine}
      (buffered buffer full (buffered (record buffer { pts = some 5 }) sent running-Run))

-- The batch of the two frames met a full channel.
one_dropped :
    (transform_ip buffer full
      (transform_ip (record buffer { pts = some 5 }) sent running).1).1.counters.dropped
    ≡ 1
unfolding transform_ip
one_dropped = refl
