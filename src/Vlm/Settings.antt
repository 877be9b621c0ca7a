-- ===== src/Vlm/Settings.antt =====
-- The settings of the element and its counts: analytics/vlm/src/vlmanalysis/imp.rs, with the
-- enumerations of analytics/vlm/src/backend/mod.rs. An `f64` is its bit pattern, below 2^64.
use gstsmith_rs.Prelude.{ℕ, Bool, false, Option, none, [], Text, codes}

pub data ResponseFormat : Type 0 where
  default text json_object json_schema : ResponseFormat

pub data TokenLimitMode : Type 0 where
  legacy completion : TokenLimitMode

pub data SamplingMode : Type 0 where
  configured provider_default : SamplingMode

pub record Settings : Type 0 where
  pub endpoint : Text
  pub allow_insecure_http : Bool
  pub api_key_file : Option Text
  pub model : Text
  pub system_prompt : Option Text
  pub user_prompt : Text
  pub analysis_interval : ℕ
  pub frames_per_request : ℕ
  pub max_tokens : ℕ
  pub temperature : ℕ
  pub top_p : ℕ
  pub token_limit_mode : TokenLimitMode
  pub sampling_mode : SamplingMode
  pub reasoning_effort : Option Text
  pub response_format : ResponseFormat
  pub response_schema : Option Text
  pub request_timeout : ℕ
  pub queue_capacity : ℕ
  pub max_frame_bytes : ℕ
  pub max_batch_bytes : ℕ
  pub drain_timeout : ℕ

-- The temperature is 0.2 and the nucleus probability 0.9.
abbrev pub default_settings : Settings
default_settings = record {
  endpoint = codes "http://127.0.0.1:8000/v1/chat/completions";
  allow_insecure_http = false;
  api_key_file = none;
  model = [];
  system_prompt = none;
  user_prompt = codes "Describe what you see in these images.";
  analysis_interval = 5_000_000_000;
  frames_per_request = 1;
  max_tokens = 512;
  temperature = 0x3fc999999999999a;
  top_p = 0x3feccccccccccccd;
  token_limit_mode = legacy;
  sampling_mode = configured;
  reasoning_effort = none;
  response_format = default;
  response_schema = none;
  request_timeout = 30_000_000_000;
  queue_capacity = 1;
  max_frame_bytes = 8_388_608;
  max_batch_bytes = 16_777_216;
  drain_timeout = 2_000_000_000;
}

pub record Counters : Type 0 where
  pub submitted : ℕ
  pub completed : ℕ
  pub failed : ℕ
  pub dropped : ℕ

-- `Counters::reset`.
abbrev pub no_counts : Counters
no_counts = record { submitted = 0; completed = 0; failed = 0; dropped = 0 }
