-- ===== src/Vlm/Properties.antt =====
-- The properties of the element: analytics/vlm/src/vlmanalysis/imp.rs. A path is a text.
use Prim.Native.String.{String}
use text.Mathlib.Text.{◌==◌ as str_eq}
use gstsmith_rs.Prelude.{ℕ, ◌≡◌, refl, Bool, Option, none, some, List, [], ◌∷◌, Text, if◌then◌else◌}
use gstsmith_rs.Vlm.Settings.{Settings, Counters, TokenLimitMode, SamplingMode, ResponseFormat}

-- A `glib::Value`, by its type.
pub data Value : Type 0 where
  string : Option Text → Value
  boolean : Bool → Value
  uint uint64 double : ℕ → Value
  token_limit : TokenLimitMode → Value
  sampling : SamplingMode → Value
  format : ResponseFormat → Value

-- `value.get::<T>()`, with the old value where the type is another one.
abbrev get_string : Value → Text → Text
get_string (string (some s)) old = s
get_string _ old = old

abbrev get_option : Value → Option Text → Option Text
get_option (string s) old = s
get_option _ old = old

abbrev get_boolean : Value → Bool → Bool
get_boolean (boolean b) old = b
get_boolean _ old = old

abbrev get_uint : Value → ℕ → ℕ
get_uint (uint n) old = n
get_uint _ old = old

abbrev get_uint64 : Value → ℕ → ℕ
get_uint64 (uint64 n) old = n
get_uint64 _ old = old

abbrev get_double : Value → ℕ → ℕ
get_double (double d) old = d
get_double _ old = old

abbrev get_token_limit : Value → TokenLimitMode → TokenLimitMode
get_token_limit (token_limit mode) old = mode
get_token_limit _ old = old

abbrev get_sampling : Value → SamplingMode → SamplingMode
get_sampling (sampling mode) old = mode
get_sampling _ old = old

abbrev get_format : Value → ResponseFormat → ResponseFormat
get_format (format f) old = f
get_format _ old = old

-- A value of the wrong type changes nothing, and so does an unknown name (a warning is logged).
unfoldable pub set_property : String → Value → Settings → Settings
set_property name v s =
    if str_eq name "endpoint"
    then record s { endpoint = get_string v s.endpoint }
    else if str_eq name "allow-insecure-http"
    then record s { allow_insecure_http = get_boolean v s.allow_insecure_http }
    else if str_eq name "api-key-file"
    then record s { api_key_file = get_option v s.api_key_file }
    else if str_eq name "model"
    then record s { model = get_string v s.model }
    else if str_eq name "system-prompt"
    then record s { system_prompt = get_option v s.system_prompt }
    else if str_eq name "user-prompt"
    then record s { user_prompt = get_string v s.user_prompt }
    else if str_eq name "analysis-interval"
    then record s { analysis_interval = get_uint64 v s.analysis_interval }
    else if str_eq name "frames-per-request"
    then record s { frames_per_request = get_uint v s.frames_per_request }
    else if str_eq name "max-tokens"
    then record s { max_tokens = get_uint v s.max_tokens }
    else if str_eq name "temperature"
    then record s { temperature = get_double v s.temperature }
    else if str_eq name "top-p"
    then record s { top_p = get_double v s.top_p }
    else if str_eq name "token-limit-mode"
    then record s { token_limit_mode = get_token_limit v s.token_limit_mode }
    else if str_eq name "sampling-mode"
    then record s { sampling_mode = get_sampling v s.sampling_mode }
    else if str_eq name "reasoning-effort"
    then record s { reasoning_effort = get_option v s.reasoning_effort }
    else if str_eq name "response-format"
    then record s { response_format = get_format v s.response_format }
    else if str_eq name "response-schema"
    then record s { response_schema = get_option v s.response_schema }
    else if str_eq name "request-timeout"
    then record s { request_timeout = get_uint64 v s.request_timeout }
    else if str_eq name "queue-capacity"
    then record s { queue_capacity = get_uint v s.queue_capacity }
    else if str_eq name "max-frame-bytes"
    then record s { max_frame_bytes = get_uint64 v s.max_frame_bytes }
    else if str_eq name "max-batch-bytes"
    then record s { max_batch_bytes = get_uint64 v s.max_batch_bytes }
    else if str_eq name "drain-timeout"
    then record s { drain_timeout = get_uint64 v s.drain_timeout }
    else s

-- An unknown name gives none: the default of its specification, which is no value of the element.
unfoldable pub property : String → Settings → Counters → Option Value
property name s c =
    if str_eq name "endpoint"
    then some (string (some s.endpoint))
    else if str_eq name "allow-insecure-http"
    then some (boolean s.allow_insecure_http)
    else if str_eq name "api-key-file"
    then some (string s.api_key_file)
    else if str_eq name "model"
    then some (string (some s.model))
    else if str_eq name "system-prompt"
    then some (string s.system_prompt)
    else if str_eq name "user-prompt"
    then some (string (some s.user_prompt))
    else if str_eq name "analysis-interval"
    then some (uint64 s.analysis_interval)
    else if str_eq name "frames-per-request"
    then some (uint s.frames_per_request)
    else if str_eq name "max-tokens"
    then some (uint s.max_tokens)
    else if str_eq name "temperature"
    then some (double s.temperature)
    else if str_eq name "top-p"
    then some (double s.top_p)
    else if str_eq name "token-limit-mode"
    then some (token_limit s.token_limit_mode)
    else if str_eq name "sampling-mode"
    then some (sampling s.sampling_mode)
    else if str_eq name "reasoning-effort"
    then some (string s.reasoning_effort)
    else if str_eq name "response-format"
    then some (format s.response_format)
    else if str_eq name "response-schema"
    then some (string s.response_schema)
    else if str_eq name "request-timeout"
    then some (uint64 s.request_timeout)
    else if str_eq name "queue-capacity"
    then some (uint s.queue_capacity)
    else if str_eq name "max-frame-bytes"
    then some (uint64 s.max_frame_bytes)
    else if str_eq name "max-batch-bytes"
    then some (uint64 s.max_batch_bytes)
    else if str_eq name "drain-timeout"
    then some (uint64 s.drain_timeout)
    else if str_eq name "submitted-requests"
    then some (uint64 c.submitted)
    else if str_eq name "completed-requests"
    then some (uint64 c.completed)
    else if str_eq name "failed-requests"
    then some (uint64 c.failed)
    else if str_eq name "dropped-batches"
    then some (uint64 c.dropped)
    else none

-- The names of the properties that can be set.
abbrev pub setting_names : List String
setting_names =
    "endpoint" ∷ "allow-insecure-http" ∷ "api-key-file" ∷ "model" ∷ "system-prompt" ∷ "user-prompt"
    ∷ "analysis-interval" ∷ "frames-per-request" ∷ "max-tokens" ∷ "temperature" ∷ "top-p"
    ∷ "token-limit-mode" ∷ "sampling-mode" ∷ "reasoning-effort" ∷ "response-format"
    ∷ "response-schema" ∷ "request-timeout" ∷ "queue-capacity" ∷ "max-frame-bytes"
    ∷ "max-batch-bytes" ∷ "drain-timeout" ∷ []

-- The properties of one element, read and set on another one by one.
unfoldable pub copy_properties : List String → Settings → Counters → Settings → Settings
unfolding property set_property
copy_properties [] s c target = target
copy_properties (name ∷ names) s c target = elim (property name s c) [
  | none ↦ copy_properties names s c target
  | some v ↦ copy_properties names s c (set_property name v target)
]

-- Reading every property of an element and setting it on another one gives the other one the same
-- settings, whatever both had: each property that can be set reads and writes its own setting.
pub copy_properties_lem :
    (s target : Settings) (c : Counters) → copy_properties setting_names s c target ≡ s
unfolding copy_properties
copy_properties_lem s target c = refl
