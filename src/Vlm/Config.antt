-- ===== src/Vlm/Config.antt =====
-- The checks at the start of the element: `validate_settings`, `validate_response_schema` and
-- `is_loopback_host` of analytics/vlm/src/vlmanalysis/imp.rs. The parsers of URLs, addresses and
-- JSON and the file system are the record `Host`.
pub mod Limits
use gstsmith_rs.Prelude.{
  ℕ, ◌+◌, ◌-◌, ◌*◌, ◌^◌, ◌%◌, Bool, true, false, not, ◌&&◌, ◌||◌, Option, none, some, List, [], ◌∷◌,
  ◌==◌, ltb, leb, if◌then◌else◌, Text, codes, text_eq, eq_ignore_ascii_case, trim_end, utf8_len,
  is_some, is_empty, length, all, u64_mod, checked_mul, Result, ok, err, ◌>>=◌, ◌>>◌, guard, ok_or,
}
use gstsmith_rs.Vlm.Settings.{
  Settings, ResponseFormat, json_schema, default, text, json_object, TokenLimitMode, SamplingMode,
}

-- The messages of the errors, in the order of the checks.
pub data SettingsFault : Type 0 where
  no_model bad_url bad_scheme user_information has_fragment insecure_http bad_frames no_tokens
        bad_temperature bad_top_p bad_effort no_timeout bad_capacity bad_frame_bytes bad_batch_bytes
        limits_overflow limits_exceeded unreadable_key empty_key no_schema long_schema bad_schema
        schema_no_object unused_schema :
      SettingsFault

-- What `reqwest::Url` tells of a URL.
pub record Url : Type 0 where
  pub scheme : Text
  pub username : Text
  pub password : Option Text
  pub fragment : Option Text
  pub host_str : Option Text

-- What `serde_json::Value` tells of a value: whether it is an object, and the string at "type".
pub record Json : Type 0 where
  pub source : Text
  pub is_object : Bool
  pub root_type : Option Text

-- `address` is whether an `IpAddr` is loopback, where the text is one.
pub record Host : Type 0 where
  pub parse_url : Text → Option Url
  pub address : Text → Option Bool
  pub read_to_string : Text → Option Text
  pub from_str : Text → Option Json

pub record WorkerConfig : Type 0 where
  pub endpoint : Url
  pub api_key : Option Text
  pub model : Text
  pub system_prompt : Option Text
  pub user_prompt : Text
  pub max_tokens : ℕ
  pub temperature : ℕ
  pub top_p : ℕ
  pub token_limit_mode : TokenLimitMode
  pub sampling_mode : SamplingMode
  pub reasoning_effort : Option Text
  pub response_format : ResponseFormat
  pub response_schema : Option Json
  pub request_timeout : ℕ

abbrev pub mebibyte : ℕ
mebibyte = 1024 * 1024

-- `(low..=high).contains(&n)`.
abbrev pub within : ℕ → ℕ → ℕ → Bool
within low high n = leb low n && leb n high

-- Numbers of type `f64` by their bits.
abbrev pub f64_sign : ℕ
f64_sign = 2 ^ 63

abbrev pub f64_magnitude : ℕ → ℕ
f64_magnitude a = a % f64_sign

abbrev pub f64_is_finite : ℕ → Bool
f64_is_finite a = ltb (f64_magnitude a) 0x7ff0000000000000

-- The place of a number that is no NaN in the order of `<`: both zeros have the same.
unfoldable pub f64_key : ℕ → ℕ
f64_key a = if leb f64_sign a then f64_sign - f64_magnitude a else f64_sign + f64_magnitude a

abbrev pub two_bits : ℕ
two_bits = 0x4000000000000000

abbrev pub one_bits : ℕ
one_bits = 0x3ff0000000000000

-- `t.is_finite() && (0.0..=2.0).contains(&t)`.
unfoldable pub is_temperature : ℕ → Bool
unfolding f64_key
is_temperature t = f64_is_finite t && within (f64_key 0) (f64_key two_bits) (f64_key t)

-- `p.is_finite()`, `p > 0.0` and `p <= 1.0`.
unfoldable pub is_top_p : ℕ → Bool
unfolding f64_key
is_top_p p = f64_is_finite p && (ltb (f64_key 0) (f64_key p) && leb (f64_key p) (f64_key one_bits))

abbrev is_effort_char : ℕ → Bool
is_effort_char c = within b'a' b'z' c || within b'0' b'9' c || c == b'-' || c == b'_'

-- A character that is not ASCII has bytes that are no such characters.
unfoldable pub is_effort : Option Text → Bool
is_effort none = true
is_effort (some effort) =
    not (is_empty effort) && (leb (utf8_len effort) 64 && all is_effort_char effort)

-- `strip_suffix(']')`.
unfoldable pub strip_bracket : Text → Option Text
strip_bracket [] = none
strip_bracket (c ∷ []) = if c == b']' then some [] else none
strip_bracket (c ∷ d ∷ cs) = elim (strip_bracket (d ∷ cs)) [ none ↦ none | some t ↦ some (c ∷ t) ]

-- The name between brackets, where a name has both.
unfoldable pub host_name : Text → Text
unfolding strip_bracket
host_name [] = []
host_name (c ∷ cs) =
    if c == b'[' then elim (strip_bracket cs) [ none ↦ c ∷ cs | some t ↦ t ] else c ∷ cs

abbrev pub is_true : Option Bool → Bool
is_true none = false
is_true (some b) = b

unfoldable pub is_object_type : Option Text → Bool
unfolding text_eq
is_object_type none = false
is_object_type (some t) = text_eq t (codes "object")

abbrev pub unused : Option Text → Result SettingsFault (Option Json)
unused none = ok none
unused (some schema) = err unused_schema

-- The checks of the numbers.
unfoldable pub validate_numbers : Settings → Result SettingsFault (Unit {0})
unfolding is_temperature is_top_p is_effort
validate_numbers s = do
  guard (within 1 10 s.frames_per_request) bad_frames
  guard (not (s.max_tokens == 0)) no_tokens
  guard (is_temperature s.temperature) bad_temperature
  guard (is_top_p s.top_p) bad_top_p
  guard (is_effort s.reasoning_effort) bad_effort
  guard (not (s.request_timeout == 0)) no_timeout
  guard (within 1 4 s.queue_capacity) bad_capacity
  guard (within 1 (16 * mebibyte) s.max_frame_bytes) bad_frame_bytes
  guard (within 1 (32 * mebibyte) s.max_batch_bytes) bad_batch_bytes
  maximum ← ok_or (checked_mul u64_mod s.frames_per_request s.max_frame_bytes) limits_overflow
  guard (leb maximum s.max_batch_bytes) limits_exceeded

module _ (host : Host) where
  unfoldable pub is_loopback_host : Url → Bool
  unfolding host_name eq_ignore_ascii_case
  is_loopback_host url = elim url.host_str [
    | none ↦ false
    | some name ↦
        eq_ignore_ascii_case (host_name name) (codes "localhost")
        || is_true (host.address (host_name name))
  ]

  unfoldable pub schema_for : ResponseFormat → Option Text → Result SettingsFault (Option Json)
  unfolding is_object_type
  schema_for json_schema response_schema = do
    schema ← ok_or response_schema no_schema
    guard (leb (utf8_len schema) (64 * 1024)) long_schema
    value ← ok_or (host.from_str schema) bad_schema
    guard (value.is_object && is_object_type value.root_type) schema_no_object
    ok (some value)
  schema_for default response_schema = unused response_schema
  schema_for text response_schema = unused response_schema
  schema_for json_object response_schema = unused response_schema

  unfoldable pub validate_response_schema : Settings → Result SettingsFault (Option Json)
  unfolding schema_for
  validate_response_schema s = schema_for s.response_format s.response_schema

  -- The checks of the endpoint.
  unfoldable pub validate_endpoint : Settings → Result SettingsFault Url
  unfolding text_eq is_loopback_host
  validate_endpoint s = do
    endpoint ← ok_or (host.parse_url s.endpoint) bad_url
    guard (text_eq endpoint.scheme (codes "http") || text_eq endpoint.scheme (codes "https"))
        bad_scheme
    guard (is_empty endpoint.username && not (is_some endpoint.password)) user_information
    guard (not (is_some endpoint.fragment)) has_fragment
    guard
        (not (text_eq endpoint.scheme (codes "http"))
          || s.allow_insecure_http
          || is_loopback_host endpoint)
        insecure_http
    ok endpoint

  unfoldable pub read_api_key : Option Text → Result SettingsFault (Option Text)
  unfolding trim_end
  read_api_key none = ok none
  read_api_key (some path) = do
    key ← ok_or (host.read_to_string path) unreadable_key
    guard (not (is_empty (trim_end key))) empty_key
    ok (some (trim_end key))

  unfoldable pub validate_settings : Settings → Result SettingsFault WorkerConfig
  unfolding validate_endpoint validate_numbers read_api_key validate_response_schema
  validate_settings s = do
    guard (not (is_empty s.model)) no_model
    endpoint ← validate_endpoint s
    validate_numbers s
    api_key ← read_api_key s.api_key_file
    response_schema ← validate_response_schema s
    ok (record {
      endpoint = endpoint;
      api_key = api_key;
      model = s.model;
      system_prompt = s.system_prompt;
      user_prompt = s.user_prompt;
      max_tokens = s.max_tokens;
      temperature = s.temperature;
      top_p = s.top_p;
      token_limit_mode = s.token_limit_mode;
      sampling_mode = s.sampling_mode;
      reasoning_effort = s.reasoning_effort;
      response_format = s.response_format;
      response_schema = response_schema;
      request_timeout = s.request_timeout;
    })
