-- ===== src/Vlm/Config/Limits.antt =====
-- What settings that pass the checks keep to: analytics/vlm/src/vlmanalysis/imp.rs.
use gstsmith_rs.Prelude.{
  not-true, and-eq-true, utf8_len, trim_end, text_eq, is_empty, is_some, leb→le, leb, if◌then◌else◌,
  ℕ, leb, ltb, ◌*◌, ◌≤◌, ◌≡◌, ◌⊎◌, inl, inr, Bool-cases, [], ◌∷◌, eq_ignore_ascii_case, refl, Bool,
  true, false, not, ◌&&◌, ◌||◌, Option, none, some, arith, Text, codes, ok, ◌==◌, ok_or, Returns,
  done, failed, Returns-bind, Returns-guard, Returns-sound, Returns-check, checked_mul, u64_mod,
}
use gstsmith_rs.Vlm.Settings.{Settings, ResponseFormat, default, text, json_object, json_schema}
use gstsmith_rs.Vlm.Config.{
  SettingsFault, no_model, bad_url, bad_scheme, user_information, has_fragment, insecure_http,
  bad_frames, no_tokens, bad_temperature, bad_top_p, bad_effort, no_timeout, bad_capacity,
  bad_frame_bytes, bad_batch_bytes, limits_overflow, limits_exceeded, unreadable_key, empty_key,
  no_schema, long_schema, bad_schema, schema_no_object, Host, WorkerConfig, Url, Json, within,
  mebibyte, is_temperature, is_top_p, is_effort, validate_settings, validate_endpoint,
  validate_numbers, read_api_key, validate_response_schema, is_loopback_host, is_object_type,
  schema_for, host_name, is_true,
}

-- A request of the most frames at their greatest size is within the limit of a batch.
pub record HasLimits (s : Settings) : Type 0 where
  pub some_frames : 1 ≤ s.frames_per_request
  pub few_frames : s.frames_per_request ≤ 10
  pub some_capacity : 1 ≤ s.queue_capacity
  pub few_capacity : s.queue_capacity ≤ 4
  pub small_batch : s.max_batch_bytes ≤ 32 * mebibyte
  pub frames_fit : s.frames_per_request * s.max_frame_bytes ≤ s.max_batch_bytes

ok_or-some :
    (p : Bool) (a n : ℕ) (e : SettingsFault)
    → ok_or {E = SettingsFault} (if p then some a else none) e ≡ ok n
    → a ≡ n
ok_or-some true a n e h = cc
ok_or-some false a n e h = absurd (cc)

checked_mul-ok :
    (m a b n : ℕ) (e : SettingsFault)
    → ok_or {E = SettingsFault} (checked_mul m a b) e ≡ ok n
    → a * b ≡ n
checked_mul-ok m a b n e h = ok_or-some (ltb (a * b) m) (a * b) n e h

limits :
    (s : Settings) (maximum : ℕ)
    → within 1 10 s.frames_per_request ≡ true
    → within 1 4 s.queue_capacity ≡ true
    → within 1 (32 * mebibyte) s.max_batch_bytes ≡ true
    → ok_or {E = SettingsFault}
        (checked_mul u64_mod s.frames_per_request s.max_frame_bytes)
        limits_overflow
      ≡ ok maximum
    → leb maximum s.max_batch_bytes ≡ true
    → HasLimits s
limits s maximum frames capacity batch e fits =
    let product : s.frames_per_request * s.max_frame_bytes ≡ maximum =
      checked_mul-ok u64_mod s.frames_per_request s.max_frame_bytes maximum _ e in
    record {
      some_frames = ground arith;
      few_frames = ground arith;
      some_capacity = ground arith;
      few_capacity = ground arith;
      small_batch = ground arith;
      frames_fit = rw product (leb→le maximum s.max_batch_bytes fits);
    }

validate_numbers-HasLimits : (s : Settings) → Returns (λ _. HasLimits s) (validate_numbers s)
unfolding validate_numbers
validate_numbers-HasLimits s =
    Returns-guard (within 1 10 s.frames_per_request) bad_frames _ λ frames.
      Returns-guard (not (s.max_tokens == 0)) no_tokens _ λ _.
        Returns-guard (is_temperature s.temperature) bad_temperature _ λ _.
          Returns-guard (is_top_p s.top_p) bad_top_p _ λ _.
            Returns-guard (is_effort s.reasoning_effort) bad_effort _ λ _.
              Returns-guard (not (s.request_timeout == 0)) no_timeout _ λ _.
                Returns-guard (within 1 4 s.queue_capacity) bad_capacity _ λ capacity.
                  Returns-guard (within 1 (16 * mebibyte) s.max_frame_bytes) bad_frame_bytes _ λ _.
                    Returns-guard (within 1 (32 * mebibyte) s.max_batch_bytes) bad_batch_bytes _
                      λ batch.
                        Returns-bind
                          (ok_or (checked_mul u64_mod s.frames_per_request s.max_frame_bytes)
                            limits_overflow)
                          _
                          λ maximum e.
                            Returns-check (leb maximum s.max_batch_bytes) limits_exceeded
                              λ fits. limits s maximum frames capacity batch e fits

-- The host of a URL is "localhost", in any case, or a loopback address.
abbrev pub IsLocal : Host → Url → Type 0
IsLocal host url =
    (name : Text) × (url.host_str ≡ some name)
    × ((eq_ignore_ascii_case (host_name name) (codes "localhost") ≡ true)
        ⊎ (host.address (host_name name) ≡ some true))

-- HTTPS, or plaintext where the settings allow it or to the own machine.
abbrev pub IsPrivate : Host → Settings → Url → Type 0
IsPrivate host s url =
    (text_eq url.scheme (codes "https") ≡ true)
    ⊎ ((text_eq url.scheme (codes "http") ≡ true)
        × ((s.allow_insecure_http ≡ true) ⊎ IsLocal host url))

-- No credentials and no fragment in the URL.
abbrev pub IsBare : Url → Type 0
IsBare url = (url.username ≡ []) × (url.password ≡ none) × (url.fragment ≡ none)

local_cases : (l : Bool) (o : Option Bool) → (l || is_true o) ≡ true → (l ≡ true) ⊎ (o ≡ some true)
local_cases true o h = inl refl
local_cases false none h = absurd (cc)
local_cases false (some true) h = inr refl
local_cases false (some false) h = absurd (cc)

is_loopback_host-IsLocal :
    (host : Host) (url : Url) (o : Option Text)
    → url.host_str ≡ o
    → is_loopback_host host url ≡ true
    → IsLocal host url
unfolding is_loopback_host
is_loopback_host-IsLocal host url none e h = absurd (let k = simp (is_loopback_host, e) at h in cc)
is_loopback_host-IsLocal host url (some name) e h =
    let k : (eq_ignore_ascii_case (host_name name) (codes "localhost")
          || is_true (host.address (host_name name)))
        ≡ true =
      simp (is_loopback_host, e) at h in
    (name, e, local_cases _ (host.address (host_name name)) k)

private :
    (host : Host) (s : Settings) (url : Url)
    → (text_eq url.scheme (codes "http") || text_eq url.scheme (codes "https")) ≡ true
    → (not (text_eq url.scheme (codes "http"))
        || s.allow_insecure_http
        || is_loopback_host host url)
      ≡ true
    → IsPrivate host s url
private host s url known safe = elim (Bool-cases (text_eq url.scheme (codes "https"))) [
  | inl e ↦ inl e
  | inr e ↦ elim (Bool-cases (text_eq url.scheme (codes "http"))) [
    | inr n ↦ absurd (ground arith)
    | inl y ↦ elim (Bool-cases s.allow_insecure_http) [
      | inl a ↦ inr (y, inl a)
      | inr a ↦
          let l : is_loopback_host host url ≡ true = ground arith in
          inr (y, inr (is_loopback_host-IsLocal host url url.host_str refl l))
    ]
  ]
]

absent : {A : Type 0} (o : Option A) → not (is_some o) ≡ true → o ≡ none
absent none h = refl
absent (some a) h = absurd (cc)

empty_text : (t : Text) → is_empty t ≡ true → t ≡ []
empty_text [] h = refl
empty_text (c ∷ cs) h = absurd (cc)

validate_endpoint-IsPrivate :
    (host : Host) (s : Settings)
    → Returns (λ url. IsPrivate host s url × IsBare url) (validate_endpoint host s)
unfolding validate_endpoint
validate_endpoint-IsPrivate host s =
    Returns-bind (ok_or (host.parse_url s.endpoint) bad_url) _ λ url _.
      Returns-guard (text_eq url.scheme (codes "http") || text_eq url.scheme (codes "https"))
        bad_scheme _
        λ known.
          Returns-guard (is_empty url.username && not (is_some url.password)) user_information _
            λ bare. Returns-guard (not (is_some url.fragment)) has_fragment _ λ whole.
              Returns-guard
                (not (text_eq url.scheme (codes "http"))
                  || s.allow_insecure_http
                  || is_loopback_host host url)
                insecure_http _
                λ safe.
                  let (u, p) = and-eq-true _ _ bare in
                  done (
                    private host s url known safe,
                    (empty_text url.username u, absent url.password p, absent url.fragment whole),
                  )

-- A key is not sent empty.
abbrev pub IsKey : Option Text → Type 0
IsKey none = Unit
IsKey (some key) = is_empty key ≡ false

read_api_key-IsKey : (host : Host) (path : Option Text) → Returns IsKey (read_api_key host path)
unfolding read_api_key
read_api_key-IsKey host none = done tt
read_api_key-IsKey host (some path) =
    Returns-bind (ok_or (host.read_to_string path) unreadable_key) _ λ key _.
      Returns-guard (not (is_empty (trim_end key))) empty_key _ λ full. done (not-true _ full)

-- A schema for the format that asks for one, which is an object, and none for the others.
abbrev pub HasSchema : ResponseFormat → Option Json → Type 0
HasSchema json_schema none = ⊥
HasSchema json_schema (some schema) = schema.is_object ≡ true
HasSchema _ none = Unit
HasSchema _ (some schema) = ⊥

schema_for-HasSchema :
    (host : Host) (f : ResponseFormat) (o : Option Text)
    → Returns (HasSchema f) (schema_for host f o)
unfolding schema_for
schema_for-HasSchema host json_schema o = Returns-bind (ok_or o no_schema) _ λ schema _.
    Returns-guard (leb (utf8_len schema) (64 * 1024)) long_schema _ λ _.
      Returns-bind (ok_or (host.from_str schema) bad_schema) _ λ value _.
        Returns-guard (value.is_object && is_object_type value.root_type) schema_no_object _
          λ object. done ((and-eq-true value.is_object _ object).0)
schema_for-HasSchema host default none = done tt
schema_for-HasSchema host default (some schema) = failed
schema_for-HasSchema host text none = done tt
schema_for-HasSchema host text (some schema) = failed
schema_for-HasSchema host json_object none = done tt
schema_for-HasSchema host json_object (some schema) = failed

validate_response_schema-HasSchema :
    (host : Host) (s : Settings)
    → Returns (HasSchema s.response_format) (validate_response_schema host s)
unfolding validate_response_schema
validate_response_schema-HasSchema host s =
    schema_for-HasSchema host s.response_format s.response_schema

-- What settings that pass the checks keep to.
pub record IsValid (host : Host) (s : Settings) (config : WorkerConfig) : Type 0 where
  pub has_limits : HasLimits s
  pub is_private : IsPrivate host s config.endpoint × IsBare config.endpoint
  pub is_key : IsKey config.api_key
  pub has_schema : HasSchema s.response_format config.response_schema
  pub same_format : config.response_format ≡ s.response_format
  pub has_model : is_empty config.model ≡ false

-- Settings that the element starts with keep to the limits, have a model, send a key that is not
-- empty, and ask for a schema exactly in the format for one. Their endpoint has no credentials and
-- no fragment and is reached by HTTPS, or else by HTTP where plaintext is allowed or the host is
-- "localhost" or a loopback address.
pub validate_settings-IsValid :
    (host : Host) (s : Settings) → Returns (IsValid host s) (validate_settings host s)
unfolding validate_settings
validate_settings-IsValid host s = Returns-guard (not (is_empty s.model)) no_model _ λ model.
    Returns-bind (validate_endpoint host s) _ λ url url_e.
      Returns-bind (validate_numbers s) _ λ u numbers_e.
        Returns-bind (read_api_key host s.api_key_file) _ λ key key_e.
          Returns-bind (validate_response_schema host s) _ λ schema schema_e. done (record {
            has_limits = Returns-sound _ u (validate_numbers-HasLimits s) numbers_e;
            is_private = Returns-sound _ url (validate_endpoint-IsPrivate host s) url_e;
            is_key = Returns-sound _ key (read_api_key-IsKey host s.api_key_file) key_e;
            has_schema =
                Returns-sound _ schema (validate_response_schema-HasSchema host s) schema_e;
            same_format = refl;
            has_model = not-true _ model;
          })
