-- ===== src/S2/Config.antt =====
-- The connection of the S2 elements: net/s2/src/config.rs. The parsers of names, endpoints and URLs,
-- the file system and the environment are the record `Host`; the configuration of the S2 client is
-- the record of what it is given.
pub mod Checks
pub mod Secrets
use gstsmith_rs.Prelude.{
  ℕ, zero, suc, ◌-◌, length, Bool, true, false, not, ◌&&◌, ◌||◌, Option, none, some, List, [], ◌∷◌,
  ◌++◌, ◌==◌, leb, if◌then◌else◌, is_empty, is_some, Text, codes, text_eq, try_below, u64_mod,
  Result, ok, err, ◌>>=◌, ◌>>◌, guard, ok_or, map_err,
}

pub data CompressionMode : Type 0 where
  no_compression gzip zstd : CompressionMode

pub data SinkAppendRetryPolicy : Type 0 where
  no_side_effects all : SinkAppendRetryPolicy

pub record ConnectionSettings : Type 0 where
  pub basin : Option Text
  pub stream : Option Text
  pub access_token_file : Option Text
  pub account_endpoint : Option Text
  pub basin_endpoint : Option Text
  pub allow_insecure_endpoints : Bool
  pub connection_timeout : ℕ
  pub request_timeout : ℕ
  pub retry_max_attempts : ℕ
  pub retry_min_delay : ℕ
  pub retry_max_delay : ℕ
  pub compression : CompressionMode
  pub queue_capacity : ℕ

abbrev pub default_connection : ConnectionSettings
default_connection = record {
  basin = none;
  stream = none;
  access_token_file = none;
  account_endpoint = none;
  basin_endpoint = none;
  allow_insecure_endpoints = false;
  connection_timeout = 3_000_000_000;
  request_timeout = 5_000_000_000;
  retry_max_attempts = 3;
  retry_min_delay = 100_000_000;
  retry_max_delay = 1_000_000_000;
  compression = no_compression;
  queue_capacity = 64;
}

-- The messages of the errors.
pub data ConfigFault : Type 0 where
  no_basin bad_basin no_stream bad_stream bad_delays no_attempts bad_capacity : ConfigFault
  unreadable_file file_not_utf8 empty_file token_unset token_not_unicode empty_token : ConfigFault
  one_endpoint bad_endpoint user_info insecure_endpoint bad_account bad_basin_endpoint : ConfigFault
  other_schemes bad_fencing_token : ConfigFault

pub data HostName : Type 0 where
  domain : Text → HostName
  ipv4 ipv6 : Bool → HostName

-- What `url::Url` tells of a URL; of an address, whether it is loopback.
pub record Url : Type 0 where
  pub scheme : Text
  pub username : Text
  pub password : Option Text
  pub host : Option HostName

pub data Parsed : Type 0 where
  url : Url → Parsed
  relative_without_base malformed : Parsed

-- The variable of the environment that holds the token.
pub data Variable : Type 0 where
  value : Text → Variable
  not_present not_unicode : Variable

pub record Host : Type 0 where
  pub parse_url : Text → Parsed
  pub is_basin_name : Text → Bool
  pub is_stream_name : Text → Bool
  pub is_account_endpoint : Text → Bool
  pub is_basin_endpoint : Text → Bool
  pub have_one_scheme : Text → Text → Bool
  pub is_fencing_token : Text → Bool
  pub read : Text → Option (List ℕ)
  pub from_utf8 : List ℕ → Option Text
  pub access_token : Variable

-- What the configuration of the client is given.
pub record S2Config : Type 0 where
  pub token : Text
  pub connection_timeout : ℕ
  pub request_timeout : ℕ
  pub max_attempts : ℕ
  pub min_base_delay : ℕ
  pub max_base_delay : ℕ
  pub append_retry_policy : SinkAppendRetryPolicy
  pub compression : CompressionMode
  pub endpoints : Option (Text × Text)

pub record ValidatedConnection : Type 0 where
  pub basin : Text
  pub stream : Text
  pub s2 : S2Config
  pub queue_capacity : ℕ

-- `as_deref().filter(|value| !value.is_empty())`.
abbrev pub filled : Option Text → Option Text
filled none = none
filled (some t) = if is_empty t then none else some t

-- `strip_prefix`.
abbrev pub strip_prefix : Text → Text → Option Text
strip_prefix [] t = some t
strip_prefix (p ∷ ps) [] = none
strip_prefix (p ∷ ps) (c ∷ cs) = if p == c then strip_prefix ps cs else none

-- `str::replace` of a text that is not empty. The first number counts the characters of a match
-- that are still to be passed over.
unfoldable pub replace_from : ℕ → Text → Text → Text → Text
replace_from skip from to [] = []
replace_from (suc skip) from to (c ∷ cs) = replace_from skip from to cs
replace_from zero from to (c ∷ cs) =
    let rest = replace_from zero from to cs in
    let behind = replace_from (length from - 1) from to cs in
    if is_some (strip_prefix from (c ∷ cs)) then to ++ behind else c ∷ rest

-- `strip_suffix` of one line ending, as the two `truncate`s do it.
unfoldable pub chop_line_end : Text → Text
chop_line_end [] = []
chop_line_end (c ∷ []) = if c == 10 then [] else c ∷ []
chop_line_end (c ∷ d ∷ []) =
    if (c == 13) && (d == 10) then [] else if d == 10 then c ∷ [] else c ∷ d ∷ []
chop_line_end (c ∷ d ∷ e ∷ cs) = c ∷ chop_line_end (d ∷ e ∷ cs)

abbrev pub is_loopback_s2_lite_endpoint : Url → Bool
is_loopback_s2_lite_endpoint u = elim u.host [
  | some (domain t) ↦ text_eq t (codes "localhost")
  | some (ipv4 is_loopback) ↦ is_loopback
  | some (ipv6 is_loopback) ↦ is_loopback
  | none ↦ false
]

-- The checks of a parsed endpoint.
unfoldable pub check_policy : Bool → Url → Result ConfigFault (Unit {0})
unfolding text_eq
check_policy allow_insecure_endpoints u =
    if not (is_empty u.username) || is_some u.password
    then err user_info
    else if text_eq u.scheme (codes "https")
        || (text_eq u.scheme (codes "http")
            && (allow_insecure_endpoints || is_loopback_s2_lite_endpoint u))
    then ok tt
    else err insecure_endpoint

abbrev parsed : Parsed → Result ConfigFault Url
parsed (url u) = ok u
parsed relative_without_base = err bad_endpoint
parsed malformed = err bad_endpoint

module _ (host : Host) where
  unfoldable pub parse_endpoint : Text → Result ConfigFault Url
  unfolding replace_from
  parse_endpoint endpoint =
      let t = replace_from 0 (codes "{basin}.") (codes "placeholder.") endpoint in
      elim (host.parse_url t) [
        | url u ↦ ok u
        | relative_without_base ↦ parsed (host.parse_url (codes "https://" ++ t))
        | malformed ↦ err bad_endpoint
      ]

  unfoldable pub validate_endpoint_policy : Text → Bool → Result ConfigFault (Unit {0})
  unfolding parse_endpoint check_policy
  validate_endpoint_policy endpoint allow_insecure_endpoints =
      parse_endpoint endpoint >>= check_policy allow_insecure_endpoints

  unfoldable pub validate_endpoints : Text → Text → Bool → Result ConfigFault (Text × Text)
  unfolding validate_endpoint_policy
  validate_endpoints account basin allow_insecure_endpoints = do
    validate_endpoint_policy account allow_insecure_endpoints
    validate_endpoint_policy basin allow_insecure_endpoints
    guard (host.is_account_endpoint account) bad_account
    guard (host.is_basin_endpoint basin) bad_basin_endpoint
    guard (host.have_one_scheme account basin) other_schemes
    ok (account, basin)

  unfoldable pub load_secret_file : Text → Result ConfigFault Text
  unfolding chop_line_end
  load_secret_file path = do
    bytes ← ok_or (host.read path) unreadable_file
    t ← ok_or (host.from_utf8 bytes) file_not_utf8
    guard (not (is_empty (chop_line_end t))) empty_file
    ok (chop_line_end t)

  abbrev variable : Variable → Result ConfigFault Text
  variable (value t) = ok t
  variable not_present = err token_unset
  variable not_unicode = err token_not_unicode

  abbrev source : Option Text → Result ConfigFault Text
  source (some path) = load_secret_file path
  source none = variable host.access_token

  unfoldable pub load_access_token : Option Text → Result ConfigFault Text
  unfolding load_secret_file
  load_access_token path =
      source path >>= λ token. guard (not (is_empty token)) empty_token >> ok token

  unfoldable pub load_fencing_token : Option Text → Result ConfigFault (Option Text)
  unfolding load_secret_file
  load_fencing_token none = ok none
  load_fencing_token (some path) = do
    token ← load_secret_file path
    guard (host.is_fencing_token token) bad_fencing_token
    ok (some token)

  -- Both endpoints, or none.
  unfoldable pub endpoints_of :
      Option Text → Option Text → Bool → Result ConfigFault (Option (Text × Text))
  unfolding validate_endpoints
  endpoints_of none none allow_insecure_endpoints = ok none
  endpoints_of (some account) (some basin) allow_insecure_endpoints =
      validate_endpoints account basin allow_insecure_endpoints >>= λ e. ok (some e)
  endpoints_of none (some basin) allow_insecure_endpoints = err one_endpoint
  endpoints_of (some account) none allow_insecure_endpoints = err one_endpoint

  unfoldable pub validate :
      SinkAppendRetryPolicy → ConnectionSettings → Result ConfigFault ValidatedConnection
  unfolding load_access_token endpoints_of
  validate append_policy s = do
    basin ← ok_or (filled s.basin) no_basin
    guard (host.is_basin_name basin) bad_basin
    stream ← ok_or (filled s.stream) no_stream
    guard (host.is_stream_name stream) bad_stream
    guard (leb s.retry_min_delay s.retry_max_delay) bad_delays
    guard (not (s.retry_max_attempts == 0)) no_attempts
    queue_capacity ← ok_or (try_below u64_mod s.queue_capacity) bad_capacity
    token ← load_access_token s.access_token_file
    endpoints ←
        endpoints_of (filled s.account_endpoint) (filled s.basin_endpoint)
          s.allow_insecure_endpoints
    ok (record {
      basin = basin;
      stream = stream;
      s2 = record {
        token = token;
        connection_timeout = s.connection_timeout;
        request_timeout = s.request_timeout;
        max_attempts = s.retry_max_attempts;
        min_base_delay = s.retry_min_delay;
        max_base_delay = s.retry_max_delay;
        append_retry_policy = append_policy;
        compression = s.compression;
        endpoints = endpoints;
      };
      queue_capacity = queue_capacity;
    })
