-- ===== src/Vlm/Backend/Answer.antt =====
-- The exchange with the provider: `parse`, `bounded_body` and `generate` of
-- analytics/vlm/src/backend/openai_chat.rs.
use Prim.Native.String.{String}
use gstsmith_rs.Prelude.{
  ℕ, ◌+◌, ◌-◌, ◌*◌, Bool, true, false, not, ◌&&◌, Option, none, some, List, [], ◌∷◌, ◌++◌, ltb, leb,
  min, if◌then◌else◌, length, is_empty, is_some, Text, codes, text_eq, Result, ok, err, ◌>>=◌, ◌>>◌,
  guard, ok_or, map_err, u64_mod,
}
use gstsmith_rs.Vlm.Settings.{ResponseFormat, default, text, json_object, json_schema}
use gstsmith_rs.Vlm.Config.{Json}
use gstsmith_rs.Vlm.Sampler.{Bytes}
use gstsmith_rs.Vlm.Backend.{
  GenerationRequest, GenerationResult, Usage, BackendError, timeout, http, response, WireRequest,
  serialize,
}

abbrev pub max_response_bytes : ℕ
max_response_bytes = 1024 * 1024

pub record Choice : Type 0 where
  pub content : Option Text
  pub refusal : Option Text
  pub finish_reason : Option Text

-- `completion_tokens_details` are the reasoning tokens in them.
pub record WireUsage : Type 0 where
  pub prompt_tokens : Option ℕ
  pub completion_tokens : Option ℕ
  pub completion_tokens_details : Option (Option ℕ)

pub record WireResponse : Type 0 where
  pub choices : List Choice
  pub usage : Option WireUsage

-- The JSON encoder, and the parsers of an answer and of its content.
pub record Serde : Type 0 where
  pub to_vec : WireRequest → Option Bytes
  pub from_slice : Bytes → Option WireResponse
  pub from_str : Text → Option Json

abbrev pub first : List Choice → Option Choice
first [] = none
first (c ∷ cs) = some c

abbrev pub non_empty : Option Text → Option Text
non_empty none = none
non_empty (some t) = if is_empty t then none else some t

unfoldable pub check_finish : Option Text → Result BackendError (Unit {0})
unfolding text_eq
check_finish none = ok tt
check_finish (some reason) =
    if text_eq reason (codes "stop")
    then ok tt
    else if text_eq reason (codes "length")
    then err (response "response reached the token limit")
    else if text_eq reason (codes "content_filter")
    then err (response "response was filtered by the provider")
    else err (response "response has an unsupported finish reason")

abbrev pub is_json : ResponseFormat → Bool
is_json json_object = true
is_json json_schema = true
is_json default = false
is_json text = false

abbrev flatten : Option (Option ℕ) → Option ℕ
flatten none = none
flatten (some o) = o

abbrev usage_of : Option WireUsage → Usage
usage_of none = record { prompt = none; completion = none; reasoning = none }
usage_of (some u) = record {
  prompt = u.prompt_tokens;
  completion = u.completion_tokens;
  reasoning = flatten u.completion_tokens_details;
}

module _ (serde : Serde) where
  unfoldable pub check_json : ResponseFormat → Text → Result BackendError (Unit {0})
  check_json format content =
      if is_json format
      then (ok_or (serde.from_str content) (response "response content is not valid JSON")
          >>= (λ json. guard json.is_object (response "response content must be a JSON object")))
      else ok tt

  unfoldable pub parse : Bytes → ResponseFormat → Result BackendError GenerationResult
  unfolding check_finish check_json
  parse body format = do
    r ← ok_or (serde.from_slice body) (response "response is not valid Chat Completions JSON")
    choice ← ok_or (first r.choices) (response "response has no choices")
    guard (not (is_some (non_empty choice.refusal))) (response "provider refused the request")
    check_finish choice.finish_reason
    content ←
        ok_or (non_empty choice.content)
          (response "response has no non-empty string message content")
    check_json format content
    ok (record { content = content; usage = usage_of r.usage })

pub data BodyErrorKind : Type 0 where
  read too_large : BodyErrorKind

pub record BodyError : Type 0 where
  pub bytes_read : ℕ
  pub kind : BodyErrorKind

-- `a.saturating_add(b)` on a `usize`.
abbrev pub saturating_add : ℕ → ℕ → ℕ
saturating_add a b = min (a + b) (u64_mod - 1)

-- The stream of the body ends, or brings a chunk, which may be an error.
unfoldable pub read_chunks : List (Option Bytes) → Bytes → Result BodyError Bytes
read_chunks [] body = ok body
read_chunks (none ∷ chunks) body = err (record { bytes_read = length body; kind = read })
read_chunks (some chunk ∷ chunks) body =
    let rest = read_chunks chunks (body ++ chunk) in
    if ltb max_response_bytes (saturating_add (length body) (length chunk))
    then err (record { bytes_read = saturating_add (length body) (length chunk); kind = too_large })
    else rest

unfoldable pub bounded_body : List (Option Bytes) → Result BodyError Bytes
unfolding read_chunks
bounded_body chunks = read_chunks chunks []

abbrev pub within_class : ℕ → ℕ → Bool
within_class low status = leb low status && ltb status (low + 100)

unfoldable pub status_message : ℕ → String
status_message status =
    if within_class 400 status
    then "provider returned an HTTP client error"
    else if within_class 500 status
    then "provider returned an HTTP server error"
    else "provider returned an unsuccessful HTTP status"

abbrev pub body_error : BodyError → BackendError
body_error error = elim error.kind [
  | read ↦ http none (some error.bytes_read) "failed while reading HTTP response"
  | too_large ↦ response "response exceeds 1 MiB limit"
]

abbrev pub bytes_of : Result BodyError Bytes → ℕ
bytes_of (ok body) = length body
bytes_of (err error) = error.bytes_read

-- What the time limit and the client make of a request: the limit passes, sending fails, or there
-- is a status and a stream of chunks.
pub data Answer : Type 0 where
  elapsed unsent : Answer
  answered : ℕ → List (Option Bytes) → Answer

module _ (serde : Serde) (send : Bytes → Answer) where
  unfoldable pub read_answer : ResponseFormat → Answer → Result BackendError GenerationResult
  unfolding bounded_body status_message parse
  read_answer format elapsed = err timeout
  read_answer format unsent = err (http none none "HTTP request failed")
  read_answer format (answered status chunks) =
      if not (within_class 200 status)
      then err (http (some status) (some (bytes_of (bounded_body chunks))) (status_message status))
      else map_err body_error (bounded_body chunks) >>= λ body. parse serde body format

  unfoldable pub generate : GenerationRequest → Result BackendError GenerationResult
  unfolding serialize read_answer
  generate request = do
    wire ← serialize request
    body ← ok_or (serde.to_vec wire) (response "failed to serialize generation request")
    read_answer request.response_format (send body)
