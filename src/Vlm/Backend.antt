-- ===== src/Vlm/Backend.antt =====
-- A request to the provider and its answer: analytics/vlm/src/backend/openai_chat.rs, with the
-- types of analytics/vlm/src/backend/mod.rs and the messages of analytics/vlm/src/prompt.rs. The
-- HTTP client, its clock and serde are parameters of the exchange, in the module Answer.
pub mod Answer
pub mod Wire
pub mod Body
use Prim.Native.String.{String}
use gstsmith_rs.Prelude.{
  ℕ, ◌+◌, ◌*◌, Bool, true, false, not, ◌&&◌, ◌||◌, Option, none, some, List, [], ◌∷◌, ◌++◌, map,
  ltb, leb, ◌==◌, if◌then◌else◌, length, is_empty, is_some, Text, codes, text_eq, Result, ok, err,
  ◌>>=◌, ◌>>◌, guard, ok_or, map_err, collect,
}
use gstsmith_rs.Vlm.Settings.{
  ResponseFormat, default, text, json_object, json_schema, TokenLimitMode, legacy, completion,
  SamplingMode, configured, provider_default,
}
use gstsmith_rs.Vlm.Config.{Json}
use gstsmith_rs.Vlm.Sampler.{Bytes}

pub data Role : Type 0 where
  system user model : Role

pub data Part : Type 0 where
  words : Text → Part
  media : Text → Text → Part

pub record Prompt : Type 0 where
  pub role : Role
  pub parts : List Part

abbrev pub jpeg : Text → Part
jpeg data_url = media (codes "image/jpeg") data_url

unfoldable pub literal_messages : Option Text → Text → List Text → List Prompt
literal_messages system_prompt user_prompt jpeg_data_urls =
    let asked = record { role = user; parts = words user_prompt ∷ map jpeg jpeg_data_urls } ∷ [] in
    elim system_prompt [
      | none ↦ asked
      | some t ↦ record { role = system; parts = words t ∷ [] } ∷ asked
    ]

pub record GenerationRequest : Type 0 where
  pub model : Text
  pub messages : List Prompt
  pub max_tokens : ℕ
  pub temperature : ℕ
  pub top_p : ℕ
  pub response_format : ResponseFormat
  pub response_schema : Option Json
  pub token_limit_mode : TokenLimitMode
  pub sampling_mode : SamplingMode
  pub reasoning_effort : Option Text

pub record Usage : Type 0 where
  pub prompt : Option ℕ
  pub completion : Option ℕ
  pub reasoning : Option ℕ

pub record GenerationResult : Type 0 where
  pub content : Text
  pub usage : Usage

pub data BackendError : Type 0 where
  timeout : BackendError
  http : Option ℕ → Option ℕ → String → BackendError
  response : String → BackendError

pub data WirePart : Type 0 where
  wire_text image_url : Text → WirePart

pub data WireContent : Type 0 where
  plain : Text → WireContent
  wire_parts : List WirePart → WireContent

pub record WireMessage : Type 0 where
  pub role : String
  pub content : WireContent

-- The schema's name is "vlmanalysis", and it is strict.
pub data WireResponseFormat : Type 0 where
  wire_format_text wire_format_object : WireResponseFormat
  wire_format_schema : Json → WireResponseFormat

-- The fields that are none are left out. `stream` is false.
pub record WireRequest : Type 0 where
  pub model : Text
  pub messages : List WireMessage
  pub max_tokens : Option ℕ
  pub max_completion_tokens : Option ℕ
  pub temperature : Option ℕ
  pub top_p : Option ℕ
  pub reasoning_effort : Option Text
  pub response_format : Option WireResponseFormat

abbrev role_name : Role → String
role_name system = "system"
role_name user = "user"
role_name model = "assistant"

unfoldable pub wire_part : Part → Result BackendError WirePart
unfolding text_eq
wire_part (words t) = ok (wire_text t)
wire_part (media mime_type data_url) =
    if text_eq mime_type (codes "image/jpeg")
    then ok (image_url data_url)
    else err (response "unsupported prompt media type")

unfoldable pub wire_content : List Part → Result BackendError WireContent
unfolding wire_part collect
wire_content (words t ∷ []) = ok (plain t)
wire_content parts = do wired ← collect wire_part parts; ok (wire_parts wired)

unfoldable pub wire_message : Prompt → Result BackendError WireMessage
unfolding wire_content
wire_message message = do
  content ← wire_content message.parts
  ok (record { role = role_name message.role; content = content })

unfoldable pub wire_format :
    ResponseFormat → Option Json → Result BackendError (Option WireResponseFormat)
wire_format default schema = ok none
wire_format text schema = ok (some wire_format_text)
wire_format json_object schema = ok (some wire_format_object)
wire_format json_schema schema = do
  s ← ok_or schema (response "response schema is missing")
  ok (some (wire_format_schema s))

abbrev pub is_legacy : TokenLimitMode → Bool
is_legacy legacy = true
is_legacy completion = false

abbrev is_configured : SamplingMode → Bool
is_configured configured = true
is_configured provider_default = false

-- `b.then_some(n)`.
abbrev pub then_some : Bool → ℕ → Option ℕ
then_some b n = if b then some n else none

abbrev pub wire_request :
    GenerationRequest → Option WireResponseFormat → List WireMessage → WireRequest
wire_request r response_format messages = record {
  model = r.model;
  messages = messages;
  max_tokens = then_some (is_legacy r.token_limit_mode) r.max_tokens;
  max_completion_tokens = then_some (not (is_legacy r.token_limit_mode)) r.max_tokens;
  temperature = then_some (is_configured r.sampling_mode) r.temperature;
  top_p = then_some (is_configured r.sampling_mode) r.top_p;
  reasoning_effort = r.reasoning_effort;
  response_format = response_format;
}

-- `serialize` up to the encoding of the wire request as JSON.
unfoldable pub serialize : GenerationRequest → Result BackendError WireRequest
unfolding wire_format wire_message collect
serialize r = do
  response_format ← wire_format r.response_format r.response_schema
  messages ← collect wire_message r.messages
  ok (wire_request r response_format messages)
