-- ===== src/Vlm/Backend/Wire.antt =====
-- What is sent, and what a result holds: analytics/vlm/src/backend/openai_chat.rs, `serialize` and
-- `parse`, for the messages of analytics/vlm/src/prompt.rs.
use gstsmith_rs.Prelude.{
  ℕ, ◌≡◌, ◌⊎◌, inl, inr, refl, ap, subst, ◌>>=◌, guard, codes, text_eq, true, false, not, Option,
  none, some, List, [], ◌∷◌, map, is_empty, is_some, Bool-cases, Text, ok, collect, ok_or, Returns,
  done, failed, Returns-bind, Returns-guard, Returns-sound, Returns-check,
}
use gstsmith_rs.Vlm.Settings.{
  ResponseFormat, default, text, json_object, json_schema, TokenLimitMode, legacy, completion,
}
use gstsmith_rs.Vlm.Config.{Json}
use gstsmith_rs.Vlm.Config.Limits.{HasSchema}
use gstsmith_rs.Vlm.Sampler.{Bytes}
use gstsmith_rs.Vlm.Backend.{
  words, jpeg, literal_messages, GenerationRequest, GenerationResult, BackendError, response,
  WireMessage, WireContent, plain, wire_parts, wire_text, image_url, WireRequest,
  WireResponseFormat, wire_part, wire_content, wire_message, wire_format, serialize, is_legacy,
  then_some, wire_request,
}
use gstsmith_rs.Vlm.Backend.Answer.{
  Serde, first, non_empty, check_finish, check_json, parse, WireResponse, Choice,
}

-- The content for a prompt with pictures.
abbrev pub pictures : Text → List Text → WireContent
pictures prompt [] = plain prompt
pictures prompt (url ∷ urls) = wire_parts (wire_text prompt ∷ map image_url (url ∷ urls))

abbrev pub wire_literal : Option Text → Text → List Text → List WireMessage
wire_literal none prompt urls = record { role = "user"; content = pictures prompt urls } ∷ []
wire_literal (some t) prompt urls =
    record { role = "system"; content = plain t }
    ∷ record { role = "user"; content = pictures prompt urls }
    ∷ []

collect-jpeg : (urls : List Text) → collect wire_part (map jpeg urls) ≡ ok (map image_url urls)
unfolding collect wire_part
collect-jpeg [] = refl
collect-jpeg (url ∷ urls) = rw (collect-jpeg urls) refl

wire_content-pictures :
    (prompt : Text) (urls : List Text)
    → wire_content (words prompt ∷ map jpeg urls) ≡ ok (pictures prompt urls)
unfolding wire_content collect wire_part
wire_content-pictures prompt [] = refl
wire_content-pictures prompt (url ∷ urls) = rw (collect-jpeg urls) refl

collect-literal_messages :
    (prefix : Option Text) (prompt : Text) (urls : List Text)
    → collect wire_message (literal_messages prefix prompt urls)
      ≡ ok (wire_literal prefix prompt urls)
unfolding collect wire_message literal_messages wire_content
collect-literal_messages none prompt urls = rw (wire_content-pictures prompt urls) refl
collect-literal_messages (some t) prompt urls = rw (wire_content-pictures prompt urls) refl

wire_format-ok :
    (f : ResponseFormat) (schema : Option Json)
    → HasSchema f schema
    → (w : Option WireResponseFormat) × (wire_format f schema ≡ ok w)
unfolding wire_format
wire_format-ok default schema h = (_, refl)
wire_format-ok text schema h = (_, refl)
wire_format-ok json_object schema h = (_, refl)
wire_format-ok json_schema none h = absurd h
wire_format-ok json_schema (some s) h = (_, refl)

one_limit :
    (mode : TokenLimitMode) (n : ℕ)
    → is_some (then_some (is_legacy mode) n) ≡ not (is_some (then_some (not (is_legacy mode)) n))
one_limit legacy n = refl
one_limit completion n = refl

-- A request of literal prompts, whose schema fits its format, is always serialized: with the
-- messages in order, the pictures behind the prompt, and exactly one of the two token limits.
pub serialize-literal_messages :
    (r : GenerationRequest) (prefix : Option Text) (prompt : Text) (urls : List Text)
    → r.messages ≡ literal_messages prefix prompt urls
    → HasSchema r.response_format r.response_schema
    → (w : WireRequest) × (serialize r ≡ ok w)
      × (w.messages ≡ wire_literal prefix prompt urls)
      × (is_some w.max_tokens ≡ not (is_some w.max_completion_tokens))
unfolding serialize
serialize-literal_messages r prefix prompt urls m h =
    let (format, f) = wire_format-ok r.response_format r.response_schema h in
    let messages = collect-literal_messages prefix prompt urls in
    (
      wire_request r format (wire_literal prefix prompt urls),
      rw (serialize, f, m, messages) refl,
      refl,
      one_limit r.token_limit_mode r.max_tokens,
    )

-- JSON objects are what the two JSON formats ask for; the others ask for any text.
abbrev pub IsObject : Serde → ResponseFormat → Text → Type 0
IsObject serde default content = Unit
IsObject serde text content = Unit
IsObject serde json_object content =
    (json : Json) × (serde.from_str content ≡ some json) × (json.is_object ≡ true)
IsObject serde json_schema content =
    (json : Json) × (serde.from_str content ≡ some json) × (json.is_object ≡ true)

-- What a result of `parse` comes from, and what it holds.
pub record IsContent (serde : Serde) (body : Bytes) (format : ResponseFormat) (r : GenerationResult)
    : Type 0 where
  pub answer : WireResponse
  pub choice : Choice
  pub others : List Choice
  pub parsed : serde.from_slice body ≡ some answer
  pub chosen : answer.choices ≡ choice ∷ others
  pub said : choice.content ≡ some r.content
  pub is_full : is_empty r.content ≡ false
  pub unrefused : (choice.refusal ≡ none) ⊎ (choice.refusal ≡ some [])
  pub complete :
      (choice.finish_reason ≡ none)
      ⊎ ((reason : Text) × (choice.finish_reason ≡ some reason)
          × (text_eq reason (codes "stop") ≡ true))
  pub is_object : IsObject serde format r.content

non_empty-some :
    (o : Option Text) (e : BackendError) (t : Text)
    → ok_or (non_empty o) e ≡ ok t
    → (o ≡ some t) × (is_empty t ≡ false)
non_empty-some none e t h = absurd (cc)
non_empty-some (some []) e t h = absurd (cc)
non_empty-some (some (c ∷ cs)) e t h =
    let q : c ∷ cs ≡ t = cc in (ap some q, subst (λ x. is_empty x ≡ false) q refl)

unrefused_of : (o : Option Text) → not (is_some (non_empty o)) ≡ true → (o ≡ none) ⊎ (o ≡ some [])
unrefused_of none h = inl refl
unrefused_of (some []) h = inr refl
unrefused_of (some (c ∷ cs)) h = absurd (cc)

ok_or-some : {A : Type 0} (o : Option A) (e : BackendError) (a : A) → ok_or o e ≡ ok a → o ≡ some a
ok_or-some none e a h = absurd (cc)
ok_or-some (some b) e a h = cc

first-some :
    (cs : List Choice) (c : Choice) → first cs ≡ some c → (rest : List Choice) × (cs ≡ c ∷ rest)
first-some [] c h = absurd (cc)
first-some (d ∷ ds) c h = let q : d ≡ c = cc in (ds, ap (λ x. x ∷ ds) q)

check_finish_complete :
    (o : Option Text)
    → Returns
        (λ _.
          (o ≡ none)
          ⊎ ((reason : Text) × (o ≡ some reason) × (text_eq reason (codes "stop") ≡ true)))
        (check_finish o)
unfolding check_finish
check_finish_complete none = done (inl refl)
check_finish_complete (some reason) = elim (Bool-cases (text_eq reason (codes "stop"))) [
  | inl e ↦ rw e (done (inr (reason, refl, e)))
  | inr e ↦ elim (Bool-cases (text_eq reason (codes "length"))) [
    | inl l ↦ rw (e, l) failed
    | inr l ↦ elim (Bool-cases (text_eq reason (codes "content_filter"))) [
      | inl f ↦ rw (e, l, f) failed
      | inr f ↦ rw (e, l, f) failed
    ]
  ]
]

object_of :
    (serde : Serde) (content : Text)
    → Returns
        (λ _. (json : Json) × (serde.from_str content ≡ some json) × (json.is_object ≡ true))
        (ok_or (serde.from_str content) (response "response content is not valid JSON") >>= λ json.
          guard json.is_object (response "response content must be a JSON object"))
object_of serde content =
    Returns-bind (ok_or (serde.from_str content) (response _)) _
      λ json e. Returns-check json.is_object (response _) λ o. (json, ok_or-some _ _ json e, o)

check_json-IsObject :
    (serde : Serde) (format : ResponseFormat) (content : Text)
    → Returns (λ _. IsObject serde format content) (check_json serde format content)
unfolding check_json
check_json-IsObject serde default content = done tt
check_json-IsObject serde text content = done tt
check_json-IsObject serde json_object content = object_of serde content
check_json-IsObject serde json_schema content = object_of serde content

-- Of any body: a result is the content of the first choice of the answer in the body. That choice
-- was not refused and has no reason to finish but "stop", the content is not empty, and in the
-- formats json_object and json_schema it is a JSON object.
pub parse-IsContent :
    (serde : Serde) (body : Bytes) (format : ResponseFormat)
    → Returns (IsContent serde body format) (parse serde body format)
unfolding parse
parse-IsContent serde body format =
    Returns-bind (ok_or (serde.from_slice body) (response _)) _ λ r parsed.
      Returns-bind (ok_or (first r.choices) (response _)) _ λ choice chosen.
        Returns-guard (not (is_some (non_empty choice.refusal))) (response _) _ λ unrefused.
          Returns-bind (check_finish choice.finish_reason) _ λ u finish.
            Returns-bind (ok_or (non_empty choice.content) (response _)) _ λ content full.
              Returns-bind (check_json serde format content) _ λ v json.
                let (others, first_one) =
                  first-some r.choices choice (ok_or-some _ _ choice chosen) in
                let (said, is_full) = non_empty-some choice.content _ content full in
                done (record {
                  answer = r;
                  choice = choice;
                  others = others;
                  parsed = ok_or-some _ _ r parsed;
                  chosen = first_one;
                  said = said;
                  is_full = is_full;
                  unrefused = unrefused_of choice.refusal unrefused;
                  complete = Returns-sound _ u (check_finish_complete choice.finish_reason) finish;
                  is_object = Returns-sound _ v (check_json-IsObject serde format content) json;
                })
