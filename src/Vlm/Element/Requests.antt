-- ===== src/Vlm/Element/Requests.antt =====
-- The requests of the worker: analytics/vlm/src/vlmanalysis/imp.rs, `worker_loop`, with the checks
-- of the settings and the encoding for the provider.
use gstsmith_rs.Prelude.{◌≡◌, refl, map, Text, ok, not, is_some}
use gstsmith_rs.Vlm.Settings.{Settings}
use gstsmith_rs.Vlm.Config.{Host, WorkerConfig}
use gstsmith_rs.Vlm.Config.Limits.{IsValid}
use gstsmith_rs.Vlm.Sampler.{Bytes}
use gstsmith_rs.Vlm.Backend.{WireRequest, serialize}
use gstsmith_rs.Vlm.Backend.Wire.{wire_literal, serialize-literal_messages}
use gstsmith_rs.Vlm.Element.{Batch, data_url, request_of}

-- With settings that passed the checks, every batch gives a request that can be encoded: the system
-- prompt if there is one, then the user prompt with one picture for each frame, in their order, and
-- exactly one of the two token limits. No request fails for its schema or its media.
pub serialize-request_of :
    (encode : Bytes → Text) (host : Host) (s : Settings) (config : WorkerConfig) (batch : Batch)
    → IsValid host s config
    → (w : WireRequest) × (serialize (request_of encode config batch) ≡ ok w)
      × (w.messages
          ≡ wire_literal config.system_prompt config.user_prompt
              (map (data_url encode) batch.frames))
      × (is_some w.max_tokens ≡ not (is_some w.max_completion_tokens))
unfolding request_of
serialize-request_of encode host s config batch valid =
    serialize-literal_messages (request_of encode config batch) config.system_prompt
      config.user_prompt (map (data_url encode) batch.frames) refl
      (rw valid.same_format valid.has_schema)
