-- ===== src/Vlm/Element/Counted.antt =====
-- The four counts against the messages on the bus: analytics/vlm/src/vlmanalysis/imp.rs. The chain
-- function, the events and the worker take turns in any order.
use Prim.Native.String.{String}
use gstsmith_rs.Prelude.{
  ℕ, ◌+◌, ◌%◌, ◌≤◌, ◌≡◌, inl, inr, refl, Bool, true, false, Option, none, some, List, [], ◌∷◌, ◌++◌,
  length, Bool-cases, Option-cases, u64_mod, wrapping_add64, ltb, not, ◌||◌, arith,
}
use gstsmith_rs.Vlm.Settings.{Settings}
use gstsmith_rs.Vlm.Sampler.{
  Bytes, SelectedFrame, Kind, kind_input, kind_backpressure, Message, failed, answered, fatal,
  Started, VlmAnalysis, Buffer, reset_generation, is_regression, observe_pts, is_selected,
  post_input_error, push_frame, select, collect_batch,
}

abbrev pub bit : Bool → ℕ
bit true = 1
bit false = 0

-- How many messages of a sort there are.
abbrev pub count : (Message → Bool) → List Message → ℕ
count p [] = 0
count p (m ∷ ms) = bit (p m) + count p ms

count-append :
    (p : Message → Bool) (xs ys : List Message) → count p (xs ++ ys) ≡ count p xs + count p ys
count-append p [] ys = omega arith
count-append p (x ∷ xs) ys = omega (arith, count-append p xs ys)

abbrev pub is_backpressure : Kind → Bool
is_backpressure kind_backpressure = true
is_backpressure _ = false

abbrev pub tells_drop : Message → Bool
tells_drop (failed e) = is_backpressure e.kind
tells_drop (answered r) = false
tells_drop (fatal t) = false

abbrev pub tells_failure : Message → Bool
tells_failure (failed e) = not (is_backpressure e.kind)
tells_failure (answered r) = false
tells_failure (fatal t) = false

abbrev pub tells_result : Message → Bool
tells_result (failed e) = false
tells_result (answered r) = true
tells_result (fatal t) = false

abbrev pub tells_fatal : Message → Bool
tells_fatal (failed e) = false
tells_fatal (answered r) = false
tells_fatal (fatal t) = true

abbrev pub WasPosted : Option Started → ℕ → Type 0
WasPosted none n = n ≤ 1
WasPosted (some started) n = n ≡ bit started.error_posted

-- The counts are the messages of their sorts since the start, in `u64`, and the error that the
-- worker is gone was posted once or not at all.
pub record IsCounted (v : VlmAnalysis) : Type 0 where
  pub drops : v.counters.dropped ≡ count tells_drop v.bus % u64_mod
  pub failures : v.counters.failed ≡ count tells_failure v.bus % u64_mod
  pub results : v.counters.completed ≡ count tells_result v.bus % u64_mod
  pub fatals : WasPosted v.state (count tells_fatal v.bus)

-- A step that counts one message and posts it.
pub post-IsCounted :
    (v : VlmAnalysis) (m : Message)
    → IsCounted v
    → (v' : VlmAnalysis) → v'.bus ≡ v.bus ++ m ∷ []
    → v'.counters.dropped ≡ wrapping_add64 v.counters.dropped (bit (tells_drop m))
    → v'.counters.failed ≡ wrapping_add64 v.counters.failed (bit (tells_failure m))
    → v'.counters.completed ≡ wrapping_add64 v.counters.completed (bit (tells_result m))
    → WasPosted v'.state (count tells_fatal v.bus + bit (tells_fatal m))
    → IsCounted v'
post-IsCounted v m i v' b d f r t =
    let drops = i.drops in
    let failures = i.failures in
    let results = i.results in
    record {
      drops = rw b (let c = count-append tells_drop v.bus (m ∷ []) in omega arith);
      failures = rw b (let c = count-append tells_failure v.bus (m ∷ []) in omega arith);
      results = rw b (let c = count-append tells_result v.bus (m ∷ []) in omega arith);
      fatals =
          let c : count tells_fatal (v.bus ++ m ∷ [])
              ≡ count tells_fatal v.bus + bit (tells_fatal m) =
            (let c = count-append tells_fatal v.bus (m ∷ []) in omega arith) in
          rw (b, c) t;
    }

-- A step that leaves the counts, the messages and the state of the worker.
pub same-IsCounted :
    (v v' : VlmAnalysis)
    → v'.bus ≡ v.bus
    → v'.counters ≡ v.counters
    → v'.state ≡ v.state
    → IsCounted v
    → IsCounted v'
same-IsCounted v v' b c s i = record {
  drops = rw (b, c) (i.drops);
  failures = rw (b, c) (i.failures);
  results = rw (b, c) (i.results);
  fatals = rw (b, s) (i.fatals);
}

pub WasPosted-more : (o : Option Started) (n : ℕ) → WasPosted o n → WasPosted o (n + 0)
WasPosted-more o n h = let e : n + 0 ≡ n = omega arith in rw e h

post_input_error-IsCounted :
    (message : String) (v : VlmAnalysis) → IsCounted v → IsCounted (post_input_error message v)
unfolding post_input_error
post_input_error-IsCounted message v i =
    let d = i.drops in
    let r = i.results in
    post-IsCounted v
      (failed (record {
        id = none;
        generation = v.generation;
        kind = kind_input;
        message = message;
        http_status = none;
        frame_count = 1;
      }))
      i (post_input_error message v) refl (omega arith) refl (omega arith)
      (WasPosted-more v.state (count tells_fatal v.bus) i.fatals)

observe_pts-IsCounted :
    (pts : Option ℕ) (v : VlmAnalysis) → IsCounted v → IsCounted (observe_pts pts v)
unfolding observe_pts reset_generation
observe_pts-IsCounted pts v i = elim (Bool-cases (is_regression v.sampler.last_seen_pts pts)) [
  | inl e ↦
      same-IsCounted v (observe_pts pts v) (rw (observe_pts, e) refl) (rw (observe_pts, e) refl)
        (rw (observe_pts, e) refl) i
  | inr e ↦
      same-IsCounted v (observe_pts pts v) (rw (observe_pts, e) refl) (rw (observe_pts, e) refl)
        (rw (observe_pts, e) refl) i
]

push_frame-IsCounted :
    (s : Settings) (pts : Option ℕ) (bytes : Bytes) (v : VlmAnalysis)
    → IsCounted v
    → IsCounted (push_frame s pts bytes v).1
unfolding push_frame
push_frame-IsCounted s pts bytes v i =
    let frame : SelectedFrame = record { bytes = bytes; pts = pts } in
    let frames = v.sampler.frames ++ frame ∷ [] in
    elim (Bool-cases (ltb (length frames) s.frames_per_request)) [
      | inl e ↦
          same-IsCounted v (push_frame s pts bytes v).1 (rw (push_frame, e) refl)
            (rw (push_frame, e) refl) (rw (push_frame, e) refl) i
      | inr e ↦
          same-IsCounted v (push_frame s pts bytes v).1 (rw (push_frame, e) refl)
            (rw (push_frame, e) refl) (rw (push_frame, e) refl) i
    ]

select-IsCounted :
    (s : Settings) (buffer : Buffer) (v : VlmAnalysis)
    → IsCounted v
    → IsCounted (select s buffer v).1
unfolding select
select-IsCounted s buffer v i = elim (Option-cases buffer.data_) [
  | inl n ↦ rw (select, n) (post_input_error-IsCounted _ v i)
  | inr (bytes, d) ↦
      let next = v.sampler.bytes + length bytes in
      elim (Bool-cases (not (ltb (length bytes) u64_mod))) [
        | inl e ↦ rw (select, d, e) (post_input_error-IsCounted _ v i)
        | inr e ↦ elim (Bool-cases (ltb s.max_frame_bytes (length bytes))) [
          | inl l ↦ rw (select, d, e, l) (post_input_error-IsCounted _ v i)
          | inr l ↦ elim (Bool-cases (not (ltb next u64_mod) || ltb s.max_batch_bytes next)) [
            | inl m ↦ rw (select, d, e, l, m) (post_input_error-IsCounted _ v i)
            | inr m ↦ rw (select, d, e, l, m) (push_frame-IsCounted s buffer.pts bytes v i)
          ]
        ]
      ]
]

pub collect_batch-IsCounted :
    (buffer : Buffer) (s : Settings) (v : VlmAnalysis)
    → IsCounted v
    → IsCounted (collect_batch buffer s v).1
unfolding collect_batch
collect_batch-IsCounted buffer s v i =
    let v' = observe_pts buffer.pts v in
    let i' = observe_pts-IsCounted buffer.pts v i in
    elim (Bool-cases (is_selected s buffer.pts v'.sampler)) [
      | inl e ↦ rw (collect_batch, e) (select-IsCounted s buffer v' i')
      | inr e ↦ rw (collect_batch, e) i'
    ]
