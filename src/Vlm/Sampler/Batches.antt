-- ===== src/Vlm/Sampler/Batches.antt =====
-- The frames of a batch: analytics/vlm/src/vlmanalysis/imp.rs, `collect_batch`.
use Prim.Native.String.{String}
use gstsmith_rs.Prelude.{
  ℕ, ◌+◌, ◌≤◌, ◌<◌, ◌≡◌, ◌⊎◌, inl, inr, refl, sym, subst, ◌==◌, true, not, ◌||◌, Option, none, some,
  List, [], ◌∷◌, ◌++◌, ltb, length, length-append, All, All-append, Bool-cases, Option-cases,
  u64_mod, arith,
}
use gstsmith_rs.Vlm.Settings.{Settings}
use gstsmith_rs.Vlm.Sampler.{
  Bytes, SelectedFrame, Sampler, default_sampler, VlmAnalysis, Buffer, or, is_due, is_selected,
  is_regression, reset_generation, observe_pts, post_input_error, push_frame, select, collect_batch,
}

abbrev pub total : List SelectedFrame → ℕ
total [] = 0
total (f ∷ fs) = length f.bytes + total fs

total-append : (xs ys : List SelectedFrame) → total (xs ++ ys) ≡ total xs + total ys
total-append [] ys = omega arith
total-append (x ∷ xs) ys = omega (arith, total-append xs ys)

abbrev pub IsSmall : Settings → SelectedFrame → Type 0
IsSmall s f = length f.bytes ≤ s.max_frame_bytes

-- The last timestamp, of the frames or from before.
abbrev pub last_pts : Option ℕ → List SelectedFrame → Option ℕ
last_pts before [] = before
last_pts before (f ∷ fs) = last_pts (or f.pts before) fs

-- A timestamp is the interval behind the one before it, unless there is no interval.
abbrev pub IsApart : ℕ → Option ℕ → Option ℕ → Type 0
IsApart interval before none = Unit
IsApart interval none (some p) = Unit
IsApart interval (some q) (some p) = (interval ≡ 0) ⊎ (q + interval ≤ p)

-- Each timestamp is the interval behind the one before it.
abbrev pub Apart : ℕ → Option ℕ → List SelectedFrame → Type 0
Apart interval before [] = Unit
Apart interval before (f ∷ fs) = IsApart interval before f.pts × Apart interval (or f.pts before) fs

Apart-append :
    (interval : ℕ) (before : Option ℕ) (fs : List SelectedFrame) (f : SelectedFrame)
    → Apart interval before fs
    → IsApart interval (last_pts before fs) f.pts
    → Apart interval before (fs ++ f ∷ [])
Apart-append interval before [] f a h = (h, tt)
Apart-append interval before (g ∷ fs) f a h =
    (a.0, Apart-append interval (or g.pts before) fs f a.1 h)

last_pts-append :
    (before : Option ℕ) (fs : List SelectedFrame) (f : SelectedFrame)
    → last_pts before (fs ++ f ∷ []) ≡ or f.pts (last_pts before fs)
last_pts-append before [] f = refl
last_pts-append before (g ∷ fs) f = last_pts-append (or g.pts before) fs f

-- The sampler between two buffers: fewer frames than a batch has, their bytes counted, each frame
-- within its limit, and the timestamps apart.
pub record IsSampling (s : Settings) (sampler : Sampler) : Type 0 where
  pub has_room : length sampler.frames < s.frames_per_request
  pub is_counted : sampler.bytes ≡ total sampler.frames
  pub is_small : All (IsSmall s) sampler.frames
  pub before : Option ℕ
  pub is_apart : Apart s.analysis_interval before sampler.frames
  pub is_last : last_pts before sampler.frames ≡ sampler.last_selected_pts

pub record IsBatch (s : Settings) (frames : List SelectedFrame) : Type 0 where
  pub is_full : length frames ≡ s.frames_per_request
  pub is_small : All (IsSmall s) frames
  pub fits : total frames ≤ s.max_batch_bytes
  pub before : Option ℕ
  pub is_apart : Apart s.analysis_interval before frames

abbrev pub HasBatch : Settings → Option (List SelectedFrame) → Type 0
HasBatch s none = Unit
HasBatch s (some frames) = IsBatch s frames

-- What every step ensures.
abbrev pub Collects : Settings → Option (List SelectedFrame) × VlmAnalysis → Type 0
Collects s r = HasBatch s r.0 × IsSampling s r.1.sampler

pub default-IsSampling : (s : Settings) → 1 ≤ s.frames_per_request → IsSampling s default_sampler
default-IsSampling s h = record {
  has_room = omega arith;
  is_counted = refl;
  is_small = tt;
  before = none;
  is_apart = tt;
  is_last = refl;
}

observe_pts-IsSampling :
    (s : Settings) (pts : Option ℕ) (v : VlmAnalysis)
    → 1 ≤ s.frames_per_request
    → IsSampling s v.sampler
    → IsSampling s (observe_pts pts v).sampler
unfolding observe_pts reset_generation
observe_pts-IsSampling s pts v h i = elim (Bool-cases (is_regression v.sampler.last_seen_pts pts)) [
  | inl e ↦
      rw (observe_pts, e)
        (record {
          has_room = omega arith;
          is_counted = refl;
          is_small = tt;
          before = none;
          is_apart = tt;
          is_last = refl;
        })
  | inr e ↦
      rw (observe_pts, e)
        (record {
          has_room = i.has_room;
          is_counted = i.is_counted;
          is_small = i.is_small;
          before = i.before;
          is_apart = i.is_apart;
          is_last = i.is_last;
        })
]

push_frame-Collects :
    (s : Settings) (pts : Option ℕ) (bytes : Bytes) (v : VlmAnalysis)
    → IsSampling s v.sampler
    → length bytes ≤ s.max_frame_bytes
    → v.sampler.bytes + length bytes ≤ s.max_batch_bytes
    → IsApart s.analysis_interval v.sampler.last_selected_pts pts
    → Collects s (push_frame s pts bytes v)
unfolding push_frame
push_frame-Collects s pts bytes v i small fits apart =
    let frame : SelectedFrame = record { bytes = bytes; pts = pts } in
    let frames : List SelectedFrame = v.sampler.frames ++ frame ∷ [] in
    let n : length frames ≡ length v.sampler.frames + 1 =
      length-append v.sampler.frames (frame ∷ []) in
    let t : total frames ≡ v.sampler.bytes + length bytes =
      let e = total-append v.sampler.frames (frame ∷ []) in let c = i.is_counted in omega arith in
    let smalls : All (IsSmall s) frames =
      All-append (IsSmall s) v.sampler.frames (frame ∷ []) i.is_small (small, tt) in
    let here : IsApart s.analysis_interval (last_pts i.before v.sampler.frames) pts =
      rw i.is_last apart in
    let aparts : Apart s.analysis_interval i.before frames =
      Apart-append s.analysis_interval i.before v.sampler.frames frame i.is_apart here in
    let last : last_pts i.before frames ≡ or pts v.sampler.last_selected_pts =
      rw (last_pts-append i.before v.sampler.frames frame, i.is_last) refl in
    let room = i.has_room in
    elim (Bool-cases (ltb (length frames) s.frames_per_request)) [
      | inl e ↦
          rw (push_frame, e)
            (
              tt,
              record {
                has_room = ground arith;
                is_counted = omega arith;
                is_small = smalls;
                before = i.before;
                is_apart = aparts;
                is_last = last;
              },
            )
      | inr e ↦
          rw (push_frame, e)
            (
              record {
                is_full = ground arith;
                is_small = smalls;
                fits = omega arith;
                before = i.before;
                is_apart = aparts;
              },
              record {
                has_room = omega arith;
                is_counted = refl;
                is_small = tt;
                before = or pts v.sampler.last_selected_pts;
                is_apart = tt;
                is_last = refl;
              },
            )
    ]

post_input_error-Collects :
    (s : Settings) (message : String) (v : VlmAnalysis)
    → IsSampling s v.sampler
    → Collects s (none, post_input_error message v)
unfolding post_input_error
post_input_error-Collects s message v i = (tt, i)

select-Collects :
    (s : Settings) (buffer : Buffer) (v : VlmAnalysis)
    → IsSampling s v.sampler
    → IsApart s.analysis_interval v.sampler.last_selected_pts buffer.pts
    → Collects s (select s buffer v)
unfolding select
select-Collects s buffer v i apart = elim (Option-cases buffer.data_) [
  | inl n ↦ rw (select, n) (tt, i)
  | inr (bytes, d) ↦
      let size = length bytes in
      elim (Bool-cases (not (ltb (length bytes) u64_mod))) [
        | inl e ↦ rw (select, d, e) (tt, i)
        | inr e ↦ elim (Bool-cases (ltb s.max_frame_bytes (length bytes))) [
          | inl l ↦ rw (select, d, e, l) (tt, i)
          | inr l ↦
              let next = v.sampler.bytes + length bytes in
              elim (Bool-cases (not (ltb next u64_mod) || ltb s.max_batch_bytes next)) [
                | inl m ↦ rw (select, d, e, l, m) (tt, i)
                | inr m ↦
                    rw (select, d, e, l, m)
                      (push_frame-Collects s buffer.pts bytes v i (ground arith) (ground arith)
                        apart)
              ]
        ]
      ]
]

is_due-IsApart :
    (interval : ℕ) (before : Option ℕ) (p : ℕ)
    → is_due interval before p ≡ true
    → IsApart interval before (some p)
unfolding is_due
is_due-IsApart interval none p h = tt
is_due-IsApart interval (some q) p h = elim (Bool-cases (interval == 0)) [
  | inl z ↦ inl (ground arith)
  | inr z ↦ inr (ground arith)
]

is_selected-IsApart :
    (s : Settings) (pts : Option ℕ) (sampler : Sampler)
    → is_selected s pts sampler ≡ true
    → IsApart s.analysis_interval sampler.last_selected_pts pts
unfolding is_selected
is_selected-IsApart s none sampler h = tt
is_selected-IsApart s (some p) sampler h =
    is_due-IsApart s.analysis_interval sampler.last_selected_pts p h

-- One buffer more.
collect_batch-step :
    (buffer : Buffer) (s : Settings) (v : VlmAnalysis)
    → 1 ≤ s.frames_per_request
    → IsSampling s v.sampler
    → Collects s (collect_batch buffer s v)
unfolding collect_batch
collect_batch-step buffer s v h i =
    let v' = observe_pts buffer.pts v in
    let i' = observe_pts-IsSampling s buffer.pts v h i in
    elim (Bool-cases (is_selected s buffer.pts v'.sampler)) [
      | inl e ↦
          rw (collect_batch, e)
            (select-Collects s buffer v' i' (is_selected-IsApart s buffer.pts v'.sampler e))
      | inr e ↦ rw (collect_batch, e) (tt, i')
    ]

-- Buffers and resets in any order, with the batches that they complete.
abbrev pub batch_of : Option (List SelectedFrame) → List (List SelectedFrame)
batch_of none = []
batch_of (some frames) = frames ∷ []

unfoldable pub collect_all :
    Settings → List (Option Buffer) → VlmAnalysis → List (List SelectedFrame) × VlmAnalysis
unfolding collect_batch reset_generation
collect_all s [] v = ([], v)
collect_all s (none ∷ buffers) v = collect_all s buffers (reset_generation v)
collect_all s (some buffer ∷ buffers) v =
    let (batch, v') = collect_batch buffer s v in
    let (batches, v'') = collect_all s buffers v' in (batch_of batch ++ batches, v'')

batch_of-IsBatch :
    (s : Settings) (o : Option (List SelectedFrame)) → HasBatch s o → All (IsBatch s) (batch_of o)
batch_of-IsBatch s none h = tt
batch_of-IsBatch s (some frames) h = (h, tt)

collect_all-from :
    (s : Settings) (buffers : List (Option Buffer)) (v : VlmAnalysis)
    → 1 ≤ s.frames_per_request
    → IsSampling s v.sampler
    → let (batches, v') = collect_all s buffers v in
      All (IsBatch s) batches × IsSampling s v'.sampler
unfolding collect_all reset_generation
collect_all-from s [] v h i = (tt, i)
collect_all-from s (none ∷ buffers) v h i =
    collect_all-from s buffers (reset_generation v) h (default-IsSampling s h)
collect_all-from s (some buffer ∷ buffers) v h i =
    let (batch, v') = collect_batch buffer s v in
    let c : Collects s (batch, v') = collect_batch-step buffer s v h i in
    let (rest, last) = collect_all-from s buffers v' h c.1 in
    (All-append (IsBatch s) (batch_of batch) _ (batch_of-IsBatch s batch c.0) rest, last)

-- With settings that ask for a frame at least, from an empty sampler, whatever buffers and resets
-- come: every batch has exactly `frames_per_request` frames, each of at most `max_frame_bytes` and
-- all of at most `max_batch_bytes` bytes, and between two frames with timestamps that follow each
-- other there is at least `analysis_interval`, unless it is zero. What the sampler holds in the end
-- is fewer frames than a batch has, each within its limit, with their bytes counted.
pub collect_all-IsBatch :
    (s : Settings) (buffers : List (Option Buffer)) (v : VlmAnalysis)
    → 1 ≤ s.frames_per_request
    → v.sampler ≡ default_sampler
    → let (batches, v') = collect_all s buffers v in
      All (IsBatch s) batches × IsSampling s v'.sampler
collect_all-IsBatch s buffers v h e =
    collect_all-from s buffers v h (subst (IsSampling s) (sym e) (default-IsSampling s h))
