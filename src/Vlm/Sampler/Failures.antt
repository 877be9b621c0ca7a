-- ===== src/Vlm/Sampler/Failures.antt =====
-- When a selected buffer is refused: analytics/vlm/src/vlmanalysis/imp.rs, `collect_batch`.
use native.Mathlib.Nat.{suc-mul, mul-le-mul_right}
use gstsmith_rs.Prelude.{
  Bool-cases, Option-cases, suc, ◌+◌, ◌*◌, ◌≤◌, ◌<◌, ◌≡◌, inl, inr, refl, false, not, ◌||◌, Option,
  none, some, List, [], ◌∷◌, ltb, if◌then◌else◌, length, All, u64_mod, arith,
}
use gstsmith_rs.Vlm.Settings.{Settings}
use gstsmith_rs.Vlm.Config.Limits.{HasLimits}
use gstsmith_rs.Vlm.Sampler.{
  Bytes, SelectedFrame, VlmAnalysis, Buffer, post_input_error, push_frame, select,
}
use gstsmith_rs.Vlm.Sampler.Batches.{total, IsSmall, IsSampling}

total-le :
    (s : Settings) (fs : List SelectedFrame)
    → All (IsSmall s) fs
    → total fs ≤ length fs * s.max_frame_bytes
total-le s [] h = omega arith
total-le s (f ∷ fs) h =
    let ih = total-le s fs h.1 in
    let small = h.0 in let product = suc-mul (length fs) s.max_frame_bytes in omega arith

fits :
    (s : Settings) (v : VlmAnalysis) (bytes : Bytes)
    → HasLimits s
    → IsSampling s v.sampler
    → length bytes ≤ s.max_frame_bytes
    → v.sampler.bytes + length bytes ≤ s.max_batch_bytes
fits s v bytes l i small =
    let m = s.max_frame_bytes in
    let sum = total-le s v.sampler.frames i.is_small in
    let product = suc-mul (length v.sampler.frames) m in
    let room : suc (length v.sampler.frames) ≤ s.frames_per_request =
      let r = i.has_room in omega arith in
    let most = mul-le-mul_right m room in
    let frames = l.frames_fit in let counted = i.is_counted in omega arith

-- A selected buffer with the two checks that are left.
abbrev pub select_plain :
    Settings → Buffer → VlmAnalysis → Option (List SelectedFrame) × VlmAnalysis
select_plain s buffer v = elim buffer.data_ [
  | none ↦ (none, post_input_error "failed to read selected JPEG buffer" v)
  | some bytes ↦
      if ltb s.max_frame_bytes (length bytes)
      then (none, post_input_error "selected JPEG exceeds max-frame-bytes" v)
      else push_frame s buffer.pts bytes v
]

-- With settings that the element starts with and a buffer of less than 2^64 bytes, a selected buffer is refused only if it cannot be
-- read or is larger than `max_frame_bytes`: the checks of the size's type and of `max_batch_bytes`
-- never fail.
pub select-select_plain :
    (s : Settings) (buffer : Buffer) (v : VlmAnalysis)
    → HasLimits s
    → IsSampling s v.sampler
    → ((bytes : Bytes) → buffer.data_ ≡ some bytes → length bytes < u64_mod)
    → select s buffer v ≡ select_plain s buffer v
unfolding select
select-select_plain s buffer v l i sizes = elim (Option-cases buffer.data_) [
  | inl n ↦ rw (select, n) refl
  | inr (bytes, d) ↦
      let size = length bytes in
      let next = v.sampler.bytes + size in
      let batch = l.small_batch in
      let a : not (ltb size u64_mod) ≡ false = let h = sizes bytes d in ground arith in
      elim (Bool-cases (ltb s.max_frame_bytes size)) [
        | inl e ↦ rw (select, d, a, e) refl
        | inr e ↦
            let fit = fits s v bytes l i (ground arith) in
            let b : (not (ltb next u64_mod) || ltb s.max_batch_bytes next) ≡ false = ground arith in
            rw (select, d, a, e, b) refl
      ]
]
