-- ===== src/Lines/LineParse/Bounds.antt =====
-- text/lines/src/lineparse/imp.rs: the limits on records, and when they are reported.
use native.Mathlib.Decide.{dec_lt}
use gstsmith_rs.Prelude.{
  suc, ℕ, ◌+◌, ◌≤◌, ◌<◌, ◌≡◌, sym, ap, ◌∙◌, inl, inr, false, some, ok, err, ◌++◌, arith, length,
  take, ◌↔◌, u32_mod, length-take, take_all, Option-cases, is_empty-false, length-pos, min, Bool,
  true,
}
use gstsmith_rs.Lines.Delimiter.{
  Bytes, Clear, FirstAt, Find, MemmemLaws, FirstAt-append, FirstAt-unique, starts_with-drop-append,
}
use gstsmith_rs.Lines.LineParse.{
  Settings, LineParse, Call, finish, Fault, frame_action, handle_frame, start, found_action,
  missing_action, find_delimiter,
}
use gstsmith_rs.Lines.LineParse.Scan.{occurrence_cases}
use gstsmith_rs.Lines.LineParse.Calls.{
  IsConfigured, IsSmooth, result, handle_frame_found, handle_frame_waits,
}

found_action_bounds :
    (s : Settings) (max_record_size p consumed : ℕ) (bytes payload : Bytes)
    → found_action s max_record_size bytes p ≡ ok (finish payload consumed)
    → (payload ≡ take p bytes)
      × (p ≤ max_record_size)
      × (p ≤ length bytes)
      × (consumed ≡ p + length s.delimiter)
      × (consumed < u32_mod)
unfolding found_action
found_action_bounds s max_record_size p consumed bytes payload h = ground arith

missing_action_bounds :
    (draining : Bool) (max_record_size lookahead consumed : ℕ) (bytes payload : Bytes)
    → missing_action draining max_record_size lookahead bytes ≡ ok (finish payload consumed)
    → (payload ≡ bytes)
      × (length bytes ≤ max_record_size)
      × (consumed ≡ length bytes)
      × (consumed < u32_mod)
unfolding missing_action
missing_action_bounds true max_record_size lookahead consumed bytes payload h = ground arith
missing_action_bounds false max_record_size lookahead consumed bytes payload h = ground arith

-- A record that `frame_action` accepts has at most `max-record-size` bytes, it is the start of the
-- buffered bytes, and the size that is consumed covers it and fits a `u32`, whatever the search
-- returned.
pub frame_action_bounds :
    (find : Find) (c : Call) (s : Settings) (lookahead offset offset' : ℕ) (bytes payload : Bytes)
    (consumed : ℕ)
    → c.buffer ≡ some bytes
    → frame_action find c s s.max_record_size lookahead offset
      ≡ (ok (finish payload consumed), offset')
    → (length payload ≤ s.max_record_size)
      × (payload ≡ take (length payload) bytes)
      × (length payload ≤ consumed)
      × (consumed < u32_mod)
unfolding frame_action
frame_action_bounds find c s lookahead offset offset' bytes payload consumed b h =
    elim (Option-cases (find_delimiter find bytes s.delimiter (min offset (length bytes)))) [
      | inr (p, found) ↦
          let (e, limit, inside, size, small) =
            found_action_bounds s s.max_record_size p consumed bytes payload (ground arith) in
          let len : length payload ≡ p = ground (arith, length-take p bytes) in
          (omega arith, rw len e, omega arith, small)
      | inl missing ↦
          let (e, limit, size, small) =
            missing_action_bounds c.draining s.max_record_size lookahead consumed bytes payload
              (ground arith) in
          let len : length payload ≡ length bytes = ap length e in
          (omega arith, e ∙ sym (take_all (length payload) bytes (omega arith)), omega arith, small)
    ]

module _ (find : Find) (laws : MemmemLaws find) (c : Call) (e : LineParse) (bytes : Bytes)
    (lookahead : ℕ) (v : IsConfigured e.settings lookahead) (smooth : IsSmooth c bytes)
    (scanned : Clear e.settings.delimiter bytes e.scan_offset) where
  -- A delimiter that still comes is behind more bytes than a record may have.
  handle_frame-err_late :
      (why : Fault) (more : Bytes) (p : ℕ)
      → c.draining ≡ false
      → result (handle_frame find c e) ≡ err why
      → FirstAt e.settings.delimiter (bytes ++ more) p
      → e.settings.max_record_size < p
  handle_frame-err_late why more p live h f =
      elim (occurrence_cases find laws bytes e.settings.delimiter) [
        | inr (q, g) ↦ elim (dec_lt e.settings.max_record_size q) [
          | yes long ↦
              let same =
                FirstAt-unique e.settings.delimiter (bytes ++ more) q p
                  (FirstAt-append e.settings.delimiter bytes more q v.nonempty g) f in
              omega arith
          | no short ↦ absurd (
              cc (
                h,
                (handle_frame_found find laws c e bytes lookahead v smooth scanned q g
                    (omega arith)).0,
              ))
        ]
        | inl a ↦ elim (dec_lt (length bytes) lookahead) [
          | yes room ↦ absurd (
              cc (
                h,
                (handle_frame_waits find laws c e bytes lookahead v smooth scanned a live room).0,
              ))
          | no full ↦ elim (dec_lt (length bytes) (p + length e.settings.delimiter)) [
            | yes past ↦ omega (arith, v.sum)
            | no inside ↦ absurd (
                cc (
                  a p,
                  f.0,
                  starts_with-drop-append e.settings.delimiter bytes more p (omega arith),
                ))
          ]
        ]
      ]

  -- Before the end of the stream, where GStreamer refuses nothing and no delimiter starts before the
  -- scan offset, a call fails only if the record that starts the buffer is over the limit: whatever
  -- input follows, if any, no delimiter starts in it or in the buffer at `max_record_size` or before.
  pub handle_frame-err-Clear :
      (why : Fault) (more : Bytes)
      → c.draining ≡ false
      → result (handle_frame find c e) ≡ err why
      → Clear e.settings.delimiter (bytes ++ more) (suc (e.settings.max_record_size))
  handle_frame-err-Clear why more live h q less =
      elim (occurrence_cases find laws (bytes ++ more) e.settings.delimiter) [
        | inl a ↦ a q
        | inr (p, f) ↦ let late = handle_frame-err_late why more p live h f in f.1 q (omega arith)
      ]

-- `start` accepts exactly the settings with a delimiter whose record limit and delimiter together
-- fit a `u32`.
pub start-ok :
    (e : LineParse)
    → ((start e).1 ≡ ok tt) ↔ (
        (0 < length e.settings.delimiter)
        × (e.settings.max_record_size + length e.settings.delimiter < u32_mod))
unfolding start
start-ok e = (
  λ h. ground (arith, length-pos e.settings.delimiter),
  λ h. ground (arith, is_empty-false e.settings.delimiter h.0, h.1),
)
