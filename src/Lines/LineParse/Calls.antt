-- ===== src/Lines/LineParse/Calls.antt =====
-- text/lines/src/lineparse/imp.rs: one call of `handle_frame` in which GStreamer refuses nothing,
-- by what the buffered bytes hold.
use gstsmith_rs.Prelude.{
  ℕ, zero, suc, ◌+◌, ◌≤◌, ◌<◌, ◌≡◌, refl, ap, ◌∙◌, true, false, ◌++◌, ◌∷◌, [], none, some, arith,
  length, take, List, ok, err, Result, is_empty, if◌then◌else◌, ◌&&◌, u32_mod, length-take, ◌==◌,
  is_empty-false,
}
use gstsmith_rs.Lines.Delimiter.{Bytes, Clear, Absent, FirstAt, Find, MemmemLaws, Occurs-bound}
use gstsmith_rs.Lines.LineParse.{
  Settings, Caps, LineParse, Call, Frame, FrameAction, finish, drop_frame, need_more, Fault,
  record_too_long, unterminated_too_long, bound_exceeded, checked_lookahead, found_action,
  missing_action, next_offset, frame_action, ensure_caps, frame_steps, perform, handle_frame,
}
use gstsmith_rs.Lines.LineParse.Scan.{frame_action_found, frame_action_missing}

-- The settings that `start` accepts.
pub record IsConfigured (s : Settings) (lookahead : ℕ) : Type 0 where
  pub nonempty : 0 < length s.delimiter
  pub sum : lookahead ≡ s.max_record_size + length s.delimiter
  pub small : lookahead < u32_mod

pub checked_lookahead-IsConfigured :
    (s : Settings) (lookahead : ℕ)
    → 0 < length s.delimiter
    → checked_lookahead s ≡ ok lookahead
    → IsConfigured s lookahead
unfolding checked_lookahead
checked_lookahead-IsConfigured s lookahead h e = ground arith

pub IsConfigured-checked_lookahead :
    (s : Settings) (lookahead : ℕ) → IsConfigured s lookahead → checked_lookahead s ≡ ok lookahead
unfolding checked_lookahead
IsConfigured-checked_lookahead s lookahead v = ground arith

-- A call with the buffered bytes in which GStreamer refuses nothing.
pub record IsSmooth (c : Call) (bytes : Bytes) : Type 0 where
  pub buffered : c.buffer ≡ some bytes
  pub readable : c.readable ≡ true
  pub accepts : c.accepts_caps ≡ true
  pub copies : c.copies_flags ≡ true
  pub finishes : c.finishes ≡ ok tt

-- The frame that a record becomes.
unfoldable pub frame_of : Settings → Bytes → Frame
frame_of s r = record {
  payload = if is_empty r && s.omit_empty then none else some r;
  consumed = length r + length s.delimiter;
}

-- The element after a frame.
pub record Framed (e e' : LineParse) (f : Frame) : Type 0 where
  pub frames : e'.frames ≡ e.frames ++ f ∷ []
  pub offset : e'.scan_offset ≡ 0
  pub least : e'.min_frame_size ≡ 1
  pub kept : e'.settings ≡ e.settings

-- The element after a call that waits for more than the buffered bytes.
pub record Waiting (e e' : LineParse) (bytes : Bytes) : Type 0 where
  pub same_frames : e'.frames ≡ e.frames
  pub next : e'.scan_offset ≡ next_offset bytes e.settings.delimiter
  pub wants : e'.min_frame_size ≡ suc (length bytes)
  pub unchanged : e'.settings ≡ e.settings

abbrev pub after : LineParse × Result Fault (Unit {0}) → LineParse
after r = r.0

abbrev pub result : LineParse × Result Fault (Unit {0}) → Result Fault (Unit {0})
result r = r.1

ensure_caps-ok :
    (c : Call) (e : LineParse) (bytes : Bytes)
    → IsSmooth c bytes
    → (caps : List Caps) × (ensure_caps c e ≡ (record e { pushed_caps = caps }, ok tt))
unfolding ensure_caps
ensure_caps-ok c e bytes v = ((ensure_caps c e).0.pushed_caps, ground arith)

found_action-ok :
    (s : Settings) (bytes : Bytes) (lookahead p : ℕ)
    → IsConfigured s lookahead
    → FirstAt s.delimiter bytes p
    → p ≤ s.max_record_size
    → found_action s s.max_record_size bytes p
      ≡ ok (
          if p == 0 && s.omit_empty
          then drop_frame (p + length s.delimiter)
          else finish (take p bytes) (p + length s.delimiter))
unfolding found_action
found_action-ok s bytes lookahead p v f h =
    ground (arith, Occurs-bound s.delimiter bytes p v.nonempty f.0)

-- What `frame_steps` makes of the action.
abbrev acted : Call → ℕ → LineParse → Result Fault FrameAction → LineParse × Result Fault (Unit {0})
acted c lookahead e (err why) = (e, err why)
acted c lookahead e (ok act) = perform c lookahead act e

frame_steps-acted :
    (find : Find) (c : Call) (e : LineParse) (lookahead : ℕ) (a : Result Fault FrameAction)
    (offset : ℕ)
    → IsConfigured e.settings lookahead
    → frame_action find c e.settings e.settings.max_record_size lookahead e.scan_offset
      ≡ (a, offset)
    → frame_steps find c e ≡ acted c lookahead (record e { scan_offset = offset }) a
unfolding frame_steps
frame_steps-acted find c e lookahead a offset v h = ground (
  arith,
  is_empty-false e.settings.delimiter v.nonempty,
  IsConfigured-checked_lookahead e.settings lookahead v,
)

is_empty-take : (bytes : Bytes) (p : ℕ) → p ≤ length bytes → is_empty (take p bytes) ≡ (p == 0)
is_empty-take bytes zero h = refl
is_empty-take [] (suc p) h = absurd (omega arith)
is_empty-take (x ∷ bytes) (suc p) h = ground arith

frame_of-take :
    (s : Settings) (bytes : Bytes) (p : ℕ)
    → p ≤ length bytes
    → frame_of s (take p bytes) ≡ record {
      payload = if p == 0 && s.omit_empty then none else some (take p bytes);
      consumed = p + length s.delimiter;
    }
unfolding frame_of
frame_of-take s bytes p h = ground (arith, is_empty-take bytes p h, length-take p bytes)

-- The frame at the end of a call goes on whole.
perform-Framed :
    (c : Call) (bytes : Bytes) (lookahead p : ℕ) (e : LineParse)
    → IsSmooth c bytes
    → p ≤ length bytes
    → let r = acted c lookahead e (
        ok (
          if p == 0 && e.settings.omit_empty
          then drop_frame (p + length e.settings.delimiter)
          else finish (take p bytes) (p + length e.settings.delimiter))) in
      (result r ≡ ok tt) × Framed e (after r) (frame_of e.settings (take p bytes))
unfolding perform
perform-Framed c bytes lookahead p e v h = ground (arith, frame_of-take e.settings bytes p h)

handle_frame_steps :
    (find : Find) (c : Call) (e : LineParse) (bytes : Bytes)
    → IsSmooth c bytes
    → (caps : List Caps) × (handle_frame find c e
        ≡ frame_steps find c (record e { pushed_caps = caps }))
unfolding handle_frame
handle_frame_steps find c e bytes v =
    let (caps, h) = ensure_caps-ok c e bytes v in (caps, ground (arith, h))

module _ (find : Find) (laws : MemmemLaws find) (c : Call) (e : LineParse) (bytes : Bytes)
    (lookahead : ℕ) (v : IsConfigured e.settings lookahead) (smooth : IsSmooth c bytes)
    (scanned : Clear e.settings.delimiter bytes e.scan_offset) where
  handle_frame-acted :
      (a : Result Fault FrameAction) (offset : ℕ)
      → frame_action find c e.settings e.settings.max_record_size lookahead e.scan_offset
        ≡ (a, offset)
      → (caps : List Caps) × (handle_frame find c e
          ≡ acted c lookahead (record e { pushed_caps = caps; scan_offset = offset }) a)
  handle_frame-acted a offset h =
      let (caps, steps) = handle_frame_steps find c e bytes smooth in
      (
        caps,
        steps ∙ frame_steps-acted find c (record e { pushed_caps = caps }) lookahead a offset v h,
      )

  -- A record within the limit is handed on, draining or not.
  pub handle_frame_found :
      (p : ℕ)
      → FirstAt e.settings.delimiter bytes p
      → p ≤ e.settings.max_record_size
      → let r = handle_frame find c e in
        (result r ≡ ok tt) × Framed e (after r) (frame_of e.settings (take p bytes))
  handle_frame_found p f h =
      let (caps, steps) = handle_frame-acted _ e.scan_offset (
        frame_action_found find laws c e.settings bytes e.settings.max_record_size lookahead
          e.scan_offset p smooth.buffered smooth.readable scanned f
        ∙ ap (λ a. (a, e.scan_offset)) (found_action-ok e.settings bytes lookahead p v f h)) in
      let inside : p ≤ length bytes =
        omega (arith, Occurs-bound e.settings.delimiter bytes p v.nonempty f.0) in
      let (fine, g) =
        perform-Framed c bytes lookahead p (record e { pushed_caps = caps }) smooth inside in
      rw steps
        (fine, record { frames = g.frames; offset = g.offset; least = g.least; kept = g.kept })

  -- A record over the limit is refused, and nothing is handed on.
  pub handle_frame_too_long :
      (p : ℕ)
      → FirstAt e.settings.delimiter bytes p
      → e.settings.max_record_size < p
      → let r = handle_frame find c e in
        (result r ≡ err record_too_long) × ((after r).frames ≡ e.frames)
  unfolding found_action
  handle_frame_too_long p f h =
      let (caps, steps) = handle_frame-acted (err record_too_long) e.scan_offset (
        frame_action_found find laws c e.settings bytes e.settings.max_record_size lookahead
          e.scan_offset p smooth.buffered smooth.readable scanned f
        ∙ ground arith) in
      rw steps (refl, refl)

  module _ (absent : Absent e.settings.delimiter bytes) where
    missing_acted :
        (a : Result Fault FrameAction)
        → missing_action c.draining e.settings.max_record_size lookahead bytes ≡ a
        → (caps : List Caps) × (handle_frame find c e
            ≡ acted c lookahead
                (record e {
                  pushed_caps = caps;
                  scan_offset = next_offset bytes e.settings.delimiter;
                })
                a)
    missing_acted a h = handle_frame-acted a (next_offset bytes e.settings.delimiter) (
        frame_action_missing find laws c e.settings bytes e.settings.max_record_size lookahead
          e.scan_offset smooth.buffered smooth.readable scanned absent
        ∙ ap (λ b. (b, next_offset bytes e.settings.delimiter)) h)

    -- Without a delimiter the element waits, and asks for one byte more than it was given.
    pub handle_frame_waits :
        c.draining ≡ false
        → length bytes < lookahead
        → let r = handle_frame find c e in (result r ≡ ok tt) × Waiting e (after r) bytes
    unfolding missing_action perform
    handle_frame_waits live room =
        let (caps, steps) = missing_acted (ok need_more) (ground arith) in
        rw steps (ground (arith, v.small, smooth.buffered))

    -- Without a delimiter, and with more than a record may take, it gives up.
    pub handle_frame_exceeded :
        c.draining ≡ false
        → lookahead ≤ length bytes
        → let r = handle_frame find c e in
          (result r ≡ err bound_exceeded) × ((after r).frames ≡ e.frames)
    unfolding missing_action
    handle_frame_exceeded live full =
        let (caps, steps) = missing_acted (err bound_exceeded) (ground arith) in
        rw steps (refl, refl)

    -- At the end of the stream what is left is a record.
    pub handle_frame_drained :
        c.draining ≡ true
        → 0 < length bytes
        → length bytes ≤ e.settings.max_record_size
        → let r = handle_frame find c e in
          (result r ≡ ok tt)
          × Framed e (after r) (record { payload = some bytes; consumed = length bytes })
    unfolding missing_action perform
    handle_frame_drained drains some_left short =
        let (caps, steps) =
          missing_acted (ok (finish bytes (length bytes)))
            (ground (arith, is_empty-false bytes some_left, v.small, v.sum)) in
        rw steps (ground (arith, smooth.buffered, smooth.copies, smooth.finishes))

    pub handle_frame_unterminated :
        c.draining ≡ true
        → e.settings.max_record_size < length bytes
        → let r = handle_frame find c e in
          (result r ≡ err unterminated_too_long) × ((after r).frames ≡ e.frames)
    unfolding missing_action
    handle_frame_unterminated drains long =
        let (caps, steps) =
          missing_acted (err unterminated_too_long)
            (ground (arith, is_empty-false bytes (omega arith))) in
        rw steps (refl, refl)
