-- ===== src/Lines/LineParse.antt =====
-- text/lines/src/lineparse/imp.rs: the element `lineparse`. One call of a handler takes the answers
-- that GStreamer gives during it as a record, and returns the new element beside its result.
pub mod Scan
pub mod Calls
pub mod Bounds
pub mod Progress
pub mod Stream
pub mod Properties
use Prim.Native.String.{String}
use text.Mathlib.Text.{◌==◌ as str_eq}
use gstsmith_rs.Prelude.{
  ℕ, ◌+◌, ◌-◌, ◌≤◌, ◌<◌, min, Bool, true, false, not, ◌&&◌, List, [], ◌∷◌, ◌++◌, Option, none, some,
  ◌==◌, ltb, leb, if◌then◌else◌, length, take, drop, is_empty, u32_mod, u64_mod, try_below,
  checked_add, Result, ok, err, ◌>>=◌, ◌>>◌, guard, ok_or, map_err,
}
use gstsmith_rs.Lines.Delimiter.{Bytes, Find}

abbrev pub default_delimiter : Bytes
default_delimiter = b'\n' ∷ []

abbrev pub default_max_record_size : ℕ
default_max_record_size = 65_536

-- `max_record_size` is a `u32`.
pub record Settings : Type 0 where
  pub delimiter : Bytes
  pub max_record_size : ℕ
  pub omit_empty : Bool

abbrev pub default_settings : Settings
default_settings = record {
  delimiter = default_delimiter;
  max_record_size = default_max_record_size;
  omit_empty = false;
}

pub data FrameAction : Type 0 where
  finish : Bytes → ℕ → FrameAction
  drop_frame : ℕ → FrameAction
  need_more : FrameAction

pub data FlowError : Type 0 where
  not_linked flushing eos not_negotiated error not_supported : FlowError

-- Why a handler fails, by the message that it posts. `finish_failed` passes on the error that
-- `finish_frame` returned.
pub data Fault : Type 0 where
  no_buffer unreadable record_too_long size_overflow bad_boundary : Fault
  unterminated_too_long bound_exceeded empty_delimiter bad_lookahead flags_not_copied : Fault
  caps_refused : Fault
  finish_failed : FlowError → Fault

-- The error that `handle_frame` returns for it.
pub flow_error : Fault → FlowError
flow_error (finish_failed e) = e
flow_error caps_refused = not_negotiated
flow_error _ = error

pub data StartError : Type 0 where
  start_empty_delimiter delimiter_too_large bound_overflow : StartError

pub record Caps : Type 0 where
  pub media : String
  pub is_fixed : Bool

abbrev pub octet_stream : Caps
octet_stream = record { media = "application/octet-stream"; is_fixed = true }

-- A frame handed to `finish_frame`: its output buffer (none under the flag DROP), and the number of
-- input bytes that it takes.
pub record Frame : Type 0 where
  pub payload : Option Bytes
  pub consumed : ℕ

-- The element, with `min_frame_size` of its base class and what it has handed on, oldest first.
pub record LineParse : Type 0 where
  pub settings : Settings
  pub scan_offset : ℕ
  pub min_frame_size : ℕ
  pub pushed_caps : List Caps
  pub frames : List Frame

-- What GStreamer answers during one call of `handle_frame`.
pub record Call : Type 0 where
  pub buffer : Option Bytes
  pub readable : Bool
  pub has_current_caps : Bool
  pub upstream_caps : Caps
  pub accepts_caps : Bool
  pub draining : Bool
  pub copies_flags : Bool
  pub finishes : Result FlowError (Unit {0})

pub reset_scan_offset : LineParse → LineParse
reset_scan_offset e = record e { scan_offset = 0 }

pub set_min_frame_size : ℕ → LineParse → LineParse
set_min_frame_size n e = record e { min_frame_size = n }

-- `u32::try_from(delimiter.len())`, then `max_record_size.checked_add`.
unfoldable pub checked_lookahead : Settings → Result StartError ℕ
checked_lookahead s = do
  delimiter_len ← ok_or (try_below u32_mod (length s.delimiter)) delimiter_too_large
  ok_or (checked_add u32_mod s.max_record_size delimiter_len) bound_overflow

unfoldable pub find_delimiter : Find → Bytes → Bytes → ℕ → Option ℕ
find_delimiter find bytes delimiter offset =
    let starting_offset = min offset (length bytes) in
    elim (find (drop starting_offset bytes) delimiter) [
      | none ↦ none
      | some relative_position ↦ some (starting_offset + relative_position)
    ]

-- `frame_action` once the delimiter is found at index `record_len`.
unfoldable pub found_action : Settings → ℕ → Bytes → ℕ → Result Fault FrameAction
found_action s max_record_size bytes record_len = do
  guard (leb record_len max_record_size) record_too_long
  size ← ok_or (checked_add u64_mod record_len (length s.delimiter)) size_overflow
  consumed ← ok_or (try_below u32_mod size) size_overflow
  if record_len == 0 && s.omit_empty
      then ok (drop_frame consumed)
      else if leb record_len (length bytes)
      then ok (finish (take record_len bytes) consumed)
      else err bad_boundary

-- `frame_action` where no delimiter is found.
unfoldable pub missing_action : Bool → ℕ → ℕ → Bytes → Result Fault FrameAction
missing_action true max_record_size lookahead bytes =
    if is_empty bytes
    then ok need_more
    else if ltb max_record_size (length bytes)
    then err unterminated_too_long
    else ok_or (try_below u32_mod (length bytes)) size_overflow >>= λ consumed.
        ok (finish bytes consumed)
missing_action false max_record_size lookahead bytes =
    if leb lookahead (length bytes) then err bound_exceeded else ok need_more

-- Where the next search starts after one that found nothing.
abbrev pub next_offset : Bytes → Bytes → ℕ
next_offset bytes delimiter = length bytes - (length delimiter - 1)

-- The new scan offset stands beside the action.
unfoldable pub frame_action : Find → Call → Settings → ℕ → ℕ → ℕ → Result Fault FrameAction × ℕ
unfolding found_action missing_action
frame_action find c s max_record_size lookahead scan_offset = elim c.buffer [
  | none ↦ (err no_buffer, scan_offset)
  | some bytes ↦
      if c.readable
      then elim (find_delimiter find bytes s.delimiter (min scan_offset (length bytes))) [
        | some record_len ↦ (found_action s max_record_size bytes record_len, scan_offset)
        | none ↦ (
          missing_action c.draining max_record_size lookahead bytes,
          next_offset bytes s.delimiter,
        )
      ]
      else (err unreadable, scan_offset)
]

unfoldable pub set_sink_caps : Bool → Caps → LineParse → LineParse × Result Fault (Unit {0})
set_sink_caps accepts caps e =
    if caps.is_fixed
    then (
      record e { pushed_caps = e.pushed_caps ++ caps ∷ [] },
      if accepts then ok tt else err caps_refused,
    )
    else (e, ok tt)

-- The first step of `handle_frame`: an output without caps gets some.
unfoldable pub ensure_caps : Call → LineParse → LineParse × Result Fault (Unit {0})
unfolding set_sink_caps
ensure_caps c e =
    if c.has_current_caps
    then (e, ok tt)
    else set_sink_caps c.accepts_caps
        (if c.upstream_caps.is_fixed then c.upstream_caps else octet_stream) e

-- `finish_frame(frame, consumed)?`.
unfoldable pub finish_frame : Call → Frame → LineParse → LineParse × Result Fault (Unit {0})
finish_frame c f e = (record e { frames = e.frames ++ f ∷ [] }, map_err finish_failed c.finishes)

-- `next_size`, asked for under `NeedMore`.
unfoldable pub next_min_frame_size : ℕ → Option Bytes → ℕ
next_min_frame_size lookahead none = lookahead
next_min_frame_size lookahead (some bytes) = elim (checked_add u64_mod (length bytes) 1) [
  | none ↦ lookahead
  | some size ↦ elim (try_below u32_mod size) [ none ↦ lookahead | some n ↦ min n lookahead ]
]

-- The `match action` of `handle_frame`.
unfoldable pub perform : Call → ℕ → FrameAction → LineParse → LineParse × Result Fault (Unit {0})
unfolding finish_frame reset_scan_offset set_min_frame_size next_min_frame_size
perform c lookahead (finish payload consumed) e =
    let r = reset_scan_offset e in
    elim c.buffer [
      | none ↦ (r, err no_buffer)
      | some input ↦
          if c.copies_flags
          then finish_frame c (record { payload = some payload; consumed = consumed })
              (set_min_frame_size 1 r)
          else (r, err flags_not_copied)
    ]
perform c lookahead (drop_frame consumed) e =
    finish_frame c (record { payload = none; consumed = consumed })
      (set_min_frame_size 1 (reset_scan_offset e))
perform c lookahead need_more e =
    if c.draining
    then (e, ok tt)
    else (set_min_frame_size (next_min_frame_size lookahead c.buffer) e, ok tt)

-- Everything after the caps: the settings are read again at every frame.
unfoldable pub frame_steps : Find → Call → LineParse → LineParse × Result Fault (Unit {0})
unfolding frame_action perform
frame_steps find c e =
    if is_empty e.settings.delimiter
    then (e, err empty_delimiter)
    else elim (checked_lookahead e.settings) [
      | err _ ↦ (e, err bad_lookahead)
      | ok lookahead ↦
          let (action, offset) =
            frame_action find c e.settings e.settings.max_record_size lookahead e.scan_offset in
          let e' = record e { scan_offset = offset } in
          elim action [ err why ↦ (e', err why) | ok act ↦ perform c lookahead act e' ]
    ]

unfoldable pub handle_frame : Find → Call → LineParse → LineParse × Result Fault (Unit {0})
unfolding ensure_caps frame_steps
handle_frame find c e =
    let (e', capped) = ensure_caps c e in
    elim capped [ err why ↦ (e', err why) | ok _ ↦ frame_steps find c e' ]

unfoldable pub start : LineParse → LineParse × Result StartError (Unit {0})
unfolding reset_scan_offset set_min_frame_size checked_lookahead
start e =
    if is_empty e.settings.delimiter
    then (e, err start_empty_delimiter)
    else elim (checked_lookahead e.settings) [
      | err why ↦ (e, err why)
      | ok _ ↦ (set_min_frame_size 1 (reset_scan_offset e), ok tt)
    ]

unfoldable pub stop : LineParse → LineParse × Result StartError (Unit {0})
unfolding reset_scan_offset set_min_frame_size
stop e = (set_min_frame_size 1 (reset_scan_offset e), ok tt)

pub data Event : Type 0 where
  flush_stop stream_start other_event : Event

-- The probe that `constructed` puts on the sink pad.
unfoldable pub on_event : Event → LineParse → LineParse
unfolding reset_scan_offset set_min_frame_size
on_event other_event e = e
on_event _ e = set_min_frame_size 1 (reset_scan_offset e)
