-- ===== src/Statsd/Worker.antt =====
-- The export of the metrics: utils/statsd/src/worker.rs. The client of the crate cadence is the
-- record `Client`: whether it takes the n-th line it is given, and what the clock reads then.
pub mod Snapshot
pub mod Counters
pub mod Series
pub mod Run
mod Tests
use Prim.Native.String.{String}
use gstsmith_rs.Prelude.{
  ℕ, suc, ◌+◌, ◌-◌, ◌^◌, ◌%◌, min, Bool, true, false, not, ◌&&◌, ◌||◌, Option, none, some, List, [],
  ◌∷◌, ◌++◌, leb, ◌==◌, if◌then◌else◌, Text, codes, wrapping_add64, u64_mod, replicate,
}
use gstsmith_rs.Statsd.Interval.{IntervalSnapshot, interval_buckets}
use gstsmith_rs.Statsd.State.{PadStats}

abbrev pub i64_max : ℕ
i64_max = 2 ^ 63 - 1

-- `a.wrapping_sub(b)` on a `u64`.
abbrev pub wrapping_sub64 : ℕ → ℕ → ℕ
wrapping_sub64 a b = (a + (u64_mod - b)) % u64_mod

-- A count, a gauge, or a gauge of an `f64` by its bits.
pub data Value : Type 0 where
  count gauge gauge_f64 : ℕ → Value

pub record Line : Type 0 where
  pub key : String
  pub value : Value
  pub tags : List (String × Text)

pub record Client : Type 0 where
  pub accepts : ℕ → Bool
  pub flushes : Bool
  pub now : ℕ → ℕ

pub record CounterCursor : Type 0 where
  pub value : ℕ
  pub was_active : Bool

abbrev pub default_cursor : CounterCursor
default_cursor = record { value = 0; was_active = false }

pub record IntervalCursor : Type 0 where
  pub buckets : List CounterCursor
  pub count : CounterCursor
  pub sum_ns : CounterCursor

abbrev pub default_interval_cursor : IntervalCursor
default_interval_cursor = record {
  buckets = replicate 9 default_cursor;
  count = default_cursor;
  sum_ns = default_cursor;
}

pub record PadCursor : Type 0 where
  pub buffers : CounterCursor
  pub bytes : CounterCursor
  pub interval : Option IntervalCursor

abbrev pub default_pad_cursor : PadCursor
default_pad_cursor = record { buffers = default_cursor; bytes = default_cursor; interval = none }

pub record ExportState : Type 0 where
  pub pads : List (ℕ × PadCursor)
  pub untracked : CounterCursor
  pub emit_errors : CounterCursor
  pub flush_errors : CounterCursor
  pub dropped : CounterCursor

-- `warnings` are the messages that were logged.
pub record ErrorLog : Type 0 where
  pub failing : Bool
  pub last_log : Option ℕ
  pub warnings : List String

-- What the export changes besides the cursors: the two counts of errors in `Metrics`, the log, how
-- many lines the client was given, and those that it took.
pub record World : Type 0 where
  pub export_emit_errors : ℕ
  pub export_flush_errors : ℕ
  pub error_log : ErrorLog
  pub given : ℕ
  pub taken : List Line

abbrev pub minute : ℕ
minute = 60_000_000_000

-- `last_log.is_none_or(...)`.
abbrev pub is_due : Option ℕ → ℕ → Bool
is_due none now = true
is_due (some last) now = leb minute (now - last)

unfoldable pub failure : ℕ → String → ErrorLog → ErrorLog
failure now message log =
    if not log.failing || is_due log.last_log now
    then record { failing = true; last_log = some now; warnings = log.warnings ++ message ∷ [] }
    else record log { failing = true }

unfoldable pub recovery : ErrorLog → ErrorLog
recovery log = if log.failing then record log { failing = false; last_log = none } else log

-- Whether a failed line of a diagnostic counter counts as a failure.
pub data InternalFailurePolicy : Type 0 where
  count_and_log suppress_recursion : InternalFailurePolicy

abbrev pub bound_tag : Option Text → List (String × Text)
bound_tag none = []
bound_tag (some bound) = ("le_ms", bound) ∷ []

-- The line of a counter of a pad.
abbrev pub pad_line : String → PadStats → Option Text → ℕ → Line
pad_line key pad bound amount = record {
  key = key;
  value = count amount;
  tags = ("element", pad.element) ∷ ("pad", pad.pad) ∷ bound_tag bound;
}

-- The line of a diagnostic counter.
abbrev pub internal_line : String → Text → ℕ → Line
internal_line key reason amount = record {
  key = key;
  value = count amount;
  tags = ("reason", reason) ∷ [];
}

module _ (client : Client) where
  abbrev pub accepted : World → Bool
  accepted w = client.accepts w.given

  -- `try_send`: whether the client takes the line is `accepted`.
  unfoldable pub try_send : Line → World → World
  try_send line w =
      if accepted w
      then record w { given = suc (w.given); taken = w.taken ++ line ∷ [] }
      else record w { given = suc (w.given) }

  -- The count and the log of a line that was not taken.
  unfoldable pub count_failure : String → World → World
  unfolding failure
  count_failure message w = record w {
    export_emit_errors = wrapping_add64 w.export_emit_errors 1;
    error_log = failure (client.now w.given) message w.error_log;
  }

  -- The cursor behind a line that was taken.
  unfoldable pub advance : ℕ → CounterCursor → CounterCursor
  advance delta cursor = record {
    value = wrapping_add64 cursor.value (min delta i64_max);
    was_active = not (delta == 0);
  }

  -- A count is sent for the difference to the cursor, and once more for none. `on_failure` is what
  -- is done where the client does not take the line.
  unfoldable pub export_count :
      (World → World) → (ℕ → Line) → ℕ → CounterCursor → World → CounterCursor × World
  unfolding try_send advance
  export_count on_failure line current cursor w =
      let delta = wrapping_sub64 current cursor.value in
      if delta == 0 && not cursor.was_active
      then (cursor, w)
      else let w' = try_send (line (min delta i64_max)) w in
        if accepted w then (advance delta cursor, w') else (cursor, on_failure w')

  unfoldable pub export_pad_counter :
      String → PadStats → Option Text → ℕ → CounterCursor → World → CounterCursor × World
  unfolding export_count count_failure
  export_pad_counter key pad bound =
      export_count (count_failure "StatsD counter emission failed") (pad_line key pad bound)

  abbrev pub apply_policy : InternalFailurePolicy → World → World
  apply_policy count_and_log w = count_failure "StatsD internal counter emission failed" w
  apply_policy suppress_recursion w = w

  unfoldable pub export_internal :
      String → Text → InternalFailurePolicy → ℕ → CounterCursor → World → CounterCursor × World
  unfolding export_count count_failure
  export_internal key reason policy = export_count (apply_policy policy) (internal_line key reason)

  -- `zip` of the buckets and their cursors.
  unfoldable pub export_buckets :
      PadStats → List (ℕ × Text) → List ℕ → List CounterCursor → World → List CounterCursor × World
  unfolding export_pad_counter
  export_buckets pad (b ∷ bounds) (current ∷ currents) (cursor ∷ cursors) w =
      let (cursor', w₁) =
        export_pad_counter "gstreamer.pad.push_interval.bucket" pad (some b.1) current cursor w in
      let (cursors', w₂) = export_buckets pad bounds currents cursors w₁ in (cursor' ∷ cursors', w₂)
  export_buckets pad _ _ cursors w = (cursors, w)

  unfoldable pub export_interval :
      PadStats → IntervalSnapshot → IntervalCursor → World → IntervalCursor × World
  unfolding export_buckets export_pad_counter
  export_interval pad snapshot cursor w =
      let (buckets, w₁) = export_buckets pad interval_buckets snapshot.buckets cursor.buckets w in
      let (counted, w₂) =
        export_pad_counter "gstreamer.pad.push_interval.count" pad none snapshot.count cursor.count
          w₁ in
      let (sum_ns, w₃) =
        export_pad_counter "gstreamer.pad.push_interval.sum_ns" pad none snapshot.sum_ns
          cursor.sum_ns w₂ in
      (record { buckets = buckets; count = counted; sum_ns = sum_ns }, w₃)

  -- `get_or_insert_with(Default::default)`.
  abbrev pub or_default : Option IntervalCursor → IntervalCursor
  or_default none = default_interval_cursor
  or_default (some cursor) = cursor

  unfoldable pub export_pad : PadStats → PadCursor → World → PadCursor × World
  unfolding export_pad_counter export_interval
  export_pad pad cursor w =
      let (buffers, w₁) =
        export_pad_counter "gstreamer.pad.push_buffers" pad none pad.buffers cursor.buffers w in
      let (bytes, w₂) =
        export_pad_counter "gstreamer.pad.push_bytes" pad none pad.bytes cursor.bytes w₁ in
      elim pad.interval [
        | none ↦ (record cursor { buffers = buffers; bytes = bytes }, w₂)
        | some i ↦
            let (interval, w₃) = export_interval pad i.data_ (or_default cursor.interval) w₂ in
            (record { buffers = buffers; bytes = bytes; interval = some interval }, w₃)
      ]
