-- ===== src/Statsd/Worker/Tests.antt =====
-- Runs of the export on concrete inputs: utils/statsd/src/worker.rs.
use gstsmith_rs.Prelude.{
  ℕ, ◌≡◌, ◌%◌, refl, true, false, not, none, is_some, ◌&&◌, if◌then◌else◌, [], ◌∷◌, arith, codes,
  ◌==◌, u64_mod,
}
use gstsmith_rs.Statsd.State.{PadStats, new, lookup}
use gstsmith_rs.Statsd.Pads.Entries.{Distinct}
use gstsmith_rs.Statsd.Worker.{
  Client, ExportState, World, default_cursor, export_pad_counter, pad_line,
}
use gstsmith_rs.Statsd.Worker.Counters.{
  delivered, export_scrapes, delivered-export_scrapes, export_pad_counter-settles,
}
use gstsmith_rs.Statsd.Worker.Snapshot.{
  has_id, export_pads, receive_all, export_snapshot, snapshot_pads, put, export_pad_snapshot,
}
use gstsmith_rs.Statsd.Worker.Series.{
  last_with, or_else, lookup-snapshot_pads, export_pad_snapshot-is_current,
}
use gstsmith_rs.Statsd.Pipelines.{pipeline_snapshots}
use gstsmith_rs.Statsd.Worker.Run.{Wait, timeout, shutdown, Worker, run}

-- A client that refuses every third line.
abbrev flaky : Client
flaky = record { accepts = λ n. not (n == 2); flushes = true; now = λ n. n }

abbrev pad_a : PadStats
pad_a = record {
  id = 1;
  element = codes "a";
  pad = codes "src";
  buffers = 7;
  bytes = 70;
  interval = none;
}

abbrev pad_a_late : PadStats
pad_a_late = record pad_a { buffers = 9 }

abbrev pad_b : PadStats
pad_b = record pad_a { id = 2 }

abbrev quiet : World
quiet = record {
  export_emit_errors = 0;
  export_flush_errors = 0;
  error_log = record { failing = false; last_log = none; warnings = [] };
  given = 0;
  taken = [];
}

abbrev fresh_export : ExportState
fresh_export = record {
  pads = [];
  untracked = default_cursor;
  emit_errors = default_cursor;
  flush_errors = default_cursor;
  dropped = default_cursor;
}

-- The second line of the three was refused.
delivered-export_scrapes_example :
    delivered
        (export_pad_counter flaky "buffers" pad_a none 12
          (export_scrapes flaky "buffers" pad_a none ((5, 0) ∷ (9, 2) ∷ []) default_cursor quiet).0
          (record ((export_scrapes flaky "buffers" pad_a none
            ((5, 0) ∷ (9, 2) ∷ [])
            default_cursor
            quiet).1) { given = 4 })).1.taken
      % u64_mod
    ≡ 12
unfolding export_scrapes
delivered-export_scrapes_example =
    delivered-export_scrapes flaky "buffers" pad_a none ((5, 0) ∷ (9, 2) ∷ []) quiet 12 4 refl
      (omega arith) refl (omega arith)

refused_line :
    (export_scrapes flaky "buffers" pad_a none ((5, 0) ∷ (9, 2) ∷ []) default_cursor quiet).1.taken
    ≡ pad_line "buffers" pad_a none 5 ∷ []
unfolding export_scrapes
refused_line = refl

abbrev sure : Client
sure = record { accepts = λ n. true; flushes = true; now = λ n. n }

export_pad_counter-settles_example :
    export_pad_counter sure "buffers" pad_a none 5
      (export_pad_counter sure "buffers" pad_a none 5
        (export_pad_counter sure "buffers" pad_a none 5 default_cursor quiet).0
        (export_pad_counter sure "buffers" pad_a none 5 default_cursor quiet).1).0
      (export_pad_counter sure "buffers" pad_a none 5
        (export_pad_counter sure "buffers" pad_a none 5 default_cursor quiet).0
        (export_pad_counter sure "buffers" pad_a none 5 default_cursor quiet).1).1
    ≡ export_pad_counter sure "buffers" pad_a none 5
        (export_pad_counter sure "buffers" pad_a none 5 default_cursor quiet).0
        (export_pad_counter sure "buffers" pad_a none 5 default_cursor quiet).1
export_pad_counter-settles_example =
    export_pad_counter-settles sure "buffers" pad_a none 5 default_cursor quiet (λ n. refl)
      (omega arith) (omega arith) (omega arith)

lookup-snapshot_pads_example :
    Distinct (snapshot_pads (pad_a ∷ pad_b ∷ []) (pad_a_late ∷ []))
    × ((id : ℕ)
        → lookup id (snapshot_pads (pad_a ∷ pad_b ∷ []) (pad_a_late ∷ []))
          ≡ or_else (last_with id (pad_a_late ∷ [])) (last_with id (pad_a ∷ pad_b ∷ [])))
lookup-snapshot_pads_example = lookup-snapshot_pads (pad_a ∷ pad_b ∷ []) (pad_a_late ∷ [])

late_value :
    snapshot_pads (pad_a ∷ pad_b ∷ []) (pad_a_late ∷ []) ≡ (1, pad_a_late) ∷ (2, pad_b) ∷ []
unfolding snapshot_pads put
late_value = refl

export_pad_snapshot-is_current_example :
    let active = pad_a ∷ pad_b ∷ [] in
    let retired = pad_a_late ∷ [] in
    let exported = (export_pads sure (snapshot_pads active retired) [] quiet).0 in
    let left = (export_pad_snapshot sure active retired [] quiet).0 in
    (is_some (lookup 2 left) ≡ has_id 2 active && not (has_id 2 retired))
    × (lookup 2 left
        ≡ (if has_id 2 active && not (has_id 2 retired) then lookup 2 exported else none))
export_pad_snapshot-is_current_example =
    export_pad_snapshot-is_current sure (pad_a ∷ pad_b ∷ []) (pad_a_late ∷ []) [] quiet 2

abbrev waiting : Wait
waiting = record {
  received = timeout;
  meanwhile = λ m. m;
  upgrade = λ n. none;
  receiving = [];
  queues = [];
}

abbrev ending : Wait
ending = record {
  received = shutdown;
  meanwhile = λ m. record m { stats = pad_a ∷ []; retirement = 0 ∷ [] };
  upgrade = λ n. none;
  receiving = (λ m. record m { retirement = 0 ∷ 0 ∷ [] }) ∷ [];
  queues = [];
}

abbrev begun : Worker
begun = record {
  metrics = new none none 1 false;
  state = fresh_export;
  world = quiet;
  finished = false;
}

-- The last export takes what was retired before it, and what was retired while it took series.
run-ending : (run sure (waiting ∷ ending ∷ []) begun).metrics.retirement ≡ []
unfolding run export_snapshot receive_all pipeline_snapshots
run-ending = refl

receive_all-ending : (receive_all ending.receiving (ending.meanwhile begun.metrics)).0 ≡ 0 ∷ 0 ∷ []
unfolding receive_all
receive_all-ending = refl
