-- ===== src/Statsd/Worker/Run.antt =====
-- The thread of the worker and its handle: utils/statsd/src/worker.rs. What the system answers is a
-- parameter: whether the socket and the sink are made, and what each wait for the shutdown signal
-- ends with. What the rest of the program does to the metrics during a wait, and while the worker
-- takes retired series, are functions.
use Prim.Native.String.{String}
use gstsmith_rs.Prelude.{
  ℕ, Bool, true, false, Option, none, some, List, [], ◌∷◌, Result, ok, ◌>>◌, guard,
}
use gstsmith_rs.Statsd.State.{Metrics}
use gstsmith_rs.Statsd.Worker.{Client, ExportState, World}
use gstsmith_rs.Statsd.Worker.Snapshot.{QueueSnapshot, export_snapshot}

-- What `shutdown.recv_timeout(flush_interval)` returns.
pub data Received : Type 0 where
  shutdown timeout disconnected : Received

pub record Wait : Type 0 where
  pub received : Received
  pub meanwhile : Metrics → Metrics
  pub upgrade : ℕ → Option ℕ
  pub receiving : List (Metrics → Metrics)
  pub queues : List QueueSnapshot

-- The socket, its mode and the sink, in the order in which the thread makes them.
pub record Startup : Type 0 where
  pub binds : Bool
  pub is_nonblocking : Bool
  pub makes_sink : Bool

unfoldable pub start_export : Startup → Result String (Unit {0})
start_export s =
    guard s.binds "failed to bind StatsD UDP socket"
    >> (guard s.is_nonblocking "failed to make StatsD UDP socket nonblocking"
        >> guard s.makes_sink "failed to construct StatsD sink")

-- `finished` is false while the thread waits.
pub record Worker : Type 0 where
  pub metrics : Metrics
  pub state : ExportState
  pub world : World
  pub finished : Bool

module _ (client : Client) where
  unfoldable pub export_once : Wait → Worker → Worker
  unfolding export_snapshot
  export_once wait worker =
      let (m, s, w) =
        export_snapshot client wait.upgrade wait.receiving wait.queues
          (wait.meanwhile worker.metrics) worker.state worker.world in
      record worker { metrics = m; state = s; world = w }

  -- The loop of the thread. The last export comes after the signal, or after its sender is gone.
  unfoldable pub run : List Wait → Worker → Worker
  unfolding export_once
  run [] worker = worker
  run (wait ∷ waits) worker = elim wait.received [
    | timeout ↦ run waits (export_once wait worker)
    | shutdown ↦ record (export_once wait worker) { finished = true }
    | disconnected ↦ record (export_once wait worker) { finished = true }
  ]

-- `thread` is whether there is a thread to join, and `is_clean` whether it ended without a panic.
pub record WorkerHandle : Type 0 where
  pub thread : Option Bool
  pub running : Bool

unfoldable pub stop : WorkerHandle → Result String (Unit {0}) × WorkerHandle
stop handle = elim handle.thread [
  | none ↦ (ok tt, record handle { running = false })
  | some is_clean ↦ (
    guard is_clean "StatsD worker thread terminated unexpectedly",
    record { thread = none; running = false },
  )
]
