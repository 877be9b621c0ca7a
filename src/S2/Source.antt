-- ===== src/S2/Source.antt =====
-- The source, its settings, its worker and its reading task: net/s2/src/s2src/imp.rs.
pub mod Steps
pub mod Tasks
pub mod Follows
pub mod Creates
pub mod Runs
mod Tests
use Prim.Native.String.{String}
use gstsmith_rs.Prelude.{
  ℕ, ◌+◌, Bool, true, false, not, ◌&&◌, ◌||◌, Option, none, some, List, [], ◌∷◌, ◌++◌,
  if◌then◌else◌, length, is_some, ltb, ◌==◌, u64_mod, checked_add, Result, ok, err, Text,
}
use gstsmith_rs.S2.Config.{ConnectionSettings, ValidatedConnection, default_connection}

pub data StartMode : Type 0 where
  earliest sequence timestamp tail_offset : StartMode

pub record SourceSettings : Type 0 where
  pub connection : ConnectionSettings
  pub caps : Option Text
  pub start_mode : StartMode
  pub start_seq_num : ℕ
  pub start_timestamp : ℕ
  pub start_tail_offset : ℕ
  pub clamp_to_tail : Bool
  pub ignore_command_records : Bool

abbrev pub default_source : SourceSettings
default_source = record {
  connection = default_connection;
  caps = none;
  start_mode = earliest;
  start_seq_num = 0;
  start_timestamp = 0;
  start_tail_offset = 0;
  clamp_to_tail = false;
  ignore_command_records = false;
}

pub data ReadFrom : Type 0 where
  from_seq_num from_timestamp from_tail_offset : ℕ → ReadFrom

pub record ReadStart : Type 0 where
  pub from : ReadFrom
  pub clamp : Bool

-- The settings that the three modes carry a value of.
abbrev pub start_from : StartMode → SourceSettings → ReadFrom
start_from earliest s = from_seq_num 0
start_from sequence s = from_seq_num s.start_seq_num
start_from timestamp s = from_timestamp s.start_timestamp
start_from tail_offset s = from_tail_offset s.start_tail_offset

unfoldable pub configured_start : SourceSettings → ReadStart
configured_start s = record { from = start_from s.start_mode s; clamp = s.clamp_to_tail }

pub data StartFault : Type 0 where
  sequence_beyond_tail timestamp_beyond_tail : StartFault

unfoldable pub validate_start_against_tail : ReadFrom → ℕ → ℕ → Option StartFault
validate_start_against_tail (from_seq_num n) tail_seq_num tail_timestamp =
    if ltb tail_seq_num n then some sequence_beyond_tail else none
validate_start_against_tail (from_timestamp t) tail_seq_num tail_timestamp =
    if ltb tail_timestamp t then some timestamp_beyond_tail else none
validate_start_against_tail (from_tail_offset n) tail_seq_num tail_timestamp = none

pub record SequencedRecord : Type 0 where
  pub seq_num : ℕ
  pub body : List ℕ

pub record WorkerConfig : Type 0 where
  pub connection : ValidatedConnection
  pub start : ReadStart
  pub ignore_command_records : Bool

pub data Failure : Type 0 where
  client : String → Failure
  beyond_tail : StartFault → Failure
  session_ended closed_unexpectedly : Failure

-- Where the reading task is.
pub data Phase : Type 0 where
  checking opening reading ended : Phase

-- What a worker shares with its task: the cancellation token, the channel, the failure and the flag;
-- and of the task its phase, its input and, in `ahead`, what its session has not yielded yet.
pub record Reader : Type 0 where
  pub input : ReadStart
  pub capacity : ℕ
  pub phase : Phase
  pub channel : List SequencedRecord
  pub ahead : List SequencedRecord
  pub cancelled : Bool
  pub failure : Option Failure
  pub error_posted : Bool

-- `token` is which cancellation token, task, failure and flag are the worker's, `receiver` the channel
-- of its receiver, none while a call of `create` has it.
pub record Worker : Type 0 where
  pub token : ℕ
  pub receiver : Option ℕ

pub data State : Type 0 where
  stopped : State
  started : Worker → WorkerConfig → Option ℕ → Bool → State

-- A call of `create` in progress, with the token it cloned: it waits with the receiver of a channel,
-- has the outcome of the wait and the receiver, or holds a record that its buffer is made of.
pub data Creating : Type 0 where
  idle : Creating
  waiting : ℕ → ℕ → Creating
  took : ℕ → ℕ → Option SequencedRecord → Creating
  holding : ℕ → SequencedRecord → Creating

-- `delivered` are the records of the buffers that `create` returned since the start, `messages` the
-- errors that were posted, `readers` the workers' shared parts by their tokens, of which the first
-- `tokens` are in use. The base class pauses its task after an error: `paused`.
pub record Element : Type 0 where
  pub state : State
  pub creating : Creating
  pub delivered : List SequencedRecord
  pub paused : Bool
  pub tokens : ℕ
  pub readers : ℕ → Reader
  pub messages : List Failure

-- What a wait of the reading task ends with.
pub data TaskEvent : Type 0 where
  task_cancelled record_sent session_opened : TaskEvent
  tail_checked : ℕ → ℕ → TaskEvent
  task_failed : Failure → TaskEvent

-- A call of the base class, a section of `create` between its locks and its wait, or a task.
pub data Event : Type 0 where
  source_started : Option ValidatedConnection → SourceSettings → Bool → Event
  stop unlock unlock_stop : Event
  begin wait_cancelled received wait_closed returned failed committed : Event
  task : ℕ → TaskEvent → Event

-- What an error of the task does: the failure, and a message unless there was one.
unfoldable pub fail_task : Failure → Reader → Reader × List Failure
fail_task f r = (
  record r { phase = ended; failure = some f; error_posted = true },
  if r.error_posted then [] else f ∷ [],
)

-- A record is sent while the session is read and the channel has room.
unfoldable pub send_record : Phase → List SequencedRecord → Reader → Reader
send_record reading (x ∷ rest) r =
    if ltb (length r.channel) r.capacity
    then record r { channel = r.channel ++ (x ∷ []); ahead = rest }
    else r
send_record _ _ r = r

unfoldable pub check_start : Option StartFault → Reader → Reader × List Failure
unfolding fail_task
check_start none r = (record r { phase = opening }, [])
check_start (some fault) r = fail_task (beyond_tail fault) r

-- A task that has ended does nothing.
unfoldable pub run_task : TaskEvent → Phase → Reader → Reader × List Failure
unfolding fail_task send_record check_start validate_start_against_tail
run_task event ended r = (r, [])
run_task task_cancelled phase r = (if r.cancelled then record r { phase = ended } else r, [])
run_task record_sent phase r = (send_record phase r.ahead r, [])
run_task session_opened opening r = (record r { phase = reading }, [])
run_task session_opened phase r = (r, [])
run_task (tail_checked tail_seq_num tail_timestamp) checking r =
    check_start (validate_start_against_tail r.input.from tail_seq_num tail_timestamp) r
run_task (tail_checked tail_seq_num tail_timestamp) phase r = (r, [])
run_task (task_failed f) phase r = fail_task f r

-- `commit_delivered_cursor`: whether the record counts as delivered.
unfoldable pub commit_delivered_cursor : Bool → ℕ → ℕ → Bool → Bool
commit_delivered_cursor flushing worker_cancel create_cancel cancelled =
    not (flushing || not (worker_cancel == create_cancel) || cancelled)
