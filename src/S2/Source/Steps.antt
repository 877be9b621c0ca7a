-- ===== src/S2/Source/Steps.antt =====
-- The calls of the base class and the sections of `create`: net/s2/src/s2src/imp.rs. What a read
-- session of the S2 client yields from a start is the parameter `read` of the attempt and of whether
-- command records are left out.
use gstsmith_rs.Prelude.{
  ℕ, ◌+◌, Bool, true, false, ◌&&◌, ◌||◌, Option, none, some, List, [], ◌∷◌, ◌++◌, if◌then◌else◌,
  length, ltb, ◌==◌, u64_mod,
}
use gstsmith_rs.S2.Config.{ValidatedConnection}
use gstsmith_rs.S2.Source.{
  SourceSettings, ReadFrom, ReadStart, configured_start, SequencedRecord, WorkerConfig, Failure,
  Phase, Reader, Worker, State, Creating, Element, Event, run_task, commit_delivered_cursor,
  from_seq_num, closed_unexpectedly, checking, opening, ended, stopped, started, idle, waiting,
  took, holding, source_started, stop, unlock, unlock_stop, begin, wait_cancelled, received,
  wait_closed, returned, failed, committed, task,
}

abbrev pub input_of : Option ReadFrom → ReadStart → ReadStart
input_of none configured = configured
input_of (some from) configured = record { from = from; clamp = false }

-- `last_delivered` with the next sequence number, none where there is no next one.
unfoldable pub resume_from : Option ℕ → Option (Option ReadFrom)
resume_from none = some none
resume_from (some last) =
    if ltb (last + 1) u64_mod then some (some (from_seq_num (last + 1))) else none

unfoldable pub put_reader : ℕ → Reader → (ℕ → Reader) → ℕ → Reader
put_reader token r readers n = if n == token then r else readers n

-- `create` takes the receiver of the worker. Without one the call fails.
unfoldable pub take_receiver : Option ℕ → Worker → WorkerConfig → Option ℕ → Element → Element
take_receiver none w config last e = record e { paused = true }
take_receiver (some channel) w config last e = record e {
  state = started (record w { receiver = none }) config last false;
  creating = waiting w.token channel;
}

unfoldable pub create_begin : State → Creating → Bool → Element → Element
unfolding take_receiver
create_begin (started w config last false) idle false e = take_receiver w.receiver w config last e
create_begin _ creating paused e = e

-- The wait takes a record from the channel.
unfoldable pub receive : List SequencedRecord → ℕ → ℕ → Element → Element
unfolding put_reader
receive [] token channel e = e
receive (x ∷ rest) token channel e = record e {
  readers = put_reader channel (record (e.readers channel) { channel = rest }) e.readers;
  creating = took token channel (some x);
}

abbrev pub is_ended : Phase → Bool
is_ended ended = true
is_ended _ = false

abbrev pub failure_of : Option Failure → Failure
failure_of none = closed_unexpectedly
failure_of (some f) = f

-- The wait ends without a record: on a cancelled token, or on a channel that is closed and empty.
unfoldable pub is_closed : Reader → Bool
is_closed r = (length r.channel == 0) && is_ended r.phase

unfoldable pub end_wait : Bool → ℕ → ℕ → Creating
end_wait true token channel = took token channel none
end_wait false token channel = waiting token channel

-- `create` behind its wait, neither flushing nor cancelled: a record is held, and without one the
-- failure of the worker that the state has now is posted, unless it was.
unfoldable pub create_return : Option SequencedRecord → ℕ → ℕ → Element → Element
unfolding put_reader
create_return (some x) token now e = record e { creating = holding token x }
create_return none token now e =
    let r = e.readers now in
    record e {
      creating = idle;
      paused = true;
      readers = put_reader now (record r { error_posted = true }) e.readers;
      messages = if r.error_posted then e.messages else e.messages ++ (failure_of r.failure ∷ []);
    }

-- The receiver goes to the worker that the state has now, whose it is or not.
unfoldable pub return_record : Option SequencedRecord → ℕ → ℕ → State → Element → Element
unfolding create_return
return_record o token channel stopped e = record e { creating = idle }
return_record o token channel (started w config last flushing) e =
    let back = record e {
      state = started (record w { receiver = some channel }) config last flushing;
    } in
    if flushing || (e.readers token).cancelled
    then record back { creating = idle }
    else create_return o token w.token back

unfoldable pub create_commit : SequencedRecord → ℕ → State → Element → Element
unfolding commit_delivered_cursor
create_commit x token stopped e = record e { creating = idle }
create_commit x token (started w config last flushing) e =
    if commit_delivered_cursor flushing w.token token (e.readers token).cancelled
    then record e {
      state = started w config (some x.seq_num) flushing;
      creating = idle;
      delivered = e.delivered ++ (x ∷ []);
    }
    else record e { creating = idle }

-- The token of a worker is cancelled, by `unlock` and by `stop_worker`. The task ends in an event of
-- its own.
unfoldable pub cancel : ℕ → (ℕ → Reader) → ℕ → Reader
unfolding put_reader
cancel token readers = put_reader token (record (readers token) { cancelled = true }) readers

unfoldable pub run_reader : ℕ → Reader × List Failure → Element → Element
unfolding put_reader
run_reader token (r, posts) e = record e {
  readers = put_reader token r e.readers;
  messages = e.messages ++ posts;
}

-- The base class calls `start`, `stop` and `unlock_stop` with no call of `create` in progress.
abbrev pub is_serial : Event → Creating → Bool
is_serial (source_started connection s caps) idle = true
is_serial (source_started connection s caps) _ = false
is_serial stop idle = true
is_serial stop _ = false
is_serial unlock_stop idle = true
is_serial unlock_stop _ = false
is_serial _ _ = true

-- What a session yields is `read` of the attempt, which is the token of its worker: the records of a
-- start by time or by tail depend on when the session is opened.
module _ (read : ℕ → ReadStart → Bool → List SequencedRecord) where
  unfoldable pub spawn_worker_with_start : ℕ → WorkerConfig → Option ReadFrom → Reader
  spawn_worker_with_start token config start_override =
      let input = input_of start_override config.start in
      record {
        input = input;
        capacity = config.connection.queue_capacity;
        phase = if input.clamp then opening else checking;
        channel = [];
        ahead = read token input config.ignore_command_records;
        cancelled = false;
        failure = none;
        error_posted = false;
      }

  -- The validated connection is none where the settings are refused.
  unfoldable pub start_source :
      Option ValidatedConnection → SourceSettings → Bool → Element → Element
  unfolding configured_start spawn_worker_with_start put_reader
  start_source (some connection) s true e =
      let config : WorkerConfig = record {
        connection = connection;
        start = configured_start s;
        ignore_command_records = s.ignore_command_records;
      } in
      record e {
        state = started (record { token = e.tokens; receiver = some e.tokens }) config none false;
        delivered = [];
        paused = false;
        tokens = e.tokens + 1;
        readers = put_reader e.tokens (spawn_worker_with_start e.tokens config none) e.readers;
      }
  start_source _ s _ e = e

  -- The worker is replaced by one behind the last record that was delivered, and stopped; without a
  -- next sequence number the call fails, and the old worker stays.
  unfoldable pub resume :
      Option (Option ReadFrom) → Worker → WorkerConfig → Option ℕ → Element → Element
  unfolding spawn_worker_with_start put_reader cancel
  resume none w config last e = record e { state = started w config last false }
  resume (some from) w config last e = record e {
    state = started (record { token = e.tokens; receiver = some e.tokens }) config last false;
    paused = false;
    tokens = e.tokens + 1;
    readers =
        put_reader e.tokens (spawn_worker_with_start e.tokens config from)
          (cancel w.token e.readers);
  }

  unfoldable pub step : Event → State → Creating → Element → Element
  unfolding start_source resume resume_from create_begin receive is_closed end_wait return_record
      create_commit run_task cancel run_reader
  step (source_started connection s caps) state creating e = start_source connection s caps e
  step stop (started w config last flushing) creating e = record e {
    state = stopped;
    readers = cancel w.token e.readers;
  }
  step unlock (started w config last flushing) creating e = record e {
    state = started w config last true;
    readers = cancel w.token e.readers;
  }
  step unlock_stop (started w config last flushing) creating e =
      resume (resume_from last) w config last e
  step begin state creating e = create_begin state creating e.paused e
  step wait_cancelled state (waiting token channel) e = record e {
    creating = end_wait (e.readers token).cancelled token channel;
  }
  step received state (waiting token channel) e =
      receive (e.readers channel).channel token channel e
  step wait_closed state (waiting token channel) e = record e {
    creating = end_wait (is_closed (e.readers channel)) token channel;
  }
  step returned state (took token channel o) e = return_record o token channel state e
  step failed state (holding token x) e = record e { creating = idle; paused = true }
  step committed state (holding token x) e = create_commit x token state e
  step (task token event) state creating e =
      let r = e.readers token in run_reader token (run_task event r.phase r) e
  step _ state creating e = e

  unfoldable pub run : List Event → Element → Element
  unfolding step
  run [] e = e
  run (event ∷ events) e = run events (step event e.state e.creating e)

  -- In the run `start`, `stop` and `unlock_stop` come only with no call of `create` in progress.
  unfoldable pub serial : List Event → Element → Bool
  unfolding step
  serial [] e = true
  serial (event ∷ events) e =
      is_serial event e.creating && serial events (step event e.state e.creating e)
