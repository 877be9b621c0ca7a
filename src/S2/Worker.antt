-- ===== src/S2/Worker.antt =====
-- The worker of the sink: net/s2/src/s2sink/imp.rs, `append_worker` and the task that runs it. The
-- producer of the S2 client is a parameter, by what it answers: that a flush or a close that
-- succeeds confirms all records that were submitted is what its documentation says, and `durable`
-- counts the records that are confirmed so.
pub mod Barrier
use Prim.Native.String.{String}
use gstsmith_rs.Prelude.{
  ℕ, Bool, true, false, Option, none, some, List, [], ◌∷◌, ◌++◌, if◌then◌else◌, length,
}
use gstsmith_rs.S2.Queue.{
  AppendRecord, SharedQueue, QueueState, Attempt, stored, waits, refused, enqueue_record,
  request_drain, poll_drain, close, store_failure, claim_error_post, finish, complete_drain,
  set_flushing,
}

-- Where the worker is: at the head of its loop, in one of its waits, or behind it.
pub data Phase : Type 0 where
  idle waiting closing awaiting finishing ended : Phase
  submitting : AppendRecord → Phase
  draining : ℕ → Phase
  failing : String → Phase

-- `submitted` are the records that the producer took, `accepted` those that the queue took, and
-- `joined` the drains with the count of records that were accepted before.
pub record System : Type 0 where
  pub queue : SharedQueue
  pub phase : Phase
  pub accepted : List AppendRecord
  pub submitted : List AppendRecord
  pub durable : ℕ
  pub joined : List (ℕ × ℕ)

-- The queue behind what the worker takes from it: a record, or the drain if there is none.
unfoldable pub take_next : List AppendRecord → SharedQueue → SharedQueue
take_next [] q = record q { state = record (q.state) { drain = none } }
take_next (r ∷ rest) q = record q { state = record (q.state) { records = rest } }

-- What the worker goes on with, by the records, whether the queue accepts, and the drain.
unfoldable pub next_phase : List AppendRecord → Bool → Option ℕ → Phase
next_phase (r ∷ rest) accepting drain = submitting r
next_phase [] false drain = closing
next_phase [] true none = waiting
next_phase [] true (some flag) = draining flag

-- What happens next: a call of the element, or what the worker's wait ends with. `answer` is none
-- if the producer, a ticket or the cancellation ends it with an error.
pub data Event : Type 0 where
  rendered : AppendRecord → Event
  unlocked : Bool → Event
  closed : Event
  requested : Event
  polled : ℕ → Bool → Event
  turned : Event
  answered : Option String → Event

-- An answer that the worker waits for, without an error.
unfoldable pub succeed : Phase → System → System
unfolding complete_drain finish
succeed idle y = y
succeed waiting y = record y { phase = idle }
succeed (submitting r) y = record y { phase = idle; submitted = y.submitted ++ r ∷ [] }
succeed (draining flag) y = record y {
  phase = idle;
  queue = complete_drain flag y.queue;
  durable = length y.submitted;
}
succeed closing y = record y { phase = awaiting; durable = length y.submitted }
succeed awaiting y = record y { phase = finishing }
succeed (failing detail) y = y
succeed finishing y = y
succeed ended y = y

-- An answer with an error, or the client that could not be made: an error before the first record is
-- one at the head of the loop.
unfoldable pub fail : String → Phase → System → System
fail detail (failing old) y = y
fail detail finishing y = y
fail detail ended y = y
fail detail _ y = record y { phase = failing detail }

-- A step of the worker that waits for nothing.
unfoldable pub turn : Phase → System → System
unfolding take_next next_phase store_failure claim_error_post finish
turn idle y =
    let records = y.queue.state.records in
    record y {
      queue = take_next records y.queue;
      phase = next_phase records y.queue.state.accepting y.queue.state.drain;
    }
turn (failing detail) y = record y {
  queue = (claim_error_post (store_failure detail y.queue)).1;
  phase = finishing;
}
turn finishing y = record y { queue = finish y.queue; phase = ended }
turn _ y = y

-- The record is accepted where it is stored.
abbrev pub accept : AppendRecord → Attempt → List AppendRecord → List AppendRecord
accept r stored accepted = accepted ++ r ∷ []
accept r waits accepted = accepted
accept r (refused e) accepted = accepted

unfoldable pub step : Event → System → System
unfolding enqueue_record request_drain poll_drain close set_flushing turn succeed fail
step (rendered r) y =
    let (attempt, queue) = enqueue_record r y.queue in
    record y { queue = queue; accepted = accept r attempt y.accepted }
step (unlocked flushing) y = record y { queue = set_flushing flushing y.queue }
step closed y = record y { queue = close y.queue }
step requested y =
    let (flag, queue) = request_drain y.queue in
    record y { queue = queue; joined = (flag, length y.accepted) ∷ y.joined }
step (polled flag late) y = record y { queue = (poll_drain flag late y.queue).1 }
step turned y = turn y.phase y
step (answered none) y = succeed y.phase y
step (answered (some detail)) y = fail detail y.phase y

abbrev pub run : List Event → System → System
run [] y = y
run (e ∷ es) y = run es (step e y)
