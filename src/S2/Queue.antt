-- ===== src/S2/Queue.antt =====
-- The queue between the chain function and the worker of the sink: net/s2/src/s2sink/imp.rs,
-- `SharedQueue`, `enqueue_record` and `drain`. A section under the lock is one step; what waits on a
-- condition variable tries again in a later step. A record is a number that stands for it, and the
-- flag that a drain waits for is a number, whose flag is set if it is in `drained`.
use Prim.Native.String.{String}
use gstsmith_rs.Prelude.{
  ℕ, suc, Bool, true, false, not, ◌&&◌, ◌||◌, Option, none, some, List, [], ◌∷◌, ◌++◌, ◌==◌, ltb,
  if◌then◌else◌, length, any, is_some,
}

abbrev pub AppendRecord : Type 0
AppendRecord = ℕ

pub record QueueState : Type 0 where
  pub records : List AppendRecord
  pub accepting : Bool
  pub flushing : Bool
  pub failure : Option String
  pub done : Bool
  pub drain : Option ℕ

pub record SharedQueue : Type 0 where
  pub state : QueueState
  pub capacity : ℕ
  pub cancel : Bool
  pub error_posted : Bool
  pub drained : List ℕ
  pub next_flag : ℕ

unfoldable pub new : ℕ → SharedQueue
new capacity = record {
  state = record {
    records = [];
    accepting = true;
    flushing = false;
    failure = none;
    done = false;
    drain = none;
  };
  capacity = capacity;
  cancel = false;
  error_posted = false;
  drained = [];
  next_flag = 0;
}

unfoldable pub close : SharedQueue → SharedQueue
close q = record q { state = record (q.state) { accepting = false } }

-- The first failure is kept.
abbrev pub first_failure : Option String → String → Option String
first_failure none detail = some detail
first_failure (some old) detail = some old

unfoldable pub store_failure : String → SharedQueue → SharedQueue
store_failure detail q = record q {
  state = record (q.state) { failure = first_failure q.state.failure detail; accepting = false };
}

-- Whether the error is for the caller to post.
unfoldable pub claim_error_post : SharedQueue → Bool × SharedQueue
claim_error_post q = (not q.error_posted, record q { error_posted = true })

unfoldable pub finish : SharedQueue → SharedQueue
finish q = record q { state = record (q.state) { done = true } }

unfoldable pub complete_drain : ℕ → SharedQueue → SharedQueue
complete_drain flag q = record q { drained = flag ∷ q.drained }

-- `unlock` and `unlock_stop`.
unfoldable pub set_flushing : Bool → SharedQueue → SharedQueue
set_flushing flushing q = record q { state = record (q.state) { flushing = flushing } }

pub data EnqueueError : Type 0 where
  flushed closed : EnqueueError
  terminal : String → EnqueueError

-- `waits` where the queue is full.
pub data Attempt : Type 0 where
  stored waits : Attempt
  refused : EnqueueError → Attempt

-- `push_back`.
abbrev pub put_record : AppendRecord → SharedQueue → SharedQueue
put_record r q = record q { state = record (q.state) { records = q.state.records ++ r ∷ [] } }

unfoldable pub enqueue_record : AppendRecord → SharedQueue → Attempt × SharedQueue
enqueue_record r q = if q.state.flushing then (refused flushed, q) else elim q.state.failure [
  | some detail ↦ (refused (terminal detail), q)
  | none ↦
      if not q.state.accepting
      then (refused closed, q)
      else if ltb (length q.state.records) q.capacity
      then (stored, put_record r q)
      else (waits, q)
]

pub data DrainOutcome : Type 0 where
  complete flushing : DrainOutcome
  timed_out worker_failure : String → DrainOutcome

-- The flag that a drain waits for: the one that the worker has not taken yet, or a new one.
unfoldable pub request_drain : SharedQueue → ℕ × SharedQueue
request_drain q = elim q.state.drain [
  | some flag ↦ (flag, q)
  | none ↦ (
    q.next_flag,
    record q {
      state = record (q.state) { drain = some q.next_flag };
      next_flag = suc (q.next_flag);
    },
  )
]

abbrev pub is_drained : ℕ → SharedQueue → Bool
is_drained flag q = any (λ f. f == flag) q.drained

abbrev pub timeout_detail : String
timeout_detail = "S2 sink shutdown timed out; accepted records may be unconfirmed"

-- By the failure, whether the drain is complete, and whether the element flushes.
abbrev pub outcome_of : Option String → Bool → Bool → DrainOutcome
outcome_of (some detail) is_complete is_flushing = worker_failure detail
outcome_of none true is_flushing = complete
outcome_of none false true = flushing
outcome_of none false false = worker_failure "S2 sink worker did not finish draining"

-- One look of `drain` at the state: none where it waits. `late` is whether the deadline is over.
unfoldable pub poll_drain : ℕ → Bool → SharedQueue → Option DrainOutcome × SharedQueue
unfolding store_failure
poll_drain flag late q =
    if not q.state.done
      && (not (is_drained flag q) && (not q.state.flushing && not (is_some q.state.failure)))
    then if late
      then (
        some (timed_out timeout_detail),
        store_failure timeout_detail (record q { cancel = true }),
      )
      else (none, q)
    else (some (outcome_of q.state.failure (q.state.done || is_drained flag q) q.state.flushing), q)
