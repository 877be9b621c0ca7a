-- ===== src/S2/Worker/Barrier/Takes.antt =====
-- The head of the worker's loop, and its end, keep the invariant of the queue:
-- net/s2/src/s2sink/imp.rs, `append_worker` and the task that runs it.
use Prim.Native.String.{String}
use gstsmith_rs.Prelude.{
  ℕ, ◌≤◌, ◌<◌, ◌≡◌, inl, refl, subst, ◌∙◌, ap, Bool, true, false, Option, none, some, List, [], ◌∷◌,
  ◌++◌, length, length-append, All-map_imp, arith,
}
use gstsmith_rs.S2.Queue.{AppendRecord, SharedQueue, store_failure, claim_error_post, finish}
use gstsmith_rs.S2.Worker.{
  Phase, idle, waiting, closing, awaiting, finishing, ended, submitting, draining, failing, System,
  turn, take_next, next_phase,
}
use gstsmith_rs.S2.Worker.Barrier.{limit, limit_of, IsBelow, InPhase, IsOwed, IsSound}
use gstsmith_rs.S2.Worker.Barrier.Calls.{kept_failure}
use gstsmith_rs.S2.Worker.Barrier.Turns.{not_done, here}

-- The head of the loop with a record.
record-IsSound :
    (r : AppendRecord) (rest : List AppendRecord) (y : System)
    → y.phase ≡ idle
    → y.queue.state.records ≡ r ∷ rest
    → IsSound y
    → IsSound (record y { queue = take_next (r ∷ rest) y.queue; phase = submitting r })
unfolding take_next
record-IsSound r rest y e q i = record {
  rest = i.rest;
  in_order = i.in_order;
  in_phase = here y idle i e ∙ q;
  is_done = λ h. absurd (not_done y idle i e (λ k. absurd (cc)) h);
  flags = i.flags;
  is_below = i.is_below;
  owed = i.owed;
  counted = i.counted;
}

limit_le : (o : Option ℕ) (next : ℕ) → IsBelow o next → limit_of o next ≤ next
limit_le none next h = omega arith
limit_le (some flag) next h = omega arith

abbrev untie : SharedQueue → SharedQueue
untie q = record q { state = record (q.state) { drain = none } }

-- The head of the loop without a record: the drain is taken.
empty-IsSound :
    (y : System) (p : Phase)
    → y.phase ≡ idle
    → IsSound y
    → ((rest : List AppendRecord)
        → y.submitted ++ rest ≡ y.accepted
        → rest ≡ y.queue.state.records
        → InPhase p (record y { queue = untie y.queue; phase = p }) rest)
    → IsSound (record y { queue = untie y.queue; phase = p })
empty-IsSound y p e i h = record {
  rest = i.rest;
  in_order = i.in_order;
  in_phase = h i.rest i.in_order (here y idle i e);
  is_done = λ k. absurd (not_done y idle i e (λ k. absurd (cc)) k);
  flags =
      let most = limit_le y.queue.state.drain y.queue.next_flag i.is_below in
      All-map_imp (λ f. f < limit y.queue) (λ f. f < y.queue.next_flag) y.queue.drained
        (λ f less. omega arith) i.flags;
  is_below = tt;
  owed = i.owed;
  counted = i.counted;
}

-- With no record left, what was submitted is what was accepted.
all_submitted :
    (y : System) (rest : List AppendRecord)
    → y.submitted ++ rest ≡ y.accepted
    → rest ≡ []
    → length y.accepted ≡ length y.submitted
all_submitted y rest o e =
    let l = length-append y.submitted rest in
    let z : length rest ≡ 0 = rw e refl in
    let m : length (y.submitted ++ rest) ≡ length y.accepted = ap length o in omega arith

taken-IsSound :
    (y : System) (accepting : Bool) (drain : Option ℕ)
    → y.phase ≡ idle
    → y.queue.state.records ≡ []
    → y.queue.state.accepting ≡ accepting
    → y.queue.state.drain ≡ drain
    → IsSound y
    → IsSound (record y { queue = untie y.queue; phase = next_phase [] accepting drain })
unfolding next_phase
taken-IsSound y false drain e q a d i = empty-IsSound y closing e i λ rest o r. (r ∙ q, a)
taken-IsSound y true none e q a d i = empty-IsSound y waiting e i λ rest o r. r
taken-IsSound y true (some flag) e q a d i =
    let less : flag < y.queue.next_flag = subst (λ o. IsBelow o y.queue.next_flag) d i.is_below in
    empty-IsSound y (draining flag) e i λ rest o r. (
      r,
      less,
      let n = all_submitted y rest o (r ∙ q) in
          All-map_imp (IsOwed y) (λ j. j.0 ≡ flag → j.1 ≤ length y.submitted) y.joined
            (λ j owed. λ k. let b = owed.1 in omega arith) i.owed,
    )

idle-IsSound :
    (y : System) (records : List AppendRecord)
    → y.phase ≡ idle
    → y.queue.state.records ≡ records
    → IsSound y
    → IsSound (record y {
      queue = take_next records y.queue;
      phase = next_phase records y.queue.state.accepting y.queue.state.drain;
    })
unfolding take_next next_phase
idle-IsSound y [] e q i =
    taken-IsSound y y.queue.state.accepting y.queue.state.drain e q refl refl i
idle-IsSound y (r ∷ rest) e q i = record-IsSound r rest y e q i

-- The failure is stored, and the worker ends.
stored-IsSound :
    (detail : String) (y : System)
    → y.phase ≡ failing detail
    → IsSound y
    → IsSound (turn (failing detail) y)
unfolding turn store_failure claim_error_post
stored-IsSound detail y e i = record {
  rest = i.rest;
  in_order = i.in_order;
  in_phase = inl (kept_failure y.queue.state.failure detail);
  is_done = λ k. absurd (not_done y (failing detail) i e (λ k. absurd (cc)) k);
  flags = i.flags;
  is_below = i.is_below;
  owed = i.owed;
  counted = i.counted;
}

finished-IsSound : (y : System) → y.phase ≡ finishing → IsSound y → IsSound (turn finishing y)
unfolding turn finish
finished-IsSound y e i = record {
  rest = i.rest;
  in_order = i.in_order;
  in_phase = here y finishing i e;
  is_done = λ k. refl;
  flags = i.flags;
  is_below = i.is_below;
  owed = i.owed;
  counted = i.counted;
}

pub turn-IsSound : (p : Phase) (y : System) → y.phase ≡ p → IsSound y → IsSound (turn p y)
unfolding turn
turn-IsSound idle y e i = idle-IsSound y y.queue.state.records e refl i
turn-IsSound (failing detail) y e i = stored-IsSound detail y e i
turn-IsSound finishing y e i = finished-IsSound y e i
turn-IsSound waiting y e i = i
turn-IsSound closing y e i = i
turn-IsSound awaiting y e i = i
turn-IsSound ended y e i = i
turn-IsSound (submitting r) y e i = i
turn-IsSound (draining flag) y e i = i
