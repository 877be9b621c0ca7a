-- ===== src/S2/Worker/Barrier/Durable.antt =====
-- What a completed drain promises: net/s2/src/s2sink/imp.rs, `drain`.
use Prim.Native.String.{String}
use gstsmith_rs.Prelude.{
  ℕ, ◌≤◌, ◌≡◌, inl, inr, refl, subst, ap, Bool, true, false, not, ◌&&◌, ◌||◌, Option, none, some,
  List, [], ◌∷◌, ◌++◌, length, length-append, is_some, All, All-map_imp, Bool-cases, arith,
}
use gstsmith_rs.S2.Queue.{
  AppendRecord, SharedQueue, new, poll_drain, complete, is_drained, DrainOutcome, outcome_of,
}
use gstsmith_rs.S2.Worker.{
  idle, ended, System, Event, step, run, rendered, unlocked, closed, requested, polled, turned,
  answered,
}
use gstsmith_rs.S2.Worker.Barrier.{IsSound, IsOwed}
use gstsmith_rs.S2.Worker.Barrier.Calls.{
  rendered-IsSound, unlocked-IsSound, closed-IsSound, polled-IsSound,
}
use gstsmith_rs.S2.Worker.Barrier.Joins.{requested-IsSound}
use gstsmith_rs.S2.Worker.Barrier.Turns.{succeed-IsSound, fail-IsSound, here}
use gstsmith_rs.S2.Worker.Barrier.Takes.{turn-IsSound}

-- A sink that has just started.
abbrev pub begin : ℕ → System
begin capacity = record {
  queue = new capacity;
  phase = idle;
  accepted = [];
  submitted = [];
  durable = 0;
  joined = [];
}

begin-IsSound : (capacity : ℕ) → IsSound (begin capacity)
unfolding new
begin-IsSound capacity = record {
  rest = [];
  in_order = refl;
  in_phase = refl;
  is_done = λ h. absurd (cc);
  flags = tt;
  is_below = tt;
  owed = tt;
  counted = omega arith;
}

step-IsSound : (e : Event) (y : System) → IsSound y → IsSound (step e y)
unfolding step
step-IsSound (rendered r) y i = rendered-IsSound r y i
step-IsSound (unlocked b) y i = unlocked-IsSound b y i
step-IsSound closed y i = closed-IsSound y i
step-IsSound requested y i = requested-IsSound y i
step-IsSound (polled flag late) y i = polled-IsSound flag late y i
step-IsSound turned y i = turn-IsSound y.phase y refl i
step-IsSound (answered none) y i = succeed-IsSound y.phase y refl i
step-IsSound (answered (some detail)) y i = fail-IsSound detail y.phase y refl i

-- In any run of the sink: the records that the producer took are the first of those that the queue
-- accepted, in their order, no more are confirmed than were taken, and no flag of a drain is set
-- before the records that were accepted before it are confirmed.
pub run-IsSound : (es : List Event) (y : System) → IsSound y → IsSound (run es y)
run-IsSound [] y i = i
run-IsSound (e ∷ es) y i = run-IsSound es (step e y) (step-IsSound e y i)

some-injective : {a b : DrainOutcome} → some a ≡ some b → a ≡ b
some-injective h = cc

outcome_of-complete :
    (failure : Option String) (is_complete is_flushing : Bool)
    → outcome_of failure is_complete is_flushing ≡ complete
    → (failure ≡ none) × (is_complete ≡ true)
outcome_of-complete (some detail) b f h = absurd (cc)
outcome_of-complete none true f h = (refl, refl)
outcome_of-complete none false true h = absurd (cc)
outcome_of-complete none false false h = absurd (cc)

-- A drain that completes saw no failure, and its flag or the worker's end.
poll_drain-complete :
    (flag : ℕ) (late : Bool) (q : SharedQueue)
    → (poll_drain flag late q).0 ≡ some complete
    → (q.state.failure ≡ none) × ((q.state.done || is_drained flag q) ≡ true)
unfolding poll_drain
poll_drain-complete flag late q h =
    let b =
      not q.state.done
      && (not (is_drained flag q) && (not q.state.flushing && not (is_some q.state.failure))) in
    elim (Bool-cases b) [
      | inl e ↦ elim (Bool-cases late) [
        | inl l ↦ let k = simp (poll_drain, e, l) at h in absurd (cc)
        | inr l ↦ let k = simp (poll_drain, e, l) at h in absurd (cc)
      ]
      | inr e ↦
          let k = simp (poll_drain, e) at h in
          outcome_of-complete q.state.failure (q.state.done || is_drained flag q) q.state.flushing
            (some-injective k)
    ]

ended-durable :
    (y : System)
    → IsSound y
    → y.queue.state.done ≡ true
    → y.queue.state.failure ≡ none
    → length y.accepted ≤ y.durable
ended-durable y i d f = elim (here y ended i (i.is_done d)) [
  | inl failed ↦
      let k : is_some {A = String} none ≡ true = subst (λ o. is_some o ≡ true) f failed in
      absurd (cc)
  | inr (empty, shut, all) ↦
      let l = length-append y.submitted i.rest in
      let z : length i.rest ≡ 0 = rw empty refl in
      let m : length (y.submitted ++ i.rest) ≡ length y.accepted = ap length i.in_order in
      omega arith
]

-- What a drain that joined is promised.
abbrev pub IsKept : System → ℕ × ℕ → Type 0
IsKept y j = (late : Bool) → (poll_drain j.0 late y.queue).0 ≡ some complete → j.1 ≤ y.durable

sound-IsKept : (y : System) → IsSound y → (j : ℕ × ℕ) → IsOwed y j → IsKept y j
sound-IsKept y i j owed late h =
    let (none_failed, over) = poll_drain-complete j.0 late y.queue h in
    elim (Bool-cases y.queue.state.done) [
      | inl d ↦ let n = ended-durable y i d none_failed in let b = owed.1 in omega arith
      | inr d ↦ owed.2 (subst (λ b. (b || is_drained j.0 y.queue) ≡ true) d over)
    ]

-- In any run of the sink, with any interleaving of renders, flushes, drains and the worker's steps,
-- and any failures: where a drain completes, all records that were accepted before it joined are
-- confirmed. The confirmed records are the first ones that were accepted, in their order.
pub run-IsKept :
    (capacity : ℕ) (es : List Event)
    → let y : System = run es (begin capacity) in
      All (IsKept y) y.joined
      × (y.durable ≤ length y.submitted)
      × ((rest : List AppendRecord) × (y.submitted ++ rest ≡ y.accepted))
run-IsKept capacity es =
    let y : System = run es (begin capacity) in
    let i : IsSound y = run-IsSound es (begin capacity) (begin-IsSound capacity) in
    (
      All-map_imp (IsOwed y) (IsKept y) y.joined (sound-IsKept y i) i.owed,
      i.counted,
      (i.rest, i.in_order),
    )
