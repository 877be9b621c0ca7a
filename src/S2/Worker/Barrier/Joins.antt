-- ===== src/S2/Worker/Barrier/Joins.antt =====
-- A drain that joins keeps the invariant of the queue: net/s2/src/s2sink/imp.rs, `drain`.
use gstsmith_rs.Prelude.{
  ℕ, suc, ◌≤◌, ◌<◌, ◌≡◌, inl, inr, refl, sym, subst, ◌∙◌, false, some, List, [], ◌∷◌, ◌==◌, length,
  any, All, All-map_imp, Option-cases, arith,
}
use gstsmith_rs.S2.Queue.{AppendRecord, SharedQueue, request_drain, is_drained}
use gstsmith_rs.S2.Worker.{
  Phase, idle, waiting, closing, awaiting, finishing, ended, submitting, draining, failing, System,
  step, requested,
}
use gstsmith_rs.S2.Worker.Barrier.{limit, IsBelow, InPhase, IsOwed, IsSound}

-- A flag at the limit is not set.
not_drained : (flag : ℕ) (fs : List ℕ) → All (λ f. f < flag) fs → any (λ f. f == flag) fs ≡ false
not_drained flag [] h = refl
not_drained flag (f ∷ fs) h =
    let less = h.0 in
    let q : (f == flag) ≡ false = ground arith in rw (q, not_drained flag fs h.1) refl

abbrev join : System → SharedQueue → ℕ → System
join y q flag = record y { queue = q; joined = (flag, length y.accepted) ∷ y.joined }

join-InPhase :
    (p : Phase) (y : System) (q : SharedQueue) (flag : ℕ) (rest : List AppendRecord)
    → q.state.records ≡ y.queue.state.records
    → q.state.accepting ≡ y.queue.state.accepting
    → q.state.failure ≡ y.queue.state.failure
    → limit q ≡ limit y.queue
    → flag ≡ limit y.queue
    → InPhase p y rest
    → InPhase p (join y q flag) rest
join-InPhase idle y q flag rest r a f l e h = rw r h
join-InPhase waiting y q flag rest r a f l e h = rw r h
join-InPhase (submitting x) y q flag rest r a f l e h = rw r h
join-InPhase (draining g) y q flag rest r a f l e h =
    let less = h.1 in (rw r h.0, rw l h.1, (λ k. absurd (omega arith), h.2))
join-InPhase closing y q flag rest r a f l e h = rw a h
join-InPhase awaiting y q flag rest r a f l e h = rw a h
join-InPhase (failing detail) y q flag rest r a f l e h = tt
join-InPhase finishing y q flag rest r a f l e h = rw (f, a) h
join-InPhase ended y q flag rest r a f l e h = rw (f, a) h

join-IsSound :
    (y : System) (q : SharedQueue) (flag : ℕ)
    → q.state.records ≡ y.queue.state.records
    → q.state.accepting ≡ y.queue.state.accepting
    → q.state.failure ≡ y.queue.state.failure
    → q.state.done ≡ y.queue.state.done
    → q.drained ≡ y.queue.drained
    → limit q ≡ limit y.queue
    → flag ≡ limit y.queue
    → flag < q.next_flag
    → y.queue.next_flag ≤ q.next_flag
    → IsBelow q.state.drain q.next_flag
    → IsSound y
    → IsSound (join y q flag)
join-IsSound y q flag r a f n d l e under more below i = record {
  rest = i.rest;
  in_order = i.in_order;
  in_phase = join-InPhase y.phase y q flag i.rest r a f l e i.in_phase;
  is_done = λ h. i.is_done (sym n ∙ h);
  flags = rw (d, l) i.flags;
  is_below = below;
  owed = (
    (
      under,
      omega arith,
      λ k.
          let fresh : is_drained flag q ≡ false =
            rw (d, e) (not_drained (limit y.queue) y.queue.drained i.flags) in
          absurd (cc),
    ),
    All-map_imp (IsOwed y) (IsOwed (join y q flag)) y.joined
        (λ j o. ((let b = o.0 in omega arith), o.1, rw d o.2)) i.owed,
  );
  counted = i.counted;
}

pub requested-IsSound : (y : System) → IsSound y → IsSound (step requested y)
unfolding step request_drain
requested-IsSound y i = elim (Option-cases y.queue.state.drain) [
  | inr (flag, e) ↦
      let below : flag < y.queue.next_flag =
        subst (λ o. IsBelow o y.queue.next_flag) e i.is_below in
      simp (step, request_drain, e)
        (join-IsSound y y.queue flag refl refl refl refl refl refl (rw e refl) below (omega arith)
          i.is_below i)
  | inl e ↦
      let l : limit y.queue ≡ y.queue.next_flag = rw e refl in
      simp (step, request_drain, e)
        (join-IsSound y
          (record (y.queue) {
            state = record (y.queue.state) { drain = some (y.queue.next_flag) };
            next_flag = suc (y.queue.next_flag);
          })
          y.queue.next_flag refl refl refl refl refl (sym l) (sym l) (omega arith) (omega arith)
          (omega arith) i)
]
