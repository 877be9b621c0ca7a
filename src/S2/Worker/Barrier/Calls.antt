-- ===== src/S2/Worker/Barrier/Calls.antt =====
-- The element's calls keep the invariant of the queue: net/s2/src/s2sink/imp.rs, `render`, `unlock`,
-- `close`, and the parts of `drain`.
use Prim.Native.String.{String}
use gstsmith_rs.Prelude.{
  ℕ, ◌+◌, ◌<◌, ◌≡◌, ◌⊎◌, inl, inr, refl, sym, ap, ◌∙◌, Bool, true, false, not, ◌&&◌, Option, none,
  some, List, [], ◌∷◌, ◌++◌, ltb, ltb→lt, length, length-append, is_some, All-map_imp, Bool-cases,
  Option-cases, arith,
}
use gstsmith_rs.S2.Queue.{
  AppendRecord, SharedQueue, stored, enqueue_record, first_failure, put_record, poll_drain, close,
  store_failure, set_flushing, is_drained, timeout_detail,
}
use gstsmith_rs.S2.Worker.{
  Phase, idle, waiting, closing, awaiting, finishing, ended, submitting, draining, failing, System,
  step, accept, rendered, unlocked, closed, polled,
}
use gstsmith_rs.S2.Worker.Barrier.{
  limit, IsOver, InPhase, IsOwed, IsSound, append-assoc_one, stored-InPhase,
}

-- A record changes nothing, or it is stored in a queue that has room and accepts.
enqueue_record-cases :
    (r : AppendRecord) (q : SharedQueue)
    → (((enqueue_record r q).1 ≡ q)
        × ((accepted : List AppendRecord) → accept r (enqueue_record r q).0 accepted ≡ accepted))
      ⊎ ((enqueue_record r q ≡ (stored, put_record r q))
          × (q.state.accepting ≡ true)
          × (q.state.failure ≡ none)
          × (length q.state.records < q.capacity))
unfolding enqueue_record
enqueue_record-cases r q = elim (Bool-cases q.state.flushing) [
  | inl e ↦ inl (simp (enqueue_record, e) refl, λ xs. simp (enqueue_record, e) refl)
  | inr e ↦ elim (Option-cases q.state.failure) [
    | inr (detail, f) ↦
        inl (simp (enqueue_record, e, f) refl, λ xs. simp (enqueue_record, e, f) refl)
    | inl f ↦ elim (Bool-cases q.state.accepting) [
      | inr a ↦ inl (simp (enqueue_record, e, f, a) refl, λ xs. simp (enqueue_record, e, f, a) refl)
      | inl a ↦ elim (Bool-cases (ltb (length q.state.records) q.capacity)) [
        | inl l ↦ inr (simp (enqueue_record, e, f, a, l) refl, a, f, ltb→lt _ _ l)
        | inr l ↦
            inl
              (simp (enqueue_record, e, f, a, l) refl, λ xs. simp (enqueue_record, e, f, a, l) refl)
      ]
    ]
  ]
]

pub rendered-IsSound : (r : AppendRecord) (y : System) → IsSound y → IsSound (step (rendered r) y)
unfolding step
rendered-IsSound r y i = elim (enqueue_record-cases r y.queue) [
  | inl (q, a) ↦ rw (step, q, a y.accepted) i
  | inr (e, a, f, _) ↦
      let y' : System = record y {
        queue = put_record r y.queue;
        accepted = y.accepted ++ r ∷ [];
      } in
      let longer : length (y.accepted ++ r ∷ []) ≡ length y.accepted + 1 =
        length-append y.accepted (r ∷ []) in
      rw (step, e)
        (record {
          rest = i.rest ++ r ∷ [];
          in_order =
              sym (append-assoc_one y.submitted i.rest r) ∙ ap (λ xs. xs ++ r ∷ []) i.in_order;
          in_phase = stored-InPhase y.phase r y y' i.rest refl refl refl a f i.in_phase;
          is_done = i.is_done;
          flags = i.flags;
          is_below = i.is_below;
          owed =
              All-map_imp (IsOwed y) (IsOwed y') y.joined
                (λ j o. (o.0, (let b = o.1 in omega arith), o.2)) i.owed;
          counted = i.counted;
        })
]

module _ (y : System) (q : SharedQueue) (r : q.state.records ≡ y.queue.state.records)
    (l : limit q ≡ limit y.queue) (a : y.queue.state.accepting ≡ false → q.state.accepting ≡ false)
    (x : is_some y.queue.state.failure ≡ true → is_some q.state.failure ≡ true) where
  over : (rest : List AppendRecord) → IsOver y rest → IsOver (record y { queue = q }) rest
  over rest h = (h.0, a h.1, h.2)

  same-InPhase :
      (p : Phase) (rest : List AppendRecord)
      → InPhase p y rest
      → InPhase p (record y { queue = q }) rest
  same-InPhase idle rest h = rw r h
  same-InPhase waiting rest h = rw r h
  same-InPhase (submitting x) rest h = rw r h
  same-InPhase (draining flag) rest h = (rw r h.0, rw l h.1, h.2)
  same-InPhase closing rest h = (h.0, a h.1)
  same-InPhase awaiting rest h = over rest h
  same-InPhase (failing detail) rest h = tt
  same-InPhase finishing rest (inl h) = inl (x h)
  same-InPhase finishing rest (inr h) = inr (over rest h)
  same-InPhase ended rest (inl h) = inl (x h)
  same-InPhase ended rest (inr h) = inr (over rest h)

-- A step that changes the queue and keeps what the invariant reads of it, except that it may close
-- or fail.
pub same-IsSound :
    (y : System) (q : SharedQueue)
    → q.state.records ≡ y.queue.state.records
    → q.state.drain ≡ y.queue.state.drain
    → q.next_flag ≡ y.queue.next_flag
    → q.state.done ≡ y.queue.state.done
    → q.drained ≡ y.queue.drained
    → (y.queue.state.accepting ≡ false → q.state.accepting ≡ false)
    → (is_some y.queue.state.failure ≡ true → is_some q.state.failure ≡ true)
    → IsSound y
    → IsSound (record y { queue = q })
same-IsSound y q r d n e f a x i = record {
  rest = i.rest;
  in_order = i.in_order;
  in_phase = same-InPhase y q r (rw (d, n) refl) a x y.phase i.rest i.in_phase;
  is_done = λ h. i.is_done (sym e ∙ h);
  flags = rw (f, d, n) i.flags;
  is_below = rw (d, n) i.is_below;
  owed =
      All-map_imp (IsOwed y) (IsOwed (record y { queue = q })) y.joined
        (λ j o. (rw n o.0, o.1, rw f o.2)) i.owed;
  counted = i.counted;
}

pub unlocked-IsSound : (b : Bool) (y : System) → IsSound y → IsSound (step (unlocked b) y)
unfolding step set_flushing
unlocked-IsSound b y i =
    same-IsSound y (set_flushing b y.queue) refl refl refl refl refl (λ h. h) (λ h. h) i

pub closed-IsSound : (y : System) → IsSound y → IsSound (step closed y)
unfolding step close
closed-IsSound y i = same-IsSound y (close y.queue) refl refl refl refl refl (λ h. refl) (λ h. h) i

pub kept_failure : (o : Option String) (detail : String) → is_some (first_failure o detail) ≡ true
kept_failure none detail = refl
kept_failure (some old) detail = refl

pub polled-IsSound :
    (flag : ℕ) (late : Bool) (y : System) → IsSound y → IsSound (step (polled flag late) y)
unfolding step poll_drain store_failure
polled-IsSound flag late y i =
    let b =
      not y.queue.state.done
      && (not (is_drained flag y.queue)
          && (not y.queue.state.flushing && not (is_some y.queue.state.failure))) in
    elim (Bool-cases b) [
      | inr e ↦ simp (step, poll_drain, e) i
      | inl e ↦ elim (Bool-cases late) [
        | inr l ↦ simp (step, poll_drain, e, l) i
        | inl l ↦
            simp (step, poll_drain, e, l)
              (same-IsSound y (store_failure timeout_detail (record (y.queue) { cancel = true }))
                refl refl refl refl refl (λ h. refl)
                (λ h. kept_failure y.queue.state.failure timeout_detail) i)
      ]
    ]
