-- ===== src/S2/Worker/Barrier/Turns.antt =====
-- The worker keeps the invariant of the queue: net/s2/src/s2sink/imp.rs, `append_worker`.
use Prim.Native.String.{String}
use gstsmith_rs.Prelude.{
  ℕ, ◌≢◌, ◌+◌, ◌≤◌, ◌≡◌, inl, inr, refl, sym, subst, ◌∙◌, ap, true, ◌||◌, List, [], ◌∷◌, ◌++◌, ◌==◌,
  length, length-append, All, All-map_imp, Bool-cases, ==_iff, arith,
}
use gstsmith_rs.S2.Queue.{AppendRecord, is_drained, complete_drain}
use gstsmith_rs.S2.Worker.{
  Phase, idle, waiting, closing, awaiting, finishing, ended, submitting, draining, failing, System,
  succeed, fail,
}
use gstsmith_rs.S2.Worker.Barrier.{InPhase, IsOwed, IsSound}

-- The worker is not at its end while it does something.
pub not_done :
    (y : System) (p : Phase) → IsSound y → y.phase ≡ p → p ≢ ended → y.queue.state.done ≡ true → ⊥
not_done y p i e n h = n (sym e ∙ i.is_done h)

-- A step of the worker to another phase, with the queue as it is.
pub phase-IsSound :
    (y : System) (p : Phase) (rest : List AppendRecord)
    → y.submitted ++ rest ≡ y.accepted
    → InPhase p (record y { phase = p }) rest
    → (y.queue.state.done ≡ true → p ≡ ended)
    → IsSound y
    → IsSound (record y { phase = p })
phase-IsSound y p rest o h d i = record {
  rest = rest;
  in_order = o;
  in_phase = h;
  is_done = d;
  flags = i.flags;
  is_below = i.is_below;
  owed = All-map_imp (IsOwed y) (IsOwed (record y { phase = p })) y.joined (λ j o. o) i.owed;
  counted = i.counted;
}

-- What a phase says of the system whose phase it is.
pub here : (y : System) (p : Phase) (i : IsSound y) → y.phase ≡ p → InPhase p y i.rest
here y p i e = subst (λ q. InPhase q y i.rest) e i.in_phase

shift : (xs ys : List AppendRecord) (r : AppendRecord) → (xs ++ r ∷ []) ++ ys ≡ xs ++ (r ∷ ys)
shift [] ys r = refl
shift (x ∷ xs) ys r = ap (◌∷◌ x) (shift xs ys r)

failed-IsSound :
    (detail : String) (y : System) (p : Phase)
    → y.phase ≡ p
    → p ≢ ended
    → IsSound y
    → IsSound (record y { phase = failing detail })
failed-IsSound detail y p e n i =
    phase-IsSound y (failing detail) i.rest i.in_order tt (λ h. absurd (not_done y p i e n h)) i

pub fail-IsSound :
    (detail : String) (p : Phase) (y : System) → y.phase ≡ p → IsSound y → IsSound (fail detail p y)
unfolding fail
fail-IsSound detail idle y e i = failed-IsSound detail y idle e (λ k. absurd (cc)) i
fail-IsSound detail waiting y e i = failed-IsSound detail y waiting e (λ k. absurd (cc)) i
fail-IsSound detail (submitting r) y e i =
    failed-IsSound detail y (submitting r) e (λ k. absurd (cc)) i
fail-IsSound detail (draining flag) y e i =
    failed-IsSound detail y (draining flag) e (λ k. absurd (cc)) i
fail-IsSound detail closing y e i = failed-IsSound detail y closing e (λ k. absurd (cc)) i
fail-IsSound detail awaiting y e i = failed-IsSound detail y awaiting e (λ k. absurd (cc)) i
fail-IsSound detail (failing old) y e i = i
fail-IsSound detail finishing y e i = i
fail-IsSound detail ended y e i = i

submitted-IsSound :
    (r : AppendRecord) (y : System)
    → y.phase ≡ submitting r
    → IsSound y
    → IsSound (succeed (submitting r) y)
unfolding succeed
submitted-IsSound r y e i =
    let y' : System = record y { phase = idle; submitted = y.submitted ++ r ∷ [] } in
    let held : i.rest ≡ r ∷ y.queue.state.records = here y (submitting r) i e in
    let longer : length (y.submitted ++ r ∷ []) ≡ length y.submitted + 1 =
      length-append y.submitted (r ∷ []) in
    record {
      rest = y.queue.state.records;
      in_order =
          shift y.submitted y.queue.state.records r
          ∙ ap (λ xs. y.submitted ++ xs) (sym held)
          ∙ i.in_order;
      in_phase = refl;
      is_done = λ h. absurd (not_done y (submitting r) i e (λ k. absurd (cc)) h);
      flags = i.flags;
      is_below = i.is_below;
      owed = All-map_imp (IsOwed y) (IsOwed y') y.joined (λ j o. o) i.owed;
      counted = let c = i.counted in omega arith;
    }

-- The flag that is set covers what was submitted.
IsOwed-succeed :
    (flag : ℕ) (y : System) (js : List (ℕ × ℕ))
    → y.durable ≤ length y.submitted
    → All (IsOwed y) js
    → All (λ j. j.0 ≡ flag → j.1 ≤ length y.submitted) js
    → All (IsOwed (succeed (draining flag) y)) js
unfolding succeed complete_drain
IsOwed-succeed flag y [] c o k = tt
IsOwed-succeed flag y (j ∷ js) c o k =
    let owed = o.0.2 in
    let covered = k.0 in
    (
      (
        o.0.0,
        o.0.1,
        λ d. elim (Bool-cases (flag == j.0)) [
          | inl e ↦ k.0 (sym ((==_iff flag j.0).0 e))
          | inr e ↦
              let b = o.0.2 (subst (λ x. (x || is_drained j.0 y.queue) ≡ true) e d) in omega arith
        ],
      ),
      IsOwed-succeed flag y js c o.1 k.1,
    )

drained-IsSound :
    (flag : ℕ) (y : System)
    → y.phase ≡ draining flag
    → IsSound y
    → IsSound (succeed (draining flag) y)
unfolding succeed complete_drain
drained-IsSound flag y e i =
    let y' : System = succeed (draining flag) y in
    let (held, less, covered) = here y (draining flag) i e in
    let counted = i.counted in
    record {
      rest = i.rest;
      in_order = i.in_order;
      in_phase = held;
      is_done = λ h. absurd (not_done y (draining flag) i e (λ k. absurd (cc)) h);
      flags = (less, i.flags);
      is_below = i.is_below;
      owed = IsOwed-succeed flag y y.joined i.counted i.owed covered;
      counted = omega arith;
    }

closed-IsSound : (y : System) → y.phase ≡ closing → IsSound y → IsSound (succeed closing y)
unfolding succeed
closed-IsSound y e i =
    let y' : System = record y { phase = awaiting; durable = length y.submitted } in
    let (empty, shut) = here y closing i e in
    let counted = i.counted in
    record {
      rest = i.rest;
      in_order = i.in_order;
      in_phase = (empty, shut, refl);
      is_done = λ h. absurd (not_done y closing i e (λ k. absurd (cc)) h);
      flags = i.flags;
      is_below = i.is_below;
      owed =
          All-map_imp (IsOwed y) (IsOwed y') y.joined
            (λ j o. (o.0, o.1, λ k. let b = o.2 k in omega arith)) i.owed;
      counted = omega arith;
    }

pub succeed-IsSound : (p : Phase) (y : System) → y.phase ≡ p → IsSound y → IsSound (succeed p y)
unfolding succeed
succeed-IsSound idle y e i = i
succeed-IsSound waiting y e i =
    phase-IsSound y idle i.rest i.in_order (here y waiting i e)
      (λ h. absurd (not_done y waiting i e (λ k. absurd (cc)) h)) i
succeed-IsSound (submitting r) y e i = submitted-IsSound r y e i
succeed-IsSound (draining flag) y e i = drained-IsSound flag y e i
succeed-IsSound closing y e i = closed-IsSound y e i
succeed-IsSound awaiting y e i =
    phase-IsSound y finishing i.rest i.in_order (inr (here y awaiting i e))
      (λ h. absurd (not_done y awaiting i e (λ k. absurd (cc)) h)) i
succeed-IsSound (failing detail) y e i = i
succeed-IsSound finishing y e i = i
succeed-IsSound ended y e i = i
