-- ===== src/S2/Worker/Barrier.antt =====
-- The drain of the sink as a barrier: net/s2/src/s2sink/imp.rs. The invariant of the queue and its
-- worker, and the steps that keep it.
pub mod Calls
pub mod Joins
pub mod Turns
pub mod Takes
pub mod Durable
use Prim.Native.String.{String}
use gstsmith_rs.Prelude.{
  ℕ, suc, ◌+◌, ◌≤◌, ◌<◌, ◌≡◌, ◌≢◌, ◌⊎◌, inl, inr, refl, sym, ap, ◌∙◌, Bool, true, false, not, ◌&&◌,
  ◌||◌, Option, none, some, List, [], ◌∷◌, ◌++◌, ◌==◌, ltb, leb, if◌then◌else◌, length,
  length-append, any, is_some, All, All-map_imp, Bool-cases, Option-cases, ==_iff, arith,
}
use gstsmith_rs.S2.Queue.{
  AppendRecord, SharedQueue, QueueState, stored, waits, refused, enqueue_record, request_drain,
  poll_drain, close, store_failure, finish, complete_drain, set_flushing, is_drained,
  timeout_detail,
}
use gstsmith_rs.S2.Worker.{
  Phase, idle, waiting, closing, awaiting, finishing, ended, submitting, draining, failing, System,
  Event, step, take_next, next_phase, turn, succeed, fail,
}

-- Every flag that was given away is below the limit.
abbrev pub limit_of : Option ℕ → ℕ → ℕ
limit_of none next = next
limit_of (some flag) next = flag

abbrev pub limit : SharedQueue → ℕ
limit q = limit_of q.state.drain q.next_flag

abbrev pub IsBelow : Option ℕ → ℕ → Type 0
IsBelow none next = Unit
IsBelow (some flag) next = flag < next

-- All is confirmed and nothing can come.
abbrev pub IsOver : System → List AppendRecord → Type 0
IsOver y rest = (rest ≡ []) × (y.queue.state.accepting ≡ false) × (y.durable ≡ length y.submitted)

-- What is accepted and not submitted, by where the worker is.
abbrev pub InPhase : Phase → System → List AppendRecord → Type 0
InPhase idle y rest = rest ≡ y.queue.state.records
InPhase waiting y rest = rest ≡ y.queue.state.records
InPhase (submitting r) y rest = rest ≡ r ∷ y.queue.state.records
InPhase (draining flag) y rest =
    (rest ≡ y.queue.state.records)
    × (flag < limit y.queue)
    × All (λ j. j.0 ≡ flag → j.1 ≤ length y.submitted) y.joined
InPhase closing y rest = (rest ≡ []) × (y.queue.state.accepting ≡ false)
InPhase awaiting y rest = IsOver y rest
InPhase (failing detail) y rest = Unit
InPhase finishing y rest = (is_some y.queue.state.failure ≡ true) ⊎ IsOver y rest
InPhase ended y rest = (is_some y.queue.state.failure ≡ true) ⊎ IsOver y rest

-- What a drain that joined is owed: if its flag is set, what was accepted before it is confirmed.
abbrev pub IsOwed : System → ℕ × ℕ → Type 0
IsOwed y j =
    (j.0 < y.queue.next_flag)
    × (j.1 ≤ length y.accepted)
    × (is_drained j.0 y.queue ≡ true → j.1 ≤ y.durable)

pub record IsSound (y : System) : Type 0 where
  pub rest : List AppendRecord
  pub in_order : y.submitted ++ rest ≡ y.accepted
  pub in_phase : InPhase y.phase y rest
  pub is_done : y.queue.state.done ≡ true → y.phase ≡ ended
  pub flags : All (λ f. f < limit y.queue) y.queue.drained
  pub is_below : IsBelow y.queue.state.drain y.queue.next_flag
  pub owed : All (IsOwed y) y.joined
  pub counted : y.durable ≤ length y.submitted

pub append-assoc_one :
    (xs ys : List AppendRecord) (r : AppendRecord) → (xs ++ ys) ++ r ∷ [] ≡ xs ++ (ys ++ r ∷ [])
append-assoc_one [] ys r = refl
append-assoc_one (x ∷ xs) ys r = ap (◌∷◌ x) (append-assoc_one xs ys r)

-- A record that is stored, in every phase in which one can be.
pub stored-InPhase :
    (p : Phase) (r : AppendRecord) (y y' : System) (rest : List AppendRecord)
    → y'.queue ≡ record (y.queue) {
      state = record (y.queue.state) { records = y.queue.state.records ++ r ∷ [] };
    }
    → y'.submitted ≡ y.submitted
    → y'.joined ≡ y.joined
    → y.queue.state.accepting ≡ true
    → y.queue.state.failure ≡ none
    → InPhase p y rest
    → InPhase p y' (rest ++ r ∷ [])
stored-InPhase idle r y y' rest q s j a f h = rw (q, h) refl
stored-InPhase waiting r y y' rest q s j a f h = rw (q, h) refl
stored-InPhase (submitting x) r y y' rest q s j a f h = rw (q, h) refl
stored-InPhase (draining flag) r y y' rest q s j a f h =
    (rw (q, h.0) refl, rw q (h.1), rw (s, j) (h.2))
stored-InPhase closing r y y' rest q s j a f h = let x = h.1 in absurd (cc)
stored-InPhase awaiting r y y' rest q s j a f h = let x = h.1 in absurd (cc)
stored-InPhase (failing detail) r y y' rest q s j a f h = tt
stored-InPhase finishing r y y' rest q s j a f (inl x) = absurd (ground arith)
stored-InPhase finishing r y y' rest q s j a f (inr x) = let z = x.1 in absurd (cc)
stored-InPhase ended r y y' rest q s j a f (inl x) = absurd (ground arith)
stored-InPhase ended r y y' rest q s j a f (inr x) = let z = x.1 in absurd (cc)
