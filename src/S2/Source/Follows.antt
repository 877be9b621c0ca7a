-- ===== src/S2/Source/Follows.antt =====
-- The order of what the source delivers: net/s2/src/s2src/imp.rs.
use gstsmith_rs.Prelude.{
  ℕ, ◌+◌, ◌<◌, arith, ◌≡◌, refl, sym, ap, ◌∙◌, Bool, true, false, Option, none, some, List, [], ◌∷◌,
  ◌++◌, ltb, if◌then◌else◌, u64_mod,
}
use gstsmith_rs.S2.Source.Tasks.{Same}
use mathlib.Core.List.{append_assoc}
use gstsmith_rs.S2.Source.{
  ReadStart, ReadFrom, from_seq_num, SequencedRecord, WorkerConfig, Worker, Reader, State, stopped,
  started, Creating, idle, waiting, took, holding, Element,
}
use gstsmith_rs.S2.Source.Steps.{input_of, resume_from}

-- What a call of `create` holds.
abbrev pub hand : Creating → List SequencedRecord
hand idle = []
hand (waiting token channel) = []
hand (took token channel none) = []
hand (took token channel (some x)) = x ∷ []
hand (holding token x) = x ∷ []

-- A call in progress has the token of the worker, which has its receiver unless the call has it, and
-- the task of the base class is not paused.
abbrev pub IsCalled : Worker → Bool → Creating → Type 0
IsCalled w paused idle = w.receiver ≡ some w.token
IsCalled w paused (waiting token channel) =
    (w.token ≡ token) × (w.token ≡ channel) × (paused ≡ false)
IsCalled w paused (took token channel o) =
    (w.token ≡ token) × (w.token ≡ channel) × (paused ≡ false)
IsCalled w paused (holding token x) =
    (w.token ≡ token) × (w.receiver ≡ some w.token) × (paused ≡ false)

-- The position behind the records that were delivered.
pub data IsLast : Option ℕ → List SequencedRecord → Type 0 where
  nothing : IsLast none []
  behind :
      (xs : List SequencedRecord) (x : SequencedRecord) → IsLast (some x.seq_num) (xs ++ (x ∷ []))

module _ (read : ℕ → ReadStart → Bool → List SequencedRecord) where
  pub record Follows (r : Reader) (w : Worker) (config : WorkerConfig) (last : Option ℕ)
      (flushing : Bool) (creating : Creating) (delivered : List SequencedRecord) (paused : Bool)
      (tokens : ℕ) : Type 0 where
    pub origin : ℕ
    pub attempted : origin < tokens
    pub rest : List SequencedRecord
    pub whole : read origin config.start config.ignore_command_records ≡ delivered ++ rest
    pub live :
        r.cancelled ≡ false
        → paused ≡ false
        → read origin config.start config.ignore_command_records
          ≡ delivered ++ (hand creating ++ (r.channel ++ r.ahead))
    pub position : IsLast last delivered
    pub flushed : flushing ≡ true → r.cancelled ≡ true
    pub called : IsCalled w paused creating

  abbrev pub IsOrdered : State → Creating → Element → Type 0
  IsOrdered stopped creating e = creating ≡ idle
  IsOrdered (started w config last flushing) creating e =
      Follows (e.readers w.token) w config last flushing creating e.delivered e.paused e.tokens

  abbrev pub Ordered : Element → Type 0
  Ordered e = IsOrdered e.state e.creating e

  pub Follows-Same :
      {r r' : Reader} {w : Worker} {config : WorkerConfig} {last : Option ℕ} {flushing : Bool}
      {creating : Creating} {delivered : List SequencedRecord} {paused : Bool} {tokens : ℕ}
      → Same r r'
      → Follows r w config last flushing creating delivered paused tokens
      → Follows r' w config last flushing creating delivered paused tokens
  Follows-Same {r} {r'} {w} {config} {last} {flushing} {creating} {delivered} s f = record {
    origin = f.origin;
    attempted = f.attempted;
    rest = f.rest;
    whole = f.whole;
    live = λ c p.
        f.live (sym s.cancelled ∙ c) p
        ∙ ap (λ l. delivered ++ (hand creating ++ l)) (sym s.records);
    position = f.position;
    flushed = λ h. s.cancelled ∙ f.flushed h;
    called = f.called;
  }

  pub unlock-Follows :
      {r : Reader} {w : Worker} {config : WorkerConfig} {last : Option ℕ} {flushing : Bool}
      {creating : Creating} {delivered : List SequencedRecord} {paused : Bool} {tokens : ℕ}
      → Follows r w config last flushing creating delivered paused tokens
      → Follows (record r { cancelled = true }) w config last true creating delivered paused tokens
  unlock-Follows f = record {
    origin = f.origin;
    attempted = f.attempted;
    rest = f.rest;
    whole = f.whole;
    live = λ c p. absurd (cc);
    position = f.position;
    flushed = λ h. refl;
    called = f.called;
  }

  -- A session from behind a record yields what follows the record.
  abbrev pub Continues : Type 0
  Continues =
      (k m : ℕ) (start : ReadStart) (i : Bool) (xs : List SequencedRecord) (x : SequencedRecord)
      (ys : List SequencedRecord)
      → read k start i ≡ xs ++ (x ∷ ys)
      → read m (record { from = from_seq_num (x.seq_num + 1); clamp = false }) i ≡ ys

  module _ (continues : Continues) where
    behind_record :
        (k m : ℕ) (start : ReadStart) (i : Bool) (xs rest : List SequencedRecord)
        (x : SequencedRecord) (from : Option ReadFrom)
        → read k start i ≡ (xs ++ (x ∷ [])) ++ rest
        → (room : Bool) → ltb (x.seq_num + 1) u64_mod ≡ room
        → (if room then some (some (from_seq_num (x.seq_num + 1))) else none) ≡ some from
        → rest ≡ read m (input_of from start) i
    behind_record k m start i xs rest x none whole true e h = absurd (cc)
    behind_record k m start i xs rest x (some f) whole true e h =
        let g : from_seq_num (x.seq_num + 1) ≡ f = cc in
        rw (sym g) (sym (continues k m start i xs x rest (whole ∙ append_assoc xs (x ∷ []) rest)))
    behind_record k m start i xs rest x from whole false e h = absurd (cc)

    -- The attempt `m` goes on with what was delivered, as a part of itself if nothing was.
    pub resumed :
        (k m : ℕ) (start : ReadStart) (i : Bool) (last : Option ℕ)
        (delivered rest : List SequencedRecord) (from : Option ReadFrom)
        → k < m
        → IsLast last delivered
        → read k start i ≡ delivered ++ rest
        → resume_from last ≡ some from
        → (origin : ℕ) × (origin < m + 1)
          × (read origin start i ≡ delivered ++ read m (input_of from start) i)
    unfolding resume_from
    resumed k m start i none [] rest none less nothing whole h = (m, omega arith, refl)
    resumed k m start i none [] rest (some f) less nothing whole h = absurd (cc)
    resumed k m start i last delivered rest from less (behind xs x) whole h =
        let q =
          behind_record k m start i xs rest x from whole (ltb (x.seq_num + 1) u64_mod) refl h in
        (k, omega arith, whole ∙ ap (λ l. (xs ++ (x ∷ [])) ++ l) q)
