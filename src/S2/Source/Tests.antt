-- ===== src/S2/Source/Tests.antt =====
-- A run of the source of net/s2/src/s2src/imp.rs that is flushed between two records.
use gstsmith_rs.Prelude.{
  ℕ, zero, suc, drop_all, ◌+◌, ◌≡◌, refl, sym, subst, ◌∙◌, Bool, true, false, none, some, List, [],
  ◌∷◌, ◌++◌, drop, arith, codes,
}
use gstsmith_rs.S2.Config.{ValidatedConnection, no_side_effects, no_compression}
use gstsmith_rs.S2.Source.Runs.{IsDelivered, run-IsDelivered}
use gstsmith_rs.S2.Source.{
  ReadStart, from_seq_num, from_timestamp, from_tail_offset, SequencedRecord, stopped, started,
  reading, ended, idle, Reader, WorkerConfig, ReadFrom, Element, Event, source_started,
  default_source, task, tail_checked, session_opened, record_sent, begin, received, returned,
  committed, unlock, unlock_stop, configured_start,
}
use gstsmith_rs.S2.Source.Steps.{run, serial}

abbrev first_record : SequencedRecord
first_record = record { seq_num = 0; body = 7 ∷ [] }

abbrev second_record : SequencedRecord
second_record = record { seq_num = 1; body = 8 ∷ [] }

-- A stream of two records, of which a start from the tail sees the second in the first attempt only.
abbrev read_from : ℕ → ReadFrom → List SequencedRecord
read_from k (from_seq_num n) = drop n (first_record ∷ second_record ∷ [])
read_from zero (from_tail_offset n) = second_record ∷ []
read_from (suc k) (from_tail_offset n) = []
read_from k (from_timestamp t) = []

abbrev read_log : ℕ → ReadStart → Bool → List SequencedRecord
read_log k start ignore = read_from k (start.from)

no_reader : Reader
no_reader = record {
  input = configured_start default_source;
  capacity = 0;
  phase = ended;
  channel = [];
  ahead = [];
  cancelled = true;
  failure = none;
  error_posted = false;
}

abbrev connection : ValidatedConnection
connection = record {
  basin = codes "basin";
  stream = codes "stream";
  s2 = record {
    token = codes "t";
    connection_timeout = 1;
    request_timeout = 1;
    max_attempts = 1;
    min_base_delay = 1;
    max_base_delay = 1;
    append_retry_policy = no_side_effects;
    compression = no_compression;
    endpoints = none;
  };
  queue_capacity = 4;
}

abbrev created : List Event
created = begin ∷ received ∷ returned ∷ committed ∷ []

abbrev read_in : ℕ → List Event
read_in n = task n (tail_checked 2 0) ∷ task n session_opened ∷ task n record_sent ∷ created

abbrev calls : List Event
calls =
    source_started (some connection) default_source true ∷ read_in 0
    ++ (unlock ∷ unlock_stop ∷ read_in 1)

abbrev stopped_element : Element
stopped_element = record {
  state = stopped;
  creating = idle;
  delivered = [];
  paused = false;
  tokens = 0;
  readers = λ n. no_reader;
  messages = [];
}

-- The source with a record in its channel.
abbrev config : WorkerConfig
config = record {
  connection = connection;
  start = configured_start default_source;
  ignore_command_records = false;
}

-- The source with a record in its channel.
abbrev ready : Bool → Element
ready flushing = record {
  state = started (record { token = 0; receiver = some 0 }) config none flushing;
  creating = idle;
  delivered = [];
  paused = false;
  tokens = 1;
  readers = λ n. record {
    input = configured_start default_source;
    capacity = 4;
    phase = reading;
    channel = first_record ∷ [];
    ahead = second_record ∷ [];
    cancelled = flushing;
    failure = none;
    error_posted = false;
  };
  messages = [];
}

run-created : (run read_log created (ready false)).delivered ≡ first_record ∷ []
unfolding run
run-created = refl

run-flushed : (run read_log created (ready true)).delivered ≡ []
unfolding run
run-flushed = refl

-- A call that goes on over a flush and over a resume hands on no record, and gives the new worker
-- the receiver of the old one.
abbrev late : List Event
late = begin ∷ received ∷ unlock ∷ unlock_stop ∷ returned ∷ []

run-late :
    (run read_log late (ready false)).state
    ≡ started (record { token = 1; receiver = some 0 }) config none false
unfolding run
run-late = refl

late_is_not_serial : serial read_log late (ready false) ≡ false
unfolding serial
late_is_not_serial = refl

no_tail : (xs ys : List SequencedRecord) (x : SequencedRecord) → [] ≡ xs ++ (x ∷ ys) → ⊥
no_tail [] ys x e = absurd (cc)
no_tail (a ∷ xs) ys x e = absurd (cc)

abbrev behind : SequencedRecord → List SequencedRecord
behind x = drop (x.seq_num + 1) (first_record ∷ second_record ∷ [])

continues_second :
    (xs : List SequencedRecord) (x : SequencedRecord) (ys : List SequencedRecord)
    → second_record ∷ [] ≡ xs ++ (x ∷ ys)
    → behind x ≡ ys
continues_second [] x ys e =
    let a : second_record ≡ x = cc in let b : [] ≡ ys = cc in subst (λ y. behind y ≡ ys) a b
continues_second (a ∷ xs) x ys e = absurd (no_tail xs ys x (cc))

-- What follows a record in the log.
continues_from :
    (k : ℕ) (from : ReadFrom) (xs : List SequencedRecord) (x : SequencedRecord)
    (ys : List SequencedRecord)
    → read_from k from ≡ xs ++ (x ∷ ys)
    → behind x ≡ ys
continues_from k (from_seq_num zero) [] x ys e =
    let a : first_record ≡ x = cc in
    let b : second_record ∷ [] ≡ ys = cc in subst (λ y. behind y ≡ ys) a b
continues_from k (from_seq_num zero) (a ∷ xs) x ys e = continues_second xs x ys (cc)
continues_from k (from_seq_num (suc zero)) xs x ys e = continues_second xs x ys e
continues_from k (from_seq_num (suc (suc n))) xs x ys e =
    absurd (no_tail xs ys x (sym (drop_all n [] (omega arith)) ∙ e))
continues_from k (from_timestamp n) xs x ys e = absurd (no_tail xs ys x e)
continues_from zero (from_tail_offset n) xs x ys e = continues_second xs x ys e
continues_from (suc k) (from_tail_offset n) xs x ys e = absurd (no_tail xs ys x e)

continues_log :
    (k m : ℕ) (start : ReadStart) (i : Bool) (xs : List SequencedRecord) (x : SequencedRecord)
    (ys : List SequencedRecord)
    → read_log k start i ≡ xs ++ (x ∷ ys)
    → read_log m (record { from = from_seq_num (x.seq_num + 1); clamp = false }) i ≡ ys
continues_log k m start i xs x ys e = continues_from k start.from xs x ys e

calls_are_serial : serial read_log calls stopped_element ≡ true
unfolding serial
calls_are_serial = refl

calls_deliver : (run read_log calls stopped_element).delivered ≡ first_record ∷ second_record ∷ []
unfolding run
calls_deliver = refl

run-IsDelivered_example :
    let e = run read_log calls stopped_element in IsDelivered read_log e.state e.delivered e.tokens
run-IsDelivered_example =
    run-IsDelivered read_log continues_log calls stopped_element refl refl calls_are_serial
