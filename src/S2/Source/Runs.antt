-- ===== src/S2/Source/Runs.antt =====
-- The runs of the source: net/s2/src/s2src/imp.rs.
use gstsmith_rs.Prelude.{
  ℕ, ◌+◌, ◌<◌, ◌≡◌, refl, sym, subst, ◌∙◌, Bool, true, false, Option, none, some, List, [], ◌∷◌,
  ◌++◌, arith, and-eq-true,
}
use gstsmith_rs.S2.Config.{ValidatedConnection}
use gstsmith_rs.S2.Source.Tasks.{put_reader-same, put_reader-Same, run_task-Same}
use gstsmith_rs.S2.Source.Follows.{
  IsLast, nothing, Follows, Follows-Same, IsOrdered, Ordered, Continues, resumed, unlock-Follows,
}
use gstsmith_rs.S2.Source.Creates.{
  create_begin-Ordered, end_wait-Follows, receive-Ordered, return_record-Ordered, pause,
  create_commit-Ordered,
}
use gstsmith_rs.S2.Source.{
  SourceSettings, ReadStart, ReadFrom, from_seq_num, SequencedRecord, WorkerConfig, Worker, Reader,
  State, stopped, started, Creating, idle, waiting, took, holding, Element, Event, TaskEvent,
  source_started, stop, unlock, unlock_stop, begin, wait_cancelled, received, wait_closed, returned,
  failed, committed, task, run_task, configured_start,
}
use gstsmith_rs.S2.Source.Steps.{
  step, run, serial, is_serial, resume, resume_from, start_source, spawn_worker_with_start,
  put_reader, cancel, run_reader, is_closed,
}

module _ (read : ℕ → ReadStart → Bool → List SequencedRecord) where
  -- A new worker with the next token, in place of the old one or of none.
  spawned :
      (config : WorkerConfig) (last : Option ℕ) (from : Option ReadFrom) (readers : ℕ → Reader)
      (delivered : List SequencedRecord) (tokens origin : ℕ)
      → origin < tokens + 1
      → IsLast last delivered
      → let r = spawn_worker_with_start read tokens config from in
        read origin config.start config.ignore_command_records ≡ delivered ++ r.ahead
        → let r = spawn_worker_with_start read tokens config from in
          Follows read
            (put_reader tokens r readers tokens)
            (record { token = tokens; receiver = some tokens })
            config
            last
            false
            idle
            delivered
            false
            (tokens + 1)
  unfolding spawn_worker_with_start
  spawned config last from readers delivered tokens origin less position whole =
      let r = spawn_worker_with_start read tokens config from in
      let w : Worker = record { token = tokens; receiver = some tokens } in
      let f : Follows read r w config last false idle delivered false (tokens + 1) = record {
        origin = origin;
        attempted = less;
        rest = r.ahead;
        whole = whole;
        live = λ _ _. whole;
        position = position;
        flushed = λ h. absurd (cc);
        called = refl;
      } in
      subst (λ r. Follows read r w config last false idle delivered false (tokens + 1))
        (sym (put_reader-same tokens r readers)) f

  still :
      (state : State) (creating : Creating) (e : Element)
      → e.state ≡ state
      → e.creating ≡ creating
      → IsOrdered read state creating e
      → Ordered read e
  still state creating e q k f =
      subst (λ c. IsOrdered read e.state c e) (sym k)
        (subst (λ s. IsOrdered read s creating e) (sym q) f)

module _ (read : ℕ → ReadStart → Bool → List SequencedRecord) (continues : Continues read) where
  resume-Ordered :
      (o : Option (Option ReadFrom)) (w : Worker) (config : WorkerConfig) (last : Option ℕ)
      (flushing : Bool) (e : Element)
      → resume_from last ≡ o
      → e.creating ≡ idle
      → IsOrdered read (started w config last flushing) idle e
      → Ordered read (resume read o w config last e)
  unfolding resume
  resume-Ordered none w config last flushing e q c f = rw c record {
    origin = f.origin;
    attempted = f.attempted;
    rest = f.rest;
    whole = f.whole;
    live = f.live;
    position = f.position;
    flushed = λ h. absurd (cc);
    called = f.called;
  }
  resume-Ordered (some from) w config last flushing e q c f =
      let (origin, less, whole) =
        resumed read continues f.origin e.tokens config.start config.ignore_command_records last
          e.delivered f.rest from f.attempted f.position f.whole q in
      rw c (
        spawned read config last from (cancel w.token e.readers) e.delivered e.tokens origin less
          f.position whole)

  start_source-Ordered :
      (connection : Option ValidatedConnection) (s : SourceSettings) (caps : Bool) (state : State)
      (e : Element)
      → e.state ≡ state
      → e.creating ≡ idle
      → IsOrdered read state idle e
      → Ordered read (start_source read connection s caps e)
  unfolding start_source
  start_source-Ordered (some connection) s true state e q k f =
      let config : WorkerConfig = record {
        connection = connection;
        start = configured_start s;
        ignore_command_records = s.ignore_command_records;
      } in
      rw k (spawned read config none none e.readers [] e.tokens e.tokens (omega arith) nothing refl)
  start_source-Ordered (some connection) s false state e q k f = still read _ _ e q k f
  start_source-Ordered none s caps state e q k f = still read _ _ e q k f

  unlocked :
      (w : Worker) (config : WorkerConfig) (last : Option ℕ) (flushing : Bool) (creating : Creating)
      (e : Element)
      → IsOrdered read (started w config last flushing) creating e
      → Follows read
          (cancel w.token e.readers w.token)
          w
          config
          last
          true
          creating
          e.delivered
          e.paused
          e.tokens
  unfolding cancel
  unlocked w config last flushing creating e f =
      let r = record (e.readers w.token) { cancelled = true } in
      subst (λ r. Follows read r w config last true creating e.delivered e.paused e.tokens)
        (sym (put_reader-same w.token r e.readers)) (unlock-Follows read f)

  task_run :
      (token : ℕ) (event : TaskEvent) (state : State) (creating : Creating) (e : Element)
      → e.state ≡ state
      → e.creating ≡ creating
      → IsOrdered read state creating e
      → let r = e.readers token in Ordered read (run_reader token (run_task event r.phase r) e)
  unfolding run_reader
  task_run token event stopped creating e q k f = rw q (k ∙ f)
  task_run token event (started w config l g) creating e q k f =
      let r = e.readers token in
      let same = run_task-Same event r.phase r in
      rw (q, k)
        (Follows-Same read
          (put_reader-Same token w.token (run_task event r.phase r).0 e.readers same) f)

  -- An event that finds no call of its kind changes nothing.
  step-Ordered :
      (event : Event) (state : State) (creating : Creating) (e : Element)
      → e.state ≡ state
      → e.creating ≡ creating
      → is_serial event creating ≡ true
      → IsOrdered read state creating e
      → Ordered read (step read event state creating e)
  unfolding step
  step-Ordered (source_started connection s caps) stopped idle e q k h f =
      start_source-Ordered connection s caps _ e q k f
  step-Ordered (source_started connection s caps) (started w config l g) idle e q k h f =
      start_source-Ordered connection s caps _ e q k f
  step-Ordered (source_started connection s caps) stopped (waiting t c) e q k h f = absurd (cc)
  step-Ordered (source_started connection s caps) (started w config l g) (waiting t c) e q k h f =
      absurd (cc)
  step-Ordered (source_started connection s caps) stopped (took t c o) e q k h f = absurd (cc)
  step-Ordered (source_started connection s caps) (started w config l g) (took t c o) e q k h f =
      absurd (cc)
  step-Ordered (source_started connection s caps) stopped (holding t x) e q k h f = absurd (cc)
  step-Ordered (source_started connection s caps) (started w config l g) (holding t x) e q k h f =
      absurd (cc)
  step-Ordered stop stopped creating e q k h f = still read _ _ e q k f
  step-Ordered stop (started w config l g) idle e q k h f = k
  step-Ordered stop (started w config l g) (waiting t c) e q k h f = absurd (cc)
  step-Ordered stop (started w config l g) (took t c o) e q k h f = absurd (cc)
  step-Ordered stop (started w config l g) (holding t x) e q k h f = absurd (cc)
  step-Ordered unlock stopped creating e q k h f = still read _ _ e q k f
  step-Ordered unlock (started w config l g) creating e q k h f =
      rw k (unlocked w config l g creating e f)
  step-Ordered unlock_stop stopped creating e q k h f = still read _ _ e q k f
  step-Ordered unlock_stop (started w config l g) idle e q k h f =
      resume-Ordered (resume_from l) w config l g e refl k f
  step-Ordered unlock_stop (started w config l g) (waiting t c) e q k h f = absurd (cc)
  step-Ordered unlock_stop (started w config l g) (took t c o) e q k h f = absurd (cc)
  step-Ordered unlock_stop (started w config l g) (holding t x) e q k h f = absurd (cc)
  step-Ordered begin stopped creating e q k h f = still read _ _ e q k f
  step-Ordered begin (started w config l g) creating e q k h f =
      create_begin-Ordered read w config l g creating e.paused e q k refl f
  step-Ordered wait_cancelled stopped idle e q k h f = still read _ _ e q k f
  step-Ordered wait_cancelled stopped (waiting t c) e q k h f = absurd (cc)
  step-Ordered wait_cancelled stopped (took t c o) e q k h f = still read _ _ e q k f
  step-Ordered wait_cancelled stopped (holding t x) e q k h f = still read _ _ e q k f
  step-Ordered wait_cancelled (started w config l g) idle e q k h f = still read _ _ e q k f
  step-Ordered wait_cancelled (started w config l g) (waiting t c) e q k h f = rw q (
      end_wait-Follows read (e.readers w.token) config l g e.delivered e.tokens w
        (e.readers t).cancelled t c e.paused f)
  step-Ordered wait_cancelled (started w config l g) (took t c o) e q k h f = still read _ _ e q k f
  step-Ordered wait_cancelled (started w config l g) (holding t x) e q k h f =
      still read _ _ e q k f
  step-Ordered received stopped idle e q k h f = still read _ _ e q k f
  step-Ordered received stopped (waiting t c) e q k h f = absurd (cc)
  step-Ordered received stopped (took t c o) e q k h f = still read _ _ e q k f
  step-Ordered received stopped (holding t x) e q k h f = still read _ _ e q k f
  step-Ordered received (started w config l g) idle e q k h f = still read _ _ e q k f
  step-Ordered received (started w config l g) (waiting t c) e q k h f =
      receive-Ordered read w config l g t c e (e.readers c).channel refl q k f
  step-Ordered received (started w config l g) (took t c o) e q k h f = still read _ _ e q k f
  step-Ordered received (started w config l g) (holding t x) e q k h f = still read _ _ e q k f
  step-Ordered wait_closed stopped idle e q k h f = still read _ _ e q k f
  step-Ordered wait_closed stopped (waiting t c) e q k h f = absurd (cc)
  step-Ordered wait_closed stopped (took t c o) e q k h f = still read _ _ e q k f
  step-Ordered wait_closed stopped (holding t x) e q k h f = still read _ _ e q k f
  step-Ordered wait_closed (started w config l g) idle e q k h f = still read _ _ e q k f
  step-Ordered wait_closed (started w config l g) (waiting t c) e q k h f = rw q (
      end_wait-Follows read (e.readers w.token) config l g e.delivered e.tokens w
        (is_closed (e.readers c)) t c e.paused f)
  step-Ordered wait_closed (started w config l g) (took t c o) e q k h f = still read _ _ e q k f
  step-Ordered wait_closed (started w config l g) (holding t x) e q k h f = still read _ _ e q k f
  step-Ordered returned stopped idle e q k h f = still read _ _ e q k f
  step-Ordered returned stopped (waiting t c) e q k h f = still read _ _ e q k f
  step-Ordered returned stopped (took t c o) e q k h f = absurd (cc)
  step-Ordered returned stopped (holding t x) e q k h f = still read _ _ e q k f
  step-Ordered returned (started w config l g) idle e q k h f = still read _ _ e q k f
  step-Ordered returned (started w config l g) (waiting t c) e q k h f = still read _ _ e q k f
  step-Ordered returned (started w config l g) (took t c o) e q k h f =
      return_record-Ordered read w config l g o t c e f
  step-Ordered returned (started w config l g) (holding t x) e q k h f = still read _ _ e q k f
  step-Ordered failed stopped idle e q k h f = still read _ _ e q k f
  step-Ordered failed stopped (waiting t c) e q k h f = still read _ _ e q k f
  step-Ordered failed stopped (took t c o) e q k h f = still read _ _ e q k f
  step-Ordered failed stopped (holding t x) e q k h f = absurd (cc)
  step-Ordered failed (started w config l g) idle e q k h f = still read _ _ e q k f
  step-Ordered failed (started w config l g) (waiting t c) e q k h f = still read _ _ e q k f
  step-Ordered failed (started w config l g) (took t c o) e q k h f = still read _ _ e q k f
  step-Ordered failed (started w config l g) (holding t x) e q k h f = rw q (
      pause read (e.readers w.token) config l g e.delivered e.tokens w w (holding t x) e.paused
        f.called.1 f)
  step-Ordered committed stopped idle e q k h f = still read _ _ e q k f
  step-Ordered committed stopped (waiting t c) e q k h f = still read _ _ e q k f
  step-Ordered committed stopped (took t c o) e q k h f = still read _ _ e q k f
  step-Ordered committed stopped (holding t x) e q k h f = absurd (cc)
  step-Ordered committed (started w config l g) idle e q k h f = still read _ _ e q k f
  step-Ordered committed (started w config l g) (waiting t c) e q k h f = still read _ _ e q k f
  step-Ordered committed (started w config l g) (took t c o) e q k h f = still read _ _ e q k f
  step-Ordered committed (started w config l g) (holding t x) e q k h f =
      create_commit-Ordered read w config l g t x e q f
  step-Ordered (task t event) state creating e q k h f = task_run t event state creating e q k f

module _ (read : ℕ → ReadStart → Bool → List SequencedRecord) where
  -- What the source has delivered since its start is what the session of an attempt from the
  -- configured start yields first, and the position is that of the last record.
  abbrev pub IsDelivered : State → List SequencedRecord → ℕ → Type 0
  IsDelivered stopped delivered tokens = delivered ≡ delivered
  IsDelivered (started w config last flushing) delivered tokens =
      ((origin : ℕ) × (origin < tokens)
        × (rest : List SequencedRecord) × (read origin config.start config.ignore_command_records
            ≡ delivered ++ rest))
      × IsLast last delivered

  run-Ordered :
      Continues read
      → (events : List Event) (e : Element) → serial read events e ≡ true
      → Ordered read e
      → Ordered read (run read events e)
  unfolding run serial
  run-Ordered continues [] e h f = f
  run-Ordered continues (event ∷ events) e h f =
      let (now, then_serial) = and-eq-true _ _ h in
      run-Ordered continues events (step read event e.state e.creating e) then_serial
        (step-Ordered read continues event e.state e.creating e refl refl now f)

  Ordered-IsDelivered :
      (state : State) (creating : Creating) (e : Element)
      → IsOrdered read state creating e
      → IsDelivered state e.delivered e.tokens
  Ordered-IsDelivered stopped creating e f = refl
  Ordered-IsDelivered (started w config last flushing) creating e f =
      ((f.origin, f.attempted, f.rest, f.whole), f.position)

  -- In any run of the source, with any interleaving of the calls of the base class, the sections of
  -- `create` and the reading tasks, and any failures, in which `start`, `stop` and `unlock_stop` come
  -- with no call of `create` in progress: the records delivered since the start are the first ones
  -- that the session of one of the attempts from the configured start yields, in their order,
  -- without a gap or a repetition, whatever was flushed and resumed between; and the stored position
  -- is the last record's. A session from behind a record, in whichever attempt, is taken to yield
  -- what follows the record.
  pub run-IsDelivered :
      ((k m : ℕ) (start : ReadStart) (i : Bool) (xs : List SequencedRecord) (x : SequencedRecord)
          (ys : List SequencedRecord)
        → read k start i ≡ xs ++ (x ∷ ys)
        → read m (record { from = from_seq_num (x.seq_num + 1); clamp = false }) i ≡ ys)
      → (events : List Event) (e : Element) → e.state ≡ stopped
      → e.creating ≡ idle
      → serial read events e ≡ true
      → let e' = run read events e in IsDelivered e'.state e'.delivered e'.tokens
  run-IsDelivered continues events e s c h =
      let f : Ordered read e = simp s c in
      let g = run-Ordered continues events e h f in
      let e' = run read events e in Ordered-IsDelivered e'.state e'.creating e' g
