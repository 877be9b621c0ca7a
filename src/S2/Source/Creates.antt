-- ===== src/S2/Source/Creates.antt =====
-- The calls of `create` of the source: net/s2/src/s2src/imp.rs.
use gstsmith_rs.Prelude.{
  ℕ, ◌≡◌, refl, sym, ap, subst, ◌∙◌, Bool, true, false, not, ◌||◌, Option, none, some, List, [],
  ◌∷◌, ◌++◌, arith, Bool-cases, inl, inr, ◌==◌,
}
use mathlib.Core.List.{append_assoc}
use gstsmith_rs.S2.Source.Tasks.{put_reader-same}
use gstsmith_rs.S2.Source.Follows.{
  hand, IsCalled, behind, Follows, Follows-Same, Ordered, IsOrdered,
}
use gstsmith_rs.S2.Source.{
  ReadStart, SequencedRecord, WorkerConfig, Worker, Reader, started, Creating, idle, waiting, took,
  holding, Element, commit_delivered_cursor,
}
use gstsmith_rs.S2.Source.Steps.{
  put_reader, take_receiver, create_return, return_record, create_commit, receive, end_wait,
  create_begin,
}

module _ (read : ℕ → ReadStart → Bool → List SequencedRecord) (r : Reader) (config : WorkerConfig)
    (last : Option ℕ) (flushing : Bool) (delivered : List SequencedRecord) (tokens : ℕ) where
  abbrev Now : Worker → Creating → Bool → Type 0
  Now w creating paused = Follows read r w config last flushing creating delivered paused tokens

  -- Another state of the call with the same record in hand.
  pub recall :
      (w w' : Worker) (c d : Creating) (paused : Bool)
      → hand d ≡ hand c
      → IsCalled w' paused d
      → Now w c paused
      → Now w' d paused
  recall w w' c d paused e called f = record {
    origin = f.origin;
    attempted = f.attempted;
    rest = f.rest;
    whole = f.whole;
    live = λ k p. f.live k p ∙ ap (λ l. delivered ++ (l ++ (r.channel ++ r.ahead))) (sym e);
    position = f.position;
    flushed = f.flushed;
    called = called;
  }

  -- The record in hand is dropped where the worker is cancelled, or the task pauses.
  pub drop_hand :
      (w w' : Worker) (c : Creating) (paused : Bool)
      → r.cancelled ≡ true
      → w'.receiver ≡ some w'.token
      → Now w c paused
      → Now w' idle paused
  drop_hand w w' c paused k q f = record {
    origin = f.origin;
    attempted = f.attempted;
    rest = f.rest;
    whole = f.whole;
    live = λ n p. absurd (cc);
    position = f.position;
    flushed = f.flushed;
    called = q;
  }

  pub pause :
      (w w' : Worker) (c : Creating) (paused : Bool)
      → w'.receiver ≡ some w'.token
      → Now w c paused
      → Now w' idle true
  pause w w' c paused q f = record {
    origin = f.origin;
    attempted = f.attempted;
    rest = f.rest;
    whole = f.whole;
    live = λ n p. absurd (cc);
    position = f.position;
    flushed = f.flushed;
    called = q;
  }

  pub end_wait-Follows :
      (w : Worker) (b : Bool) (token channel : ℕ) (paused : Bool)
      → Now w (waiting token channel) paused
      → Now w (end_wait b token channel) paused
  unfolding end_wait
  end_wait-Follows w true token channel paused f =
      recall w w (waiting token channel) (took token channel none) paused refl f.called f
  end_wait-Follows w false token channel paused f = f

  -- A call that is flushed has a worker that is cancelled.
  pub stuck :
      (w : Worker) (c : Creating) (paused : Bool)
      → (flushing || r.cancelled) ≡ true
      → Now w c paused
      → r.cancelled ≡ true
  stuck w c paused h f = elim (Bool-cases flushing) [
    | inl g ↦ f.flushed g
    | inr g ↦ let h' = rw g at h in h'
  ]

commit-live :
    (flushing same cancelled : Bool)
    → not (flushing || not same || cancelled) ≡ true
    → cancelled ≡ false
commit-live false true false h = refl
commit-live false true true h = absurd (cc)
commit-live false false c h = absurd (cc)
commit-live true s c h = absurd (cc)

commit-stuck :
    (flushing same cancelled : Bool)
    → same ≡ true
    → not (flushing || not same || cancelled) ≡ false
    → (flushing || cancelled) ≡ true
commit-stuck false true false q h = absurd (cc)
commit-stuck false true true q h = refl
commit-stuck false false c q h = absurd (cc)
commit-stuck true s c q h = refl

module _ (read : ℕ → ReadStart → Bool → List SequencedRecord) (w : Worker) (config : WorkerConfig)
    (last : Option ℕ) (flushing : Bool) where
  abbrev Here : Creating → Element → Type 0
  Here c e = IsOrdered read (started w config last flushing) c e

  pub receive-Ordered :
      (token channel : ℕ) (e : Element) (l : List SequencedRecord)
      → l ≡ (e.readers channel).channel
      → e.state ≡ started w config last flushing
      → e.creating ≡ waiting token channel
      → Here (waiting token channel) e
      → Ordered read (receive l token channel e)
  unfolding receive
  receive-Ordered token channel e [] q s c f = rw (s, c) f
  receive-Ordered token channel e (x ∷ rest) q s c f =
      let (t, same, p) = f.called in
      let r' = record (e.readers channel) { channel = rest } in
      let put : put_reader channel r' e.readers w.token ≡ r' =
        ap (put_reader channel r' e.readers) same ∙ put_reader-same channel r' e.readers in
      let g =
        subst
          (λ k.
            Follows read (e.readers k) w config last flushing (waiting token channel) e.delivered
              e.paused e.tokens)
          same f in
      let taken : Follows read r' w config last flushing (took token channel (some x)) e.delivered
          e.paused e.tokens =
        record {
          origin = g.origin;
          attempted = g.attempted;
          rest = g.rest;
          whole = g.whole;
          live =
              λ k p. g.live k p ∙ ap (λ l. e.delivered ++ (l ++ (e.readers channel).ahead)) (sym q);
          position = g.position;
          flushed = g.flushed;
          called = g.called;
        } in
      rw s (
        subst
          (λ r.
            Follows read r w config last flushing (took token channel (some x)) e.delivered e.paused
              e.tokens)
          (sym put) taken)

  created :
      (o : Option SequencedRecord) (token channel : ℕ) (e : Element)
      → e.state ≡ started w config last flushing
      → w.receiver ≡ some w.token
      → Here (took token channel o) e
      → Ordered read (create_return o token w.token e)
  unfolding create_return
  created (some x) token channel e s q f =
      let (t, same, p) = f.called in
      rw s (
        recall read (e.readers w.token) config last flushing e.delivered e.tokens w w
          (took token channel (some x)) (holding token x) e.paused refl (t, q, p) f)
  created none token channel e s q f =
      let r = e.readers w.token in
      let r' = record r { error_posted = true } in
      let paused =
        pause read r config last flushing e.delivered e.tokens w w (took token channel none)
          e.paused q f in
      let posted : Follows read r' w config last flushing idle e.delivered true e.tokens =
        Follows-Same read (record { cancelled = refl; records = refl }) paused in
      rw s (
        subst (λ r. Follows read r w config last flushing idle e.delivered true e.tokens)
          (sym (put_reader-same w.token r' e.readers)) posted)

module _ (read : ℕ → ReadStart → Bool → List SequencedRecord) (w : Worker) (config : WorkerConfig)
    (last : Option ℕ) (flushing : Bool) where
  pub return_record-Ordered :
      (o : Option SequencedRecord) (token channel : ℕ) (e : Element)
      → IsOrdered read (started w config last flushing) (took token channel o) e
      → Ordered read (return_record o token channel (started w config last flushing) e)
  unfolding return_record
  return_record-Ordered o token channel e f =
      let (t, same, p) = f.called in
      let now : some channel ≡ some w.token = ap some (sym same) in
      let w' = record w { receiver = some channel } in
      let here : (e.readers token).cancelled ≡ (e.readers w.token).cancelled =
        ap (λ k. (e.readers k).cancelled) (sym t) in
      elim (Bool-cases (flushing || (e.readers token).cancelled)) [
        | inl h ↦
            let h' : (flushing || (e.readers w.token).cancelled) ≡ true =
              ap (λ b. flushing || b) (sym here) ∙ h in
            let c = took token channel o in
            let r = e.readers w.token in
            let k = stuck read r config last flushing e.delivered e.tokens w c e.paused h' f in
            simp h
              (drop_hand read r config last flushing e.delivered e.tokens w w' c e.paused k now f)
        | inr h ↦
            let back = record e { state = started w' config last flushing } in
            let g =
              recall read (e.readers w.token) config last flushing e.delivered e.tokens w w'
                (took token channel o) (took token channel o) e.paused refl f.called f in
            simp h (created read w' config last flushing o token channel back refl now g)
      ]

  committed :
      (token : ℕ) (x : SequencedRecord) (e : Element)
      → (e.readers w.token).cancelled ≡ false
      → IsOrdered read (started w config last flushing) (holding token x) e
      → Follows read
          (e.readers w.token)
          w
          config
          (some x.seq_num)
          flushing
          idle
          (e.delivered ++ (x ∷ []))
          e.paused
          e.tokens
  committed token x e k f =
      let (t, q, p) = f.called in
      let r = e.readers w.token in
      let whole = f.live k p ∙ sym (append_assoc e.delivered (x ∷ []) (r.channel ++ r.ahead)) in
      record {
        origin = f.origin;
        attempted = f.attempted;
        rest = r.channel ++ r.ahead;
        whole = whole;
        live = λ _ _. whole;
        position = behind e.delivered x;
        flushed = f.flushed;
        called = q;
      }

  pub create_commit-Ordered :
      (token : ℕ) (x : SequencedRecord) (e : Element)
      → e.state ≡ started w config last flushing
      → IsOrdered read (started w config last flushing) (holding token x) e
      → Ordered read (create_commit x token (started w config last flushing) e)
  unfolding create_commit commit_delivered_cursor
  create_commit-Ordered token x e s f =
      let (t, q, p) = f.called in
      let r = e.readers w.token in
      let same : (w.token == token) ≡ true = ground arith in
      let here : (e.readers token).cancelled ≡ r.cancelled =
        ap (λ k. (e.readers k).cancelled) (sym t) in
      let test = commit_delivered_cursor flushing w.token token (e.readers token).cancelled in
      elim (Bool-cases test) [
        | inl h ↦
            let k = commit-live flushing (w.token == token) (e.readers token).cancelled h in
            simp h (committed token x e (sym here ∙ k) f)
        | inr h ↦
            let stop =
              commit-stuck flushing (w.token == token) (e.readers token).cancelled same h in
            let k =
              stuck read r config last flushing e.delivered e.tokens w (holding token x) e.paused
                (ap (λ b. flushing || b) (sym here) ∙ stop) f in
            simp h (
              rw s (
                drop_hand read r config last flushing e.delivered e.tokens w w (holding token x)
                  e.paused k q f))
      ]

module _ (read : ℕ → ReadStart → Bool → List SequencedRecord) (w : Worker) (config : WorkerConfig)
    (last : Option ℕ) where
  take_receiver-Ordered :
      (o : Option ℕ) (e : Element)
      → o ≡ some w.token
      → e.paused ≡ false
      → IsOrdered read (started w config last false) idle e
      → Ordered read (take_receiver o w config last e)
  unfolding take_receiver
  take_receiver-Ordered none e q p f = absurd (cc)
  take_receiver-Ordered (some channel) e q p f =
      let same : w.token ≡ channel = cc in
      recall read (e.readers w.token) config last false e.delivered e.tokens w
        (record w { receiver = none }) idle (waiting w.token channel) e.paused refl (refl, same, p)
        f

  pub create_begin-Ordered :
      (flushing : Bool) (c : Creating) (paused : Bool) (e : Element)
      → e.state ≡ started w config last flushing
      → e.creating ≡ c
      → e.paused ≡ paused
      → IsOrdered read (started w config last flushing) c e
      → Ordered read (create_begin (started w config last flushing) c paused e)
  unfolding create_begin
  create_begin-Ordered false idle false e s q p f = take_receiver-Ordered w.receiver e f.called p f
  create_begin-Ordered false idle true e s q p f = rw (s, q) f
  create_begin-Ordered false (waiting token channel) paused e s q p f = rw (s, q) f
  create_begin-Ordered false (took token channel o) paused e s q p f = rw (s, q) f
  create_begin-Ordered false (holding token x) paused e s q p f = rw (s, q) f
  create_begin-Ordered true c paused e s q p f = rw (s, q) f
