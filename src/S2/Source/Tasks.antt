-- ===== src/S2/Source/Tasks.antt =====
-- The reading task of the source: net/s2/src/s2src/imp.rs.
use gstsmith_rs.Prelude.{
  ℕ, ◌==◌, arith, subst, Bool-cases, inl, inr, ◌≡◌, refl, ap, ◌∙◌, Bool, true, false, Option, none,
  some, List, [], ◌∷◌, ◌++◌, ltb, length, if◌then◌else◌,
}
use gstsmith_rs.S2.Source.Steps.{put_reader}
use mathlib.Core.List.{append_assoc}
use gstsmith_rs.S2.Source.{
  SequencedRecord, Reader, Phase, checking, opening, reading, ended, send_record, check_start,
  fail_task, run_task, StartFault, TaskEvent, task_cancelled, record_sent, session_opened,
  tail_checked, task_failed, validate_start_against_tail,
}

-- A reader with the same records before it and the same cancellation.
pub record Same (r r' : Reader) : Type 0 where
  pub cancelled : r'.cancelled ≡ r.cancelled
  pub records : r'.channel ++ r'.ahead ≡ r.channel ++ r.ahead

pub Same-refl : (r : Reader) → Same r r
Same-refl r = record { cancelled = refl; records = refl }

push-Same :
    (room : Bool) (x : SequencedRecord) (rest : List SequencedRecord) (r : Reader)
    → x ∷ rest ≡ r.ahead
    → Same r (if room then record r { channel = r.channel ++ (x ∷ []); ahead = rest } else r)
push-Same true x rest r e = record {
  cancelled = refl;
  records = append_assoc r.channel (x ∷ []) rest ∙ ap (λ l. r.channel ++ l) e;
}
push-Same false x rest r e = Same-refl r

send-Same :
    (p : Phase) (l : List SequencedRecord) (r : Reader) → l ≡ r.ahead → Same r (send_record p l r)
unfolding send_record
send-Same reading (x ∷ rest) r e = push-Same (ltb (length r.channel) r.capacity) x rest r e
send-Same reading [] r e = Same-refl r
send-Same checking l r e = Same-refl r
send-Same opening l r e = Same-refl r
send-Same ended l r e = Same-refl r

check-Same : (o : Option StartFault) (r : Reader) → Same r (check_start o r).0
unfolding check_start fail_task
check-Same none r = record { cancelled = refl; records = refl }
check-Same (some fault) r = record { cancelled = refl; records = refl }

cancel-Same : (b : Bool) (r : Reader) → Same r (if b then record r { phase = ended } else r)
cancel-Same true r = record { cancelled = refl; records = refl }
cancel-Same false r = Same-refl r

pub run_task-Same : (t : TaskEvent) (p : Phase) (r : Reader) → Same r (run_task t p r).0
unfolding run_task fail_task
run_task-Same t ended r = Same-refl r
run_task-Same task_cancelled checking r = cancel-Same r.cancelled r
run_task-Same task_cancelled opening r = cancel-Same r.cancelled r
run_task-Same task_cancelled reading r = cancel-Same r.cancelled r
run_task-Same record_sent checking r = Same-refl r
run_task-Same record_sent opening r = Same-refl r
run_task-Same record_sent reading r = send-Same reading r.ahead r refl
run_task-Same session_opened checking r = Same-refl r
run_task-Same session_opened opening r = record { cancelled = refl; records = refl }
run_task-Same session_opened reading r = Same-refl r
run_task-Same (tail_checked n t) checking r =
    check-Same (validate_start_against_tail r.input.from n t) r
run_task-Same (tail_checked n t) opening r = Same-refl r
run_task-Same (tail_checked n t) reading r = Same-refl r
run_task-Same (task_failed f) checking r = record { cancelled = refl; records = refl }
run_task-Same (task_failed f) opening r = record { cancelled = refl; records = refl }
run_task-Same (task_failed f) reading r = record { cancelled = refl; records = refl }

pub put_reader-same : (n : ℕ) (r : Reader) (readers : ℕ → Reader) → put_reader n r readers n ≡ r
unfolding put_reader
put_reader-same n r readers = let e : (n == n) ≡ true = ground arith in rw e refl

pub put_reader-Same :
    (token n : ℕ) (r : Reader) (readers : ℕ → Reader)
    → Same (readers token) r
    → Same (readers n) (put_reader token r readers n)
unfolding put_reader
put_reader-Same token n r readers s = elim (Bool-cases (n == token)) [
  | inl e ↦ let q : token ≡ n = ground arith in simp e (subst (λ k. Same (readers k) r) q s)
  | inr e ↦ simp e (Same-refl (readers n))
]
