-- ===== src/Job/Verdict/Run.antt =====
-- The verdict of the run of a job in executeJob of packages/core/src/execution/dispatcher.ts.
use kittle.Base.{
  Bool, true, false, ◌≡◌, refl, List, [], ◌∷◌, All, Option, none, some, Result, ok, err, Bool-cases,
  inl, inr, if-cases, String,
}
use kittle.Js.{Props}
use kittle.Job.{JobNumbers}
use kittle.Job.Store.{
  Message, JobTransitionResult, Reply, transition_of, assert_job_transition_result,
  mark_failed_state,
}
use kittle.Job.Race.{
  Event, works, settles, wakes, sleep_fails, fires, Thrown, ResultFields, Decision, Running,
  is_renewed, beat, step, steps, started, resumed, race, wait_for_settlement,
}
use kittle.Job.Failure.{FailureArgs, JobFailureKind, OutcomeKind, handle_job_error}
use kittle.Job.Run.{
  JobRun, renew_of, failing, malformed_args, complete_args, after_grace, reject_result,
  complete_job, lose_job, succeeded_outcome, history_outcome, result_error, classify_failure,
  assert_job_result, on_success, on_returned, on_thrown, on_timeout, on_decision, launched, run_job,
}
use kittle.Job.Verdict.{
  Verdict, lost, stopped, completed, KeepsUnapplied, JobKeeps, EventKeeps, applied_of, Judged,
  JudgedResult, failed-Judged,
}
use kittle.Job.Verdict.Failure.{handle_job_error-Judged}

module _ {N W : Type 0} (P : W → Type 0) (renew : W → Reply N × W) where
  beat-keeps : (r : Running N W) (reply : Reply N × W) → P reply.1 → P (beat r reply).world
  beat-keeps r (reply, w) p =
      if-cases (λ (s : Running N W). P s.world) (is_renewed reply) (λ _. p) (λ _. p)

  step-keeps :
      ((w : W) → P w → P (renew w).1)
      → (e : Event N W) (r : Running N W) → EventKeeps P e
      → P r.world
      → P (step renew e r).world
  unfolding step
  step-keeps k (works f) r e p = e r.world p
  step-keeps k (settles d) r e p =
      if-cases (λ (s : Running N W). P s.world) r.is_settled (λ _. p) (λ _. p)
  step-keeps k wakes r e p =
      if-cases (λ (s : Running N W). P s.world) r.lease_lost (λ _. p)
        (λ _. beat-keeps r (renew r.world) (k r.world p))
  step-keeps k sleep_fails r e p =
      if-cases (λ (s : Running N W). P s.world) r.lease_lost (λ _. p) (λ _. p)
  step-keeps k fires r e p = if-cases (λ (s : Running N W). P s.world) r.timed_out (λ _. p) (λ _. p)

  steps-keeps :
      ((w : W) → P w → P (renew w).1)
      → (es : List (Event N W)) (r : Running N W) → All (EventKeeps P) es
      → P r.world
      → P (steps renew es r).world
  unfolding steps
  steps-keeps k [] r h p = p
  steps-keeps k (e ∷ es) r (h, hs) p = steps-keeps k es (step renew e r) hs (step-keeps k e r h p)

  wait_for_settlement-keeps :
      ((w : W) → P w → P (renew w).1)
      → (es : List (Event N W)) (r : Running N W) → All (EventKeeps P) es
      → P r.world
      → P (wait_for_settlement renew es r).world
  unfolding wait_for_settlement
  wait_for_settlement-keeps k es r h p =
      if-cases (λ (s : Running N W). P s.world) r.is_settled (λ _. p) (λ _. steps-keeps k es r h p)

  resumed-keeps : (d : Option (Decision N)) (r : Running N W) → P r.world → P (resumed d r).1.world
  resumed-keeps none r p = p
  resumed-keeps (some d) r p = p

  race-keeps :
      ((w : W) → P w → P (renew w).1)
      → (es : List (Event N W)) (w : W) → All (EventKeeps P) es
      → P w
      → P (race renew es w).1.world
  unfolding race
  race-keeps k es w h p =
      resumed-keeps _ (steps renew es (started w)) (steps-keeps k es (started w) h p)

module _ {N W : Type 0} ⦃num : JobNumbers N⦄ (P : W → Type 0) (run : JobRun N W)
    (keeps : KeepsUnapplied run.store P) (job : JobKeeps run.def P) where
  after_grace-keeps : (r : Running N W) → P r.world → P (after_grace run r).world
  unfolding wait_for_settlement
  after_grace-keeps r p =
      wait_for_settlement-keeps P (renew_of run) (λ w p'. keeps.renewal _ w p')
        (run.def.grace_events run.execution r.world) r (job.waiting run.execution r.world) p

  history_outcome-completed :
      (h : Option String) (w : W)
      → Verdict run.store run.claim P OutcomeKind.succeeded w
      → Judged run.store run.claim P (history_outcome h, w)
  history_outcome-completed none w v = v
  history_outcome-completed (some h) w v = v

  succeeded_outcome-Judged :
      (r : Result Message JobTransitionResult) (w : W)
      → (applied_of r ≡ true → Verdict run.store run.claim P OutcomeKind.succeeded w)
      → (applied_of r ≡ false → P w)
      → Judged run.store run.claim P (succeeded_outcome r, w)
  succeeded_outcome-Judged (err e) w v keep = lost (keep refl)
  succeeded_outcome-Judged (ok status) w v keep = elim (Bool-cases status.applied) [
    | inl applied ↦ rw applied (history_outcome-completed status.history_error w (v applied))
    | inr refused ↦ rw refused (lost (keep refused))
  ]

  complete_job-Judged :
      (result : Option (Props N)) (w : W)
      → P w
      → Judged run.store run.claim P (complete_job run result w)
  unfolding complete_job assert_job_transition_result
  complete_job-Judged result w p =
      let call = complete_args run result in
      succeeded_outcome-Judged (transition_of (run.store.mark_succeeded call w).0)
        (run.store.mark_succeeded call w).1 (λ applied. completed call w refl applied)
        (λ refused. keeps.success call w refused p)

  reject_result-Judged : (w : W) → P w → Judged run.store run.claim P (reject_result run w)
  unfolding reject_result mark_failed_state
  reject_result-Judged w p =
      failed-Judged run.store run.claim P keeps OutcomeKind.dead_letter _ (malformed_args run) w
        refl refl p

  on_success-Judged :
      (result : Bool × ResultFields N) (r : Running N W)
      → P r.world
      → JudgedResult run.store run.claim P (on_success run result r)
  unfolding complete_job handle_job_error classify_failure result_error
  on_success-Judged (true, result) r p = complete_job-Judged result.data' r.world p
  on_success-Judged (false, result) r p =
      let error = result_error result in
      handle_job_error-Judged P (failing run error.message (classify_failure error)) keeps r.world p

  on_returned-Judged :
      (result : Option (Bool × ResultFields N)) (r : Running N W)
      → P r.world
      → JudgedResult run.store run.claim P (on_returned run result r)
  unfolding reject_result lose_job complete_job handle_job_error classify_failure result_error
  on_returned-Judged none r p = reject_result-Judged r.world p
  on_returned-Judged (some result) r p =
      if-cases (JudgedResult run.store run.claim P) r.lease_lost (λ _. lost (after_grace-keeps r p))
        (λ _. on_success-Judged result r p)

  on_thrown-Judged :
      (t : Thrown) (r : Running N W)
      → P r.world
      → JudgedResult run.store run.claim P (on_thrown run t r)
  unfolding lose_job handle_job_error classify_failure
  on_thrown-Judged t r p =
      if-cases (JudgedResult run.store run.claim P) r.lease_lost (λ _. lost (after_grace-keeps r p))
        (λ _.
          if-cases
            (λ (args : FailureArgs N W).
              JudgedResult run.store run.claim P (handle_job_error args r.world))
            r.timed_out
            (λ _.
              handle_job_error-Judged P (failing run Message.timed_out JobFailureKind.retryable)
                keeps r.world p)
            (λ _.
              handle_job_error-Judged P (failing run t.message (classify_failure t)) keeps r.world
                p))

  on_timeout-Judged :
      (t : Thrown) (r : Running N W)
      → P r.world
      → JudgedResult run.store run.claim P (on_timeout run t r)
  unfolding lose_job handle_job_error classify_failure
  on_timeout-Judged t r p =
      if-cases (JudgedResult run.store run.claim P) r.is_settled (λ _. on_thrown-Judged t r p)
        (λ _. stopped p)

  on_decision-Judged :
      (d : Decision N) (r : Running N W)
      → P r.world
      → JudgedResult run.store run.claim P (on_decision run (d, r))
  unfolding on_decision
  on_decision-Judged (ok returned) r p = on_returned-Judged (assert_job_result returned) r p
  on_decision-Judged (err t) r p =
      if-cases (JudgedResult run.store run.claim P) r.timed_out
        (λ _. on_timeout-Judged t (after_grace run r) (after_grace-keeps r p))
        (λ _. on_thrown-Judged t r p)

  launched-Judged :
      (start : Option Thrown × W)
      → P start.1
      → JudgedResult run.store run.claim P (launched run start)
  unfolding on_decision race
  launched-Judged (none, w) p =
      let (d, r) = race (renew_of run) (run.def.race_events run.execution w) w in
      on_decision-Judged d r (
        race-keeps P (renew_of run) (λ w' p'. keeps.renewal _ w' p')
          (run.def.race_events run.execution w) w (job.racing run.execution w) p)
  launched-Judged (some t, w) p =
      handle_job_error-Judged P (failing run t.message (classify_failure t)) keeps w p

  pub run_job-Judged : (w : W) → P w → JudgedResult run.store run.claim P (run_job run w)
  unfolding run_job
  run_job-Judged w p =
      launched-Judged (run.def.execute run.execution w) (job.start run.execution w p)
