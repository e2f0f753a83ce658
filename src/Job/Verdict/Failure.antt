-- ===== src/Job/Verdict/Failure.antt =====
-- The verdict of handleJobError of packages/core/src/execution/dispatcher.ts.
use kittle.Base.{
  suc, Bool, true, false, ◌≡◌, refl, Option, none, some, Result, ok, err, String, Bool-cases, inl,
  inr,
}
use kittle.Job.{JobNumbers}
use kittle.Job.Retry.{RetryError, should_retry, compute_next_attempt_at}
use kittle.Job.Store.{
  Message, Claim, FailStatus, JobTransitionResult, transition_of, assert_job_transition_result,
  mark_failed_state,
}
use kittle.Job.Failure.{
  JobFailureKind, JobExecution, FailureArgs, OutcomeKind, JobOutcome, handle_job_error,
  hook_outcome, run_hook, after_retrying, retried_outcome, after_dead_letter, dead_letter_outcome,
  fail_args, retry_args, retry_at, retry_if, on_failure_kind, cancel_job, dead_letter_job,
  retry_job, returns,
}
use kittle.Job.Verdict.{
  Verdict, lost, postponed, ended, KeepsUnapplied, applied_of, Judged, JudgedResult, failed-Judged,
}

module _ {N W : Type 0} (claim : Claim N) (P : W → Type 0) (args : FailureArgs N W) where
  hook_outcome-Judged :
      (kind : OutcomeKind) (m : Message) (r : Result Message (Unit {0}) × W)
      → ((w : W) → Verdict args.store claim P kind w)
      → Judged args.store claim P (hook_outcome kind m r)
  hook_outcome-Judged kind m (ok _, w) v = v w
  hook_outcome-Judged kind m (err e, w) v = v w

  run_hook-Judged :
      (kind : OutcomeKind) (m : Message)
      (hook : Option (JobExecution N → Message → W → Result Message (Unit {0}) × W))
      (x : JobExecution N) (w : W)
      → ((w : W) → Verdict args.store claim P kind w)
      → Judged args.store claim P (run_hook kind m hook x w)
  run_hook-Judged kind m none x w v = v w
  run_hook-Judged kind m (some hook) x w v = hook_outcome-Judged kind m (hook x m w) v

  after_retrying-Judged :
      (status : JobTransitionResult) (h : Option String) (w : W)
      → ((w : W) → Verdict args.store claim P OutcomeKind.retried w)
      → Judged args.store claim P (after_retrying args status h w)
  after_retrying-Judged status (some h) w v = v w
  after_retrying-Judged status none w v =
      run_hook-Judged OutcomeKind.retried args.error args.def.on_retry _ w v

  after_dead_letter-Judged :
      (status : JobTransitionResult) (h : Option String) (w : W)
      → ((w : W) → Verdict args.store claim P OutcomeKind.dead_letter w)
      → Judged args.store claim P (after_dead_letter args status h w)
  after_dead_letter-Judged status (some h) w v = v w
  after_dead_letter-Judged status none w v =
      run_hook-Judged OutcomeKind.dead_letter args.error args.def.on_max_retries_exceeded _ w v

  retried_outcome-Judged :
      (r : Result Message JobTransitionResult) (w : W)
      → (applied_of r ≡ true → (w : W) → Verdict args.store claim P OutcomeKind.retried w)
      → (applied_of r ≡ false → P w)
      → Judged args.store claim P (retried_outcome args r w)
  retried_outcome-Judged (err e) w v keep = lost (keep refl)
  retried_outcome-Judged (ok status) w v keep = elim (Bool-cases status.applied) [
    | inl applied ↦ rw applied (after_retrying-Judged status status.history_error w (v applied))
    | inr refused ↦ rw refused (lost (keep refused))
  ]

  dead_letter_outcome-Judged :
      (r : Result Message JobTransitionResult) (w : W)
      → (applied_of r ≡ true → (w : W) → Verdict args.store claim P OutcomeKind.dead_letter w)
      → (applied_of r ≡ false → P w)
      → Judged args.store claim P (dead_letter_outcome args r w)
  dead_letter_outcome-Judged (err e) w v keep = lost (keep refl)
  dead_letter_outcome-Judged (ok status) w v keep = elim (Bool-cases status.applied) [
    | inl applied ↦ rw applied (after_dead_letter-Judged status status.history_error w (v applied))
    | inr refused ↦ rw refused (lost (keep refused))
  ]

  returns-Judged :
      (r : JobOutcome × W)
      → Judged args.store claim P r
      → JudgedResult args.store claim P (returns r)
  returns-Judged (o, w) v = v

module _ {N W : Type 0} ⦃num : JobNumbers N⦄ (P : W → Type 0) (args : FailureArgs N W)
    (keeps : KeepsUnapplied args.store P) where
  cancel_job-Judged : (w : W) → P w → Judged args.store args.claim P (cancel_job args w)
  unfolding cancel_job mark_failed_state
  cancel_job-Judged w p =
      failed-Judged args.store args.claim P keeps OutcomeKind.failed args.error
        (fail_args args FailStatus.cancelled) w refl refl p

  dead_letter_job-Judged : (w : W) → P w → Judged args.store args.claim P (dead_letter_job args w)
  unfolding dead_letter_job assert_job_transition_result
  dead_letter_job-Judged w p =
      let call = fail_args args FailStatus.dead_letter in
      dead_letter_outcome-Judged args.claim P args (transition_of (args.store.mark_failed call w).0)
        (args.store.mark_failed call w).1 (λ applied w'. ended call w refl refl applied)
        (λ refused. keeps.failure call w refused p)

  retry_job-Judged :
      (next : N) (w : W) → P w → Judged args.store args.claim P (retry_job args next w)
  unfolding retry_job assert_job_transition_result
  retry_job-Judged next w p =
      let call = retry_args args next in
      retried_outcome-Judged args.claim P args (transition_of (args.store.mark_retrying call w).0)
        (args.store.mark_retrying call w).1 (λ applied w'. postponed call w refl applied)
        (λ refused. keeps.retrial call w refused p)

  retry_at-Judged :
      (next : Result RetryError (Option N)) (w : W)
      → P w
      → JudgedResult args.store args.claim P (retry_at args next w)
  unfolding dead_letter_job retry_job
  retry_at-Judged (err e) w p = tt
  retry_at-Judged (ok none) w p = dead_letter_job-Judged w p
  retry_at-Judged (ok (some next)) w p = retry_job-Judged next w p

  retry_if-Judged :
      (again : Result RetryError Bool) (w : W)
      → P w
      → JudgedResult args.store args.claim P (retry_if args again w)
  unfolding dead_letter_job retry_job compute_next_attempt_at
  retry_if-Judged (err e) w p = tt
  retry_if-Judged (ok false) w p = dead_letter_job-Judged w p
  retry_if-Judged (ok true) w p =
      retry_at-Judged
        (compute_next_attempt_at args.retry_policy (suc args.attempts_completed) (args.now w)) w p

  on_failure_kind-Judged :
      (kind : JobFailureKind) (w : W)
      → P w
      → JudgedResult args.store args.claim P (on_failure_kind args kind w)
  unfolding cancel_job dead_letter_job retry_job should_retry compute_next_attempt_at
  on_failure_kind-Judged JobFailureKind.cancelled w p = cancel_job-Judged w p
  on_failure_kind-Judged JobFailureKind.permanent w p = dead_letter_job-Judged w p
  on_failure_kind-Judged JobFailureKind.retryable w p =
      retry_if-Judged (should_retry args.retry_policy (suc args.attempts_completed)) w p

  pub handle_job_error-Judged :
      (w : W) → P w → JudgedResult args.store args.claim P (handle_job_error args w)
  unfolding handle_job_error
  handle_job_error-Judged w p = on_failure_kind-Judged args.failure_kind w p
