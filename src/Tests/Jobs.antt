-- ===== src/Tests/Jobs.antt =====
-- A job that sends mail, over a store with one row: whole numbers for doubles.
use mathlib.Core.Path.{subst}
use kittle.Base.{
  Option, ℕ, zero, suc, ◌+◌, ◌*◌, ℤ, pos, negsuc, ltb_ℤ, Bool, true, false, ◌≡◌, refl, [], ◌∷◌,
  none, some, ok, if◌then◌else◌, arith, some-injective,
}
use kittle.Js.{Value, boolean, string, array, object, prop, end, cons, nil}
use kittle.RateLimit.{◌+ℤ◌}
use kittle.Job.{JobNumbers, StoredJob, tenant, assert_stored_job_shape}
use kittle.Job.Shape.{
  IsExact, IsWellFormed, job_value, assert_stored_job_shape-job_value,
  assert_stored_job_shape-IsWellFormed,
}
use kittle.Job.Retry.{
  RetryPolicy, validate_retry_policy, compute_next_attempt_at, get_next_retry_delay, should_retry,
}
use kittle.Job.Retry.Bounds.{IsOrdered, IsNext, compute_next_attempt_at-lem}
use kittle.Job.Store.{Message, Reply, JobStore, system_requester, assert_job_transition_result}
use kittle.Job.Race.{wakes, settles, Returned, fields, step, steps, race}
use kittle.Job.Failure.{
  JobDefinition, JobExecution, JobFailureKind, JobOutcome, OutcomeKind, FailureArgs, outcome,
  retry_job, handle_job_error,
}
use kittle.Job.Run.{
  classify_failure, result_error, assert_job_result, complete_job, on_decision, run_job,
}
use kittle.Job.Execute.{DispatcherConfig, decode_job_payload, execute_job}
use kittle.Job.Dispatch.{
  DispatchResult, validate_dispatcher_config, add_outcome, after_job, dispatch_jobs,
  dispatch_due_jobs,
}
use kittle.Job.Dispatch.Counts.{IsTally, dispatch_due_jobs-IsTally}
use kittle.Job.Verdict.{Verdict, KeepsUnapplied, JobKeeps, is_applied}
use kittle.Job.Verdict.Execute.{ConfigKeeps, claim_for, execute_job-Verdict}
use kittle.Job.Attempts.{IsApplying, failures, retries_then_dead, failures-retries_then_dead}

abbrev times : ℤ → ℤ → ℤ
times (pos a) (pos b) = pos (a * b)
times (negsuc a) (negsuc b) = pos (suc a * suc b)
times (pos zero) (negsuc b) = pos 0
times (pos (suc a)) (negsuc b) = negsuc (a + b + a * b)
times (negsuc a) (pos zero) = pos 0
times (negsuc a) (pos (suc b)) = negsuc (a + b + a * b)

abbrev power : ℤ → ℕ → ℤ
power a zero = pos 1
power a (suc n) = times a (power a n)

abbrev minimum : ℤ → ℤ → ℤ
minimum a b = if ltb_ℤ a b then a else b

instance whole : JobNumbers ℤ
whole = record {
  as_integer = λ z. some z;
  of_nat = pos;
  minus_one = negsuc 0;
  is_finite = λ z. true;
  lt = ltb_ℤ;
  add = ◌+ℤ◌;
  mul = times;
  pow = power;
  min = minimum;
  as_date = λ z. z;
}

times-nonneg :
    (a b : ℤ)
    → ltb_ℤ a (pos 0) ≡ false
    → ltb_ℤ b (pos 0) ≡ false
    → ltb_ℤ (times a b) (pos 0) ≡ false
times-nonneg (pos a) (pos b) h k = ground arith
times-nonneg (negsuc a) b h k = absurd (let f : ⊥ = ground arith in f)
times-nonneg (pos a) (negsuc b) h k = absurd (let f : ⊥ = ground arith in f)

power-nonneg : (a : ℤ) (n : ℕ) → ltb_ℤ (pos 0) a ≡ true → ltb_ℤ (power a n) (pos 0) ≡ false
power-nonneg a zero h = ground arith
power-nonneg a (suc n) h = times-nonneg a (power a n) (ground arith) (power-nonneg a n h)

whole-IsOrdered : IsOrdered whole
unfolding whole
whole-IsOrdered = record {
  minus_one-negative = refl;
  mul-nonneg = times-nonneg;
  pow-nonneg = power-nonneg;
  lt-irrefl = λ a. ground arith;
  min-lem = λ a b h. ground arith;
}

whole-IsExact : IsExact whole
unfolding whole
whole-IsExact = record { exact = λ n h. refl }

-- The one row of the store: its job still runs, or has come to a transition.
data Row : Type 0 where
  running done : Row

abbrev transition : Bool → Value ℤ
transition applied = object 9 (prop "applied" (boolean applied) end)

-- A transition is applied to a running job alone.
abbrev move : {A : Type 0} → A → Row → Reply ℤ × Row
move args running = (ok (transition true), done)
move args done = (ok (transition false), done)

abbrev mail_row : StoredJob ℤ
mail_row = record {
  id = "job-1";
  job_type = "mail";
  job_version = 1;
  scope = tenant;
  tenant_id = some "acme";
  payload = "{}";
  attempts_completed = 0;
  current_attempt = 1;
  max_attempts = some 3;
  claim_token = some "fence";
  correlation_id = none;
  metadata = none;
}

abbrev mail_value : Value ℤ
unfolding job_value whole
mail_value = job_value mail_row

abbrev one_row : JobStore ℤ Row
one_row = record {
  claim_due = λ args w. (ok (array 5 (cons mail_value nil)), w);
  renew_lease = λ args w. (ok (boolean true), w);
  mark_succeeded = move;
  mark_retrying = move;
  mark_failed = move;
}

abbrev result : Bool → Returned ℤ
result success = fields (record { success = some success; data' = none; error = none })

-- The heartbeat renews the lease once while the job runs.
abbrev mail_job : Bool → JobDefinition ℤ Row
mail_job success = record {
  scope = tenant;
  max_attempts = some (pos 5);
  retry_delay_ms = pos 1000;
  retry_backoff_multiplier = pos 2;
  timeout_ms = none;
  decode_payload = λ v. ok v;
  execute = λ x w. (none, w);
  race_events = λ x w. wakes ∷ settles (ok (result success)) ∷ [];
  grace_events = λ x w. [];
  on_retry = none;
  on_max_retries_exceeded = none;
}

abbrev mail_config : Bool → DispatcherConfig ℤ Row
mail_config success = record {
  store = one_row;
  registry = λ s n. some (mail_job success);
  worker_id = "worker";
  lease_duration_ms = pos 30000;
  claim_limit = some (pos 10);
  requester = system_requester;
  timeout_policy = none;
  now = λ w. pos 500;
  parse_json = λ s. some (object 3 end);
}

mail_row-IsWellFormed : IsWellFormed mail_row
mail_row-IsWellFormed = record {
  named = refl;
  typed = refl;
  versioned = (refl, refl);
  completed = refl;
  current = refl;
  limited = refl;
}

assert_stored_job_shape-job_value_example :
    assert_stored_job_shape (job_value mail_row) ≡ ok mail_row
assert_stored_job_shape-job_value_example =
    assert_stored_job_shape-job_value mail_row whole-IsExact mail_row-IsWellFormed

mail_read : assert_stored_job_shape (job_value mail_row) ≡ ok mail_row
unfolding assert_stored_job_shape job_value whole
mail_read = refl

assert_stored_job_shape-IsWellFormed_example : IsWellFormed mail_row
assert_stored_job_shape-IsWellFormed_example =
    assert_stored_job_shape-IsWellFormed (job_value mail_row) mail_row mail_read

abbrev doubling : RetryPolicy ℤ
doubling = record {
  max_attempts = some (pos 4);
  delay_ms = pos 1000;
  backoff_multiplier = pos 2;
  max_delay_ms = some (pos 3000);
}

doubling_valid : validate_retry_policy doubling ≡ ok tt
unfolding validate_retry_policy whole
doubling_valid = refl

-- The third delay is four seconds, cut to three.
third_capped : compute_next_attempt_at doubling 3 (pos 500) ≡ ok (some (pos 3500))
unfolding compute_next_attempt_at get_next_retry_delay whole
third_capped = refl

compute_next_attempt_at-lem_example :
    (next : Option ℤ) × (compute_next_attempt_at doubling 3 (pos 500) ≡ ok next)
    × IsNext doubling 2 (pos 500) next
compute_next_attempt_at-lem_example =
    compute_next_attempt_at-lem whole-IsOrdered doubling 2 (pos 500) doubling_valid

abbrev sent : JobOutcome
sent = record { kind = OutcomeKind.succeeded; error = none }

mail_sent : (execute_job (mail_config true) mail_value running).0 ≡ ok sent
unfolding execute_job job_value whole assert_stored_job_shape validate_retry_policy
    decode_job_payload run_job race steps step on_decision complete_job assert_job_result
    assert_job_transition_result
mail_sent = refl

move_keeps :
    {A : Type 0} (args : A) (w : Row)
    → is_applied (move args w).0 ≡ false
    → w ≡ running
    → (move args w).1 ≡ running
unfolding assert_job_transition_result
move_keeps args running h p = absurd (let f : ⊥ = cc in f)
move_keeps args done h p = p

one_row-KeepsUnapplied : KeepsUnapplied one_row (λ w. w ≡ running)
one_row-KeepsUnapplied = record {
  renewal = λ args w p. p;
  success = move_keeps;
  retrial = move_keeps;
  failure = move_keeps;
}

mail_job-JobKeeps : (success : Bool) → JobKeeps (mail_job success) (λ w. w ≡ running)
mail_job-JobKeeps success = record {
  start = λ x w p. p;
  racing = λ x w. (tt, (tt, tt));
  waiting = λ x w. tt;
}

mail_config-ConfigKeeps : ConfigKeeps (mail_config true) (λ w. w ≡ running)
mail_config-ConfigKeeps = record {
  store = one_row-KeepsUnapplied;
  jobs = λ s n def found.
      subst (λ d. JobKeeps d (λ w. w ≡ running)) (some-injective found) (mail_job-JobKeeps true);
}

execute_job-Verdict_example :
    Verdict one_row
      (claim_for (mail_config true) mail_value)
      (λ w. w ≡ running)
      OutcomeKind.succeeded
      (execute_job (mail_config true) mail_value running).1
execute_job-Verdict_example =
    execute_job-Verdict (mail_config true) (λ w. w ≡ running) mail_config-ConfigKeeps mail_value
      running sent refl mail_sent

abbrev one_sent : DispatchResult ℤ
one_sent = record {
  claimed = 1;
  succeeded = 1;
  failed = 0;
  retried = 0;
  dead_lettered = 0;
  lease_lost = 0;
  stalled = 0;
  errors = [];
}

one_dispatched : (dispatch_due_jobs (mail_config true) running).0 ≡ ok one_sent
unfolding dispatch_due_jobs validate_dispatcher_config dispatch_jobs after_job add_outcome
    execute_job job_value whole assert_stored_job_shape validate_retry_policy decode_job_payload
    run_job race steps step on_decision complete_job assert_job_result assert_job_transition_result
one_dispatched = refl

dispatch_due_jobs-IsTally_example : IsTally (mail_config true) running one_sent
dispatch_due_jobs-IsTally_example =
    dispatch_due_jobs-IsTally (mail_config true) running one_sent one_dispatched

-- A store that applies all it is asked.
abbrev willing : JobStore ℤ Row
willing = record {
  claim_due = λ args w. (ok (array 5 nil), w);
  renew_lease = λ args w. (ok (boolean true), w);
  mark_succeeded = λ args w. (ok (transition true), w);
  mark_retrying = λ args w. (ok (transition true), w);
  mark_failed = λ args w. (ok (transition true), w);
}

willing-IsApplying : IsApplying willing
unfolding assert_job_transition_result
willing-IsApplying = record { retrial = λ args w. refl; failure = λ args w. refl }

abbrev mail_execution : JobExecution ℤ
mail_execution = record {
  job_id = "job-1";
  job_type = "mail";
  job_version = 1;
  attempt = 1;
  tenant_id = some "acme";
  correlation_id = "";
  started_at = pos 500;
  deadline = pos 30500;
  metadata = end;
  payload = object 3 end;
  transition_token = none;
}

abbrev bounced : FailureArgs ℤ Row
bounced = record {
  store = willing;
  now = λ w. pos 500;
  def = mail_job false;
  retry_policy = doubling;
  claim = record { job_id = "job-1"; worker_id = "worker"; claim_token = string "fence" };
  attempts_completed = 0;
  execution = mail_execution;
  error = Message.thrown "bounced";
  failure_kind = JobFailureKind.retryable;
}

failures-retries_then_dead_example : failures 4 bounced running ≡ retries_then_dead 3
failures-retries_then_dead_example =
    failures-retries_then_dead whole-IsOrdered 3 bounced running willing-IsApplying doubling_valid
      refl refl

abbrev unsent : JobOutcome
unsent = outcome OutcomeKind.retried Message.unsuccessful

mail_unsent : (execute_job (mail_config false) mail_value running).0 ≡ ok unsent
unfolding execute_job job_value whole assert_stored_job_shape validate_retry_policy
    decode_job_payload run_job race steps step on_decision complete_job assert_job_result
    assert_job_transition_result handle_job_error should_retry compute_next_attempt_at
    get_next_retry_delay retry_job classify_failure result_error
mail_unsent = refl
