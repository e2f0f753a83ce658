-- ===== src/Job/Run.antt =====
-- The run of a job in executeJob of packages/core/src/execution/dispatcher.ts: the race, and what
-- follows it. An await outside the race is a single step: the heartbeat is followed to the end of
-- the race and of the grace period. Logging is left out.
use kittle.Base.{
  ℕ, String, ◌===◌, Bool, true, false, Option, none, some, Result, ok, err, if◌then◌else◌,
}
use kittle.Js.{Value, string, Props, get_prop}
use kittle.Job.{JobNumbers}
use kittle.Job.Retry.{RetryPolicy}
use kittle.Job.Store.{
  Message, Claim, FailStatus, JobStore, JobTransitionResult, FailJobArgs, CompleteJobArgs, Reply,
  mark_failed_state, transition_of, assert_job_transition_result,
}
use kittle.Job.Race.{
  Thrown, Returned, not_an_object, fields, ResultFields, Decision, Running, race,
  wait_for_settlement,
}
use kittle.Job.Failure.{
  JobFailureKind, JobDefinition, JobExecution, JobOutcome, OutcomeKind, FailureArgs, outcome,
  failed_outcome, returns, handle_job_error,
}

-- A claimed job whose guards have passed. Attempts: `attempts_completed` and the execution's own.
pub record JobRun (N W : Type 0) : Type 0 where
  pub store : JobStore N W
  pub now : W → N
  pub lease_duration_ms : N
  pub def : JobDefinition N W
  pub retry_policy : RetryPolicy N
  pub claim : Claim N
  pub attempts_completed : ℕ
  pub execution : JobExecution N

abbrev kind_of_text : String → JobFailureKind
kind_of_text s =
    if s === "permanent"
    then JobFailureKind.permanent
    else (if s === "cancelled" then JobFailureKind.cancelled else JobFailureKind.retryable)

abbrev kind_or_retryable : Option String → JobFailureKind
kind_or_retryable none = JobFailureKind.retryable
kind_or_retryable (some s) = kind_of_text s

unfoldable pub classify_failure : Thrown → JobFailureKind
classify_failure t = kind_or_retryable t.kind

-- A text is thrown as it is, without a kind.
abbrev text_error : Message → Thrown
text_error m = record { is_error = false; message = m; kind = none }

module _ {N : Type 0} where
  abbrev message_value : Value N → Message
  message_value (string s) = Message.thrown s
  message_value _ = Message.unsuccessful

  abbrev data_message : Option (Props N) → Message
  data_message none = Message.unsuccessful
  data_message (some ps) = message_value (get_prop "errorMessage" ps)

  abbrev error_or_data : Option Thrown → Option (Props N) → Thrown
  error_or_data none ps = text_error (data_message ps)
  error_or_data (some t) ps = t

  unfoldable pub result_error : ResultFields N → Thrown
  result_error result = error_or_data result.error result.data'

  abbrev success_of : ResultFields N → Option Bool → Option (Bool × ResultFields N)
  success_of result none = none
  success_of result (some b) = some (b, result)

  -- An object with a Boolean `success`, with that Boolean.
  unfoldable pub assert_job_result : Returned N → Option (Bool × ResultFields N)
  assert_job_result not_an_object = none
  assert_job_result (fields result) = success_of result result.success

abbrev pub history_outcome : Option String → JobOutcome
history_outcome none = record { kind = OutcomeKind.succeeded; error = none }
history_outcome (some h) = outcome OutcomeKind.succeeded (Message.thrown h)

abbrev pub succeeded_outcome : Result Message JobTransitionResult → JobOutcome
succeeded_outcome (err e) = outcome OutcomeKind.lease_lost e
succeeded_outcome (ok status) =
    if status.applied
    then history_outcome status.history_error
    else outcome OutcomeKind.lease_lost Message.lease_was_lost

module _ {N W : Type 0} where
  abbrev pub renew_of : JobRun N W → W → Reply N × W
  renew_of run =
      run.store.renew_lease (record { claim = run.claim; extend_by_ms = run.lease_duration_ms })

  abbrev pub failing : JobRun N W → Message → JobFailureKind → FailureArgs N W
  failing run m kind = record {
    store = run.store;
    now = run.now;
    def = run.def;
    retry_policy = run.retry_policy;
    claim = run.claim;
    attempts_completed = run.attempts_completed;
    execution = run.execution;
    error = m;
    failure_kind = kind;
  }

  abbrev pub malformed_args : JobRun N W → FailJobArgs N
  malformed_args run = record {
    claim = run.claim;
    error = Message.result_not_valid;
    status = FailStatus.dead_letter;
    attempt = run.execution.attempt;
  }

  abbrev pub complete_args : JobRun N W → Option (Props N) → CompleteJobArgs N
  complete_args run result = record {
    claim = run.claim;
    attempt = run.execution.attempt;
    result = result;
  }

  -- The end of a grace period, in which the job may still settle.
  abbrev pub after_grace : JobRun N W → Running N W → Running N W
  unfolding wait_for_settlement
  after_grace run r =
      wait_for_settlement (renew_of run) (run.def.grace_events run.execution r.world) r

  unfoldable pub reject_result : JobRun N W → W → JobOutcome × W
  unfolding mark_failed_state
  reject_result run w =
      let (status, w') = mark_failed_state run.store (malformed_args run) w in
      (failed_outcome OutcomeKind.dead_letter Message.result_not_valid status, w')

  unfoldable pub complete_job : JobRun N W → Option (Props N) → W → JobOutcome × W
  unfolding assert_job_transition_result
  complete_job run result w =
      let (reply, w') = run.store.mark_succeeded (complete_args run result) w in
      (succeeded_outcome (transition_of reply), w')

  unfoldable pub lose_job : JobRun N W → Running N W → JobOutcome × W
  unfolding wait_for_settlement
  lose_job run r =
      (outcome OutcomeKind.lease_lost Message.lease_was_lost, (after_grace run r).world)

module _ {N W : Type 0} ⦃num : JobNumbers N⦄ where
  abbrev pub on_success :
      JobRun N W → Bool × ResultFields N → Running N W → Result Message JobOutcome × W
  unfolding complete_job handle_job_error classify_failure result_error
  on_success run (true, result) r = returns (complete_job run result.data' r.world)
  on_success run (false, result) r =
      let error = result_error result in
      handle_job_error (failing run error.message (classify_failure error)) r.world

  -- A result that is not one is checked for before the lease.
  abbrev pub on_returned :
      JobRun N W → Option (Bool × ResultFields N) → Running N W → Result Message JobOutcome × W
  unfolding reject_result lose_job complete_job handle_job_error classify_failure result_error
  on_returned run none r = returns (reject_result run r.world)
  on_returned run (some result) r =
      if r.lease_lost then returns (lose_job run r) else on_success run result r

  -- The catch block, once a job that timed out has had its grace period.
  abbrev pub on_thrown : JobRun N W → Thrown → Running N W → Result Message JobOutcome × W
  unfolding lose_job handle_job_error classify_failure
  on_thrown run t r =
      if r.lease_lost
      then returns (lose_job run r)
      else handle_job_error
          (if r.timed_out
            then failing run Message.timed_out JobFailureKind.retryable
            else failing run t.message (classify_failure t))
          r.world

  abbrev pub on_timeout : JobRun N W → Thrown → Running N W → Result Message JobOutcome × W
  unfolding lose_job handle_job_error classify_failure
  on_timeout run t r =
      if r.is_settled
      then on_thrown run t r
      else (ok (outcome OutcomeKind.stalled Message.not_stopped), r.world)

  unfoldable pub on_decision : JobRun N W → Decision N × Running N W → Result Message JobOutcome × W
  unfolding lose_job handle_job_error classify_failure reject_result complete_job result_error
      assert_job_result wait_for_settlement
  on_decision run (ok returned, r) = on_returned run (assert_job_result returned) r
  on_decision run (err t, r) =
      if r.timed_out then on_timeout run t (after_grace run r) else on_thrown run t r

  -- An `execute` that throws before its first await has no promise to wait for.
  abbrev pub launched : JobRun N W → Option Thrown × W → Result Message JobOutcome × W
  unfolding on_decision race handle_job_error classify_failure
  launched run (none, w) =
      on_decision run (race (renew_of run) (run.def.race_events run.execution w) w)
  launched run (some t, w) = handle_job_error (failing run t.message (classify_failure t)) w

  unfoldable pub run_job : JobRun N W → W → Result Message JobOutcome × W
  unfolding on_decision race handle_job_error classify_failure
  run_job run w = launched run (run.def.execute run.execution w)
