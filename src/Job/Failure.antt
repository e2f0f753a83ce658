-- ===== src/Job/Failure.antt =====
-- handleJobError of packages/core/src/execution/dispatcher.ts, with the job definitions and the
-- outcomes of that file and of packages/core/src/execution/types.ts. Logging is left out.
use kittle.Base.{
  ℕ, suc, ℤ, String, Bool, true, false, List, Option, none, some, Result, ok, err, if◌then◌else◌,
}
use kittle.Js.{Value, Props}
use kittle.Job.{JobNumbers, JobScope}
use kittle.Job.Retry.{RetryPolicy, RetryError, should_retry, compute_next_attempt_at}
use kittle.Job.Store.{
  Message, joined, hook_failed, Claim, FailStatus, JobStore, JobTransitionResult, RetryJobArgs,
  FailJobArgs, FailedState, mark_failed_state, transition_of, assert_job_transition_result,
}
use kittle.Job.Race.{Event, Thrown}

pub data JobFailureKind : Type 0 where
  retryable permanent cancelled : JobFailureKind

pub data OutcomeKind : Type 0 where
  succeeded retried failed dead_letter lease_lost stalled : OutcomeKind

pub record JobOutcome : Type 0 where
  pub kind : OutcomeKind
  pub error : Option Message

pub record JobExecution (N : Type 0) : Type 0 where
  pub job_id : String
  pub job_type : String
  pub job_version : ℕ
  pub attempt : ℕ
  pub tenant_id : Option String
  pub correlation_id : String
  pub started_at : N
  pub deadline : N
  pub metadata : Props N
  pub payload : Value N
  pub transition_token : Option String

-- `execute` runs up to its first await, and throws or returns a promise; the events are those of
-- the race and of a grace period after it.
pub record JobDefinition (N W : Type 0) : Type 0 where
  pub scope : JobScope
  pub max_attempts : Option ℤ
  pub retry_delay_ms : N
  pub retry_backoff_multiplier : N
  pub timeout_ms : Option N
  pub decode_payload : Value N → Result Thrown (Value N)
  pub execute : JobExecution N → W → Option Thrown × W
  pub race_events : JobExecution N → W → List (Event N W)
  pub grace_events : JobExecution N → W → List (Event N W)
  pub on_retry : Option (JobExecution N → Message → W → Result Message (Unit {0}) × W)
  pub on_max_retries_exceeded :
      Option (JobExecution N → Message → W → Result Message (Unit {0}) × W)

pub record FailureArgs (N W : Type 0) : Type 0 where
  pub store : JobStore N W
  pub now : W → N
  pub def : JobDefinition N W
  pub retry_policy : RetryPolicy N
  pub claim : Claim N
  pub attempts_completed : ℕ
  pub execution : JobExecution N
  pub error : Message
  pub failure_kind : JobFailureKind

abbrev pub outcome : OutcomeKind → Message → JobOutcome
outcome kind m = record { kind = kind; error = some m }

abbrev or_else_message : Option Message → Message → Message
or_else_message none m = m
or_else_message (some e) m = e

-- A claim that was to be failed: the outcome, or a lost lease where the store did not apply it.
abbrev pub failed_outcome : OutcomeKind → Message → FailedState → JobOutcome
failed_outcome kind m status =
    if status.applied
    then outcome kind m
    else outcome OutcomeKind.lease_lost (or_else_message status.error m)

-- The token of an applied transition goes to the hook.
abbrev pub with_token : {N : Type 0} → Option String → JobExecution N → JobExecution N
with_token none x = x
with_token (some token) x = record x { transition_token = some token }

abbrev pub hook_outcome :
    {W : Type 0} → OutcomeKind → Message → Result Message (Unit {0}) × W → JobOutcome × W
hook_outcome kind m (ok _, w) = (outcome kind m, w)
hook_outcome kind m (err e, w) = (outcome kind (hook_failed m e), w)

abbrev pub returns : {W : Type 0} → JobOutcome × W → Result Message JobOutcome × W
returns (o, w) = (ok o, w)

module _ {N W : Type 0} where
  abbrev pub run_hook :
      OutcomeKind
      → Message
      → Option (JobExecution N → Message → W → Result Message (Unit {0}) × W)
      → JobExecution N
      → W
      → JobOutcome × W
  run_hook kind m none x w = (outcome kind m, w)
  run_hook kind m (some hook) x w = hook_outcome kind m (hook x m w)

  abbrev pub after_retrying :
      FailureArgs N W → JobTransitionResult → Option String → W → JobOutcome × W
  after_retrying args status (some h) w = (outcome OutcomeKind.retried (Message.thrown h), w)
  after_retrying args status none w =
      run_hook OutcomeKind.retried args.error args.def.on_retry
        (with_token status.transition_token args.execution) w

  abbrev pub retried_outcome :
      FailureArgs N W → Result Message JobTransitionResult → W → JobOutcome × W
  retried_outcome args (err e) w = (outcome OutcomeKind.lease_lost e, w)
  retried_outcome args (ok status) w =
      if status.applied
      then after_retrying args status status.history_error w
      else (outcome OutcomeKind.lease_lost args.error, w)

  abbrev pub after_dead_letter :
      FailureArgs N W → JobTransitionResult → Option String → W → JobOutcome × W
  after_dead_letter args status (some h) w =
      (outcome OutcomeKind.dead_letter (joined args.error (Message.thrown h)), w)
  after_dead_letter args status none w =
      run_hook OutcomeKind.dead_letter args.error args.def.on_max_retries_exceeded
        (with_token status.transition_token args.execution) w

  abbrev pub dead_letter_outcome :
      FailureArgs N W → Result Message JobTransitionResult → W → JobOutcome × W
  dead_letter_outcome args (err e) w = (outcome OutcomeKind.lease_lost e, w)
  dead_letter_outcome args (ok status) w =
      if status.applied
      then after_dead_letter args status status.history_error w
      else (outcome OutcomeKind.lease_lost args.error, w)

  abbrev pub fail_args : FailureArgs N W → FailStatus → FailJobArgs N
  fail_args args status = record {
    claim = args.claim;
    error = args.error;
    status = status;
    attempt = suc args.attempts_completed;
  }

  abbrev pub retry_args : FailureArgs N W → N → RetryJobArgs N
  retry_args args next = record {
    claim = args.claim;
    next_attempt_at = next;
    error = args.error;
    attempt = suc args.attempts_completed;
  }

  unfoldable pub cancel_job : FailureArgs N W → W → JobOutcome × W
  unfolding mark_failed_state
  cancel_job args w =
      let (status, w') = mark_failed_state args.store (fail_args args FailStatus.cancelled) w in
      (failed_outcome OutcomeKind.failed args.error status, w')

  unfoldable pub dead_letter_job : FailureArgs N W → W → JobOutcome × W
  unfolding assert_job_transition_result
  dead_letter_job args w =
      let (reply, w') = args.store.mark_failed (fail_args args FailStatus.dead_letter) w in
      dead_letter_outcome args (transition_of reply) w'

  unfoldable pub retry_job : FailureArgs N W → N → W → JobOutcome × W
  unfolding assert_job_transition_result
  retry_job args next w =
      let (reply, w') = args.store.mark_retrying (retry_args args next) w in
      retried_outcome args (transition_of reply) w'

  -- `if (nextAttemptAt)`; otherwise the job is dead-lettered.
  abbrev pub retry_at :
      FailureArgs N W → Result RetryError (Option N) → W → Result Message JobOutcome × W
  unfolding retry_job dead_letter_job
  retry_at args (err e) w = (err (Message.of_policy e), w)
  retry_at args (ok none) w = returns (dead_letter_job args w)
  retry_at args (ok (some next)) w = returns (retry_job args next w)

module _ {N W : Type 0} ⦃num : JobNumbers N⦄ where
  abbrev pub retry_if : FailureArgs N W → Result RetryError Bool → W → Result Message JobOutcome × W
  unfolding dead_letter_job retry_job compute_next_attempt_at
  retry_if args (err e) w = (err (Message.of_policy e), w)
  retry_if args (ok false) w = returns (dead_letter_job args w)
  retry_if args (ok true) w =
      retry_at args
        (compute_next_attempt_at args.retry_policy (suc args.attempts_completed) (args.now w)) w

  abbrev pub on_failure_kind : FailureArgs N W → JobFailureKind → W → Result Message JobOutcome × W
  unfolding cancel_job dead_letter_job retry_job should_retry compute_next_attempt_at
  on_failure_kind args cancelled w = returns (cancel_job args w)
  on_failure_kind args retryable w =
      retry_if args (should_retry args.retry_policy (suc args.attempts_completed)) w
  on_failure_kind args permanent w = returns (dead_letter_job args w)

  unfoldable pub handle_job_error : FailureArgs N W → W → Result Message JobOutcome × W
  unfolding cancel_job dead_letter_job retry_job should_retry compute_next_attempt_at
  handle_job_error args w = on_failure_kind args args.failure_kind w
