-- ===== src/Job/Store.antt =====
-- The job store as packages/core/src/execution/dispatcher.ts calls it, with the arguments of
-- packages/core/src/execution/types.ts, assertJobTransitionResult there, and markFailedState. The
-- store is a parameter: operations on a state `W`, which is all that the calls change. A message is
-- a constructor, with the text of an error that was thrown to the dispatcher.
use kittle.Base.{
  ℕ, ℤ, String, ◌===◌, Bool, true, false, List, Option, none, some, Result, ok, err, ◌>>=◌,
  if◌then◌else◌,
}
use kittle.Js.{Value, undefined, boolean, string, Props, get_prop}
use kittle.Job.{ShapeError, plain_object}
use kittle.Job.Retry.{RetryError}

pub data TransitionError : Type 0 where
  result_not_object bad_applied bad_reason bad_token bad_history : TransitionError

pub data ConfigError : Type 0 where
  blank_worker bad_claim_limit claim_limit_exceeded bad_lease_duration bad_mode bad_grace
        bad_timeout jobs_not_array :
      ConfigError

-- The messages of the errors that the dispatcher makes, hands on or is given.
pub data Message : Type 0 where
  thrown : String → Message
  no_claim_token lease_was_lost unknown_definition scope_mismatch payload_not_json
        payload_not_object schema_failed result_not_valid unsuccessful not_stopped timed_out
        history_not_persisted no_job :
      Message
  of_config : ConfigError → Message
  of_shape : ShapeError → Message
  of_policy : RetryError → Message
  of_transition : TransitionError → Message
  attempts_exceeded : ℕ → Message
  joined hook_failed : Message → Message → Message

pub data TransitionReason : Type 0 where
  lease_lost invalid_state history_failed : TransitionReason

pub record JobTransitionResult : Type 0 where
  pub applied : Bool
  pub reason : Option TransitionReason
  pub transition_token : Option String
  pub history_error : Option String

-- The three fields by which a call names the claim that it acts under.
pub record Claim (N : Type 0) : Type 0 where
  pub job_id : String
  pub worker_id : String
  pub claim_token : Value N

pub data FailStatus : Type 0 where
  failed dead_letter cancelled : FailStatus

pub data JobEnqueueCapability : Type 0 where
  enqueue_platform enqueue_system : JobEnqueueCapability

pub data JobRequester : Type 0 where
  system_requester : JobRequester
  platform_requester :
      (actor_id : String) (capabilities : Option (List JobEnqueueCapability)) → JobRequester
  tenant_requester : (tenant_id actor_id : String) → JobRequester

pub record ClaimDueJobsArgs (N : Type 0) : Type 0 where
  pub limit : Option ℤ
  pub worker_id : String
  pub lease_duration_ms : N
  pub requester : JobRequester
  pub now : N

pub record RenewLeaseArgs (N : Type 0) : Type 0 where
  pub claim : Claim N
  pub extend_by_ms : N

pub record CompleteJobArgs (N : Type 0) : Type 0 where
  pub claim : Claim N
  pub attempt : ℕ
  pub result : Option (Props N)

pub record RetryJobArgs (N : Type 0) : Type 0 where
  pub claim : Claim N
  pub next_attempt_at : N
  pub error : Message
  pub attempt : ℕ

pub record FailJobArgs (N : Type 0) : Type 0 where
  pub claim : Claim N
  pub error : Message
  pub status : FailStatus
  pub attempt : ℕ

-- What a call of the store gives, which is not trusted to be of its type.
abbrev pub Reply : Type 0 → Type 0
Reply N = Result Message (Value N)

pub record JobStore (N W : Type 0) : Type 0 where
  pub claim_due : ClaimDueJobsArgs N → W → Reply N × W
  pub renew_lease : RenewLeaseArgs N → W → Reply N × W
  pub mark_succeeded : CompleteJobArgs N → W → Reply N × W
  pub mark_retrying : RetryJobArgs N → W → Reply N × W
  pub mark_failed : FailJobArgs N → W → Reply N × W

abbrev or_reject : {A : Type 0} → Option A → TransitionError → Result Message A
or_reject none e = err (Message.of_transition e)
or_reject (some a) e = ok a

-- `JOB_TRANSITION_REASONS.includes(reason)`
abbrev reason_of : String → Option (Option TransitionReason)
reason_of s =
    if s === "LEASE_LOST"
    then some (some lease_lost)
    else (if s === "INVALID_STATE"
        then some (some invalid_state)
        else (if s === "HISTORY_FAILED" then some (some history_failed) else none))

abbrev pub or_else_text : Option String → Message → Message
or_else_text none m = m
or_else_text (some s) m = Message.thrown s

module _ {N : Type 0} where
  abbrev boolean_value : Value N → Option Bool
  boolean_value (boolean b) = some b
  boolean_value _ = none

  abbrev reason_value : Value N → Option (Option TransitionReason)
  reason_value undefined = some none
  reason_value (string s) = reason_of s
  reason_value _ = none

  -- A text that is not empty, or undefined.
  abbrev optional_text : Value N → Option (Option String)
  optional_text undefined = some none
  optional_text (string s) = if s === "" then none else some (some s)
  optional_text _ = none

  unfoldable pub assert_job_transition_result : Value N → Result Message JobTransitionResult
  assert_job_transition_result v = do
    ps ← or_reject (plain_object v) TransitionError.result_not_object
    applied ← or_reject (boolean_value (get_prop "applied" ps)) TransitionError.bad_applied
    reason ← or_reject (reason_value (get_prop "reason" ps)) TransitionError.bad_reason
    token ← or_reject (optional_text (get_prop "transitionToken" ps)) TransitionError.bad_token
    history ← or_reject (optional_text (get_prop "historyError" ps)) TransitionError.bad_history
    ok record {
      applied = applied;
      reason = reason;
      transition_token = token;
      history_error = history;
    }

  -- A call's transition, if it neither throws nor is malformed.
  abbrev pub transition_of : Reply N → Result Message JobTransitionResult
  unfolding assert_job_transition_result
  transition_of reply = reply >>= λ v. assert_job_transition_result v

-- What markFailedState resolves to.
pub record FailedState : Type 0 where
  pub applied : Bool
  pub error : Option Message

abbrev refusal : Option TransitionReason → Option String → Message
refusal (some history_failed) history = or_else_text history Message.history_not_persisted
refusal _ history = Message.lease_was_lost

abbrev pub failed_state : Result Message JobTransitionResult → FailedState
failed_state (err e) = record { applied = false; error = some e }
failed_state (ok status) =
    if status.applied
    then record { applied = true; error = none }
    else record { applied = false; error = some (refusal status.reason status.history_error) }

module _ {N W : Type 0} where
  unfoldable pub mark_failed_state : JobStore N W → FailJobArgs N → W → FailedState × W
  unfolding assert_job_transition_result
  mark_failed_state store args w =
      let (reply, w') = store.mark_failed args w in (failed_state (transition_of reply), w')
