-- ===== src/Job/Execute.antt =====
-- executeJob of packages/core/src/execution/dispatcher.ts: its guards in their order, then
-- the run. Logging is left out.
use kittle.Base.{
  ℕ, suc, ℤ, pos, ltb_ℤ, String, ◌===◌, Bool, ◌||◌, true, false, negate, Option, none, some, Result,
  ok, err, if◌then◌else◌,
}
use kittle.Js.{Value, undefined, null, boolean, number, string, date, object, end, get_prop}
use kittle.Job.{
  JobNumbers, JobScope, ShapeError, tenant, platform, system, StoredJob, counter, props_of,
  assert_stored_job_shape,
}
use kittle.Job.Retry.{RetryPolicy, RetryError, validate_retry_policy}
use kittle.Job.Store.{Message, Claim, FailStatus, JobStore, JobRequester, Reply, mark_failed_state}
use kittle.Job.Race.{Thrown, is_renewed}
use kittle.Job.Failure.{
  JobDefinition, JobExecution, JobOutcome, OutcomeKind, outcome, failed_outcome,
}
use kittle.Job.Run.{JobRun, run_job}

pub record JobTimeoutPolicy (N : Type 0) : Type 0 where
  pub mode : String
  pub timeout_ms : Option N
  pub cancellation_grace_ms : N

-- `parse_json` is `JSON.parse`, and `now` the clock.
pub record DispatcherConfig (N W : Type 0) : Type 0 where
  pub store : JobStore N W
  pub registry : String → ℕ → Option (JobDefinition N W)
  pub worker_id : String
  pub lease_duration_ms : N
  pub claim_limit : Option ℤ
  pub requester : JobRequester
  pub timeout_policy : Option (JobTimeoutPolicy N)
  pub now : W → N
  pub parse_json : String → Option (Value N)

abbrev invalid_payload : Thrown → Message
invalid_payload t = if t.is_error then t.message else Message.schema_failed

abbrev pub same_scope : JobScope → JobScope → Bool
same_scope tenant tenant = true
same_scope platform platform = true
same_scope system system = true
same_scope _ _ = false

-- `job.currentAttempt > retryPolicy.maxAttempts`
abbrev pub is_beyond : ℕ → Option ℤ → Bool
is_beyond attempt none = false
is_beyond attempt (some z) = ltb_ℤ z (pos attempt)

abbrev or_default : {A : Type 0} → Option A → A → A
or_default none a = a
or_default (some b) a = b

abbrev has_attempts : Option ℤ → Option ℕ → Option ℤ
has_attempts limit none = limit
has_attempts limit (some n) = some (pos n)

abbrev pub raw_attempt : Option ℕ → ℕ
raw_attempt none = 1
raw_attempt (some n) = suc n

module _ {N : Type 0} where
  abbrev decoded_by : (Value N → Result Thrown (Value N)) → Value N → Result Message (Value N)
  decoded_by decode v = elim (decode v) [
    | err t ↦ err (invalid_payload t)
    | ok payload ↦ ok payload
  ]

  abbrev decoded : Option (Value N) → (Value N → Result Thrown (Value N)) → Result Message (Value N)
  decoded none decode = err Message.payload_not_json
  decoded (some (object i ps)) decode = decoded_by decode (object i ps)
  decoded (some (date x)) decode = decoded_by decode (date x)
  decoded (some _) decode = err Message.payload_not_object

  unfoldable pub decode_job_payload :
      (String → Option (Value N))
      → String
      → (Value N → Result Thrown (Value N))
      → Result Message (Value N)
  decode_job_payload parse payload decode = decoded (parse payload) decode

  abbrev pub claim_of : String → String → Value N → Claim N
  claim_of id worker token = record { job_id = id; worker_id = worker; claim_token = token }

  -- `typeof raw.id === "string" ? raw.id : "unknown"`
  abbrev pub raw_id : Value N → String
  raw_id (string s) = s
  raw_id _ = "unknown"

  abbrev pub policy_of : {W : Type 0} → JobDefinition N W → StoredJob N → RetryPolicy N
  policy_of def job = record {
    max_attempts = has_attempts def.max_attempts job.max_attempts;
    delay_ms = def.retry_delay_ms;
    backoff_multiplier = def.retry_backoff_multiplier;
    max_delay_ms = none;
  }

  abbrev timeout_of : Option (JobTimeoutPolicy N) → Option N → N → N
  timeout_of none limit lease = or_default limit lease
  timeout_of (some policy) limit lease = or_default policy.timeout_ms (or_default limit lease)

module _ {N : Type 0} ⦃num : JobNumbers N⦄ where
  abbrev pub is_truthy : Value N → Bool
  is_truthy undefined = false
  is_truthy null = false
  is_truthy (boolean b) = b
  is_truthy (number x) = num.lt x (num.of_nat 0) || num.lt (num.of_nat 0) x
  is_truthy (string s) = negate (s === "")
  is_truthy _ = true

  abbrev pub job_claim_token : Value N → Result Message (Value N)
  job_claim_token undefined = err Message.no_job
  job_claim_token null = err Message.no_job
  job_claim_token (object _ ps) = ok (get_prop "claimToken" ps)
  job_claim_token _ = ok undefined

module _ {N W : Type 0} ⦃num : JobNumbers N⦄ (config : DispatcherConfig N W) where
  -- markFailedState, and the outcome of a job that was to be failed.
  unfoldable pub fail_claim :
      Claim N → Message → FailStatus → OutcomeKind → ℕ → W → Result Message JobOutcome × W
  unfolding mark_failed_state
  fail_claim claim m status kind attempt w =
      let (state, w') =
        mark_failed_state config.store
          (record { claim = claim; error = m; status = status; attempt = attempt }) w in
      (ok (failed_outcome kind m state), w')

  abbrev pub dead_letter : Claim N → Message → ℕ → W → Result Message JobOutcome × W
  unfolding fail_claim
  dead_letter claim m attempt w =
      fail_claim claim m FailStatus.dead_letter OutcomeKind.dead_letter attempt w

  abbrev pub execution_of : JobDefinition N W → StoredJob N → Value N → W → JobExecution N
  execution_of def job payload w = record {
    job_id = job.id;
    job_type = job.job_type;
    job_version = job.job_version;
    attempt = job.current_attempt;
    tenant_id = job.tenant_id;
    correlation_id = or_default job.correlation_id "";
    started_at = config.now w;
    deadline =
        num.add (config.now w)
          (timeout_of config.timeout_policy def.timeout_ms config.lease_duration_ms);
    metadata = or_default job.metadata end;
    payload = payload;
    transition_token = none;
  }

  abbrev pub run_of : Claim N → JobDefinition N W → StoredJob N → Value N → W → JobRun N W
  run_of claim def job payload w = record {
    store = config.store;
    now = config.now;
    lease_duration_ms = config.lease_duration_ms;
    def = def;
    retry_policy = policy_of def job;
    claim = claim;
    attempts_completed = job.attempts_completed;
    execution = execution_of def job payload w;
  }

  abbrev pub with_payload :
      Claim N
      → JobDefinition N W
      → StoredJob N
      → Result Message (Value N)
      → W
      → Result Message JobOutcome × W
  unfolding fail_claim run_job
  with_payload claim def job (err m) w = dead_letter claim m job.current_attempt w
  with_payload claim def job (ok payload) w = run_job (run_of claim def job payload w) w

  abbrev pub with_policy :
      Claim N
      → JobDefinition N W
      → StoredJob N
      → Result RetryError (Unit {0})
      → W
      → Result Message JobOutcome × W
  unfolding fail_claim run_job decode_job_payload
  with_policy claim def job (err e) w =
      dead_letter claim (Message.of_policy e) job.current_attempt w
  with_policy claim def job (ok _) w =
      if is_beyond job.current_attempt (policy_of def job).max_attempts
      then dead_letter claim (Message.attempts_exceeded job.current_attempt) job.current_attempt w
      else with_payload claim def job
          (decode_job_payload config.parse_json job.payload def.decode_payload) w

  abbrev pub with_definition :
      Claim N → StoredJob N → Option (JobDefinition N W) → W → Result Message JobOutcome × W
  unfolding fail_claim run_job decode_job_payload validate_retry_policy
  with_definition claim job none w =
      fail_claim claim Message.unknown_definition FailStatus.failed OutcomeKind.failed
        (suc job.attempts_completed) w
  with_definition claim job (some def) w =
      if same_scope job.scope def.scope
      then with_policy claim def job (validate_retry_policy (policy_of def job)) w
      else dead_letter claim Message.scope_mismatch job.current_attempt w

  -- The lease is renewed at once before the run; a renewal that is refused or throws loses it.
  abbrev pub refenced : Claim N → StoredJob N → Reply N × W → Result Message JobOutcome × W
  unfolding fail_claim run_job decode_job_payload validate_retry_policy
  refenced claim job (err e, w) = (ok (outcome OutcomeKind.lease_lost e), w)
  refenced claim job (ok v, w) =
      if is_renewed (ok v)
      then with_definition claim job (config.registry job.job_type job.job_version) w
      else (ok (outcome OutcomeKind.lease_lost Message.lease_was_lost), w)

  abbrev pub with_shape :
      Value N → Value N → Result ShapeError (StoredJob N) → W → Result Message JobOutcome × W
  unfolding fail_claim run_job decode_job_payload validate_retry_policy
  with_shape v token (err e) w =
      let ps = props_of v in
      dead_letter (claim_of (raw_id (get_prop "id" ps)) config.worker_id token) (Message.of_shape e)
        (raw_attempt (counter (get_prop "attemptsCompleted" ps))) w
  with_shape v token (ok job) w =
      let claim = claim_of job.id config.worker_id token in
      refenced claim job (
        config.store.renew_lease (record { claim = claim; extend_by_ms = config.lease_duration_ms })
          w)

  abbrev pub with_claim_token :
      Value N → Result Message (Value N) → W → Result Message JobOutcome × W
  unfolding fail_claim run_job decode_job_payload validate_retry_policy assert_stored_job_shape
  with_claim_token v (err m) w = (err m, w)
  with_claim_token v (ok token) w =
      if is_truthy token
      then with_shape v token (assert_stored_job_shape v) w
      else (ok (outcome OutcomeKind.lease_lost Message.no_claim_token), w)

  -- A job that is null or undefined has no property to read.
  unfoldable pub execute_job : Value N → W → Result Message JobOutcome × W
  unfolding fail_claim run_job decode_job_payload validate_retry_policy assert_stored_job_shape
  execute_job v w = with_claim_token v (job_claim_token v) w
