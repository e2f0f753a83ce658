-- ===== src/Job/Dispatch.antt =====
-- dispatchDueJobs and validateDispatcherConfig of packages/core/src/execution/dispatcher.ts. The
-- tests that a caller without types would need are left out, and so is logging.
pub mod Counts
use kittle.Base.{
  ℕ, suc, ℤ, pos, ltb_ℤ, length, String, ◌===◌, Bool, true, false, negate, ◌&&◌, List, [], ◌∷◌,
  ◌++◌, Option, none, some, Result, ok, err, ◌>>=◌, ◌>>◌, require, if◌then◌else◌,
}
use kittle.Js.{Value, undefined, object, array, Values, elements, Props, get_prop}
use kittle.RateLimit.{is_blank}
use kittle.Job.{JobNumbers}
use kittle.Job.Store.{Message, ConfigError, JobStore, ClaimDueJobsArgs, Reply}
use kittle.Job.Failure.{JobOutcome, OutcomeKind}
use kittle.Job.Execute.{JobTimeoutPolicy, DispatcherConfig, execute_job}

pub data DispatchAction : Type 0 where
  retry failed dead_letter lease_lost stalled : DispatchAction

pub record DispatchError (N : Type 0) : Type 0 where
  pub job_id : Value N
  pub job_type : Value N
  pub error : Message
  pub action : DispatchAction

pub record DispatchResult (N : Type 0) : Type 0 where
  pub claimed : ℕ
  pub succeeded : ℕ
  pub failed : ℕ
  pub retried : ℕ
  pub dead_lettered : ℕ
  pub lease_lost : ℕ
  pub stalled : ℕ
  pub errors : List (DispatchError N)

-- `MAX_CLAIM_LIMIT`
abbrev pub max_claim_limit : ℕ
max_claim_limit = 100

abbrev is_positive_integer : Option ℤ → Bool
is_positive_integer none = false
is_positive_integer (some z) = negate (ltb_ℤ z (pos 1))

abbrev is_over : Option ℤ → ℕ → Bool
is_over none max = false
is_over (some z) max = ltb_ℤ (pos max) z

module _ {N : Type 0} ⦃num : JobNumbers N⦄ where
  abbrev is_positive_finite : N → Bool
  is_positive_finite x = num.is_finite x && num.lt (num.of_nat 0) x

  abbrev check_timeout : Option N → Result Message (Unit {0})
  check_timeout none = ok tt
  check_timeout (some x) =
      require (is_positive_finite x) (Message.of_config ConfigError.bad_timeout)

  abbrev check_timeout_policy : Option (JobTimeoutPolicy N) → Result Message (Unit {0})
  check_timeout_policy none = ok tt
  check_timeout_policy (some policy) =
      require (policy.mode === "cooperative") (Message.of_config ConfigError.bad_mode)
      >> (require
            (num.is_finite policy.cancellation_grace_ms
              && negate (num.lt policy.cancellation_grace_ms (num.of_nat 0)))
            (Message.of_config ConfigError.bad_grace)
          >> check_timeout policy.timeout_ms)

  unfoldable pub validate_dispatcher_config :
      {W : Type 0} → DispatcherConfig N W → Result Message (Unit {0})
  validate_dispatcher_config config =
      require (negate (is_blank config.worker_id)) (Message.of_config ConfigError.blank_worker)
      >> (require (is_positive_integer config.claim_limit)
            (Message.of_config ConfigError.bad_claim_limit)
          >> (require (negate (is_over config.claim_limit max_claim_limit))
                (Message.of_config ConfigError.claim_limit_exceeded)
              >> (require (is_positive_finite config.lease_duration_ms)
                    (Message.of_config ConfigError.bad_lease_duration)
                  >> check_timeout_policy config.timeout_policy)))

abbrev action_of : OutcomeKind → DispatchAction
action_of OutcomeKind.dead_letter = dead_letter
action_of OutcomeKind.lease_lost = lease_lost
action_of OutcomeKind.stalled = stalled
action_of OutcomeKind.retried = retry
action_of _ = failed

-- A message is truthy unless it is an empty text.
abbrev is_shown : Message → Bool
is_shown (Message.thrown s) = negate (s === "")
is_shown _ = true

module _ {N : Type 0} where
  abbrev count : OutcomeKind → DispatchResult N → DispatchResult N
  count OutcomeKind.succeeded r = record r { succeeded = suc r.succeeded }
  count OutcomeKind.failed r = record r { failed = suc r.failed }
  count OutcomeKind.retried r = record r { retried = suc r.retried }
  count OutcomeKind.dead_letter r = record r { dead_lettered = suc r.dead_lettered }
  count OutcomeKind.stalled r = record r { stalled = suc r.stalled }
  count OutcomeKind.lease_lost r = record r { lease_lost = suc r.lease_lost }

  abbrev prop_of : String → Value N → Value N
  prop_of k (object _ ps) = get_prop k ps
  prop_of k _ = undefined

  abbrev add_error : Value N → OutcomeKind → Option Message → DispatchResult N → DispatchResult N
  add_error job kind none r = r
  add_error job kind (some m) r =
      if is_shown m
      then record r {
        errors =
            r.errors
            ++ record {
              job_id = prop_of "id" job;
              job_type = prop_of "jobType" job;
              error = m;
              action = action_of kind;
            }
              ∷ [];
      }
      else r

  unfoldable pub add_outcome : Value N → JobOutcome → DispatchResult N → DispatchResult N
  add_outcome job o r = add_error job o.kind o.error (count o.kind r)

  abbrev pub empty_result : ℕ → DispatchResult N
  empty_result claimed = record {
    claimed = claimed;
    succeeded = 0;
    failed = 0;
    retried = 0;
    dead_lettered = 0;
    lease_lost = 0;
    stalled = 0;
    errors = [];
  }

  abbrev claimed_jobs : Value N → Result Message (List (Value N))
  claimed_jobs (array _ vs) = ok (elements vs)
  claimed_jobs _ = err (Message.of_config ConfigError.jobs_not_array)

-- One turn of the loop, `next` being the others. A job that throws ends the dispatch.
unfoldable pub after_job :
    {N W : Type 0}
    → Value N
    → (DispatchResult N → W → Result Message (DispatchResult N) × W)
    → DispatchResult N
    → Result Message JobOutcome × W
    → Result Message (DispatchResult N) × W
unfolding add_outcome
after_job job next r (err m, w) = (err m, w)
after_job job next r (ok o, w) = next (add_outcome job o r) w

module _ {N W : Type 0} ⦃num : JobNumbers N⦄ (config : DispatcherConfig N W) where
  -- The loop over the claimed jobs, one after another.
  unfoldable pub dispatch_jobs :
      List (Value N) → DispatchResult N → W → Result Message (DispatchResult N) × W
  unfolding execute_job after_job
  dispatch_jobs [] r w = (ok r, w)
  dispatch_jobs (job ∷ jobs) r w = after_job job (dispatch_jobs jobs) r (execute_job config job w)

  abbrev claim_args : W → ClaimDueJobsArgs N
  claim_args w = record {
    limit = config.claim_limit;
    worker_id = config.worker_id;
    lease_duration_ms = config.lease_duration_ms;
    requester = config.requester;
    now = config.now w;
  }

  abbrev dispatch_claimed :
      Result Message (List (Value N)) → W → Result Message (DispatchResult N) × W
  unfolding dispatch_jobs
  dispatch_claimed (err m) w = (err m, w)
  dispatch_claimed (ok jobs) w = dispatch_jobs jobs (empty_result (length jobs)) w

  abbrev dispatch_validated : Result Message (Unit {0}) → W → Result Message (DispatchResult N) × W
  unfolding dispatch_jobs
  dispatch_validated (err m) w = (err m, w)
  dispatch_validated (ok _) w =
      let (reply, w') = config.store.claim_due (claim_args w) w in
      dispatch_claimed (reply >>= λ v. claimed_jobs v) w'

  unfoldable pub dispatch_due_jobs : W → Result Message (DispatchResult N) × W
  unfolding dispatch_jobs validate_dispatcher_config
  dispatch_due_jobs w = dispatch_validated (validate_dispatcher_config config) w
