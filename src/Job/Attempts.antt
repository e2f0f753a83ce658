-- ===== src/Job/Attempts.antt =====
-- The attempts of a job that keeps failing: handleJobError of
-- packages/core/src/execution/dispatcher.ts with retryPolicy.ts beside it.
use mathlib.Core.Path.{subst}
use kittle.Base.{
  String, ℕ, zero, suc, ◌+◌, pos, Bool, true, false, ◌≡◌, refl, ap, sym, ◌∙◌, List, [], ◌∷◌, Option,
  none, some, Result, ok, err, if◌then◌else◌, arith,
}
use kittle.Job.{JobNumbers}
use kittle.Job.Retry.{
  is_below, delay_after, validate_retry_policy, should_retry, compute_next_attempt_at,
}
use kittle.Job.Retry.Bounds.{IsOrdered, compute_next_attempt_at-dated}
use kittle.Job.Store.{
  Message, JobStore, JobTransitionResult, RetryJobArgs, FailJobArgs, FailStatus, transition_of,
  assert_job_transition_result,
}
use kittle.Job.Failure.{
  FailureArgs, JobFailureKind, OutcomeKind, JobOutcome, JobExecution, handle_job_error,
  retried_outcome, after_retrying, dead_letter_outcome, after_dead_letter, run_hook, hook_outcome,
  retry_args, fail_args, retry_job, dead_letter_job, retry_if, retry_at, on_failure_kind,
}
use kittle.Job.Verdict.{is_applied, applied_of}

-- The kind of an outcome, if the call did not throw.
abbrev pub kind_of_result : {W : Type 0} → Result Message JobOutcome × W → Option OutcomeKind
kind_of_result (err m, w) = none
kind_of_result (ok o, w) = some o.kind

abbrev kind_of : {W : Type 0} → JobOutcome × W → OutcomeKind
kind_of (o, w) = o.kind

-- A store that applies every retry and every failure it is asked for.
pub record IsApplying {N W : Type 0} (store : JobStore N W) : Type 0 where
  pub retrial : (args : RetryJobArgs N) (w : W) → is_applied (store.mark_retrying args w).0 ≡ true
  pub failure : (args : FailJobArgs N) (w : W) → is_applied (store.mark_failed args w).0 ≡ true

module _ {N W : Type 0} (args : FailureArgs N W) where
  kind_of-hook_outcome :
      (kind : OutcomeKind) (m : Message) (r : Result Message (Unit {0}) × W)
      → kind_of (hook_outcome kind m r) ≡ kind
  kind_of-hook_outcome kind m (ok _, w) = refl
  kind_of-hook_outcome kind m (err e, w) = refl

  kind_of-run_hook :
      (kind : OutcomeKind) (m : Message)
      (hook : Option (JobExecution N → Message → W → Result Message (Unit {0}) × W))
      (x : JobExecution N) (w : W)
      → kind_of (run_hook kind m hook x w) ≡ kind
  kind_of-run_hook kind m none x w = refl
  kind_of-run_hook kind m (some hook) x w = kind_of-hook_outcome kind m (hook x m w)

  kind_of-retried_outcome :
      (r : Result Message JobTransitionResult) (w : W)
      → applied_of r ≡ true
      → kind_of (retried_outcome args r w) ≡ OutcomeKind.retried
  kind_of-retried_outcome (err e) w h = cc
  kind_of-retried_outcome (ok status) w h = rw h (after status.history_error)
    where
      after : (o : Option String) → kind_of (after_retrying args status o w) ≡ OutcomeKind.retried
      after (some t) = refl
      after none = kind_of-run_hook OutcomeKind.retried args.error args.def.on_retry _ w

  kind_of-dead_letter_outcome :
      (r : Result Message JobTransitionResult) (w : W)
      → applied_of r ≡ true
      → kind_of (dead_letter_outcome args r w) ≡ OutcomeKind.dead_letter
  kind_of-dead_letter_outcome (err e) w h = cc
  kind_of-dead_letter_outcome (ok status) w h = rw h (after status.history_error)
    where
      after :
          (o : Option String)
          → kind_of (after_dead_letter args status o w) ≡ OutcomeKind.dead_letter
      after (some t) = refl
      after none =
          kind_of-run_hook OutcomeKind.dead_letter args.error args.def.on_max_retries_exceeded _ w

  kind_of-retry_job :
      IsApplying args.store
      → (next : N) (w : W) → kind_of (retry_job args next w) ≡ OutcomeKind.retried
  unfolding retry_job assert_job_transition_result
  kind_of-retry_job applying next w =
      kind_of-retried_outcome (transition_of (args.store.mark_retrying (retry_args args next) w).0)
        _ (applying.retrial (retry_args args next) w)

  kind_of-dead_letter_job :
      IsApplying args.store → (w : W) → kind_of (dead_letter_job args w) ≡ OutcomeKind.dead_letter
  unfolding dead_letter_job assert_job_transition_result
  kind_of-dead_letter_job applying w =
      let call = fail_args args FailStatus.dead_letter in
      kind_of-dead_letter_outcome (transition_of (args.store.mark_failed call w).0) _
        (applying.failure call w)

abbrev next_failures :
    {W : Type 0} → (W → List OutcomeKind) → Option OutcomeKind → W → List OutcomeKind
next_failures rest none w = []
next_failures rest (some OutcomeKind.retried) w = OutcomeKind.retried ∷ rest w
next_failures rest (some kind) w = kind ∷ []

is_below-last : (k : ℕ) → is_below (suc k) (some (pos (k + 1))) ≡ false
is_below-last k = ground arith

is_below-more : (k d : ℕ) → is_below (suc k) (some (pos (k + suc (suc d)))) ≡ true
is_below-more k d = ground arith

module _ {N W : Type 0} ⦃num : JobNumbers N⦄ where
  kind_of-retry_if :
      IsOrdered num
      → (args : FailureArgs N W) (w : W) (b : Bool) → IsApplying args.store
      → validate_retry_policy args.retry_policy ≡ ok tt
      → is_below (suc args.attempts_completed) args.retry_policy.max_attempts ≡ b
      → kind_of_result (retry_if args (ok b) w)
        ≡ some (if b then OutcomeKind.retried else OutcomeKind.dead_letter)
  unfolding dead_letter_job retry_job compute_next_attempt_at
  kind_of-retry_if order args w false applying valid e =
      ap some (kind_of-dead_letter_job args applying w)
  kind_of-retry_if order args w true applying valid e =
      let k = args.attempts_completed in
      let policy = args.retry_policy in
      let next = num.as_date (num.add (args.now w) (delay_after policy k)) in
      let dated : compute_next_attempt_at policy (suc k) (args.now w) ≡ ok (some next) =
        compute_next_attempt_at-dated order policy k (args.now w) valid
        ∙ ap (λ b. ok (if b then some next else none)) e in
      subst (λ r. kind_of_result (retry_at args r w) ≡ some OutcomeKind.retried) (sym dated)
        (ap some (kind_of-retry_job args applying next w))

  -- With a store that applies what it is asked, a failure that may be retried is retried exactly
  -- when an attempt is left.
  kind_of-handle_job_error :
      IsOrdered num
      → (args : FailureArgs N W) (w : W) → IsApplying args.store
      → validate_retry_policy args.retry_policy ≡ ok tt
      → args.failure_kind ≡ JobFailureKind.retryable
      → kind_of_result (handle_job_error args w)
        ≡ some (
            if is_below (suc args.attempts_completed) args.retry_policy.max_attempts
            then OutcomeKind.retried
            else OutcomeKind.dead_letter)
  unfolding handle_job_error should_retry
  kind_of-handle_job_error order args w applying valid kind =
      let policy = args.retry_policy in
      let k = args.attempts_completed in
      let again : should_retry policy (suc k) ≡ ok (is_below (suc k) policy.max_attempts) =
        rw valid refl in
      subst
        (λ f.
          kind_of_result (on_failure_kind args f w)
          ≡ some (
              if is_below (suc k) policy.max_attempts
              then OutcomeKind.retried
              else OutcomeKind.dead_letter))
        (sym kind)
        (subst
          (λ r.
            kind_of_result (retry_if args r w)
            ≡ some (
                if is_below (suc k) policy.max_attempts
                then OutcomeKind.retried
                else OutcomeKind.dead_letter))
          (sym again)
          (kind_of-retry_if order args w (is_below (suc k) policy.max_attempts) applying valid
            refl))

  -- The outcomes of a job that fails in each of `n` attempts, until one is not a retry. A retry
  -- stores the count of its attempt, with which the next one starts.
  unfoldable pub failures : ℕ → FailureArgs N W → W → List OutcomeKind
  unfolding handle_job_error
  failures zero args w = []
  failures (suc n) args w =
      let again = record args { attempts_completed = suc args.attempts_completed } in
      let result = handle_job_error args w in
      next_failures (failures n again) (kind_of_result result) result.1

-- `d` retries, and then the end.
abbrev pub retries_then_dead : ℕ → List OutcomeKind
retries_then_dead zero = OutcomeKind.dead_letter ∷ []
retries_then_dead (suc d) = OutcomeKind.retried ∷ retries_then_dead d

module _ {N W : Type 0} ⦃num : JobNumbers N⦄ where
  -- Where the store applies what it is asked and the policy is valid, a job whose attempts all fail
  -- and may be retried is retried until one attempt is left, and that last one dead-letters it: so
  -- it ends after as many failures as its policy has attempts.
  pub failures-retries_then_dead :
      IsOrdered num
      → (d : ℕ) (args : FailureArgs N W) (w : W) → IsApplying args.store
      → validate_retry_policy args.retry_policy ≡ ok tt
      → args.failure_kind ≡ JobFailureKind.retryable
      → args.retry_policy.max_attempts ≡ some (pos (args.attempts_completed + suc d))
      → failures (suc d) args w ≡ retries_then_dead d
  unfolding failures
  failures-retries_then_dead order zero args w applying valid kind limit =
      ap (λ o. next_failures (λ _. []) o (handle_job_error args w).1)
        (kind_of-handle_job_error order args w applying valid kind
          ∙ ap (λ b. some (if b then OutcomeKind.retried else OutcomeKind.dead_letter))
              (ap (is_below (suc args.attempts_completed)) limit
                ∙ is_below-last args.attempts_completed))
  failures-retries_then_dead order (suc d) args w applying valid kind limit =
      let k = args.attempts_completed in
      let again : FailureArgs N W = record args { attempts_completed = suc k } in
      let w' = (handle_job_error args w).1 in
      ap (λ o. next_failures (failures (suc d) again) o w')
        (kind_of-handle_job_error order args w applying valid kind
          ∙ ap (λ b. some (if b then OutcomeKind.retried else OutcomeKind.dead_letter))
              (ap (is_below (suc k)) limit ∙ is_below-more k d))
      ∙ ap (λ l. OutcomeKind.retried ∷ l)
          (failures-retries_then_dead order d again w' applying valid kind
            (limit ∙ ap (λ n. some (pos n)) (omega arith)))
