-- ===== src/Job/Verdict/Execute.antt =====
-- The verdict of executeJob of packages/core/src/execution/dispatcher.ts.
use mathlib.Core.Path.{subst}
use kittle.Base.{
  ℕ, String, true, ◌≡◌, refl, ap, sym, Option, none, some, Result, ok, err, if-cases, ok-injective,
}
use kittle.Js.{Value, undefined, null, boolean, number, string, date, array, object, get_prop}
use kittle.Job.{JobNumbers, StoredJob, ShapeError, props_of, assert_stored_job_shape}
use kittle.Job.Shape.{assert_stored_job_shape-IsRead}
use kittle.Job.Retry.{RetryError, validate_retry_policy}
use kittle.Job.Store.{
  Message, Claim, FailStatus, JobStore, Reply, RenewLeaseArgs, mark_failed_state,
}
use kittle.Job.Race.{is_renewed}
use kittle.Job.Failure.{JobDefinition, JobOutcome, OutcomeKind}
use kittle.Job.Run.{run_job}
use kittle.Job.Execute.{
  DispatcherConfig, is_beyond, is_truthy, same_scope, raw_id, claim_of, policy_of,
  decode_job_payload, job_claim_token, fail_claim, run_of, with_payload, with_policy,
  with_definition, refenced, with_shape, with_claim_token, execute_job,
}
use kittle.Job.Verdict.{
  Verdict, lost, KeepsUnapplied, JobKeeps, JudgedResult, failed-Judged, is_status_of,
}
use kittle.Job.Verdict.Run.{run_job-Judged}

-- Of all that a dispatcher's jobs may do, only applied transitions may break `P`.
pub record ConfigKeeps {N W : Type 0} (config : DispatcherConfig N W) (P : W → Type 0)
    : Type 0 where
  pub store : KeepsUnapplied config.store P
  pub jobs :
      (s : String) (n : ℕ) (def : JobDefinition N W)
      → config.registry s n ≡ some def
      → JobKeeps def P

-- The claim that a value from the store stands for.
abbrev pub claim_for : {N W : Type 0} → DispatcherConfig N W → Value N → Claim N
claim_for config v =
    let ps = props_of v in
    claim_of (raw_id (get_prop "id" ps)) config.worker_id (get_prop "claimToken" ps)

module _ {N : Type 0} ⦃num : JobNumbers N⦄ where
  job_claim_token-token :
      (v token : Value N)
      → job_claim_token v ≡ ok token
      → get_prop "claimToken" (props_of v) ≡ token
  job_claim_token-token (object i ps) token h = ok-injective h
  job_claim_token-token undefined token h = cc
  job_claim_token-token null token h = cc
  job_claim_token-token (boolean _) token h = ok-injective h
  job_claim_token-token (number _) token h = ok-injective h
  job_claim_token-token (string _) token h = ok-injective h
  job_claim_token-token (date _) token h = ok-injective h
  job_claim_token-token (array _ _) token h = ok-injective h

judged_of :
    {N W : Type 0} (store : JobStore N W) (claim : Claim N) (P : W → Type 0)
    (run : Result Message JobOutcome × W) (o : JobOutcome)
    → run.0 ≡ ok o
    → JudgedResult store claim P run
    → Verdict store claim P o.kind run.1
judged_of store claim P (err m, w) o h v = absurd (let f : ⊥ = cc in f)
judged_of store claim P (ok o', w) o h v =
    subst (λ (x : JobOutcome). Verdict store claim P x.kind w) (ok-injective h) v

module _ {N W : Type 0} ⦃num : JobNumbers N⦄ (config : DispatcherConfig N W) (P : W → Type 0)
    (keeps : ConfigKeeps config P) where
  fail_claim-Judged :
      (claim : Claim N) (m : Message) (status : FailStatus) (kind : OutcomeKind) (attempt : ℕ)
      (w : W)
      → is_status_of kind status ≡ true
      → P w
      → JudgedResult config.store claim P (fail_claim config claim m status kind attempt w)
  unfolding fail_claim mark_failed_state
  fail_claim-Judged claim m status kind attempt w s p =
      failed-Judged config.store claim P keeps.store kind m _ w refl s p

  with_payload-Judged :
      (claim : Claim N) (def : JobDefinition N W) (job : StoredJob N)
      (payload : Result Message (Value N)) (w : W)
      → JobKeeps def P
      → P w
      → JudgedResult config.store claim P (with_payload config claim def job payload w)
  unfolding fail_claim run_job
  with_payload-Judged claim def job (err m) w k p = fail_claim-Judged claim m _ _ _ w refl p
  with_payload-Judged claim def job (ok payload) w k p =
      run_job-Judged P (run_of config claim def job payload w) keeps.store k w p

  with_policy-Judged :
      (claim : Claim N) (def : JobDefinition N W) (job : StoredJob N)
      (valid : Result RetryError (Unit {0})) (w : W)
      → JobKeeps def P
      → P w
      → JudgedResult config.store claim P (with_policy config claim def job valid w)
  unfolding fail_claim run_job decode_job_payload
  with_policy-Judged claim def job (err e) w k p = fail_claim-Judged claim _ _ _ _ w refl p
  with_policy-Judged claim def job (ok _) w k p =
      if-cases (JudgedResult config.store claim P)
        (is_beyond job.current_attempt (policy_of def job).max_attempts)
        (λ _. fail_claim-Judged claim _ _ _ _ w refl p)
        (λ _.
          with_payload-Judged claim def job
            (decode_job_payload config.parse_json job.payload def.decode_payload) w k p)

  with_definition-Judged :
      (claim : Claim N) (job : StoredJob N) (found : Option (JobDefinition N W)) (w : W)
      → ((def : JobDefinition N W) → found ≡ some def → JobKeeps def P)
      → P w
      → JudgedResult config.store claim P (with_definition config claim job found w)
  unfolding fail_claim run_job decode_job_payload validate_retry_policy
  with_definition-Judged claim job none w k p = fail_claim-Judged claim _ _ _ _ w refl p
  with_definition-Judged claim job (some def) w k p =
      if-cases (JudgedResult config.store claim P) (same_scope job.scope def.scope)
        (λ _.
          with_policy-Judged claim def job (validate_retry_policy (policy_of def job)) w
            (k def refl) p)
        (λ _. fail_claim-Judged claim _ _ _ _ w refl p)

  refenced-Judged :
      (claim : Claim N) (job : StoredJob N) (reply : Reply N × W)
      → P reply.1
      → JudgedResult config.store claim P (refenced config claim job reply)
  unfolding fail_claim run_job decode_job_payload validate_retry_policy
  refenced-Judged claim job (err e, w) p = lost p
  refenced-Judged claim job (ok v, w) p =
      if-cases (JudgedResult config.store claim P) (is_renewed (ok v))
        (λ _.
          with_definition-Judged claim job (config.registry job.job_type job.job_version) w
            (keeps.jobs job.job_type job.job_version) p)
        (λ _. lost p)

  with_shape-Judged :
      (v : Value N) (shape : Result ShapeError (StoredJob N)) (w : W)
      → assert_stored_job_shape v ≡ shape
      → P w
      → JudgedResult config.store
          (claim_for config v)
          P
          (with_shape config v (get_prop "claimToken" (props_of v)) shape w)
  unfolding fail_claim run_job decode_job_payload validate_retry_policy
  with_shape-Judged v (err e) w h p = fail_claim-Judged (claim_for config v) _ _ _ _ w refl p
  with_shape-Judged v (ok job) w h p =
      let token = get_prop "claimToken" (props_of v) in
      let claim = claim_of job.id config.worker_id token in
      let renewal : RenewLeaseArgs N = record {
        claim = claim;
        extend_by_ms = config.lease_duration_ms;
      } in
      let same : claim_for config v ≡ claim =
        ap (λ id. claim_of (raw_id id) config.worker_id token)
          (assert_stored_job_shape-IsRead v job h).identified in
      subst
        (λ c.
          JudgedResult config.store c P
            (refenced config claim job (config.store.renew_lease renewal w)))
        (sym same)
        (refenced-Judged claim job (config.store.renew_lease renewal w)
          (keeps.store.renewal renewal w p))

  with_claim_token-Judged :
      (v : Value N) (token : Result Message (Value N)) (w : W)
      → job_claim_token v ≡ token
      → P w
      → JudgedResult config.store (claim_for config v) P (with_claim_token config v token w)
  unfolding fail_claim run_job decode_job_payload validate_retry_policy assert_stored_job_shape
  with_claim_token-Judged v (err m) w h p = tt
  with_claim_token-Judged v (ok token) w h p =
      if-cases (JudgedResult config.store (claim_for config v) P) (is_truthy token)
        (λ _.
          subst
            (λ t.
              JudgedResult config.store (claim_for config v) P
                (with_shape config v t (assert_stored_job_shape v) w))
            (job_claim_token-token v token h)
            (with_shape-Judged v (assert_stored_job_shape v) w refl p))
        (λ _. lost p)

  execute_job-Judged :
      (v : Value N) (w : W)
      → P w
      → JudgedResult config.store (claim_for config v) P (execute_job config v w)
  unfolding execute_job
  execute_job-Judged v w p = with_claim_token-Judged v (job_claim_token v) w refl p

  -- A job that is executed with an outcome other than a lost lease or a stall has had the store
  -- apply the transition that the outcome names, under the claim that its row holds: a success, a
  -- retry, or a failure with the status that fits. After a lost lease or a stall every property of
  -- the world still holds that renewals, transitions not applied and the job itself all keep.
  pub execute_job-Verdict :
      (v : Value N) (w : W) (o : JobOutcome)
      → P w
      → (execute_job config v w).0 ≡ ok o
      → Verdict config.store (claim_for config v) P o.kind (execute_job config v w).1
  execute_job-Verdict v w o p h =
      judged_of config.store (claim_for config v) P (execute_job config v w) o h
        (execute_job-Judged v w p)
