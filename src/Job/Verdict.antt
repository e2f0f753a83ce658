-- ===== src/Job/Verdict.antt =====
-- What the outcome of a job says of the store, in packages/core/src/execution/dispatcher.ts: the
-- transition that it reports, and the calls that are allowed where it reports none.
pub mod Failure
pub mod Run
pub mod Execute
use kittle.Base.{
  ℕ, Bool, true, false, ◌≡◌, refl, ◌∙◌, All, List, Option, none, some, Result, ok, err,
  if◌then◌else◌, arith, Bool-cases, inl, inr,
}
use kittle.Job.Store.{
  Message, Claim, FailStatus, JobStore, JobTransitionResult, RenewLeaseArgs, CompleteJobArgs,
  RetryJobArgs, FailJobArgs, FailedState, Reply, transition_of, failed_state, mark_failed_state,
  assert_job_transition_result,
}
use kittle.Job.Race.{Event, works, settles, wakes, sleep_fails, fires}
use kittle.Job.Failure.{
  JobOutcome, OutcomeKind, outcome, failed_outcome, JobDefinition, JobExecution,
}

abbrev pub applied_of : Result Message JobTransitionResult → Bool
applied_of (err _) = false
applied_of (ok status) = status.applied

-- The call did not throw, and its result is a transition that was applied.
abbrev pub is_applied : {N : Type 0} → Reply N → Bool
unfolding assert_job_transition_result
is_applied reply = applied_of (transition_of reply)

-- The status that a job is failed with, for an outcome.
abbrev pub is_status_of : OutcomeKind → FailStatus → Bool
is_status_of OutcomeKind.failed FailStatus.failed = true
is_status_of OutcomeKind.failed FailStatus.cancelled = true
is_status_of OutcomeKind.dead_letter FailStatus.dead_letter = true
is_status_of _ _ = false

-- An outcome other than a lost lease or a stalled job stands for a transition that the store
-- applied, under the claim. After those two the world still has the property `P`.
pub data Verdict {N W : Type 0} (store : JobStore N W) (claim : Claim N) (P : W → Type 0)
    : OutcomeKind → W → Type 0 where
  completed :
      {w' : W} (args : CompleteJobArgs N) (w : W)
      → args.claim ≡ claim
      → is_applied (store.mark_succeeded args w).0 ≡ true
      → Verdict store claim P OutcomeKind.succeeded w'
  postponed :
      {w' : W} (args : RetryJobArgs N) (w : W)
      → args.claim ≡ claim
      → is_applied (store.mark_retrying args w).0 ≡ true
      → Verdict store claim P OutcomeKind.retried w'
  ended :
      {w' : W} {kind : OutcomeKind} (args : FailJobArgs N) (w : W)
      → args.claim ≡ claim
      → is_status_of kind args.status ≡ true
      → is_applied (store.mark_failed args w).0 ≡ true
      → Verdict store claim P kind w'
  lost : {w' : W} → P w' → Verdict store claim P OutcomeKind.lease_lost w'
  stopped : {w' : W} → P w' → Verdict store claim P OutcomeKind.stalled w'

-- The calls of the store keep `P`, but for the transitions that are applied.
pub record KeepsUnapplied {N W : Type 0} (store : JobStore N W) (P : W → Type 0) : Type 0 where
  pub renewal : (args : RenewLeaseArgs N) (w : W) → P w → P (store.renew_lease args w).1
  pub success :
      (args : CompleteJobArgs N) (w : W)
      → is_applied (store.mark_succeeded args w).0 ≡ false
      → P w
      → P (store.mark_succeeded args w).1
  pub retrial :
      (args : RetryJobArgs N) (w : W)
      → is_applied (store.mark_retrying args w).0 ≡ false
      → P w
      → P (store.mark_retrying args w).1
  pub failure :
      (args : FailJobArgs N) (w : W)
      → is_applied (store.mark_failed args w).0 ≡ false
      → P w
      → P (store.mark_failed args w).1

abbrev pub EventKeeps : {N W : Type 0} → (W → Type 0) → Event N W → Type 0
EventKeeps {W = W} P (works f) = (w : W) → P w → P (f w)
EventKeeps P _ = Unit

-- What the job itself does keeps `P`.
pub record JobKeeps {N W : Type 0} (def : JobDefinition N W) (P : W → Type 0) : Type 0 where
  pub start : (x : JobExecution N) (w : W) → P w → P (def.execute x w).1
  pub racing : (x : JobExecution N) (w : W) → All (EventKeeps P) (def.race_events x w)
  pub waiting : (x : JobExecution N) (w : W) → All (EventKeeps P) (def.grace_events x w)

module _ {N W : Type 0} (store : JobStore N W) (claim : Claim N) (P : W → Type 0) where
  abbrev pub Judged : JobOutcome × W → Type 0
  Judged (o, w) = Verdict store claim P o.kind w

  -- A call that throws reports no outcome.
  abbrev pub JudgedResult : Result Message JobOutcome × W → Type 0
  JudgedResult (err m, w) = Unit
  JudgedResult (ok o, w) = Verdict store claim P o.kind w

  failed_outcome-Judged :
      (kind : OutcomeKind) (m : Message) (args : FailJobArgs N) (w w' : W)
      (r : Result Message JobTransitionResult)
      → args.claim ≡ claim
      → is_status_of kind args.status ≡ true
      → is_applied (store.mark_failed args w).0 ≡ applied_of r
      → (applied_of r ≡ false → P w')
      → Judged (failed_outcome kind m (failed_state r), w')
  failed_outcome-Judged kind m args w w' (err e) c s a keep = lost (keep refl)
  failed_outcome-Judged kind m args w w' (ok status) c s a keep = elim (Bool-cases status.applied) [
    | inl yes' ↦ rw yes' (ended args w c s (a ∙ yes'))
    | inr no' ↦ rw no' (lost (keep no'))
  ]

  -- Where the store keeps `P` but for applied transitions, a claim that is to be failed is judged.
  pub failed-Judged :
      KeepsUnapplied store P
      → (kind : OutcomeKind) (m : Message) (args : FailJobArgs N) (w : W) → args.claim ≡ claim
      → is_status_of kind args.status ≡ true
      → P w
      → Judged (
        failed_outcome kind m (failed_state (transition_of (store.mark_failed args w).0)),
        (store.mark_failed args w).1,
      )
  unfolding assert_job_transition_result
  failed-Judged keeps kind m args w c s p =
      failed_outcome-Judged kind m args w (store.mark_failed args w).1
        (transition_of (store.mark_failed args w).0) c s refl
        λ unapplied. keeps.failure args w unapplied p
