-- ===== src/Job/Dispatch/Counts.antt =====
-- The counters of dispatchDueJobs in packages/core/src/execution/dispatcher.ts.
use mathlib.Core.Path.{subst}
use kittle.Base.{
  ℕ, suc, ◌+◌, ◌≤◌, length, ◌≡◌, refl, List, [], ◌∷◌, ◌++◌, Option, none, some, Result, ok, err,
  arith, Bool-cases, inl, inr, ok-injective, ◌>>=◌,
}
use kittle.Js.{Value}
use kittle.Job.{JobNumbers}
use kittle.Job.Store.{Message}
use kittle.Job.Failure.{JobOutcome, OutcomeKind}
use kittle.Job.Execute.{DispatcherConfig, execute_job}
use kittle.Job.Dispatch.{
  DispatchResult, add_outcome, add_error, count, after_job, dispatch_jobs, dispatch_due_jobs,
  empty_result, is_shown, dispatch_claimed, dispatch_validated, validate_dispatcher_config,
  claimed_jobs, claim_args,
}

-- The jobs counted so far under any outcome.
abbrev pub total : {N : Type 0} → DispatchResult N → ℕ
total r = r.succeeded + r.failed + r.retried + r.dead_lettered + r.lease_lost + r.stalled

-- Each claimed job counts under one outcome, and leaves one error at most.
pub record IsBalanced {N : Type 0} (n left : ℕ) (r : DispatchResult N) : Type 0 where
  pub claimed : r.claimed ≡ n
  pub counted : total r + left ≡ n
  pub reported : length r.errors ≤ total r

length-snoc : {A : Type 0} (xs : List A) (x : A) → length (xs ++ x ∷ []) ≡ suc (length xs)
length-snoc [] x = refl
length-snoc (y ∷ xs) x = ground (arith, length-snoc xs x)

module _ {N : Type 0} where
  count-IsBalanced :
      (n left : ℕ) (kind : OutcomeKind) (r : DispatchResult N)
      → IsBalanced n (suc left) r
      → ((count kind r).claimed ≡ n)
        × (total (count kind r) + left ≡ n)
        × (suc (length (count kind r).errors) ≤ total (count kind r))
  count-IsBalanced n left OutcomeKind.succeeded r b = (b.claimed, omega arith, omega arith)
  count-IsBalanced n left OutcomeKind.failed r b = (b.claimed, omega arith, omega arith)
  count-IsBalanced n left OutcomeKind.retried r b = (b.claimed, omega arith, omega arith)
  count-IsBalanced n left OutcomeKind.dead_letter r b = (b.claimed, omega arith, omega arith)
  count-IsBalanced n left OutcomeKind.stalled r b = (b.claimed, omega arith, omega arith)
  count-IsBalanced n left OutcomeKind.lease_lost r b = (b.claimed, omega arith, omega arith)

  add_error-IsBalanced :
      (n left : ℕ) (job : Value N) (kind : OutcomeKind) (m : Option Message) (r : DispatchResult N)
      → r.claimed ≡ n
      → total r + left ≡ n
      → suc (length r.errors) ≤ total r
      → IsBalanced n left (add_error job kind m r)
  add_error-IsBalanced n left job kind none r c e h = record {
    claimed = c;
    counted = e;
    reported = omega arith;
  }
  add_error-IsBalanced n left job kind (some m) r c e h = elim (Bool-cases (is_shown m)) [
    | inl shown ↦
        rw shown record { claimed = c; counted = e; reported = rw (length-snoc r.errors _) h }
    | inr hidden ↦ rw hidden record { claimed = c; counted = e; reported = omega arith }
  ]

  add_outcome-IsBalanced :
      (n left : ℕ) (job : Value N) (o : JobOutcome) (r : DispatchResult N)
      → IsBalanced n (suc left) r
      → IsBalanced n left (add_outcome job o r)
  unfolding add_outcome
  add_outcome-IsBalanced n left job o r b =
      let (c, e, h) = count-IsBalanced n left o.kind r b in
      add_error-IsBalanced n left job o.kind o.error (count o.kind r) c e h

after_job-IsBalanced :
    {N W : Type 0} (n left : ℕ) (job : Value N)
    (next : DispatchResult N → W → Result Message (DispatchResult N) × W)
    (r final : DispatchResult N) (run : Result Message JobOutcome × W)
    → ((s : DispatchResult N) (w : W)
        → IsBalanced n left s
        → (next s w).0 ≡ ok final
        → IsBalanced n 0 final)
    → IsBalanced n (suc left) r
    → (after_job job next r run).0 ≡ ok final
    → IsBalanced n 0 final
unfolding after_job
after_job-IsBalanced n left job next r final (err m, w) rest b h = cc
after_job-IsBalanced n left job next r final (ok o, w) rest b h =
    rest (add_outcome job o r) w (add_outcome-IsBalanced n left job o r b) h

module _ {N W : Type 0} ⦃num : JobNumbers N⦄ (config : DispatcherConfig N W) where
  dispatch_jobs-IsBalanced :
      (n : ℕ) (jobs : List (Value N)) (r final : DispatchResult N) (w : W)
      → IsBalanced n (length jobs) r
      → (dispatch_jobs config jobs r w).0 ≡ ok final
      → IsBalanced n 0 final
  unfolding dispatch_jobs
  dispatch_jobs-IsBalanced n [] r final w b h = subst (IsBalanced n 0) (ok-injective h) b
  dispatch_jobs-IsBalanced n (job ∷ jobs) r final w b h =
      after_job-IsBalanced n (length jobs) job (dispatch_jobs config jobs) r final
        (execute_job config job w) (λ s w'. dispatch_jobs-IsBalanced n jobs s final w') b h

  -- The jobs that the store gave, and the counters that stand for them.
  pub record IsTally (w : W) (r : DispatchResult N) : Type 0 where
    pub jobs : List (Value N)
    pub given :
        ((config.store.claim_due (claim_args config w) w).0 >>= λ v. claimed_jobs v) ≡ ok jobs
    pub claimed : r.claimed ≡ length jobs
    pub counted : total r ≡ length jobs
    pub reported : length r.errors ≤ length jobs

  dispatch_claimed-IsTally :
      (w w' : W) (jobs : Result Message (List (Value N))) (r : DispatchResult N)
      → ((config.store.claim_due (claim_args config w) w).0 >>= λ v. claimed_jobs v) ≡ jobs
      → (dispatch_claimed config jobs w').0 ≡ ok r
      → IsTally w r
  unfolding dispatch_jobs
  dispatch_claimed-IsTally w w' (err m) r given h = absurd (let f : ⊥ = cc in f)
  dispatch_claimed-IsTally w w' (ok jobs) r given h =
      let start : IsBalanced (length jobs) (length jobs) (empty_result {N = N} (length jobs)) =
        record { claimed = refl; counted = omega arith; reported = omega arith } in
      let b = dispatch_jobs-IsBalanced (length jobs) jobs _ r w' start h in
      record {
        jobs = jobs;
        given = given;
        claimed = b.claimed;
        counted = ground (arith, b.counted);
        reported = ground (arith, b.counted, b.reported);
      }

  dispatch_validated-IsTally :
      (valid : Result Message (Unit {0})) (w : W) (r : DispatchResult N)
      → (dispatch_validated config valid w).0 ≡ ok r
      → IsTally w r
  unfolding dispatch_jobs
  dispatch_validated-IsTally (err m) w r h = absurd (let f : ⊥ = cc in f)
  dispatch_validated-IsTally (ok _) w r h =
      dispatch_claimed-IsTally w (config.store.claim_due (claim_args config w) w).1
        ((config.store.claim_due (claim_args config w) w).0 >>= λ v. claimed_jobs v) r refl h

  -- A dispatch that returns has counted each job that the store gave under exactly one outcome: the
  -- six counters add up to the jobs claimed, and there is at most one error for each.
  pub dispatch_due_jobs-IsTally :
      (w : W) (r : DispatchResult N) → (dispatch_due_jobs config w).0 ≡ ok r → IsTally w r
  unfolding dispatch_due_jobs
  dispatch_due_jobs-IsTally w r h =
      dispatch_validated-IsTally (validate_dispatcher_config config) w r h
