-- ===== src/Schedule/Firing.antt =====
-- `assertSchedulePolicies` and `shouldFireSchedule` of scheduleCalculator.ts. A policy's type is the
-- text that the store gave.
use kittle.Base.{
  ℕ, ◌-◌, ltb, String, ◌===◌, str_mem, ◌≡◌, refl, ap, ◌∙◌, Bool, true, false, negate, ◌&&◌, ◌||◌,
  Option, none, some, List, [], ◌∷◌, Result, ok, err, ◌>>◌, require, if◌then◌else◌, arith,
  Bool-cases, inl, inr, eq_iff,
}
use kittle.Schedule.{ScheduleError}

pub data PriorScheduleExecutionStatus : Type 0 where
  queued running completed failed cancelled : PriorScheduleExecutionStatus

pub data Firing : Type 0 where
  fire skip queue ignore : Firing

-- The fields that the decision reads.
pub record ScheduleDefinition : Type 0 where
  pub enabled : Bool
  pub next_run_at : Option ℕ
  pub last_status : Option String
  pub overlap_policy : String
  pub misfire_policy : String

abbrev overlap_policy_types : List String
overlap_policy_types = "allow" ∷ "skip" ∷ "queue" ∷ []

abbrev misfire_policy_types : List String
misfire_policy_types = "skip" ∷ "fire_now" ∷ "queue_all" ∷ []

abbrev pub is_known_overlap : ScheduleDefinition → Bool
is_known_overlap schedule = str_mem schedule.overlap_policy overlap_policy_types

abbrev pub is_known_misfire : ScheduleDefinition → Bool
is_known_misfire schedule = str_mem schedule.misfire_policy misfire_policy_types

unfoldable pub assert_schedule_policies : ScheduleDefinition → Result ScheduleError (Unit {0})
assert_schedule_policies schedule =
    require (is_known_overlap schedule) ScheduleError.unknown_overlap_policy
    >> require (is_known_misfire schedule) ScheduleError.unknown_misfire_policy

abbrev is_running_text : Option String → Bool
is_running_text none = false
is_running_text (some status) = status === "running"

-- The execution before is queued or running; without one, the schedule's last status counts.
abbrev pub overlaps : Option PriorScheduleExecutionStatus → Option String → Bool
overlaps (some queued) last = true
overlaps (some running) last = true
overlaps (some _) last = false
overlaps none last = is_running_text last

-- More than sixty minutes past the time to run.
abbrev pub is_late : ℕ → ℕ → Bool
is_late now next = ltb 3600000 (now - next)

-- The switch on the overlap policy.
abbrev pub by_overlap :
    ScheduleDefinition → Option PriorScheduleExecutionStatus → Result ScheduleError Firing
by_overlap schedule prior =
    if schedule.overlap_policy === "skip"
    then ok (if overlaps prior schedule.last_status then skip else fire)
    else (if schedule.overlap_policy === "queue"
        then ok queue
        else (if schedule.overlap_policy === "allow"
            then ok fire
            else err ScheduleError.unknown_overlap_policy))

unfoldable pub when_due :
    ScheduleDefinition
    → ℕ
    → Option PriorScheduleExecutionStatus
    → Option ℕ
    → Result ScheduleError Firing
when_due schedule now prior none = ok ignore
when_due schedule now prior (some next) =
    if negate schedule.enabled || ltb now next
    then ok ignore
    else (if is_late now next && schedule.misfire_policy === "skip"
        then ok skip
        else by_overlap schedule prior)

unfoldable pub should_fire_schedule :
    ScheduleDefinition → ℕ → Option PriorScheduleExecutionStatus → Result ScheduleError Firing
unfolding assert_schedule_policies when_due
should_fire_schedule schedule now prior =
    assert_schedule_policies schedule >> when_due schedule now prior schedule.next_run_at

abbrev pub is_fire : Result ScheduleError Firing → Bool
is_fire (ok fire) = true
is_fire _ = false

abbrev due : ℕ → ScheduleDefinition → Option ℕ → Bool
due now schedule none = false
due now schedule (some next) =
    negate (ltb now next) && negate (is_late now next && schedule.misfire_policy === "skip")

-- Enabled, due, and not so late that the misfire policy passes the run over.
abbrev pub is_due : ℕ → ScheduleDefinition → Bool
is_due now schedule = schedule.enabled && due now schedule schedule.next_run_at

-- The overlap policy lets it run beside, or after, the execution before.
abbrev pub may_run : ScheduleDefinition → Option PriorScheduleExecutionStatus → Bool
may_run schedule prior =
    schedule.overlap_policy === "allow"
    || (schedule.overlap_policy === "skip" && negate (overlaps prior schedule.last_status))

is_fire-by_overlap :
    (schedule : ScheduleDefinition) (prior : Option PriorScheduleExecutionStatus)
    → is_fire (by_overlap schedule prior) ≡ may_run schedule prior
is_fire-by_overlap schedule prior = elim (Bool-cases (schedule.overlap_policy === "skip")) [
  | inl skips ↦
      let other : (schedule.overlap_policy === "allow") ≡ false =
        ap (λ t. t === "allow") ((eq_iff schedule.overlap_policy "skip").0 skips) in
      rw (skips, other) (runs (overlaps prior schedule.last_status))
  | inr no_skip ↦ elim (Bool-cases (schedule.overlap_policy === "queue")) [
    | inl queues ↦
        let other : (schedule.overlap_policy === "allow") ≡ false =
          ap (λ t. t === "allow") ((eq_iff schedule.overlap_policy "queue").0 queues) in
        rw (no_skip, queues, other) refl
    | inr no_queue ↦ elim (Bool-cases (schedule.overlap_policy === "allow")) [
      | inl allows ↦ rw (no_skip, no_queue, allows) refl
      | inr unknown ↦ rw (no_skip, no_queue, unknown) refl
    ]
  ]
]
  where
    runs : (b : Bool) → is_fire (ok (if b then skip else fire)) ≡ negate b
    runs true = refl
    runs false = refl

is_fire-when_due :
    (schedule : ScheduleDefinition) (now : ℕ) (prior : Option PriorScheduleExecutionStatus)
    (next : Option ℕ)
    → is_fire (when_due schedule now prior next)
      ≡ (schedule.enabled && (due now schedule next && may_run schedule prior))
unfolding when_due
is_fire-when_due schedule now prior none = ground arith
is_fire-when_due schedule now prior (some next) =
    let runs = is_fire-by_overlap schedule prior in
    elim (Bool-cases (negate schedule.enabled || ltb now next)) [
      | inl early ↦ rw early (ground arith)
      | inr arrived ↦ elim (Bool-cases (is_late now next && schedule.misfire_policy === "skip")) [
        | inl late ↦ rw (arrived, late) (ground arith)
        | inr timely ↦ rw (arrived, timely) (runs ∙ ground arith)
      ]
    ]

is_fire->> :
    (b : Bool) (e : ScheduleError) (m : Result ScheduleError Firing)
    → is_fire (require b e >> m) ≡ (b && is_fire m)
is_fire->> true e m = refl
is_fire->> false e m = refl

-- A schedule fires exactly when the types of its policies are known, it is enabled and due and not
-- more than sixty minutes late under the misfire policy "skip", and its overlap policy is "allow",
-- or is "skip" while the execution before does not overlap.
pub is_fire-should_fire_schedule :
    (schedule : ScheduleDefinition) (now : ℕ) (prior : Option PriorScheduleExecutionStatus)
    → is_fire (should_fire_schedule schedule now prior) ≡ (
        is_known_overlap schedule
        && (is_known_misfire schedule && (is_due now schedule && may_run schedule prior)))
unfolding should_fire_schedule assert_schedule_policies
is_fire-should_fire_schedule schedule now prior = elim (Bool-cases (is_known_overlap schedule)) [
  | inr unknown ↦ rw unknown refl
  | inl known ↦ elim (Bool-cases (is_known_misfire schedule)) [
    | inr unknown ↦ rw (known, unknown) refl
    | inl known' ↦
        rw (known, known') (is_fire-when_due schedule now prior schedule.next_run_at ∙ ground arith)
  ]
]
