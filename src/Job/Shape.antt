-- ===== src/Job/Shape.antt =====
-- Round trip and typing of the check of a stored job: assertStoredJobShape of
-- packages/core/src/execution/types.ts.
use mathlib.Core.Path.{subst}
use kittle.Base.{
  ℕ, ℤ, pos, negsuc, leb, String, Bool, true, false, ◌≡◌, refl, ◌>>=◌, Option, none, some, Result,
  ok, if◌then◌else◌, arith, Option-cases, inl, inr, ok-injective, some-injective,
}
use kittle.Js.{
  Value, undefined, null, number, string, object, get_prop, date, Props, end, prop, get_prop,
}
use kittle.RateLimit.{is_blank}
use kittle.Job.{
  JobNumbers, JobScope, tenant, platform, system, ShapeError, StoredJob, max_safe_integer,
  assert_stored_job_shape, counter, optional_counter, or_throw, nullable_text, nullable_object,
  scope_of, non_blank, at_least_one, safe_natural, positive_counter, some_counter, plain_object,
  props_of, scope_value, text_of,
}

abbrev scope_text : JobScope → String
scope_text tenant = "tenant"
scope_text platform = "platform"
scope_text system = "system"

abbrev is_safe_limit : Option ℕ → Bool
is_safe_limit none = true
is_safe_limit (some n) = if leb 1 n then leb n max_safe_integer else false

-- What the check promises of a job.
pub record IsWellFormed {N : Type 0} (job : StoredJob N) : Type 0 where
  pub named : is_blank job.id ≡ false
  pub typed : is_blank job.job_type ≡ false
  pub versioned : (leb 1 job.job_version ≡ true) × (leb job.job_version max_safe_integer ≡ true)
  pub completed : leb job.attempts_completed max_safe_integer ≡ true
  pub current : leb job.current_attempt max_safe_integer ≡ true
  pub limited : is_safe_limit job.max_attempts ≡ true

-- A job that the check has read from a value: the identifier is the value's own.
pub record IsRead {N : Type 0} (v : Value N) (job : StoredJob N) : Type 0 where
  pub identified : get_prop "id" (props_of v) ≡ string job.id
  pub formed : IsWellFormed job

module _ {N : Type 0} where
  abbrev text_value : Option String → Value N
  text_value none = null
  text_value (some s) = string s

  abbrev object_value : Option (Props N) → Value N
  object_value none = null
  object_value (some ps) = object 1 ps

  nullable_object-object_value : (o : Option (Props N)) → nullable_object (object_value o) ≡ some o
  nullable_object-object_value none = refl
  nullable_object-object_value (some ps) = refl

nullable_text-text_value :
    (N : Type 0) (o : Option String) → nullable_text (text_value {N = N} o) ≡ some o
nullable_text-text_value N none = refl
nullable_text-text_value N (some s) = refl

-- A whole number that is a safe integer is itself after a conversion to a number.
pub record IsExact {N : Type 0} (num : JobNumbers N) : Type 0 where
  pub exact : (n : ℕ) → leb n max_safe_integer ≡ true → num.as_integer (num.of_nat n) ≡ some (pos n)

non_blank-string :
    (N : Type 0) (s : String) → is_blank s ≡ false → non_blank {N = N} (string s) ≡ some s
non_blank-string N s h = rw h refl

at_least_one-some : {o : Option ℕ} {n : ℕ} → o ≡ some n → leb 1 n ≡ true → at_least_one o ≡ some n
at_least_one-some h low = rw (h, low) refl

safe_natural-safe : (o : Option ℤ) (n : ℕ) → safe_natural o ≡ some n → leb n max_safe_integer ≡ true
safe_natural-safe none n h = cc
safe_natural-safe (some (negsuc k)) n h = cc
safe_natural-safe (some (pos k)) n h = ground arith

scope_of-scope_text : (scope : JobScope) → scope_of (scope_text scope) ≡ some scope
scope_of-scope_text tenant = refl
scope_of-scope_text platform = refl
scope_of-scope_text system = refl

passes :
    {A B : Type 0} {o : Option A} {a : A} (e : ShapeError) (f : A → Result ShapeError B)
    {r : Result ShapeError B}
    → o ≡ some a
    → f a ≡ r
    → (or_throw o e >>= f) ≡ r
passes e f h rest = rw h rest

-- Every value that the call returns has the property.
abbrev Ensures : {A : Type 0} → (A → Type 0) → Result ShapeError A → Type 0
Ensures {A} P r = (a : A) → r ≡ ok a → P a

ensures :
    {A B : Type 0} (P : B → Type 0) (o : Option A) (e : ShapeError) (f : A → Result ShapeError B)
    → ((a : A) → o ≡ some a → Ensures P (f a))
    → Ensures P (or_throw o e >>= f)
ensures P none e f rest = λ b h. cc
ensures P (some a) e f rest = rest a refl

module _ {N : Type 0} ⦃num : JobNumbers N⦄ where
  abbrev limit_value : Option ℕ → Value N
  limit_value none = undefined
  limit_value (some n) = number (num.of_nat n)

  -- The row of a job.
  unfoldable pub job_value : StoredJob N → Value N
  job_value job = object 0 (
      prop "id" (string job.id) (
        prop "jobType" (string job.job_type) (
          prop "jobVersion" (number (num.of_nat job.job_version)) (
            prop "scope" (string (scope_text job.scope)) (
              prop "tenantId" (text_value job.tenant_id) (
                prop "payload" (string job.payload) (
                  prop "attemptsCompleted" (number (num.of_nat job.attempts_completed)) (
                    prop "currentAttempt" (number (num.of_nat job.current_attempt)) (
                      prop "maxAttempts" (limit_value job.max_attempts) (
                        prop "claimToken" (text_value job.claim_token) (
                          prop "correlationId" (text_value job.correlation_id)
                            (prop "metadata" (object_value job.metadata) end))))))))))))

  counter-of_nat :
      IsExact num
      → (n : ℕ) → leb n max_safe_integer ≡ true
      → counter (number (num.of_nat n)) ≡ some n
  counter-of_nat exact n h = rw (exact.exact n h, h) refl

  counter-limit_value :
      IsExact num
      → (limit : Option ℕ) → is_safe_limit limit ≡ true
      → optional_counter (limit_value limit) ≡ some limit
  counter-limit_value exact none h = refl
  counter-limit_value exact (some n) h =
      let low : leb 1 n ≡ true = ground arith in
      let read = counter-of_nat exact n (ground arith) in rw (read, low) refl

  -- Where safe integers convert exactly, the check returns every well-formed job from its row.
  pub assert_stored_job_shape-job_value :
      (job : StoredJob N)
      → IsExact num
      → IsWellFormed job
      → assert_stored_job_shape (job_value job) ≡ ok job
  unfolding assert_stored_job_shape job_value
  assert_stored_job_shape-job_value job exact w =
      let (low, high) = w.versioned in
      let version = counter-of_nat exact job.job_version high in
      passes _ _ (non_blank-string N job.id w.named) (
        passes _ _ (non_blank-string N job.job_type w.typed) (
          passes _ _ (at_least_one-some version low) (
            passes _ _ (scope_of-scope_text job.scope) (
              passes _ _ (nullable_text-text_value N job.tenant_id) (
                passes _ _ (counter-of_nat exact job.attempts_completed w.completed) (
                  passes _ _ (counter-of_nat exact job.current_attempt w.current) (
                    passes _ _ (counter-limit_value exact job.max_attempts w.limited) (
                      passes _ _ (nullable_text-text_value N job.claim_token) (
                        passes _ _ (nullable_text-text_value N job.correlation_id)
                          (passes _ _ (nullable_object-object_value job.metadata) refl))))))))))

  non_blank-named : (v : Value N) (s : String) → non_blank v ≡ some s → is_blank s ≡ false
  non_blank-named (string s') s h = ground arith
  non_blank-named _ s h = cc

  counter-safe : (v : Value N) (n : ℕ) → counter v ≡ some n → leb n max_safe_integer ≡ true
  counter-safe (number x) n h = safe_natural-safe (num.as_integer x) n h
  counter-safe _ n h = cc

  positive_counter-safe :
      (v : Value N) (n : ℕ)
      → positive_counter v ≡ some n
      → (leb 1 n ≡ true) × (leb n max_safe_integer ≡ true)
  positive_counter-safe v n h = elim (Option-cases (counter v)) [
    | inl e ↦ let f : ⊥ = (let h' : at_least_one none ≡ some n = rw e at h in cc) in absurd f
    | inr (m, e) ↦
        let safe = counter-safe v m e in
        let h' : at_least_one (some m) ≡ some n = rw e at h in ground arith
  ]

  some_counter-safe :
      (v : Value N) (limit : Option ℕ)
      → some_counter (positive_counter v) ≡ some limit
      → is_safe_limit limit ≡ true
  some_counter-safe v limit h = elim (Option-cases (positive_counter v)) [
    | inl e ↦ let h' : some_counter none ≡ some limit = rw e at h in let f : ⊥ = cc in absurd f
    | inr (n, e) ↦
        let (low, high) = positive_counter-safe v n e in
        let h' : some_counter (some n) ≡ some limit = rw e at h in
        subst (λ l. is_safe_limit l ≡ true) (some-injective h') (rw (low, high) refl)
  ]

  limit-safe :
      (v : Value N) (limit : Option ℕ)
      → optional_counter v ≡ some limit
      → is_safe_limit limit ≡ true
  limit-safe undefined none h = refl
  limit-safe undefined (some n) h = cc
  limit-safe (number x) limit h = some_counter-safe (number x) limit h
  limit-safe _ limit h = cc

  reads_text : (v : Value N) (s : String) → non_blank v ≡ some s → v ≡ string s
  reads_text (string s') s h = ground arith
  reads_text _ s h = absurd (let f : ⊥ = cc in f)

  reads_props : (v : Value N) (ps : Props N) → plain_object v ≡ some ps → props_of v ≡ ps
  reads_props (object i qs) ps h = cc
  reads_props (date x) ps h = cc
  reads_props _ ps h = absurd (let f : ⊥ = cc in f)

  reads_id :
      (v : Value N) (ps : Props N) (id : String)
      → plain_object v ≡ some ps
      → non_blank (get_prop "id" ps) ≡ some id
      → get_prop "id" (props_of v) ≡ string id
  reads_id v ps id h named = rw (reads_props v ps h) (reads_text (get_prop "id" ps) id named)

  pub assert_stored_job_shape-IsRead :
      (v : Value N) (job : StoredJob N) → assert_stored_job_shape v ≡ ok job → IsRead v job
  unfolding assert_stored_job_shape
  assert_stored_job_shape-IsRead v = ensures (IsRead v) (plain_object v) _ _ λ ps is_object.
      ensures (IsRead v) (non_blank (get_prop "id" ps)) _ _ λ id named.
        ensures (IsRead v) (non_blank (get_prop "jobType" ps)) _ _ λ job_type typed.
          ensures (IsRead v) (positive_counter (get_prop "jobVersion" ps)) _ _ λ version versioned.
            ensures (IsRead v) (scope_value (get_prop "scope" ps)) _ _ λ scope _.
              ensures (IsRead v) (nullable_text (get_prop "tenantId" ps)) _ _ λ tenant_id _.
                ensures (IsRead v) (text_of (get_prop "payload" ps)) _ _ λ payload _.
                  ensures (IsRead v) (counter (get_prop "attemptsCompleted" ps)) _ _
                    λ completed is_completed.
                      ensures (IsRead v) (counter (get_prop "currentAttempt" ps)) _ _
                        λ current is_current.
                          ensures (IsRead v) (optional_counter (get_prop "maxAttempts" ps)) _ _
                            λ limit is_limit.
                              ensures (IsRead v) (nullable_text (get_prop "claimToken" ps)) _ _
                                λ token _.
                                  ensures (IsRead v) (nullable_text (get_prop "correlationId" ps)) _
                                    _
                                    λ correlation _.
                                      ensures (IsRead v) (nullable_object (get_prop "metadata" ps))
                                        _ _
                                        λ metadata _ job h.
                                          subst (IsRead v) (ok-injective h) record {
                                            identified = reads_id v ps id is_object named;
                                            formed = record {
                                              named = non_blank-named (get_prop "id" ps) id named;
                                              typed =
                                                  non_blank-named (get_prop "jobType" ps) job_type
                                                    typed;
                                              versioned = positive_counter-safe _ version versioned;
                                              completed = counter-safe _ completed is_completed;
                                              current = counter-safe _ current is_current;
                                              limited = limit-safe _ limit is_limit;
                                            };
                                          }

  -- Whatever value a store gives, a job that the check returns is well formed: its identifier and
  -- type are not blank, its counters are safe integers, and its version and limit are positive.
  pub assert_stored_job_shape-IsWellFormed :
      (v : Value N) (job : StoredJob N) → assert_stored_job_shape v ≡ ok job → IsWellFormed job
  assert_stored_job_shape-IsWellFormed v job h = (assert_stored_job_shape-IsRead v job h).formed
