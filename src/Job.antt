-- ===== src/Job.antt =====
-- packages/core/src/execution/types.ts: the data of the job dispatcher, and its check of a stored
-- job. A check that asserts a type returns the value at that type, with the fields that the
-- dispatcher reads. Numbers are a type `N` with the operations of `JobNumbers`.
pub mod Retry
pub mod Race
pub mod Run
pub mod Execute
pub mod Failure
pub mod Shape
pub mod Store
pub mod Dispatch
pub mod Verdict
pub mod Attempts
use kittle.Base.{
  ℕ, suc, ℤ, pos, negsuc, leb, String, ◌===◌, codes, Bool, true, false, negate, is_empty, Option,
  none, some, Result, ok, err, ◌>>=◌, if◌then◌else◌,
}
use kittle.Js.{Value, undefined, null, number, string, array, object, Props, date, end, get_prop}
use kittle.RateLimit.{is_blank}

-- The operations on doubles that the dispatcher calls. `as_integer` is the whole number that a
-- double is, if it is one, and `as_date` the time of a date made from it.
pub record JobNumbers (N : Type 0) : Type 0 where
  pub as_integer : N → Option ℤ
  pub of_nat : ℕ → N
  pub minus_one : N
  pub is_finite : N → Bool
  pub lt : N → N → Bool
  pub add : N → N → N
  pub mul : N → N → N
  pub pow : N → ℕ → N
  pub min : N → N → N
  pub as_date : N → N

pub data JobScope : Type 0 where
  tenant platform system : JobScope

pub data ShapeError : Type 0 where
  job_not_object bad_id bad_job_type bad_version bad_scope bad_tenant bad_payload bad_attempts
        bad_max_attempts bad_claim_token bad_correlation bad_metadata :
      ShapeError

-- A `metadata` of `none` is null or absent.
pub record StoredJob (N : Type 0) : Type 0 where
  pub id : String
  pub job_type : String
  pub job_version : ℕ
  pub scope : JobScope
  pub tenant_id : Option String
  pub payload : String
  pub attempts_completed : ℕ
  pub current_attempt : ℕ
  pub max_attempts : Option ℕ
  pub claim_token : Option String
  pub correlation_id : Option String
  pub metadata : Option (Props N)

-- `Number.MAX_SAFE_INTEGER`
abbrev pub max_safe_integer : ℕ
max_safe_integer = 9007199254740991

-- `JOB_SCOPES.includes(scope)`
abbrev pub scope_of : String → Option JobScope
scope_of s =
    if s === "tenant"
    then some tenant
    else (if s === "platform"
        then some platform
        else (if s === "system" then some system else none))

abbrev or_throw : {A : Type 0} → Option A → ShapeError → Result ShapeError A
or_throw none e = err e
or_throw (some a) e = ok a

-- A safe integer that is not negative.
abbrev safe_natural : Option ℤ → Option ℕ
safe_natural (some (pos n)) = if leb n max_safe_integer then some n else none
safe_natural _ = none

abbrev at_least_one : Option ℕ → Option ℕ
at_least_one none = none
at_least_one (some n) = if leb 1 n then some n else none

abbrev some_counter : Option ℕ → Option (Option ℕ)
some_counter none = none
some_counter (some n) = some (some n)

module _ {N : Type 0} where
  -- An object that is not an array. A date has none of the fields read.
  abbrev pub plain_object : Value N → Option (Props N)
  plain_object (object _ ps) = some ps
  plain_object (date _) = some end
  plain_object _ = none

  -- The properties to read; other values have none of those read here.
  abbrev pub props_of : Value N → Props N
  props_of (object _ ps) = ps
  props_of _ = end

  abbrev text_of : Value N → Option String
  text_of (string s) = some s
  text_of _ = none

  abbrev non_blank : Value N → Option String
  non_blank (string s) = if is_blank s then none else some s
  non_blank _ = none

  abbrev scope_value : Value N → Option JobScope
  scope_value (string s) = scope_of s
  scope_value _ = none

  -- A string, null or undefined.
  abbrev nullable_text : Value N → Option (Option String)
  nullable_text undefined = some none
  nullable_text null = some none
  nullable_text (string s) = some (some s)
  nullable_text _ = none

  -- An object that is not an array, null or undefined.
  abbrev nullable_object : Value N → Option (Option (Props N))
  nullable_object undefined = some none
  nullable_object null = some none
  nullable_object (object _ ps) = some (some ps)
  nullable_object (date _) = some (some end)
  nullable_object _ = none

module _ {N : Type 0} ⦃num : JobNumbers N⦄ where
  -- A safe integer from zero on.
  abbrev pub counter : Value N → Option ℕ
  counter (number x) = safe_natural (num.as_integer x)
  counter _ = none

  abbrev positive_counter : Value N → Option ℕ
  positive_counter v = at_least_one (counter v)

  abbrev optional_counter : Value N → Option (Option ℕ)
  optional_counter undefined = some none
  optional_counter v = some_counter (positive_counter v)

  unfoldable pub assert_stored_job_shape : Value N → Result ShapeError (StoredJob N)
  assert_stored_job_shape job = do
    ps ← or_throw (plain_object job) ShapeError.job_not_object
    id ← or_throw (non_blank (get_prop "id" ps)) ShapeError.bad_id
    job_type ← or_throw (non_blank (get_prop "jobType" ps)) ShapeError.bad_job_type
    version ← or_throw (positive_counter (get_prop "jobVersion" ps)) ShapeError.bad_version
    scope ← or_throw (scope_value (get_prop "scope" ps)) ShapeError.bad_scope
    tenant_id ← or_throw (nullable_text (get_prop "tenantId" ps)) ShapeError.bad_tenant
    payload ← or_throw (text_of (get_prop "payload" ps)) ShapeError.bad_payload
    completed ← or_throw (counter (get_prop "attemptsCompleted" ps)) ShapeError.bad_attempts
    current ← or_throw (counter (get_prop "currentAttempt" ps)) ShapeError.bad_attempts
    limit ← or_throw (optional_counter (get_prop "maxAttempts" ps)) ShapeError.bad_max_attempts
    token ← or_throw (nullable_text (get_prop "claimToken" ps)) ShapeError.bad_claim_token
    correlation ← or_throw (nullable_text (get_prop "correlationId" ps)) ShapeError.bad_correlation
    metadata ← or_throw (nullable_object (get_prop "metadata" ps)) ShapeError.bad_metadata
    ok record {
      id = id;
      job_type = job_type;
      job_version = version;
      scope = scope;
      tenant_id = tenant_id;
      payload = payload;
      attempts_completed = completed;
      current_attempt = current;
      max_attempts = limit;
      claim_token = token;
      correlation_id = correlation;
      metadata = metadata;
    }
