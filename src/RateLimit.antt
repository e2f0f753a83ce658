-- ===== src/RateLimit.antt =====
-- packages/core/src/rate-limit/rateLimit.ts: the check of a limit against a store's bucket. Numbers
-- are whole ones; `none` is one that is not finite. The store is a parameter: an operation on a
-- state `S`. Time is an argument, read once per call.
pub mod Window
pub mod Closed
pub mod Count
use kittle.Base.{
  ℕ, ℤ, pos, negsuc, ltb_ℤ, pos_part, neg_part, ◌+◌, ◌-◌, leb, String, codes, Bool, true, false,
  negate, ◌&&◌, ◌||◌, Option, none, some, all, Result, ok, err, ◌>>=◌, ◌>>◌, require, if◌then◌else◌,
}

pub data RateLimitConsistency : Type 0 where
  atomic best_effort : RateLimitConsistency

pub data RateLimitFailureMode : Type 0 where
  fail_closed fail_open : RateLimitFailureMode

-- The errors thrown: `rate_limited` carries the milliseconds to wait.
pub data RateError : Type 0 where
  empty_key invalid_max invalid_window conflict missing_capability invalid_bucket store_failure
        invalid_time_window :
      RateError
  rate_limited : ℤ → RateError

pub record Bucket : Type 0 where
  pub count : Option ℤ
  pub reset_at : Option ℤ

pub record RateLimitCheckResult : Type 0 where
  pub allowed : Bool
  pub remaining : ℤ
  pub reset_at : ℤ

-- `increment`, and `incrementAtomically` if the store has it.
pub record RateLimitStore (S : Type 0) : Type 0 where
  pub increment : String → ℤ → S → Result RateError Bucket × S
  pub increment_atomically : Option (String → ℤ → S → Result RateError Bucket × S)

pub record RateLimitPolicy : Type 0 where
  pub consistency : Option RateLimitConsistency
  pub failure_mode : Option RateLimitFailureMode

-- The arguments of a check other than the store and the clock.
pub record CheckArgs : Type 0 where
  pub key : String
  pub limit : Option ℤ
  pub window_ms : Option ℤ
  pub policy : Option RateLimitPolicy
  pub consistency : Option RateLimitConsistency
  pub failure_mode : Option RateLimitFailureMode

-- The white space of `trim` and of `\s`.
abbrev pub is_space : ℕ → Bool
is_space c =
    (leb 9 c && leb c 13)
    || (leb 32 c && leb c 32)
    || (leb 160 c && leb c 160)
    || (leb 0x1680 c && leb c 0x1680)
    || (leb 0x2000 c && leb c 0x200a)
    || (leb 0x2028 c && leb c 0x2029)
    || (leb 0x202f c && leb c 0x202f)
    || (leb 0x205f c && leb c 0x205f)
    || (leb 0x3000 c && leb c 0x3000)
    || (leb 0xfeff c && leb c 0xfeff)

-- `value.trim().length === 0`
abbrev pub is_blank : String → Bool
is_blank s = all is_space (codes s)

-- `a - b`
abbrev sub_nat : ℕ → ℕ → ℤ
sub_nat a b = if leb b a then pos (a - b) else negsuc (b - a - 1)

infixl 60 ◌-ℤ◌ ◌+ℤ◌
abbrev pub ◌-ℤ◌ : ℤ → ℤ → ℤ
a -ℤ b = sub_nat (pos_part a + neg_part b) (pos_part b + neg_part a)

abbrev pub ◌+ℤ◌ : ℤ → ℤ → ℤ
a +ℤ b = sub_nat (pos_part a + pos_part b) (neg_part a + neg_part b)

-- `Math.max(a, 0)`
abbrev pub at_least_zero : ℤ → ℤ
at_least_zero (pos n) = pos n
at_least_zero (negsuc n) = pos 0

-- `!Number.isFinite(n) || n <= 0` throws.
abbrev finite_positive : Option ℤ → RateError → Result RateError ℤ
finite_positive none e = err e
finite_positive (some n) e = if ltb_ℤ (pos 0) n then ok n else err e

abbrev policy_consistency : Option RateLimitPolicy → Option RateLimitConsistency
policy_consistency none = none
policy_consistency (some policy) = policy.consistency

abbrev pub policy_failure_mode : Option RateLimitPolicy → Option RateLimitFailureMode
policy_failure_mode none = none
policy_failure_mode (some policy) = policy.failure_mode

abbrev same_consistency : RateLimitConsistency → RateLimitConsistency → Bool
same_consistency atomic atomic = true
same_consistency best_effort best_effort = true
same_consistency _ _ = false

unfoldable pub resolve_consistency :
    Option RateLimitConsistency
    → Option RateLimitConsistency
    → Result RateError RateLimitConsistency
resolve_consistency none none = ok atomic
resolve_consistency none (some c) = ok c
resolve_consistency (some c) none = ok c
resolve_consistency (some c) (some d) =
    if same_consistency c d then ok c else err RateError.conflict

-- `args.failureMode ?? args.policy?.failureMode ?? "fail-closed"`
abbrev pub resolve_failure_mode :
    Option RateLimitFailureMode → Option RateLimitFailureMode → RateLimitFailureMode
resolve_failure_mode none none = fail_closed
resolve_failure_mode none (some mode) = mode
resolve_failure_mode (some mode) _ = mode

abbrev pub fail_open_result : ℤ → ℤ → ℤ → RateLimitCheckResult
fail_open_result limit window_ms now = record {
  allowed = true;
  remaining = limit;
  reset_at = now +ℤ window_ms;
}

-- The end of the `try` block: a count below zero, or a number that is not finite, throws.
abbrev pub read_counts : ℤ → Option ℤ → Option ℤ → Result RateError RateLimitCheckResult
read_counts limit (some (pos n)) (some reset_at) = ok (record {
  allowed = negate (ltb_ℤ limit (pos n));
  remaining = at_least_zero (limit -ℤ pos n);
  reset_at = reset_at;
})
read_counts limit _ _ = err RateError.invalid_bucket

unfoldable pub read_bucket : ℤ → Bucket → Result RateError RateLimitCheckResult
read_bucket limit bucket = read_counts limit bucket.count bucket.reset_at

-- The catch block: only a best-effort check that may fail open returns.
unfoldable pub on_failure :
    RateLimitFailureMode
    → RateLimitConsistency
    → RateLimitCheckResult
    → Result RateError RateLimitCheckResult
    → Result RateError RateLimitCheckResult
on_failure mode consistency open_result (ok r) = ok r
on_failure fail_open best_effort open_result (err e) = ok open_result
on_failure fail_open atomic open_result (err e) = err e
on_failure fail_closed consistency open_result (err e) = err e

abbrev pub checked_args : CheckArgs → Result RateError (RateLimitConsistency × ℤ × ℤ)
checked_args args = require (negate (is_blank args.key)) RateError.empty_key >>= λ _.
    finite_positive args.limit RateError.invalid_max >>= λ limit.
    finite_positive args.window_ms RateError.invalid_window >>= λ window_ms.
    resolve_consistency args.consistency (policy_consistency args.policy) >>= λ consistency.
    ok (consistency, limit, window_ms)

module _ {S : Type 0} where
  abbrev pub and_read : ℤ → Result RateError Bucket × S → Result RateError RateLimitCheckResult × S
  and_read limit result = (result.0 >>= read_bucket limit, result.1)

  abbrev pub atomically :
      ℤ
      → String
      → ℤ
      → S
      → Option (String → ℤ → S → Result RateError Bucket × S)
      → Result RateError RateLimitCheckResult × S
  atomically limit key window_ms s none = (err RateError.missing_capability, s)
  atomically limit key window_ms s (some f) = and_read limit (f key window_ms s)

  -- The `try` block.
  unfoldable pub try_increment :
      RateLimitStore S
      → RateLimitConsistency
      → String
      → ℤ
      → ℤ
      → S
      → Result RateError RateLimitCheckResult × S
  try_increment store best_effort key limit window_ms s =
      and_read limit (store.increment key window_ms s)
  try_increment store atomic key limit window_ms s =
      atomically limit key window_ms s store.increment_atomically

  abbrev pub guarded :
      RateLimitFailureMode
      → RateLimitConsistency
      → RateLimitCheckResult
      → Result RateError RateLimitCheckResult × S
      → Result RateError RateLimitCheckResult × S
  guarded mode consistency open_result result =
      (on_failure mode consistency open_result result.0, result.1)

  unfoldable pub check_from :
      RateLimitStore S
      → CheckArgs
      → ℤ
      → S
      → Result RateError (RateLimitConsistency × ℤ × ℤ)
      → Result RateError RateLimitCheckResult × S
  unfolding try_increment on_failure
  check_from store args now s (err e) = (err e, s)
  check_from store args now s (ok (consistency, limit, window_ms)) =
      guarded (resolve_failure_mode args.failure_mode (policy_failure_mode args.policy)) consistency
        (fail_open_result limit window_ms now)
        (try_increment store consistency args.key limit window_ms s)

  unfoldable pub check_rate_limit :
      RateLimitStore S → CheckArgs → ℤ → S → Result RateError RateLimitCheckResult × S
  unfolding check_from
  check_rate_limit store args now s = check_from store args now s (checked_args args)
