-- ===== src/Job/Retry.antt =====
-- packages/core/src/execution/retryPolicy.ts. An attempt is a whole number, as the dispatcher's
-- are. A limit that is not a whole number is `none`.
pub mod Bounds
use kittle.Base.{
  ℕ, zero, suc, ℤ, pos, ltb_ℤ, Bool, true, false, negate, ◌&&◌, ◌≡◌, refl, Option, none, some,
  Result, ok, err, ◌>>=◌, ◌>>◌, require, is_ok, if◌then◌else◌, arith, Bool-cases, inl, inr,
}
use kittle.Job.{JobNumbers}

pub data RetryError : Type 0 where
  invalid_max_attempts invalid_delay invalid_multiplier invalid_max_delay invalid_attempt :
      RetryError

pub record RetryPolicy (N : Type 0) : Type 0 where
  pub max_attempts : Option ℤ
  pub delay_ms : N
  pub backoff_multiplier : N
  pub max_delay_ms : Option N

abbrev is_at_least_one : Option ℤ → Bool
is_at_least_one none = false
is_at_least_one (some z) = negate (ltb_ℤ z (pos 1))

-- `attempt < maxAttempts`
abbrev pub is_below : ℕ → Option ℤ → Bool
is_below attempt none = false
is_below attempt (some z) = ltb_ℤ (pos attempt) z

module _ {N : Type 0} ⦃num : JobNumbers N⦄ where
  abbrev pub is_negative : N → Bool
  is_negative x = num.lt x (num.of_nat 0)

  abbrev assert_finite_retry_value : RetryError → N → Result RetryError (Unit {0})
  assert_finite_retry_value e x = require (num.is_finite x && negate (is_negative x)) e

  abbrev check_max_delay : Option N → Result RetryError (Unit {0})
  check_max_delay none = ok tt
  check_max_delay (some x) = assert_finite_retry_value RetryError.invalid_max_delay x

  unfoldable pub validate_retry_policy : RetryPolicy N → Result RetryError (Unit {0})
  validate_retry_policy policy =
      require (is_at_least_one policy.max_attempts) RetryError.invalid_max_attempts
      >> (assert_finite_retry_value RetryError.invalid_delay policy.delay_ms
          >> (require
                (num.is_finite policy.backoff_multiplier
                  && num.lt (num.of_nat 0) policy.backoff_multiplier)
                RetryError.invalid_multiplier
              >> check_max_delay policy.max_delay_ms))

  abbrev pub capped : Option N → N → N
  capped none delay = delay
  capped (some max) delay = num.min delay max

  -- The delay after the attempt `suc n`; the code counts the power from zero.
  abbrev pub delay_after : RetryPolicy N → ℕ → N
  delay_after policy n =
      capped policy.max_delay_ms (num.mul policy.delay_ms (num.pow policy.backoff_multiplier n))

  abbrev delay_from : RetryPolicy N → ℕ → Result RetryError N
  delay_from policy zero = err RetryError.invalid_attempt
  delay_from policy (suc n) =
      ok (if is_below (suc n) policy.max_attempts then delay_after policy n else num.minus_one)

  -- -1 when the attempts are used up.
  unfoldable pub get_next_retry_delay : RetryPolicy N → ℕ → Result RetryError N
  unfolding validate_retry_policy
  get_next_retry_delay policy attempt = validate_retry_policy policy >> delay_from policy attempt

  abbrev retry_from : RetryPolicy N → ℕ → Result RetryError Bool
  retry_from policy zero = err RetryError.invalid_attempt
  retry_from policy attempt = ok (is_below attempt policy.max_attempts)

  unfoldable pub should_retry : RetryPolicy N → ℕ → Result RetryError Bool
  unfolding validate_retry_policy
  should_retry policy attempt = validate_retry_policy policy >> retry_from policy attempt

  abbrev pub date_from : N → N → Option N
  date_from now delay = if is_negative delay then none else some (num.as_date (num.add now delay))

  -- A date is its time in milliseconds.
  unfoldable pub compute_next_attempt_at : RetryPolicy N → ℕ → N → Result RetryError (Option N)
  unfolding get_next_retry_delay
  compute_next_attempt_at policy attempt now =
      get_next_retry_delay policy attempt >>= λ delay. ok (date_from now delay)
