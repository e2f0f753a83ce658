-- ===== src/Tests/Limits.antt =====
-- A limit of two calls, against a store that counts in its state.
use kittle.Base.{ℕ, suc, ℤ, pos, String, ◌≡◌, refl, none, some, Result, ok, true}
use kittle.RateLimit.{
  RateError, Bucket, RateLimitStore, RateLimitCheckResult, CheckArgs, atomic, fail_open,
  checked_args, check_rate_limit, check_from, try_increment, on_failure, read_bucket,
  resolve_consistency,
}
use kittle.RateLimit.Window.{parse_time_window_ms, text}
use kittle.RateLimit.Closed.{IsCounted, check_rate_limit-atomic}
use kittle.RateLimit.Count.{IsCounting, allowed_calls, min, allowed_calls-lem}

half_hour : parse_time_window_ms (text " 30 Minutes") ≡ ok (pos 1800000)
unfolding parse_time_window_ms
half_hour = refl

abbrev count_hit : String → ℤ → ℕ → Result RateError Bucket × ℕ
count_hit key window_ms hits =
    (ok (record { count = some (pos (suc hits)); reset_at = some (pos 60000) }), suc hits)

abbrev store : RateLimitStore ℕ
store = record { increment = count_hit; increment_atomically = some count_hit }

abbrev args : CheckArgs
args = record {
  key = "client";
  limit = some (pos 2);
  window_ms = some (pos 60000);
  policy = none;
  consistency = none;
  failure_mode = some fail_open;
}

args_valid : checked_args args ≡ ok (atomic, pos 2, pos 60000)
unfolding resolve_consistency
args_valid = refl

abbrev second : RateLimitCheckResult
second = record { allowed = true; remaining = pos 0; reset_at = pos 60000 }

second_checked : (check_rate_limit store args (pos 5) 1).0 ≡ ok second
unfolding check_rate_limit check_from try_increment on_failure read_bucket resolve_consistency
second_checked = refl

check_rate_limit-atomic_example : IsCounted store "client" (pos 2) (pos 60000) 1 second
check_rate_limit-atomic_example =
    check_rate_limit-atomic store args (pos 5) 1 (pos 2) (pos 60000) second args_valid
      second_checked

count_hit-IsCounting : IsCounting count_hit "client" (pos 60000) (λ n. n) (pos 60000)
count_hit-IsCounting = record { returned = λ s. refl; counted = λ s. refl }

allowed_calls-lem_example : allowed_calls store args (pos 5) 7 0 ≡ min 7 2
allowed_calls-lem_example =
    allowed_calls-lem store args (pos 5) 2 (pos 60000) count_hit (λ n. n) (pos 60000) args_valid
      refl count_hit-IsCounting 7 0
