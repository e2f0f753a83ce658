-- ===== src/RateLimit/Closed.antt =====
-- What a check that passes says of the store.
use kittle.Base.{
  ℤ, pos, ltb_ℤ, String, ◌≡◌, refl, ◌∙◌, negate, Option, none, some, Result, ok, err, negsuc, sym,
  ap, ok-injective, >>=-eq-ok,
}
use kittle.RateLimit.{
  RateError, Bucket, RateLimitStore, RateLimitCheckResult, RateLimitFailureMode, CheckArgs, atomic,
  fail_open, fail_closed, try_increment, on_failure, read_bucket, check_from, checked_args,
  check_rate_limit, read_counts, atomically, resolve_failure_mode, policy_failure_mode,
  fail_open_result,
}

-- What the bucket is when reading it gives a result.
pub record IsReading (limit : ℤ) (bucket : Bucket) (r : RateLimitCheckResult) : Type 0 where
  pub count : ℤ
  pub counted : bucket.count ≡ some count
  pub exact : r.allowed ≡ negate (ltb_ℤ limit count)
  pub same_reset : bucket.reset_at ≡ some r.reset_at

read_counts-IsReading :
    (limit : ℤ) (count reset_at : Option ℤ) (r : RateLimitCheckResult)
    → read_counts limit count reset_at ≡ ok r
    → IsReading limit (record { count = count; reset_at = reset_at }) r
read_counts-IsReading limit none reset_at r h = absurd (let f : ⊥ = cc in f)
read_counts-IsReading limit (some (negsuc n)) reset_at r h = absurd (let f : ⊥ = cc in f)
read_counts-IsReading limit (some (pos n)) none r h = absurd (let f : ⊥ = cc in f)
read_counts-IsReading limit (some (pos n)) (some reset_at) r h =
    let e = ok-injective h in
    record {
      count = pos n;
      counted = refl;
      exact = sym (ap (λ x. x.allowed) e);
      same_reset = ap (λ x. some x.reset_at) e;
    }

on_failure-atomic :
    (mode : RateLimitFailureMode) (o r : RateLimitCheckResult)
    (m : Result RateError RateLimitCheckResult)
    → on_failure mode atomic o m ≡ ok r
    → m ≡ ok r
unfolding on_failure
on_failure-atomic mode o r (ok a) h = h
on_failure-atomic fail_open o r (err e) h = cc
on_failure-atomic fail_closed o r (err e) h = cc

module _ {S : Type 0} where
  -- The atomic operation that the store has, the bucket that it returned, and what was read of it.
  pub record IsCounted (store : RateLimitStore S) (key : String) (limit window_ms : ℤ) (s : S)
      (r : RateLimitCheckResult) : Type 0 where
    pub increment : String → ℤ → S → Result RateError Bucket × S
    pub capable : store.increment_atomically ≡ some increment
    pub bucket : Bucket
    pub returned : (increment key window_ms s).0 ≡ ok bucket
    pub reading : IsReading limit bucket r

  atomically-IsCounted :
      (store : RateLimitStore S) (key : String) (limit window_ms : ℤ) (s : S)
      (r : RateLimitCheckResult)
      → (o : Option (String → ℤ → S → Result RateError Bucket × S)) → store.increment_atomically ≡ o
      → (atomically limit key window_ms s o).0 ≡ ok r
      → IsCounted store key limit window_ms s r
  unfolding read_bucket
  atomically-IsCounted store key limit window_ms s r none e h = absurd (let f : ⊥ = cc in f)
  atomically-IsCounted store key limit window_ms s r (some f) e h =
      let (bucket, returned, read) = >>=-eq-ok (f key window_ms s).0 (read_bucket limit) h in
      record {
        increment = f;
        capable = e;
        bucket = bucket;
        returned = returned;
        reading = read_counts-IsReading limit bucket.count bucket.reset_at r read;
      }

  -- Where a check's arguments are valid and resolve to atomic consistency, whatever the failure
  -- mode, a check that returns has read a bucket that the store's atomic operation returned for the
  -- key: it allows exactly the counts up to the limit, and gives the bucket's time of reset.
  pub check_rate_limit-atomic :
      (store : RateLimitStore S) (args : CheckArgs) (now : ℤ) (s : S) (limit window_ms : ℤ)
      (r : RateLimitCheckResult)
      → checked_args args ≡ ok (atomic, limit, window_ms)
      → (check_rate_limit store args now s).0 ≡ ok r
      → IsCounted store args.key limit window_ms s r
  unfolding check_rate_limit check_from try_increment
  check_rate_limit-atomic store args now s limit window_ms r valid h =
      let h' : (check_from store args now s (ok (atomic, limit, window_ms))).0 ≡ ok r =
        ap (λ c. (check_from store args now s c).0) (sym valid) ∙ h in
      atomically-IsCounted store args.key limit window_ms s r store.increment_atomically refl (
        on_failure-atomic (resolve_failure_mode args.failure_mode (policy_failure_mode args.policy))
          (fail_open_result limit window_ms now) r
          (atomically limit args.key window_ms s store.increment_atomically).0 h')
