-- ===== src/RateLimit/Count.antt =====
-- A window's calls against a store that counts them.
use kittle.Base.{
  ℕ, zero, suc, ◌+◌, ◌-◌, ltb, ℤ, pos, String, ◌≡◌, refl, Bool, false, some, Result, ok, err,
  if◌then◌else◌, arith,
}
use kittle.RateLimit.{
  RateError, Bucket, RateLimitStore, RateLimitCheckResult, CheckArgs, atomic, checked_args,
  check_rate_limit, check_from, try_increment, on_failure, read_bucket,
}

-- Is it a result that allows the call?
abbrev allows : Result RateError RateLimitCheckResult → Bool
allows (ok r) = r.allowed
allows (err _) = false

abbrev pub min : ℕ → ℕ → ℕ
min a b = if ltb a b then a else b

module _ {S : Type 0} where
  -- How many of `n` calls, one after another, are allowed.
  pub allowed_calls : RateLimitStore S → CheckArgs → ℤ → ℕ → S → ℕ
  allowed_calls store args now zero s = 0
  allowed_calls store args now (suc n) s =
      let checked = check_rate_limit store args now s in
      (if allows checked.0 then 1 else 0) + allowed_calls store args now n checked.1

  -- The contract of a store: within the window, its atomic operation adds one to the hits and
  -- returns the new number.
  pub record IsCounting (f : String → ℤ → S → Result RateError Bucket × S) (key : String)
      (window_ms : ℤ) (hits : S → ℕ) (reset : ℤ) : Type 0 where
    pub returned :
        (s : S)
        → (f key window_ms s).0
          ≡ ok (record { count = some (pos (suc (hits s))); reset_at = some reset })
    pub counted : (s : S) → hits (f key window_ms s).1 ≡ suc (hits s)

  module _ (store : RateLimitStore S) (args : CheckArgs) (now : ℤ) (limit : ℕ) (window_ms : ℤ)
      (f : String → ℤ → S → Result RateError Bucket × S) (hits : S → ℕ) (reset : ℤ)
      (valid : checked_args args ≡ ok (atomic, pos limit, window_ms))
      (capable : store.increment_atomically ≡ some f)
      (counting : IsCounting f args.key window_ms hits reset) where
    step-allows : (s : S) → allows (check_rate_limit store args now s).0 ≡ ltb (hits s) limit
    unfolding check_rate_limit check_from try_increment read_bucket on_failure
    step-allows s = rw (valid, capable, counting.returned s) (ground arith)

    step-state : (s : S) → (check_rate_limit store args now s).1 ≡ (f args.key window_ms s).1
    unfolding check_rate_limit check_from try_increment
    step-state s = rw (valid, capable) refl

    -- If the arguments are valid and resolve to atomic consistency, and the store has an atomic
    -- operation that counts the hits, then of `n` calls in a window as many are allowed as the limit
    -- leaves over the hits before: where there were none, the smaller of `n` and the limit.
    pub allowed_calls-lem :
        (n : ℕ) (s : S) → allowed_calls store args now n s ≡ min n (limit - hits s)
    unfolding allowed_calls
    allowed_calls-lem zero s = ground arith
    allowed_calls-lem (suc n) s =
        let rest = allowed_calls-lem n (f args.key window_ms s).1 in
        rw (step-allows s, step-state s) (ground (arith, rest, counting.counted s))
