-- ===== src/Job/Retry/Bounds.antt =====
-- When a retry has a date, and the cap of its delay: packages/core/src/execution/retryPolicy.ts.
use mathlib.Core.Path.{subst}
use kittle.Base.{
  ℕ, suc, ℤ, pos, ◌<ℤ◌, ◌≤ℤ◌, Bool, true, false, negate, ◌&&◌, ◌≡◌, refl, sym, ap, ◌∙◌, Option,
  none, some, ok, if◌then◌else◌, arith, Bool-cases, if-cases, and_first, some-injective, inl, inr,
}
use kittle.Job.{JobNumbers}
use kittle.Job.Retry.{
  RetryPolicy, is_below, is_negative, capped, delay_after, validate_retry_policy,
  get_next_retry_delay, compute_next_attempt_at,
}

-- What the proofs use of the arithmetic of doubles, the two zeros taken as one: no product of numbers
-- that are not negative is negative, nor a power of a positive one; no number is less than itself;
-- and the minimum of a number and a finite one is the second where that is less, else the first.
pub record IsOrdered {N : Type 0} (num : JobNumbers N) : Type 0 where
  pub minus_one-negative : num.lt num.minus_one (num.of_nat 0) ≡ true
  pub mul-nonneg :
      (a b : N)
      → num.lt a (num.of_nat 0) ≡ false
      → num.lt b (num.of_nat 0) ≡ false
      → num.lt (num.mul a b) (num.of_nat 0) ≡ false
  pub pow-nonneg :
      (a : N) (n : ℕ) → num.lt (num.of_nat 0) a ≡ true → num.lt (num.pow a n) (num.of_nat 0) ≡ false
  pub lt-irrefl : (a : N) → num.lt a a ≡ false
  pub min-lem : (a b : N) → num.is_finite b ≡ true → num.min a b ≡ (if num.lt b a then b else a)

abbrev pub is_valid_cap : {N : Type 0} ⦃num : JobNumbers N⦄ → Option N → Bool
is_valid_cap none = true
is_valid_cap ⦃num⦄ (some x) = num.is_finite x && negate (is_negative x)

-- At most the cap, if there is one.
abbrev pub is_within : {N : Type 0} ⦃num : JobNumbers N⦄ → Option N → N → Bool
is_within none delay = true
is_within ⦃num⦄ (some max) delay = negate (num.lt max delay)

is_below-some :
    (k : ℕ) (limit : Option ℤ) → is_below k limit ≡ true → (z : ℤ) × (limit ≡ some z) × (pos k <ℤ z)
is_below-some k none h = absurd (let f : ⊥ = ground arith in f)
is_below-some k (some z) h = (z, refl, ground arith)

is_below-none :
    (k : ℕ) (limit : Option ℤ) (z : ℤ) → is_below k limit ≡ false → limit ≡ some z → z ≤ℤ pos k
is_below-none k none z h e = cc
is_below-none k (some y) z h e = subst (λ x. x ≤ℤ pos k) (some-injective e) (ground arith)

module _ {N : Type 0} ⦃num : JobNumbers N⦄ where
  -- A policy that passes has a delay that is not negative and a positive multiplier.
  pub validate_retry_policy-nonneg :
      (policy : RetryPolicy N)
      → validate_retry_policy policy ≡ ok tt
      → (is_negative policy.delay_ms ≡ false)
        × (num.lt (num.of_nat 0) policy.backoff_multiplier ≡ true)
        × (is_valid_cap policy.max_delay_ms ≡ true)
  unfolding validate_retry_policy
  validate_retry_policy-nonneg policy h = ground arith

  -- A delay before and after the cut.
  pub data IsCapped : Option N → N → N → Type 0 where
    uncapped : {raw : N} → IsCapped none raw raw
    below : {cap raw : N} → num.lt cap raw ≡ false → IsCapped (some cap) raw raw
    cut : {cap raw : N} → num.lt cap raw ≡ true → IsCapped (some cap) raw cap

  capped-IsCapped :
      IsOrdered num
      → (cap : Option N) (raw : N) → is_valid_cap cap ≡ true
      → IsCapped cap raw (capped cap raw)
  capped-IsCapped order none raw v = uncapped
  capped-IsCapped order (some cap) raw v =
      subst (IsCapped (some cap) raw) (sym (order.min-lem raw cap (and_first _ _ v))) (
        if-cases (IsCapped (some cap) raw) (num.lt cap raw) (λ less. cut less) (λ more. below more))

  capped-nonneg :
      IsOrdered num
      → (cap : Option N) (delay : N) → is_valid_cap cap ≡ true
      → is_negative delay ≡ false
      → is_negative (capped cap delay) ≡ false
  capped-nonneg order none delay v h = h
  capped-nonneg order (some max) delay v h =
      subst (λ d. is_negative d ≡ false) (sym (order.min-lem delay max (and_first _ _ v)))
        (if-cases {A = N} (λ d. is_negative d ≡ false) (num.lt max delay) (λ less. ground arith)
          (λ more. h))

  pub delay_after-nonneg :
      IsOrdered num
      → (policy : RetryPolicy N) → validate_retry_policy policy ≡ ok tt
      → (n : ℕ) → is_negative (delay_after policy n) ≡ false
  delay_after-nonneg order policy h n =
      let (delay, multiplier, cap) = validate_retry_policy-nonneg policy h in
      capped-nonneg order policy.max_delay_ms _ cap
        (order.mul-nonneg _ _ delay (order.pow-nonneg _ n multiplier))

  IsCapped-within :
      IsOrdered num
      → {cap : Option N} {raw delay : N} → IsCapped cap raw delay
      → is_within cap delay ≡ true
  IsCapped-within order uncapped = refl
  IsCapped-within order (below h) = rw h refl
  IsCapped-within order (cut {cap} h) = rw (order.lt-irrefl cap) refl

  pub compute_next_attempt_at-dated :
      IsOrdered num
      → (policy : RetryPolicy N) (n : ℕ) (now : N) → validate_retry_policy policy ≡ ok tt
      → compute_next_attempt_at policy (suc n) now
        ≡ ok (
            if is_below (suc n) policy.max_attempts
            then some (num.as_date (num.add now (delay_after policy n)))
            else none)
  unfolding compute_next_attempt_at get_next_retry_delay
  compute_next_attempt_at-dated order policy n now h =
      elim (Bool-cases (is_below (suc n) policy.max_attempts)) [
        | inl left ↦ rw (h, left, delay_after-nonneg order policy h n) refl
        | inr used ↦ rw (h, used, order.minus_one-negative) refl
      ]

  -- What follows a failed attempt `suc n` at a time: nothing once the attempts are used up; before
  -- that a date, after the delay times the multiplier to the power `n`, cut to the cap.
  pub data IsNext (policy : RetryPolicy N) (n : ℕ) (now : N) : Option N → Type 0 where
    used_up : ((z : ℤ) → policy.max_attempts ≡ some z → z ≤ℤ pos (suc n)) → IsNext policy n now none
    dated :
        (z : ℤ) (delay : N)
        → policy.max_attempts ≡ some z
        → pos (suc n) <ℤ z
        → IsCapped policy.max_delay_ms
            (num.mul policy.delay_ms (num.pow policy.backoff_multiplier n))
            delay
        → is_within policy.max_delay_ms delay ≡ true
        → IsNext policy n now (some (num.as_date (num.add now delay)))

  -- Under a valid policy and an ordered arithmetic, the attempt `suc n` is followed by a date exactly
  -- while `suc n` is less than the largest number of attempts. The date is a delay from now: the
  -- policy's delay times the multiplier to the power `n`, or the cap where that is less; so the delay
  -- is never more than the cap.
  pub compute_next_attempt_at-lem :
      IsOrdered num
      → (policy : RetryPolicy N) (n : ℕ) (now : N) → validate_retry_policy policy ≡ ok tt
      → (next : Option N) × (compute_next_attempt_at policy (suc n) now ≡ ok next)
        × IsNext policy n now next
  compute_next_attempt_at-lem order policy n now h =
      let (delay, multiplier, cap) = validate_retry_policy-nonneg policy h in
      let date = num.as_date (num.add now (delay_after policy n)) in
      let e = compute_next_attempt_at-dated order policy n now h in
      let raw = num.mul policy.delay_ms (num.pow policy.backoff_multiplier n) in
      elim (Bool-cases (is_below (suc n) policy.max_attempts)) [
        | inl left ↦
            let (z, limit, less) = is_below-some (suc n) policy.max_attempts left in
            let cut_off = capped-IsCapped order policy.max_delay_ms raw cap in
            (
              some date,
              e ∙ ap (λ b. ok (if b then some date else none)) left,
              dated z (delay_after policy n) limit less cut_off (IsCapped-within order cut_off),
            )
        | inr used ↦ (
          none,
          e ∙ ap (λ b. ok (if b then some date else none)) used,
          used_up (λ z. is_below-none (suc n) policy.max_attempts z used),
        )
      ]
