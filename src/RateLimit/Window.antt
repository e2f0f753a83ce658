-- ===== src/RateLimit/Window.antt =====
-- `parseTimeWindowMs` and `enforceRateLimit` of rateLimit.ts. Texts are read as code points. A digit
-- count is taken as exact, which it is below 2^53. Only the letters of A to Z have a lower case here:
-- the lower case of no other character is a letter of the units.
use kittle.Base.{
  ℕ, ℤ, pos, ltb_ℤ, ◌+◌, ◌-◌, ◌*◌, leb, ltb, ◌==◌, String, codes, Bool, true, false, ◌&&◌, ◌||◌,
  Option, none, some, List, [], ◌∷◌, map, Result, ok, err, ◌>>=◌, require, if◌then◌else◌,
}
use kittle.RateLimit.{
  RateError, RateLimitStore, RateLimitCheckResult, CheckArgs, is_space, ◌-ℤ◌, at_least_zero,
  check_rate_limit,
}

-- A number of milliseconds, `none` if not finite, or a text.
pub data TimeWindow : Type 0 where
  milliseconds : Option ℤ → TimeWindow
  text : String → TimeWindow

abbrev lower_case : ℕ → ℕ
lower_case c = if leb 65 c && leb c 90 then c + 32 else c

abbrev is_digit : ℕ → Bool
is_digit c = leb 48 c && leb c 57

abbrev is_digit_head : List ℕ → Bool
is_digit_head [] = false
is_digit_head (c ∷ _) = is_digit c

abbrev pub drop_spaces : List ℕ → List ℕ
drop_spaces [] = []
drop_spaces (c ∷ cs) = let rest = drop_spaces cs in if is_space c then rest else c ∷ cs

abbrev drop_digits : List ℕ → List ℕ
drop_digits [] = []
drop_digits (c ∷ cs) = let rest = drop_digits cs in if is_digit c then rest else c ∷ cs

-- `Number.parseInt`, with the digits read before.
abbrev read_digits : ℕ → List ℕ → ℕ
read_digits n [] = n
read_digits n (c ∷ cs) =
    let rest = read_digits (10 * n + (c - 48)) cs in if is_digit c then rest else n

-- Trailing white space off.
abbrev pub trim_end : List ℕ → List ℕ
trim_end [] = []
trim_end (c ∷ cs) = keep c (trim_end cs)
  where
    keep : ℕ → List ℕ → List ℕ
    keep c [] = if is_space c then [] else c ∷ []
    keep c (d ∷ ds) = c ∷ d ∷ ds

abbrev same_codes : List ℕ → List ℕ → Bool
same_codes [] [] = true
same_codes (c ∷ cs) (d ∷ ds) = c == d && same_codes cs ds
same_codes _ _ = false

abbrev is_unit : String → String → List ℕ → Bool
is_unit one many cs = same_codes (codes one) cs || same_codes (codes many) cs

-- The milliseconds of a unit.
abbrev unit_ms : List ℕ → Option ℕ
unit_ms cs =
    if is_unit "second" "seconds" cs
    then some 1000
    else (if is_unit "minute" "minutes" cs
        then some 60000
        else (if is_unit "hour" "hours" cs then some 3600000 else none))

abbrev positive_window : ℕ → Option ℕ → Result RateError ℤ
positive_window count none = err RateError.invalid_time_window
positive_window count (some ms) =
    if ltb 0 (count * ms) then ok (pos (count * ms)) else err RateError.invalid_time_window

unfoldable pub parse_time_window_ms : TimeWindow → Result RateError ℤ
parse_time_window_ms (milliseconds none) = err RateError.invalid_time_window
parse_time_window_ms (milliseconds (some n)) =
    if ltb_ℤ (pos 0) n then ok n else err RateError.invalid_time_window
parse_time_window_ms (text s) =
    let input = map lower_case (trim_end (drop_spaces (codes s))) in
    if is_digit_head input
    then positive_window (read_digits 0 input) (unit_ms (drop_spaces (drop_digits input)))
    else err RateError.invalid_time_window

pub record RateLimitConfig : Type 0 where
  pub max : Option ℤ
  pub time_window : TimeWindow

abbrev is_positive : Option ℤ → Bool
is_positive none = false
is_positive (some n) = ltb_ℤ (pos 0) n

-- A call that is not allowed throws, with the time to wait. `later` is the clock's second reading.
unfoldable pub enforce_result : ℤ → RateLimitCheckResult → Result RateError RateLimitCheckResult
enforce_result later result =
    if result.allowed
    then ok result
    else err (RateError.rate_limited (at_least_zero (result.reset_at -ℤ later)))

module _ {S : Type 0} where
  unfoldable pub enforce_window :
      RateLimitStore S
      → CheckArgs
      → ℤ
      → ℤ
      → S
      → Result RateError ℤ
      → Result RateError RateLimitCheckResult × S
  unfolding enforce_result
  enforce_window store args now later s (err e) = (err e, s)
  enforce_window store args now later s (ok window_ms) =
      let checked = check_rate_limit store (record args { window_ms = some window_ms }) now s in
      (checked.0 >>= enforce_result later, checked.1)

  -- The window of `args` is not read: the one of the configuration takes its place, as its maximum
  -- takes the limit's.
  unfoldable pub enforce_rate_limit :
      RateLimitStore S
      → RateLimitConfig
      → CheckArgs
      → ℤ
      → ℤ
      → S
      → Result RateError RateLimitCheckResult × S
  unfolding enforce_window
  enforce_rate_limit store config args now later s =
      enforce_window store (record args { limit = config.max }) now later s
        (require (is_positive config.max) RateError.invalid_max >>= λ _.
          parse_time_window_ms config.time_window)
