-- ===== src/Schedule.antt =====
-- packages/core/src/execution/scheduleCalculator.ts: cron expressions, the match of a local time,
-- and the decision to fire. Texts are read as code points; digits are taken as exact, which they are
-- below 2^53. A set of numbers is a list. Times are milliseconds.
pub mod Cron
pub mod Firing
use kittle.Base.{
  ℕ, zero, suc, ◌+◌, ◌-◌, ◌*◌, ltb, leb, ◌==◌, String, codes, Bool, true, false, negate, ◌&&◌, ◌||◌,
  Option, none, some, List, [], ◌∷◌, ◌++◌, map, any, all, is_empty, Result, ok, err, ◌>>=◌, require,
  if◌then◌else◌,
}
use kittle.RateLimit.{is_space}

-- The messages of the errors thrown.
pub data ScheduleError : Type 0 where
  invalid_field_value invalid_step range_outside wrong_field_count unknown_overlap_policy
        unknown_misfire_policy :
      ScheduleError

-- Puts a code at the front of the first of some pieces.
abbrev push_code : ℕ → List (List ℕ) → List (List ℕ)
push_code c [] = (c ∷ []) ∷ []
push_code c (piece ∷ pieces) = (c ∷ piece) ∷ pieces

-- `split` by one character.
abbrev pub split_at : ℕ → List ℕ → List (List ℕ)
split_at sep [] = [] ∷ []
split_at sep (c ∷ cs) =
    let rest = split_at sep cs in if c == sep then [] ∷ rest else push_code c rest

abbrev is_digit : ℕ → Bool
is_digit c = leb 48 c && leb c 57

abbrev number_from : ℕ → List ℕ → ℕ
number_from n [] = n
number_from n (c ∷ cs) = number_from (10 * n + (c - 48)) cs

-- `\d+`, and its number.
abbrev number_of : List ℕ → Option ℕ
number_of cs = if negate (is_empty cs) && all is_digit cs then some (number_from 0 cs) else none

pub data CronRange : Type 0 where
  star : CronRange
  single : ℕ → CronRange
  between : ℕ → ℕ → CronRange

abbrev single_of : Option ℕ → Option CronRange
single_of none = none
single_of (some n) = some (single n)

abbrev between_of : Option ℕ → Option ℕ → Option CronRange
between_of (some a) (some b) = some (between a b)
between_of _ _ = none

abbrev is_star : List ℕ → Bool
is_star (c ∷ []) = c == 42
is_star _ = false

-- `\*|\d+(?:-\d+)?`
abbrev range_of : List (List ℕ) → Option CronRange
range_of (a ∷ []) = if is_star a then some star else single_of (number_of a)
range_of (a ∷ b ∷ []) = between_of (number_of a) (number_of b)
range_of _ = none

-- `match[2]`: no step, or one that is a number.
pub record CronPart : Type 0 where
  pub range : CronRange
  pub step : Option ℕ

abbrev part_of : Option CronRange → Option ℕ → Option CronPart
part_of none step = none
part_of (some range) step = some (record { range = range; step = step })

abbrev stepped_of : Option CronRange → Option ℕ → Option CronPart
stepped_of range none = none
stepped_of range (some step) = part_of range (some step)

-- The regular expression of a part: an optional step stands after a slash.
abbrev match_pieces : List (List ℕ) → Option CronPart
match_pieces (range ∷ []) = part_of (range_of (split_at 45 range)) none
match_pieces (range ∷ step ∷ []) = stepped_of (range_of (split_at 45 range)) (number_of step)
match_pieces _ = none

abbrev match_part : List ℕ → Option CronPart
match_part cs = match_pieces (split_at 47 cs)

abbrev pub start_of : ℕ → CronRange → ℕ
start_of min star = min
start_of min (single n) = n
start_of min (between a b) = a

-- A single number with a step runs on to the maximum.
abbrev pub end_of : ℕ → CronRange → Option ℕ → ℕ
end_of max star step = max
end_of max (single n) none = n
end_of max (single n) (some _) = max
end_of max (between a b) step = b

abbrev pub step_or_one : Option ℕ → ℕ
step_or_one none = 1
step_or_one (some step) = step

-- `for (let value = start; value <= end; value += step)`, on fuel.
pub values_from : ℕ → ℕ → ℕ → ℕ → List ℕ
values_from zero value last step = []
values_from (suc fuel) value last step =
    let rest = values_from fuel (value + step) last step in
    if leb value last then value ∷ rest else []

-- The values of a part, if its step is positive and its range lies within the bounds.
unfoldable pub part_values : ℕ → ℕ → CronPart → Result ScheduleError (List ℕ)
unfolding values_from
part_values min max part =
    let start = start_of min part.range in
    let last = end_of max part.range part.step in
    let step = step_or_one part.step in
    if step == 0
    then err ScheduleError.invalid_step
    else (if ltb start min || (ltb max last || ltb last start)
        then err ScheduleError.range_outside
        else ok (values_from (suc last - start) start last step))

abbrev values_of_match : ℕ → ℕ → Option CronPart → Result ScheduleError (List ℕ)
unfolding part_values
values_of_match min max none = err ScheduleError.invalid_field_value
values_of_match min max (some part) = part_values min max part

parse_parts : ℕ → ℕ → List (List ℕ) → Result ScheduleError (List ℕ)
unfolding part_values
parse_parts min max [] = ok []
parse_parts min max (cs ∷ parts) = do
  values ← values_of_match min max (match_part cs)
  rest ← parse_parts min max parts
  ok (values ++ rest)

unfoldable pub parse_field : List ℕ → ℕ → ℕ → Result ScheduleError (List ℕ)
unfolding parse_parts
parse_field field min max = parse_parts min max (split_at 44 field)

-- `value === 7 ? 0 : value`
abbrev pub normalize_day_of_week : ℕ → ℕ
normalize_day_of_week value = if value == 7 then 0 else value

abbrev starts_with_star : List ℕ → Bool
starts_with_star [] = false
starts_with_star (c ∷ _) = c == 42

-- `field.split(",").some((part) => part.startsWith("*"))`
abbrev pub is_wildcard : List ℕ → Bool
is_wildcard field = any starts_with_star (split_at 44 field)

pub record ParsedCron : Type 0 where
  pub minutes : List ℕ
  pub hours : List ℕ
  pub days_of_month : List ℕ
  pub days_of_month_wildcard : Bool
  pub months : List ℕ
  pub days_of_week : List ℕ
  pub days_of_week_wildcard : Bool

-- The checked count, and the five fields.
unfoldable pub parse_fields : List (List ℕ) → Result ScheduleError ParsedCron
unfolding parse_field
parse_fields (minute ∷ hour ∷ day ∷ month ∷ week_day ∷ []) = do
  minutes ← parse_field minute 0 59
  hours ← parse_field hour 0 23
  days ← parse_field day 1 31
  months ← parse_field month 1 12
  week_days ← parse_field week_day 0 7
  ok (record {
    minutes = minutes;
    hours = hours;
    days_of_month = days;
    days_of_month_wildcard = is_wildcard day;
    months = months;
    days_of_week = map normalize_day_of_week week_days;
    days_of_week_wildcard = is_wildcard week_day;
  })
parse_fields _ = err ScheduleError.wrong_field_count

abbrev push_word : ℕ → Bool → List (List ℕ) → List (List ℕ)
push_word c true words = (c ∷ []) ∷ words
push_word c false words = push_code c words

abbrev ends_word : List ℕ → Bool
ends_word [] = true
ends_word (c ∷ _) = is_space c

-- `trim().split(/\s+/)`, but for a blank text, which has one field there and none here.
abbrev words : List ℕ → List (List ℕ)
words [] = []
words (c ∷ cs) = let rest = words cs in if is_space c then rest else push_word c (ends_word cs) rest

unfoldable pub parse_cron_expression : String → Result ScheduleError ParsedCron
unfolding parse_fields
parse_cron_expression expression = parse_fields (words (codes expression))

pub record LocalDateTime : Type 0 where
  pub year : ℕ
  pub month : ℕ
  pub day : ℕ
  pub hour : ℕ
  pub minute : ℕ
  pub day_of_week : ℕ

abbrev pub has : List ℕ → ℕ → Bool
has values n = any (λ v. v == n) values

unfoldable pub day_matches : LocalDateTime → ParsedCron → Bool
day_matches local cron =
    let dom_wild = cron.days_of_month_wildcard in
    let dow_wild = cron.days_of_week_wildcard in
    let dom_match = has cron.days_of_month local.day in
    let dow_match = has cron.days_of_week (normalize_day_of_week local.day_of_week) in
    if negate (has cron.months local.month)
    then false
    else (if negate dom_wild && negate dow_wild
        then dom_match || dow_match
        else (if dom_wild then dow_wild || dow_match else dom_match))

unfoldable pub matches_local_cron : LocalDateTime → ParsedCron → Bool
unfolding day_matches
matches_local_cron local cron =
    day_matches local cron && (has cron.hours local.hour && has cron.minutes local.minute)
