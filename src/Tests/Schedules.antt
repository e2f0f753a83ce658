-- ===== src/Tests/Schedules.antt =====
-- Cron expressions and a schedule.
use kittle.Base.{
  ℕ, ◌+◌, ◌*◌, ◌≤◌, ◌≡◌, refl, ◌↔◌, codes, List, map, true, false, ◌&&◌, none, some, [], ◌∷◌, ok,
}
use kittle.Schedule.{
  CronPart, single, part_values, parse_field, parse_cron_expression, parse_fields, ParsedCron,
  LocalDateTime, day_matches, has, normalize_day_of_week,
}
use kittle.Schedule.Cron.{part_values-lem, day_matches-parse_fields, starred, day_rule}
use kittle.Schedule.Firing.{
  ScheduleDefinition, Firing, should_fire_schedule, is_fire, is_known_overlap, is_known_misfire,
  is_due, may_run, is_fire-should_fire_schedule,
}

minutes_parsed : parse_field (codes "5,50/4,1-2") 0 59 ≡ ok (5 ∷ 50 ∷ 54 ∷ 58 ∷ 1 ∷ 2 ∷ [])
unfolding parse_field
minutes_parsed = refl

abbrev from_fifty : CronPart
from_fifty = record { range = single 50; step = some 4 }

part_values-lem_example :
    (has (50 ∷ 54 ∷ 58 ∷ []) 54 ≡ true) ↔ ((k : ℕ) × (54 ≡ 50 + k * 4) × (54 ≤ 59))
unfolding part_values
part_values-lem_example = part_values-lem 0 59 from_fifty (50 ∷ 54 ∷ 58 ∷ []) 54 refl

-- Every second day, at midnight.
abbrev second_days : ParsedCron
second_days = record {
  minutes = 0 ∷ [];
  hours = 0 ∷ [];
  days_of_month = 1 ∷ 3 ∷ 5 ∷ 7 ∷ 9 ∷ 11 ∷ 13 ∷ 15 ∷ 17 ∷ 19 ∷ 21 ∷ 23 ∷ 25 ∷ 27 ∷ 29 ∷ 31 ∷ [];
  days_of_month_wildcard = true;
  months = 6 ∷ [];
  days_of_week = 0 ∷ 1 ∷ 2 ∷ 3 ∷ 4 ∷ 5 ∷ 6 ∷ 0 ∷ [];
  days_of_week_wildcard = true;
}

second_days_parsed : parse_cron_expression " 0 0 */2  6 *" ≡ ok second_days
unfolding parse_cron_expression
second_days_parsed = refl

fields_parsed :
    parse_fields (codes "0" ∷ codes "0" ∷ codes "*/2" ∷ codes "6" ∷ codes "*" ∷ []) ≡ ok second_days
unfolding parse_fields
fields_parsed = refl

abbrev fourth_of_june : LocalDateTime
fourth_of_june = record { year = 2026; month = 6; day = 4; hour = 0; minute = 0; day_of_week = 4 }

day_matches-parse_fields_example :
    (days : List ℕ) × (months : List ℕ) × (week_days : List ℕ) × (parse_field (codes "*/2") 1 31
      ≡ ok days)
    × (parse_field (codes "6") 1 12 ≡ ok months)
    × (parse_field (codes "*") 0 7 ≡ ok week_days)
    × (day_matches fourth_of_june second_days ≡ (
        has months 6
        && day_rule
            (starred true (codes "*/2"))
            (starred true (codes "*"))
            (has days 4)
            (has (map normalize_day_of_week week_days) 4)))
day_matches-parse_fields_example =
    day_matches-parse_fields (codes "0") (codes "0") (codes "*/2") (codes "6") (codes "*")
      second_days fourth_of_june fields_parsed

-- The fourth is not one of the days that the expression lists.
fourth_matched :
    (day_matches fourth_of_june second_days ≡ true) × (has second_days.days_of_month 4 ≡ false)
unfolding day_matches
fourth_matched = (refl, refl)

abbrev hourly : ScheduleDefinition
hourly = record {
  enabled = true;
  next_run_at = some 1000;
  last_status = some "running";
  overlap_policy = "skip";
  misfire_policy = "fire_now";
}

is_fire-should_fire_schedule_example : is_fire (should_fire_schedule hourly 2000 none) ≡ (
    is_known_overlap hourly
    && (is_known_misfire hourly && (is_due 2000 hourly && may_run hourly none)))
is_fire-should_fire_schedule_example = is_fire-should_fire_schedule hourly 2000 none

hourly_skipped : should_fire_schedule hourly 2000 none ≡ ok Firing.skip
unfolding should_fire_schedule
hourly_skipped = refl
