-- ===== src/Schedule/Cron.antt =====
-- packages/core/src/execution/scheduleCalculator.ts: the values that a part of a field stands for,
-- and the days that an expression matches.
use kittle.Base.{
  ℕ, zero, suc, ◌+◌, ◌-◌, ◌*◌, ◌≤◌, ◌<◌, ltb, leb, ◌==◌, ◌≡◌, refl, ap₂, negate, if◌then◌else◌,
  Bool, true, false, ◌&&◌, any, map, List, [], ◌∷◌, ok, err, arith, Bool-cases, inl, inr, ap, ◌∙◌,
  sym, ok-injective, >>=-eq-ok, ◌↔◌, ◌||◌,
}
use kittle.Schedule.{
  CronPart, start_of, end_of, step_or_one, values_from, part_values, ParsedCron, LocalDateTime, has,
  day_matches, ScheduleError, parse_field, parse_fields, push_code, split_at, is_wildcard,
  starts_with_star, normalize_day_of_week,
}

has-values_from :
    (fuel value last step n : ℕ)
    → has (values_from fuel value last step) n ≡ true
    → (k : ℕ) × (n ≡ value + k * step) × (n ≤ last)
unfolding values_from
has-values_from zero value last step n h = absurd (let f : ⊥ = ground arith in f)
has-values_from (suc fuel) value last step n h = elim (Bool-cases (leb value last)) [
  | inr over ↦ absurd (let f : ⊥ = ground arith in f)
  | inl within ↦ elim (Bool-cases (value == n)) [
    | inl here ↦ (0, ground arith, ground arith)
    | inr later ↦
        let (k, e, le) = has-values_from fuel (value + step) last step n (ground arith) in
        (suc k, e ∙ (omega arith), le)
  ]
]

has-values_from_enough :
    (fuel value last step k : ℕ)
    → 0 < step
    → last < value + fuel
    → value + k * step ≤ last
    → has (values_from fuel value last step) (value + k * step) ≡ true
unfolding values_from
has-values_from_enough zero value last step k pos enough le = absurd (omega arith)
has-values_from_enough (suc fuel) value last step zero pos enough le =
    let within : leb value last ≡ true = ground arith in
    let same : (value == value + 0 * step) ≡ true = ground arith in rw (within, same) refl
has-values_from_enough (suc fuel) value last step (suc k) pos enough le =
    let within : leb value last ≡ true = ground arith in
    let rest =
      has-values_from_enough fuel (value + step) last step k pos (omega arith) (omega arith) in
    let e : value + suc k * step ≡ (value + step) + k * step = omega arith in
    let rest' : has (values_from fuel (value + step) last step) (value + suc k * step) ≡ true =
      ap (has (values_from fuel (value + step) last step)) e ∙ rest in
    rw within (ground (arith, rest'))

-- What the tests on a part's bounds leave.
part_values-ok :
    (min max : ℕ) (part : CronPart) (values : List ℕ)
    → part_values min max part ≡ ok values
    → (0 < step_or_one part.step)
      × (values_from
            (suc (end_of max part.range part.step) - start_of min part.range)
            (start_of min part.range)
            (end_of max part.range part.step)
            (step_or_one part.step)
          ≡ values)
unfolding part_values
part_values-ok min max part values h =
    let start = start_of min part.range in
    let last = end_of max part.range part.step in
    let step = step_or_one part.step in
    elim (Bool-cases (step == 0)) [
      | inl none' ↦ absurd (
          let f : ⊥ = (let g : err ScheduleError.invalid_step ≡ ok values = rw none' at h in cc) in
          f)
      | inr some' ↦ elim (Bool-cases (ltb start min || (ltb max last || ltb last start))) [
        | inl outside ↦ absurd (
            let f : ⊥ =
              (let g : err ScheduleError.range_outside ≡ ok values = rw (some', outside) at h in
                cc) in
            f)
        | inr inside ↦ (ground arith, ok-injective (rw (some', inside) at h))
      ]
    ]

-- Where a part is accepted, its values are the numbers from its start to its end in steps: each
-- value is the start and a number of steps, up to the end, and each such number is a value.
pub part_values-lem :
    (min max : ℕ) (part : CronPart) (values : List ℕ) (n : ℕ)
    → part_values min max part ≡ ok values
    → (has values n ≡ true) ↔ (
        (k : ℕ) × (n ≡ start_of min part.range + k * step_or_one part.step)
        × (n ≤ end_of max part.range part.step))
part_values-lem min max part values n h =
    let start = start_of min part.range in
    let last = end_of max part.range part.step in
    let step = step_or_one part.step in
    let (pos, e) = part_values-ok min max part values h in
    (
      λ m. has-values_from (suc last - start) start last step n (ap (λ l. has l n) e ∙ m),
      λ w.
          let (k, at, le) = w in
          let here : start + k * step ≤ last = omega arith in
          let enough : last < start + (suc last - start) = omega arith in
          ap (has values) at
          ∙ ap (λ l. has l (start + k * step)) (sym e)
          ∙ has-values_from_enough (suc last - start) start last step k pos enough here,
    )

-- Does a part start with a star, read from left to right? The flag says that a part starts here.
abbrev pub starred : Bool → List ℕ → Bool
starred at_start [] = false
starred at_start (c ∷ cs) = (at_start && c == 42) || starred (c == 44) cs

-- A later piece than the first starts with a star.
abbrev later_star : List (List ℕ) → Bool
later_star [] = false
later_star (piece ∷ pieces) = any starts_with_star pieces

any-push_code :
    (c : ℕ) (pieces : List (List ℕ))
    → any starts_with_star (push_code c pieces) ≡ (c == 42 || later_star pieces)
any-push_code c [] = refl
any-push_code c (piece ∷ pieces) = refl

later_star-push_code :
    (c : ℕ) (pieces : List (List ℕ)) → later_star (push_code c pieces) ≡ later_star pieces
later_star-push_code c [] = refl
later_star-push_code c (piece ∷ pieces) = refl

split_at-starred :
    (cs : List ℕ)
    → (any starts_with_star (split_at 44 cs) ≡ starred true cs)
      × (later_star (split_at 44 cs) ≡ starred false cs)
split_at-starred [] = (refl, refl)
split_at-starred (c ∷ cs) =
    let (first, later) = split_at-starred cs in
    let pieces = split_at 44 cs in
    elim (Bool-cases (c == 44)) [
      | inl comma ↦
          let letter : (c == 42) ≡ false = ground arith in
          (rw (comma, letter) first, rw comma first)
      | inr letter ↦ (
        rw letter (any-push_code c pieces ∙ ap (λ b. c == 42 || b) later),
        rw letter (later_star-push_code c pieces ∙ later),
      )
    ]

-- A starred field restricts nothing; where none is starred, either field may match.
abbrev pub day_rule : (day_starred week_starred day_listed week_listed : Bool) → Bool
day_rule true true day week = true
day_rule true false day week = week
day_rule false true day week = day
day_rule false false day week = day || week

day_rule-lem :
    (month day_starred week_starred day_listed week_listed : Bool)
    → (if negate month
        then false
        else (if negate day_starred && negate week_starred
            then day_listed || week_listed
            else (if day_starred then week_starred || week_listed else day_listed)))
      ≡ (month && day_rule day_starred week_starred day_listed week_listed)
day_rule-lem month day_starred week_starred day_listed week_listed = ground arith

-- A parsed expression matches a day by its month and by its two day fields, as they are written: a
-- field with a part that starts with a star, with or without a step, is matched by every day, so the
-- values of its step are not looked at. Where one field is starred the other decides, and where none
-- is, a day that either field lists is matched; 7 counts as day 0 of the week.
pub day_matches-parse_fields :
    (minute hour day month week_day : List ℕ) (cron : ParsedCron) (local : LocalDateTime)
    → parse_fields (minute ∷ hour ∷ day ∷ month ∷ week_day ∷ []) ≡ ok cron
    → (days : List ℕ) × (months : List ℕ) × (week_days : List ℕ) × (parse_field day 1 31 ≡ ok days)
      × (parse_field month 1 12 ≡ ok months)
      × (parse_field week_day 0 7 ≡ ok week_days)
      × (day_matches local cron ≡ (
          has months local.month
          && day_rule (starred true day) (starred true week_day) (has days local.day) (
              has (map normalize_day_of_week week_days) (normalize_day_of_week local.day_of_week))))
unfolding day_matches parse_fields
day_matches-parse_fields minute hour day month week_day cron local h =
    let (minutes, a, h1) = >>=-eq-ok (parse_field minute 0 59) _ h in
    let (hours, b, h2) = >>=-eq-ok (parse_field hour 0 23) _ h1 in
    let (days, c, h3) = >>=-eq-ok (parse_field day 1 31) _ h2 in
    let (months, d, h4) = >>=-eq-ok (parse_field month 1 12) _ h3 in
    let (week_days, e, h5) = >>=-eq-ok (parse_field week_day 0 7) _ h4 in
    (
      days,
      months,
      week_days,
      c,
      d,
      e,
      ap (day_matches local) (sym (ok-injective h5))
          ∙ day_rule-lem (has months local.month) (is_wildcard day) (is_wildcard week_day)
              (has days local.day)
              (has (map normalize_day_of_week week_days) (normalize_day_of_week local.day_of_week))
          ∙ ap₂
              (λ a b.
                has months local.month
                && day_rule a b (has days local.day) (
                    has (map normalize_day_of_week week_days)
                      (normalize_day_of_week local.day_of_week)))
              (split_at-starred day).0 (split_at-starred week_day).0,
    )
