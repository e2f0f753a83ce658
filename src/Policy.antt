-- ===== src/Policy.antt =====
-- packages/core/src/domain/coercePolicyValue.ts, and the condition types of abacPolicySchema.ts. A
-- message is a constructor. What a regular expression matches is tested on code points. `Number` of a
-- text passes over white space at its ends, as `trim` does.
pub mod Catalog
pub mod Compile
pub mod Meaning
pub mod Between
pub mod Normalize
use kittle.Base.{
  ℕ, leb, ◌==◌, String, ◌===◌, codes, Bool, true, false, negate, ◌&&◌, ◌||◌, is_empty, all, Option,
  none, some, List, [], ◌∷◌, ◌++◌, Result, ok, err, ◌>>=◌, if◌then◌else◌,
}
use kittle.Js.{Numbers, Value, undefined, null, boolean, number, string, date, array, object}
use kittle.Predicate.Supported.{AbacFieldType}
use kittle.RateLimit.Window.{drop_spaces, trim_end}

pub data PolicyOperator : Type 0 where
  equals not_equals contains starts_with ends_with is_empty_ is_not_empty greater_than less_than
        greater_or_equal less_or_equal is_true is_false is_null is_not_null includes_any
        includes_all before after between in_ :
      PolicyOperator

pub data PolicyGroupLogic : Type 0 where
  logic_and logic_or : PolicyGroupLogic

-- An absent value is `undefined`.
pub record PolicyFilterClause (N : Type 0) : Type 0 where
  pub field : String
  pub operator : Option PolicyOperator
  pub value : Value N
  pub values : Option (List (Value N))
  pub user_attr : Option String

mutual
  pub data PolicyConditionGroup (N : Type 0) : Type 0 where
    group : PolicyGroupLogic → Conditions N → PolicyConditionGroup N

  pub data Conditions (N : Type 0) : Type 0 where
    nil : Conditions N
    clause : PolicyFilterClause N → Conditions N → Conditions N
    nested : PolicyConditionGroup N → Conditions N → Conditions N

pub record PolicyConditions (N : Type 0) : Type 0 where
  pub system_scope : PolicyConditionGroup N
  pub user_filters : PolicyConditionGroup N

pub data CompileError : Type 0 where
  unknown_field unresolved_attribute invalid_value expected_string lower_bound upper_bound
        invalid_between requires_string :
      CompileError

-- `Number.isFinite`, a time that is not NaN, and `String(value)`.
pub record Coercions (N : Type 0) : Type 0 where
  pub is_finite : N → Bool
  pub is_time : N → Bool
  pub to_text : Value N → String

abbrev is_digit : ℕ → Bool
is_digit c = leb 48 c && leb c 57

abbrev starts_digit : List ℕ → Bool
starts_digit [] = false
starts_digit (c ∷ cs) = is_digit c

abbrev skip_digits : List ℕ → List ℕ
skip_digits [] = []
skip_digits (c ∷ cs) = let rest = skip_digits cs in if is_digit c then rest else c ∷ cs

abbrev drop_sign : List ℕ → List ℕ
drop_sign [] = []
drop_sign (c ∷ cs) = if c == 43 || c == 45 then cs else c ∷ cs

abbrev are_digits : List ℕ → Bool
are_digits cs = negate (is_empty cs) && all is_digit cs

-- `(?:[eE][+-]?\d+)?$`
abbrev exponent : List ℕ → Bool
exponent [] = true
exponent (c ∷ cs) = (c == 101 || c == 69) && are_digits (drop_sign cs)

abbrev fraction : List ℕ → Bool
fraction cs = starts_digit cs && exponent (skip_digits cs)

abbrev after_integer : List ℕ → Bool
after_integer [] = true
after_integer (c ∷ cs) = if c == 46 then fraction cs else exponent (c ∷ cs)

abbrev mantissa : List ℕ → Bool
mantissa [] = false
mantissa (c ∷ cs) = if is_digit c then after_integer (skip_digits cs) else (c == 46 && fraction cs)

-- `STRICT_NUMERIC_LITERAL.test`
unfoldable pub is_strict_numeric : List ℕ → Bool
is_strict_numeric cs = mantissa (drop_sign cs)

-- `/^\d{4}-\d{2}-\d{2}$/`
abbrev is_day : List ℕ → Bool
is_day (a ∷ b ∷ c ∷ d ∷ h ∷ e ∷ f ∷ i ∷ g ∷ j ∷ []) =
    all is_digit (a ∷ b ∷ c ∷ d ∷ e ∷ f ∷ g ∷ j ∷ []) && (h == 45 && i == 45)
is_day _ = false

module _ {N : Type 0} ⦃num : Numbers N⦄ ⦃co : Coercions N⦄ where
  abbrev coerce_number : Value N → Result CompileError (Value N)
  unfolding is_strict_numeric
  coerce_number (number x) =
      if co.is_finite x then ok (number x) else err CompileError.invalid_value
  coerce_number (string s) =
      if is_strict_numeric (trim_end (drop_spaces (codes s))) && co.is_finite (num.of_string s)
      then ok (number (num.of_string s))
      else err CompileError.invalid_value
  coerce_number _ = err CompileError.invalid_value

  abbrev coerce_boolean : Value N → Result CompileError (Value N)
  coerce_boolean (boolean b) = ok (boolean b)
  coerce_boolean (string s) =
      if s === "true"
      then ok (boolean true)
      else (if s === "false" then ok (boolean false) else err CompileError.invalid_value)
  coerce_boolean _ = err CompileError.invalid_value

  abbrev coerce_time : N → Result CompileError (Value N)
  coerce_time t = if co.is_time t then ok (date t) else err CompileError.invalid_value

  -- A plain date has no time of day.
  abbrev coerce_date : Bool → Value N → Result CompileError (Value N)
  coerce_date plain (date t) = coerce_time t
  coerce_date plain (string s) =
      if plain && negate (is_day (codes s))
      then err CompileError.invalid_value
      else coerce_time (num.parse_date s)
  coerce_date plain _ = err CompileError.invalid_value

  abbrev coerce_text : Value N → Result CompileError (Value N)
  coerce_text null = ok null
  coerce_text (string s) = ok (string s)
  coerce_text v = ok (string (co.to_text v))

  unfoldable pub coerce_policy_value : AbacFieldType → Value N → Result CompileError (Value N)
  unfolding is_strict_numeric
  coerce_policy_value AbacFieldType.number_ v = coerce_number v
  coerce_policy_value AbacFieldType.boolean_ v = coerce_boolean v
  coerce_policy_value AbacFieldType.date_ v = coerce_date true v
  coerce_policy_value AbacFieldType.datetime v = coerce_date false v
  coerce_policy_value AbacFieldType.string_array v = err CompileError.invalid_value
  coerce_policy_value AbacFieldType.identifier v = coerce_text v
  coerce_policy_value AbacFieldType.string_ v = coerce_text v

  -- The texts of a list, up to the first value that is none.
  abbrev coerce_strings : List (Value N) → Result (List CompileError) (List (Value N))
  coerce_strings [] = ok []
  coerce_strings (string s ∷ vs) = coerce_strings vs >>= λ rest. ok (string s ∷ rest)
  coerce_strings (_ ∷ vs) = err (CompileError.expected_string ∷ [])

  abbrev add_coerced :
      Result CompileError (Value N)
      → Result (List CompileError) (List (Value N))
      → Result (List CompileError) (List (Value N))
  add_coerced (ok v) (ok vs) = ok (v ∷ vs)
  add_coerced (ok v) (err es) = err es
  add_coerced (err e) (ok vs) = err (e ∷ [])
  add_coerced (err e) (err es) = err (e ∷ es)

  -- All errors of a list, or its coerced values.
  abbrev coerce_all : AbacFieldType → List (Value N) → Result (List CompileError) (List (Value N))
  unfolding coerce_policy_value
  coerce_all type [] = ok []
  coerce_all type (v ∷ vs) = add_coerced (coerce_policy_value type v) (coerce_all type vs)

  unfoldable pub coerce_policy_value_list :
      AbacFieldType → List (Value N) → Result (List CompileError) (List (Value N))
  unfolding coerce_policy_value
  coerce_policy_value_list AbacFieldType.string_array vs = coerce_strings vs
  coerce_policy_value_list type vs = coerce_all type vs
