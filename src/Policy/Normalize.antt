-- ===== src/Policy/Normalize.antt =====
-- packages/core/src/domain/abacPolicyNormalizer.ts: a provider's policy, checked, compiled for a
-- caller and made durable. An error is a constructor, with what its message names. The arrays and
-- objects of the clone have the identity 0.
pub mod Durable
pub mod Survives
pub mod Kept
pub mod Sound
use kittle.Base.{
  String, ◌===◌, str_mem, lookup, Bool, true, false, negate, ◌&&◌, ◌||◌, Option, none, some, List,
  [], ◌∷◌, ◌++◌, map, is_empty, Result, ok, err, ◌>>=◌, if◌then◌else◌,
}
use kittle.Js.{
  Numbers, Value, undefined, null, boolean, number, string, date, array, object, Values, Props, end,
  prop,
}
use kittle.Js
use kittle.Predicate.{
  PredicateOp, PredicateCondition, PredicateNode, Filters, condition, and, or, not, literal,
}
use kittle.Predicate.Supported.{
  AbacFieldType, Issue, or_else, is_text_op, is_order_op, find_unsupported_predicate_combination,
  find_non_portable_predicate,
}
use kittle.Policy.{
  PolicyFilterClause, PolicyConditionGroup, group, Conditions, clause, nested, PolicyConditions,
  CompileError, Coercions,
}
use kittle.Policy
use kittle.Policy.Compile.{AbacContext, PredicateCompileResult, policy_conditions_to_predicate}
use kittle.Policy.Catalog.{
  AbacFieldDefinition, AbacModuleCatalog, PolicyPayload, CatalogIssue,
  validate_payload_against_catalog,
}

-- `toISOString` throws on a time that is NaN.
pub data RangeError : Type 0 where
  invalid_time : RangeError

-- `Number.isSafeInteger` and `toISOString`.
pub record Normalizing (N : Type 0) : Type 0 where
  pub is_safe_integer : N → Bool
  pub to_iso : N → Result RangeError String

-- `Date | string | null | undefined`
pub data WindowDate (N : Type 0) : Type 0 where
  absent : WindowDate N
  text : String → WindowDate N
  instant : N → WindowDate N

-- What a provider supplies: the effect, the priority and the scope type are not checked yet.
pub record AbacPolicy (N : Type 0) : Type 0 where
  pub policy_id : String
  pub scope_type : Value N
  pub scope_ref_id : Option (Option String)
  pub starts_at : WindowDate N
  pub ends_at : WindowDate N
  pub module_key : String
  pub effect : Value N
  pub priority : Value N
  pub payload : PolicyPayload N

pub record NormalizedPolicy (N : Type 0) : Type 0 where
  pub policy : AbacPolicy N
  pub compiled_conditions : PredicateNode N

pub data NormalizationError (N : Type 0) : Type 0 where
  effect_invalid priority_invalid scope_invalid window_invalid module_key_mismatch :
      NormalizationError N
  catalog_validation_failed : CatalogIssue → NormalizationError N
  condition_compilation_failed : List CompileError → NormalizationError N
  non_portable_predicate : PredicateCondition N → NormalizationError N
  unsupported_predicate_combination : PredicateCondition N → Issue → NormalizationError N

-- `excluded` is whether the policy is outside its window.
pub data NormalizePolicyResult (N : Type 0) : Type 0 where
  success : NormalizedPolicy N → (excluded : Bool) → NormalizePolicyResult N
  failure : List (NormalizationError N) → NormalizePolicyResult N
  thrown : RangeError → NormalizePolicyResult N

-- `POLICY_SCOPE_TYPES`
abbrev pub policy_scope_types : List String
policy_scope_types =
    "tenant_default" ∷ "platform_default" ∷ "role" ∷ "branch" ∷ "department" ∷ "user" ∷ []

abbrev is_date_field : Option AbacFieldType → Bool
is_date_field (some AbacFieldType.date_) = true
is_date_field (some AbacFieldType.datetime) = true
is_date_field _ = false

-- The catalog's fields as the compiler reads them.
abbrev pub field_types : List (String × AbacFieldDefinition) → List (String × AbacFieldType)
field_types [] = []
field_types ((key, def) ∷ defs) = (key, def.type) ∷ field_types defs

module _ {N : Type 0} where
  -- The errors of a check that throws.
  abbrev check : Bool → NormalizationError N → List (NormalizationError N)
  check true e = []
  check false e = e ∷ []

  -- `assertPolicyEffect`
  abbrev pub is_policy_effect : Value N → Bool
  is_policy_effect (string s) = s === "allow" || s === "deny"
  is_policy_effect _ = false

  -- `assertPolicyPriority`
  abbrev pub is_policy_priority : Normalizing N → Value N → Bool
  is_policy_priority nz (number x) = nz.is_safe_integer x
  is_policy_priority nz _ = false

  -- `assertPolicyScopeType`
  abbrev pub is_policy_scope_type : Value N → Bool
  is_policy_scope_type (string s) = str_mem s policy_scope_types
  is_policy_scope_type _ = false

  abbrev pub security_violation :
      List (String × AbacFieldType) → PredicateCondition N → Option (PredicateCondition N)
  security_violation fields c =
      if is_text_op c.op || (is_date_field (lookup c.field fields) && is_order_op c.op)
      then some c
      else none

  unfoldable mutual
    pub find_non_portable_security_predicate :
        List (String × AbacFieldType) → PredicateNode N → Option (PredicateCondition N)
    find_non_portable_security_predicate fields (condition c) = security_violation fields c
    find_non_portable_security_predicate fields (and filters) =
        find_non_portable_security_in fields filters
    find_non_portable_security_predicate fields (or filters) =
        find_non_portable_security_in fields filters
    find_non_portable_security_predicate fields (not filter) =
        find_non_portable_security_predicate fields filter
    find_non_portable_security_predicate fields (literal _) = none

    pub find_non_portable_security_in :
        List (String × AbacFieldType) → Filters N → Option (PredicateCondition N)
    find_non_portable_security_in fields Filters.nil = none
    find_non_portable_security_in fields (Filters.cons p ps) =
        or_else (find_non_portable_security_predicate fields p)
          (find_non_portable_security_in fields ps)

  -- The three searches in the compiled predicate, in the order of the code.
  abbrev reported :
      Option (PredicateCondition N)
      → Option (PredicateCondition N)
      → Option (PredicateCondition N × Issue)
      → Option (NormalizationError N)
  reported (some c) _ _ = some (non_portable_predicate c)
  reported none (some c) _ = some (non_portable_predicate c)
  reported none none (some (c, issue)) = some (unsupported_predicate_combination c issue)
  reported none none none = none

  unfoldable pub predicate_error :
      List (String × AbacFieldType) → PredicateNode N → Option (NormalizationError N)
  unfolding find_non_portable_security_predicate
  predicate_error fields p =
      reported (find_non_portable_predicate p) (find_non_portable_security_predicate fields p)
        (find_unsupported_predicate_combination fields p)

module _ {N : Type 0} ⦃num : Numbers N⦄ ⦃co : Coercions N⦄ where
  abbrev as_date : WindowDate N → Option N
  as_date absent = none
  as_date (text s) = some (num.parse_date s)
  as_date (instant t) = some t

  abbrev is_earlier : Option N → Option N → Bool
  is_earlier (some t) (some u) = num.lt t u
  is_earlier _ _ = false

  abbrev is_real : Option N → Bool
  is_real none = true
  is_real (some t) = co.is_time t

  unfoldable pub is_active : AbacPolicy N → N → Bool
  is_active p at =
      if is_earlier (some at) (as_date p.starts_at)
      then false
      else negate (is_earlier (as_date p.ends_at) (some at))

  unfoldable pub valid_window : AbacPolicy N → Bool
  valid_window p =
      if negate (is_real (as_date p.starts_at))
      then false
      else (if negate (is_real (as_date p.ends_at))
          then false
          else negate (is_earlier (as_date p.ends_at) (as_date p.starts_at)))
