-- ===== src/Tests/Normalize.antt =====
-- A policy, normalized.
use kittle.Base.{ℕ, leb, ◌≡◌, refl, String, true, false, none, [], ◌∷◌, ok, is_empty}
use kittle.Js.{number, string}
use kittle.Predicate.{PredicateOp, and, or, cons, nil, always_true}
use kittle.Predicate.Supported.{
  AbacFieldType, type_issue, issue_at, condition_issue, find_unsupported_predicate_combination,
  find_non_portable_predicate,
}
use kittle.Policy.{PolicyOperator, coerce_policy_value, coerce_policy_value_list, is_strict_numeric}
use kittle.Policy.Compile.{
  condition_of, policy_clause_to_predicate, condition_group_to_predicate,
  policy_conditions_to_predicate, resolve_clause_value, assert_user_attr_resolved,
}
use kittle.Policy.Catalog.{
  AbacFieldDefinition, AbacModuleCatalog, PolicyPayload, CatalogIssue, group_issues,
  validate_payload_against_catalog,
}
use kittle.Policy.Catalog.Fit.{fits_payload, validate_payload_against_catalog-empty}
use kittle.Policy.Normalize.{
  Normalizing, absent, instant, text, AbacPolicy, NormalizedPolicy, success, failure,
  effect_invalid, find_non_portable_security_predicate, predicate_error, is_active, valid_window,
}
use kittle.Policy.Normalize.Durable.{
  canonicalize_durable, canonicalize_node, canonicalize_group, canonicalize_policy, canonical,
  header_errors, with_compiled, normalize_abac_policy,
}
use kittle.Policy.Normalize.Sound.{IsNormalized, normalize_abac_policy-IsNormalized}
use kittle.Tests.{naturals}
use kittle.Tests.Policies.{plain, caller, mine_or_open}

abbrev calendar : Normalizing ℕ
calendar = record {
  is_safe_integer = λ n. leb n 9007199254740991;
  to_iso = λ n. ok "2026-01-01T00:00:00.000Z";
}

abbrev field_of : String → AbacFieldType → AbacFieldDefinition
field_of key type = record {
  key = key;
  type = type;
  operators = PolicyOperator.equals ∷ PolicyOperator.contains ∷ [];
}

abbrev orders : AbacModuleCatalog
orders = record {
  module_key = "orders";
  actions = "read" ∷ "update" ∷ [];
  capabilities = [];
  fields =
      ("status", field_of "status" AbacFieldType.string_)
      ∷ ("owner", field_of "owner" AbacFieldType.identifier)
      ∷ [];
}

abbrev reads_open : PolicyPayload ℕ
reads_open = record {
  parsed = record { actions = "read" ∷ []; capabilities = []; field_access = none };
  conditions = mine_or_open;
}

-- Active from 20 on.
abbrev supplied : AbacPolicy ℕ
supplied = record {
  policy_id = "p1";
  scope_type = string "role";
  scope_ref_id = none;
  starts_at = instant 20;
  ends_at = absent;
  module_key = "orders";
  effect = string "allow";
  priority = number 7;
  payload = reads_open;
}

validate_payload_against_catalog-empty_example :
    is_empty (validate_payload_against_catalog orders reads_open) ≡ fits_payload orders reads_open
validate_payload_against_catalog-empty_example =
    validate_payload_against_catalog-empty orders reads_open

unknown_action_found :
    validate_payload_against_catalog orders
      (record reads_open { parsed = record reads_open.parsed { actions = "pay" ∷ [] } })
    ≡ CatalogIssue.unknown_action "pay" ∷ []
unfolding validate_payload_against_catalog group_issues coerce_policy_value plain
unknown_action_found = refl

early_excluded : is_active supplied 10 ≡ false
unfolding is_active
early_excluded = refl

-- The window's date is a text, and the conditions are the compiled ones.
abbrev normalized : NormalizedPolicy ℕ
normalized = record {
  policy = record supplied { starts_at = text "2026-01-01T00:00:00.000Z" };
  compiled_conditions = and (
      cons (condition_of "status" PredicateOp.eq (string "open")) (
        cons (or (cons (condition_of "owner" PredicateOp.eq (string "u1")) (cons always_true nil)))
          nil));
}

supplied_normalizes :
    normalize_abac_policy calendar supplied orders caller 10 ≡ success normalized true
unfolding normalize_abac_policy validate_payload_against_catalog group_issues header_errors
    valid_window is_active with_compiled predicate_error find_non_portable_security_predicate
    find_non_portable_predicate find_unsupported_predicate_combination condition_issue issue_at
    type_issue policy_conditions_to_predicate condition_group_to_predicate
    policy_clause_to_predicate resolve_clause_value assert_user_attr_resolved coerce_policy_value
    coerce_policy_value_list is_strict_numeric canonical canonicalize_policy canonicalize_node
    canonicalize_group canonicalize_durable plain
supplied_normalizes = refl

normalize_abac_policy-IsNormalized_example :
    IsNormalized calendar supplied orders 10 normalized true
normalize_abac_policy-IsNormalized_example =
    normalize_abac_policy-IsNormalized calendar supplied orders 10 caller normalized true
      supplied_normalizes

abbrev grants_unknown : AbacPolicy ℕ
grants_unknown = record supplied { effect = string "grant" }

unknown_effect_refused :
    normalize_abac_policy calendar grants_unknown orders caller 10 ≡ failure (effect_invalid ∷ [])
unfolding normalize_abac_policy validate_payload_against_catalog group_issues header_errors
    valid_window coerce_policy_value plain
unknown_effect_refused = refl
