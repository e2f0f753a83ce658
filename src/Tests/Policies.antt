-- ===== src/Tests/Policies.antt =====
-- The conditions of a policy, compiled for a caller.
use kittle.Base.{ℕ, ◌≡◌, refl, String, true, false, none, some, List, [], ◌∷◌, err, is_ok, codes}
use kittle.Js.{Value, undefined, null, number, string, object, prop, end}
use kittle.Predicate.Eval.{evaluate_truth, evaluate_condition, values_equal}
use kittle.Predicate.Supported.{AbacFieldType}
use kittle.Policy.{
  PolicyOperator, logic_and, logic_or, PolicyFilterClause, group, Conditions, clause, nested,
  PolicyConditions, CompileError, Coercions, coerce_policy_value, is_strict_numeric,
}
use kittle.Policy.Compile.{
  AbacContext, policy_clause_to_predicate, condition_group_to_predicate,
  policy_conditions_to_predicate, resolve_clause_value, assert_user_attr_resolved,
}
use kittle.Policy.Meaning.{truth_of, both, meaning, policy_conditions_to_predicate-meaning}
use kittle.Policy.Between.{between_clause, policy_clause_to_predicate-between}
use kittle.Tests.{naturals, open_order}

instance unfoldable pub plain : Coercions ℕ
plain = record { is_finite = λ n. true; is_time = λ n. true; to_text = λ v. "[object]" }

abbrev pub caller : AbacContext ℕ
caller = record {
  user_id = string "u1";
  role_id = undefined;
  branch_id = null;
  department_id = undefined;
  tenant_id = string "acme";
}

abbrev catalog : List (String × AbacFieldType)
catalog =
    ("status", AbacFieldType.string_)
    ∷ ("owner", AbacFieldType.identifier)
    ∷ ("total", AbacFieldType.number_)
    ∷ []

abbrev pub is_open : PolicyFilterClause ℕ
is_open = record {
  field = "status";
  operator = none;
  value = string "open";
  values = none;
  user_attr = none;
}

abbrev is_mine : PolicyFilterClause ℕ
is_mine = record {
  field = "owner";
  operator = some PolicyOperator.equals;
  value = undefined;
  values = none;
  user_attr = some "user.id";
}

-- Open, and mine or anyone's.
abbrev pub mine_or_open : PolicyConditions ℕ
mine_or_open = record {
  system_scope = group logic_and (clause is_open Conditions.nil);
  user_filters =
      group logic_or (clause is_mine (nested (group logic_and Conditions.nil) Conditions.nil));
}

policy_conditions_to_predicate-meaning_example :
    truth_of open_order (policy_conditions_to_predicate caller catalog mine_or_open)
    ≡ both true
        (meaning caller catalog open_order mine_or_open.system_scope)
        (meaning caller catalog open_order mine_or_open.user_filters)
policy_conditions_to_predicate-meaning_example =
    policy_conditions_to_predicate-meaning caller catalog open_order mine_or_open

mine_or_open_holds :
    truth_of open_order (policy_conditions_to_predicate caller catalog mine_or_open)
    ≡ some (some true)
unfolding policy_conditions_to_predicate condition_group_to_predicate policy_clause_to_predicate
    resolve_clause_value assert_user_attr_resolved coerce_policy_value evaluate_truth
    evaluate_condition values_equal plain
mine_or_open_holds = refl

abbrev adults : Value ℕ
adults = object 4 (prop "from" (number 18) (prop "to" (number 65) end))

policy_clause_to_predicate-between_example :
    is_ok (policy_clause_to_predicate (between_clause "total" adults none) caller catalog) ≡ false
policy_clause_to_predicate-between_example =
    policy_clause_to_predicate-between "total" adults none caller catalog AbacFieldType.number_ refl
      refl

-- A scalar operator on an attribute that the caller lacks.
abbrev has_role : PolicyFilterClause ℕ
has_role = record is_mine { user_attr = some "user.roleId" }

role_refused :
    policy_clause_to_predicate has_role caller catalog
    ≡ err (CompileError.unresolved_attribute ∷ [])
unfolding policy_clause_to_predicate resolve_clause_value assert_user_attr_resolved
role_refused = refl

literals_tested :
    (is_strict_numeric (codes "-1.5e+3") ≡ true) × (is_strict_numeric (codes "0x11") ≡ false)
unfolding is_strict_numeric
literals_tested = (refl, refl)
