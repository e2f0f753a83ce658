-- ===== src/Abac/Scope.antt =====
-- packages/core/src/domain/abacReadScope.ts: the row filter of an action.
pub mod Soundness
use kittle.Base.{
  ℤ, String, Bool, ◌≡◌, refl, sym, ◌∙◌, ap, true, false, Option, none, some, List, [], ◌∷◌, map,
  is_empty, Result, ok, err, ◌>>=◌, ◌>>◌, >>=-eq-ok, arith, All, filter, if◌then◌else◌,
}
use kittle.Js.{Numbers, Props}
use kittle.Predicate.{PredicateNode, and, or, not, always_true, always_false, filters_of}
use kittle.Predicate.Eval.{Truth, is_known_true, evaluate_truth, evaluate_predicate, not3}
use kittle.Predicate.Truth.{
  meet, meet_all, meet_nodes, meet-unit_right, group, evaluate_truth-group, nodes-filters_of,
}
use kittle.Tier.{Effect, deny, is_allow, is_deny, Policies, resolve_tiered_decision}
use kittle.Tier.Outcome.{TieredExpressionOps, build_tiered_policy_outcome}
use kittle.Tier.Outcome.Agreement.{
  IsSound, is_known, holds, build_tiered_policy_outcome_sound, build_tiered_policy_outcome-exact,
}
use kittle.Abac.{
  NormalizedAbacPolicy, AbacPolicyBundle, AbacReadScope, AbacError, assert_verified_abac_bundle,
  is_some, policy_view, is_for_action, policy_matches_record,
}
use kittle.Abac.Decision.{relevant_to_action, decision_of, evaluate_abac_record_action}

-- What the tiers see of a policy: `{ effect, priority, match }`.
pub record Entry (N : Type 0) : Type 0 where
  pub effect : Effect
  pub priority : ℤ
  pub match : PredicateNode N

module _ {N : Type 0} where
  -- `combineOr` and `combineAnd`
  combine_or : List (PredicateNode N) → PredicateNode N
  combine_or [] = always_false
  combine_or (first ∷ []) = first
  combine_or (first ∷ second ∷ more) = or (filters_of (first ∷ second ∷ more))

  combine_and : List (PredicateNode N) → PredicateNode N
  combine_and [] = always_true
  combine_and (first ∷ []) = first
  combine_and (first ∷ second ∷ more) = and (filters_of (first ∷ second ∷ more))

  abbrev predicate_ops : TieredExpressionOps (PredicateNode N)
  unfolding combine_or combine_and
  predicate_ops = record {
    always_true = always_true;
    always_false = always_false;
    and = combine_and;
    or = combine_or;
    not = not;
  }

  abbrev entry_view : Policies (Entry N)
  entry_view = record { get_priority = λ e. e.priority; get_effect = λ e. e.effect }

  abbrev entry_of : NormalizedAbacPolicy N → Entry N
  entry_of p = record { effect = p.effect; priority = p.priority; match = p.compiled_conditions }

  scope_filter : Effect → List (NormalizedAbacPolicy N) → PredicateNode N
  unfolding build_tiered_policy_outcome predicate_ops
  scope_filter default_effect relevant =
      if is_empty relevant
      then (if is_allow default_effect then always_true else always_false)
      else build_tiered_policy_outcome entry_view predicate_ops (λ e. e.match)
          (map entry_of relevant)

  unfoldable pub build_action_scope :
      AbacPolicyBundle N → String → Result AbacError (AbacReadScope N)
  unfolding scope_filter assert_verified_abac_bundle
  build_action_scope bundle action = do
    assert_verified_abac_bundle bundle
    ok (record {
      filter = scope_filter bundle.default_effect (relevant_to_action bundle action);
      cache_scope_key = bundle.cache_scope_key;
    })
