-- ===== src/Abac/Collection.antt =====
-- packages/core/src/domain/abacDecision.ts: `evaluateAbacActionForCollection`.
pub mod Soundness
use kittle.Base.{
  String, Bool, true, false, negate, ◌&&◌, List, [], map, filter, any, Result, ok, err, ◌>>=◌,
  if◌then◌else◌,
}
use kittle.Predicate.{PredicateNode}
use kittle.Predicate.Simplify.{simplify_predicate, is_always_false}
use kittle.Tier.{is_allow, is_deny}
use kittle.Abac.{Evidence, NormalizedAbacPolicy, AbacPolicyBundle, AbacError, is_for_action}
use kittle.Abac.Decision.{to_evidence, relevant_to_action}
use kittle.Abac.Scope.{build_action_scope}

pub data CollectionReason : Type 0 where
  action_scope_available no_allow_policy statically_denied : CollectionReason

pub record AbacCollectionDecision (N : Type 0) : Type 0 where
  pub allowed : Bool
  pub scope : PredicateNode N
  pub reason_code : CollectionReason
  pub evidence : List Evidence

module _ {N : Type 0} where
  abbrev has_allow_policy : AbacPolicyBundle N → String → Bool
  has_allow_policy bundle action =
      any (λ p. is_for_action bundle.module_key action p && is_allow p.effect) bundle.policies

  collection_decision : AbacPolicyBundle N → String → PredicateNode N → AbacCollectionDecision N
  collection_decision bundle action simplified =
      if is_always_false simplified
      then record {
        allowed = false;
        scope = simplified;
        reason_code = CollectionReason.statically_denied;
        evidence = [];
      }
      else (if negate (has_allow_policy bundle action) && is_deny bundle.default_effect
          then record {
            allowed = false;
            scope = simplified;
            reason_code = CollectionReason.no_allow_policy;
            evidence = [];
          }
          else record {
            allowed = true;
            scope = simplified;
            reason_code = CollectionReason.action_scope_available;
            evidence = map to_evidence (relevant_to_action bundle action);
          })

  unfoldable pub evaluate_abac_action_for_collection :
      AbacPolicyBundle N → String → Result AbacError (AbacCollectionDecision N)
  unfolding collection_decision
  evaluate_abac_action_for_collection bundle action = do
    scope ← build_action_scope bundle action
    ok (collection_decision bundle action (simplify_predicate scope.filter))
