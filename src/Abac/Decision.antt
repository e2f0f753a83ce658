-- ===== src/Abac/Decision.antt =====
-- packages/core/src/domain/abacDecision.ts, without its collection decision, and
-- packages/core/src/domain/abacCapabilities.ts.
pub mod Capabilities
use kittle.Base.{
  ◌==◌, ℤ, String, Bool, true, negate, Option, List, [], ◌∷◌, ◌++◌, map, filter, any, ◌===◌,
  str_mem, if◌then◌else◌,
}
use kittle.Js.{Numbers, Props}
use kittle.Predicate.Simplify.{simplify_predicate, is_always_true}
use kittle.Tier.{Effect, deny, Reason, TierDecision, resolve_tiered_decision}
use kittle.Abac.{
  Evidence, ScopeType, NormalizedAbacPolicy, AbacPolicyBundle, policy_view, is_for_action,
  is_for_capability, policy_matches_record,
}

pub data TargetType : Type 0 where
  action capability field_read field_write : TargetType

pub record AbacDecision : Type 0 where
  pub allowed : Bool
  pub target : TargetType × String
  pub reason_code : Reason
  pub priority : Option ℤ
  pub evidence : List Evidence

-- `Set.add` for each string of a list.
abbrev pub add_all : List String → List String → List String
add_all [] seen = seen
add_all (s ∷ ss) seen = add_all ss (if str_mem s seen then seen else seen ++ s ∷ [])

module _ {N : Type 0} where
  unfoldable pub to_evidence : NormalizedAbacPolicy N → Evidence
  to_evidence p = record {
    policy_id = p.source.policy_id;
    effect = p.effect;
    priority = p.priority;
    scope_type = p.source.scope_type;
    scope_ref_id = p.source.scope_ref_id;
  }

  -- `policies.includes(p)`, or `set.has(p)`
  abbrev pub includes_policy : List (NormalizedAbacPolicy N) → NormalizedAbacPolicy N → Bool
  includes_policy policies p = any (λ q. q.identity == p.identity) policies

  -- The decision that each evaluator builds from the tiers' result.
  unfoldable pub decision_of :
      TargetType × String → TierDecision (NormalizedAbacPolicy N) → AbacDecision
  unfolding to_evidence
  decision_of target result = record {
    allowed = result.allowed;
    target = target;
    reason_code = result.reason;
    priority = result.priority;
    evidence =
        map to_evidence result.deciding_policies
        ++ map to_evidence (
            filter (λ mp. negate (includes_policy result.deciding_policies mp))
              result.matched_policies);
  }

  abbrev pub relevant_to_action : AbacPolicyBundle N → String → List (NormalizedAbacPolicy N)
  relevant_to_action bundle action' =
      filter (is_for_action bundle.module_key action') bundle.policies

  abbrev pub relevant_to_capability : AbacPolicyBundle N → String → List (NormalizedAbacPolicy N)
  relevant_to_capability bundle capability' =
      filter (is_for_capability bundle.module_key capability') bundle.policies

  -- `isAlwaysTrue(simplifyPredicate(p.compiledConditions))`
  abbrev pub is_unconditional : NormalizedAbacPolicy N → Bool
  is_unconditional p = is_always_true (simplify_predicate p.compiled_conditions)

  unfoldable pub evaluate_global_abac_capability : AbacPolicyBundle N → String → AbacDecision
  unfolding decision_of
  evaluate_global_abac_capability bundle capability' =
      let unconditional = filter is_unconditional bundle.policies in
      let relevant = filter (is_for_capability bundle.module_key capability') unconditional in
      decision_of (capability, capability')
        (resolve_tiered_decision policy_view (λ _. true) deny relevant)

  unfoldable pub has_global_abac_capability : AbacPolicyBundle N → String → Bool
  unfolding evaluate_global_abac_capability
  has_global_abac_capability bundle capability' =
      let scoped = record bundle { policies = filter is_unconditional bundle.policies } in
      (evaluate_global_abac_capability scoped capability').allowed

  capability_keys : String → List (NormalizedAbacPolicy N) → List String → List String
  capability_keys module_key [] keys = keys
  capability_keys module_key (p ∷ ps) keys =
      capability_keys module_key ps
        (if p.module_key === module_key then add_all p.payload.capabilities keys else keys)

  unfoldable pub resolve_granted_global_capabilities : AbacPolicyBundle N → List String
  unfolding capability_keys has_global_abac_capability
  resolve_granted_global_capabilities bundle =
      filter (has_global_abac_capability bundle)
        (capability_keys bundle.module_key bundle.policies [])

  module _ ⦃num : Numbers N⦄ where
    unfoldable pub evaluate_abac_record_action :
        AbacPolicyBundle N → String → Props N → AbacDecision
    unfolding decision_of
    evaluate_abac_record_action bundle action' r =
        decision_of (action, action')
          (resolve_tiered_decision policy_view (policy_matches_record r) bundle.default_effect
            (relevant_to_action bundle action'))

    unfoldable pub evaluate_abac_record_capability :
        AbacPolicyBundle N → String → Props N → AbacDecision
    unfolding decision_of
    evaluate_abac_record_capability bundle capability' r =
        decision_of (capability, capability')
          (resolve_tiered_decision policy_view (policy_matches_record r) deny
            (relevant_to_capability bundle capability'))

    -- `hasRecordAbacCapability`
    unfoldable pub has_record_abac_capability : AbacPolicyBundle N → String → Props N → Bool
    unfolding evaluate_abac_record_capability
    has_record_abac_capability bundle capability' r =
        (evaluate_abac_record_capability bundle capability' r).allowed
