-- ===== src/Abac/Write.antt =====
-- packages/core/src/domain/abacWrite.ts, and the field check of fieldWriteInternals.ts and of
-- fieldAccess.ts. The record's own keys stand for `Object.keys(record)`.
pub mod Writable
pub mod Enforce
use kittle.Base.{
  pos, String, ◌===◌, str_mem, ℤ, ltb_ℤ, ◌==ℤ◌, Bool, true, false, negate, ◌&&◌, ◌||◌, Option, none,
  some, List, [], ◌∷◌, ◌++◌, map, filter, any, head?, is_empty, Result, ok, err, ◌>>=◌, ◌>>◌,
  require, if◌then◌else◌,
}
use kittle.Js.{Numbers, Props, end, prop}
use kittle.Tier.{
  Effect, allow, deny, is_allow, is_deny, Reason, TierDecision, resolve_tiered_decision,
}
use kittle.Abac.{
  Evidence, PolicyMeta, write_refused, NormalizedAbacPolicy, AbacPolicyBundle, PolicyFieldAccess,
  ReasonCode, AbacError, forbidden_error, policy_view, is_for_action, policy_matches_record,
  assert_verified_abac_bundle,
}
use kittle.Abac.Decision.{to_evidence, includes_policy, relevant_to_action}

-- `Object.keys`: each own key once.
abbrev pub object_keys : {N : Type 0} → Props N → List String
object_keys end = []
object_keys (prop k v ps) = k ∷ filter (λ j. negate (j === k)) (object_keys ps)

-- `changedFields ?? Object.keys(record)`
abbrev pub fields_or_keys : {N : Type 0} → Option (List String) → Props N → List String
fields_or_keys none r = object_keys r
fields_or_keys (some fields) r = fields

-- `fieldAccess?.write ?? []`
abbrev pub write_list : Option PolicyFieldAccess → List String
write_list none = []
write_list (some access) = elim access.write [ none ↦ [] | some fields ↦ fields ]

abbrev pub concat_map {ℓ κ} : {A : Type ℓ} {B : Type κ} → (A → List B) → List A → List B
concat_map f [] = []
concat_map f (x ∷ xs) = f x ++ concat_map f xs

abbrev field_write_denied : List String → Result AbacError (Unit {0})
field_write_denied fields = err (forbidden_error ReasonCode.abac_field_write_denied fields)

abbrev raise_top : Option ℤ → ℤ → Option ℤ
raise_top none k = some k
raise_top (some t) k = if ltb_ℤ t k then some k else some t

-- `p.priority === topPriority`
abbrev is_top : Option ℤ → ℤ → Bool
is_top none k = false
is_top (some t) k = k ==ℤ t

module _ {N : Type 0} where
  abbrev pub writes : NormalizedAbacPolicy N → List String
  writes p = write_list p.payload.field_access

  -- The loop for `topPriority`, which starts at minus infinity: `none`.
  top_priority : Option ℤ → List (NormalizedAbacPolicy N) → Option ℤ
  top_priority top [] = top
  top_priority top (p ∷ ps) = top_priority (raise_top top p.priority) ps

  -- One round of the loop over the fields: is the field denied?
  denies_field : List (NormalizedAbacPolicy N) → List (NormalizedAbacPolicy N) → String → Bool
  denies_field deny_policies allow_policies field =
      let deny_all = any (λ p. is_empty (writes p)) deny_policies in
      let allow_all = any (λ p. is_empty (writes p)) allow_policies in
      let denied_by_policy = concat_map writes deny_policies in
      let allowed_by_policy = concat_map writes allow_policies in
      if deny_all
      then true
      else (if str_mem field denied_by_policy
          then true
          else (if allow_all
              then false
              else (if str_mem field allowed_by_policy
                  then false
                  else negate (is_empty allow_policies))))

  -- What a list of the matched policies that is not empty denies.
  pub denied_fields : List (NormalizedAbacPolicy N) → List String → List String
  unfolding top_priority denies_field
  denied_fields relevant fields =
      let top_tier = filter (λ p. is_top (top_priority none relevant) p.priority) relevant in
      let deny_policies = filter (λ p. is_deny p.effect) top_tier in
      let allow_policies = filter (λ p. is_allow p.effect) top_tier in
      filter (denies_field deny_policies allow_policies) fields

  unfoldable pub assert_matched_policy_writable_fields :
      List (NormalizedAbacPolicy N) → Props N → Option (List String) → Result AbacError (Unit {0})
  unfolding denied_fields
  assert_matched_policy_writable_fields relevant r changed_fields =
      let fields = fields_or_keys changed_fields r in
      let denied = denied_fields relevant fields in
      if is_empty relevant
      then field_write_denied fields
      else (if is_empty denied then ok tt else field_write_denied denied)

pub record WriteAccessEvaluation : Type 0 where
  pub allowed : Bool
  pub reason_code : ReasonCode
  pub policy_meta : Option PolicyMeta
  pub evidence : List Evidence

-- The end of `enforceAbacWrite`.
allow_or_throw : (module_key action : String) → WriteAccessEvaluation → Result AbacError (Unit {0})
allow_or_throw module_key action evaluation = require evaluation.allowed (
    write_refused evaluation.reason_code module_key action evaluation.policy_meta
      evaluation.evidence)

module _ {N : Type 0} where
  -- `decidingPolicies[0]?.priority ?? 0`, and the same of its effect.
  abbrev first_priority : List (NormalizedAbacPolicy N) → ℤ
  first_priority [] = pos 0
  first_priority (p ∷ _) = p.priority

  abbrev first_effect : List (NormalizedAbacPolicy N) → Effect
  first_effect [] = allow
  first_effect (p ∷ _) = p.effect

  -- The switch on the result's reason.
  evaluation_of :
      Reason → String → List (NormalizedAbacPolicy N) → List Evidence → WriteAccessEvaluation
  evaluation_of Reason.allow_policy_matched module_key deciding evidence = record {
    allowed = true;
    reason_code = ReasonCode.allow_policy_matched;
    policy_meta = some (record {
      module_key = module_key;
      effect = first_effect deciding;
      priority = first_priority deciding;
    });
    evidence = evidence;
  }
  evaluation_of Reason.deny_policy_matched module_key deciding evidence = record {
    allowed = false;
    reason_code = ReasonCode.deny_policy_matched;
    policy_meta =
        some
          (record { module_key = module_key; effect = deny; priority = first_priority deciding });
    evidence = evidence;
  }
  evaluation_of Reason.no_relevant_policy module_key deciding evidence = record {
    allowed = false;
    reason_code = ReasonCode.no_relevant_policy;
    policy_meta = none;
    evidence = evidence;
  }
  evaluation_of Reason.no_policy_matched module_key deciding evidence = record {
    allowed = false;
    reason_code = ReasonCode.no_policy_matched_record;
    policy_meta = none;
    evidence = evidence;
  }

  evaluate_relevant_write_access :
      List (NormalizedAbacPolicy N)
      → String
      → (NormalizedAbacPolicy N → Bool)
      → WriteAccessEvaluation
  unfolding evaluation_of to_evidence
  evaluate_relevant_write_access relevant module_key matches =
      let result = resolve_tiered_decision policy_view matches deny relevant in
      evaluation_of result.reason module_key result.deciding_policies (map to_evidence relevant)

  module _ ⦃num : Numbers N⦄ where
    unfoldable pub evaluate_write_access_for_record_detailed :
        List (NormalizedAbacPolicy N) → String → String → Props N → WriteAccessEvaluation
    unfolding evaluate_relevant_write_access
    evaluate_write_access_for_record_detailed policies module_key action r =
        evaluate_relevant_write_access (filter (is_for_action module_key action) policies)
          module_key (policy_matches_record r)

    -- The branch for an action other than "delete".
    enforce_record_write :
        AbacPolicyBundle N → String → Props N → Option (List String) → Result AbacError (Unit {0})
    unfolding assert_matched_policy_writable_fields evaluate_relevant_write_access allow_or_throw
    enforce_record_write bundle action r changed_fields =
        let relevant = relevant_to_action bundle action in
        let matched = filter (policy_matches_record r) relevant in
        (if is_empty matched
          then ok tt
          else assert_matched_policy_writable_fields matched r changed_fields)
        >> allow_or_throw bundle.module_key action
            (evaluate_relevant_write_access relevant bundle.module_key (includes_policy matched))

    unfoldable pub enforce_abac_write :
        AbacPolicyBundle N → String → Props N → Option (List String) → Result AbacError (Unit {0})
    unfolding assert_verified_abac_bundle enforce_record_write
        evaluate_write_access_for_record_detailed
    enforce_abac_write bundle action r changed_fields = do
      assert_verified_abac_bundle bundle
      (if action === "delete"
          then allow_or_throw bundle.module_key action
              (evaluate_write_access_for_record_detailed bundle.policies bundle.module_key action r)
          else enforce_record_write bundle action r changed_fields)

    -- `assertPolicyWritableFields` of fieldAccess.ts
    unfoldable pub assert_policy_writable_fields :
        List (NormalizedAbacPolicy N)
        → String
        → String
        → Props N
        → Option (List String)
        → Result AbacError (Unit {0})
    unfolding assert_matched_policy_writable_fields
    assert_policy_writable_fields policies module_key action r changed_fields =
        assert_matched_policy_writable_fields
          (filter (policy_matches_record r) (filter (is_for_action module_key action) policies)) r
          changed_fields
