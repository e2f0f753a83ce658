-- ===== src/Tests/Access.antt =====
-- The decisions, the scopes and the writes on the sample bundle.
use kittle.Base.{
  ℕ, ◌≡◌, refl, sym, ap, ◌∙◌, arith, ◌||◌, true, false, ◌&&◌, none, some, [], ◌∷◌, map, Result, ok,
  err, is_ok, Memᴰ, all,
}
use kittle.Js.{Props}
use kittle.Predicate.{always_false}
use kittle.Predicate.Eval.{
  Truth, evaluate_truth, evaluate_predicate, evaluate_condition, values_equal, not3, is_known_true,
}
use kittle.Predicate.Simplify.{simplify_predicate, is_always_false}
use kittle.Predicate.Truth.{meet_all}
use kittle.Tier.{deny, resolve_tiered_decision}
use kittle.Tier.Decision.{permitted, by_default, resolve_tiered_decision-allowed}
use kittle.Tier.Decision.Views.{resolve_tiered_decision-same_members}
use kittle.Tier.Outcome.{TieredExpressionOps, build_tiered_policy_outcome}
use kittle.Tier.Outcome.Agreement.{
  IsSound, holds, build_tiered_policy_outcome_sound, build_tiered_policy_outcome-exact,
}
use kittle.Abac.{
  NormalizedAbacPolicy, AbacReadScope, policy_view, policy_matches_record,
  assert_verified_abac_bundle,
}
use kittle.Abac.Decision.{evaluate_abac_record_action}
use kittle.Abac.Scope.{build_action_scope}
use kittle.Abac.Scope.Soundness.{build_action_scope_sound, build_action_scope-exact}
use kittle.Abac.Collection.{
  AbacCollectionDecision, CollectionReason, evaluate_abac_action_for_collection,
}
use kittle.Abac.Collection.Soundness.{
  evaluate_abac_action_for_collection_sound, evaluate_abac_action_for_collection-denied,
}
use kittle.Abac.Write.{enforce_abac_write, fields_or_keys, assert_matched_policy_writable_fields}
use kittle.Abac.Write.Writable.{is_writable, assert_matched_policy_writable_fields-is_ok}
use kittle.Abac.Write.Enforce.{IsCoherent, matched_policies, enforce_abac_write-is_ok}
use kittle.Tier.{allow}
use kittle.Predicate.{always_true}
use kittle.Predicate.Simplify.{is_always_true}
use kittle.Abac.{AbacPolicyBundle}
use kittle.Abac.Decision.{evaluate_abac_record_capability, has_global_abac_capability}
use kittle.Abac.Decision.Capabilities.{evaluate_abac_record_capability-global}
use kittle.Tests.{
  policy_of, naturals, allow_open, deny_locked, policies, bundle, open_order, locked_order,
}

-- The value of a call that does not throw.
abbrev value_or {ℓ} : {E A : Type ℓ} → A → Result E A → A
value_or a (ok b) = b
value_or a (err _) = a

abbrev read_scope : AbacReadScope ℕ
read_scope =
    value_or (record { filter = always_false; cache_scope_key = none })
      (build_action_scope bundle "read")

scope_built : build_action_scope bundle "read" ≡ ok read_scope
unfolding build_action_scope
scope_built = refl

open_admitted : evaluate_predicate open_order read_scope.filter ≡ true
unfolding build_action_scope evaluate_predicate evaluate_truth evaluate_condition values_equal
open_admitted = refl

locked_not_admitted : evaluate_predicate locked_order read_scope.filter ≡ false
unfolding build_action_scope evaluate_predicate evaluate_truth evaluate_condition values_equal
locked_not_admitted = refl

build_action_scope_sound_example :
    (evaluate_abac_record_action bundle "read" open_order).allowed ≡ true
build_action_scope_sound_example =
    build_action_scope_sound bundle "read" open_order scope_built open_admitted

build_action_scope-exact_example :
    evaluate_predicate locked_order read_scope.filter
    ≡ (evaluate_abac_record_action bundle "read" locked_order).allowed
unfolding evaluate_truth evaluate_condition values_equal
build_action_scope-exact_example =
    build_action_scope-exact bundle "read" locked_order scope_built (refl, (refl, tt))

abbrev read_decision : AbacCollectionDecision ℕ
read_decision =
    value_or
      (record {
        allowed = false;
        scope = always_false;
        reason_code = CollectionReason.no_allow_policy;
        evidence = [];
      })
      (evaluate_abac_action_for_collection bundle "read")

decided : evaluate_abac_action_for_collection bundle "read" ≡ ok read_decision
unfolding evaluate_abac_action_for_collection build_action_scope simplify_predicate is_always_false
decided = refl

scope_admits_open : evaluate_predicate open_order read_decision.scope ≡ true
unfolding evaluate_abac_action_for_collection build_action_scope simplify_predicate is_always_false
    evaluate_predicate evaluate_truth evaluate_condition values_equal
scope_admits_open = refl

evaluate_abac_action_for_collection_sound_example :
    (evaluate_abac_record_action bundle "read" open_order).allowed ≡ true
evaluate_abac_action_for_collection_sound_example =
    evaluate_abac_action_for_collection_sound bundle "read" open_order decided scope_admits_open

-- No policy is for this action.
abbrev approve_decision : AbacCollectionDecision ℕ
approve_decision =
    value_or
      (record {
        allowed = true;
        scope = always_false;
        reason_code = CollectionReason.no_allow_policy;
        evidence = [];
      })
      (evaluate_abac_action_for_collection bundle "approve")

approve_decided : evaluate_abac_action_for_collection bundle "approve" ≡ ok approve_decision
unfolding evaluate_abac_action_for_collection build_action_scope simplify_predicate is_always_false
approve_decided = refl

approve_denied : approve_decision.allowed ≡ false
unfolding evaluate_abac_action_for_collection build_action_scope simplify_predicate is_always_false
approve_denied = refl

evaluate_abac_action_for_collection-denied_example :
    (evaluate_abac_record_action bundle "approve" open_order).allowed ≡ false
evaluate_abac_action_for_collection-denied_example =
    evaluate_abac_action_for_collection-denied bundle "approve" open_order approve_decided
      approve_denied tt

sample-IsCoherent : IsCoherent policies
sample-IsCoherent p q (Memᴰ.head a) (Memᴰ.head b) e = a ∙ sym b
sample-IsCoherent p q (Memᴰ.head a) (Memᴰ.tail (Memᴰ.head b)) e =
    let same : ◌≡◌ {A = ℕ} 1 2 = sym (ap (λ x. x.identity) a) ∙ e ∙ ap (λ x. x.identity) b in
    absurd (omega arith)
sample-IsCoherent p q (Memᴰ.tail (Memᴰ.head a)) (Memᴰ.head b) e =
    let same : ◌≡◌ {A = ℕ} 2 1 = sym (ap (λ x. x.identity) a) ∙ e ∙ ap (λ x. x.identity) b in
    absurd (omega arith)
sample-IsCoherent p q (Memᴰ.tail (Memᴰ.head a)) (Memᴰ.tail (Memᴰ.head b)) e = a ∙ sym b
sample-IsCoherent p q (Memᴰ.head a) (Memᴰ.tail (Memᴰ.tail m)) e = elim m [ ]
sample-IsCoherent p q (Memᴰ.tail (Memᴰ.head a)) (Memᴰ.tail (Memᴰ.tail m)) e = elim m [ ]
sample-IsCoherent p q (Memᴰ.tail (Memᴰ.tail m)) n e = elim m [ ]

enforce_abac_write-is_ok_example :
    is_ok (enforce_abac_write bundle "update" open_order (some ("note" ∷ []))) ≡ (
      is_ok (assert_verified_abac_bundle bundle)
      && (evaluate_abac_record_action bundle "update" open_order).allowed
      && all (is_writable (matched_policies bundle "update" open_order)) ("note" ∷ []))
enforce_abac_write-is_ok_example =
    enforce_abac_write-is_ok bundle "update" open_order (some ("note" ∷ [])) sample-IsCoherent

assert_matched_policy_writable_fields-is_ok_example :
    is_ok (assert_matched_policy_writable_fields policies locked_order none)
    ≡ all (is_writable policies) (fields_or_keys none locked_order)
assert_matched_policy_writable_fields-is_ok_example =
    assert_matched_policy_writable_fields-is_ok policies locked_order none

resolve_tiered_decision-allowed_example :
    (resolve_tiered_decision policy_view (policy_matches_record locked_order) deny policies).allowed
    ≡ (permitted policy_view (policy_matches_record locked_order) policies
        || by_default policy_view (policy_matches_record locked_order) deny policies)
resolve_tiered_decision-allowed_example =
    resolve_tiered_decision-allowed policy_view (policy_matches_record locked_order) deny policies

swap_members :
    (p : NormalizedAbacPolicy ℕ)
    → Memᴰ p (allow_open ∷ deny_locked ∷ [])
    → Memᴰ p (deny_locked ∷ allow_open ∷ [])
swap_members p (Memᴰ.head e) = Memᴰ.tail (Memᴰ.head e)
swap_members p (Memᴰ.tail (Memᴰ.head e)) = Memᴰ.head e
swap_members p (Memᴰ.tail (Memᴰ.tail m)) = elim m [ ]

swap_back :
    (p : NormalizedAbacPolicy ℕ)
    → Memᴰ p (deny_locked ∷ allow_open ∷ [])
    → Memᴰ p (allow_open ∷ deny_locked ∷ [])
swap_back p (Memᴰ.head e) = Memᴰ.tail (Memᴰ.head e)
swap_back p (Memᴰ.tail (Memᴰ.head e)) = Memᴰ.head e
swap_back p (Memᴰ.tail (Memᴰ.tail m)) = elim m [ ]

resolve_tiered_decision-same_members_example :
    (resolve_tiered_decision policy_view (policy_matches_record locked_order) deny policies).allowed
    ≡ (resolve_tiered_decision policy_view
        (policy_matches_record locked_order)
        deny
        (deny_locked ∷ allow_open ∷ [])).allowed
resolve_tiered_decision-same_members_example =
    resolve_tiered_decision-same_members policy_view (policy_matches_record locked_order) deny
      policies (deny_locked ∷ allow_open ∷ []) swap_members swap_back

-- Expressions that are truths, with the connectives for operations.
abbrev truth_ops : TieredExpressionOps Truth
truth_ops = record {
  always_true = some true;
  always_false = some false;
  and = λ es. meet_all true (map (λ t. t) es);
  or = λ es. meet_all false (map (λ t. t) es);
  not = not3;
}

truth_ops-IsSound : IsSound truth_ops (λ t. t)
truth_ops-IsSound = record {
  true_law = refl;
  false_law = refl;
  and_law = λ es. refl;
  or_law = λ es. refl;
  not_law = λ e. refl;
}

abbrev truth_at : Props ℕ → NormalizedAbacPolicy ℕ → Truth
truth_at r p = evaluate_truth r p.compiled_conditions

build_tiered_policy_outcome_sound_example :
    (resolve_tiered_decision policy_view
      (holds policy_view (truth_at open_order) (λ t. t))
      deny
      policies).allowed
    ≡ true
unfolding build_tiered_policy_outcome evaluate_truth evaluate_condition values_equal
build_tiered_policy_outcome_sound_example =
    build_tiered_policy_outcome_sound policy_view (truth_at open_order) (λ t. t) truth_ops
      truth_ops-IsSound policies refl

build_tiered_policy_outcome-exact_example :
    is_known_true
      (build_tiered_policy_outcome policy_view truth_ops (truth_at locked_order) policies)
    ≡ (resolve_tiered_decision policy_view
        (holds policy_view (truth_at locked_order) (λ t. t))
        deny
        policies).allowed
unfolding evaluate_truth evaluate_condition values_equal
build_tiered_policy_outcome-exact_example =
    build_tiered_policy_outcome-exact policy_view (truth_at locked_order) (λ t. t) truth_ops
      truth_ops-IsSound policies (refl, (refl, tt))

-- Gives a capability on every record.
abbrev export_policy : NormalizedAbacPolicy ℕ
export_policy = record (policy_of 7 allow 5 [] none always_true) {
  payload = record { actions = []; capabilities = "export" ∷ []; field_access = none };
}

abbrev export_bundle : AbacPolicyBundle ℕ
export_bundle = record bundle { policies = export_policy ∷ deny_locked ∷ [] }

evaluate_abac_record_capability-global_example :
    (evaluate_abac_record_capability export_bundle "export" locked_order).allowed
    ≡ has_global_abac_capability export_bundle "export"
unfolding simplify_predicate is_always_true
evaluate_abac_record_capability-global_example =
    evaluate_abac_record_capability-global export_bundle "export" locked_order (refl, tt)
