-- ===== src/Abac/Collection/Soundness.antt =====
-- What a collection decision promises about single records.
use kittle.Base.{
  String, ◌≡◌, sym, ◌∙◌, ap, true, false, any, any-filter, any-eq-false, false_of_any, ok,
  >>=-eq-ok, ok-injective, arith, Bool-cases, inl, inr,
}
use kittle.Js.{Numbers, Props}
use kittle.Predicate.{PredicateNode, literal, condition, and, or, not}
use kittle.Predicate.Eval.{evaluate_truth, evaluate_predicate, is_known_true}
use kittle.Predicate.Simplify.{simplify_predicate, is_always_false}
use kittle.Predicate.Simplify.Meaning.{evaluate_truth-simplify_predicate}
use kittle.Tier.{is_allow, deny}
use kittle.Tier.Decision.{permitted, resolve_tiered_decision-allowed}
use kittle.Abac.{AbacPolicyBundle, is_for_action, policy_view, policy_matches_record}
use kittle.Abac.Decision.{relevant_to_action, evaluate_abac_record_action}
use kittle.Abac.Scope.Soundness.{
  AllKnown, scope-deny, build_action_scope_sound, build_action_scope-exact,
}
use kittle.Abac.Collection.{
  AbacCollectionDecision, has_allow_policy, collection_decision,
  evaluate_abac_action_for_collection,
}

module _ {N : Type 0} ⦃num : Numbers N⦄ (bundle : AbacPolicyBundle N) (action : String)
    (r : Props N) where
  predicate-simplify :
      (p : PredicateNode N) → evaluate_predicate r (simplify_predicate p) ≡ evaluate_predicate r p
  unfolding evaluate_predicate
  predicate-simplify p = ap is_known_true (evaluate_truth-simplify_predicate r p)

  decision-scope : (p : PredicateNode N) → (collection_decision bundle action p).scope ≡ p
  unfolding collection_decision
  decision-scope p = ground arith

  always_false-predicate :
      (p : PredicateNode N) → is_always_false p ≡ true → evaluate_predicate r p ≡ false
  unfolding is_always_false evaluate_predicate evaluate_truth
  always_false-predicate (literal b) h = ground arith
  always_false-predicate (condition c) h = cc
  always_false-predicate (and ps) h = cc
  always_false-predicate (or ps) h = cc
  always_false-predicate (not p) h = cc

  denied-no_allow :
      (p : PredicateNode N)
      → (collection_decision bundle action p).allowed ≡ false
      → is_always_false p ≡ false
      → has_allow_policy bundle action ≡ false
  unfolding collection_decision
  denied-no_allow p off something = ground arith

  no_allow-denied :
      has_allow_policy bundle action ≡ false
      → bundle.default_effect ≡ deny
      → (evaluate_abac_record_action bundle action r).allowed ≡ false
  unfolding evaluate_abac_record_action
  no_allow-denied none' d =
      let relevant = relevant_to_action bundle action in
      let no_allow : any (λ p. is_allow p.effect) relevant ≡ false =
        any-filter (λ p. is_allow p.effect) (is_for_action bundle.module_key action) bundle.policies
        ∙ none' in
      let no' : permitted policy_view (policy_matches_record r) relevant ≡ false =
        any-eq-false _ relevant (λ p m.
          let f = false_of_any (λ p. is_allow p.effect) relevant no_allow m in ground arith) in
      ground (
        arith,
        resolve_tiered_decision-allowed policy_view (policy_matches_record r) bundle.default_effect
            relevant,
      )

-- A row that the scope of a collection decision admits is one that the decision on that record
-- allows.
pub evaluate_abac_action_for_collection_sound :
    {N : Type 0} ⦃num : Numbers N⦄ (bundle : AbacPolicyBundle N) (action : String) (r : Props N)
    {d : AbacCollectionDecision N}
    → evaluate_abac_action_for_collection bundle action ≡ ok d
    → evaluate_predicate r d.scope ≡ true
    → (evaluate_abac_record_action bundle action r).allowed ≡ true
unfolding evaluate_abac_action_for_collection
evaluate_abac_action_for_collection_sound bundle action r {d} decided admitted =
    let (scope, built, same) = >>=-eq-ok _ _ decided in
    let e : simplify_predicate scope.filter ≡ d.scope =
      sym (decision-scope bundle action r (simplify_predicate scope.filter))
      ∙ ap (λ c. c.scope) (ok-injective same) in
    build_action_scope_sound bundle action r built (
      sym (predicate-simplify bundle action r scope.filter)
      ∙ ap (evaluate_predicate r) e
      ∙ admitted)

-- A collection decision that does not allow denies every record at which no relevant condition is
-- UNKNOWN.
pub evaluate_abac_action_for_collection-denied :
    {N : Type 0} ⦃num : Numbers N⦄ (bundle : AbacPolicyBundle N) (action : String) (r : Props N)
    {d : AbacCollectionDecision N}
    → evaluate_abac_action_for_collection bundle action ≡ ok d
    → d.allowed ≡ false
    → AllKnown r (relevant_to_action bundle action)
    → (evaluate_abac_record_action bundle action r).allowed ≡ false
unfolding evaluate_abac_action_for_collection
evaluate_abac_action_for_collection-denied bundle action r {d} decided denied known =
    let (scope, built, same) = >>=-eq-ok _ _ decided in
    let simplified = simplify_predicate scope.filter in
    let off : (collection_decision bundle action simplified).allowed ≡ false =
      ap (λ c. c.allowed) (ok-injective same) ∙ denied in
    elim (Bool-cases (is_always_false simplified)) [
      | inl nothing ↦
          sym (build_action_scope-exact bundle action r built known)
          ∙ sym (predicate-simplify bundle action r scope.filter)
          ∙ always_false-predicate bundle action r simplified nothing
      | inr something ↦
          no_allow-denied bundle action r (denied-no_allow bundle action r simplified off something)
            (scope-deny bundle action built)
    ]
