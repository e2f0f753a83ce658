-- ===== src/Abac/Scope/Soundness.antt =====
-- The row filter of an action against the decision on one record.
use kittle.Base.{
  String, Bool, ◌≡◌, refl, sym, ◌∙◌, ap, true, false, some, List, [], ◌∷◌, map, ok, arith, All,
}
use kittle.Js.{Numbers, Props}
use kittle.Predicate.{PredicateNode, not, filters_of}
use kittle.Predicate.Eval.{Truth, is_known_true, evaluate_truth, evaluate_predicate, not3}
use kittle.Predicate.Truth.{
  meet, meet_all, meet_nodes, meet-unit_right, group, evaluate_truth-group, nodes-filters_of,
}
use kittle.Tier.{deny, resolve_tiered_decision}
use kittle.Tier.Decision.Views.{resolve_tiered_decision-map}
use kittle.Tier.Outcome.Agreement.{
  IsSound, is_known, holds, build_tiered_policy_outcome_sound, build_tiered_policy_outcome-exact,
}
use kittle.Abac.{
  NormalizedAbacPolicy, AbacPolicyBundle, AbacReadScope, policy_view, policy_matches_record,
}
use kittle.Abac.Decision.{relevant_to_action, evaluate_abac_record_action}
use kittle.Abac.Scope.{
  Entry, combine_or, combine_and, predicate_ops, entry_view, entry_of, scope_filter,
  build_action_scope,
}

module _ {N : Type 0} ⦃num : Numbers N⦄ (r : Props N) where
  meet_nodes-map :
      (b : Bool) (ps : List (PredicateNode N))
      → meet_nodes r b ps ≡ meet_all b (map (evaluate_truth r) ps)
  meet_nodes-map b [] = refl
  meet_nodes-map b (p ∷ ps) = ap (meet b (evaluate_truth r p)) (meet_nodes-map b ps)

  group-truth :
      (b : Bool) (ps : List (PredicateNode N))
      → evaluate_truth r (group b (filters_of ps)) ≡ meet_all b (map (evaluate_truth r) ps)
  group-truth b ps =
      evaluate_truth-group r b (filters_of ps)
      ∙ ap (meet_nodes r b) (nodes-filters_of ps)
      ∙ meet_nodes-map b ps

  combine_or-truth :
      (ps : List (PredicateNode N))
      → evaluate_truth r (combine_or ps) ≡ meet_all false (map (evaluate_truth r) ps)
  unfolding combine_or
  combine_or-truth [] = group-truth false []
  combine_or-truth (p ∷ []) = sym (meet-unit_right false _)
  combine_or-truth (p ∷ q ∷ ps) = group-truth false (p ∷ q ∷ ps)

  combine_and-truth :
      (ps : List (PredicateNode N))
      → evaluate_truth r (combine_and ps) ≡ meet_all true (map (evaluate_truth r) ps)
  unfolding combine_and
  combine_and-truth [] = group-truth true []
  combine_and-truth (p ∷ []) = sym (meet-unit_right true _)
  combine_and-truth (p ∷ q ∷ ps) = group-truth true (p ∷ q ∷ ps)

  not-truth : (p : PredicateNode N) → evaluate_truth r (not p) ≡ not3 (evaluate_truth r p)
  unfolding evaluate_truth
  not-truth p = refl

  predicate_ops-IsSound : IsSound predicate_ops (evaluate_truth r)
  unfolding predicate_ops
  predicate_ops-IsSound = record {
    true_law = group-truth true [];
    false_law = group-truth false [];
    and_law = combine_and-truth;
    or_law = combine_or-truth;
    not_law = not-truth;
  }

  -- No relevant condition is UNKNOWN at the record.
  abbrev pub AllKnown : List (NormalizedAbacPolicy N) → Type 0
  AllKnown ps = All (λ p. is_known (evaluate_truth r p.compiled_conditions) ≡ true) ps

  AllKnown-map :
      (ps : List (NormalizedAbacPolicy N))
      → AllKnown ps
      → All (λ e. is_known (evaluate_truth r e.match) ≡ true) (map entry_of ps)
  AllKnown-map [] h = tt
  AllKnown-map (p ∷ ps) h = (h.0, AllKnown-map ps h.1)

  abbrev entry_holds : Entry N → Bool
  entry_holds = holds entry_view (λ e. e.match) (evaluate_truth r)

  entries-allowed :
      (ps : List (NormalizedAbacPolicy N))
      → (resolve_tiered_decision entry_view entry_holds deny (map entry_of ps)).allowed
        ≡ (resolve_tiered_decision policy_view (policy_matches_record r) deny ps).allowed
  unfolding evaluate_predicate
  entries-allowed ps = resolve_tiered_decision-map entry_view entry_holds deny entry_of ps

  no_policy :
      (resolve_tiered_decision policy_view (policy_matches_record r) deny []).allowed ≡ false
  no_policy = unfold resolve_tiered_decision in refl

  scope_filter_sound :
      (ps : List (NormalizedAbacPolicy N))
      → evaluate_truth r (scope_filter deny ps) ≡ some true
      → (resolve_tiered_decision policy_view (policy_matches_record r) deny ps).allowed ≡ true
  unfolding scope_filter
  scope_filter_sound [] h = ground (arith, group-truth false [])
  scope_filter_sound (p ∷ ps) h =
      sym (entries-allowed (p ∷ ps))
      ∙ build_tiered_policy_outcome_sound entry_view (λ e. e.match) (evaluate_truth r) predicate_ops
          predicate_ops-IsSound (map entry_of (p ∷ ps)) h

  scope_filter-exact :
      (ps : List (NormalizedAbacPolicy N))
      → AllKnown ps
      → is_known_true (evaluate_truth r (scope_filter deny ps))
        ≡ (resolve_tiered_decision policy_view (policy_matches_record r) deny ps).allowed
  unfolding scope_filter
  scope_filter-exact [] known = ap is_known_true (group-truth false []) ∙ sym no_policy
  scope_filter-exact (p ∷ ps) known =
      build_tiered_policy_outcome-exact entry_view (λ e. e.match) (evaluate_truth r) predicate_ops
        predicate_ops-IsSound (map entry_of (p ∷ ps)) (AllKnown-map (p ∷ ps) known)
      ∙ entries-allowed (p ∷ ps)

module _ {N : Type 0} (bundle : AbacPolicyBundle N) (action : String) {scope : AbacReadScope N}
    (built : build_action_scope bundle action ≡ ok scope) where
  pub scope-deny : bundle.default_effect ≡ deny
  unfolding build_action_scope
  scope-deny = ground arith

  scope-filter :
      scope.filter ≡ scope_filter bundle.default_effect (relevant_to_action bundle action)
  unfolding build_action_scope
  scope-filter = ground arith

-- A row that an action's filter admits is one that the decision on that record allows.
pub build_action_scope_sound :
    {N : Type 0} ⦃num : Numbers N⦄ (bundle : AbacPolicyBundle N) (action : String) (r : Props N)
    {scope : AbacReadScope N}
    → build_action_scope bundle action ≡ ok scope
    → evaluate_predicate r scope.filter ≡ true
    → (evaluate_abac_record_action bundle action r).allowed ≡ true
unfolding evaluate_abac_record_action
build_action_scope_sound bundle action r built admitted =
    let d = scope-deny bundle action built in
    let f = scope-filter bundle action built in
    rw d (
      scope_filter_sound r (relevant_to_action bundle action)
        (unfold evaluate_predicate in is_known_true-eq _ (rw (f, d) at admitted)))
  where
    is_known_true-eq : (t : Truth) → is_known_true t ≡ true → t ≡ some true
    is_known_true-eq t h = ground arith

-- Where no relevant condition is UNKNOWN at the record, the filter admits exactly the rows that
-- the decision allows.
pub build_action_scope-exact :
    {N : Type 0} ⦃num : Numbers N⦄ (bundle : AbacPolicyBundle N) (action : String) (r : Props N)
    {scope : AbacReadScope N}
    → build_action_scope bundle action ≡ ok scope
    → AllKnown r (relevant_to_action bundle action)
    → evaluate_predicate r scope.filter ≡ (evaluate_abac_record_action bundle action r).allowed
unfolding evaluate_abac_record_action
build_action_scope-exact bundle action r built known =
    let d = scope-deny bundle action built in
    let f = scope-filter bundle action built in
    rw (d, f, d)
      (unfold evaluate_predicate in scope_filter-exact r (relevant_to_action bundle action) known)
