-- ===== src/Tier/Outcome/Agreement.antt =====
-- The outcome expression against the tier decision, for any evaluation of expressions into the
-- three truths that respects the operations.
use kittle.Base.{
  ℤ, ◌≡◌, refl, sym, ◌∙◌, ap, ap₂, fun_ext, Bool, true, false, negate, ◌&&◌, ◌||◌, none, some, List,
  [], ◌∷◌, map, filter, any, is_empty-filter, All, arith, if◌then◌else◌,
}
use kittle.Predicate.Eval.{Truth, and3, not3, is_known_true}
use kittle.Predicate.Truth.{meet_all}
use kittle.Tier.{
  deny, is_deny, is_allow, Policies, tier_of, decide_tier, unmatched, decide_from,
  resolve_tiered_decision, sorted_priorities,
}
use kittle.Tier.Outcome.{
  TieredExpressionOps, tier_clause, tier_clauses, build_tiered_policy_outcome,
}
use kittle.Tier.Outcome.Groups.{get_group-group_from, sort_desc-keys}

-- The operations mean the connectives of the three truths.
pub record IsSound {E : Type 0} (ops : TieredExpressionOps E) (eval : E → Truth) : Type 0 where
  pub true_law : eval ops.always_true ≡ some true
  pub false_law : eval ops.always_false ≡ some false
  pub and_law : (es : List E) → eval (ops.and es) ≡ meet_all true (map eval es)
  pub or_law : (es : List E) → eval (ops.or es) ≡ meet_all false (map eval es)
  pub not_law : (e : E) → eval (ops.not e) ≡ not3 (eval e)

-- True or false, and not UNKNOWN.
abbrev pub is_known : Truth → Bool
is_known none = false
is_known (some _) = true

module _ {P E : Type 0} (view : Policies P) (get_match : P → E) (eval : E → Truth) where
  open view use {get_effect}

  abbrev truth_of : P → Truth
  truth_of p = eval (get_match p)

  abbrev pub holds : P → Bool
  holds p = is_known_true (truth_of p)

  -- The disjunction of the matches of those that pass a test.
  abbrev some_of : (P → Bool) → List P → Truth
  some_of test tier = meet_all false (map eval (map get_match (filter test tier)))

  abbrev every : P → Bool
  every _ = true

  some_of-known_true :
      (test : P → Bool) (tier : List P)
      → is_known_true (some_of test tier) ≡ any (λ p. test p && holds p) tier
  some_of-known_true test [] = refl
  some_of-known_true test (p ∷ ps) = ground (arith, some_of-known_true test ps)

  some_of-known :
      (test : P → Bool) (tier : List P)
      → All (λ p. is_known (truth_of p) ≡ true) tier
      → is_known (some_of test tier) ≡ true
  some_of-known test [] h = refl
  some_of-known test (p ∷ ps) h = ground (arith, some_of-known test ps)

  All-tier_of :
      (k : ℤ) (policies : List P)
      → All (λ p. is_known (truth_of p) ≡ true) policies
      → All (λ p. is_known (truth_of p) ≡ true) (tier_of view k policies)
  All-tier_of k [] h = tt
  All-tier_of k (p ∷ ps) h = ground (arith, All-tier_of k ps)

  filter-every : (ps : List P) → filter every ps ≡ ps
  filter-every [] = refl
  filter-every (p ∷ ps) = ap (λ l. p ∷ l) (filter-every ps)

  -- A tier's matches and denies as tests on the tier.
  abbrev allows_hold : List P → Bool
  allows_hold tier = any (λ p. is_allow (get_effect p) && holds p) tier

  abbrev denies_hold : List P → Bool
  denies_hold tier = any (λ p. negate (is_allow (get_effect p)) && holds p) tier

  any_hold : (tier : List P) → any holds tier ≡ (allows_hold tier || denies_hold tier)
  any_hold [] = refl
  any_hold (p ∷ ps) = ground (arith, any_hold ps)

  any-every : (tier : List P) → any (λ p. every p && holds p) tier ≡ any holds tier
  any-every tier = refl

  any_deny :
      (tier : List P) → any (λ p. is_deny (get_effect p)) (filter holds tier) ≡ denies_hold tier
  any_deny [] = refl
  any_deny (p ∷ ps) = ground (arith, any_deny ps)

  -- One round of the decision's walk.
  decide_from-cons :
      (policies : List P) (k : ℤ) (ks : List ℤ)
      → (decide_from view holds deny policies (k ∷ ks)).allowed ≡ (
          if any holds (tier_of view k policies)
          then negate (denies_hold (tier_of view k policies))
          else (decide_from view holds deny policies ks).allowed)
  unfolding decide_from decide_tier
  decide_from-cons policies k ks =
      let tier = tier_of view k policies in
      ground (
        arith,
        is_empty-filter holds tier,
        is_empty-filter (λ p. is_deny (get_effect p)) (filter holds tier),
        any_deny tier,
      )

  module _ (ops : TieredExpressionOps E) (laws : IsSound ops eval) where
    tier_clause-truth :
        (nh : E) (tier : List P)
        → eval (tier_clause view ops get_match nh tier)
          ≡ and3 (eval nh) (
              and3
                (some_of (λ p. is_allow (get_effect p)) tier)
                (and3 (not3 (some_of (λ p. negate (is_allow (get_effect p))) tier)) (some true)))
    unfolding tier_clause
    tier_clause-truth nh tier = laws.and_law _ ∙ (λ i. and3 (eval nh) (
        and3 (laws.or_law (map get_match (filter (λ p. is_allow (get_effect p)) tier)) i)
          (and3 (tail_truth i) (some true))))
      where
        tail_truth :
            eval (
              ops.not
                (ops.or (map get_match (filter (λ p. negate (is_allow (get_effect p))) tier))))
            ≡ not3 (some_of (λ p. negate (is_allow (get_effect p))) tier)
        tail_truth = laws.not_law _ ∙ ap not3 (laws.or_law _)

    next_truth :
        (nh : E) (tier : List P)
        → eval (ops.and (nh ∷ ops.not (ops.or (map get_match tier)) ∷ []))
          ≡ and3 (eval nh) (and3 (not3 (some_of every tier)) (some true))
    next_truth nh tier = laws.and_law _ ∙ (λ i. and3 (eval nh) (and3 (none_truth i) (some true)))
      where
        none_truth : eval (ops.not (ops.or (map get_match tier))) ≡ not3 (some_of every tier)
        none_truth =
            laws.not_law _
            ∙ ap not3 (
                laws.or_law _
                ∙ ap (λ l. meet_all false (map eval (map get_match l))) (sym (filter-every tier)))

    abbrev clauses_truth : List P → E → List ℤ → Truth
    clauses_truth policies nh ks =
        meet_all false
          (map eval (tier_clauses view ops get_match (λ k. tier_of view k policies) nh ks))

    -- A clause that is true lies in the tier that decides, and that tier allows.
    clauses_sound :
        (policies : List P) (nh : E) (ks : List ℤ)
        → is_known_true (clauses_truth policies nh ks) ≡ true
        → (is_known_true (eval nh) ≡ true)
          × ((decide_from view holds deny policies ks).allowed ≡ true)
    unfolding tier_clauses
    clauses_sound policies nh [] h = cc
    clauses_sound policies nh (k ∷ ks) h =
        let tier = tier_of view k policies in
        let next = ops.and (nh ∷ ops.not (ops.or (map get_match tier)) ∷ []) in
        ground (
          arith,
          tier_clause-truth nh tier,
          next_truth nh tier,
          decide_from-cons policies k ks,
          some_of-known_true (λ p. is_allow (get_effect p)) tier,
          some_of-known_true (λ p. negate (is_allow (get_effect p))) tier,
          some_of-known_true every tier,
          any_hold tier,
          clauses_sound policies next ks,
        )

    -- Where every match is known, the clauses say what the walk decides.
    clauses-exact :
        (policies : List P) (nh : E) (ks : List ℤ)
        → All (λ p. is_known (truth_of p) ≡ true) policies
        → is_known (eval nh) ≡ true
        → is_known_true (clauses_truth policies nh ks)
          ≡ (is_known_true (eval nh) && (decide_from view holds deny policies ks).allowed)
    unfolding tier_clauses
    clauses-exact policies nh [] known nh_known = unfold decide_from unmatched in ground arith
    clauses-exact policies nh (k ∷ ks) known nh_known =
        let tier = tier_of view k policies in
        let next = ops.and (nh ∷ ops.not (ops.or (map get_match tier)) ∷ []) in
        let tier_known = All-tier_of k policies known in
        ground (
          arith,
          tier_clause-truth nh tier,
          next_truth nh tier,
          decide_from-cons policies k ks,
          some_of-known_true (λ p. is_allow (get_effect p)) tier,
          some_of-known_true (λ p. negate (is_allow (get_effect p))) tier,
          some_of-known_true every tier,
          some_of-known (λ p. is_allow (get_effect p)) tier tier_known,
          some_of-known (λ p. negate (is_allow (get_effect p))) tier tier_known,
          some_of-known every tier tier_known,
          any_hold tier,
          clauses-exact policies next ks known,
        )

    -- The expression of a policy list that is not empty.
    outcome_cons :
        (p : P) (ps : List P)
        → eval (build_tiered_policy_outcome view ops get_match (p ∷ ps))
          ≡ clauses_truth (p ∷ ps) ops.always_true (sorted_priorities view (p ∷ ps))
    unfolding build_tiered_policy_outcome
    outcome_cons p ps =
        laws.or_law _
        ∙ ap₂
            (λ tier_at ks.
              meet_all false
                (map eval (tier_clauses view ops get_match tier_at ops.always_true ks)))
            (fun_ext (λ k. get_group-group_from view k [] (p ∷ ps))) (sort_desc-keys view (p ∷ ps))

-- If the operations mean the three-valued connectives, then where the outcome expression is true
-- the tier decision, with deny by default, allows.
pub build_tiered_policy_outcome_sound :
    {P E : Type 0} (view : Policies P) (get_match : P → E) (eval : E → Truth)
    (ops : TieredExpressionOps E)
    → IsSound ops eval
    → (policies : List P)
    → eval (build_tiered_policy_outcome view ops get_match policies) ≡ some true
    → (resolve_tiered_decision view (holds view get_match eval) deny policies).allowed ≡ true
build_tiered_policy_outcome_sound view get_match eval ops laws [] h =
    unfold build_tiered_policy_outcome in ground (arith, laws.false_law)
build_tiered_policy_outcome_sound view get_match eval ops laws (p ∷ ps) h =
    unfold resolve_tiered_decision in
    (clauses_sound view get_match eval ops laws (p ∷ ps) ops.always_true
      (sorted_priorities view (p ∷ ps))
      (ap is_known_true (sym (outcome_cons view get_match eval ops laws p ps) ∙ h))).1

-- If the operations mean the three-valued connectives and no match is UNKNOWN, the outcome
-- expression is true exactly when the tier decision, with deny by default, allows.
pub build_tiered_policy_outcome-exact :
    {P E : Type 0} (view : Policies P) (get_match : P → E) (eval : E → Truth)
    (ops : TieredExpressionOps E)
    → IsSound ops eval
    → (policies : List P) → All (λ p. is_known (eval (get_match p)) ≡ true) policies
    → is_known_true (eval (build_tiered_policy_outcome view ops get_match policies))
      ≡ (resolve_tiered_decision view (holds view get_match eval) deny policies).allowed
build_tiered_policy_outcome-exact view get_match eval ops laws [] known =
    unfold build_tiered_policy_outcome resolve_tiered_decision unmatched in
    ground (arith, laws.false_law)
build_tiered_policy_outcome-exact view get_match eval ops laws (p ∷ ps) known =
    unfold resolve_tiered_decision in
    (ap is_known_true (outcome_cons view get_match eval ops laws p ps)
      ∙ clauses-exact view get_match eval ops laws (p ∷ ps) ops.always_true
          (sorted_priorities view (p ∷ ps)) known (ground (arith, laws.true_law))
      ∙ ap
          (λ t.
            is_known_true t
            && (decide_from view (holds view get_match eval) deny (p ∷ ps)
                (sorted_priorities view (p ∷ ps))).allowed)
          laws.true_law)
