-- ===== src/Tier/Decision/Views.antt =====
-- What the decision does not depend on: the order of the policies, how they are seen, and matches
-- elsewhere.
use kittle.Base.{
  ℤ, ltb_ℤ, ◌==ℤ◌, ◌≡◌, refl, sym, ◌∙◌, ap, ap₂, fun_ext, Bool, true, false, negate, ◌&&◌, ◌||◌,
  List, [], ◌∷◌, map, any, any_of_mem, mem_of_any, any-congr, arith, Bool-eq_iff, Memᴰ,
}
use kittle.Tier.{
  Effect, deny, is_deny, is_allow, Policies, sorted_priorities, Reason, decide_tier, unmatched,
  decide_from, resolve_tiered_decision,
}
use kittle.Tier.Decision.{blocks, permits, permitted, resolve_tiered_decision-allowed}

any_of_sub :
    {P : Type 0} (test : P → Bool) (ps qs : List P)
    → ((x : P) → Memᴰ x ps → Memᴰ x qs)
    → any test ps ≡ true
    → any test qs ≡ true
any_of_sub test ps qs sub h = let (p, m, e) = mem_of_any test ps h in any_of_mem test (sub p m) e

module _ {P : Type 0} (ps qs : List P) (sub : (x : P) → Memᴰ x ps → Memᴰ x qs)
    (sup : (x : P) → Memᴰ x qs → Memᴰ x ps) where
  any-same_members : (test : P → Bool) → any test ps ≡ any test qs
  any-same_members test = Bool-eq_iff _ _ (any_of_sub test ps qs sub, any_of_sub test qs ps sup)

  permitted-same_members :
      (view : Policies P) (is_match : P → Bool)
      → permitted view is_match ps ≡ permitted view is_match qs
  permitted-same_members view is_match =
      ap (λ f. any f ps)
        (fun_ext (λ p.
          ap (λ b. is_match p && is_allow (view.get_effect p) && negate b)
            (any-same_members (blocks view is_match p))))
      ∙ any-same_members (permits view is_match qs)

-- Neither the order nor the repetition of policies changes what is allowed.
pub resolve_tiered_decision-same_members :
    {P : Type 0} (view : Policies P) (is_match : P → Bool) (default_effect : Effect)
    (ps qs : List P)
    → ((x : P) → Memᴰ x ps → Memᴰ x qs)
    → ((x : P) → Memᴰ x qs → Memᴰ x ps)
    → (resolve_tiered_decision view is_match default_effect ps).allowed
      ≡ (resolve_tiered_decision view is_match default_effect qs).allowed
resolve_tiered_decision-same_members view is_match default_effect ps qs sub sup =
    resolve_tiered_decision-allowed view is_match default_effect ps
    ∙ ap₂ (λ a b. a || (is_allow default_effect && negate b))
        (permitted-same_members ps qs sub sup view is_match)
        (any-same_members ps qs sub sup is_match)
    ∙ sym (resolve_tiered_decision-allowed view is_match default_effect qs)

any-map :
    {P Q : Type 0} (test : Q → Bool) (f : P → Q) (ps : List P)
    → any test (map f ps) ≡ any (λ p. test (f p)) ps
any-map test f [] = refl
any-map test f (p ∷ ps) = ap (λ b. test (f p) || b) (any-map test f ps)

-- The policies may be seen through a function that keeps their priorities, effects and matches.
pub resolve_tiered_decision-map :
    {P Q : Type 0} (view : Policies Q) (is_match : Q → Bool) (default_effect : Effect) (f : P → Q)
    (ps : List P)
    → (resolve_tiered_decision view is_match default_effect (map f ps)).allowed
      ≡ (resolve_tiered_decision
          (record {
            get_priority = λ p. view.get_priority (f p);
            get_effect = λ p. view.get_effect (f p);
          })
          (λ p. is_match (f p))
          default_effect
          ps).allowed
resolve_tiered_decision-map view is_match default_effect f ps =
    resolve_tiered_decision-allowed view is_match default_effect (map f ps)
    ∙ ap₂ (λ a b. a || (is_allow default_effect && negate b))
        (any-map (permits view is_match (map f ps)) f ps
          ∙ ap (λ g. any g ps)
              (fun_ext (λ p.
                ap (λ b. is_match (f p) && is_allow (view.get_effect (f p)) && negate b)
                  (any-map (blocks view is_match (f p)) f ps))))
        (any-map is_match f ps)
    ∙ sym (resolve_tiered_decision-allowed _ _ default_effect ps)

-- The decision reads a match only at the policies that it is given.
pub resolve_tiered_decision-congr :
    {P : Type 0} (view : Policies P) (m m' : P → Bool) (default_effect : Effect) (ps : List P)
    → ((p : P) → Memᴰ p ps → m p ≡ m' p)
    → (resolve_tiered_decision view m default_effect ps).allowed
      ≡ (resolve_tiered_decision view m' default_effect ps).allowed
resolve_tiered_decision-congr view m m' default_effect ps same =
    resolve_tiered_decision-allowed view m default_effect ps
    ∙ ap₂ (λ a b. a || (is_allow default_effect && negate b))
        (any-congr _ _ ps (λ p mp.
          ap₂ (λ a b. a && is_allow (view.get_effect p) && negate b) (same p mp)
            (any-congr _ _ ps (λ q mq.
              ap
                (λ a.
                  a
                  && (ltb_ℤ (view.get_priority p) (view.get_priority q)
                      || ((view.get_priority q ==ℤ view.get_priority p)
                          && is_deny (view.get_effect q))))
                (same q mq)))))
        (any-congr m m' ps same)
    ∙ sym (resolve_tiered_decision-allowed view m' default_effect ps)

-- With deny by default, what is allowed is told by the reason.
abbrev pub allows_by : Reason → Bool
allows_by Reason.allow_policy_matched = true
allows_by _ = false

module _ {P : Type 0} (view : Policies P) (is_match : P → Bool) (policies : List P) where
  decide_from-reason :
      (ks : List ℤ)
      → allows_by (decide_from view is_match deny policies ks).reason
        ≡ (decide_from view is_match deny policies ks).allowed
  unfolding decide_from decide_tier unmatched
  decide_from-reason [] = refl
  decide_from-reason (k ∷ ks) = ground (arith, decide_from-reason ks)

  pub resolve_tiered_decision-reason :
      allows_by (resolve_tiered_decision view is_match deny policies).reason
      ≡ (resolve_tiered_decision view is_match deny policies).allowed
  unfolding resolve_tiered_decision unmatched
  resolve_tiered_decision-reason =
      ground (arith, decide_from-reason (sorted_priorities view policies))
