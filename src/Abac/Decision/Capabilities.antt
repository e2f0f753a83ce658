-- ===== src/Abac/Decision/Capabilities.antt =====
-- Global capabilities against the capabilities on one record, and the list of those granted.
use kittle.Base.{
  String, eq_iff, str_mem, ◌≡◌, refl, sym, ◌∙◌, ap, Bool, true, false, negate, ◌&&◌, ◌||◌, some,
  List, [], ◌∷◌, ◌++◌, filter, any, any-filter, any-congr, str_mem-append, str_mem-filter,
  mem_of_any, Memᴰ, All, mem_of_All, arith, Bool-cases, inl, inr,
}
use kittle.Js.{Numbers, Props}
use kittle.Predicate.{PredicateNode, literal, condition, and, or, not}
use kittle.Predicate.Eval.{evaluate_predicate, evaluate_truth, is_known_true}
use kittle.Predicate.Simplify.{simplify_predicate, is_always_true}
use kittle.Predicate.Simplify.Meaning.{evaluate_truth-simplify_predicate}
use kittle.Tier.{deny, is_allow}
use kittle.Tier.Decision.{permitted, permits, blocks, resolve_tiered_decision-allowed}
use kittle.Tier.Decision.Views.{resolve_tiered_decision-congr}
use kittle.Abac.{
  NormalizedAbacPolicy, AbacPolicyBundle, policy_view, policy_matches_record, is_for_capability,
}
use kittle.Abac.Decision.{
  add_all, capability_keys, decision_of, relevant_to_capability, is_unconditional,
  evaluate_global_abac_capability, has_global_abac_capability, resolve_granted_global_capabilities,
  evaluate_abac_record_capability,
}

module _ {N : Type 0} where
  always_true-truth :
      ⦃num : Numbers N⦄ (r : Props N) (p : PredicateNode N)
      → is_always_true p ≡ true
      → evaluate_truth r p ≡ some true
  unfolding is_always_true evaluate_truth
  always_true-truth r (literal b) h = ground arith
  always_true-truth r (condition c) h = ground arith
  always_true-truth r (and ps) h = ground arith
  always_true-truth r (or ps) h = ground arith
  always_true-truth r (not p) h = ground arith

  -- An unconditional policy matches every record.
  unconditional-matches :
      ⦃num : Numbers N⦄ (r : Props N) (p : NormalizedAbacPolicy N)
      → is_unconditional p ≡ true
      → policy_matches_record r p ≡ true
  unfolding evaluate_predicate
  unconditional-matches r p h = ap is_known_true (
      sym (evaluate_truth-simplify_predicate r p.compiled_conditions)
      ∙ always_true-truth r (simplify_predicate p.compiled_conditions) h)

  module _ (c u : NormalizedAbacPolicy N → Bool) (ps : List (NormalizedAbacPolicy N)) where
    abbrev every : NormalizedAbacPolicy N → Bool
    every _ = true

    any-twice :
        (test : NormalizedAbacPolicy N → Bool)
        → any test (filter c (filter u (filter u ps))) ≡ any (λ p. u p && test p) (filter c ps)
    any-twice test =
        any-filter test c (filter u (filter u ps))
        ∙ any-filter (λ p. c p && test p) u (filter u ps)
        ∙ any-filter (λ p. u p && (c p && test p)) u ps
        ∙ any-congr (λ p. u p && (u p && (c p && test p))) (λ p. c p && (u p && test p)) ps
            (λ p m. ground arith)
        ∙ sym (any-filter (λ p. u p && test p) c ps)

    -- Dropping the policies that do not match is the same as not matching them.
    permitted-filter :
        permitted policy_view every (filter c (filter u (filter u ps)))
        ≡ permitted policy_view u (filter c ps)
    permitted-filter =
        any-twice (permits policy_view every (filter c (filter u (filter u ps))))
        ∙ any-congr _ _ (filter c ps) (λ p m.
          ap (λ b. u p && (is_allow p.effect && negate b)) (any-twice (blocks policy_view every p))
          ∙ regroup (u p) (is_allow p.effect) (negate (any (blocks policy_view u p) (filter c ps))))
      where
        regroup : (a b d : Bool) → (a && (b && d)) ≡ (a && b && d)
        regroup a b d = ground arith

  module _ (bundle : AbacPolicyBundle N) (key : String) where
    abbrev for_key : NormalizedAbacPolicy N → Bool
    for_key = is_for_capability bundle.module_key key

    has_global-permitted :
        has_global_abac_capability bundle key
        ≡ permitted policy_view is_unconditional (relevant_to_capability bundle key)
    unfolding has_global_abac_capability evaluate_global_abac_capability decision_of
    has_global-permitted =
        resolve_tiered_decision-allowed policy_view every' deny
          (filter for_key (filter is_unconditional (filter is_unconditional bundle.policies)))
        ∙ no_default _
        ∙ permitted-filter for_key is_unconditional bundle.policies
      where
        every' : NormalizedAbacPolicy N → Bool
        every' _ = true

        no_default : (b : Bool) → (b || false) ≡ b
        no_default b = ground arith

    -- If no relevant policy with a condition matches the record, then the capability on the record is
    -- the global capability.
    pub evaluate_abac_record_capability-global :
        ⦃num : Numbers N⦄ (r : Props N)
        → All
            (λ p. (is_unconditional p || negate (policy_matches_record r p)) ≡ true)
            (relevant_to_capability bundle key)
        → (evaluate_abac_record_capability bundle key r).allowed
          ≡ has_global_abac_capability bundle key
    unfolding evaluate_abac_record_capability decision_of
    evaluate_abac_record_capability-global r h =
        resolve_tiered_decision-congr policy_view (policy_matches_record r) is_unconditional deny
          (relevant_to_capability bundle key) same
        ∙ resolve_tiered_decision-allowed policy_view is_unconditional deny
            (relevant_to_capability bundle key)
        ∙ no_default _
        ∙ sym has_global-permitted
      where
        no_default : (b : Bool) → (b || false) ≡ b
        no_default b = ground arith

        same :
            (p : NormalizedAbacPolicy N)
            → Memᴰ p (relevant_to_capability bundle key)
            → policy_matches_record r p ≡ is_unconditional p
        same p m =
            let quiet =
              mem_of_All (λ p. (is_unconditional p || negate (policy_matches_record r p)) ≡ true) m
                h in
            elim (Bool-cases (is_unconditional p)) [
              | inl yes' ↦ unconditional-matches r p yes' ∙ sym yes'
              | inr conditional ↦ ground arith
            ]

str_mem-add_all :
    (k : String) (ss seen : List String)
    → str_mem k (add_all ss seen) ≡ (str_mem k seen || str_mem k ss)
str_mem-add_all k [] seen = ground arith
str_mem-add_all k (s ∷ ss) seen = ground (
  arith,
  str_mem-add_all k ss seen,
  str_mem-add_all k ss (seen ++ (s ∷ [])),
  str_mem-append k seen (s ∷ []),
  eq_iff s k,
)

module _ {N : Type 0} where
  str_mem-capability_keys :
      (k module_key : String) (ps : List (NormalizedAbacPolicy N)) (keys : List String)
      → str_mem k (capability_keys module_key ps keys)
        ≡ (str_mem k keys || any (is_for_capability module_key k) ps)
  unfolding capability_keys
  str_mem-capability_keys k module_key [] keys = ground arith
  str_mem-capability_keys k module_key (p ∷ ps) keys = ground (
    arith,
    str_mem-capability_keys k module_key ps keys,
    str_mem-capability_keys k module_key ps (add_all p.payload.capabilities keys),
    str_mem-add_all k p.payload.capabilities keys,
  )

  granted-any :
      (bundle : AbacPolicyBundle N) (k : String)
      → has_global_abac_capability bundle k ≡ true
      → any (is_for_capability bundle.module_key k) bundle.policies ≡ true
  granted-any bundle k h =
      let (p, m, e) =
        mem_of_any _ (relevant_to_capability bundle k) (sym (has_global-permitted bundle k) ∙ h) in
      any-of_filter (is_for_capability bundle.module_key k) bundle.policies m
    where
      any-of_filter :
          (test : NormalizedAbacPolicy N → Bool) {p : NormalizedAbacPolicy N}
          (ps : List (NormalizedAbacPolicy N))
          → Memᴰ p (filter test ps)
          → any test ps ≡ true
      any-of_filter test [] m = elim m [ ]
      any-of_filter test (q ∷ ps) m = elim (Bool-cases (test q)) [
        | inl passes ↦ rw passes refl
        | inr fails ↦ rw fails (any-of_filter test ps (rw fails at m))
      ]

  -- The list of granted capabilities holds a capability exactly when the bundle grants it globally.
  pub str_mem-resolve_granted_global_capabilities :
      (bundle : AbacPolicyBundle N) (k : String)
      → str_mem k (resolve_granted_global_capabilities bundle) ≡ has_global_abac_capability bundle k
  unfolding resolve_granted_global_capabilities
  str_mem-resolve_granted_global_capabilities bundle k =
      str_mem-filter k (has_global_abac_capability bundle)
        (capability_keys bundle.module_key bundle.policies [])
      ∙ elim (Bool-cases (has_global_abac_capability bundle k)) [
        | inl granted ↦ rw granted (
            str_mem-capability_keys k bundle.module_key bundle.policies []
            ∙ granted-any bundle k granted)
        | inr refused ↦ rw refused refl
      ]
