-- ===== src/Tier.antt =====
-- packages/core/src/foundation/abacTierDecision.ts: the tiers of a policy list, highest priority
-- first. `Array.from(new Set(…)).sort((a, b) => b - a)` is `sort_desc (distinct …)`.
pub mod Outcome
pub mod Priorities
pub mod Decision
use kittle.Base.{
  ℤ, ltb_ℤ, ◌==ℤ◌, Bool, true, false, negate, Option, none, some, List, [], ◌∷◌, map, filter,
  is_empty, if◌then◌else◌,
}

pub data Effect : Type 0 where
  allow deny : Effect

abbrev pub is_deny : Effect → Bool
is_deny deny = true
is_deny allow = false

abbrev pub is_allow : Effect → Bool
is_allow allow = true
is_allow deny = false

pub data Reason : Type 0 where
  allow_policy_matched deny_policy_matched no_policy_matched no_relevant_policy : Reason

pub record TierDecision (P : Type 0) : Type 0 where
  pub allowed : Bool
  pub reason : Reason
  pub priority : Option ℤ
  pub matched_policies : List P
  pub deciding_policies : List P

-- The members of a `Set` in the order of their first insertion.
unfoldable pub distinct : List ℤ → List ℤ
distinct [] = []
distinct (k ∷ ks) = k ∷ filter (λ j. negate (j ==ℤ k)) (distinct ks)

unfoldable pub insert_desc : ℤ → List ℤ → List ℤ
insert_desc k [] = k ∷ []
insert_desc k (j ∷ js) = if ltb_ℤ j k then k ∷ j ∷ js else j ∷ insert_desc k js

unfoldable pub sort_desc : List ℤ → List ℤ
unfolding insert_desc
sort_desc [] = []
sort_desc (k ∷ ks) = insert_desc k (sort_desc ks)

-- The arguments that a call passes as functions.
pub record Policies (P : Type 0) : Type 0 where
  pub get_priority : P → ℤ
  pub get_effect : P → Effect

module _ {P : Type 0} (view : Policies P) where
  open view use {get_priority, get_effect}

  abbrev pub tier_of : ℤ → List P → List P
  tier_of k = filter (λ p. get_priority p ==ℤ k)

  abbrev pub denies_of : List P → List P
  denies_of = filter (λ p. is_deny (get_effect p))

  pub sorted_priorities : List P → List ℤ
  unfolding sort_desc distinct
  sorted_priorities policies = sort_desc (distinct (map get_priority policies))

  unmatched : Effect → Reason → TierDecision P
  unmatched default_effect reason = record {
    allowed = is_allow default_effect;
    reason = reason;
    priority = none;
    matched_policies = [];
    deciding_policies = [];
  }

  -- What a tier with the given matches decides.
  decide_tier : ℤ → List P → TierDecision P
  decide_tier k matched =
      let denies = denies_of matched in
      if is_empty denies
      then record {
        allowed = true;
        reason = Reason.allow_policy_matched;
        priority = some k;
        matched_policies = matched;
        deciding_policies = matched;
      }
      else record {
        allowed = false;
        reason = Reason.deny_policy_matched;
        priority = some k;
        matched_policies = matched;
        deciding_policies = denies;
      }

  module _ (is_match : P → Bool) (default_effect : Effect) where
    -- The loop over the priorities; an unmatched tier is passed over.
    decide_from : List P → List ℤ → TierDecision P
    unfolding unmatched decide_tier
    decide_from policies [] = unmatched default_effect Reason.no_policy_matched
    decide_from policies (k ∷ ks) =
        let matched = filter is_match (tier_of k policies) in
        let next = decide_from policies ks in
        if is_empty matched then next else decide_tier k matched

    unfoldable pub resolve_tiered_decision : List P → TierDecision P
    unfolding unmatched decide_from sorted_priorities
    resolve_tiered_decision policies =
        if is_empty policies
        then unmatched default_effect Reason.no_relevant_policy
        else decide_from policies (sorted_priorities policies)
