-- ===== src/Tier/Outcome.antt =====
-- packages/core/src/foundation/policyTierResolver.ts: the outcome of the tiers as one expression,
-- in any language of expressions with the operations of `TieredExpressionOps`.
use kittle.Base.{ℤ, ◌==ℤ◌, Bool, negate, List, [], ◌∷◌, ◌++◌, map, filter, is_empty, if◌then◌else◌}
use kittle.Tier.{Policies, is_allow, sort_desc}
pub mod Groups
pub mod Agreement

pub record TieredExpressionOps (E : Type 0) : Type 0 where
  pub always_true : E
  pub always_false : E
  pub and : List E → E
  pub or : List E → E
  pub not : E → E

-- `Map<number, TPolicy[]>`, in the order of insertion.
abbrev pub Groups : Type 0 → Type 0
Groups P = List (ℤ × List P)

module _ {P : Type 0} where
  -- `groupedByPriority.get(priority) ?? []`
  abbrev pub get_group : ℤ → Groups P → List P
  get_group k [] = []
  get_group k ((j, tier) ∷ groups) = if j ==ℤ k then tier else get_group k groups

  abbrev pub keys : Groups P → List ℤ
  keys groups = map (λ g. g.0) groups

  -- Pushes to the tier at hand, or sets a new one.
  pub add_to_group : ℤ → P → Groups P → Groups P
  add_to_group k p [] = (k, p ∷ []) ∷ []
  add_to_group k p ((j, tier) ∷ groups) =
      if j ==ℤ k then (j, tier ++ p ∷ []) ∷ groups else (j, tier) ∷ add_to_group k p groups

module _ {P : Type 0} (view : Policies P) where
  open view use {get_priority, get_effect}

  unfoldable pub group_from : Groups P → List P → Groups P
  unfolding add_to_group
  group_from groups [] = groups
  group_from groups (p ∷ ps) = group_from (add_to_group (get_priority p) p groups) ps

  module _ {E : Type 0} (ops : TieredExpressionOps E) (get_match : P → E) where
    tier_clause : E → List P → E
    tier_clause no_higher_tier_matched tier =
        let allows = map get_match (filter (λ p. is_allow (get_effect p)) tier) in
        let denies = map get_match (filter (λ p. negate (is_allow (get_effect p))) tier) in
        ops.and (no_higher_tier_matched ∷ ops.or allows ∷ ops.not (ops.or denies) ∷ [])

    -- `allowAtTierClauses`, from the priorities that are left.
    tier_clauses : (ℤ → List P) → E → List ℤ → List E
    unfolding tier_clause
    tier_clauses tier_at no_higher_tier_matched [] = []
    tier_clauses tier_at no_higher_tier_matched (k ∷ ks) =
        tier_clause no_higher_tier_matched (tier_at k)
        ∷ tier_clauses tier_at
            (ops.and (no_higher_tier_matched ∷ ops.not (ops.or (map get_match (tier_at k))) ∷ []))
            ks

    unfoldable pub build_tiered_policy_outcome : List P → E
    unfolding group_from tier_clauses sort_desc
    build_tiered_policy_outcome policies =
        let groups = group_from [] policies in
        if is_empty policies
        then ops.always_false
        else ops.or
            (tier_clauses (λ k. get_group k groups) ops.always_true (sort_desc (keys groups)))
