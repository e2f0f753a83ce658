-- ===== src/Tier/Outcome/Groups.antt =====
-- The grouping map holds, under each priority, the tier of that priority, and its keys are the
-- distinct priorities.
use kittle.Base.{
  ℤ, ◌==ℤ◌, eq_of_parts, ◌≡◌, refl, sym, ◌∙◌, ap, Bool, true, false, negate, ◌||◌, List, [], ◌∷◌,
  ◌++◌, map, filter, arith, Bool-cases, inl, inr, append-nil, append_assoc, if◌then◌else◌,
}
use kittle.Tier.{Policies, tier_of, distinct, sort_desc, sorted_priorities}
use kittle.Tier.Priorities.{has_priority}
use kittle.Tier.Outcome.{Groups, get_group, keys, add_to_group, group_from}

module _ {P : Type 0} where
  get_group-add_to_group :
      (k j : ℤ) (p : P) (groups : Groups P)
      → get_group k (add_to_group j p groups)
        ≡ get_group k groups ++ (if j ==ℤ k then p ∷ [] else [])
  unfolding add_to_group
  get_group-add_to_group k j p [] = ground arith
  get_group-add_to_group k j p ((i, tier) ∷ groups) =
      ground (
        arith,
        get_group-add_to_group k j p groups,
        append-nil tier,
        append-nil (get_group k groups),
      )

  keys-add_to_group :
      (j : ℤ) (p : P) (groups : Groups P)
      → keys (add_to_group j p groups)
        ≡ (if has_priority j (keys groups) then keys groups else keys groups ++ j ∷ [])
  unfolding add_to_group
  keys-add_to_group j p [] = refl
  keys-add_to_group j p ((i, tier) ∷ groups) = ground (arith, keys-add_to_group j p groups)

-- Members that a key list does not hold yet.
abbrev fresh : List ℤ → List ℤ → List ℤ
fresh held ks = filter (λ k. negate (has_priority k held)) ks

module _ (held : List ℤ) (k : ℤ) where
  fresh_ne :
      has_priority k held ≡ true
      → (ks : List ℤ) → fresh held (filter (λ j. negate (j ==ℤ k)) ks) ≡ fresh held ks
  fresh_ne h [] = refl
  fresh_ne h (j ∷ ks) = elim (Bool-cases (j ==ℤ k)) [
    | inl same ↦
        let e : has_priority j held ≡ true = rw (eq_of_parts j k (ground arith)) h in
        rw (same, e) (fresh_ne h ks)
    | inr other ↦
        rw other (ap (λ l. if negate (has_priority j held) then j ∷ l else l) (fresh_ne h ks))
  ]

  has_priority-append :
      (j : ℤ) (ks : List ℤ) → has_priority j (ks ++ k ∷ []) ≡ (has_priority j ks || (k ==ℤ j))
  has_priority-append j [] = ground arith
  has_priority-append j (i ∷ ks) = ground (arith, has_priority-append j ks)

  fresh-append :
      (ks : List ℤ) → fresh (held ++ k ∷ []) ks ≡ fresh held (filter (λ j. negate (j ==ℤ k)) ks)
  fresh-append [] = refl
  fresh-append (j ∷ ks) = ground (arith, fresh-append ks, has_priority-append j held)

module _ {P : Type 0} (view : Policies P) where
  open view use {get_priority}

  -- Each key leads to its tier.
  pub get_group-group_from :
      (k : ℤ) (groups : Groups P) (policies : List P)
      → get_group k (group_from view groups policies)
        ≡ get_group k groups ++ tier_of view k policies
  unfolding group_from
  get_group-group_from k groups [] = sym (append-nil _)
  get_group-group_from k groups (p ∷ ps) =
      get_group-group_from k (add_to_group (get_priority p) p groups) ps
      ∙ ap (λ l. l ++ tier_of view k ps) (get_group-add_to_group k (get_priority p) p groups)
      ∙ append_assoc (get_group k groups) _ _
      ∙ ap (λ l. get_group k groups ++ l) (tier-cons (get_priority p ==ℤ k))
    where
      tier-cons :
          (b : Bool)
          → (if b then p ∷ [] else []) ++ tier_of view k ps
            ≡ (if b then p ∷ tier_of view k ps else tier_of view k ps)
      tier-cons true = refl
      tier-cons false = refl

  keys-group_from :
      (groups : Groups P) (policies : List P)
      → keys (group_from view groups policies)
        ≡ keys groups ++ fresh (keys groups) (distinct (map get_priority policies))
  unfolding group_from distinct
  keys-group_from groups [] = sym (append-nil _)
  keys-group_from groups (p ∷ ps) =
      let k = get_priority p in
      let rest = distinct (map get_priority ps) in
      elim (Bool-cases (has_priority k (keys groups))) [
        | inl old ↦
            let e : keys (add_to_group k p groups) ≡ keys groups =
              keys-add_to_group k p groups ∙ (rw old) in
            keys-group_from (add_to_group k p groups) ps
            ∙ ap (λ l. l ++ fresh l rest) e
            ∙ (rw old (ap (λ l. keys groups ++ l) (sym (fresh_ne (keys groups) k old rest))))
        | inr new ↦
            let e : keys (add_to_group k p groups) ≡ keys groups ++ k ∷ [] =
              keys-add_to_group k p groups ∙ (rw new) in
            keys-group_from (add_to_group k p groups) ps
            ∙ ap (λ l. l ++ fresh l rest) e
            ∙ append_assoc (keys groups) (k ∷ []) _
            ∙ (rw new (ap (λ l. keys groups ++ k ∷ l) (fresh-append (keys groups) k rest)))
      ]

  fresh-nil : (ks : List ℤ) → fresh [] ks ≡ ks
  fresh-nil [] = refl
  fresh-nil (k ∷ ks) = ap (λ l. k ∷ l) (fresh-nil ks)

  -- The keys in descending order are the priorities that the decision walks.
  pub sort_desc-keys :
      (policies : List P)
      → sort_desc (keys (group_from view [] policies)) ≡ sorted_priorities view policies
  unfolding sorted_priorities
  sort_desc-keys policies = ap sort_desc (keys-group_from [] policies ∙ fresh-nil _)
