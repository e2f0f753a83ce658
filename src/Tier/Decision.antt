-- ===== src/Tier/Decision.antt =====
-- What the tier walk decides, said without tiers.
pub mod Views
use kittle.Base.{
  ℤ, ltb_ℤ, ◌==ℤ◌, ==ℤ_iff, ◌<ℤ◌, ◌≤ℤ◌, ◌≡◌, refl, sym, ◌∙◌, ap, ap₂, fun_ext, Bool, true, false,
  negate, ◌&&◌, ◌||◌, List, [], ◌∷◌, map, filter, any, any-filter, any_of_mem, mem_of_any,
  false_of_any, any-eq-false, any-congr, is_empty, is_empty-filter, All, arith, Bool-cases,
  Bool-eq_iff, inl, inr, ◌↔◌, Memᴰ, some, none, Option, if◌then◌else◌,
}
use kittle.Tier.{
  Effect, allow, deny, is_deny, is_allow, Policies, tier_of, denies_of, sorted_priorities, Reason,
  decide_tier, unmatched, decide_from, resolve_tiered_decision,
}
use kittle.Tier.Priorities.{
  has_priority, IsDescending, sorted_priorities-IsDescending, has_priority-sorted_priorities,
}

module _ {P : Type 0} (view : Policies P) (is_match : P → Bool) where
  open view use {get_priority, get_effect}

  -- `q` matches, and stands above `p` or denies at the same priority.
  abbrev pub blocks : P → P → Bool
  blocks p q =
      is_match q
      && (ltb_ℤ (get_priority p) (get_priority q)
          || ((get_priority q ==ℤ get_priority p) && is_deny (get_effect q)))

  -- Some matching policy allows, and no policy blocks it.
  abbrev pub permits : List P → P → Bool
  permits policies p = is_match p && is_allow (get_effect p) && negate (any (blocks p) policies)

  abbrev pub permitted : List P → Bool
  permitted policies = any (permits policies) policies

  -- Every matching policy has its priority in `ks`.
  abbrev Covers : List ℤ → List P → Type 0
  Covers ks policies =
      any (λ p. is_match p && negate (has_priority (get_priority p) ks)) policies ≡ false

  abbrev hit : ℤ → P → Bool
  hit k p = (get_priority p ==ℤ k) && is_match p

  matched_empty :
      (k : ℤ) (policies : List P)
      → is_empty (filter is_match (tier_of view k policies)) ≡ true
      → any (hit k) policies ≡ false
  matched_empty k policies h =
      sym (any-filter is_match (λ p. get_priority p ==ℤ k) policies)
      ∙ (is_empty-filter is_match (tier_of view k policies)).0 h

  Covers-tail :
      (k : ℤ) (ks : List ℤ) (policies : List P)
      → Covers (k ∷ ks) policies
      → any (hit k) policies ≡ false
      → Covers ks policies
  Covers-tail k ks [] c h = refl
  Covers-tail k ks (p ∷ ps) c h = ground (arith, Covers-tail k ks ps)

  has_priority-le :
      (k j : ℤ) (ks : List ℤ) → All (λ i. i <ℤ k) ks → has_priority j (k ∷ ks) ≡ true → j ≤ℤ k
  has_priority-le k j [] d h = ground arith
  has_priority-le k j (i ∷ ks) d h = ground (arith, has_priority-le k j ks)

  -- No matching policy stands above the head of a list that covers them.
  match-le :
      (k : ℤ) (ks : List ℤ) (policies : List P) {q : P}
      → IsDescending (k ∷ ks)
      → Covers (k ∷ ks) policies
      → Memᴰ q policies
      → is_match q ≡ true
      → get_priority q ≤ℤ k
  match-le k ks policies {q} d c m h =
      let e = false_of_any _ policies c m in
      has_priority-le k (get_priority q) ks d.0 (ground arith)

  module _ (k : ℤ) (ks : List ℤ) (policies : List P) (d : IsDescending (k ∷ ks))
      (c : Covers (k ∷ ks) policies) where
    -- A deny in the tier blocks every matching policy.
    denied :
        {q : P}
        → Memᴰ q policies
        → hit k q ≡ true
        → is_deny (get_effect q) ≡ true
        → permitted policies ≡ false
    denied {q} m h e = any-eq-false _ policies (λ p mp. lem p mp)
      where
        lem : (p : P) → Memᴰ p policies → permits policies p ≡ false
        lem p mp = elim (Bool-cases (is_match p)) [
          | inl hp ↦
              let le = match-le k ks policies d c mp hp in
              let b : any (blocks p) policies ≡ true = any_of_mem (blocks p) m (ground arith) in
              ground arith
          | inr hp ↦ rw hp refl
        ]

    -- With no deny in the tier, a match of the tier is permitted.
    allowed' :
        {q : P}
        → Memᴰ q policies
        → hit k q ≡ true
        → any (λ p. hit k p && is_deny (get_effect p)) policies ≡ false
        → permitted policies ≡ true
    allowed' {q} m h e =
        let f = false_of_any _ policies e m in
        any_of_mem (permits policies) m (ground (arith, unblocked))
      where
        unblocked_by : (p : P) → Memᴰ p policies → blocks q p ≡ false
        unblocked_by p mp = elim (Bool-cases (is_match p)) [
          | inl hp ↦
              let le = match-le k ks policies d c mp hp in
              let f = false_of_any _ policies e mp in ground arith
          | inr hp ↦ rw hp refl
        ]

        unblocked : any (blocks q) policies ≡ false
        unblocked = any-eq-false _ policies unblocked_by

  matched_any :
      (k : ℤ) (policies : List P)
      → is_empty (filter is_match (tier_of view k policies)) ≡ false
      → any (hit k) policies ≡ true
  matched_any k policies h = ground (
    arith,
    any-filter is_match (λ p. get_priority p ==ℤ k) policies,
    is_empty-filter is_match (tier_of view k policies),
  )

  -- The denies of a tier's matches, as a test on all policies.
  any-deny :
      (k : ℤ) (policies : List P)
      → any (λ p. is_deny (get_effect p)) (filter is_match (tier_of view k policies))
        ≡ any (λ p. hit k p && is_deny (get_effect p)) policies
  any-deny k policies =
      any-filter (λ p. is_deny (get_effect p)) is_match (tier_of view k policies)
      ∙ any-filter (λ p. is_match p && is_deny (get_effect p)) (λ p. get_priority p ==ℤ k) policies
      ∙ any-regroup policies
    where
      any-regroup :
          (ps : List P)
          → any (λ p. (get_priority p ==ℤ k) && (is_match p && is_deny (get_effect p))) ps
            ≡ any (λ p. hit k p && is_deny (get_effect p)) ps
      any-regroup = elim [ [] ↦ refl | p ∷ (ps → ih) ↦ ground arith ]

  decide_tier-allowed :
      (k : ℤ) (ks : List ℤ) (policies : List P)
      → IsDescending (k ∷ ks)
      → Covers (k ∷ ks) policies
      → is_empty (filter is_match (tier_of view k policies)) ≡ false
      → (decide_tier view k (filter is_match (tier_of view k policies))).allowed
        ≡ permitted policies
  unfolding decide_tier
  decide_tier-allowed k ks policies d c h =
      let matched = filter is_match (tier_of view k policies) in
      let (q, m, hq) = mem_of_any (hit k) policies (matched_any k policies h) in
      elim (Bool-cases (any (λ p. hit k p && is_deny (get_effect p)) policies)) [
        | inl some_deny ↦
            let (e, me, he) = mem_of_any _ policies some_deny in
            let no' = denied k ks policies d c me (ground arith) (ground arith) in
            ground
              (arith, is_empty-filter (λ p. is_deny (get_effect p)) matched, any-deny k policies)
        | inr no_deny ↦
            let ok' = allowed' k ks policies d c m hq no_deny in
            ground
              (arith, is_empty-filter (λ p. is_deny (get_effect p)) matched, any-deny k policies)
      ]

  unpermitted : (policies : List P) → any is_match policies ≡ false → permitted policies ≡ false
  unpermitted policies h =
      any-eq-false (permits policies) policies
        (λ p m. let f = false_of_any is_match policies h m in ground arith)

  Covers-nil : (policies : List P) → Covers [] policies → any is_match policies ≡ false
  Covers-nil [] c = refl
  Covers-nil (p ∷ ps) c = ground (arith, Covers-nil ps)

  -- The answer where no policy matches.
  abbrev pub by_default : Effect → List P → Bool
  by_default default_effect policies = is_allow default_effect && negate (any is_match policies)

  permitted_matched : (policies : List P) → permitted policies ≡ true → any is_match policies ≡ true
  permitted_matched policies h =
      let (p, m, e) = mem_of_any (permits policies) policies h in
      any_of_mem is_match m (ground arith)

  any-hit : (k : ℤ) (policies : List P) → any (hit k) policies ≡ true → any is_match policies ≡ true
  any-hit k policies h =
      let (p, m, e) = mem_of_any (hit k) policies h in any_of_mem is_match m (ground arith)

  decide_from-allowed :
      (default_effect : Effect) (policies : List P) (ks : List ℤ)
      → IsDescending ks
      → Covers ks policies
      → (decide_from view is_match default_effect policies ks).allowed
        ≡ (permitted policies || by_default default_effect policies)
  unfolding decide_from
  decide_from-allowed default_effect policies [] d c =
      let none' = Covers-nil policies c in let no' = unpermitted policies none' in ground arith
  decide_from-allowed default_effect policies (k ∷ ks) d c =
      elim (Bool-cases (is_empty (filter is_match (tier_of view k policies)))) [
        | inl skip ↦ rw skip (
            decide_from-allowed default_effect policies ks d.1
              (Covers-tail k ks policies c (matched_empty k policies skip)))
        | inr here ↦
            let e = decide_tier-allowed k ks policies d c here in
            let m = any-hit k policies (matched_any k policies here) in rw here (ground arith)
      ]

  sorted_priorities-Covers : (policies : List P) → Covers (sorted_priorities view policies) policies
  sorted_priorities-Covers policies = any-eq-false _ policies lem
    where
      lem :
          (p : P)
          → Memᴰ p policies
          → (is_match p && negate (has_priority (get_priority p) (sorted_priorities view policies)))
            ≡ false
      lem p m =
          let t : any (λ q. get_priority q ==ℤ get_priority p) policies ≡ true =
            any_of_mem _ m (ground arith) in
          ground (arith, has_priority-sorted_priorities view (get_priority p) policies)

-- The walk over the tiers allows exactly when some matching allow policy is blocked by no matching
-- policy of higher priority and by no matching deny of its own priority, or when nothing matches
-- and the default allows.
pub resolve_tiered_decision-allowed :
    {P : Type 0} (view : Policies P) (is_match : P → Bool) (default_effect : Effect)
    (policies : List P)
    → (resolve_tiered_decision view is_match default_effect policies).allowed
      ≡ (permitted view is_match policies || by_default view is_match default_effect policies)
unfolding resolve_tiered_decision
resolve_tiered_decision-allowed view is_match default_effect [] = unfold unmatched in ground arith
resolve_tiered_decision-allowed view is_match default_effect (p ∷ ps) =
    decide_from-allowed view is_match default_effect (p ∷ ps) (sorted_priorities view (p ∷ ps))
      (sorted_priorities-IsDescending view (p ∷ ps))
      (sorted_priorities-Covers view is_match (p ∷ ps))
