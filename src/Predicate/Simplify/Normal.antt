-- ===== src/Predicate/Simplify/Normal.antt =====
-- The shape of a simplified predicate: no literal below the root, no group of fewer than two.
use kittle.Base.{
  ◌≡◌, refl, sym, ◌∙◌, ap, ap₂, ◌↔◌, Bool, true, false, negate, ◌&&◌, List, [], ◌∷◌, arith, any,
  filter, Bool-cases, inl, inr, and-eq-true_iff,
}
use kittle.Predicate.{
  PredicateNode, condition, and, or, not, literal, Filters, nil, cons, nodes, filters_of,
}
use kittle.Predicate.Truth.{group}
use kittle.Predicate.Simplify.{
  is_literal, rebuild, combine, negated, simplify_predicate, simplify_all,
}

module _ {N : Type 0} where
  abbrev is_any_literal : PredicateNode N → Bool
  is_any_literal (literal _) = true
  is_any_literal _ = false

  abbrev has_two : Filters N → Bool
  has_two (cons _ (cons _ _)) = true
  has_two _ = false

  unfoldable mutual
    pub is_normal : PredicateNode N → Bool
    is_normal (and ps) = has_two ps && are_normal ps
    is_normal (or ps) = has_two ps && are_normal ps
    is_normal (not p) = negate (is_any_literal p) && is_normal p
    is_normal (literal b) = true
    is_normal (condition c) = true

    are_normal : Filters N → Bool
    are_normal nil = true
    are_normal (cons p ps) = negate (is_any_literal p) && is_normal p && are_normal ps

  -- The same of a list, whose members may be literals.
  abbrev all_normal : List (PredicateNode N) → Bool
  all_normal [] = true
  all_normal (p ∷ ps) = is_normal p && all_normal ps

  no_literal :
      (b : Bool) (p : PredicateNode N)
      → is_literal (negate b) p ≡ false
      → is_literal b p ≡ false
      → is_any_literal p ≡ false
  no_literal b (literal v) h k = ground arith
  no_literal b (condition c) h k = refl
  no_literal b (and ps) h k = refl
  no_literal b (or ps) h k = refl
  no_literal b (not p) h k = refl

  is_literal_of_not_any :
      (b : Bool) (p : PredicateNode N) → is_any_literal p ≡ false → is_literal b p ≡ false
  is_literal_of_not_any b (literal v) h = ground arith
  is_literal_of_not_any b (condition c) h = refl
  is_literal_of_not_any b (and ps) h = refl
  is_literal_of_not_any b (or ps) h = refl
  is_literal_of_not_any b (not p) h = refl

  are_normal-filter :
      (b : Bool) (ps : List (PredicateNode N))
      → any (is_literal (negate b)) ps ≡ false
      → all_normal ps ≡ true
      → are_normal (filters_of (filter (λ c. negate (is_literal b c)) ps)) ≡ true
  unfolding is_normal
  are_normal-filter b [] h k = refl
  are_normal-filter b (p ∷ ps) h k = ground (arith, no_literal b p, are_normal-filter b ps)

  rebuild-normal :
      (b : Bool) (ps : List (PredicateNode N))
      → are_normal (filters_of ps) ≡ true
      → is_normal (rebuild (group b) b ps) ≡ true
  unfolding rebuild is_normal
  rebuild-normal b [] h = refl
  rebuild-normal b (p ∷ []) h = ground arith
  rebuild-normal true (p ∷ q ∷ ps) h = h
  rebuild-normal false (p ∷ q ∷ ps) h = h

  combine-normal :
      (b : Bool) (ps : List (PredicateNode N))
      → all_normal ps ≡ true
      → is_normal (combine (group b) b ps) ≡ true
  unfolding combine is_normal
  combine-normal b ps h = elim (Bool-cases (any (is_literal (negate b)) ps)) [
    | inl zero ↦ rw zero refl
    | inr rest ↦ rw rest (
        rebuild-normal b (filter (λ c. negate (is_literal b c)) ps) (are_normal-filter b ps rest h))
  ]

  negated-normal : (p : PredicateNode N) → is_normal p ≡ true → is_normal (negated p) ≡ true
  unfolding negated is_normal
  negated-normal (literal b) h = refl
  negated-normal (condition c) h = h
  negated-normal (and ps) h = h
  negated-normal (or ps) h = h
  negated-normal (not p) h = h

  mutual
    unfolding simplify_predicate is_normal

    simplify-normal : (p : PredicateNode N) → is_normal (simplify_predicate p) ≡ true
    simplify-normal (and ps) = combine-normal true (simplify_all ps) (simplify_all-normal ps)
    simplify-normal (or ps) = combine-normal false (simplify_all ps) (simplify_all-normal ps)
    simplify-normal (not p) = negated-normal (simplify_predicate p) (simplify-normal p)
    simplify-normal (literal b) = refl
    simplify-normal (condition c) = refl

    simplify_all-normal : (ps : Filters N) → all_normal (simplify_all ps) ≡ true
    simplify_all-normal nil = refl
    simplify_all-normal (cons p ps) =
        (and-eq-true_iff _ _).1 (simplify-normal p, simplify_all-normal ps)

  any-are_normal :
      (b : Bool) (ps : Filters N) → are_normal ps ≡ true → any (is_literal b) (nodes ps) ≡ false
  unfolding is_normal
  any-are_normal b nil h = refl
  any-are_normal b (cons p ps) h = ground (arith, is_literal_of_not_any b p, any-are_normal b ps)

  filter-are_normal :
      (b : Bool) (ps : Filters N)
      → are_normal ps ≡ true
      → filter (λ c. negate (is_literal b c)) (nodes ps) ≡ nodes ps
  unfolding is_normal
  filter-are_normal b nil h = refl
  filter-are_normal b (cons p ps) h =
      ground (arith, is_literal_of_not_any b p, filter-are_normal b ps)

  filters_of-nodes : (ps : Filters N) → filters_of (nodes ps) ≡ ps
  filters_of-nodes nil = refl
  filters_of-nodes (cons p ps) = ap (cons p) (filters_of-nodes ps)

  rebuild-has_two :
      (b : Bool) (ps : Filters N) → has_two ps ≡ true → rebuild (group b) b (nodes ps) ≡ group b ps
  unfolding rebuild
  rebuild-has_two b nil h = cc
  rebuild-has_two b (cons p nil) h = cc
  rebuild-has_two b (cons p (cons q ps)) h = ap (group b) (filters_of-nodes (cons p (cons q ps)))

  combine-are_normal :
      (b : Bool) (ps : Filters N)
      → has_two ps ≡ true
      → are_normal ps ≡ true
      → combine (group b) b (nodes ps) ≡ group b ps
  unfolding combine
  combine-are_normal b ps two h =
      rw (any-are_normal (negate b) ps h, filter-are_normal b ps h) (rebuild-has_two b ps two)

  negated-not : (p : PredicateNode N) → is_any_literal p ≡ false → negated p ≡ not p
  unfolding negated
  negated-not (literal b) h = cc
  negated-not (condition c) h = refl
  negated-not (and ps) h = refl
  negated-not (or ps) h = refl
  negated-not (not p) h = refl

  mutual
    unfolding simplify_predicate is_normal

    simplify_of_normal : (p : PredicateNode N) → is_normal p ≡ true → simplify_predicate p ≡ p
    simplify_of_normal (and ps) h =
        let (two, all') = (and-eq-true_iff _ _).0 h in
        ap (combine and true) (simplify_all_of_normal ps all') ∙ combine-are_normal true ps two all'
    simplify_of_normal (or ps) h =
        let (two, all') = (and-eq-true_iff _ _).0 h in
        ap (combine or false) (simplify_all_of_normal ps all')
        ∙ combine-are_normal false ps two all'
    simplify_of_normal (not p) h =
        ap negated (simplify_of_normal p (ground arith)) ∙ negated-not p (ground arith)
    simplify_of_normal (literal b) h = refl
    simplify_of_normal (condition c) h = refl

    simplify_all_of_normal : (ps : Filters N) → are_normal ps ≡ true → simplify_all ps ≡ nodes ps
    simplify_all_of_normal nil h = refl
    simplify_all_of_normal (cons p ps) h =
        ap₂ (λ q qs. q ∷ qs) (simplify_of_normal p (ground arith))
          (simplify_all_of_normal ps (ground arith))

-- A simplified predicate is normal: below its root there is no literal, and each of its groups has
-- two filters or more.
pub is_normal-simplify_predicate :
    {N : Type 0} (p : PredicateNode N) → is_normal (simplify_predicate p) ≡ true
is_normal-simplify_predicate p = simplify-normal p

-- Simplifying leaves a predicate as it is exactly when it is normal.
pub simplify_predicate_fixed :
    {N : Type 0} (p : PredicateNode N) → (simplify_predicate p ≡ p) ↔ (is_normal p ≡ true)
simplify_predicate_fixed p =
    (λ same. ap is_normal (sym same) ∙ simplify-normal p, λ h. simplify_of_normal p h)

-- Simplifying twice is simplifying once.
simplify_predicate_idempotent :
    {N : Type 0} (p : PredicateNode N)
    → simplify_predicate (simplify_predicate p) ≡ simplify_predicate p
simplify_predicate_idempotent p = simplify_of_normal (simplify_predicate p) (simplify-normal p)
