-- ===== src/Predicate/Simplify/Meaning.antt =====
-- Simplification keeps the three-valued meaning of a predicate.
use kittle.Base.{
  ◌≡◌, refl, sym, ◌∙◌, ap, ap₂, Bool, true, false, negate, some, List, [], ◌∷◌, arith, any, filter,
  Bool-cases, inl, inr,
}
use kittle.Js.{Numbers, Props}
use kittle.Predicate.{
  PredicateNode, condition, and, or, not, literal, Filters, nil, cons, nodes, filters_of,
}
use kittle.Predicate.Eval.{not3, evaluate_truth}
use kittle.Predicate.Truth.{
  meet, group, meet_nodes, meet-unit, meet-unit_right, meet-zero_left, meet-zero_right,
  evaluate_truth-group, nodes-filters_of,
}
use kittle.Predicate.Simplify.{
  is_literal, rebuild, combine, negated, simplify_predicate, simplify_all,
}

module _ {N : Type 0} ⦃num : Numbers N⦄ (r : Props N) where
  is_literal-truth :
      (b : Bool) (p : PredicateNode N) → is_literal b p ≡ true → evaluate_truth r p ≡ some b
  unfolding evaluate_truth
  is_literal-truth b (literal v) h = ground arith
  is_literal-truth b (condition c) h = ground arith
  is_literal-truth b (and ps) h = ground arith
  is_literal-truth b (or ps) h = ground arith
  is_literal-truth b (not p) h = ground arith

  meet_nodes-zero :
      (b : Bool) (ps : List (PredicateNode N))
      → any (is_literal (negate b)) ps ≡ true
      → meet_nodes r b ps ≡ some (negate b)
  meet_nodes-zero b [] h = ground arith
  meet_nodes-zero b (p ∷ ps) h = elim (Bool-cases (is_literal (negate b) p)) [
    | inl here ↦ rw (is_literal-truth (negate b) p here) (meet-zero_left b _)
    | inr skip ↦ rw (meet_nodes-zero b ps (rw skip at h)) (meet-zero_right b _)
  ]

  meet_nodes-filter :
      (b : Bool) (ps : List (PredicateNode N))
      → meet_nodes r b (filter (λ c. negate (is_literal b c)) ps) ≡ meet_nodes r b ps
  meet_nodes-filter b [] = refl
  meet_nodes-filter b (p ∷ ps) = elim (Bool-cases (is_literal b p)) [
    | inl drop ↦ rw (drop, is_literal-truth b p drop) (meet_nodes-filter b ps ∙ sym (meet-unit b _))
    | inr keep ↦ rw keep (ap (meet b (evaluate_truth r p)) (meet_nodes-filter b ps))
  ]

  rebuild-truth :
      (b : Bool) (ps : List (PredicateNode N))
      → evaluate_truth r (rebuild (group b) b ps) ≡ meet_nodes r b ps
  unfolding rebuild
  rebuild-truth b [] = unfold evaluate_truth in refl
  rebuild-truth b (p ∷ []) = sym (meet-unit_right b _)
  rebuild-truth b (p ∷ q ∷ ps) =
      evaluate_truth-group r b (filters_of (p ∷ q ∷ ps))
      ∙ ap (meet_nodes r b) (nodes-filters_of (p ∷ q ∷ ps))

  combine-truth :
      (b : Bool) (ps : List (PredicateNode N))
      → evaluate_truth r (combine (group b) b ps) ≡ meet_nodes r b ps
  unfolding combine evaluate_truth
  combine-truth b ps = elim (Bool-cases (any (is_literal (negate b)) ps)) [
    | inl zero ↦ rw zero (sym (meet_nodes-zero b ps zero))
    | inr none_zero ↦ rw none_zero (rebuild-truth b _ ∙ meet_nodes-filter b ps)
  ]

  evaluate_truth-not : (p : PredicateNode N) → not3 (evaluate_truth r p) ≡ evaluate_truth r (not p)
  unfolding evaluate_truth
  evaluate_truth-not p = refl

  negated-truth : (p : PredicateNode N) → evaluate_truth r (negated p) ≡ not3 (evaluate_truth r p)
  unfolding negated evaluate_truth
  negated-truth (literal b) = refl
  negated-truth (condition c) = refl
  negated-truth (and ps) = refl
  negated-truth (or ps) = refl
  negated-truth (not p) = refl

  mutual
    unfolding simplify_predicate

    truth-simplify :
        (p : PredicateNode N) → evaluate_truth r (simplify_predicate p) ≡ evaluate_truth r p
    truth-simplify (and ps) =
        combine-truth true (simplify_all ps)
        ∙ truth-simplify_all true ps
        ∙ sym (evaluate_truth-group r true ps)
    truth-simplify (or ps) =
        combine-truth false (simplify_all ps)
        ∙ truth-simplify_all false ps
        ∙ sym (evaluate_truth-group r false ps)
    truth-simplify (not p) =
        negated-truth (simplify_predicate p) ∙ ap not3 (truth-simplify p) ∙ evaluate_truth-not p
    truth-simplify (literal b) = refl
    truth-simplify (condition c) = refl

    truth-simplify_all :
        (b : Bool) (ps : Filters N) → meet_nodes r b (simplify_all ps) ≡ meet_nodes r b (nodes ps)
    truth-simplify_all b nil = refl
    truth-simplify_all b (cons p ps) = ap₂ (meet b) (truth-simplify p) (truth-simplify_all b ps)

-- Simplifying a predicate changes its truth at no record: true, false and UNKNOWN all stay.
pub evaluate_truth-simplify_predicate :
    {N : Type 0} ⦃num : Numbers N⦄ (r : Props N) (p : PredicateNode N)
    → evaluate_truth r (simplify_predicate p) ≡ evaluate_truth r p
evaluate_truth-simplify_predicate r p = truth-simplify r p
