-- ===== src/Predicate/Simplify.antt =====
-- packages/core/src/domain/predicateSimplifier.ts
pub mod Meaning
pub mod Normal
use kittle.Base.{Bool, true, false, negate, List, [], ◌∷◌, any, filter, if◌then◌else◌}
use kittle.Predicate.{
  PredicateNode, condition, and, or, not, literal, Filters, nil, cons, filters_of,
}

module _ {N : Type 0} where
  -- `c.kind === "literal" && c.value === b`
  abbrev pub is_literal : Bool → PredicateNode N → Bool
  is_literal b (literal v) = if b then v else negate v
  is_literal b _ = false

  -- The end of each branch: no filter left, one, or more.
  rebuild : (Filters N → PredicateNode N) → Bool → List (PredicateNode N) → PredicateNode N
  rebuild group unit [] = literal unit
  rebuild group unit (first ∷ []) = first
  rebuild group unit (first ∷ second ∷ more) = group (filters_of (first ∷ second ∷ more))

  -- What "and" and "or" do with their simplified filters; `unit` is the literal that is dropped.
  combine : (Filters N → PredicateNode N) → Bool → List (PredicateNode N) → PredicateNode N
  unfolding rebuild
  combine group unit simplified =
      if any (is_literal (negate unit)) simplified
      then literal (negate unit)
      else rebuild group unit (filter (λ c. negate (is_literal unit c)) simplified)

  negated : PredicateNode N → PredicateNode N
  negated (literal b) = literal (negate b)
  negated inner = not inner

  unfoldable mutual
    unfolding combine negated

    pub simplify_predicate : PredicateNode N → PredicateNode N
    simplify_predicate (and ps) = combine and true (simplify_all ps)
    simplify_predicate (or ps) = combine or false (simplify_all ps)
    simplify_predicate (not p) = negated (simplify_predicate p)
    simplify_predicate (literal b) = literal b
    simplify_predicate (condition c) = condition c

    -- `node.filters.map(simplifyPredicate)`
    pub simplify_all : Filters N → List (PredicateNode N)
    simplify_all nil = []
    simplify_all (cons p ps) = simplify_predicate p ∷ simplify_all ps

  unfoldable pub is_always_true : PredicateNode N → Bool
  is_always_true p = is_literal true p

  unfoldable pub is_always_false : PredicateNode N → Bool
  is_always_false p = is_literal false p
