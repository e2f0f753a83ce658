-- ===== src/Predicate/Truth.antt =====
-- The three-valued connectives of the evaluator, and a group read as one of two monoids: "and"
-- with unit true, "or" with unit false. `b` says which.
use kittle.Base.{◌≡◌, refl, ◌∙◌, Bool, true, false, negate, some, List, [], ◌∷◌, arith}
use kittle.Js.{Numbers, Props}
use kittle.Predicate.{PredicateNode, and, or, Filters, nil, cons, nodes, filters_of}
use kittle.Predicate.Eval.{Truth, and3, or3, evaluate_truth, reduce_and, reduce_or}

abbrev pub meet : Bool → Truth → Truth → Truth
meet true = and3
meet false = or3

abbrev pub group : {N : Type 0} → Bool → Filters N → PredicateNode N
group true = and
group false = or

-- The meet of a list of truths.
abbrev pub meet_all : Bool → List Truth → Truth
meet_all b [] = some b
meet_all b (t ∷ ts) = meet b t (meet_all b ts)

pub meet_assoc : (b : Bool) (s t u : Truth) → meet b (meet b s t) u ≡ meet b s (meet b t u)
meet_assoc true s t u = ground arith
meet_assoc false s t u = ground arith

pub meet-unit : (b : Bool) (t : Truth) → meet b (some b) t ≡ t
meet-unit true t = refl
meet-unit false t = refl

pub meet-unit_right : (b : Bool) (t : Truth) → meet b t (some b) ≡ t
meet-unit_right true t = ground arith
meet-unit_right false t = ground arith

pub meet-zero_right : (b : Bool) (t : Truth) → meet b t (some (negate b)) ≡ some (negate b)
meet-zero_right true t = ground arith
meet-zero_right false t = ground arith

pub meet-zero_left : (b : Bool) (t : Truth) → meet b (some (negate b)) t ≡ some (negate b)
meet-zero_left true t = ground arith
meet-zero_left false t = ground arith

module _ {N : Type 0} ⦃num : Numbers N⦄ (r : Props N) where
  -- The truths of a list of filters.
  abbrev pub meet_nodes : Bool → List (PredicateNode N) → Truth
  meet_nodes b [] = some b
  meet_nodes b (p ∷ ps) = meet b (evaluate_truth r p) (meet_nodes b ps)

  reduce_and-meet :
      (t : Truth) (ps : Filters N) → reduce_and r t ps ≡ and3 t (meet_nodes true (nodes ps))
  unfolding reduce_and
  reduce_and-meet t nil = ground arith
  reduce_and-meet t (cons p ps) =
      reduce_and-meet (and3 t (evaluate_truth r p)) ps ∙ meet_assoc true t (evaluate_truth r p) _

  reduce_or-meet :
      (t : Truth) (ps : Filters N) → reduce_or r t ps ≡ or3 t (meet_nodes false (nodes ps))
  unfolding reduce_or
  reduce_or-meet t nil = ground arith
  reduce_or-meet t (cons p ps) =
      reduce_or-meet (or3 t (evaluate_truth r p)) ps ∙ meet_assoc false t (evaluate_truth r p) _

  -- A group's truth is the meet of its filters' truths.
  pub evaluate_truth-group :
      (b : Bool) (ps : Filters N) → evaluate_truth r (group b ps) ≡ meet_nodes b (nodes ps)
  unfolding evaluate_truth
  evaluate_truth-group true ps = reduce_and-meet (some true) ps
  evaluate_truth-group false ps = reduce_or-meet (some false) ps

pub nodes-filters_of : {N : Type 0} (ps : List (PredicateNode N)) → nodes (filters_of ps) ≡ ps
nodes-filters_of [] = refl
nodes-filters_of (p ∷ ps) = λ i. p ∷ nodes-filters_of ps i
