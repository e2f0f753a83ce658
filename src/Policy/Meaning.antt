-- ===== src/Policy/Meaning.antt =====
-- What compiled policy conditions mean: packages/core/src/domain/abacConditionCompiler.ts against
-- the three truths of its clauses.
use kittle.Base.{
  ◌≡◌, refl, sym, ap, ap₂, ◌∙◌, ◌≢◌, String, Bool, true, false, Option, none, some, List, [], ◌∷◌,
  Result, ok, err, ◌>>=◌,
}
use kittle.Js.{Numbers, Props}
use kittle.Predicate.{PredicateNode, filters_of}
use kittle.Predicate.Eval.{Truth, evaluate_truth}
use kittle.Predicate.Truth.{
  meet, meet-unit_right, meet_nodes, evaluate_truth-group, nodes-filters_of,
}
use kittle.Predicate.Supported.{AbacFieldType}
use kittle.Policy.{
  PolicyGroupLogic, logic_and, logic_or, PolicyConditionGroup, group, Conditions, nil, clause,
  nested, PolicyConditions, CompileError, Coercions,
}
use kittle.Policy.Compile.{
  AbacContext, PredicateCompileResult, add_result, policy_clause_to_predicate, gather, combine,
  combine_and, combine_results, condition_group_to_predicate, condition_results,
  policy_conditions_to_predicate,
}

-- "AND" has the unit true, and "OR" the unit false.
abbrev pub unit_of : PolicyGroupLogic → Bool
unit_of logic_and = true
unit_of logic_or = false

-- Two truths together, where both conditions compile.
abbrev pub both : Bool → Option Truth → Option Truth → Option Truth
both b (some t) (some u) = some (meet b t u)
both b _ _ = none

module _ {N : Type 0} ⦃num : Numbers N⦄ (r : Props N) where
  -- The truth of a compiled condition at a record.
  abbrev pub truth_of : PredicateCompileResult N → Option Truth
  truth_of (err es) = none
  truth_of (ok p) = some (evaluate_truth r p)

  abbrev truths_of : Bool → List (PredicateCompileResult N) → Option Truth
  truths_of b [] = some (some b)
  truths_of b (c ∷ cs) = both b (truth_of c) (truths_of b cs)

  abbrev gathered : Bool → Result (List CompileError) (List (PredicateNode N)) → Option Truth
  gathered b (err es) = none
  gathered b (ok ps) = some (meet_nodes r b ps)

  truths_of-gather :
      (b : Bool) (cs : List (PredicateCompileResult N)) → gathered b (gather cs) ≡ truths_of b cs
  truths_of-gather b [] = refl
  truths_of-gather b (c ∷ cs) = adds c (gather cs) (truths_of-gather b cs)
    where
      adds :
          (c : PredicateCompileResult N)
          (rest : Result (List CompileError) (List (PredicateNode N)))
          → gathered b rest ≡ truths_of b cs
          → gathered b (add_result c rest) ≡ both b (truth_of c) (truths_of b cs)
      adds (err es) (err fs) h = refl
      adds (err es) (ok ps) h = refl
      adds (ok p) (err es) h = ap (both b (some (evaluate_truth r p))) h
      adds (ok p) (ok ps) h = ap (both b (some (evaluate_truth r p))) h

  combine-truth :
      (logic : PolicyGroupLogic) (p : PredicateNode N) (ps : List (PredicateNode N))
      → evaluate_truth r (combine logic (p ∷ ps)) ≡ meet_nodes r (unit_of logic) (p ∷ ps)
  combine-truth logic_and p [] = sym (meet-unit_right true (evaluate_truth r p))
  combine-truth logic_or p [] = sym (meet-unit_right false (evaluate_truth r p))
  combine-truth logic_and p (q ∷ ps) =
      evaluate_truth-group r true (filters_of (p ∷ q ∷ ps))
      ∙ ap (meet_nodes r true) (nodes-filters_of (p ∷ q ∷ ps))
  combine-truth logic_or p (q ∷ ps) =
      evaluate_truth-group r false (filters_of (p ∷ q ∷ ps))
      ∙ ap (meet_nodes r false) (nodes-filters_of (p ∷ q ∷ ps))

add_result-nonempty :
    {N : Type 0} (c : PredicateCompileResult N)
    (rest : Result (List CompileError) (List (PredicateNode N)))
    → add_result c rest ≢ ok []
add_result-nonempty (ok p) (ok ps) h = cc
add_result-nonempty (ok p) (err es) h = cc
add_result-nonempty (err es) (ok ps) h = cc
add_result-nonempty (err es) (err fs) h = cc

module _ {N : Type 0} ⦃num : Numbers N⦄ (r : Props N) where
  combined-truth :
      (logic : PolicyGroupLogic) (x : Result (List CompileError) (List (PredicateNode N)))
      → x ≢ ok []
      → truth_of r (x >>= λ ps. ok (combine logic ps)) ≡ gathered r (unit_of logic) x
  combined-truth logic (err es) h = refl
  combined-truth logic (ok []) h = absurd (h refl)
  combined-truth logic (ok (p ∷ ps)) h = ap some (combine-truth r logic p ps)

  combine_results-truth :
      (logic : PolicyGroupLogic) (cs : List (PredicateCompileResult N))
      → truth_of r (combine_results logic cs) ≡ truths_of r (unit_of logic) cs
  unfolding evaluate_truth
  combine_results-truth logic_and [] = refl
  combine_results-truth logic_or [] = refl
  combine_results-truth logic (c ∷ cs) =
      combined-truth logic (gather (c ∷ cs)) (add_result-nonempty c (gather cs))
      ∙ truths_of-gather r (unit_of logic) (c ∷ cs)

module _ {N : Type 0} ⦃num : Numbers N⦄ ⦃co : Coercions N⦄ (context : AbacContext N)
    (catalog : List (String × AbacFieldType)) (r : Props N) where
  -- The truth of a group from the truths of its clauses: none if one does not compile.
  unfoldable mutual
    pub meaning : PolicyConditionGroup N → Option Truth
    meaning (group logic cs) = meanings (unit_of logic) cs

    pub meanings : Bool → Conditions N → Option Truth
    meanings b nil = some (some b)
    meanings b (clause c cs) =
        both b (truth_of r (policy_clause_to_predicate c context catalog)) (meanings b cs)
    meanings b (nested g cs) = both b (meaning g) (meanings b cs)

  mutual
    unfolding meaning condition_group_to_predicate

    group-meaning :
        (g : PolicyConditionGroup N)
        → truth_of r (condition_group_to_predicate context catalog g) ≡ meaning g
    group-meaning (group logic cs) =
        combine_results-truth r logic (condition_results context catalog cs)
        ∙ conditions-meanings (unit_of logic) cs

    conditions-meanings :
        (b : Bool) (cs : Conditions N)
        → truths_of r b (condition_results context catalog cs) ≡ meanings b cs
    conditions-meanings b nil = refl
    conditions-meanings b (clause c cs) =
        ap (both b (truth_of r (policy_clause_to_predicate c context catalog)))
          (conditions-meanings b cs)
    conditions-meanings b (nested g cs) = ap₂ (both b) (group-meaning g) (conditions-meanings b cs)

  both-compiled :
      (s u : PredicateCompileResult N)
      → truth_of r (s >>= λ p. u >>= λ q. ok (combine_and (p ∷ q ∷ [])))
        ≡ both true (truth_of r s) (truth_of r u)
  both-compiled (err es) (err fs) = refl
  both-compiled (err es) (ok q) = refl
  both-compiled (ok p) (err fs) = refl
  both-compiled (ok p) (ok q) = ap some (
      combine-truth r logic_and p (q ∷ [])
      ∙ ap (meet true (evaluate_truth r p)) (meet-unit_right true (evaluate_truth r q)))

  -- Compiled conditions have, at every record, the truth of the system scope and the user filters
  -- together, where a group "AND" or "OR" has that of its clauses and groups and an empty one is true
  -- or false; and they compile exactly when each clause does, at any depth.
  pub policy_conditions_to_predicate-meaning :
      (conditions : PolicyConditions N)
      → truth_of r (policy_conditions_to_predicate context catalog conditions)
        ≡ both true (meaning conditions.system_scope) (meaning conditions.user_filters)
  unfolding policy_conditions_to_predicate
  policy_conditions_to_predicate-meaning conditions =
      both-compiled (condition_group_to_predicate context catalog conditions.system_scope)
        (condition_group_to_predicate context catalog conditions.user_filters)
      ∙ ap₂ (both true) (group-meaning conditions.system_scope)
          (group-meaning conditions.user_filters)
