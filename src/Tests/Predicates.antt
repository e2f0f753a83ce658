-- ===== src/Tests/Predicates.antt =====
-- Predicates on sample records, and the checks on their shape.
use kittle.Base.{◌↔◌, ℕ, ◌≡◌, refl, String, true, false, ◌&&◌, List, [], ◌∷◌, is_ok, all, leb}
use kittle.Js.{Values, string, array}
use kittle.Predicate.{
  PredicateOp, PredicateNode, PredicateCondition, Filters, condition, and, not, literal,
}
use kittle.Predicate.Eval.{evaluate_truth}
use kittle.Predicate.Simplify.{simplify_predicate}
use kittle.Predicate.Simplify.Meaning.{evaluate_truth-simplify_predicate}
use kittle.Predicate.Simplify.Normal.{
  is_normal, is_normal-simplify_predicate, simplify_predicate_fixed,
}
use kittle.Predicate.Shape.{all_levels, max_predicate_depth, assert_predicate_node}
use kittle.Predicate.Shape.Accepts.{encode, nesting, is_complete, assert_predicate_node-is_ok}
use kittle.Predicate.Supported.{AbacFieldType, find_unsupported_predicate_combination}
use kittle.Predicate.Supported.First.{
  conditions, is_none, is_supported, find_unsupported_predicate_combination-supported,
  find_unsupported_predicate_combination-in,
}
use kittle.Tests.{naturals, equals, open_order}

-- An open order, with a literal to simplify away.
abbrev sample : PredicateNode ℕ
sample =
    and
      (Filters.cons (literal true) (Filters.cons (not (not (equals "status" "open"))) Filters.nil))

evaluate_truth-simplify_predicate_example :
    evaluate_truth open_order (simplify_predicate sample) ≡ evaluate_truth open_order sample
evaluate_truth-simplify_predicate_example = evaluate_truth-simplify_predicate open_order sample

is_normal-simplify_predicate_example : is_normal (simplify_predicate sample) ≡ true
is_normal-simplify_predicate_example = is_normal-simplify_predicate sample

simplify_predicate_fixed_example : (simplify_predicate sample ≡ sample) ↔ (is_normal sample ≡ true)
simplify_predicate_fixed_example = simplify_predicate_fixed sample

sample_simplified : simplify_predicate sample ≡ not (not (equals "status" "open"))
unfolding simplify_predicate
sample_simplified = refl

assert_predicate_node-is_ok_example :
    is_ok (assert_predicate_node all_levels (encode sample))
    ≡ (leb (nesting sample) max_predicate_depth && is_complete sample)
assert_predicate_node-is_ok_example = assert_predicate_node-is_ok sample

abbrev field_types : List (String × AbacFieldType)
field_types = ("status", AbacFieldType.string_) ∷ []

abbrev status_in : PredicateCondition ℕ
status_in = record {
  field = "status";
  op = PredicateOp.in_;
  value = array 0 (Values.cons (string "open") Values.nil);
}

find_unsupported_predicate_combination-supported_example :
    is_none (find_unsupported_predicate_combination field_types sample)
    ≡ all (is_supported field_types) (conditions sample)
find_unsupported_predicate_combination-supported_example =
    find_unsupported_predicate_combination-supported field_types sample

find_unsupported_predicate_combination-in_example :
    is_none (find_unsupported_predicate_combination field_types (condition status_in)) ≡ false
find_unsupported_predicate_combination-in_example =
    find_unsupported_predicate_combination-in field_types status_in refl
