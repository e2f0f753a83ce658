-- ===== src/Predicate/Shape.antt =====
-- packages/core/src/domain/predicate.ts: the check of a filter of unknown shape. A call is given the
-- levels it has left, 101 at the root, in place of its depth; each error stands for its message.
pub mod Accepts
use kittle.Base.{
  ℕ, zero, suc, String, ◌===◌, str_mem, Bool, true, false, negate, ◌&&◌, ◌||◌, List, [], ◌∷◌,
  Result, ok, err, ◌>>◌, require, if◌then◌else◌,
}
use kittle.Js.{
  Value, Values, Props, undefined, string, boolean, array, object, date, nil, cons, get_prop,
  is_undefined,
}

pub data ShapeError : Type 0 where
  too_deep not_an_object unknown_kind empty_field unknown_operator missing_value missing_filters
        not_a_boolean :
      ShapeError

-- `MAX_PREDICATE_DEPTH`, and the levels left at depth 0.
abbrev pub max_predicate_depth : ℕ
max_predicate_depth = 100

abbrev pub all_levels : ℕ
all_levels = suc max_predicate_depth

abbrev all_predicate_ops : List String
all_predicate_ops =
    "eq" ∷ "neq" ∷ "contains" ∷ "startsWith" ∷ "endsWith" ∷ "isEmpty" ∷ "isNotEmpty" ∷ "gt" ∷ "lt"
    ∷ "gte" ∷ "lte" ∷ "isTrue" ∷ "isFalse" ∷ "isNull" ∷ "isNotNull" ∷ "in" ∷ "includesAny"
    ∷ "includesAll" ∷ "between" ∷ []

abbrev no_value_predicate_ops : List String
no_value_predicate_ops =
    "isEmpty" ∷ "isNotEmpty" ∷ "isTrue" ∷ "isFalse" ∷ "isNull" ∷ "isNotNull" ∷ []

module _ {N : Type 0} where
  assert_field : Value N → Result ShapeError (Unit {0})
  assert_field (string field) = require (negate (field === "")) ShapeError.empty_field
  assert_field _ = err ShapeError.empty_field

  assert_op : Value N → Value N → Result ShapeError (Unit {0})
  assert_op (string op) value =
      if str_mem op all_predicate_ops
      then require (str_mem op no_value_predicate_ops || negate (is_undefined value))
          ShapeError.missing_value
      else err ShapeError.unknown_operator
  assert_op _ value = err ShapeError.unknown_operator

  assert_literal : Value N → Result ShapeError (Unit {0})
  assert_literal (boolean _) = ok tt
  assert_literal _ = err ShapeError.not_a_boolean

  -- The call on a child is a parameter of the helpers.
  module _ (recur : Value N → Result ShapeError (Unit {0})) where
    assert_children : Values N → Result ShapeError (Unit {0})
    assert_children nil = ok tt
    assert_children (cons v vs) = recur v >> assert_children vs

    assert_filters : Value N → Result ShapeError (Unit {0})
    unfolding assert_children
    assert_filters (array _ vs) = assert_children vs
    assert_filters _ = err ShapeError.missing_filters

    -- The switch on `candidate.kind`.
    assert_kind : Value N → Props N → Result ShapeError (Unit {0})
    unfolding assert_field assert_op assert_literal assert_filters
    assert_kind (string kind) candidate =
        if kind === "condition"
        then assert_field (get_prop "field" candidate)
          >> assert_op (get_prop "op" candidate) (get_prop "value" candidate)
        else (if kind === "and" || kind === "or"
            then assert_filters (get_prop "filters" candidate)
            else (if kind === "not"
                then recur (get_prop "filter" candidate)
                else (if kind === "literal"
                    then assert_literal (get_prop "value" candidate)
                    else err ShapeError.unknown_kind)))
    assert_kind _ candidate = err ShapeError.unknown_kind

    -- A Date is an object without a kind.
    assert_candidate : Value N → Result ShapeError (Unit {0})
    unfolding assert_kind
    assert_candidate (object _ candidate) = assert_kind (get_prop "kind" candidate) candidate
    assert_candidate (date _) = err ShapeError.unknown_kind
    assert_candidate _ = err ShapeError.not_an_object

  unfoldable pub assert_predicate_node : ℕ → Value N → Result ShapeError (Unit {0})
  unfolding assert_candidate
  assert_predicate_node zero v = err ShapeError.too_deep
  assert_predicate_node (suc left) v = assert_candidate (assert_predicate_node left) v
