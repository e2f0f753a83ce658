-- ===== src/Predicate/Eval.antt =====
-- packages/core/src/domain/evaluatePredicate.ts. A truth is `some b`, or `none` for UNKNOWN, which
-- the source writes `null`.
use kittle.Base.{
  ℕ, Bool, true, false, ◌&&◌, ◌||◌, negate, Option, none, some, List, [], String, ◌===◌, str_lt,
  codes, has_prefix, has_infix, has_suffix, all, any, is_empty, if◌then◌else◌,
}
use kittle.Js.{
  Numbers, Value, undefined, null, boolean, number, string, date, array, object, Props, elements,
  get_prop, is_nullish, is_null, is_array, strict_equal,
}
use kittle.Predicate.{
  PredicateOp, PredicateCondition, PredicateNode, condition, and, or, not, literal, Filters, nil,
  cons,
}

abbrev pub Truth : Type 0
Truth = Option Bool

abbrev pub not3 : Truth → Truth
not3 none = none
not3 (some b) = some (negate b)

-- One step of the `reduce` of "and", and of "or".
abbrev pub and3 : Truth → Truth → Truth
and3 (some false) _ = some false
and3 (some true) next = next
and3 none (some false) = some false
and3 none _ = none

abbrev pub or3 : Truth → Truth → Truth
or3 (some true) _ = some true
or3 (some false) next = next
or3 none (some true) = some true
or3 none _ = none

-- `truth === true`
abbrev pub is_known_true : Truth → Bool
is_known_true (some b) = b
is_known_true none = false

-- What `asComparable` returns.
pub data Comparable (N : Type 0) : Type 0 where
  a_string : String → Comparable N
  a_number : N → Comparable N
  a_boolean : Bool → Comparable N

pub data Sign : Type 0 where
  less same more : Sign

-- A comparison, `null` where the two values cannot be compared.
ordered_by : (Sign → Bool) → Option Sign → Truth
ordered_by test none = none
ordered_by test (some c) = some (test c)

abbrev is_more : Sign → Bool
is_more Sign.more = true
is_more _ = false

abbrev is_less : Sign → Bool
is_less Sign.less = true
is_less _ = false

-- JavaScript's `lower && upper`: a false or null lower end is the result.
and_then : Truth → Truth → Truth
and_then (some true) upper = upper
and_then lower _ = lower

module _ {N : Type 0} ⦃num : Numbers N⦄ where
  as_comparable : Value N → Option (Comparable N)
  as_comparable (date t) = some (a_number t)
  as_comparable (string s) = some (a_string s)
  as_comparable (number x) = some (a_number x)
  as_comparable (boolean b) = some (a_boolean b)
  as_comparable _ = none

  -- `new Date(right)` beside a date on the left, and the other way round.
  as_date_beside : Value N → Value N → Value N
  as_date_beside (date _) (string s) = date (num.parse_date s)
  as_date_beside _ v = v

  -- `a < b` on strings and numbers; a string beside a number becomes a number.
  less_than : Comparable N → Comparable N → Bool
  less_than (a_string s) (a_string t) = str_lt s t
  less_than (a_string s) (a_number y) = num.lt (num.of_string s) y
  less_than (a_number x) (a_string t) = num.lt x (num.of_string t)
  less_than (a_number x) (a_number y) = num.lt x y
  less_than _ _ = false

  by_order : Comparable N → Comparable N → Sign
  by_order a b = if less_than a b then Sign.less else if less_than b a then Sign.more else Sign.same

  -- If either side is a boolean, `a === b ? 0 : a === true ? 1 : -1`.
  compare_comparable : Comparable N → Comparable N → Sign
  unfolding less_than by_order
  compare_comparable (a_boolean true) (a_boolean true) = Sign.same
  compare_comparable (a_boolean false) (a_boolean false) = Sign.same
  compare_comparable (a_boolean true) _ = Sign.more
  compare_comparable (a_boolean false) _ = Sign.less
  compare_comparable (a_string _) (a_boolean _) = Sign.less
  compare_comparable (a_number _) (a_boolean _) = Sign.less
  compare_comparable a b = by_order a b

  compare_both : Option (Comparable N) → Option (Comparable N) → Option Sign
  compare_both (some a) (some b) = some (compare_comparable a b)
  compare_both _ _ = none

  pub compare_values : Value N → Value N → Option Sign
  unfolding as_comparable as_date_beside compare_comparable compare_both
  compare_values left right =
      let right' = as_date_beside left right in
      compare_both (as_comparable (as_date_beside right' left)) (as_comparable right')

  values_equal_defined : Value N → Value N → Bool
  unfolding strict_equal
  values_equal_defined (date s) (date t) = num.eq s t
  values_equal_defined (date s) (string t) = num.eq s (num.parse_date t)
  values_equal_defined (string s) (date t) = num.eq (num.parse_date s) t
  values_equal_defined a b = strict_equal a b

  unfoldable pub values_equal : Value N → Value N → Bool
  unfolding values_equal_defined
  values_equal undefined right = is_nullish right
  values_equal left undefined = is_nullish left
  values_equal left right = values_equal_defined left right

  abbrev as_array : Value N → List (Value N)
  as_array (array _ vs) = elements vs
  as_array _ = []

  includes_value : Value N → Value N → Bool
  includes_value (array _ vs) candidate =
      if is_null candidate then false else any (λ item. values_equal item candidate) (elements vs)
  includes_value container candidate =
      if is_nullish container || is_null candidate then false else values_equal container candidate

  includes_all_of : Value N → List (Value N) → Bool
  includes_all_of container candidates =
      is_array container && all (includes_value container) candidates

  string_test : (List ℕ → List ℕ → Bool) → Value N → Value N → Bool
  string_test test (string s) (string t) = test (codes t) (codes s)
  string_test test _ _ = false

  is_empty_value : Value N → Bool
  is_empty_value (array _ vs) = is_empty (elements vs)
  is_empty_value undefined = true
  is_empty_value null = true
  is_empty_value (string s) = s === ""
  is_empty_value _ = false

  -- The ends of a range: `from` and `to` of an object, absent on a date.
  as_range : Value N → Option (Value N × Value N)
  as_range (object _ ps) = some (get_prop "from" ps, get_prop "to" ps)
  as_range (date _) = some (undefined, undefined)
  as_range _ = none

  bound : (Sign → Bool) → Value N → Value N → Truth
  bound test actual undefined = some true
  bound test actual limit = ordered_by test (compare_values actual limit)

  between_truth : Value N → Option (Value N × Value N) → Truth
  between_truth actual none = some false
  between_truth actual (some (from, to)) =
      and_then (bound (λ c. negate (is_less c)) actual from)
        (bound (λ c. negate (is_more c)) actual to)

  in_list : Value N → List (Value N) → Bool
  in_list actual vs =
      negate (is_nullish actual || is_array actual)
      && any (λ v. negate (is_null v) && values_equal actual v) vs

  eq_truth : Value N → Value N → Truth
  eq_truth actual expected =
      if is_nullish actual && negate (is_null expected)
      then none
      else some (values_equal actual expected)

  neq_truth : Value N → Value N → Truth
  neq_truth actual expected =
      if is_nullish actual then none else some (negate (values_equal actual expected))

  abbrev is_boolean_of : Bool → Value N → Bool
  is_boolean_of b (boolean c) = if b then c else negate c
  is_boolean_of b _ = false

  evaluate_op : PredicateOp → Value N → Value N → Truth
  unfolding includes_value includes_all_of string_test is_empty_value ordered_by as_range bound
      and_then between_truth in_list eq_truth neq_truth
  evaluate_op PredicateOp.eq actual expected = eq_truth actual expected
  evaluate_op PredicateOp.neq actual expected = neq_truth actual expected
  evaluate_op PredicateOp.contains actual expected = some (string_test has_infix actual expected)
  evaluate_op PredicateOp.starts_with actual expected =
      some (string_test has_prefix actual expected)
  evaluate_op PredicateOp.ends_with actual expected = some (string_test has_suffix actual expected)
  evaluate_op PredicateOp.is_empty actual expected = some (is_empty_value actual)
  evaluate_op PredicateOp.is_not_empty actual expected = some (negate (is_empty_value actual))
  evaluate_op PredicateOp.gt actual expected = ordered_by is_more (compare_values actual expected)
  evaluate_op PredicateOp.lt actual expected = ordered_by is_less (compare_values actual expected)
  evaluate_op PredicateOp.gte actual expected =
      ordered_by (λ c. negate (is_less c)) (compare_values actual expected)
  evaluate_op PredicateOp.lte actual expected =
      ordered_by (λ c. negate (is_more c)) (compare_values actual expected)
  evaluate_op PredicateOp.is_true actual expected = some (is_boolean_of true actual)
  evaluate_op PredicateOp.is_false actual expected = some (is_boolean_of false actual)
  evaluate_op PredicateOp.is_null actual expected = some (is_nullish actual)
  evaluate_op PredicateOp.is_not_null actual expected = some (negate (is_nullish actual))
  evaluate_op PredicateOp.in_ actual expected = some (in_list actual (as_array expected))
  evaluate_op PredicateOp.includes_any actual expected =
      some (is_array actual && any (includes_value actual) (as_array expected))
  evaluate_op PredicateOp.includes_all actual expected =
      some (includes_all_of actual (as_array expected))
  evaluate_op PredicateOp.between actual expected = between_truth actual (as_range expected)

  unfoldable pub evaluate_condition : Props N → PredicateCondition N → Truth
  unfolding evaluate_op
  evaluate_condition record_ c = evaluate_op c.op (get_prop c.field record_) c.value

  unfoldable mutual
    pub evaluate_truth : Props N → PredicateNode N → Truth
    evaluate_truth r (condition c) = evaluate_condition r c
    evaluate_truth r (and ps) = reduce_and r (some true) ps
    evaluate_truth r (or ps) = reduce_or r (some false) ps
    evaluate_truth r (not p) = not3 (evaluate_truth r p)
    evaluate_truth r (literal b) = some b

    pub reduce_and : Props N → Truth → Filters N → Truth
    reduce_and r truth nil = truth
    reduce_and r truth (cons p ps) = reduce_and r (and3 truth (evaluate_truth r p)) ps

    pub reduce_or : Props N → Truth → Filters N → Truth
    reduce_or r truth nil = truth
    reduce_or r truth (cons p ps) = reduce_or r (or3 truth (evaluate_truth r p)) ps

  unfoldable pub evaluate_predicate : Props N → PredicateNode N → Bool
  evaluate_predicate r p = is_known_true (evaluate_truth r p)
