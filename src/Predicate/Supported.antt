-- ===== src/Predicate/Supported.antt =====
-- packages/core/src/domain/predicate.ts: the first condition of a predicate that does not fit the
-- type of its field, and the first that is not portable. An issue stands for its message.
pub mod First
use kittle.Base.{
  String, Bool, true, false, negate, ◌&&◌, ◌||◌, Option, none, some, List, lookup, if◌then◌else◌,
}
use kittle.Js.{
  Value, undefined, null, boolean, number, string, date, array, object, is_array, is_string,
}
use kittle.Predicate.{
  PredicateOp, PredicateCondition, PredicateNode, Filters, condition, and, or, not, literal,
}

-- `AbacFieldType` of coercePolicyValue.ts
pub data AbacFieldType : Type 0 where
  string_ number_ boolean_ date_ datetime identifier string_array : AbacFieldType

pub data Issue : Type 0 where
  unknown_field requires_scalar_field requires_array_field requires_array_value
        requires_string_field requires_ordered_field requires_boolean_field
        requires_string_or_array_field requires_scalar_value :
      Issue

abbrev is_scalar_field : AbacFieldType → Bool
is_scalar_field AbacFieldType.string_array = false
is_scalar_field _ = true

abbrev is_string_field : AbacFieldType → Bool
is_string_field AbacFieldType.string_ = true
is_string_field AbacFieldType.identifier = true
is_string_field _ = false

abbrev is_ordered_field : AbacFieldType → Bool
is_ordered_field AbacFieldType.number_ = true
is_ordered_field AbacFieldType.date_ = true
is_ordered_field AbacFieldType.datetime = true
is_ordered_field _ = false

abbrev is_boolean_field : AbacFieldType → Bool
is_boolean_field AbacFieldType.boolean_ = true
is_boolean_field _ = false

abbrev pub is_includes_op : PredicateOp → Bool
is_includes_op PredicateOp.includes_any = true
is_includes_op PredicateOp.includes_all = true
is_includes_op _ = false

abbrev pub is_empty_op : PredicateOp → Bool
is_empty_op PredicateOp.is_empty = true
is_empty_op PredicateOp.is_not_empty = true
is_empty_op _ = false

abbrev is_null_op : PredicateOp → Bool
is_null_op PredicateOp.is_null = true
is_null_op PredicateOp.is_not_null = true
is_null_op _ = false

-- The operators of the list for array fields.
abbrev is_array_op : PredicateOp → Bool
is_array_op op = is_includes_op op || (is_empty_op op || is_null_op op)

abbrev is_in_op : PredicateOp → Bool
is_in_op PredicateOp.in_ = true
is_in_op _ = false

abbrev pub is_text_op : PredicateOp → Bool
is_text_op PredicateOp.contains = true
is_text_op PredicateOp.starts_with = true
is_text_op PredicateOp.ends_with = true
is_text_op _ = false

abbrev is_between_op : PredicateOp → Bool
is_between_op PredicateOp.between = true
is_between_op _ = false

abbrev pub is_order_op : PredicateOp → Bool
is_order_op PredicateOp.gt = true
is_order_op PredicateOp.lt = true
is_order_op PredicateOp.gte = true
is_order_op PredicateOp.lte = true
is_order_op PredicateOp.between = true
is_order_op _ = false

abbrev is_truth_op : PredicateOp → Bool
is_truth_op PredicateOp.is_true = true
is_truth_op PredicateOp.is_false = true
is_truth_op _ = false

-- The first of two results: `if (issue) return issue`.
abbrev pub or_else {ℓ} : {A : Type ℓ} → Option A → Option A → Option A
or_else none later = later
or_else (some a) later = some a

module _ {N : Type 0} where
  -- `typeof null` is "object".
  abbrev is_object_value : Value N → Bool
  is_object_value null = true
  is_object_value (object _ _) = true
  is_object_value _ = false

  -- The tests on a condition of a known field, in the order of the code.
  unfoldable pub type_issue : AbacFieldType → PredicateOp → Value N → Option Issue
  type_issue type op value =
      let array_value = is_array value in
      let object_value = is_object_value value in
      let scalar = is_scalar_field type in
      if negate scalar && negate (is_array_op op)
      then some Issue.requires_scalar_field
      else (if is_includes_op op && scalar
          then some Issue.requires_array_field
          else (if is_in_op op && negate scalar
              then some Issue.requires_scalar_field
              else (if is_in_op op && negate array_value
                  then some Issue.requires_array_value
                  else (if is_text_op op
                        && (negate (is_string_field type) || negate (is_string value))
                      then some Issue.requires_string_field
                      else (if is_order_op op
                            && (negate (is_ordered_field type) || (array_value || object_value))
                          then some Issue.requires_ordered_field
                          else (if is_truth_op op && negate (is_boolean_field type)
                              then some Issue.requires_boolean_field
                              else (if is_empty_op op && (scalar && negate (is_string_field type))
                                  then some Issue.requires_string_or_array_field
                                  else (if scalar
                                        && ((array_value || object_value)
                                            && negate (is_between_op op))
                                      then some Issue.requires_scalar_value
                                      else none))))))))

  abbrev pub report : PredicateCondition N → Option Issue → Option (PredicateCondition N × Issue)
  report c none = none
  report c (some issue) = some (c, issue)

  -- Given the type of the condition's field, if it is declared.
  unfoldable pub issue_at :
      PredicateCondition N → Option AbacFieldType → Option (PredicateCondition N × Issue)
  unfolding type_issue
  issue_at c none = some (c, Issue.unknown_field)
  issue_at c (some type) = report c (type_issue type c.op c.value)

  unfoldable pub condition_issue :
      List (String × AbacFieldType) → PredicateCondition N → Option (PredicateCondition N × Issue)
  unfolding issue_at
  condition_issue fields c = issue_at c (lookup c.field fields)

  abbrev pub non_portable : PredicateCondition N → Option (PredicateCondition N)
  non_portable c = if is_includes_op c.op || is_empty_op c.op then some c else none

  unfoldable mutual
    pub find_unsupported_predicate_combination :
        List (String × AbacFieldType) → PredicateNode N → Option (PredicateCondition N × Issue)
    find_unsupported_predicate_combination fields (condition c) = condition_issue fields c
    find_unsupported_predicate_combination fields (and filters) = find_unsupported_in fields filters
    find_unsupported_predicate_combination fields (or filters) = find_unsupported_in fields filters
    find_unsupported_predicate_combination fields (not filter) =
        find_unsupported_predicate_combination fields filter
    find_unsupported_predicate_combination fields (literal _) = none

    pub find_unsupported_in :
        List (String × AbacFieldType) → Filters N → Option (PredicateCondition N × Issue)
    find_unsupported_in fields Filters.nil = none
    find_unsupported_in fields (Filters.cons p ps) =
        or_else (find_unsupported_predicate_combination fields p) (find_unsupported_in fields ps)

  unfoldable mutual
    pub find_non_portable_predicate : PredicateNode N → Option (PredicateCondition N)
    find_non_portable_predicate (condition c) = non_portable c
    find_non_portable_predicate (and filters) = find_non_portable_in filters
    find_non_portable_predicate (or filters) = find_non_portable_in filters
    find_non_portable_predicate (not filter) = find_non_portable_predicate filter
    find_non_portable_predicate (literal _) = none

    pub find_non_portable_in : Filters N → Option (PredicateCondition N)
    find_non_portable_in Filters.nil = none
    find_non_portable_in (Filters.cons p ps) =
        or_else (find_non_portable_predicate p) (find_non_portable_in ps)
