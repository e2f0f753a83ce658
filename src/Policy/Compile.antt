-- ===== src/Policy/Compile.antt =====
-- packages/core/src/domain/abacConditionCompiler.ts: policy conditions as predicates. A result that
-- is no success carries its errors in order, where the code joins their messages. The arrays and
-- ranges that the compiler makes have the identity 0.
use kittle.Base.{
  String, ◌===◌, str_mem, lookup, Bool, true, false, ◌&&◌, filter, Option, none, some, List, [],
  ◌∷◌, ◌++◌, Result, ok, err, ◌>>=◌, if◌then◌else◌,
}
use kittle.Js.{
  Numbers, Value, undefined, null, boolean, number, string, date, array, object, Values, Props,
  prop, end, elements, get_prop, is_nullish, is_undefined,
}
use kittle.Js
use kittle.Predicate.{
  PredicateOp, PredicateNode, condition, and, or, filters_of, always_true, always_false,
}
use kittle.Predicate.Supported.{AbacFieldType}
use kittle.Policy.{
  PolicyOperator, PolicyGroupLogic, logic_and, logic_or, PolicyFilterClause, PolicyConditionGroup,
  group, Conditions, nil, clause, nested, PolicyConditions, CompileError, Coercions,
  coerce_policy_value, coerce_policy_value_list,
}

-- The attributes of the caller; one that is absent is `undefined`.
pub record AbacContext (N : Type 0) : Type 0 where
  pub user_id : Value N
  pub role_id : Value N
  pub branch_id : Value N
  pub department_id : Value N
  pub tenant_id : Value N

abbrev pub PredicateCompileResult : Type 0 → Type 0
PredicateCompileResult N = Result (List CompileError) (PredicateNode N)

-- `ALLOWED_USER_ATTRS`
abbrev pub allowed_user_attrs : List String
allowed_user_attrs =
    "user.id" ∷ "user.roleId" ∷ "user.branchId" ∷ "user.departmentId" ∷ "user.tenantId" ∷ []

-- `normalizeUserAttribute(input) !== undefined`
abbrev is_user_attribute : String → Bool
is_user_attribute s = str_mem s allowed_user_attrs

abbrev is_user_bound : Option String → Bool
is_user_bound none = false
is_user_bound (some s) = is_user_attribute s

-- The operators without a value.
abbrev pub no_value_op : PolicyOperator → Option PredicateOp
no_value_op PolicyOperator.is_empty_ = some PredicateOp.is_empty
no_value_op PolicyOperator.is_not_empty = some PredicateOp.is_not_empty
no_value_op PolicyOperator.is_true = some PredicateOp.is_true
no_value_op PolicyOperator.is_false = some PredicateOp.is_false
no_value_op PolicyOperator.is_null = some PredicateOp.is_null
no_value_op PolicyOperator.is_not_null = some PredicateOp.is_not_null
no_value_op _ = none

-- The operators on a list of values.
abbrev pub list_op : PolicyOperator → Option PredicateOp
list_op PolicyOperator.includes_any = some PredicateOp.includes_any
list_op PolicyOperator.includes_all = some PredicateOp.includes_all
list_op PolicyOperator.in_ = some PredicateOp.in_
list_op _ = none

abbrev or_equals : Option PolicyOperator → PolicyOperator
or_equals none = PolicyOperator.equals
or_equals (some op) = op

module _ {N : Type 0} where
  abbrev resolve_user_attr : AbacContext N → String → Value N
  resolve_user_attr context s =
      if s === "user.id"
      then context.user_id
      else (if s === "user.roleId"
          then context.role_id
          else (if s === "user.branchId"
              then context.branch_id
              else (if s === "user.departmentId"
                  then context.department_id
                  else (if s === "user.tenantId" then context.tenant_id else undefined))))

  -- An empty attribute name is falsy.
  abbrev resolve_from : AbacContext N → Option String → Value N → Value N
  resolve_from context none v = v
  resolve_from context (some s) v = if s === "" then v else resolve_user_attr context s

  unfoldable pub resolve_clause_value : PolicyFilterClause N → AbacContext N → Value N
  resolve_clause_value c context = resolve_from context c.user_attr c.value

  abbrev pub is_primitive : Value N → Bool
  is_primitive undefined = false
  is_primitive (array _ _) = false
  is_primitive (object _ _) = false
  is_primitive _ = true

  abbrev as_primitive : Value N → Option (Value N)
  as_primitive v = if is_primitive v then some v else none

  abbrev pub values_of : List (Value N) → Values N
  values_of [] = Js.nil
  values_of (v ∷ vs) = Js.cons v (values_of vs)

  abbrev pub condition_of : String → PredicateOp → Value N → PredicateNode N
  condition_of field op v = condition (record { field = field; op = op; value = v })

  abbrev pub combine_or : List (PredicateNode N) → PredicateNode N
  combine_or [] = always_false
  combine_or (p ∷ []) = p
  combine_or (p ∷ q ∷ ps) = or (filters_of (p ∷ q ∷ ps))

  abbrev pub combine_and : List (PredicateNode N) → PredicateNode N
  combine_and [] = always_false
  combine_and (p ∷ []) = p
  combine_and (p ∷ q ∷ ps) = and (filters_of (p ∷ q ∷ ps))

-- A range with bounds that may be absent.
pub record PredicateRangeValue (N : Type 0) : Type 0 where
  pub from' : Option (Value N)
  pub to' : Option (Value N)

module _ {N : Type 0} where
  abbrev range_of : Option (Value N) → Option (Value N) → Option (PredicateRangeValue N)
  range_of none none = none
  range_of from' to' = some (record { from' = from'; to' = to' })

  -- An object's `from` and `to`, or the two elements of an array.
  abbrev pub to_between_value : Value N → Option (PredicateRangeValue N)
  to_between_value (array _ (Js.cons from' (Js.cons to' Js.nil))) =
      range_of (as_primitive from') (as_primitive to')
  to_between_value (object _ ps) =
      range_of (as_primitive (get_prop "from" ps)) (as_primitive (get_prop "to" ps))
  to_between_value _ = none

  abbrev bound_prop : String → Option (Value N) → Props N → Props N
  bound_prop k none ps = ps
  bound_prop k (some v) ps = prop k v ps

  abbrev range_value : Option (Value N) → Option (Value N) → Value N
  range_value from' to' = object 0 (bound_prop "from" from' (bound_prop "to" to' end))

  abbrev pub list_or_undefined : Option (List (Value N)) → Value N
  list_or_undefined none = undefined
  list_or_undefined (some vs) = array 0 (values_of vs)

  -- `clause.value ?? clause.values`
  abbrev pub raw_between : PolicyFilterClause N → Value N
  raw_between c = if is_nullish c.value then list_or_undefined c.values else c.value

  abbrev raw_values : Option (List (Value N)) → Value N → List (Value N)
  raw_values none v = if is_undefined v then [] else v ∷ []
  raw_values (some vs) v = vs

  abbrev list_predicate : String → PredicateOp → List (Value N) → PredicateNode N
  list_predicate field op [] = always_false
  list_predicate field op (v ∷ vs) = condition_of field op (array 0 (values_of (v ∷ vs)))

  abbrev text_predicate : String → PredicateOp → Value N → PredicateCompileResult N
  text_predicate field op (string s) = ok (condition_of field op (string s))
  text_predicate field op _ = err (CompileError.requires_string ∷ [])

  -- The operators on one value; the others do not come here.
  abbrev primitive_predicate : String → PolicyOperator → Value N → PredicateCompileResult N
  primitive_predicate field PolicyOperator.equals v = ok (condition_of field PredicateOp.eq v)
  primitive_predicate field PolicyOperator.not_equals v = ok (condition_of field PredicateOp.neq v)
  primitive_predicate field PolicyOperator.contains v = text_predicate field PredicateOp.contains v
  primitive_predicate field PolicyOperator.starts_with v =
      text_predicate field PredicateOp.starts_with v
  primitive_predicate field PolicyOperator.ends_with v =
      text_predicate field PredicateOp.ends_with v
  primitive_predicate field PolicyOperator.greater_than v = ok (condition_of field PredicateOp.gt v)
  primitive_predicate field PolicyOperator.after v = ok (condition_of field PredicateOp.gt v)
  primitive_predicate field PolicyOperator.less_than v = ok (condition_of field PredicateOp.lt v)
  primitive_predicate field PolicyOperator.before v = ok (condition_of field PredicateOp.lt v)
  primitive_predicate field PolicyOperator.greater_or_equal v =
      ok (condition_of field PredicateOp.gte v)
  primitive_predicate field PolicyOperator.less_or_equal v =
      ok (condition_of field PredicateOp.lte v)
  primitive_predicate field _ v = err (CompileError.invalid_value ∷ [])

-- One error, where the result of a coercion is handed on.
abbrev pub one_error : {A : Type 0} → Result CompileError A → Result (List CompileError) A
one_error (err e) = err (e ∷ [])
one_error (ok a) = ok a

abbrev is_between : PolicyOperator → Bool
is_between PolicyOperator.between = true
is_between _ = false

abbrev is_string_array : AbacFieldType → Bool
is_string_array AbacFieldType.string_array = true
is_string_array _ = false

module _ {N : Type 0} ⦃num : Numbers N⦄ ⦃co : Coercions N⦄ where
  -- The clause is refused where a scalar operator asks for an attribute that the caller lacks.
  unfoldable pub assert_user_attr_resolved :
      Option String → Value N → Result (List CompileError) (Unit {0})
  assert_user_attr_resolved attr v =
      if is_user_bound attr && is_undefined v
      then err (CompileError.unresolved_attribute ∷ [])
      else ok tt

  -- The coerced values up to the first error.
  abbrev coerce_each : AbacFieldType → List (Value N) → Result (List CompileError) (List (Value N))
  unfolding coerce_policy_value
  coerce_each type [] = ok []
  coerce_each type (v ∷ vs) =
      one_error (coerce_policy_value type v) >>= λ w. coerce_each type vs >>= λ ws. ok (w ∷ ws)

  abbrev compile_list :
      String → AbacFieldType → PredicateOp → List (Value N) → PredicateCompileResult N
  unfolding coerce_policy_value coerce_policy_value_list
  compile_list field type op vs =
      if is_string_array type
      then (coerce_policy_value_list type vs >>= λ ws. ok (list_predicate field op ws))
      else coerce_each type vs >>= λ ws. ok (list_predicate field op (filter is_primitive ws))

  abbrev as_bound : CompileError → Value N → Result (List CompileError) (Option (Value N))
  as_bound e v = if is_primitive v then ok (some v) else err (e ∷ [])

  abbrev compile_bound :
      AbacFieldType
      → CompileError
      → Option (Value N)
      → Result (List CompileError) (Option (Value N))
  unfolding coerce_policy_value
  compile_bound type e none = ok none
  compile_bound type e (some v) = one_error (coerce_policy_value type v) >>= λ w. as_bound e w

  abbrev pub compile_between :
      String → AbacFieldType → Option (PredicateRangeValue N) → PredicateCompileResult N
  unfolding coerce_policy_value
  compile_between field type none = err (CompileError.invalid_between ∷ [])
  compile_between field type (some range) =
      compile_bound type CompileError.lower_bound range.from' >>= λ from'.
      compile_bound type CompileError.upper_bound range.to' >>= λ to'.
      ok (condition_of field PredicateOp.between (range_value from' to'))

  abbrev compile_coerced :
      PolicyFilterClause N → AbacFieldType → PolicyOperator → Value N → PredicateCompileResult N
  unfolding coerce_policy_value
  compile_coerced c type op v =
      if is_between op
      then compile_between c.field type (to_between_value (raw_between c))
      else (if is_primitive v then primitive_predicate c.field op v else ok always_false)

  abbrev compile_scalar :
      PolicyFilterClause N → AbacFieldType → PolicyOperator → Value N → PredicateCompileResult N
  unfolding coerce_policy_value assert_user_attr_resolved
  compile_scalar c type op v = assert_user_attr_resolved c.user_attr v >>= λ _.
      one_error (coerce_policy_value type v) >>= λ w. compile_coerced c type op w

  abbrev compile_valued :
      PolicyFilterClause N
      → AbacFieldType
      → PolicyOperator
      → Option PredicateOp
      → Value N
      → PredicateCompileResult N
  unfolding coerce_policy_value coerce_policy_value_list assert_user_attr_resolved
  compile_valued c type op none v = compile_scalar c type op v
  compile_valued c type op (some o) v = compile_list c.field type o (raw_values c.values v)

  abbrev compile_op :
      PolicyFilterClause N
      → AbacContext N
      → AbacFieldType
      → PolicyOperator
      → Option PredicateOp
      → PredicateCompileResult N
  unfolding coerce_policy_value coerce_policy_value_list assert_user_attr_resolved
      resolve_clause_value
  compile_op c context type op (some o) = ok (condition_of c.field o undefined)
  compile_op c context type op none =
      compile_valued c type op (list_op op) (resolve_clause_value c context)

  abbrev pub compile_field :
      PolicyFilterClause N → AbacContext N → Option AbacFieldType → PredicateCompileResult N
  unfolding coerce_policy_value coerce_policy_value_list assert_user_attr_resolved
      resolve_clause_value
  compile_field c context none = err (CompileError.unknown_field ∷ [])
  compile_field c context (some type) =
      let op = or_equals c.operator in compile_op c context type op (no_value_op op)

  -- The catalog lists the types of the module's fields.
  unfoldable pub policy_clause_to_predicate :
      PolicyFilterClause N
      → AbacContext N
      → List (String × AbacFieldType)
      → PredicateCompileResult N
  unfolding coerce_policy_value coerce_policy_value_list assert_user_attr_resolved
      resolve_clause_value
  policy_clause_to_predicate c context catalog = compile_field c context (lookup c.field catalog)

module _ {N : Type 0} where
  abbrev pub add_result :
      PredicateCompileResult N
      → Result (List CompileError) (List (PredicateNode N))
      → Result (List CompileError) (List (PredicateNode N))
  add_result (ok p) (ok ps) = ok (p ∷ ps)
  add_result (ok p) (err es) = err es
  add_result (err es) (ok ps) = err es
  add_result (err es) (err fs) = err (es ++ fs)

  -- The errors of all results, or their predicates.
  abbrev pub gather :
      List (PredicateCompileResult N) → Result (List CompileError) (List (PredicateNode N))
  gather [] = ok []
  gather (r ∷ rs) = add_result r (gather rs)

  abbrev pub combine : PolicyGroupLogic → List (PredicateNode N) → PredicateNode N
  combine logic_or ps = combine_or ps
  combine logic_and ps = combine_and ps

  abbrev empty_group : PolicyGroupLogic → PredicateNode N
  empty_group logic_and = always_true
  empty_group logic_or = always_false

  abbrev pub combine_results :
      PolicyGroupLogic → List (PredicateCompileResult N) → PredicateCompileResult N
  combine_results logic [] = ok (empty_group logic)
  combine_results logic (r ∷ rs) = gather (r ∷ rs) >>= λ ps. ok (combine logic ps)

module _ {N : Type 0} ⦃num : Numbers N⦄ ⦃co : Coercions N⦄ (context : AbacContext N)
    (catalog : List (String × AbacFieldType)) where
  unfoldable mutual
    unfolding policy_clause_to_predicate

    pub condition_group_to_predicate : PolicyConditionGroup N → PredicateCompileResult N
    condition_group_to_predicate (group logic cs) = combine_results logic (condition_results cs)

    pub condition_results : Conditions N → List (PredicateCompileResult N)
    condition_results nil = []
    condition_results (clause c cs) =
        policy_clause_to_predicate c context catalog ∷ condition_results cs
    condition_results (nested g cs) = condition_group_to_predicate g ∷ condition_results cs

  unfoldable pub policy_conditions_to_predicate : PolicyConditions N → PredicateCompileResult N
  unfolding condition_group_to_predicate
  policy_conditions_to_predicate conditions =
      condition_group_to_predicate conditions.system_scope >>= λ s.
      condition_group_to_predicate conditions.user_filters >>= λ u. ok (combine_and (s ∷ u ∷ []))
