-- ===== src/Policy/Between.antt =====
-- The operator "between" on ordered fields: policyClauseToPredicate of
-- packages/core/src/domain/abacConditionCompiler.ts with coercePolicyValue.ts.
use kittle.Base.{
  String, Bool, true, false, ◌≡◌, refl, ap, ◌∙◌, lookup, Option, none, some, List, Result, ok, err,
  is_ok, ◌>>=◌, if◌then◌else◌,
}
use kittle.Js.{
  Numbers, Value, undefined, null, boolean, number, string, date, array, object, is_nullish,
}
use kittle.Predicate.Supported.{AbacFieldType}
use kittle.Policy.{PolicyOperator, PolicyFilterClause, CompileError, Coercions, coerce_policy_value}
use kittle.Policy.Compile.{
  AbacContext, one_error, to_between_value, compile_between, list_or_undefined, compile_field,
  policy_clause_to_predicate, assert_user_attr_resolved, resolve_clause_value,
  PredicateCompileResult,
}

-- The field types on which "between" may be asked.
abbrev pub is_ordered_type : AbacFieldType → Bool
is_ordered_type AbacFieldType.number_ = true
is_ordered_type AbacFieldType.date_ = true
is_ordered_type AbacFieldType.datetime = true
is_ordered_type _ = false

-- A clause with the operator "between" that is not bound to the caller.
abbrev pub between_clause :
    {N : Type 0} → String → Value N → Option (List (Value N)) → PolicyFilterClause N
between_clause field v values = record {
  field = field;
  operator = some PolicyOperator.between;
  value = v;
  values = values;
  user_attr = none;
}

never : {N : Type 0} → List CompileError → Value N → PredicateCompileResult N
never es v = err es

refused :
    {N : Type 0} (es : List CompileError) (x : Result CompileError (Value N))
    → is_ok (one_error x >>= never es) ≡ false
unfolding never
refused es (err e) = refl
refused es (ok v) = refl

module _ {N : Type 0} ⦃num : Numbers N⦄ ⦃co : Coercions N⦄ where
  -- A value that is coerced is no range, and a range is not coerced.
  coerced-refused :
      (field : String) (type : AbacFieldType) (raw v : Value N)
      → is_ordered_type type ≡ true
      → is_ok (
          one_error (coerce_policy_value type v) >>= λ w.
          compile_between field type (to_between_value (if is_nullish v then raw else v)))
        ≡ false
  unfolding coerce_policy_value never
  coerced-refused field AbacFieldType.number_ raw undefined h = refl
  coerced-refused field AbacFieldType.number_ raw null h = refl
  coerced-refused field AbacFieldType.number_ raw (array i vs) h = refl
  coerced-refused field AbacFieldType.number_ raw (object i ps) h = refl
  coerced-refused field AbacFieldType.number_ raw (boolean b) h = refl
  coerced-refused field AbacFieldType.number_ raw (date t) h = refl
  coerced-refused field AbacFieldType.number_ raw (number x) h =
      refused {N = N} _ (coerce_policy_value AbacFieldType.number_ (number x))
  coerced-refused field AbacFieldType.number_ raw (string s) h =
      refused {N = N} _ (coerce_policy_value AbacFieldType.number_ (string s))
  coerced-refused field AbacFieldType.date_ raw undefined h = refl
  coerced-refused field AbacFieldType.date_ raw null h = refl
  coerced-refused field AbacFieldType.date_ raw (array i vs) h = refl
  coerced-refused field AbacFieldType.date_ raw (object i ps) h = refl
  coerced-refused field AbacFieldType.date_ raw (boolean b) h = refl
  coerced-refused field AbacFieldType.date_ raw (number x) h = refl
  coerced-refused field AbacFieldType.date_ raw (date t) h =
      refused {N = N} _ (coerce_policy_value AbacFieldType.date_ (date t))
  coerced-refused field AbacFieldType.date_ raw (string s) h =
      refused {N = N} _ (coerce_policy_value AbacFieldType.date_ (string s))
  coerced-refused field AbacFieldType.datetime raw undefined h = refl
  coerced-refused field AbacFieldType.datetime raw null h = refl
  coerced-refused field AbacFieldType.datetime raw (array i vs) h = refl
  coerced-refused field AbacFieldType.datetime raw (object i ps) h = refl
  coerced-refused field AbacFieldType.datetime raw (boolean b) h = refl
  coerced-refused field AbacFieldType.datetime raw (number x) h = refl
  coerced-refused field AbacFieldType.datetime raw (date t) h =
      refused {N = N} _ (coerce_policy_value AbacFieldType.datetime (date t))
  coerced-refused field AbacFieldType.datetime raw (string s) h =
      refused {N = N} _ (coerce_policy_value AbacFieldType.datetime (string s))
  coerced-refused field AbacFieldType.string_ raw v h = absurd (let f : ⊥ = cc in f)
  coerced-refused field AbacFieldType.boolean_ raw v h = absurd (let f : ⊥ = cc in f)
  coerced-refused field AbacFieldType.identifier raw v h = absurd (let f : ⊥ = cc in f)
  coerced-refused field AbacFieldType.string_array raw v h = absurd (let f : ⊥ = cc in f)

  -- On a number, date or datetime field, a clause with the operator "between" that is not bound to
  -- an attribute of the caller compiles for no value and no list of values.
  pub policy_clause_to_predicate-between :
      (field : String) (v : Value N) (values : Option (List (Value N))) (context : AbacContext N)
      (catalog : List (String × AbacFieldType)) (type : AbacFieldType)
      → lookup field catalog ≡ some type
      → is_ordered_type type ≡ true
      → is_ok (policy_clause_to_predicate (between_clause field v values) context catalog) ≡ false
  unfolding policy_clause_to_predicate assert_user_attr_resolved resolve_clause_value
  policy_clause_to_predicate-between field v values context catalog type found ordered =
      ap (λ t. is_ok (compile_field (between_clause field v values) context t)) found
      ∙ coerced-refused field type (list_or_undefined values) v ordered
