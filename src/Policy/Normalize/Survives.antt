-- ===== src/Policy/Normalize/Survives.antt =====
-- The conditions that the searches of packages/core/src/domain/abacPolicyNormalizer.ts leave in a
-- normalized policy.
use kittle.Base.{
  String, lookup, Bool, true, false, ◌&&◌, ◌||◌, Option, none, some, List, [], ◌∷◌, all,
  if◌then◌else◌, ◌≡◌, refl, sym, ap, ap₂, ◌∙◌, arith, and_first, and_rest,
}
use kittle.Js.{Value}
use kittle.Predicate.{
  PredicateOp, PredicateCondition, PredicateNode, Filters, condition, and, or, not, literal,
}
use kittle.Predicate.Supported.{
  AbacFieldType, Issue, or_else, is_text_op, is_order_op, is_includes_op, is_empty_op, non_portable,
  find_unsupported_predicate_combination, find_non_portable_predicate,
}
use kittle.Predicate.Supported.First.{
  is_none, fits, fits_at, is_supported, conditions, conditions_in, first_some, first_some-none,
  first_some-append, or_else-none, find_unsupported_predicate_combination-supported,
  find_non_portable_predicate-first,
}
use kittle.Policy.Normalize.{
  is_date_field, security_violation, find_non_portable_security_predicate,
  find_non_portable_security_in, reported, predicate_error,
}

-- The operators that a policy may use on a field of each type.
abbrev survives : AbacFieldType → PredicateOp → Bool
survives _ PredicateOp.is_null = true
survives _ PredicateOp.is_not_null = true
survives AbacFieldType.string_array _ = false
survives _ PredicateOp.eq = true
survives _ PredicateOp.neq = true
survives AbacFieldType.number_ PredicateOp.gt = true
survives AbacFieldType.number_ PredicateOp.lt = true
survives AbacFieldType.number_ PredicateOp.gte = true
survives AbacFieldType.number_ PredicateOp.lte = true
survives AbacFieldType.number_ PredicateOp.between = true
survives AbacFieldType.boolean_ PredicateOp.is_true = true
survives AbacFieldType.boolean_ PredicateOp.is_false = true
survives _ _ = false

abbrev is_insecure : AbacFieldType → PredicateOp → Bool
is_insecure type op = is_text_op op || (is_date_field (some type) && is_order_op op)

abbrev survives_type : Option AbacFieldType → PredicateOp → Bool
survives_type none op = false
survives_type (some type) op = survives type op

is_none-guard :
    {B : Type 0} (b : Bool) (x : B) → is_none (if b then some x else none) ≡ true → b ≡ false
is_none-guard true x h = ground arith
is_none-guard false x h = refl

module _ {N : Type 0} where
  survives-lem :
      (type : AbacFieldType) (op : PredicateOp) (value : Value N)
      → fits op type value ≡ true
      → (is_includes_op op || is_empty_op op) ≡ false
      → is_insecure type op ≡ false
      → survives type op ≡ true
  survives-lem AbacFieldType.string_ op value fit portable secure = ground arith
  survives-lem AbacFieldType.number_ op value fit portable secure = ground arith
  survives-lem AbacFieldType.boolean_ op value fit portable secure = ground arith
  survives-lem AbacFieldType.date_ op value fit portable secure = ground arith
  survives-lem AbacFieldType.datetime op value fit portable secure = ground arith
  survives-lem AbacFieldType.identifier op value fit portable secure = ground arith
  survives-lem AbacFieldType.string_array op value fit portable secure = ground arith

  -- The field is declared, with an operator that survives.
  abbrev pub survives_at : List (String × AbacFieldType) → PredicateCondition N → Bool
  survives_at fields c = survives_type (lookup c.field fields) c.op

  survives_type-lem :
      (o : Option AbacFieldType) (c : PredicateCondition N)
      → fits_at c o ≡ true
      → (is_includes_op c.op || is_empty_op c.op) ≡ false
      → (is_text_op c.op || (is_date_field o && is_order_op c.op)) ≡ false
      → survives_type o c.op ≡ true
  survives_type-lem none c fit portable secure = ground arith
  survives_type-lem (some type) c fit portable secure =
      survives-lem type c.op c.value fit portable secure

  mutual
    unfolding find_non_portable_security_predicate find_non_portable_security_in conditions
        conditions_in

    security_first :
        (fields : List (String × AbacFieldType)) (p : PredicateNode N)
        → find_non_portable_security_predicate fields p
          ≡ first_some (security_violation fields) (conditions p)
    security_first fields (condition c) = sym (or_else-none (security_violation fields c))
    security_first fields (and filters) = security_in fields filters
    security_first fields (or filters) = security_in fields filters
    security_first fields (not filter) = security_first fields filter
    security_first fields (literal _) = refl

    security_in :
        (fields : List (String × AbacFieldType)) (ps : Filters N)
        → find_non_portable_security_in fields ps
          ≡ first_some (security_violation fields) (conditions_in ps)
    security_in fields Filters.nil = refl
    security_in fields (Filters.cons p ps) =
        ap₂ or_else (security_first fields p) (security_in fields ps)
        ∙ sym (first_some-append (security_violation fields) (conditions p) (conditions_in ps))

  reported-none :
      (o o' : Option (PredicateCondition N)) (i : Option (PredicateCondition N × Issue))
      → is_none (reported o o' i) ≡ (is_none o && (is_none o' && is_none i))
  reported-none (some c) o' i = refl
  reported-none none (some c) i = refl
  reported-none none none (some (c, issue)) = refl
  reported-none none none none = refl

  -- What three tests give of each condition, they give of all.
  all_of_three :
      (p q r s : PredicateCondition N → Bool) (cs : List (PredicateCondition N))
      → ((c : PredicateCondition N) → p c ≡ true → q c ≡ true → r c ≡ true → s c ≡ true)
      → all p cs ≡ true
      → all q cs ≡ true
      → all r cs ≡ true
      → all s cs ≡ true
  all_of_three p q r s [] h hp hq hr = refl
  all_of_three p q r s (c ∷ cs) h hp hq hr =
      ap₂ (λ a b. a && b) (h c (ground arith) (ground arith) (ground arith))
        (all_of_three p q r s cs h (ground arith) (ground arith) (ground arith))

  -- A predicate that no search reports has only conditions that survive.
  pub predicate_error-survives :
      (fields : List (String × AbacFieldType)) (p : PredicateNode N)
      → is_none (predicate_error fields p) ≡ true
      → all (survives_at fields) (conditions p) ≡ true
  unfolding predicate_error
  predicate_error-survives fields p h =
      let cs = conditions p in
      let portable = is_none (find_non_portable_predicate p) in
      let secure = is_none (find_non_portable_security_predicate fields p) in
      let found =
        sym (
          reported-none (find_non_portable_predicate p)
            (find_non_portable_security_predicate fields p)
            (find_unsupported_predicate_combination fields p))
        ∙ h in
      all_of_three (λ c. is_none (non_portable c)) (λ c. is_none (security_violation fields c))
        (is_supported fields) (survives_at fields) cs
        (λ c free trusted fit.
          survives_type-lem (lookup c.field fields) c fit
            (is_none-guard (is_includes_op c.op || is_empty_op c.op) c free)
            (is_none-guard
              (is_text_op c.op || (is_date_field (lookup c.field fields) && is_order_op c.op)) c
              trusted))
        (sym (ap is_none (find_non_portable_predicate-first p) ∙ first_some-none non_portable cs)
          ∙ and_first portable _ found)
        (sym (ap is_none (security_first fields p) ∙ first_some-none (security_violation fields) cs)
          ∙ and_first secure _ (and_rest portable _ found))
        (sym (find_unsupported_predicate_combination-supported fields p)
          ∙ and_rest secure _ (and_rest portable _ found))
