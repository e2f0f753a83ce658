-- ===== src/Predicate/Supported/First.antt =====
-- The searches find the first condition, and what a predicate without an issue looks like.
use kittle.Base.{
  ◌≡◌, refl, ◌∙◌, ap, ap₂, sym, String, Bool, true, false, negate, ◌&&◌, ◌||◌, Option, none, some,
  List, [], ◌∷◌, ◌++◌, lookup, arith, Option-cases, inl, inr, all,
}
use kittle.Js.{Value, is_array, is_string}
use kittle.Predicate.{
  PredicateOp, PredicateCondition, PredicateNode, Filters, condition, and, or, not, literal,
}
use kittle.Predicate.Supported.{
  AbacFieldType, Issue, or_else, type_issue, condition_issue, issue_at, report, non_portable,
  find_unsupported_predicate_combination, find_unsupported_in, find_non_portable_predicate,
  find_non_portable_in, is_scalar_field, is_string_field, is_ordered_field, is_boolean_field,
  is_object_value,
}

-- The first result on a list.
abbrev pub first_some {ℓ κ} : {A : Type ℓ} {B : Type κ} → (A → Option B) → List A → Option B
first_some f [] = none
first_some f (x ∷ xs) = or_else (f x) (first_some f xs)

-- What each operator asks of the field's type and of the value, one operator at a time.
abbrev is_scalar_value : {N : Type 0} → Value N → Bool
is_scalar_value value = negate (is_array value) && negate (is_object_value value)

abbrev pub fits : {N : Type 0} → PredicateOp → AbacFieldType → Value N → Bool
fits PredicateOp.eq type value = is_scalar_field type && is_scalar_value value
fits PredicateOp.neq type value = is_scalar_field type && is_scalar_value value
fits PredicateOp.contains type value = is_string_field type && is_string value
fits PredicateOp.starts_with type value = is_string_field type && is_string value
fits PredicateOp.ends_with type value = is_string_field type && is_string value
fits PredicateOp.is_empty type value =
    negate (is_scalar_field type) || (is_string_field type && is_scalar_value value)
fits PredicateOp.is_not_empty type value =
    negate (is_scalar_field type) || (is_string_field type && is_scalar_value value)
fits PredicateOp.gt type value = is_ordered_field type && is_scalar_value value
fits PredicateOp.lt type value = is_ordered_field type && is_scalar_value value
fits PredicateOp.gte type value = is_ordered_field type && is_scalar_value value
fits PredicateOp.lte type value = is_ordered_field type && is_scalar_value value
fits PredicateOp.is_true type value = is_boolean_field type && is_scalar_value value
fits PredicateOp.is_false type value = is_boolean_field type && is_scalar_value value
fits PredicateOp.is_null type value = negate (is_scalar_field type) || is_scalar_value value
fits PredicateOp.is_not_null type value = negate (is_scalar_field type) || is_scalar_value value
fits PredicateOp.in_ type value = false
fits PredicateOp.includes_any type value = negate (is_scalar_field type)
fits PredicateOp.includes_all type value = negate (is_scalar_field type)
fits PredicateOp.between type value = is_ordered_field type && is_scalar_value value

abbrev pub is_none {ℓ} : {A : Type ℓ} → Option A → Bool
is_none none = true
is_none (some _) = false

pub or_else-none : {B : Type 0} (o : Option B) → or_else o none ≡ o
or_else-none none = refl
or_else-none (some b) = refl

module _ {N : Type 0} where
  type_issue-fits :
      (type : AbacFieldType) (op : PredicateOp) (value : Value N)
      → is_none (type_issue type op value) ≡ fits op type value
  unfolding type_issue
  type_issue-fits type PredicateOp.eq value = ground arith
  type_issue-fits type PredicateOp.neq value = ground arith
  type_issue-fits type PredicateOp.contains value = ground arith
  type_issue-fits type PredicateOp.starts_with value = ground arith
  type_issue-fits type PredicateOp.ends_with value = ground arith
  type_issue-fits type PredicateOp.is_empty value = ground arith
  type_issue-fits type PredicateOp.is_not_empty value = ground arith
  type_issue-fits type PredicateOp.gt value = ground arith
  type_issue-fits type PredicateOp.lt value = ground arith
  type_issue-fits type PredicateOp.gte value = ground arith
  type_issue-fits type PredicateOp.lte value = ground arith
  type_issue-fits type PredicateOp.is_true value = ground arith
  type_issue-fits type PredicateOp.is_false value = ground arith
  type_issue-fits type PredicateOp.is_null value = ground arith
  type_issue-fits type PredicateOp.is_not_null value = ground arith
  type_issue-fits type PredicateOp.in_ value = ground arith
  type_issue-fits type PredicateOp.includes_any value = ground arith
  type_issue-fits type PredicateOp.includes_all value = ground arith
  type_issue-fits type PredicateOp.between value = ground arith

  unfoldable mutual
    pub conditions : PredicateNode N → List (PredicateCondition N)
    conditions (condition c) = c ∷ []
    conditions (and filters) = conditions_in filters
    conditions (or filters) = conditions_in filters
    conditions (not filter) = conditions filter
    conditions (literal _) = []

    pub conditions_in : Filters N → List (PredicateCondition N)
    conditions_in Filters.nil = []
    conditions_in (Filters.cons p ps) = conditions p ++ conditions_in ps

  pub first_some-append :
      {B : Type 0} (f : PredicateCondition N → Option B) (cs ds : List (PredicateCondition N))
      → first_some f (cs ++ ds) ≡ or_else (first_some f cs) (first_some f ds)
  first_some-append f [] ds = refl
  first_some-append f (c ∷ cs) ds = elim (Option-cases (f c)) [
    | inl free ↦ rw free (first_some-append f cs ds)
    | inr (b, hit) ↦ rw hit refl
  ]

  mutual
    unfolding find_unsupported_predicate_combination find_unsupported_in conditions conditions_in

    unsupported_first :
        (fields : List (String × AbacFieldType)) (p : PredicateNode N)
        → find_unsupported_predicate_combination fields p
          ≡ first_some (condition_issue fields) (conditions p)
    unsupported_first fields (condition c) = sym (or_else-none (condition_issue fields c))
    unsupported_first fields (and filters) = unsupported_in fields filters
    unsupported_first fields (or filters) = unsupported_in fields filters
    unsupported_first fields (not filter) = unsupported_first fields filter
    unsupported_first fields (literal _) = refl

    unsupported_in :
        (fields : List (String × AbacFieldType)) (ps : Filters N)
        → find_unsupported_in fields ps ≡ first_some (condition_issue fields) (conditions_in ps)
    unsupported_in fields Filters.nil = refl
    unsupported_in fields (Filters.cons p ps) =
        ap₂ or_else (unsupported_first fields p) (unsupported_in fields ps)
        ∙ sym (first_some-append (condition_issue fields) (conditions p) (conditions_in ps))

  abbrev pub fits_at : PredicateCondition N → Option AbacFieldType → Bool
  fits_at c none = false
  fits_at c (some type) = fits c.op type c.value

  -- The field is declared and the condition fits its type.
  abbrev pub is_supported : List (String × AbacFieldType) → PredicateCondition N → Bool
  is_supported fields c = fits_at c (lookup c.field fields)

  is_none-report : (c : PredicateCondition N) (o : Option Issue) → is_none (report c o) ≡ is_none o
  is_none-report c none = refl
  is_none-report c (some _) = refl

  condition_issue-supported :
      (fields : List (String × AbacFieldType)) (c : PredicateCondition N)
      → is_none (condition_issue fields c) ≡ is_supported fields c
  unfolding condition_issue issue_at
  condition_issue-supported fields c = at_type (lookup c.field fields)
    where
      at_type : (o : Option AbacFieldType) → is_none (issue_at c o) ≡ fits_at c o
      at_type none = refl
      at_type (some type) =
          is_none-report c (type_issue type c.op c.value) ∙ type_issue-fits type c.op c.value

  pub first_some-none :
      {B : Type 0} (f : PredicateCondition N → Option B) (cs : List (PredicateCondition N))
      → is_none (first_some f cs) ≡ all (λ c. is_none (f c)) cs
  first_some-none f [] = refl
  first_some-none f (c ∷ cs) = elim (Option-cases (f c)) [
    | inl free ↦ rw free (first_some-none f cs)
    | inr (b, hit) ↦ rw hit refl
  ]

  all-congr :
      (f g : PredicateCondition N → Bool) (cs : List (PredicateCondition N))
      → ((c : PredicateCondition N) → f c ≡ g c)
      → all f cs ≡ all g cs
  all-congr f g [] h = refl
  all-congr f g (c ∷ cs) h = ap₂ (λ a b. a && b) (h c) (all-congr f g cs h)

  -- No condition is reported exactly when each condition's field is declared and the condition fits
  -- the field's type, operator by operator as `fits` says.
  pub find_unsupported_predicate_combination-supported :
      (fields : List (String × AbacFieldType)) (p : PredicateNode N)
      → is_none (find_unsupported_predicate_combination fields p)
        ≡ all (is_supported fields) (conditions p)
  find_unsupported_predicate_combination-supported fields p =
      ap is_none (unsupported_first fields p)
      ∙ first_some-none (condition_issue fields) (conditions p)
      ∙ all-congr (λ c. is_none (condition_issue fields c)) (is_supported fields) (conditions p)
          (condition_issue-supported fields)

  -- The search reports the first condition with an issue, in the order in which they are written.
  pub find_unsupported_predicate_combination-first :
      (fields : List (String × AbacFieldType)) (p : PredicateNode N)
      → find_unsupported_predicate_combination fields p
        ≡ first_some (condition_issue fields) (conditions p)
  find_unsupported_predicate_combination-first fields p = unsupported_first fields p

  -- A condition with the operator `in` is always reported: whatever the field's type, and whatever
  -- the value.
  pub find_unsupported_predicate_combination-in :
      (fields : List (String × AbacFieldType)) (c : PredicateCondition N)
      → c.op ≡ PredicateOp.in_
      → is_none (find_unsupported_predicate_combination fields (condition c)) ≡ false
  unfolding find_unsupported_predicate_combination
  find_unsupported_predicate_combination-in fields c e =
      condition_issue-supported fields c ∙ never (lookup c.field fields)
    where
      never : (o : Option AbacFieldType) → fits_at c o ≡ false
      never none = refl
      never (some type) = ap (λ op. fits op type c.value) e

  mutual
    unfolding find_non_portable_predicate find_non_portable_in conditions conditions_in

    non_portable_first :
        (p : PredicateNode N)
        → find_non_portable_predicate p ≡ first_some non_portable (conditions p)
    non_portable_first (condition c) = sym (or_else-none (non_portable c))
    non_portable_first (and filters) = non_portable_in filters
    non_portable_first (or filters) = non_portable_in filters
    non_portable_first (not filter) = non_portable_first filter
    non_portable_first (literal _) = refl

    non_portable_in :
        (ps : Filters N) → find_non_portable_in ps ≡ first_some non_portable (conditions_in ps)
    non_portable_in Filters.nil = refl
    non_portable_in (Filters.cons p ps) =
        ap₂ or_else (non_portable_first p) (non_portable_in ps)
        ∙ sym (first_some-append non_portable (conditions p) (conditions_in ps))

  -- The search for a condition that is not portable reports the first one, in the order in which
  -- they are written.
  pub find_non_portable_predicate-first :
      (p : PredicateNode N) → find_non_portable_predicate p ≡ first_some non_portable (conditions p)
  find_non_portable_predicate-first p = non_portable_first p
