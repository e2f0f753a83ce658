-- ===== src/Policy/Catalog/Fit.antt =====
-- What a payload without an issue looks like: validatePayloadAgainstCatalog of
-- packages/core/src/domain/abacPolicySchema.ts.
use kittle.Base.{
  String, str_mem, lookup, Bool, true, false, ◌&&◌, ◌||◌, Option, none, some, List, [], ◌∷◌, ◌++◌,
  all, is_empty, all-append, Result, ◌>>=◌, ok, err, is_ok, if◌then◌else◌, ◌≡◌, refl, sym, ◌∙◌,
  arith,
}
use kittle.Js.{
  Numbers, Value, is_undefined, undefined, null, boolean, number, string, date, array, object,
}
use kittle.Predicate.Supported.{AbacFieldType}
use kittle.Policy.{
  PolicyOperator, PolicyFilterClause, PolicyConditionGroup, group, Conditions, nil, clause, nested,
  CompileError, Coercions, coerce_policy_value, coerce_policy_value_list, coerce_strings,
}
use kittle.Policy.Catalog.{
  unknown_action, unknown_capability, AbacFieldDefinition, AbacModuleCatalog, PolicyPayload,
  access_issues, is_bound, is_text_list, operator_issues, issue_of, list_issues, value_issues,
  values_issues, single_issues, listed_issues, clause_issues, group_issues, conditions_issues,
  validate_payload_against_catalog,
}
use kittle.Policy.Catalog.Names.{
  joined, allows_access, names_joined, access_issues-empty, allows_operator, operator_issues-empty,
  issue_of-empty,
}

module _ {N : Type 0} ⦃num : Numbers N⦄ ⦃co : Coercions N⦄ where
  abbrev is_text : Value N → Bool
  is_text (string _) = true
  is_text _ = false

  abbrev is_coercible : AbacFieldType → Value N → Bool
  unfolding coerce_policy_value
  is_coercible type v = is_ok (coerce_policy_value type v)

  -- A list operator on a list field takes texts; every other value is coerced to the field's type.
  abbrev fits_values : PolicyFilterClause N → AbacFieldType → List (Value N) → Bool
  unfolding coerce_policy_value
  fits_values c type vs =
      if is_text_list c.operator type then all is_text vs else all (is_coercible type) vs

  abbrev fits_listed : PolicyFilterClause N → AbacFieldType → Option (List (Value N)) → Bool
  unfolding coerce_policy_value
  fits_listed c type none = true
  fits_listed c type (some vs) = is_bound c.user_attr || fits_values c type vs

  -- The field is declared, with the clause's operator if it names one, and the values of a clause that
  -- is not bound to the caller are of its type.
  abbrev fits_clause : PolicyFilterClause N → Option AbacFieldDefinition → Bool
  unfolding coerce_policy_value
  fits_clause c none = false
  fits_clause c (some def) =
      allows_operator def.operators c.operator
      && (((is_undefined c.value || is_bound c.user_attr) || is_coercible def.type c.value)
          && fits_listed c def.type c.values)

  value_issues-empty :
      (field : String) (type : AbacFieldType) (vs : List (Value N))
      → is_empty (value_issues field type vs) ≡ all (is_coercible type) vs
  unfolding coerce_policy_value
  value_issues-empty field type [] = refl
  value_issues-empty field type (v ∷ vs) =
      joined _ _ (issue_of-empty field (coerce_policy_value type v))
        (value_issues-empty field type vs)

  coerce_strings-fails :
      (vs : List (Value N)) → is_empty (list_issues (coerce_strings vs)) ≡ all is_text vs
  coerce_strings-fails [] = refl
  coerce_strings-fails (string s ∷ vs) = added (coerce_strings vs) (coerce_strings-fails vs)
    where
      added :
          (r : Result (List CompileError) (List (Value N)))
          → is_empty (list_issues r) ≡ all is_text vs
          → is_empty (list_issues (r >>= λ rest. ok (string s ∷ rest))) ≡ all is_text vs
      added (ok _) h = h
      added (err _) h = h
  coerce_strings-fails (undefined ∷ vs) = refl
  coerce_strings-fails (null ∷ vs) = refl
  coerce_strings-fails (boolean _ ∷ vs) = refl
  coerce_strings-fails (number _ ∷ vs) = refl
  coerce_strings-fails (date _ ∷ vs) = refl
  coerce_strings-fails (array _ _ ∷ vs) = refl
  coerce_strings-fails (object _ _ ∷ vs) = refl

  -- A list that is read as texts is one of a list field.
  list_issues-empty :
      (op : Option PolicyOperator) (type : AbacFieldType) (vs : List (Value N))
      → is_text_list op type ≡ true
      → is_empty (list_issues (coerce_policy_value_list type vs)) ≡ all is_text vs
  unfolding coerce_policy_value coerce_policy_value_list
  list_issues-empty op AbacFieldType.string_array vs h = coerce_strings-fails vs
  list_issues-empty op AbacFieldType.string_ vs h = ground arith
  list_issues-empty op AbacFieldType.number_ vs h = ground arith
  list_issues-empty op AbacFieldType.boolean_ vs h = ground arith
  list_issues-empty op AbacFieldType.date_ vs h = ground arith
  list_issues-empty op AbacFieldType.datetime vs h = ground arith
  list_issues-empty op AbacFieldType.identifier vs h = ground arith

  values_issues-empty :
      (c : PolicyFilterClause N) (type : AbacFieldType) (vs : List (Value N))
      → is_empty (values_issues c type vs) ≡ fits_values c type vs
  unfolding coerce_policy_value coerce_policy_value_list
  values_issues-empty c type vs =
      chosen (is_text_list c.operator type) (list_issues-empty c.operator type vs)
    where
      chosen :
          (b : Bool)
          → (b ≡ true → is_empty (list_issues (coerce_policy_value_list type vs)) ≡ all is_text vs)
          → is_empty (
              if b
              then list_issues (coerce_policy_value_list type vs)
              else value_issues c.field type vs)
            ≡ (if b then all is_text vs else all (is_coercible type) vs)
      chosen true h = h refl
      chosen false h = value_issues-empty c.field type vs

  single_issues-empty :
      (c : PolicyFilterClause N) (type : AbacFieldType)
      → is_empty (single_issues c type)
        ≡ ((is_undefined c.value || is_bound c.user_attr) || is_coercible type c.value)
  unfolding coerce_policy_value
  single_issues-empty c type = skipped (is_undefined c.value || is_bound c.user_attr)
    where
      skipped :
          (b : Bool)
          → is_empty (if b then [] else issue_of c.field (coerce_policy_value type c.value))
            ≡ (b || is_coercible type c.value)
      skipped true = refl
      skipped false = issue_of-empty c.field (coerce_policy_value type c.value)

  listed_issues-empty :
      (c : PolicyFilterClause N) (type : AbacFieldType) (o : Option (List (Value N)))
      → is_empty (listed_issues c type o) ≡ fits_listed c type o
  unfolding coerce_policy_value coerce_policy_value_list
  listed_issues-empty c type none = refl
  listed_issues-empty c type (some vs) = skipped (is_bound c.user_attr)
    where
      skipped :
          (b : Bool)
          → is_empty (if b then [] else values_issues c type vs) ≡ (b || fits_values c type vs)
      skipped true = refl
      skipped false = values_issues-empty c type vs

  clause_issues-empty :
      (c : PolicyFilterClause N) (o : Option AbacFieldDefinition)
      → is_empty (clause_issues c o) ≡ fits_clause c o
  unfolding coerce_policy_value coerce_policy_value_list
  clause_issues-empty c none = refl
  clause_issues-empty c (some def) =
      joined (operator_issues c.field def c.operator) _
        (operator_issues-empty c.field def c.operator)
        (joined (single_issues c def.type) (listed_issues c def.type c.values)
          (single_issues-empty c def.type) (listed_issues-empty c def.type c.values))

module _ {N : Type 0} where
  mutual
    -- The clauses at every depth.
    pub clauses_of : PolicyConditionGroup N → List (PolicyFilterClause N)
    clauses_of (group logic cs) = clauses_in cs

    pub clauses_in : Conditions N → List (PolicyFilterClause N)
    clauses_in nil = []
    clauses_in (clause c cs) = c ∷ clauses_in cs
    clauses_in (nested g cs) = clauses_of g ++ clauses_in cs

module _ {N : Type 0} ⦃num : Numbers N⦄ ⦃co : Coercions N⦄ (catalog : AbacModuleCatalog) where
  abbrev fits_catalog : PolicyFilterClause N → Bool
  unfolding coerce_policy_value
  fits_catalog c = fits_clause c (lookup c.field catalog.fields)

  mutual
    unfolding group_issues conditions_issues clauses_of clauses_in

    group_issues-empty :
        (g : PolicyConditionGroup N)
        → is_empty (group_issues catalog g) ≡ all fits_catalog (clauses_of g)
    group_issues-empty (group logic cs) = conditions_issues-empty cs

    conditions_issues-empty :
        (cs : Conditions N)
        → is_empty (conditions_issues catalog cs) ≡ all fits_catalog (clauses_in cs)
    conditions_issues-empty nil = refl
    conditions_issues-empty (clause c cs) =
        joined (clause_issues c (lookup c.field catalog.fields)) (conditions_issues catalog cs)
          (clause_issues-empty c (lookup c.field catalog.fields)) (conditions_issues-empty cs)
    conditions_issues-empty (nested g cs) =
        joined (group_issues catalog g) (conditions_issues catalog cs) (group_issues-empty g)
          (conditions_issues-empty cs)
        ∙ sym (all-append fits_catalog (clauses_of g) (clauses_in cs))

  -- What the catalog asks of a payload.
  abbrev pub fits_payload : PolicyPayload N → Bool
  unfolding coerce_policy_value clauses_of
  fits_payload payload =
      all (λ s. str_mem s catalog.actions) payload.parsed.actions
      && (all (λ s. str_mem s catalog.capabilities) payload.parsed.capabilities
          && (allows_access catalog payload.parsed.field_access
              && (all fits_catalog (clauses_of payload.conditions.system_scope)
                  && all fits_catalog (clauses_of payload.conditions.user_filters))))

  -- A payload has no issue exactly when its actions and capabilities are the catalog's, the fields
  -- that it grants are declared, and each clause, at every depth, is on a declared field, with an
  -- operator of the field if it names one, and, unless it is bound to the caller, with a value and
  -- values, where it has them, that the field's type takes: a list operator on a list field takes
  -- texts. A clause that names no operator is not asked for one.
  pub validate_payload_against_catalog-empty :
      (payload : PolicyPayload N)
      → is_empty (validate_payload_against_catalog catalog payload) ≡ fits_payload payload
  unfolding validate_payload_against_catalog group_issues fits_payload
  validate_payload_against_catalog-empty payload =
      names_joined (λ s. str_mem s catalog.actions) unknown_action payload.parsed.actions _
        (names_joined (λ s. str_mem s catalog.capabilities) unknown_capability
          payload.parsed.capabilities _
          (joined (access_issues catalog payload.parsed.field_access) _
            (access_issues-empty catalog payload.parsed.field_access)
            (joined (group_issues catalog payload.conditions.system_scope)
              (group_issues catalog payload.conditions.user_filters)
              (group_issues-empty payload.conditions.system_scope)
              (group_issues-empty payload.conditions.user_filters))))
