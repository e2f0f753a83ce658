-- ===== src/Policy/Catalog.antt =====
-- packages/core/src/domain/abacPolicySchema.ts: validatePayloadAgainstCatalog. An issue stands for
-- its message, with the field or the name that it is about.
pub mod Names
pub mod Fit
use kittle.Base.{
  ℕ, ◌==◌, String, ◌===◌, str_mem, lookup, Bool, true, false, negate, ◌&&◌, ◌||◌, Option, none,
  some, List, [], ◌∷◌, ◌++◌, map, Result, ok, err, if◌then◌else◌,
}
use kittle.Js.{Numbers, Value, is_undefined}
use kittle.Abac.{PolicyFieldQueryAccess, PolicyFieldAccess, ParsedPolicyPayload}
use kittle.Predicate.Supported.{AbacFieldType}
use kittle.Policy.{
  PolicyOperator, PolicyFilterClause, PolicyConditionGroup, group, Conditions, nil, clause, nested,
  PolicyConditions, CompileError, Coercions, coerce_policy_value, coerce_policy_value_list,
}

pub record AbacFieldDefinition : Type 0 where
  pub key : String
  pub type : AbacFieldType
  pub operators : List PolicyOperator

pub record AbacModuleCatalog : Type 0 where
  pub module_key : String
  pub actions : List String
  pub capabilities : List String
  pub fields : List (String × AbacFieldDefinition)

-- The payload with its conditions.
pub record PolicyPayload (N : Type 0) : Type 0 where
  pub parsed : ParsedPolicyPayload
  pub conditions : PolicyConditions N

pub data QueryList : Type 0 where
  filter search sort : QueryList

pub data CatalogIssue : Type 0 where
  unknown_action unknown_capability unknown_read_field unknown_write_field : String → CatalogIssue
  unknown_query_field : QueryList → String → CatalogIssue
  unknown_field invalid_value : String → CatalogIssue
  unsupported_operator : String → PolicyOperator → CatalogIssue
  invalid_list : CompileError → CatalogIssue

-- Operators are compared as their texts, which differ.
abbrev operator_index : PolicyOperator → ℕ
operator_index PolicyOperator.equals = 0
operator_index PolicyOperator.not_equals = 1
operator_index PolicyOperator.contains = 2
operator_index PolicyOperator.starts_with = 3
operator_index PolicyOperator.ends_with = 4
operator_index PolicyOperator.is_empty_ = 5
operator_index PolicyOperator.is_not_empty = 6
operator_index PolicyOperator.greater_than = 7
operator_index PolicyOperator.less_than = 8
operator_index PolicyOperator.greater_or_equal = 9
operator_index PolicyOperator.less_or_equal = 10
operator_index PolicyOperator.is_true = 11
operator_index PolicyOperator.is_false = 12
operator_index PolicyOperator.is_null = 13
operator_index PolicyOperator.is_not_null = 14
operator_index PolicyOperator.includes_any = 15
operator_index PolicyOperator.includes_all = 16
operator_index PolicyOperator.before = 17
operator_index PolicyOperator.after = 18
operator_index PolicyOperator.between = 19
operator_index PolicyOperator.in_ = 20

abbrev pub operator_mem : PolicyOperator → List PolicyOperator → Bool
operator_mem op [] = false
operator_mem op (o ∷ os) = operator_index o == operator_index op || operator_mem op os

-- One issue for each name that is not known.
abbrev pub unknown_of : (String → Bool) → (String → CatalogIssue) → List String → List CatalogIssue
unknown_of known issue [] = []
unknown_of known issue (s ∷ ss) =
    let rest = unknown_of known issue ss in if known s then rest else issue s ∷ rest

abbrev is_present : Option AbacFieldDefinition → Bool
is_present none = false
is_present (some _) = true

-- `Object.hasOwn(catalog.fields, field)`
abbrev pub is_declared : AbacModuleCatalog → String → Bool
is_declared catalog s = is_present (lookup s catalog.fields)

abbrev pub names : Option (List String) → List String
names none = []
names (some ss) = ss

abbrev pub read_names : {A : Type 0} → Option (List (String × A)) → List String
read_names none = []
read_names (some entries) = map (λ e. e.0) entries

abbrev pub query_issues : AbacModuleCatalog → Option PolicyFieldQueryAccess → List CatalogIssue
query_issues catalog none = []
query_issues catalog (some query) =
    unknown_of (is_declared catalog) (unknown_query_field QueryList.filter) (names query.filter)
    ++ (unknown_of (is_declared catalog) (unknown_query_field QueryList.search) (names query.search)
        ++ unknown_of (is_declared catalog) (unknown_query_field QueryList.sort) (names query.sort))

abbrev pub access_issues : AbacModuleCatalog → Option PolicyFieldAccess → List CatalogIssue
access_issues catalog none = []
access_issues catalog (some access) =
    unknown_of (is_declared catalog) unknown_read_field (read_names access.read)
    ++ (unknown_of (is_declared catalog) unknown_write_field (names access.write)
        ++ query_issues catalog access.query)

-- An empty attribute name is falsy.
abbrev pub is_bound : Option String → Bool
is_bound none = false
is_bound (some s) = negate (s === "")

abbrev is_list_operator : Option PolicyOperator → Bool
is_list_operator (some PolicyOperator.in_) = true
is_list_operator (some PolicyOperator.includes_any) = true
is_list_operator (some PolicyOperator.includes_all) = true
is_list_operator _ = false

abbrev is_string_array : AbacFieldType → Bool
is_string_array AbacFieldType.string_array = true
is_string_array _ = false

-- The values are read together, as a list of texts.
abbrev pub is_text_list : Option PolicyOperator → AbacFieldType → Bool
is_text_list op type = is_list_operator op && is_string_array type

abbrev operator_issues : String → AbacFieldDefinition → Option PolicyOperator → List CatalogIssue
operator_issues field def none = []
operator_issues field def (some op) =
    if operator_mem op def.operators then [] else unsupported_operator field op ∷ []

abbrev pub issue_of : {A : Type 0} → String → Result CompileError A → List CatalogIssue
issue_of field (ok _) = []
issue_of field (err _) = invalid_value field ∷ []

abbrev pub list_issues : {A : Type 0} → Result (List CompileError) A → List CatalogIssue
list_issues (ok _) = []
list_issues (err es) = map invalid_list es

module _ {N : Type 0} ⦃num : Numbers N⦄ ⦃co : Coercions N⦄ where
  abbrev value_issues : String → AbacFieldType → List (Value N) → List CatalogIssue
  unfolding coerce_policy_value
  value_issues field type [] = []
  value_issues field type (v ∷ vs) =
      issue_of field (coerce_policy_value type v) ++ value_issues field type vs

  abbrev values_issues : PolicyFilterClause N → AbacFieldType → List (Value N) → List CatalogIssue
  unfolding coerce_policy_value coerce_policy_value_list
  values_issues c type vs =
      if is_text_list c.operator type
      then list_issues (coerce_policy_value_list type vs)
      else value_issues c.field type vs

  -- The value, where there is one and the clause is not bound to the caller.
  abbrev single_issues : PolicyFilterClause N → AbacFieldType → List CatalogIssue
  unfolding coerce_policy_value
  single_issues c type =
      if is_undefined c.value || is_bound c.user_attr
      then []
      else issue_of c.field (coerce_policy_value type c.value)

  abbrev listed_issues :
      PolicyFilterClause N → AbacFieldType → Option (List (Value N)) → List CatalogIssue
  unfolding coerce_policy_value coerce_policy_value_list
  listed_issues c type none = []
  listed_issues c type (some vs) = if is_bound c.user_attr then [] else values_issues c type vs

  abbrev pub clause_issues : PolicyFilterClause N → Option AbacFieldDefinition → List CatalogIssue
  unfolding coerce_policy_value coerce_policy_value_list
  clause_issues c none = unknown_field c.field ∷ []
  clause_issues c (some def) =
      operator_issues c.field def c.operator
      ++ (single_issues c def.type ++ listed_issues c def.type c.values)

module _ {N : Type 0} ⦃num : Numbers N⦄ ⦃co : Coercions N⦄ (catalog : AbacModuleCatalog) where
  unfoldable mutual
    unfolding coerce_policy_value coerce_policy_value_list

    pub group_issues : PolicyConditionGroup N → List CatalogIssue
    group_issues (group logic cs) = conditions_issues cs

    pub conditions_issues : Conditions N → List CatalogIssue
    conditions_issues nil = []
    conditions_issues (clause c cs) =
        clause_issues c (lookup c.field catalog.fields) ++ conditions_issues cs
    conditions_issues (nested g cs) = group_issues g ++ conditions_issues cs

  unfoldable pub validate_payload_against_catalog : PolicyPayload N → List CatalogIssue
  unfolding group_issues
  validate_payload_against_catalog payload =
      unknown_of (λ s. str_mem s catalog.actions) unknown_action payload.parsed.actions
      ++ (unknown_of (λ s. str_mem s catalog.capabilities) unknown_capability
            payload.parsed.capabilities
          ++ (access_issues catalog payload.parsed.field_access
              ++ (group_issues payload.conditions.system_scope
                  ++ group_issues payload.conditions.user_filters)))
