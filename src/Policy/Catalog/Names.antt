-- ===== src/Policy/Catalog/Names.antt =====
-- The names and the operators that validatePayloadAgainstCatalog looks up, of
-- packages/core/src/domain/abacPolicySchema.ts.
use kittle.Base.{
  String, Bool, true, ◌&&◌, Option, none, some, List, [], ◌∷◌, ◌++◌, all, is_empty, is_empty-append,
  Result, ok, err, is_ok, ◌≡◌, refl, ap₂, ◌∙◌, arith,
}
use kittle.Abac.{PolicyFieldQueryAccess, PolicyFieldAccess}
use kittle.Policy.{PolicyOperator, CompileError}
use kittle.Policy.Catalog.{
  QueryList, unknown_read_field, unknown_write_field, unknown_query_field, AbacFieldDefinition,
  AbacModuleCatalog, CatalogIssue, operator_mem, unknown_of, is_declared, names, read_names,
  query_issues, access_issues, operator_issues, issue_of,
}

-- Two lists without an element, each with its description.
pub joined :
    {A : Type 0} (xs ys : List A) {a b : Bool}
    → is_empty xs ≡ a
    → is_empty ys ≡ b
    → is_empty (xs ++ ys) ≡ (a && b)
joined xs ys hx hy = is_empty-append xs ys ∙ ap₂ (λ a b. a && b) hx hy

unknown_of-empty :
    (known : String → Bool) (issue : String → CatalogIssue) (ss : List String)
    → is_empty (unknown_of known issue ss) ≡ all known ss
unknown_of-empty known issue [] = refl
unknown_of-empty known issue (s ∷ ss) = ground (arith, unknown_of-empty known issue ss)

abbrev allows_query : AbacModuleCatalog → Option PolicyFieldQueryAccess → Bool
allows_query catalog none = true
allows_query catalog (some query) =
    all (is_declared catalog) (names query.filter)
    && (all (is_declared catalog) (names query.search)
        && all (is_declared catalog) (names query.sort))

-- The fields that a payload grants are declared.
abbrev pub allows_access : AbacModuleCatalog → Option PolicyFieldAccess → Bool
allows_access catalog none = true
allows_access catalog (some access) =
    all (is_declared catalog) (read_names access.read)
    && (all (is_declared catalog) (names access.write) && allows_query catalog access.query)

-- The names that are looked up, before other issues.
pub names_joined :
    (known : String → Bool) (issue : String → CatalogIssue) (ss : List String)
    (later : List CatalogIssue) {b : Bool}
    → is_empty later ≡ b
    → is_empty (unknown_of known issue ss ++ later) ≡ (all known ss && b)
names_joined known issue ss later h =
    joined (unknown_of known issue ss) later (unknown_of-empty known issue ss) h

query_issues-empty :
    (catalog : AbacModuleCatalog) (o : Option PolicyFieldQueryAccess)
    → is_empty (query_issues catalog o) ≡ allows_query catalog o
query_issues-empty catalog none = refl
query_issues-empty catalog (some query) =
    let known = is_declared catalog in
    names_joined known (unknown_query_field QueryList.filter) (names query.filter) _ (
      names_joined known (unknown_query_field QueryList.search) (names query.search) _
        (unknown_of-empty known (unknown_query_field QueryList.sort) (names query.sort)))

pub access_issues-empty :
    (catalog : AbacModuleCatalog) (o : Option PolicyFieldAccess)
    → is_empty (access_issues catalog o) ≡ allows_access catalog o
access_issues-empty catalog none = refl
access_issues-empty catalog (some access) =
    let known = is_declared catalog in
    names_joined known unknown_read_field (read_names access.read) _ (
      names_joined known unknown_write_field (names access.write) _
        (query_issues-empty catalog access.query))

abbrev pub allows_operator : List PolicyOperator → Option PolicyOperator → Bool
allows_operator ops none = true
allows_operator ops (some op) = operator_mem op ops

pub operator_issues-empty :
    (field : String) (def : AbacFieldDefinition) (o : Option PolicyOperator)
    → is_empty (operator_issues field def o) ≡ allows_operator def.operators o
operator_issues-empty field def none = refl
operator_issues-empty field def (some op) = ground arith

pub issue_of-empty :
    {A : Type 0} (field : String) (r : Result CompileError A)
    → is_empty (issue_of field r) ≡ is_ok r
issue_of-empty field (ok _) = refl
issue_of-empty field (err _) = refl
