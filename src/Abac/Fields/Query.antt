-- ===== src/Abac/Fields/Query.antt =====
-- packages/core/src/domain/fieldAccess.ts: the fields that a caller may filter, search and sort by.
-- A `Set` of fields, and a list beside the set of what was pushed to it, is a list without repeats.
pub mod Members
pub mod Laws
use kittle.Base.{
  String, str_mem, ◌===◌, Bool, true, false, negate, ◌&&◌, ◌||◌, Option, none, some, List, [], ◌∷◌,
  ◌++◌, any, is_empty, Result, ok, err, if◌then◌else◌,
}
use kittle.Base.{filter as keep}
use kittle.Tier.{Effect, is_deny}
use kittle.Predicate.{PredicateNode, and, nil}
use kittle.Abac.{
  NormalizedAbacPolicy, PolicyFieldAccess, PolicyFieldQueryAccess, FieldReadMode, ReasonCode,
  AbacError, forbidden_error, is_for_action,
}
use kittle.Abac.Write.{write_list}
use kittle.Abac.Fields.{ReadMap, reads, read_entries}

pub record FieldQueryAccess : Type 0 where
  pub filter : List String
  pub search : List String
  pub sort : List String

pub data QueryMode : Type 0 where
  filter search sort : QueryMode

abbrev empty_field_query_access : FieldQueryAccess
empty_field_query_access = record { filter = []; search = []; sort = [] }

abbrev pub at_mode : QueryMode → FieldQueryAccess → List String
at_mode QueryMode.filter access = access.filter
at_mode QueryMode.search access = access.search
at_mode QueryMode.sort access = access.sort

-- `if (!seen.has(field)) { seen.add(field); fields.push(field) }`
add_new : String → List String → List String
add_new field fields = if str_mem field fields then fields else fields ++ (field ∷ [])

push : QueryMode → String → FieldQueryAccess → FieldQueryAccess
unfolding add_new
push QueryMode.filter field access = record access { filter = add_new field access.filter }
push QueryMode.search field access = record access { search = add_new field access.search }
push QueryMode.sort field access = record access { sort = add_new field access.sort }

pub push_all : QueryMode → List String → FieldQueryAccess → FieldQueryAccess
unfolding push
push_all mode [] access = access
push_all mode (field ∷ fields) access = push_all mode fields (push mode field access)

push_each : String → FieldQueryAccess → FieldQueryAccess
unfolding push
push_each field access =
    push QueryMode.sort field (push QueryMode.search field (push QueryMode.filter field access))

abbrev some_or_empty : Option (List String) → List String
some_or_empty none = []
some_or_empty (some fields) = fields

-- `query[mode] ?? []`
abbrev pub query_fields : QueryMode → PolicyFieldQueryAccess → List String
query_fields QueryMode.filter query = some_or_empty query.filter
query_fields QueryMode.search query = some_or_empty query.search
query_fields QueryMode.sort query = some_or_empty query.sort

-- `policy.effect === "deny" || mode === "omit" || mode === "mask"`
abbrev pub hides : Effect → FieldReadMode → Bool
hides effect FieldReadMode.allow = is_deny effect
hides effect FieldReadMode.omit = true
hides effect FieldReadMode.mask = true

-- `mode === "allow" && policy.effect !== "deny"`
abbrev pub shows : Effect → FieldReadMode → Bool
shows effect FieldReadMode.allow = negate (is_deny effect)
shows effect FieldReadMode.omit = false
shows effect FieldReadMode.mask = false

deny_hidden : Effect → ReadMap → List String → List String
unfolding add_new
deny_hidden effect [] denied = denied
deny_hidden effect ((field, mode) ∷ read) denied =
    deny_hidden effect read (if hides effect mode then add_new field denied else denied)

grant_modes : PolicyFieldQueryAccess → FieldQueryAccess → FieldQueryAccess
unfolding push_all
grant_modes query access = push_all QueryMode.sort (query_fields QueryMode.sort query) (
    push_all QueryMode.search (query_fields QueryMode.search query)
      (push_all QueryMode.filter (query_fields QueryMode.filter query) access))

-- `policy.payload.fieldAccess?.query`
abbrev pub query_of : Option PolicyFieldAccess → Option PolicyFieldQueryAccess
query_of none = none
query_of (some access) = access.query

allow_shown : Effect → ReadMap → List String → FieldQueryAccess → FieldQueryAccess
unfolding push_each
allow_shown effect [] denied allowed = allowed
allow_shown effect ((field, mode) ∷ read) denied allowed = allow_shown effect read denied (
    if shows effect mode && negate (str_mem field denied) then push_each field allowed else allowed)

grant_query : Option PolicyFieldQueryAccess → FieldQueryAccess → FieldQueryAccess
unfolding grant_modes
grant_query none grants = grants
grant_query (some query) grants = grant_modes query grants

module _ {N : Type 0} where
  -- Has the policy the module's key?
  abbrev pub in_module : String → NormalizedAbacPolicy N → Bool
  in_module module_key p = p.module_key === module_key

  pub collect_denied_query_fields :
      String → List (NormalizedAbacPolicy N) → List String → List String
  unfolding deny_hidden
  collect_denied_query_fields module_key [] denied = denied
  collect_denied_query_fields module_key (p ∷ ps) denied =
      collect_denied_query_fields module_key ps (
        if in_module module_key p
        then deny_hidden p.effect (read_entries (reads p)) denied
        else denied)

  pub collect_query_grants :
      String → List (NormalizedAbacPolicy N) → FieldQueryAccess → FieldQueryAccess
  unfolding grant_query
  collect_query_grants module_key [] grants = grants
  collect_query_grants module_key (p ∷ ps) grants = collect_query_grants module_key ps (
      if in_module module_key p
      then grant_query (query_of p.payload.field_access) grants
      else grants)

  -- The last loop of `resolveFieldQueryAccess`.
  pub allow_readable :
      String → List (NormalizedAbacPolicy N) → List String → FieldQueryAccess → FieldQueryAccess
  unfolding allow_shown
  allow_readable module_key [] denied allowed = allowed
  allow_readable module_key (p ∷ ps) denied allowed = allow_readable module_key ps denied (
      if in_module module_key p
      then allow_shown p.effect (read_entries (reads p)) denied allowed
      else allowed)

  unfoldable pub resolve_field_query_access :
      List (NormalizedAbacPolicy N) → String → FieldQueryAccess
  unfolding collect_denied_query_fields collect_query_grants push_all allow_readable
  resolve_field_query_access policies module_key =
      let denied = collect_denied_query_fields module_key policies [] in
      let grants = collect_query_grants module_key policies empty_field_query_access in
      let allowed = push_all QueryMode.sort grants.sort (
        push_all QueryMode.search grants.search
          (push_all QueryMode.filter grants.filter empty_field_query_access)) in
      allow_readable module_key policies denied allowed

  unfoldable pub resolve_field_query_denials :
      List (NormalizedAbacPolicy N) → String → FieldQueryAccess
  unfolding collect_denied_query_fields collect_query_grants
  resolve_field_query_denials policies module_key =
      let denied = collect_denied_query_fields module_key policies [] in
      let grants = collect_query_grants module_key policies empty_field_query_access in
      record {
        filter = keep (λ field. negate (str_mem field grants.filter)) denied;
        search = keep (λ field. negate (str_mem field grants.search)) denied;
        sort = keep (λ field. negate (str_mem field grants.sort)) denied;
      }

  -- `isAlwaysTruePredicate` of fieldAccess.ts
  abbrev is_always_true_predicate : PredicateNode N → Bool
  is_always_true_predicate (and nil) = true
  is_always_true_predicate _ = false

  -- A write list that is absent is no array.
  unfoldable pub has_record_dependent_field_write :
      List (NormalizedAbacPolicy N) → String → String → Bool
  has_record_dependent_field_write policies module_key action =
      any
        (λ p.
          is_for_action module_key action p
          && (negate (is_empty (write_list p.payload.field_access))
              && negate (is_always_true_predicate p.compiled_conditions)))
        policies

-- Throws, with the fields, if a field is denied.
unfoldable pub assert_field_query_access : List String → List String → Result AbacError (Unit {0})
assert_field_query_access denied fields =
    let offending = keep (λ field. str_mem field denied) fields in
    if is_empty offending
    then ok tt
    else err (forbidden_error ReasonCode.abac_field_query_denied offending)
