-- ===== src/Policy/Normalize/Durable.antt =====
-- packages/core/src/domain/abacPolicyNormalizer.ts: canonicalizeDurable and normalizeAbacPolicy. The
-- policy's object is copied member by member; `at` is an argument.
use kittle.Base.{
  String, ◌===◌, Bool, negate, filter, Option, none, some, List, [], ◌∷◌, ◌++◌, map, Result, ok,
  err, ◌>>=◌, if◌then◌else◌,
}
use kittle.Js.{
  Numbers, Value, undefined, null, boolean, number, string, date, array, object, Values, Props, end,
  prop,
}
use kittle.Js
use kittle.Abac.{PolicyFieldAccess, FieldReadMode}
use kittle.Predicate.{PredicateNode, Filters, condition, and, or, not, literal}
use kittle.Policy.{
  PolicyFilterClause, PolicyConditionGroup, group, Conditions, clause, nested, PolicyConditions,
  Coercions,
}
use kittle.Policy
use kittle.Policy.Compile.{AbacContext, PredicateCompileResult, policy_conditions_to_predicate}
use kittle.Policy.Catalog.{AbacModuleCatalog, PolicyPayload, validate_payload_against_catalog}
use kittle.Policy.Normalize.{
  RangeError, Normalizing, WindowDate, absent, text, instant, AbacPolicy, NormalizedPolicy,
  NormalizationError, effect_invalid, priority_invalid, scope_invalid, window_invalid,
  module_key_mismatch, catalog_validation_failed, condition_compilation_failed,
  NormalizePolicyResult, success, failure, thrown, check, is_policy_effect, is_policy_priority,
  is_policy_scope_type, field_types, predicate_error, is_active, valid_window,
}

module _ {N : Type 0} (nz : Normalizing N) where
  -- Dates become texts. An own property `__proto__` is not one of the copy.
  unfoldable mutual
    pub canonicalize_durable : Value N → Result RangeError (Value N)
    canonicalize_durable (date t) = nz.to_iso t >>= λ s. ok (string s)
    canonicalize_durable (array _ vs) = canonicalize_all vs >>= λ ws. ok (array 0 ws)
    canonicalize_durable (object _ ps) = canonicalize_props ps >>= λ qs. ok (object 0 qs)
    canonicalize_durable undefined = ok undefined
    canonicalize_durable null = ok null
    canonicalize_durable (boolean b) = ok (boolean b)
    canonicalize_durable (number x) = ok (number x)
    canonicalize_durable (string s) = ok (string s)

    pub canonicalize_all : Values N → Result RangeError (Values N)
    canonicalize_all Js.nil = ok Js.nil
    canonicalize_all (Js.cons v vs) =
        canonicalize_durable v >>= λ w. canonicalize_all vs >>= λ ws. ok (Js.cons w ws)

    pub canonicalize_props : Props N → Result RangeError (Props N)
    canonicalize_props end = ok end
    canonicalize_props (prop k v ps) = canonicalize_durable v >>= λ w.
        canonicalize_props ps >>= λ qs. ok (if k === "__proto__" then qs else prop k w qs)

  -- The values of a predicate's conditions.
  unfoldable mutual
    unfolding canonicalize_durable

    pub canonicalize_node : PredicateNode N → Result RangeError (PredicateNode N)
    canonicalize_node (condition c) =
        canonicalize_durable c.value >>= λ w. ok (condition (record c { value = w }))
    canonicalize_node (and filters) = canonicalize_filters filters >>= λ ps. ok (and ps)
    canonicalize_node (or filters) = canonicalize_filters filters >>= λ ps. ok (or ps)
    canonicalize_node (not filter) = canonicalize_node filter >>= λ p. ok (not p)
    canonicalize_node (literal b) = ok (literal b)

    pub canonicalize_filters : Filters N → Result RangeError (Filters N)
    canonicalize_filters Filters.nil = ok Filters.nil
    canonicalize_filters (Filters.cons p ps) =
        canonicalize_node p >>= λ q. canonicalize_filters ps >>= λ qs. ok (Filters.cons q qs)

  abbrev canonicalize_list : List (Value N) → Result RangeError (List (Value N))
  unfolding canonicalize_durable
  canonicalize_list [] = ok []
  canonicalize_list (v ∷ vs) =
      canonicalize_durable v >>= λ w. canonicalize_list vs >>= λ ws. ok (w ∷ ws)

  abbrev canonicalize_values : Option (List (Value N)) → Result RangeError (Option (List (Value N)))
  unfolding canonicalize_durable
  canonicalize_values none = ok none
  canonicalize_values (some vs) = canonicalize_list vs >>= λ ws. ok (some ws)

  abbrev canonicalize_clause : PolicyFilterClause N → Result RangeError (PolicyFilterClause N)
  unfolding canonicalize_durable
  canonicalize_clause c = canonicalize_durable c.value >>= λ w.
      canonicalize_values c.values >>= λ ws. ok (record c { value = w; values = ws })

  unfoldable mutual
    unfolding canonicalize_durable

    pub canonicalize_group : PolicyConditionGroup N → Result RangeError (PolicyConditionGroup N)
    canonicalize_group (group logic cs) = canonicalize_conditions cs >>= λ ds. ok (group logic ds)

    pub canonicalize_conditions : Conditions N → Result RangeError (Conditions N)
    canonicalize_conditions Policy.nil = ok Policy.nil
    canonicalize_conditions (clause c cs) =
        canonicalize_clause c >>= λ d. canonicalize_conditions cs >>= λ ds. ok (clause d ds)
    canonicalize_conditions (nested g cs) =
        canonicalize_group g >>= λ h. canonicalize_conditions cs >>= λ ds. ok (nested h ds)

  abbrev pub canonicalize_window : WindowDate N → Result RangeError (WindowDate N)
  canonicalize_window absent = ok absent
  canonicalize_window (text s) = ok (text s)
  canonicalize_window (instant t) = nz.to_iso t >>= λ s. ok (text s)

  -- A read map is copied key by key; the other members are lists of texts.
  abbrev copy_access : PolicyFieldAccess → PolicyFieldAccess
  copy_access access = record access { read = copy_read access.read }
    where
      copy_read : Option (List (String × FieldReadMode)) → Option (List (String × FieldReadMode))
      copy_read none = none
      copy_read (some entries) = some (filter (λ e. negate (e.0 === "__proto__")) entries)

  abbrev copy_parsed : Option PolicyFieldAccess → Option PolicyFieldAccess
  copy_parsed none = none
  copy_parsed (some access) = some (copy_access access)

  abbrev pub canonicalize_payload : PolicyPayload N → Result RangeError (PolicyPayload N)
  unfolding canonicalize_group
  canonicalize_payload payload = canonicalize_group payload.conditions.system_scope >>= λ s.
      canonicalize_group payload.conditions.user_filters >>= λ u. ok (record {
        parsed = record payload.parsed { field_access = copy_parsed payload.parsed.field_access };
        conditions = record { system_scope = s; user_filters = u };
      })

  -- The members that may hold a date; the others are texts.
  unfoldable pub canonicalize_policy : AbacPolicy N → Result RangeError (AbacPolicy N)
  unfolding canonicalize_durable canonicalize_group
  canonicalize_policy p = canonicalize_durable p.scope_type >>= λ scope_type.
      canonicalize_window p.starts_at >>= λ starts_at. canonicalize_window p.ends_at >>= λ ends_at.
      canonicalize_durable p.effect >>= λ effect. canonicalize_durable p.priority >>= λ priority.
      canonicalize_payload p.payload >>= λ payload. ok (record {
        policy_id = p.policy_id;
        scope_type = scope_type;
        scope_ref_id = p.scope_ref_id;
        starts_at = starts_at;
        ends_at = ends_at;
        module_key = p.module_key;
        effect = effect;
        priority = priority;
        payload = payload;
      })

  unfoldable pub canonical : AbacPolicy N → PredicateNode N → Result RangeError (NormalizedPolicy N)
  unfolding canonicalize_policy canonicalize_node
  canonical p node = canonicalize_policy p >>= λ policy. canonicalize_node node >>= λ compiled.
      ok (record { policy = policy; compiled_conditions = compiled })

module _ {N : Type 0} where
  abbrev pub durable : Result RangeError (NormalizedPolicy N) → Bool → NormalizePolicyResult N
  durable (ok n) excluded = success n excluded
  durable (err e) excluded = thrown e

  abbrev pub unless_error :
      Option (NormalizationError N) → NormalizePolicyResult N → NormalizePolicyResult N
  unless_error none r = r
  unless_error (some e) r = failure (e ∷ [])

  abbrev pub unless_errors :
      List (NormalizationError N) → NormalizePolicyResult N → NormalizePolicyResult N
  unless_errors [] r = r
  unless_errors (e ∷ es) r = failure (e ∷ es)

module _ {N : Type 0} ⦃num : Numbers N⦄ ⦃co : Coercions N⦄ (nz : Normalizing N) where
  -- The header's checks, the window and the module key.
  unfoldable pub header_errors : AbacPolicy N → AbacModuleCatalog → List (NormalizationError N)
  unfolding valid_window
  header_errors p catalog =
      check (is_policy_effect p.effect) effect_invalid
      ++ (check (is_policy_priority nz p.priority) priority_invalid
          ++ (check (is_policy_scope_type p.scope_type) scope_invalid
              ++ (check (valid_window p) window_invalid
                  ++ check (p.module_key === catalog.module_key) module_key_mismatch)))

  unfoldable pub with_compiled :
      AbacPolicy N → AbacModuleCatalog → Bool → PredicateCompileResult N → NormalizePolicyResult N
  unfolding predicate_error canonical
  with_compiled p catalog excluded (err es) = failure (condition_compilation_failed es ∷ [])
  with_compiled p catalog excluded (ok node) =
      unless_error (predicate_error (field_types catalog.fields) node)
        (durable (canonical nz p node) excluded)

  unfoldable pub normalize_abac_policy :
      AbacPolicy N → AbacModuleCatalog → AbacContext N → N → NormalizePolicyResult N
  unfolding header_errors validate_payload_against_catalog policy_conditions_to_predicate is_active
      with_compiled
  normalize_abac_policy p catalog context at =
      unless_errors
        (map catalog_validation_failed (validate_payload_against_catalog catalog p.payload))
        (unless_errors (header_errors p catalog) (
          with_compiled p catalog (negate (is_active p at)) (
            policy_conditions_to_predicate context (field_types catalog.fields)
              p.payload.conditions)))
