-- ===== src/Policy/Normalize/Sound.antt =====
-- What a policy that normalizes has passed: normalizeAbacPolicy of
-- packages/core/src/domain/abacPolicyNormalizer.ts.
use mathlib.Core.Path.{subst}
use kittle.Base.{
  ◌===◌, Bool, true, false, negate, Option, none, some, List, [], ◌∷◌, ◌++◌, map, all, is_empty,
  is_empty-append, Result, ok, err, ◌≡◌, refl, sym, ◌∙◌, and_first, and_rest,
}
use kittle.Js.{Numbers}
use kittle.Predicate.{PredicateNode}
use kittle.Predicate.Supported.First.{is_none, conditions}
use kittle.Policy.{Coercions}
use kittle.Policy.Compile.{AbacContext, PredicateCompileResult, policy_conditions_to_predicate}
use kittle.Policy.Catalog.{AbacModuleCatalog, validate_payload_against_catalog}
use kittle.Policy.Catalog.Fit.{fits_payload, validate_payload_against_catalog-empty}
use kittle.Policy.Normalize.{
  RangeError, Normalizing, AbacPolicy, NormalizedPolicy, NormalizationError, effect_invalid,
  priority_invalid, scope_invalid, window_invalid, module_key_mismatch, catalog_validation_failed,
  NormalizePolicyResult, success, failure, thrown, check, is_policy_effect, is_policy_priority,
  is_policy_scope_type, field_types, predicate_error, is_active, valid_window,
}
use kittle.Policy.Normalize.Durable.{
  canonicalize_node, canonicalize_policy, canonical, durable, unless_error, unless_errors,
  header_errors, with_compiled, normalize_abac_policy,
}
use kittle.Policy.Normalize.Survives.{survives_at, predicate_error-survives}
use kittle.Policy.Normalize.Kept.{
  OnOk, OnOk-chain, Survive, IsHeader, canonicalize_node-Survive, canonicalize_policy-IsHeader,
}

module _ {N : Type 0} where
  abbrev OnSuccess : (NormalizedPolicy N → Bool → Type 0) → NormalizePolicyResult N → Type 0
  OnSuccess Q (success n excluded) = Q n excluded
  OnSuccess Q (failure _) = Unit
  OnSuccess Q (thrown _) = Unit

  unless_errors-OnSuccess :
      (Q : NormalizedPolicy N → Bool → Type 0) (es : List (NormalizationError N))
      (r : NormalizePolicyResult N)
      → (is_empty es ≡ true → OnSuccess Q r)
      → OnSuccess Q (unless_errors es r)
  unless_errors-OnSuccess Q [] r h = h refl
  unless_errors-OnSuccess Q (e ∷ es) r h = tt

  unless_error-OnSuccess :
      (Q : NormalizedPolicy N → Bool → Type 0) (o : Option (NormalizationError N))
      (r : NormalizePolicyResult N)
      → (is_none o ≡ true → OnSuccess Q r)
      → OnSuccess Q (unless_error o r)
  unless_error-OnSuccess Q none r h = h refl
  unless_error-OnSuccess Q (some e) r h = tt

  check-empty : (b : Bool) (e : NormalizationError N) → is_empty (check b e) ≡ true → b ≡ true
  check-empty true e h = refl
  check-empty false e h = h

  -- The first check passes, and so do the later ones.
  checked :
      (b : Bool) (e : NormalizationError N) (es : List (NormalizationError N))
      → is_empty (check b e ++ es) ≡ true
      → (b ≡ true) × (is_empty es ≡ true)
  checked b e es h =
      let both = sym (is_empty-append (check b e) es) ∙ h in
      (check-empty b e (and_first _ _ both), and_rest _ _ both)

is_empty-map : {A B : Type 0} (f : A → B) (xs : List A) → is_empty (map f xs) ≡ is_empty xs
is_empty-map f [] = refl
is_empty-map f (x ∷ xs) = refl

module _ {N : Type 0} ⦃num : Numbers N⦄ ⦃co : Coercions N⦄ (nz : Normalizing N) where
  header_errors-IsHeader :
      (p : AbacPolicy N) (catalog : AbacModuleCatalog)
      → is_empty (header_errors nz p catalog) ≡ true
      → IsHeader nz p catalog.module_key × (valid_window p ≡ true)
  unfolding header_errors
  header_errors-IsHeader p catalog h =
      let decided = checked (is_policy_effect p.effect) effect_invalid _ h in
      let ranked = checked (is_policy_priority nz p.priority) priority_invalid _ decided.1 in
      let scoped = checked (is_policy_scope_type p.scope_type) scope_invalid _ ranked.1 in
      let windowed = checked (valid_window p) window_invalid _ scoped.1 in
      (
        record {
          decided = decided.0;
          ranked = ranked.0;
          scoped = scoped.0;
          of_module =
              check-empty (p.module_key === catalog.module_key) module_key_mismatch windowed.1;
        },
        windowed.0,
      )

  -- The copy has the header of a policy of the catalog and conditions that Survive; the policy's
  -- payload fits the catalog, its window is valid, and it is excluded just where it is not active.
  pub record IsNormalized (p : AbacPolicy N) (catalog : AbacModuleCatalog) (at : N)
      (n : NormalizedPolicy N) (excluded : Bool) : Type 0 where
    pub header : IsHeader nz n.policy catalog.module_key
    pub windowed : valid_window p ≡ true
    pub fitting : fits_payload catalog p.payload ≡ true
    pub surviving :
        all (survives_at (field_types catalog.fields)) (conditions n.compiled_conditions) ≡ true
    pub dated : excluded ≡ negate (is_active p at)

  module _ (p : AbacPolicy N) (catalog : AbacModuleCatalog) (at : N) where
    canonical-IsNormalized :
        (node : PredicateNode N)
        → IsHeader nz p catalog.module_key × (valid_window p ≡ true)
        → fits_payload catalog p.payload ≡ true
        → all (survives_at (field_types catalog.fields)) (conditions node) ≡ true
        → OnOk (λ n. IsNormalized p catalog at n (negate (is_active p at))) (canonical nz p node)
    unfolding canonical
    canonical-IsNormalized node (header, windowed) fitting surviving =
        let P = λ (n : NormalizedPolicy N). IsNormalized p catalog at n (negate (is_active p at)) in
        OnOk-chain (λ q. IsHeader nz q catalog.module_key) P (canonicalize_policy nz p) _
          (canonicalize_policy-IsHeader nz p catalog.module_key header)
          (λ policy kept.
            OnOk-chain (Survive (field_types catalog.fields)) P (canonicalize_node nz node)
              (λ compiled. ok (record { policy = policy; compiled_conditions = compiled }))
              (canonicalize_node-Survive nz (field_types catalog.fields) node surviving)
              (λ compiled left. record {
                header = kept;
                windowed = windowed;
                fitting = fitting;
                surviving = left;
                dated = refl;
              }))

    durable-IsNormalized :
        (r : Result RangeError (NormalizedPolicy N))
        → OnOk (λ n. IsNormalized p catalog at n (negate (is_active p at))) r
        → OnSuccess (IsNormalized p catalog at) (durable r (negate (is_active p at)))
    durable-IsNormalized (ok n) h = h
    durable-IsNormalized (err e) h = tt

    with_compiled-IsNormalized :
        (r : PredicateCompileResult N)
        → IsHeader nz p catalog.module_key × (valid_window p ≡ true)
        → fits_payload catalog p.payload ≡ true
        → OnSuccess
            (IsNormalized p catalog at)
            (with_compiled nz p catalog (negate (is_active p at)) r)
    unfolding with_compiled
    with_compiled-IsNormalized (err es) header fitting = tt
    with_compiled-IsNormalized (ok node) header fitting =
        let fields = field_types catalog.fields in
        unless_error-OnSuccess (IsNormalized p catalog at) (predicate_error fields node) _ (λ free.
          durable-IsNormalized (canonical nz p node) (
            canonical-IsNormalized node header fitting (predicate_error-survives fields node free)))

    normalize_abac_policy-OnSuccess :
        (context : AbacContext N)
        → OnSuccess (IsNormalized p catalog at) (normalize_abac_policy nz p catalog context at)
    unfolding normalize_abac_policy
    normalize_abac_policy-OnSuccess context =
        let issues = validate_payload_against_catalog catalog p.payload in
        unless_errors-OnSuccess (IsNormalized p catalog at) (map catalog_validation_failed issues) _
          (λ no_issue.
            unless_errors-OnSuccess (IsNormalized p catalog at) (header_errors nz p catalog) _
              (λ no_error.
                with_compiled-IsNormalized
                  (policy_conditions_to_predicate context (field_types catalog.fields)
                    p.payload.conditions)
                  (header_errors-IsHeader p catalog no_error)
                  (sym (validate_payload_against_catalog-empty catalog p.payload)
                    ∙ (sym (is_empty-map catalog_validation_failed issues) ∙ no_issue))))

    -- A policy that normalizes has an effect, a priority and a scope type that the tiers know, and
    -- the module key of the catalog; its window is valid and its payload fits the catalog; each
    -- condition of its compiled predicate is on a declared field, with one of the operators that
    -- `survives` lists for the field's type; and it is excluded exactly when it is not active.
    pub normalize_abac_policy-IsNormalized :
        (context : AbacContext N) (n : NormalizedPolicy N) (excluded : Bool)
        → normalize_abac_policy nz p catalog context at ≡ success n excluded
        → IsNormalized p catalog at n excluded
    normalize_abac_policy-IsNormalized context n excluded h =
        subst (OnSuccess (IsNormalized p catalog at)) h (normalize_abac_policy-OnSuccess context)
