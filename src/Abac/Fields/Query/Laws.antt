-- ===== src/Abac/Fields/Query/Laws.antt =====
-- Which fields a caller may query by, as a test on the policies.
use kittle.Base.{str_mem-filter}
use kittle.Base.{
  String, str_mem, ◌≡◌, refl, ◌∙◌, negate, ◌&&◌, ◌||◌, List, [], ◌∷◌, filter, is_ok, all, ap₂, ap,
  arith,
}
use kittle.Abac.{NormalizedAbacPolicy}
use kittle.Abac.Fields.Query.{
  FieldQueryAccess, QueryMode, at_mode, push_all, collect_denied_query_fields, collect_query_grants,
  resolve_field_query_access, resolve_field_query_denials, assert_field_query_access,
  empty_field_query_access,
}
use kittle.Abac.Fields.Query.Members.{
  same_mode, str_mem-push_all, str_mem-collect_denied, str_mem-collect_grants,
  str_mem-allow_readable, is_hidden, is_shown, is_granted,
}

module _ {N : Type 0} (policies : List (NormalizedAbacPolicy N)) (module_key : String) where
  abbrev grants : FieldQueryAccess
  grants = collect_query_grants module_key policies empty_field_query_access

  abbrev denied_list : List String
  denied_list = collect_denied_query_fields module_key policies []

  granted-lem :
      (m : QueryMode) (f : String)
      → str_mem f (at_mode m grants) ≡ is_granted f module_key m policies
  granted-lem m f =
      str_mem-collect_grants f module_key m policies empty_field_query_access ∙ empty_start m
    where
      empty_start :
          (m : QueryMode)
          → (str_mem f (at_mode m empty_field_query_access) || is_granted f module_key m policies)
            ≡ is_granted f module_key m policies
      empty_start QueryMode.filter = refl
      empty_start QueryMode.search = refl
      empty_start QueryMode.sort = refl

  denials_at :
      (m : QueryMode)
      → at_mode m (resolve_field_query_denials policies module_key)
        ≡ filter (λ g. negate (str_mem g (at_mode m grants))) denied_list
  unfolding resolve_field_query_denials
  denials_at QueryMode.filter = refl
  denials_at QueryMode.search = refl
  denials_at QueryMode.sort = refl

  -- A mode's denials hold a field exactly when a policy of the module hides the field (by a deny
  -- effect, or by the read mode `omit` or `mask`) and no policy of the module grants that mode.
  pub str_mem-resolve_field_query_denials :
      (m : QueryMode) (f : String)
      → str_mem f (at_mode m (resolve_field_query_denials policies module_key))
        ≡ (negate (is_granted f module_key m policies) && is_hidden f module_key policies)
  str_mem-resolve_field_query_denials m f =
      ap (str_mem f) (denials_at m)
      ∙ str_mem-filter f (λ g. negate (str_mem g (at_mode m grants))) denied_list
      ∙ ap₂ (λ a b. negate a && b) (granted-lem m f)
          (str_mem-collect_denied f module_key policies [])

  allowed_grants :
      (m : QueryMode) (f : String)
      → str_mem f (
          at_mode m (
            push_all QueryMode.sort grants.sort (
              push_all QueryMode.search grants.search
                (push_all QueryMode.filter grants.filter empty_field_query_access))))
        ≡ str_mem f (at_mode m grants)
  allowed_grants m f =
      str_mem-push_all f m QueryMode.sort grants.sort _
      ∙ (rw
          (
            str_mem-push_all f m QueryMode.search grants.search
                (push_all QueryMode.filter grants.filter empty_field_query_access),
            str_mem-push_all f m QueryMode.filter grants.filter empty_field_query_access,
          )
          (own m))
    where
      own :
          (m : QueryMode)
          → (((str_mem f (at_mode m empty_field_query_access)
                  || (same_mode m QueryMode.filter && str_mem f grants.filter))
                || (same_mode m QueryMode.search && str_mem f grants.search))
              || (same_mode m QueryMode.sort && str_mem f grants.sort))
            ≡ str_mem f (at_mode m grants)
      own QueryMode.filter = ground arith
      own QueryMode.search = ground arith
      own QueryMode.sort = ground arith

  -- A mode's allowed fields hold a field exactly when a policy of the module grants that mode, or a
  -- policy of the module shows the field for reading and none hides it. So a field that no policy
  -- references is not among them.
  pub str_mem-resolve_field_query_access :
      (m : QueryMode) (f : String)
      → str_mem f (at_mode m (resolve_field_query_access policies module_key)) ≡ (
          is_granted f module_key m policies
          || (is_shown f module_key policies && negate (is_hidden f module_key policies)))
  unfolding resolve_field_query_access
  str_mem-resolve_field_query_access m f =
      str_mem-allow_readable f module_key m policies denied_list _
      ∙ ap₂ (λ a b. a || (is_shown f module_key policies && negate b))
          (allowed_grants m f ∙ granted-lem m f) (str_mem-collect_denied f module_key policies [])

-- A query by a list of fields passes exactly when each field of the list is granted the mode by a
-- policy of the module, or is hidden by none.
pub assert_field_query_access-is_ok :
    {N : Type 0} (policies : List (NormalizedAbacPolicy N)) (module_key : String) (m : QueryMode)
    (fields : List String)
    → is_ok (
        assert_field_query_access
          (at_mode m (resolve_field_query_denials policies module_key))
          fields)
      ≡ all
          (λ f. is_granted f module_key m policies || negate (is_hidden f module_key policies))
          fields
unfolding assert_field_query_access
assert_field_query_access-is_ok policies module_key m fields = passes fields
  where
    passes :
        (fields : List String)
        → is_ok (
            assert_field_query_access
              (at_mode m (resolve_field_query_denials policies module_key))
              fields)
          ≡ all
              (λ f. is_granted f module_key m policies || negate (is_hidden f module_key policies))
              fields
    passes [] = refl
    passes (f ∷ fs) =
        ground (arith, passes fs, str_mem-resolve_field_query_denials policies module_key m f)
