-- ===== src/Tests/Fields.antt =====
-- What the sample bundle shows of a record, and what it lets a caller query by.
use kittle.Base.{
  codes, ℕ, ◌≡◌, refl, arith, String, true, negate, ◌&&◌, ◌||◌, none, some, List, [], ◌∷◌, is_ok,
  inl, str_mem, lookup, all,
}
use kittle.Js.{Value}
use kittle.Abac.{FieldReadMode, NormalizedAbacPolicy}
use kittle.Abac.Fields.{plain_matches, overrides_of, reads, read_entries}
use kittle.Abac.Fields.Cache.{PolicyList, resolve_field_read_overrides}
use kittle.Abac.Fields.Cache.Coherence.{
  IsValidCache, resolve_field_read_overrides-plain, resolve_field_read_overrides-IsValidCache,
}
use kittle.Abac.Fields.Projection.{FieldFormat, mask_text, project_response_record, Fields}
use kittle.Abac.Fields.Projection.Visible.{visible, lookup-project_response_record, mask_text_tail}
use kittle.Abac.Fields.Query.{
  QueryMode, at_mode, resolve_field_query_access, resolve_field_query_denials,
  assert_field_query_access,
}
use kittle.Abac.Fields.Query.Members.{is_hidden, is_shown, is_granted}
use kittle.Abac.Fields.Query.Laws.{
  str_mem-resolve_field_query_denials, str_mem-resolve_field_query_access,
  assert_field_query_access-is_ok,
}
use mathlib.Core.Path.{subst}
use kittle.Base.{false, sym, pos, ◌≤ℤ◌, ◌⊎◌, inr, Memᴰ, All, has_own}
use kittle.Tier.{deny}
use kittle.Predicate.Eval.{evaluate_predicate, evaluate_truth, evaluate_condition, values_equal}
use kittle.Abac.Fields.Denied.Walk.{overrides_of-omits}
use kittle.Tests.{policy_of, equals, allow_open, naturals, policies, open_order}

abbrev frozen : PolicyList ℕ
frozen = record { policies = policies; is_frozen = true; members_frozen = true }

empty-IsValidCache : IsValidCache policies []
empty-IsValidCache = record { right = tt; small = omega arith }

resolve_field_read_overrides-plain_example :
    (resolve_field_read_overrides frozen "orders" open_order []).0
    ≡ overrides_of open_order (plain_matches "orders" open_order policies)
resolve_field_read_overrides-plain_example =
    resolve_field_read_overrides-plain frozen "orders" open_order [] empty-IsValidCache

resolve_field_read_overrides-IsValidCache_example :
    IsValidCache policies (resolve_field_read_overrides frozen "orders" open_order []).1
resolve_field_read_overrides-IsValidCache_example =
    resolve_field_read_overrides-IsValidCache frozen "orders" open_order [] empty-IsValidCache

abbrev fields : Fields
fields = ("status", none) ∷ ("phone", some FieldFormat.phone) ∷ []

-- Every value shows as the same text, which the masked value of a phone is made of.
abbrev text_of : Value ℕ → String
text_of v = "5551234"

abbrev modes : List (String × FieldReadMode)
modes = ("phone", FieldReadMode.mask) ∷ []

lookup-project_response_record_example :
    lookup "phone" (project_response_record text_of fields open_order modes)
    ≡ visible text_of fields open_order modes "phone"
lookup-project_response_record_example =
    lookup-project_response_record text_of fields open_order modes "phone" (refl, (refl, tt))

mask_text_tail_example :
    (mask_text (some FieldFormat.phone) (codes "551234") ≡ codes "***1234")
    × (mask_text (some FieldFormat.phone) (codes "1234") ≡ codes "[REDACTED]")
mask_text_tail_example =
    mask_text_tail FieldFormat.phone 53 (53 ∷ []) (codes "1234") (codes "1234") (inl refl) refl
      (omega arith)

str_mem-resolve_field_query_denials_example :
    str_mem "phone" (at_mode QueryMode.sort (resolve_field_query_denials policies "orders")) ≡ (
      negate (is_granted "phone" "orders" QueryMode.sort policies)
      && is_hidden "phone" "orders" policies)
str_mem-resolve_field_query_denials_example =
    str_mem-resolve_field_query_denials policies "orders" QueryMode.sort "phone"

str_mem-resolve_field_query_access_example :
    str_mem "phone" (at_mode QueryMode.filter (resolve_field_query_access policies "orders")) ≡ (
      is_granted "phone" "orders" QueryMode.filter policies
      || (is_shown "phone" "orders" policies && negate (is_hidden "phone" "orders" policies)))
str_mem-resolve_field_query_access_example =
    str_mem-resolve_field_query_access policies "orders" QueryMode.filter "phone"

assert_field_query_access-is_ok_example :
    is_ok (
      assert_field_query_access
        (at_mode QueryMode.sort (resolve_field_query_denials policies "orders"))
        ("status" ∷ "phone" ∷ []))
    ≡ all
        (λ f.
          is_granted f "orders" QueryMode.sort policies || negate (is_hidden f "orders" policies))
        ("status" ∷ "phone" ∷ [])
assert_field_query_access-is_ok_example =
    assert_field_query_access-is_ok policies "orders" QueryMode.sort ("status" ∷ "phone" ∷ [])

phone_sort_denied :
    at_mode QueryMode.sort (resolve_field_query_denials policies "orders") ≡ "phone" ∷ []
unfolding resolve_field_query_denials
phone_sort_denied = refl

-- Hides the phone of an open order.
abbrev deny_phone : NormalizedAbacPolicy ℕ
deny_phone =
    policy_of 3 deny 30 ("read" ∷ [])
      (some
        (record { read = some (("phone", FieldReadMode.allow) ∷ []); write = none; query = none }))
      (equals "status" "open")

sorted :
    plain_matches "orders" open_order (allow_open ∷ deny_phone ∷ []) ≡ deny_phone ∷ allow_open ∷ []
unfolding plain_matches evaluate_predicate evaluate_truth evaluate_condition values_equal
sorted = refl

overrides_of-omits_example :
    lookup "phone"
      (overrides_of open_order (plain_matches "orders" open_order (allow_open ∷ deny_phone ∷ [])))
    ≡ some FieldReadMode.omit
overrides_of-omits_example =
    overrides_of-omits "orders" open_order (allow_open ∷ deny_phone ∷ []) "phone" deny_phone
      (subst (λ ps. Memᴰ deny_phone ps) (sym sorted) (Memᴰ.head refl)) refl refl
      (subst
        (λ ps.
          All (λ q. (has_own "phone" (read_entries (reads q)) ≡ false) ⊎ (q.priority ≤ℤ pos 30)) ps)
        (sym sorted) (inr (omega arith), (inr (omega arith), tt)))
