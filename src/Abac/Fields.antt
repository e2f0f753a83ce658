-- ===== src/Abac/Fields.antt =====
-- packages/core/src/domain/fieldAccess.ts: what a caller may read of a record, and query by.
pub mod Cache
pub mod Projection
pub mod Query
pub mod Denied
use kittle.Base.{
  ℕ, leb, ltb, ℤ, ltb_ℤ, ◌==ℤ◌, String, ◌===◌, str_mem, Bool, true, false, negate, ◌&&◌, ◌||◌,
  Option, none, some, List, [], ◌∷◌, map, filter, lookup, has_own, set_entry, length, if◌then◌else◌,
}
use kittle.Js.{Numbers, Props}
use kittle.Tier.{Effect, is_allow, is_deny}
use kittle.Abac.{
  NormalizedAbacPolicy, PolicyFieldAccess, FieldReadMode, policy_matches_record, is_some,
}
use kittle.Abac.Write.{object_keys}

abbrev pub ReadMap : Type 0
ReadMap = List (String × FieldReadMode)

abbrev pub restrictiveness : FieldReadMode → ℕ
restrictiveness FieldReadMode.allow = 0
restrictiveness FieldReadMode.mask = 1
restrictiveness FieldReadMode.omit = 2

-- `fieldAccess?.read`
abbrev pub read_map : Option PolicyFieldAccess → Option ReadMap
read_map none = none
read_map (some access) = access.read

-- `?? {}`
abbrev pub read_entries : Option ReadMap → ReadMap
read_entries none = []
read_entries (some read) = read

-- The state of the loop: `overrides`, `priorities`, `allowlistPriority`.
pub record Overrides : Type 0 where
  pub modes : ReadMap
  pub priorities : List (String × ℤ)
  pub allowlist_priority : Option ℤ

module _ {N : Type 0} where
  abbrev pub reads : NormalizedAbacPolicy N → Option ReadMap
  reads p = read_map p.payload.field_access

  -- The part of both tests that does not look at the record.
  abbrev pub is_read_policy : String → NormalizedAbacPolicy N → Bool
  is_read_policy module_key p =
      p.module_key === module_key && (str_mem "read" p.payload.actions && is_some (reads p))

  -- `sort((left, right) => right.priority - left.priority)`, which is stable.
  unfoldable pub insert_by_priority :
      NormalizedAbacPolicy N → List (NormalizedAbacPolicy N) → List (NormalizedAbacPolicy N)
  insert_by_priority p [] = p ∷ []
  insert_by_priority p (q ∷ qs) =
      if ltb_ℤ p.priority q.priority then q ∷ insert_by_priority p qs else p ∷ q ∷ qs

  unfoldable pub sort_by_priority : List (NormalizedAbacPolicy N) → List (NormalizedAbacPolicy N)
  unfolding insert_by_priority
  sort_by_priority [] = []
  sort_by_priority (p ∷ ps) = insert_by_priority p (sort_by_priority ps)

-- Both maps at once: `overrides[field] = mode; priorities.set(field, priority)`.
pub set_field : String → FieldReadMode → ℤ → Overrides → Overrides
set_field field mode k s = record s {
  modes = set_entry field mode s.modes;
  priorities = set_entry field k s.priorities;
}

-- The loop over the record's keys: a field that the allow policy does not list is omitted.
omit_unlisted : ReadMap → ℤ → List String → Overrides → Overrides
unfolding set_field
omit_unlisted read k [] s = s
omit_unlisted read k (field ∷ fields) s =
    omit_unlisted read k fields
      (if has_own field read then s else set_field field FieldReadMode.omit k s)

-- `allowlistPriority === undefined || policy.priority > allowlistPriority`
abbrev exceeds : ℤ → Option ℤ → Bool
exceeds k none = true
exceeds k (some a) = ltb_ℤ a k

abbrev is_as_restrictive : Option FieldReadMode → FieldReadMode → Bool
is_as_restrictive none incoming = false
is_as_restrictive (some existing) incoming =
    leb (restrictiveness incoming) (restrictiveness existing)

-- One entry of a policy's read map, given the priority recorded for the field.
apply_entry : ℤ → String → FieldReadMode → Option ℤ → Overrides → Overrides
unfolding set_field
apply_entry k field incoming none s = set_field field incoming k s
apply_entry k field incoming (some previous) s =
    if ltb_ℤ k previous
    then s
    else (if previous ==ℤ k
        then (if is_as_restrictive (lookup field s.modes) incoming
            then s
            else record s { modes = set_entry field incoming s.modes })
        else set_field field incoming k s)

apply_entries : Effect → ℤ → ReadMap → Overrides → Overrides
unfolding apply_entry
apply_entries effect k [] s = s
apply_entries effect k ((field, mode) ∷ read) s =
    let incoming = if is_deny effect then FieldReadMode.omit else mode in
    apply_entries effect k read (apply_entry k field incoming (lookup field s.priorities) s)

abbrev no_overrides : Overrides
no_overrides = record { modes = []; priorities = []; allowlist_priority = none }

module _ {N : Type 0} where
  apply_allowlist : List String → NormalizedAbacPolicy N → Overrides → Overrides
  unfolding omit_unlisted
  apply_allowlist keys p s =
      if is_allow p.effect && (is_some (reads p) && exceeds p.priority s.allowlist_priority)
      then omit_unlisted (read_entries (reads p)) p.priority keys
          (record s { allowlist_priority = some p.priority })
      else s

  apply_policy : List String → NormalizedAbacPolicy N → Overrides → Overrides
  unfolding apply_allowlist apply_entries
  apply_policy keys p s =
      apply_entries p.effect p.priority (read_entries (reads p)) (apply_allowlist keys p s)

  apply_policies : List String → List (NormalizedAbacPolicy N) → Overrides → Overrides
  unfolding apply_policy
  apply_policies keys [] s = s
  apply_policies keys (p ∷ ps) s = apply_policies keys ps (apply_policy keys p s)

  -- The overrides that a sorted list of matches decides.
  pub overrides_of : Props N → List (NormalizedAbacPolicy N) → ReadMap
  unfolding apply_policies
  overrides_of r matches = (apply_policies (object_keys r) matches no_overrides).modes

  -- The branch without a cached list.
  unfoldable pub plain_matches :
      ⦃num : Numbers N⦄
      → String
      → Props N
      → List (NormalizedAbacPolicy N)
      → List (NormalizedAbacPolicy N)
  unfolding sort_by_priority
  plain_matches module_key r policies =
      sort_by_priority
        (filter (λ p. is_read_policy module_key p && policy_matches_record r p) policies)
