-- ===== src/Abac/Fields/Cache.antt =====
-- packages/core/src/domain/fieldAccess.ts: `readPoliciesForModule`, with the map that it keeps for
-- one frozen policy list, and `resolveFieldReadOverrides`.
pub mod Coherence
use kittle.Base.{
  ℕ, leb, String, Bool, true, false, ◌&&◌, Option, none, some, List, [], ◌∷◌, map, filter, lookup,
  set_entry, length, if◌then◌else◌,
}
use kittle.Js.{Numbers, Props}
use kittle.Abac.{NormalizedAbacPolicy, policy_matches_record}
use kittle.Abac.Fields.{ReadMap, is_read_policy, sort_by_priority, plain_matches, overrides_of}

-- `Map<string, NormalizedAbacPolicy[]>`
abbrev pub ModuleCache : Type 0 → Type 0
ModuleCache N = List (String × List (NormalizedAbacPolicy N))

-- A policy list as the runtime sees it: whether the list itself, and all that it holds, is frozen.
pub record PolicyList (N : Type 0) : Type 0 where
  pub policies : List (NormalizedAbacPolicy N)
  pub is_frozen : Bool
  pub members_frozen : Bool

abbrev pub cache_limit : ℕ
cache_limit = 16

module _ {N : Type 0} where
  pub selected : String → List (NormalizedAbacPolicy N) → List (NormalizedAbacPolicy N)
  unfolding sort_by_priority
  selected module_key policies = sort_by_priority (filter (is_read_policy module_key) policies)

  -- The cached list of a module, if the policies are frozen, and the cache after the call.
  pub read_policies_for_module :
      PolicyList N → String → ModuleCache N → Option (List (NormalizedAbacPolicy N)) × ModuleCache N
  unfolding selected
  read_policies_for_module l module_key cache =
      if l.is_frozen
      then elim (lookup module_key cache) [
        | some cached ↦ (some cached, cache)
        | none ↦
            if l.members_frozen
            then (
              some (selected module_key l.policies),
              set_entry module_key (selected module_key l.policies)
                  (if leb cache_limit (length cache) then [] else cache),
            )
            else (none, cache)
      ]
      else (none, cache)

  matches_of :
      ⦃num : Numbers N⦄
      → String
      → Props N
      → List (NormalizedAbacPolicy N)
      → Option (List (NormalizedAbacPolicy N))
      → List (NormalizedAbacPolicy N)
  unfolding plain_matches
  matches_of module_key r policies (some candidates) = filter (policy_matches_record r) candidates
  matches_of module_key r policies none = plain_matches module_key r policies

  unfoldable pub resolve_field_read_overrides :
      ⦃num : Numbers N⦄ → PolicyList N → String → Props N → ModuleCache N → ReadMap × ModuleCache N
  unfolding read_policies_for_module matches_of overrides_of
  resolve_field_read_overrides l module_key r cache =
      let (candidates, cache') = read_policies_for_module l module_key cache in
      (overrides_of r (matches_of module_key r l.policies candidates), cache')
