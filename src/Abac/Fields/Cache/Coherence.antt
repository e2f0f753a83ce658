-- ===== src/Abac/Fields/Cache/Coherence.antt =====
-- The cached branch decides as the plain one, and the cache stays right and small.
use kittle.Base.{
  ◌+◌, ◌≤◌, leb, ℤ, ◌≤ℤ◌, String, eq_iff, ◌≡◌, refl, ◌∙◌, ap, Bool, true, false, some, List, [],
  ◌∷◌, filter, filter-filter, All, lookup, set_entry, length, if◌then◌else◌, arith, Bool-cases,
  Option-cases, inl, inr,
}
use kittle.Js.{Numbers, Props}
use kittle.Abac.{NormalizedAbacPolicy, policy_matches_record}
use kittle.Abac.Fields.{
  is_read_policy, insert_by_priority, sort_by_priority, plain_matches, overrides_of,
}
use kittle.Abac.Fields.Cache.{
  ModuleCache, PolicyList, cache_limit, selected, matches_of, resolve_field_read_overrides,
}

module _ {N : Type 0} where
  -- Highest priority first, ties in any order.
  abbrev pub IsByPriority : List (NormalizedAbacPolicy N) → Type 0
  IsByPriority [] = Unit
  IsByPriority (p ∷ ps) = All (λ q. q.priority ≤ℤ p.priority) ps × IsByPriority ps

  All-insert :
      (k : ℤ) (p : NormalizedAbacPolicy N) (ps : List (NormalizedAbacPolicy N))
      → p.priority ≤ℤ k
      → All (λ q. q.priority ≤ℤ k) ps
      → All (λ q. q.priority ≤ℤ k) (insert_by_priority p ps)
  unfolding insert_by_priority
  All-insert k p [] h hs = (h, tt)
  All-insert k p (q ∷ qs) h hs = ground (arith, All-insert k p qs h)

  All-weaken :
      (k j : ℤ) (ps : List (NormalizedAbacPolicy N))
      → k ≤ℤ j
      → All (λ q. q.priority ≤ℤ k) ps
      → All (λ q. q.priority ≤ℤ j) ps
  All-weaken k j [] h hs = tt
  All-weaken k j (q ∷ qs) h hs = (ground arith, All-weaken k j qs h hs.1)

  insert-IsByPriority :
      (p : NormalizedAbacPolicy N) (ps : List (NormalizedAbacPolicy N))
      → IsByPriority ps
      → IsByPriority (insert_by_priority p ps)
  unfolding insert_by_priority
  insert-IsByPriority p [] d = (tt, tt)
  insert-IsByPriority p (q ∷ qs) d = ground (
    arith,
    insert-IsByPriority p qs,
    All-insert q.priority p qs,
    All-weaken q.priority p.priority qs,
  )

  pub sort-IsByPriority : (ps : List (NormalizedAbacPolicy N)) → IsByPriority (sort_by_priority ps)
  unfolding sort_by_priority
  sort-IsByPriority [] = tt
  sort-IsByPriority (p ∷ ps) = insert-IsByPriority p (sort_by_priority ps) (sort-IsByPriority ps)

  module _ (test : NormalizedAbacPolicy N → Bool) where
    -- Nothing in the list is above `p`, so `p` is put first.
    insert_first :
        (p : NormalizedAbacPolicy N) (ps : List (NormalizedAbacPolicy N))
        → All (λ q. q.priority ≤ℤ p.priority) ps
        → insert_by_priority p (filter test ps) ≡ p ∷ filter test ps
    unfolding insert_by_priority
    insert_first p [] h = refl
    insert_first p (q ∷ qs) h = ground (arith, insert_first p qs)

    filter-insert :
        (p : NormalizedAbacPolicy N) (ps : List (NormalizedAbacPolicy N))
        → IsByPriority ps
        → filter test (insert_by_priority p ps)
          ≡ (if test p then insert_by_priority p (filter test ps) else filter test ps)
    unfolding insert_by_priority
    filter-insert p [] d = refl
    filter-insert p (q ∷ qs) d =
        ground (arith, filter-insert p qs, insert_first p qs, All-weaken q.priority p.priority qs)

    filter-sort :
        (ps : List (NormalizedAbacPolicy N))
        → filter test (sort_by_priority ps) ≡ sort_by_priority (filter test ps)
    unfolding sort_by_priority
    filter-sort [] = refl
    filter-sort (p ∷ ps) =
        filter-insert p (sort_by_priority ps) (sort-IsByPriority ps)
        ∙ ap (λ l. if test p then insert_by_priority p l else l) (filter-sort ps)
        ∙ branch (test p)
      where
        branch :
            (b : Bool)
            → (if b
                then insert_by_priority p (sort_by_priority (filter test ps))
                else sort_by_priority (filter test ps))
              ≡ sort_by_priority (if b then p ∷ filter test ps else filter test ps)
        branch true = refl
        branch false = refl

  -- Each cached list is the one that the policies select, and there are 16 at most.
  pub record IsValidCache (policies : List (NormalizedAbacPolicy N)) (cache : ModuleCache N)
      : Type 0 where
    pub right : All (λ e. e.1 ≡ selected e.0 policies) cache
    pub small : length cache ≤ cache_limit

  module _ (policies : List (NormalizedAbacPolicy N)) where
    lookup-right :
        (k : String) (cache : ModuleCache N) {cached : List (NormalizedAbacPolicy N)}
        → All (λ e. e.1 ≡ selected e.0 policies) cache
        → lookup k cache ≡ some cached
        → cached ≡ selected k policies
    lookup-right k [] h e = cc
    lookup-right k ((j, v) ∷ cache) {cached} h e =
        ground (arith, eq_iff j k, lookup-right k cache {cached = cached} h.1)

    set_entry-right :
        (k : String) (cache : ModuleCache N)
        → All (λ e. e.1 ≡ selected e.0 policies) cache
        → All (λ e. e.1 ≡ selected e.0 policies) (set_entry k (selected k policies) cache)
    unfolding set_entry
    set_entry-right k [] h = (refl, tt)
    set_entry-right k ((j, v) ∷ cache) h = ground (arith, set_entry-right k cache h.1)

  length-set_entry :
      (k : String) (v : List (NormalizedAbacPolicy N)) (cache : ModuleCache N)
      → length (set_entry k v cache) ≤ length cache + 1
  unfolding set_entry
  length-set_entry k v [] = omega arith
  length-set_entry k v ((j, w) ∷ cache) = ground (arith, length-set_entry k v cache)

  matches_of-selected :
      ⦃num : Numbers N⦄ (module_key : String) (r : Props N)
      (policies : List (NormalizedAbacPolicy N))
      → matches_of module_key r policies (some (selected module_key policies))
        ≡ plain_matches module_key r policies
  unfolding matches_of selected plain_matches
  matches_of-selected module_key r policies =
      filter-sort (policy_matches_record r) (filter (is_read_policy module_key) policies)
      ∙ ap sort_by_priority
          (filter-filter (policy_matches_record r) (is_read_policy module_key) policies)

-- With a valid cache the overrides are those of the plain walk over the policies, whether the list
-- is frozen, cached already, or neither.
pub resolve_field_read_overrides-plain :
    {N : Type 0} ⦃num : Numbers N⦄ (l : PolicyList N) (module_key : String) (r : Props N)
    (cache : ModuleCache N)
    → IsValidCache l.policies cache
    → (resolve_field_read_overrides l module_key r cache).0
      ≡ overrides_of r (plain_matches module_key r l.policies)
unfolding resolve_field_read_overrides
resolve_field_read_overrides-plain l module_key r cache v = elim (Bool-cases l.is_frozen) [
  | inr warm ↦ rw warm refl
  | inl frozen ↦ elim (Option-cases (lookup module_key cache)) [
    | inl miss ↦ elim (Bool-cases l.members_frozen) [
      | inl all' ↦
          rw (frozen, miss, all')
            (ap (overrides_of r) (matches_of-selected module_key r l.policies))
      | inr some' ↦ rw (frozen, miss, some') refl
    ]
    | inr (cached, hit) ↦
        let e = lookup-right l.policies module_key cache v.right hit in
        rw (frozen, hit, e) (ap (overrides_of r) (matches_of-selected module_key r l.policies))
  ]
]

-- A call keeps the cache valid.
pub resolve_field_read_overrides-IsValidCache :
    {N : Type 0} ⦃num : Numbers N⦄ (l : PolicyList N) (module_key : String) (r : Props N)
    (cache : ModuleCache N)
    → IsValidCache l.policies cache
    → IsValidCache l.policies (resolve_field_read_overrides l module_key r cache).1
unfolding resolve_field_read_overrides
resolve_field_read_overrides-IsValidCache {N} l module_key r cache v =
    elim (Bool-cases l.is_frozen) [
      | inr warm ↦ rw warm v
      | inl frozen ↦ elim (Option-cases (lookup module_key cache)) [
        | inr (cached, hit) ↦ rw (frozen, hit) v
        | inl miss ↦ elim (Bool-cases l.members_frozen) [
          | inr some' ↦ rw (frozen, miss, some') v
          | inl all' ↦ rw (frozen, miss, all') stored
        ]
      ]
    ]
  where
    kept : ModuleCache N
    kept = if leb cache_limit (length cache) then [] else cache

    stored : IsValidCache l.policies (set_entry module_key (selected module_key l.policies) kept)
    stored = elim (Bool-cases (leb cache_limit (length cache))) [
      | inl full ↦ rw full (record {
        right = set_entry-right l.policies module_key [] tt;
        small = omega (arith, length-set_entry module_key (selected module_key l.policies) []);
      })
      | inr room ↦ rw room (record {
        right = set_entry-right l.policies module_key cache v.right;
        small = ground (arith, length-set_entry module_key (selected module_key l.policies) cache);
      })
    ]
