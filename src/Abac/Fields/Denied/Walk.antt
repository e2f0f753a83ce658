-- ===== src/Abac/Fields/Denied/Walk.antt =====
-- The walk over the matches, highest priority first.
use kittle.Base.{
  ℤ, ◌≤ℤ◌, eq_of_parts, String, ◌===◌, eq_iff, ◌≡◌, refl, sym, ◌∙◌, Bool, true, false, some, List,
  [], ◌∷◌, All, mem_of_All, Memᴰ, has_own, lookup, if◌then◌else◌, arith, Bool-cases, inl, inr, ◌⊎◌,
  ◌&&◌, filter,
}
use kittle.Js.{Numbers, Props}
use kittle.Tier.{Effect, deny, is_deny, is_allow}
use mathlib.Core.Path.{subst}
use kittle.Abac.{NormalizedAbacPolicy, FieldReadMode, is_some, policy_matches_record}
use kittle.Abac.Write.{object_keys}
use kittle.Abac.Fields.{
  ReadMap, Overrides, reads, read_entries, set_field, omit_unlisted, apply_entry, apply_entries,
  apply_allowlist, apply_policy, apply_policies, overrides_of, exceeds, is_read_policy,
  plain_matches, no_overrides,
}
use kittle.Abac.Fields.Cache.Coherence.{IsByPriority, sort-IsByPriority}
use kittle.Abac.Fields.Denied.{
  mode_at, IsOmitted, IsOpen, set_field-mode, set_field-priority, omit_unlisted-IsOmitted,
  entries-IsOmitted, IsOmitted-weaken, IsOpen-eq, entry-IsOpen_other, entry_self-IsOpen,
  deny_entries,
}

module _ (field : String) (l : ℤ) where
  entries-IsOpen_unlisted :
      (effect : Effect) (k : ℤ) (read : ReadMap) (s : Overrides)
      → has_own field read ≡ false
      → IsOpen field l s
      → IsOpen field l (apply_entries effect k read s)
  unfolding apply_entries
  entries-IsOpen_unlisted effect k [] s unlisted h = h
  entries-IsOpen_unlisted effect k ((f, mode) ∷ read) s unlisted h =
      let other : (f === field) ≡ false = ground arith in
      let rest : has_own field read ≡ false = ground arith in
      entries-IsOpen_unlisted effect k read _ rest (
        entry-IsOpen_other field k f (if is_deny effect then FieldReadMode.omit else mode) s l other
          h)

  entries-IsOpen_same :
      (effect : Effect) (read : ReadMap) (s : Overrides)
      → IsOpen field l s
      → IsOpen field l (apply_entries effect l read s)
  unfolding apply_entries
  entries-IsOpen_same effect [] s h = h
  entries-IsOpen_same effect ((f, mode) ∷ read) s h =
      let incoming = if is_deny effect then FieldReadMode.omit else mode in
      entries-IsOpen_same effect read (apply_entry l f incoming (lookup f s.priorities) s)
        (elim (Bool-cases (f === field)) [
          | inl same ↦ rw ((eq_iff f field).0 same) (entry_self-IsOpen field l incoming s h)
          | inr other ↦ entry-IsOpen_other field l f incoming s l other h
        ])

  omit_unlisted-IsOpen :
      (read : ReadMap) (k : ℤ) (keys : List String) (s : Overrides)
      → l ≤ℤ k
      → IsOpen field l s
      → IsOpen field l (omit_unlisted read k keys s)
  unfolding omit_unlisted
  omit_unlisted-IsOpen read k [] s le h = h
  omit_unlisted-IsOpen read k (f ∷ fs) s le h =
      omit_unlisted-IsOpen read k fs
        (if has_own f read then s else set_field f FieldReadMode.omit k s) le
        (step (Bool-cases (has_own f read)) (Bool-cases (f === field)))
    where
      step :
          ((has_own f read ≡ true) ⊎ (has_own f read ≡ false))
          → (((f === field) ≡ true) ⊎ ((f === field) ≡ false))
          → IsOpen field l (if has_own f read then s else set_field f FieldReadMode.omit k s)
      step (inl listed) _ = rw listed h
      step (inr free) (inl same) = rw free (
          inr (
            set_field-mode field f FieldReadMode.omit k s ∙ (rw same),
            k,
            set_field-priority field f FieldReadMode.omit k s ∙ (rw same),
            le,
          ))
      step (inr free) (inr other) = rw free (
          IsOpen-eq field l s (set_field f FieldReadMode.omit k s)
            (set_field-mode field f FieldReadMode.omit k s ∙ (rw other))
            (set_field-priority field f FieldReadMode.omit k s ∙ (rw other)) h)

either_branch :
    {A : Type 0} (P : A → Type 0) (b : Bool) {x y : A} → P x → P y → P (if b then x else y)
either_branch P true hx hy = hx
either_branch P false hx hy = hy

module _ {N : Type 0} (field : String) (keys : List String) where
  abbrev lists : NormalizedAbacPolicy N → Bool
  lists q = has_own field (read_entries (reads q))

  allowlist-IsOpen :
      (l : ℤ) (q : NormalizedAbacPolicy N) (s : Overrides)
      → l ≤ℤ q.priority
      → IsOpen field l s
      → IsOpen field l (apply_allowlist keys q s)
  unfolding apply_allowlist
  allowlist-IsOpen l q s le h =
      either_branch (IsOpen field l)
        (is_allow q.effect && (is_some (reads q) && exceeds q.priority s.allowlist_priority))
        (omit_unlisted-IsOpen field l (read_entries (reads q)) q.priority keys
          (record s { allowlist_priority = some q.priority }) le h)
        h

  allowlist-IsOmitted :
      (q : NormalizedAbacPolicy N) (s : Overrides)
      → IsOmitted field q.priority s
      → IsOmitted field q.priority (apply_allowlist keys q s)
  unfolding apply_allowlist
  allowlist-IsOmitted q s h =
      either_branch (IsOmitted field q.priority)
        (is_allow q.effect && (is_some (reads q) && exceeds q.priority s.allowlist_priority))
        (omit_unlisted-IsOmitted field (read_entries (reads q)) q.priority keys
          (record s { allowlist_priority = some q.priority }) h)
        h

  policy-IsOmitted :
      (q : NormalizedAbacPolicy N) (s : Overrides)
      → IsOmitted field q.priority s
      → IsOmitted field q.priority (apply_policy keys q s)
  unfolding apply_policy
  policy-IsOmitted q s h =
      entries-IsOmitted field q.effect q.priority (read_entries (reads q))
        (apply_allowlist keys q s) (allowlist-IsOmitted q s h)

  policy-IsOpen :
      (l : ℤ) (q : NormalizedAbacPolicy N) (s : Overrides)
      → l ≤ℤ q.priority
      → (lists q ≡ false) ⊎ (q.priority ≤ℤ l)
      → IsOpen field l s
      → IsOpen field l (apply_policy keys q s)
  unfolding apply_policy
  policy-IsOpen l q s le (inl unlisted) h =
      entries-IsOpen_unlisted field l q.effect q.priority (read_entries (reads q))
        (apply_allowlist keys q s) unlisted (allowlist-IsOpen l q s le h)
  policy-IsOpen l q s le (inr ge) h =
      let e : q.priority ≡ l = eq_of_parts q.priority l (omega arith) in
      subst
        (λ k.
          IsOpen field l
            (apply_entries q.effect k (read_entries (reads q)) (apply_allowlist keys q s)))
        (sym e)
        (entries-IsOpen_same field l q.effect (read_entries (reads q)) (apply_allowlist keys q s)
          (allowlist-IsOpen l q s le h))

  policy-deny :
      (q : NormalizedAbacPolicy N) (s : Overrides)
      → q.effect ≡ deny
      → lists q ≡ true
      → IsOpen field q.priority s
      → IsOmitted field q.priority (apply_policy keys q s)
  unfolding apply_policy apply_allowlist
  policy-deny q s d listed h =
      rw d (deny_entries field q.priority (read_entries (reads q)) s listed h)

  -- Once omitted, the field stays so under policies that are no higher.
  rest-IsOmitted :
      (qs : List (NormalizedAbacPolicy N)) (k : ℤ) (s : Overrides)
      → All (λ q. q.priority ≤ℤ k) qs
      → IsByPriority qs
      → IsOmitted field k s
      → mode_at field (apply_policies keys qs s) ≡ some FieldReadMode.omit
  unfolding apply_policies
  rest-IsOmitted [] k s le d h = h.0
  rest-IsOmitted (q ∷ qs) k s le d h =
      rest-IsOmitted qs q.priority (apply_policy keys q s) d.0 d.1
        (policy-IsOmitted q s (IsOmitted-weaken field q.priority k s le.0 h))

  module _ (p : NormalizedAbacPolicy N) (denies : p.effect ≡ deny) (listed : lists p ≡ true) where
    walk-omits :
        (ps : List (NormalizedAbacPolicy N)) (s : Overrides)
        → IsByPriority ps
        → Memᴰ p ps
        → All (λ q. (lists q ≡ false) ⊎ (q.priority ≤ℤ p.priority)) ps
        → IsOpen field p.priority s
        → mode_at field (apply_policies keys ps s) ≡ some FieldReadMode.omit
    unfolding apply_policies
    walk-omits [] s d m top h = elim m [ ]
    walk-omits (q ∷ qs) s d (Memᴰ.head e) top h =
        let first : IsOmitted field q.priority (apply_policy keys q s) =
          subst (λ x. IsOmitted field x.priority (apply_policy keys x s)) e
            (policy-deny p s denies listed h) in
        rest-IsOmitted qs q.priority (apply_policy keys q s) d.0 d.1 first
    walk-omits (q ∷ qs) s d (Memᴰ.tail m) top h =
        walk-omits qs (apply_policy keys q s) d.1 m top.1
          (policy-IsOpen p.priority q s (mem_of_All (λ x. x.priority ≤ℤ q.priority) m d.0) top.0 h)

-- A field that a matching deny policy lists is omitted, if no matching policy of higher priority
-- lists the field.
pub overrides_of-omits :
    {N : Type 0} ⦃num : Numbers N⦄ (module_key : String) (r : Props N)
    (policies : List (NormalizedAbacPolicy N)) (field : String) (p : NormalizedAbacPolicy N)
    → Memᴰ p (plain_matches module_key r policies)
    → p.effect ≡ deny
    → has_own field (read_entries (reads p)) ≡ true
    → All
        (λ q. (has_own field (read_entries (reads q)) ≡ false) ⊎ (q.priority ≤ℤ p.priority))
        (plain_matches module_key r policies)
    → lookup field (overrides_of r (plain_matches module_key r policies)) ≡ some FieldReadMode.omit
unfolding overrides_of plain_matches
overrides_of-omits module_key r policies field p m denies listed top =
    walk-omits field (object_keys r) p denies listed (plain_matches module_key r policies)
      no_overrides
      (sort-IsByPriority
        (filter (λ q. is_read_policy module_key q && policy_matches_record r q) policies))
      m top (inl (inl refl))
