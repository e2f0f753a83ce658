-- ===== src/Abac/Fields/Denied.antt =====
-- A field that the highest policies deny is omitted, whatever else matches.
pub mod Walk
use kittle.Base.{
  ℕ, ◌≤◌, ℤ, ltb_ℤ, ◌==ℤ◌, ◌≤ℤ◌, String, ◌===◌, leb, eq_iff, eq_refl, ◌≡◌, refl, sym, ◌∙◌, ap, Bool,
  true, false, negate, ◌&&◌, ◌||◌, Option, none, some, List, [], ◌∷◌, All, lookup, lookup-set_entry,
  set_entry, has_own, if◌then◌else◌, arith, Bool-cases, Option-cases, inl, inr, ◌⊎◌, Memᴰ, filter,
}
use kittle.Js.{Numbers, Props}
use kittle.Tier.{Effect, allow, deny, is_deny, is_allow}
use kittle.Abac.{NormalizedAbacPolicy, FieldReadMode, is_some}
use kittle.Abac.Write.{object_keys}
use kittle.Abac.Fields.{
  ReadMap, Overrides, reads, read_entries, set_field, omit_unlisted, apply_entry, apply_entries,
  apply_allowlist, restrictiveness, is_as_restrictive, apply_policy, apply_policies, overrides_of,
  plain_matches, sort_by_priority, exceeds,
}

module _ (field : String) where
  abbrev mode_at : Overrides → Option FieldReadMode
  mode_at s = lookup field s.modes

  abbrev priority_at : Overrides → Option ℤ
  priority_at s = lookup field s.priorities

  -- Omitted, at a recorded priority of `k` or more.
  abbrev IsOmitted : ℤ → Overrides → Type 0
  IsOmitted k s =
      (mode_at s ≡ some FieldReadMode.omit) × (j : ℤ) × (priority_at s ≡ some j) × (k ≤ℤ j)

  set_field-mode :
      (f : String) (mode : FieldReadMode) (k : ℤ) (s : Overrides)
      → mode_at (set_field f mode k s) ≡ (if f === field then some mode else mode_at s)
  unfolding set_field
  set_field-mode f mode k s = lookup-set_entry f field mode s.modes

  set_field-priority :
      (f : String) (mode : FieldReadMode) (k : ℤ) (s : Overrides)
      → priority_at (set_field f mode k s) ≡ (if f === field then some k else priority_at s)
  unfolding set_field
  set_field-priority f mode k s = lookup-set_entry f field k s.priorities

  -- Omitting by the allowlist keeps an omitted field omitted, at priority `k` or more.
  omit_unlisted-IsOmitted :
      (read : ReadMap) (k : ℤ) (keys : List String) (s : Overrides)
      → IsOmitted k s
      → IsOmitted k (omit_unlisted read k keys s)
  unfolding omit_unlisted
  omit_unlisted-IsOmitted read k [] s h = h
  omit_unlisted-IsOmitted read k (f ∷ fs) s h =
      omit_unlisted-IsOmitted read k fs _
        (step (Bool-cases (has_own f read)) (Bool-cases (f === field)))
    where
      step :
          ((has_own f read ≡ true) ⊎ (has_own f read ≡ false))
          → (((f === field) ≡ true) ⊎ ((f === field) ≡ false))
          → IsOmitted k (if has_own f read then s else set_field f FieldReadMode.omit k s)
      step (inl listed) _ = rw listed h
      step (inr free) (inl same) = rw free (
        set_field-mode f FieldReadMode.omit k s ∙ (rw same),
        k,
        set_field-priority f FieldReadMode.omit k s ∙ (rw same),
        omega arith,
      )
      step (inr free) (inr other) = rw free (
        set_field-mode f FieldReadMode.omit k s ∙ (rw other h.0),
        h.1,
        set_field-priority f FieldReadMode.omit k s ∙ (rw other h.2),
        h.3,
      )

  -- What an entry of another field, or one that is passed over, leaves as it was.
  apply_entry-other :
      (k : ℤ) (f : String) (incoming : FieldReadMode) (previous : Option ℤ) (s : Overrides)
      → (f === field) ≡ false
      → (mode_at (apply_entry k f incoming previous s) ≡ mode_at s)
        × (priority_at (apply_entry k f incoming previous s) ≡ priority_at s)
  unfolding apply_entry set_field
  apply_entry-other k f incoming none s other = (
    lookup-set_entry f field incoming s.modes ∙ (rw other),
    lookup-set_entry f field k s.priorities ∙ (rw other),
  )
  apply_entry-other k f incoming (some j) s other =
      ground
        (arith, lookup-set_entry f field incoming s.modes, lookup-set_entry f field k s.priorities)

  IsOmitted-eq :
      (k : ℤ) (s t : Overrides)
      → mode_at t ≡ mode_at s
      → priority_at t ≡ priority_at s
      → IsOmitted k s
      → IsOmitted k t
  IsOmitted-eq k s t m p h = (m ∙ h.0, h.1, p ∙ h.2, h.3)

  least_restrictive : (m : FieldReadMode) → leb (restrictiveness m) 2 ≡ true
  least_restrictive FieldReadMode.allow = refl
  least_restrictive FieldReadMode.mask = refl
  least_restrictive FieldReadMode.omit = refl

  entry_self-IsOmitted :
      (k : ℤ) (incoming : FieldReadMode) (s : Overrides)
      → IsOmitted k s
      → apply_entry k field incoming (priority_at s) s ≡ s
  unfolding apply_entry
  entry_self-IsOmitted k incoming s (m, j, p, le) =
      rw p (ground (arith, least_restrictive incoming))

  entry-IsOmitted :
      (k : ℤ) (f : String) (incoming : FieldReadMode) (s : Overrides)
      → IsOmitted k s
      → IsOmitted k (apply_entry k f incoming (lookup f s.priorities) s)
  entry-IsOmitted k f incoming s h = elim (Bool-cases (f === field)) [
    | inl same ↦ rw ((eq_iff f field).0 same, entry_self-IsOmitted k incoming s h) h
    | inr other ↦
        let (m, p) = apply_entry-other k f incoming (lookup f s.priorities) s other in
        IsOmitted-eq k s (apply_entry k f incoming (lookup f s.priorities) s) m p h
  ]

  entries-IsOmitted :
      (effect : Effect) (k : ℤ) (read : ReadMap) (s : Overrides)
      → IsOmitted k s
      → IsOmitted k (apply_entries effect k read s)
  unfolding apply_entries
  entries-IsOmitted effect k [] s h = h
  entries-IsOmitted effect k ((f, mode) ∷ read) s h =
      entries-IsOmitted effect k read _ (entry-IsOmitted k f _ s h)

  IsOmitted-weaken : (j k : ℤ) (s : Overrides) → j ≤ℤ k → IsOmitted k s → IsOmitted j s
  IsOmitted-weaken j k s le (m, i, p, le') = (m, i, p, omega arith)

  -- What the entries of a policy that denies the field do, if the field is free before, or was
  -- recorded at the same priority.
  abbrev IsOpen : ℤ → Overrides → Type 0
  IsOpen k s = ((priority_at s ≡ none) ⊎ (priority_at s ≡ some k)) ⊎ IsOmitted k s

  most_restrictive :
      (o : Option FieldReadMode)
      → is_as_restrictive o FieldReadMode.omit ≡ true
      → o ≡ some FieldReadMode.omit
  most_restrictive none h = cc
  most_restrictive (some FieldReadMode.allow) h = cc
  most_restrictive (some FieldReadMode.mask) h = cc
  most_restrictive (some FieldReadMode.omit) h = refl

  deny_same :
      (k : ℤ) (s : Overrides)
      → priority_at s ≡ some k
      → IsOmitted k (apply_entry k field FieldReadMode.omit (some k) s)
  unfolding apply_entry
  deny_same k s e = (
    ground (
      arith,
      most_restrictive (mode_at s),
      lookup-set_entry field field FieldReadMode.omit s.modes,
      eq_refl field,
    ),
    k,
    ground arith,
    omega arith,
  )

  deny_self :
      (k : ℤ) (s : Overrides)
      → (o : Option ℤ) → priority_at s ≡ o
      → (o ≡ none) ⊎ (o ≡ some k)
      → IsOmitted k (apply_entry k field FieldReadMode.omit o s)
  unfolding apply_entry set_field
  deny_self k s none e h = (
    lookup-set_entry field field FieldReadMode.omit s.modes ∙ (rw eq_refl),
    k,
    lookup-set_entry field field k s.priorities ∙ (rw eq_refl),
    omega arith,
  )
  deny_self k s (some j) e (inl h) = cc
  deny_self k s (some j) e (inr h) =
      let jk : j ≡ k = ground arith in rw jk (deny_same k s (e ∙ ap some jk))

  IsOpen-eq :
      (l : ℤ) (s t : Overrides)
      → mode_at t ≡ mode_at s
      → priority_at t ≡ priority_at s
      → IsOpen l s
      → IsOpen l t
  IsOpen-eq l s t m p (inl (inl e)) = inl (inl (p ∙ e))
  IsOpen-eq l s t m p (inl (inr e)) = inl (inr (p ∙ e))
  IsOpen-eq l s t m p (inr e) = inr (IsOmitted-eq l s t m p e)

  entry-IsOpen_other :
      (k : ℤ) (f : String) (incoming : FieldReadMode) (s : Overrides) (l : ℤ)
      → (f === field) ≡ false
      → IsOpen l s
      → IsOpen l (apply_entry k f incoming (lookup f s.priorities) s)
  entry-IsOpen_other k f incoming s l other h =
      let (m, p) = apply_entry-other k f incoming (lookup f s.priorities) s other in
      IsOpen-eq l s (apply_entry k f incoming (lookup f s.priorities) s) m p h

  deny_entry :
      (k : ℤ) (s : Overrides)
      → IsOpen k s
      → IsOmitted k (apply_entry k field FieldReadMode.omit (priority_at s) s)
  deny_entry k s (inl h) = deny_self k s (priority_at s) refl h
  deny_entry k s (inr h) = entry-IsOmitted k field FieldReadMode.omit s h

  -- The entries of a deny policy that lists the field omit it.
  deny_entries :
      (k : ℤ) (read : ReadMap) (s : Overrides)
      → has_own field read ≡ true
      → IsOpen k s
      → IsOmitted k (apply_entries deny k read s)
  unfolding apply_entries
  deny_entries k [] s listed h = cc
  deny_entries k ((f, mode) ∷ read) s listed h = elim (Bool-cases (f === field)) [
    | inl same ↦ rw ((eq_iff f field).0 same) (
        entries-IsOmitted deny k read (apply_entry k field FieldReadMode.omit (priority_at s) s)
          (deny_entry k s h))
    | inr other ↦
        deny_entries k read (apply_entry k f FieldReadMode.omit (lookup f s.priorities) s)
          (rw other at listed) (entry-IsOpen_other k f FieldReadMode.omit s k other h)
  ]

  -- An entry for the field at the same priority leaves the field open.
  entry_self-IsOpen :
      (k : ℤ) (incoming : FieldReadMode) (s : Overrides)
      → IsOpen k s
      → IsOpen k (apply_entry k field incoming (priority_at s) s)
  unfolding apply_entry set_field
  entry_self-IsOpen k incoming s (inl (inl e)) =
      rw e (inl (inr (lookup-set_entry field field k s.priorities ∙ (rw eq_refl))))
  entry_self-IsOpen k incoming s (inl (inr e)) = rw e (inl (inr (ground arith)))
  entry_self-IsOpen k incoming s (inr h) = inr (entry-IsOmitted k field incoming s h)
