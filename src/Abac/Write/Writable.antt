-- ===== src/Abac/Write/Writable.antt =====
-- Which fields the matched policies let a caller write, said without the sets and the loop.
use kittle.Base.{str_mem-append}
use kittle.Base.{
  String, str_mem, ℤ, ltb_ℤ, ◌==ℤ◌, ◌≡◌, refl, ◌∙◌, ap, Bool, true, false, negate, ◌&&◌, ◌||◌,
  Option, none, some, List, [], ◌∷◌, filter, any, all, any-filter, is_empty, is_empty-filter, is_ok,
  arith, Bool-cases, inl, inr, Memᴰ, any_of_mem, any-congr,
}
use kittle.Js.{Props}
use kittle.Tier.{is_allow, is_deny}
use kittle.Abac.{NormalizedAbacPolicy}
use kittle.Abac.Write.{
  writes, is_top, concat_map, top_priority, denies_field, fields_or_keys,
  assert_matched_policy_writable_fields,
}

is_empty-denied :
    (test kept : String → Bool) (fields : List String)
    → ((f : String) → test f ≡ negate (kept f))
    → is_empty (filter test fields) ≡ all kept fields
is_empty-denied test kept [] h = refl
is_empty-denied test kept (f ∷ fs) h = ground (arith, h f, is_empty-denied test kept fs h)

raised :
    (t k x : ℤ) (a b : Bool)
    → ltb_ℤ t x ≡ true
    → ((a || (x ==ℤ k)) && negate (b || ltb_ℤ k x))
      ≡ ((((x ==ℤ k) || a) || (t ==ℤ k)) && negate ((ltb_ℤ k x || b) || ltb_ℤ k t))
raised t k x a b h = ground arith

kept_top :
    (t k x : ℤ) (a b : Bool)
    → ltb_ℤ t x ≡ false
    → ((a || (t ==ℤ k)) && negate (b || ltb_ℤ k t))
      ≡ ((((x ==ℤ k) || a) || (t ==ℤ k)) && negate ((ltb_ℤ k x || b) || ltb_ℤ k t))
kept_top t k x a b h = ground arith

module _ {N : Type 0} where
  -- A policy with no write list covers every field.
  abbrev pub covers : String → NormalizedAbacPolicy N → Bool
  covers field p = is_empty (writes p) || str_mem field (writes p)

  -- No policy of the list has a higher priority.
  abbrev pub leads : List (NormalizedAbacPolicy N) → NormalizedAbacPolicy N → Bool
  leads relevant p = negate (any (λ q. ltb_ℤ p.priority q.priority) relevant)

  -- Of the policies of the highest priority, no deny covers the field, and if one allows then one
  -- that allows covers it.
  abbrev pub is_writable : List (NormalizedAbacPolicy N) → String → Bool
  is_writable relevant field =
      negate (any (λ p. leads relevant p && (is_deny p.effect && covers field p)) relevant)
      && (negate (any (λ p. leads relevant p && is_allow p.effect) relevant)
          || any (λ p. leads relevant p && (is_allow p.effect && covers field p)) relevant)

  any-covers :
      (field : String) (ps : List (NormalizedAbacPolicy N))
      → any (covers field) ps
        ≡ (any (λ p. is_empty (writes p)) ps || str_mem field (concat_map writes ps))
  any-covers field [] = refl
  any-covers field (p ∷ ps) =
      ground (arith, any-covers field ps, str_mem-append field (writes p) (concat_map writes ps))

  denies_field-covers :
      (field : String) (denies allows : List (NormalizedAbacPolicy N))
      → denies_field denies allows field ≡ (
          any (covers field) denies
          || (negate (is_empty allows) && negate (any (covers field) allows)))
  unfolding denies_field
  denies_field-covers field denies allows =
      ground (arith, any-covers field denies, any-covers field allows)

  abbrev above : List (NormalizedAbacPolicy N) → ℤ → Bool
  above ps k = any (λ q. ltb_ℤ k q.priority) ps

  top_priority-some :
      (t k : ℤ) (ps : List (NormalizedAbacPolicy N))
      → is_top (top_priority (some t) ps) k
        ≡ ((any (λ q. q.priority ==ℤ k) ps || (t ==ℤ k)) && negate (above ps k || ltb_ℤ k t))
  unfolding top_priority
  top_priority-some t k [] = ground arith
  top_priority-some t k (p ∷ ps) = elim (Bool-cases (ltb_ℤ t p.priority)) [
    | inl up ↦ rw up (
        top_priority-some p.priority k ps
        ∙ raised t k p.priority (any (λ q. q.priority ==ℤ k) ps) (above ps k) up)
    | inr down ↦ rw down (
        top_priority-some t k ps
        ∙ kept_top t k p.priority (any (λ q. q.priority ==ℤ k) ps) (above ps k) down)
  ]

  top_priority-leads :
      (relevant : List (NormalizedAbacPolicy N)) {p : NormalizedAbacPolicy N}
      → Memᴰ p relevant
      → is_top (top_priority none relevant) p.priority ≡ leads relevant p
  unfolding top_priority
  top_priority-leads [] m = elim m [ ]
  top_priority-leads (q ∷ qs) {p} m =
      let e : any (λ q'. q'.priority ==ℤ p.priority) (q ∷ qs) ≡ true =
        any_of_mem (λ x. x.priority ==ℤ p.priority) m (ground arith) in
      ground (arith, top_priority-some q.priority p.priority qs)

  top_tier : List (NormalizedAbacPolicy N) → List (NormalizedAbacPolicy N)
  top_tier relevant = filter (λ p. is_top (top_priority none relevant) p.priority) relevant

  -- A test on the top tier's policies of one effect.
  any-top_tier :
      (relevant : List (NormalizedAbacPolicy N)) (kind test : NormalizedAbacPolicy N → Bool)
      → any test (filter kind (top_tier relevant))
        ≡ any (λ p. leads relevant p && (kind p && test p)) relevant
  unfolding top_tier
  any-top_tier relevant kind test =
      any-filter test kind (top_tier relevant)
      ∙ any-filter (λ p. kind p && test p) (λ p. is_top (top_priority none relevant) p.priority)
          relevant
      ∙ any-congr _ _ relevant
          (λ p m. ap (λ b. b && (kind p && test p)) (top_priority-leads relevant m))

  is_empty-top_tier :
      (relevant : List (NormalizedAbacPolicy N)) (kind : NormalizedAbacPolicy N → Bool)
      → negate (is_empty (filter kind (top_tier relevant)))
        ≡ any (λ p. leads relevant p && kind p) relevant
  unfolding top_tier
  is_empty-top_tier relevant kind =
      negate-is_empty kind (top_tier relevant)
      ∙ any-filter kind (λ p. is_top (top_priority none relevant) p.priority) relevant
      ∙ any-congr _ _ relevant (λ p m. ap (λ b. b && kind p) (top_priority-leads relevant m))
    where
      negate-is_empty :
          (test : NormalizedAbacPolicy N → Bool) (ps : List (NormalizedAbacPolicy N))
          → negate (is_empty (filter test ps)) ≡ any test ps
      negate-is_empty test ps = ground (arith, is_empty-filter test ps)

  denies_field-is_writable :
      (relevant : List (NormalizedAbacPolicy N)) (field : String)
      → denies_field
          (filter (λ p. is_deny p.effect) (top_tier relevant))
          (filter (λ p. is_allow p.effect) (top_tier relevant))
          field
        ≡ negate (is_writable relevant field)
  denies_field-is_writable relevant field =
      let denies = filter (λ p. is_deny p.effect) (top_tier relevant) in
      let allows = filter (λ p. is_allow p.effect) (top_tier relevant) in
      denies_field-covers field denies allows
      ∙ (λ i.
          any-top_tier relevant (λ p. is_deny p.effect) (covers field) i
          || (is_empty-top_tier relevant (λ p. is_allow p.effect) i
              && negate (any-top_tier relevant (λ p. is_allow p.effect) (covers field) i)))
      ∙ de_morgan _ _ _
    where
      de_morgan : (a b c : Bool) → (a || (b && negate c)) ≡ negate (negate a && (negate b || c))
      de_morgan a b c = ground arith

-- The field check passes exactly when some policy matched and every field to be written is
-- writable: among the matched policies of the highest priority no deny covers it, and if one
-- allows then one that allows covers it.
pub assert_matched_policy_writable_fields-is_ok :
    {N : Type 0} (relevant : List (NormalizedAbacPolicy N)) (r : Props N)
    (changed_fields : Option (List String))
    → is_ok (assert_matched_policy_writable_fields relevant r changed_fields)
      ≡ (negate (is_empty relevant) && all (is_writable relevant) (fields_or_keys changed_fields r))
unfolding assert_matched_policy_writable_fields top_tier
assert_matched_policy_writable_fields-is_ok relevant r changed_fields = ground (
  arith,
  is_empty-denied _ (is_writable relevant) (fields_or_keys changed_fields r)
      (denies_field-is_writable relevant),
)
