-- ===== src/Tier/Priorities.antt =====
-- The list of priorities that the tiers are walked in: the right members, strictly descending.
use kittle.Base.{
  ℤ, ◌==ℤ◌, ◌<ℤ◌, ◌≡◌, refl, ◌∙◌, Bool, false, negate, ◌||◌, List, [], ◌∷◌, map, filter, any, All,
  arith,
}
use kittle.Tier.{distinct, insert_desc, sort_desc, Policies, sorted_priorities}

abbrev pub has_priority : ℤ → List ℤ → Bool
has_priority k ks = any (λ j. j ==ℤ k) ks

any-filter_ne :
    (k j : ℤ) (ks : List ℤ)
    → ((j ==ℤ k) || has_priority k (filter (λ i. negate (i ==ℤ j)) ks))
      ≡ ((j ==ℤ k) || has_priority k ks)
any-filter_ne k j [] = refl
any-filter_ne k j (i ∷ ks) = ground (arith, any-filter_ne k j ks)

has_priority-distinct : (k : ℤ) (ks : List ℤ) → has_priority k (distinct ks) ≡ has_priority k ks
unfolding distinct
has_priority-distinct k [] = refl
has_priority-distinct k (j ∷ ks) =
    any-filter_ne k j (distinct ks) ∙ (λ i. (j ==ℤ k) || has_priority-distinct k ks i)

has_priority-insert_desc :
    (k j : ℤ) (ks : List ℤ) → has_priority k (insert_desc j ks) ≡ ((j ==ℤ k) || has_priority k ks)
unfolding insert_desc
has_priority-insert_desc k j [] = refl
has_priority-insert_desc k j (i ∷ ks) = ground (arith, has_priority-insert_desc k j ks)

has_priority-sort_desc : (k : ℤ) (ks : List ℤ) → has_priority k (sort_desc ks) ≡ has_priority k ks
unfolding sort_desc
has_priority-sort_desc k [] = refl
has_priority-sort_desc k (j ∷ ks) =
    has_priority-insert_desc k j (sort_desc ks) ∙ (λ i. (j ==ℤ k) || has_priority-sort_desc k ks i)

-- Every member below `k`, and so on down.
abbrev pub IsDescending : List ℤ → Type 0
IsDescending [] = Unit
IsDescending (k ∷ ks) = All (λ j. j <ℤ k) ks × IsDescending ks

All-insert_desc :
    (m k : ℤ) (ks : List ℤ) → k <ℤ m → All (λ j. j <ℤ m) ks → All (λ j. j <ℤ m) (insert_desc k ks)
unfolding insert_desc
All-insert_desc m k [] h hs = (h, tt)
All-insert_desc m k (j ∷ ks) h hs = ground (arith, All-insert_desc m k ks h)

All-trans : (k j : ℤ) (ks : List ℤ) → j <ℤ k → All (λ i. i <ℤ j) ks → All (λ i. i <ℤ k) ks
All-trans k j [] h hs = tt
All-trans k j (i ∷ ks) h hs = (ground arith, All-trans k j ks h hs.1)

insert_desc-IsDescending :
    (k : ℤ) (ks : List ℤ)
    → has_priority k ks ≡ false
    → IsDescending ks
    → IsDescending (insert_desc k ks)
unfolding insert_desc
insert_desc-IsDescending k [] h d = (tt, tt)
insert_desc-IsDescending k (j ∷ ks) h d =
    ground (arith, All-trans k j ks, All-insert_desc j k ks, insert_desc-IsDescending k ks)

-- No member twice.
abbrev IsDistinct : List ℤ → Type 0
IsDistinct [] = Unit
IsDistinct (k ∷ ks) = (has_priority k ks ≡ false) × IsDistinct ks

has_priority-filter :
    (k : ℤ) (q : ℤ → Bool) (ks : List ℤ)
    → has_priority k ks ≡ false
    → has_priority k (filter q ks) ≡ false
has_priority-filter k q [] h = refl
has_priority-filter k q (j ∷ ks) h = ground (arith, has_priority-filter k q ks)

filter-IsDistinct : (q : ℤ → Bool) (ks : List ℤ) → IsDistinct ks → IsDistinct (filter q ks)
filter-IsDistinct q [] d = tt
filter-IsDistinct q (k ∷ ks) d = ground (arith, has_priority-filter k q ks, filter-IsDistinct q ks)

has_priority-filter_self :
    (k : ℤ) (ks : List ℤ) → has_priority k (filter (λ j. negate (j ==ℤ k)) ks) ≡ false
has_priority-filter_self k [] = refl
has_priority-filter_self k (j ∷ ks) = ground (arith, has_priority-filter_self k ks)

distinct-IsDistinct : (ks : List ℤ) → IsDistinct (distinct ks)
unfolding distinct
distinct-IsDistinct [] = tt
distinct-IsDistinct (k ∷ ks) = (
  has_priority-filter_self k (distinct ks),
  filter-IsDistinct _ (distinct ks) (distinct-IsDistinct ks),
)

sort_desc-IsDescending : (ks : List ℤ) → IsDistinct ks → IsDescending (sort_desc ks)
unfolding sort_desc
sort_desc-IsDescending [] d = tt
sort_desc-IsDescending (k ∷ ks) (fresh, d) =
    insert_desc-IsDescending k (sort_desc ks) (has_priority-sort_desc k ks ∙ fresh)
      (sort_desc-IsDescending ks d)

module _ {P : Type 0} (view : Policies P) where
  open view use {get_priority}

  pub sorted_priorities-IsDescending :
      (policies : List P) → IsDescending (sorted_priorities view policies)
  unfolding sorted_priorities
  sorted_priorities-IsDescending policies =
      sort_desc-IsDescending (distinct (map get_priority policies)) (distinct-IsDistinct _)

  any-map :
      (k : ℤ) (policies : List P)
      → has_priority k (map get_priority policies) ≡ any (λ p. get_priority p ==ℤ k) policies
  any-map k [] = refl
  any-map k (p ∷ ps) = λ i. (get_priority p ==ℤ k) || any-map k ps i

  pub has_priority-sorted_priorities :
      (k : ℤ) (policies : List P)
      → has_priority k (sorted_priorities view policies) ≡ any (λ p. get_priority p ==ℤ k) policies
  unfolding sorted_priorities
  has_priority-sorted_priorities k policies =
      has_priority-sort_desc k (distinct (map get_priority policies))
      ∙ has_priority-distinct k (map get_priority policies)
      ∙ any-map k policies
