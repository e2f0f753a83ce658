-- ===== src/Base/Lists.antt =====
-- Boolean folds over lists, measured by native numbers, and predicates on members.
use Prim.Native.Nat.{zero, ℕ, suc}
use mathlib.Core.Path.{◌≡◌, refl, ap}
use mathlib.Core.Logic.{◌↔◌, inl, inr}
use mathlib.Core.Bool.{Bool, true, false, ◌&&◌, ◌||◌}
use mathlib.Core.Option.{Option, none, some}
use mathlib.Core.List.{List, [], ◌∷◌, ◌++◌, Memᴰ}
use native.Mathlib.Omega.{arith}
use kittle.Base.Tests.{if◌then◌else◌, Bool-cases}

module _ {ℓ} {A : Type ℓ} where
  abbrev pub length : List A → ℕ
  length [] = 0
  length (x ∷ xs) = suc (length xs)

  abbrev pub all : (A → Bool) → List A → Bool
  all p [] = true
  all p (x ∷ xs) = p x && all p xs

  abbrev pub any : (A → Bool) → List A → Bool
  any p [] = false
  any p (x ∷ xs) = p x || any p xs

  abbrev pub filter : (A → Bool) → List A → List A
  filter p [] = []
  filter p (x ∷ xs) = let rest = filter p xs in if p x then x ∷ rest else rest

  abbrev pub is_empty : List A → Bool
  is_empty [] = true
  is_empty (_ ∷ _) = false

  abbrev pub take : ℕ → List A → List A
  take zero xs = []
  take (suc n) [] = []
  take (suc n) (x ∷ xs) = x ∷ take n xs

  abbrev pub drop : ℕ → List A → List A
  drop zero xs = xs
  drop (suc n) [] = []
  drop (suc n) (x ∷ xs) = drop n xs

  abbrev pub head? : List A → Option A
  head? [] = none
  head? (x ∷ _) = some x

module _ {ℓ κ} {A : Type ℓ} (P : A → Type κ) where
  abbrev pub All : List A → Type κ
  All [] = Unit
  All (x ∷ xs) = P x × All xs

module _ {ℓ} {A : Type ℓ} where
  pub is_empty-filter :
      (p : A → Bool) (xs : List A) → (is_empty (filter p xs) ≡ true) ↔ (any p xs ≡ false)
  is_empty-filter p [] = ground arith
  is_empty-filter p (x ∷ xs) = ground (arith, is_empty-filter p xs)

  pub is_empty-append : (xs ys : List A) → is_empty (xs ++ ys) ≡ (is_empty xs && is_empty ys)
  is_empty-append [] ys = refl
  is_empty-append (x ∷ xs) ys = refl

  pub all-append : (p : A → Bool) (xs ys : List A) → all p (xs ++ ys) ≡ (all p xs && all p ys)
  all-append p [] ys = refl
  all-append p (x ∷ xs) ys = ground (arith, all-append p xs ys)

  pub any-filter : (p q : A → Bool) (xs : List A) → any p (filter q xs) ≡ any (λ x. q x && p x) xs
  any-filter p q [] = refl
  any-filter p q (x ∷ xs) = ground (arith, any-filter p q xs)

  pub filter-filter :
      (p q : A → Bool) (xs : List A) → filter p (filter q xs) ≡ filter (λ x. q x && p x) xs
  filter-filter p q [] = refl
  filter-filter p q (x ∷ xs) = ground (arith, filter-filter p q xs)

  pub any-append : (p : A → Bool) (xs ys : List A) → any p (xs ++ ys) ≡ (any p xs || any p ys)
  any-append p [] ys = refl
  any-append p (x ∷ xs) ys = ground (arith, any-append p xs ys)

  pub any_of_mem : (p : A → Bool) {x : A} {xs : List A} → Memᴰ x xs → p x ≡ true → any p xs ≡ true
  any_of_mem p (Memᴰ.head e) h = ground (arith, ap p e)
  any_of_mem p (Memᴰ.tail m) h = ground (arith, any_of_mem p m h)

  pub mem_of_any :
      (p : A → Bool) (xs : List A) → any p xs ≡ true → (x : A) × Memᴰ x xs × (p x ≡ true)
  mem_of_any p [] h = absurd (let f : ⊥ = ground arith in f)
  mem_of_any p (x ∷ xs) h = elim (Bool-cases (p x)) [
    | inl here ↦ (x, Memᴰ.head refl, here)
    | inr skip ↦ let (y, m, q) = mem_of_any p xs (ground arith) in (y, Memᴰ.tail m, q)
  ]

  pub All-of_mem {κ} : (P : A → Type κ) (xs : List A) → ((x : A) → Memᴰ x xs → P x) → All P xs
  All-of_mem P [] h = tt
  All-of_mem P (x ∷ xs) h = (h x (Memᴰ.head refl), All-of_mem P xs (λ y m. h y (Memᴰ.tail m)))

  pub mem_of_All {κ} : (P : A → Type κ) {x : A} {xs : List A} → Memᴰ x xs → All P xs → P x
  mem_of_All P {x} (Memᴰ.head e) (h, hs) = rw e h
  mem_of_All P (Memᴰ.tail m) (h, hs) = mem_of_All P m hs

  pub false_of_any :
      (p : A → Bool) {x : A} (xs : List A) → any p xs ≡ false → Memᴰ x xs → p x ≡ false
  false_of_any p {x} xs h m = elim (Bool-cases (p x)) [
    | inl yes' ↦ absurd (let t : any p xs ≡ true = any_of_mem p m yes' in let f : ⊥ = cc in f)
    | inr none' ↦ none'
  ]

  pub any-eq-false :
      (p : A → Bool) (xs : List A) → ((x : A) → Memᴰ x xs → p x ≡ false) → any p xs ≡ false
  any-eq-false p [] h = refl
  any-eq-false p (x ∷ xs) h =
      let here : p x ≡ false = h x (Memᴰ.head refl) in
      let rest : any p xs ≡ false = any-eq-false p xs (λ y m. h y (Memᴰ.tail m)) in ground arith

  pub any-congr :
      (p q : A → Bool) (xs : List A) → ((x : A) → Memᴰ x xs → p x ≡ q x) → any p xs ≡ any q xs
  any-congr p q [] h = refl
  any-congr p q (x ∷ xs) h =
      let here : p x ≡ q x = h x (Memᴰ.head refl) in
      let rest : any p xs ≡ any q xs = any-congr p q xs (λ y m. h y (Memᴰ.tail m)) in ground arith

  pub mem_of_filter : (p : A → Bool) {x : A} (xs : List A) → Memᴰ x (filter p xs) → Memᴰ x xs
  mem_of_filter p [] m = elim m [ ]
  mem_of_filter p {x} (y ∷ ys) m = keep (p y) (mem_of_filter p ys) m
    where
      keep :
          (b : Bool)
          → (Memᴰ x (filter p ys) → Memᴰ x ys)
          → Memᴰ x (if b then y ∷ filter p ys else filter p ys)
          → Memᴰ x (y ∷ ys)
      keep true ih (Memᴰ.head e) = Memᴰ.head e
      keep true ih (Memᴰ.tail m') = Memᴰ.tail (ih m')
      keep false ih m' = Memᴰ.tail (ih m')
