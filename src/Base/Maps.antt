-- ===== src/Base/Maps.antt =====
-- A JavaScript object or map with string keys, as entries in the order of insertion.
use Prim.Native.String.{String}
use mathlib.Core.Path.{◌≡◌, refl}
use mathlib.Core.Bool.{Bool, false, ◌||◌}
use mathlib.Core.Option.{Option, none, some}
use mathlib.Core.List.{List, [], ◌∷◌}
use native.Mathlib.Omega.{arith}
use text.Mathlib.TextEquality.{eq_iff}
use kittle.Base.Tests.{if◌then◌else◌}
use kittle.Base.Texts.{◌===◌}

module _ {ℓ} {V : Type ℓ} where
  abbrev pub lookup : String → List (String × V) → Option V
  lookup k [] = none
  lookup k ((j, v) ∷ m) = if j === k then some v else lookup k m

  abbrev pub has_own : String → List (String × V) → Bool
  has_own k [] = false
  has_own k ((j, v) ∷ m) = (j === k) || has_own k m

  -- Replaces in place, or adds at the end.
  unfoldable pub set_entry : String → V → List (String × V) → List (String × V)
  set_entry k v [] = (k, v) ∷ []
  set_entry k v ((j, w) ∷ m) = if j === k then (k, v) ∷ m else (j, w) ∷ set_entry k v m

  pub lookup-set_entry :
      (k j : String) (v : V) (m : List (String × V))
      → lookup j (set_entry k v m) ≡ (if k === j then some v else lookup j m)
  unfolding set_entry
  lookup-set_entry k j v [] = refl
  lookup-set_entry k j v ((i, w) ∷ m) =
      ground (arith, eq_iff k j, eq_iff i k, eq_iff i j, lookup-set_entry k j v m)
