-- ===== src/Base/Texts.antt =====
-- Text: equality, the code units by which the program orders it, and keyed entries.
use Prim.Native.Nat.{ℕ, ◌+◌, ◌-◌, ◌/◌, ◌%◌}
use Prim.Native.Char.{code}
use Prim.Native.String.{String}
use mathlib.Core.Bool.{Bool, true, false, ◌&&◌, ◌||◌}
use mathlib.Core.Path.{◌≡◌, refl}
use mathlib.Core.List.{List, [], ◌∷◌, ◌++◌}
use native.Mathlib.Omega.{arith}
use text.Mathlib.TextEquality.{eq_iff}
use kittle.Base.Lists.{filter}
use text.Mathlib.Text.{◌==◌ as str_eq}
use kittle.Base.Tests.{ltb, ◌==◌, if◌then◌else◌}

infix 50 ◌===◌
abbrev pub ◌===◌ : String → String → Bool
s === t = str_eq s t

abbrev pub codes : String → List ℕ
codes String.[] = []
codes (String.◌∷◌ c s) = code c ∷ codes s

-- UTF-16: a code point above the basic plane is a surrogate pair.
abbrev pub units : List ℕ → List ℕ
units [] = []
units (c ∷ cs) =
    let rest = units cs in
    if ltb c 0x10000
    then c ∷ rest
    else (0xd800 + (c - 0x10000) / 0x400) ∷ (0xdc00 + (c - 0x10000) % 0x400) ∷ rest

abbrev pub lex_lt : List ℕ → List ℕ → Bool
lex_lt _ [] = false
lex_lt [] (_ ∷ _) = true
lex_lt (a ∷ as') (b ∷ bs) = ltb a b || (a == b && lex_lt as' bs)

-- `s < t` on two strings.
unfoldable pub str_lt : String → String → Bool
str_lt s t = lex_lt (units (codes s)) (units (codes t))

abbrev pub has_prefix : List ℕ → List ℕ → Bool
has_prefix [] _ = true
has_prefix (_ ∷ _) [] = false
has_prefix (p ∷ ps) (c ∷ cs) = p == c && has_prefix ps cs

abbrev pub has_infix : List ℕ → List ℕ → Bool
has_infix p [] = has_prefix p []
has_infix p (c ∷ cs) = has_prefix p (c ∷ cs) || has_infix p cs

abbrev pub has_suffix : List ℕ → List ℕ → Bool
has_suffix p [] = has_prefix p []
has_suffix p (c ∷ cs) = (has_prefix p (c ∷ cs) && has_prefix (c ∷ cs) p) || has_suffix p cs

abbrev pub str_mem : String → List String → Bool
str_mem s [] = false
str_mem s (t ∷ ts) = t === s || str_mem s ts

pub str_mem-append :
    (s : String) (xs ys : List String) → str_mem s (xs ++ ys) ≡ (str_mem s xs || str_mem s ys)
str_mem-append s [] ys = refl
str_mem-append s (x ∷ xs) ys = ground (arith, str_mem-append s xs ys)

pub str_mem-filter :
    (s : String) (p : String → Bool) (xs : List String)
    → str_mem s (filter p xs) ≡ (p s && str_mem s xs)
str_mem-filter s p [] = ground arith
str_mem-filter s p (x ∷ xs) = ground (arith, str_mem-filter s p xs, eq_iff x s)
