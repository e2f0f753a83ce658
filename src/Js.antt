-- ===== src/Js.antt =====
-- The values that a record or a policy holds, as packages/core/src/domain/evaluatePredicate.ts
-- reads them: `unknown` is `Value`. Numbers, which are doubles, are a type `N` with the operations
-- of `Numbers`, so that fractions, infinities and NaN are all allowed.
use kittle.Base.{ℕ, ◌==◌, Bool, true, false, List, [], ◌∷◌, String, ◌===◌, if◌then◌else◌}

-- Number tests of the language, its conversion of a string to a number, and `Date.parse`.
pub record Numbers (N : Type 0) : Type 0 where
  pub lt : N → N → Bool
  pub eq : N → N → Bool
  pub of_string : String → N
  pub parse_date : String → N

-- `===` on arrays and objects compares their identity, a number here.
mutual
  pub data Value (N : Type 0) : Type 0 where
    undefined : Value N
    null : Value N
    boolean : Bool → Value N
    number : N → Value N
    string : String → Value N
    date : N → Value N
    array : ℕ → Values N → Value N
    object : ℕ → Props N → Value N

  pub data Values (N : Type 0) : Type 0 where
    nil : Values N
    cons : Value N → Values N → Values N

  pub data Props (N : Type 0) : Type 0 where
    end : Props N
    prop : String → Value N → Props N → Props N

module _ {N : Type 0} where
  abbrev pub elements : Values N → List (Value N)
  elements nil = []
  elements (cons v vs) = v ∷ elements vs

  -- Own properties only.
  abbrev pub get_prop : String → Props N → Value N
  get_prop k end = undefined
  get_prop k (prop j v ps) = if j === k then v else get_prop k ps

  abbrev pub is_nullish : Value N → Bool
  is_nullish undefined = true
  is_nullish null = true
  is_nullish _ = false

  abbrev pub is_null : Value N → Bool
  is_null null = true
  is_null _ = false

  abbrev pub is_undefined : Value N → Bool
  is_undefined undefined = true
  is_undefined _ = false

  abbrev pub is_array : Value N → Bool
  is_array (array _ _) = true
  is_array _ = false

  abbrev pub is_string : Value N → Bool
  is_string (string _) = true
  is_string _ = false

-- `left === right`
unfoldable pub strict_equal : {N : Type 0} ⦃num : Numbers N⦄ → Value N → Value N → Bool
strict_equal undefined undefined = true
strict_equal null null = true
strict_equal (boolean a) (boolean b) = if a then b else (if b then false else true)
strict_equal ⦃num⦄ (number a) (number b) = num.eq a b
strict_equal (string s) (string t) = s === t
strict_equal (array i _) (array j _) = i == j
strict_equal (object i _) (object j _) = i == j
strict_equal _ _ = false
