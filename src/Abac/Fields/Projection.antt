-- ===== src/Abac/Fields/Projection.antt =====
-- packages/core/src/domain/fieldAccess.ts: `maskValue` and `projectResponseRecord`. Text is masked
-- by UTF-16 units, which the language's indices count. `String(value)` of a value that is no
-- string is a parameter.
pub mod Visible
use kittle.Base.{
  ℕ, suc, ◌-◌, ltb, leb, ◌==◌, String, ◌===◌, Bool, true, false, ◌&&◌, Option, none, some, List, [],
  ◌∷◌, ◌++◌, lookup, codes, units, length, take, drop, all, if◌then◌else◌,
}
use kittle.Js.{Value, string, undefined, null, Props, end, prop, get_prop}
use kittle.Abac.{FieldReadMode}
use kittle.Abac.Fields.{ReadMap}

pub data FieldFormat : Type 0 where
  text email phone date identifier json : FieldFormat

-- A value as it is, or the units of a masked text.
pub data Shown (N : Type 0) : Type 0 where
  plain : Value N → Shown N
  masked : List ℕ → Shown N

pub redacted : List ℕ
redacted = units (codes "[REDACTED]")

stars : List ℕ
stars = units (codes "***")

-- `text.indexOf("@")`, absent for -1.
index_of : ℕ → List ℕ → Option ℕ
index_of c [] = none
index_of c (u ∷ us) =
    let rest = index_of c us in
    if u == c then some 0 else elim rest [ none ↦ none | some i ↦ some (suc i) ]

-- `text[0]` followed by the stars and the part from the separator.
mask_email_at : List ℕ → Option ℕ → List ℕ
unfolding redacted stars
mask_email_at us none = redacted
mask_email_at us (some separator) =
    if leb separator 1 then redacted else take 1 us ++ (stars ++ drop separator us)

abbrev is_digit : ℕ → Bool
is_digit u = leb b'0' u && leb u b'9'

mask_date : List ℕ → List ℕ
unfolding redacted
mask_date (a ∷ b ∷ c ∷ d ∷ more) =
    if is_digit a && (is_digit b && (is_digit c && is_digit d))
    then a ∷ b ∷ c ∷ d ∷ []
    else redacted
mask_date _ = redacted

mask_tail : List ℕ → List ℕ
unfolding redacted stars
mask_tail us = if leb (length us) 4 then redacted else stars ++ drop (length us - 4) us

unfoldable pub mask_text : Option FieldFormat → List ℕ → List ℕ
unfolding redacted index_of mask_email_at mask_date mask_tail
mask_text (some FieldFormat.email) us = mask_email_at us (index_of b'@' us)
mask_text (some FieldFormat.phone) us = mask_tail us
mask_text (some FieldFormat.identifier) us = mask_tail us
mask_text (some FieldFormat.date) us = mask_date us
mask_text _ us = redacted

-- `field in record`
abbrev pub has_prop : {N : Type 0} → String → Props N → Bool
has_prop k end = false
has_prop k (prop j v ps) = if j === k then true else has_prop k ps

-- `overrides?.[field] ?? "allow"`
abbrev pub mode_of : Option FieldReadMode → FieldReadMode
mode_of none = FieldReadMode.allow
mode_of (some mode) = mode

abbrev pub Fields : Type 0
Fields = List (String × Option FieldFormat)

module _ {N : Type 0} (string_of : Value N → String) where
  unfoldable pub mask_value : Value N → Option FieldFormat → Shown N
  unfolding mask_text
  mask_value undefined format = plain undefined
  mask_value null format = plain null
  mask_value (string s) format = masked (mask_text format (units (codes s)))
  mask_value v format = masked (mask_text format (units (codes (string_of v))))

  add_shown :
      String
      → FieldReadMode
      → Value N
      → Option FieldFormat
      → List (String × Shown N)
      → List (String × Shown N)
  unfolding mask_value
  add_shown field FieldReadMode.omit v format rest = rest
  add_shown field FieldReadMode.mask v format rest = (field, mask_value v format) ∷ rest
  add_shown field FieldReadMode.allow v format rest = (field, plain v) ∷ rest

  -- `entity.fields` has each name once.
  unfoldable pub project_response_record : Fields → Props N → ReadMap → List (String × Shown N)
  unfolding add_shown
  project_response_record [] r overrides = []
  project_response_record ((field, format) ∷ fields) r overrides =
      let rest = project_response_record fields r overrides in
      if has_prop field r
      then add_shown field (mode_of (lookup field overrides)) (get_prop field r) format rest
      else rest
