-- ===== src/Abac/Fields/Projection/Visible.antt =====
-- What a response shows, field by field.
use kittle.Base.{
  String, ◌===◌, eq_iff, ◌≡◌, refl, true, false, Option, none, some, List, [], ◌∷◌, ◌++◌, lookup,
  has_own, if◌then◌else◌, arith, ℕ, length, drop, ◌+◌, ◌-◌, leb, ◌≤◌, units, codes, ap, inl, inr,
  ◌⊎◌,
}
use kittle.Js.{Value, Props, get_prop}
use kittle.Abac.{FieldReadMode}
use kittle.Abac.Fields.{ReadMap}
use kittle.Abac.Fields.Projection.{
  FieldFormat, Shown, plain, mask_value, has_prop, mode_of, Fields, add_shown,
  project_response_record, mask_text, mask_tail, stars, redacted,
}

module _ {N : Type 0} (string_of : Value N → String) where
  -- What a field of the record shows under a mode.
  abbrev pub shown_as : FieldReadMode → Value N → Option FieldFormat → Option (Shown N)
  shown_as FieldReadMode.omit v format = none
  shown_as FieldReadMode.mask v format = some (mask_value string_of v format)
  shown_as FieldReadMode.allow v format = some (plain v)

  -- Nothing of a field that is not declared or not in the record.
  abbrev pub visible : Fields → Props N → ReadMap → String → Option (Shown N)
  visible fields r overrides field = elim (lookup field fields) [
    | none ↦ none
    | some format ↦
        if has_prop field r
        then shown_as (mode_of (lookup field overrides)) (get_prop field r) format
        else none
  ]

  abbrev pub HasDistinctNames : Fields → Type 0
  HasDistinctNames [] = Unit
  HasDistinctNames ((field, format) ∷ fields) =
      (has_own field fields ≡ false) × HasDistinctNames fields

  project-undeclared :
      (fields : Fields) (r : Props N) (overrides : ReadMap) (field : String)
      → has_own field fields ≡ false
      → lookup field (project_response_record string_of fields r overrides) ≡ none
  unfolding project_response_record add_shown
  project-undeclared [] r overrides field h = refl
  project-undeclared ((f, format) ∷ fields) r overrides field h =
      ground (arith, project-undeclared fields r overrides field)

  lookup-add_shown :
      (field f : String) (mode : FieldReadMode) (v : Value N) (format : Option FieldFormat)
      (rest : List (String × Shown N))
      → lookup field (add_shown string_of f mode v format rest) ≡ (
          if f === field
          then elim (shown_as mode v format) [ none ↦ lookup field rest | some s ↦ some s ]
          else lookup field rest)
  unfolding add_shown
  lookup-add_shown field f mode v format rest = ground arith

-- If the entity's field names are distinct, a response shows a field exactly when the entity
-- declares it, the record has it and its mode is not omit; a masked field is shown masked, any other
-- as it is.
pub lookup-project_response_record :
    {N : Type 0} (string_of : Value N → String) (fields : Fields) (r : Props N)
    (overrides : ReadMap) (field : String)
    → HasDistinctNames string_of fields
    → lookup field (project_response_record string_of fields r overrides)
      ≡ visible string_of fields r overrides field
unfolding project_response_record
lookup-project_response_record string_of [] r overrides field d = refl
lookup-project_response_record string_of ((f, format) ∷ fields) r overrides field (fresh, d) =
    ground (
      arith,
      eq_iff f field,
      lookup-add_shown string_of field f (mode_of (lookup f overrides)) (get_prop f r) format
          (project_response_record string_of fields r overrides),
      project-undeclared string_of fields r overrides f fresh,
      lookup-project_response_record string_of fields r overrides field d,
    )

drop-append {ℓ} : {A : Type ℓ} (xs ys : List A) → drop (length xs) (xs ++ ys) ≡ ys
drop-append [] ys = refl
drop-append (x ∷ xs) ys = drop-append xs ys

length-append {ℓ} : {A : Type ℓ} (xs ys : List A) → length (xs ++ ys) ≡ length xs + length ys
length-append [] ys = omega arith
length-append (x ∷ xs) ys = omega (arith, length-append xs ys)

mask_tail-append :
    (x : ℕ) (xs t : List ℕ) → length t ≡ 4 → mask_tail ((x ∷ xs) ++ t) ≡ units (codes "***") ++ t
unfolding mask_tail stars
mask_tail-append x xs t four =
    let len : length ((x ∷ xs) ++ t) ≡ length (x ∷ xs) + length t = length-append (x ∷ xs) t in
    let long : leb (length ((x ∷ xs) ++ t)) 4 ≡ false = ground arith in
    let start : length ((x ∷ xs) ++ t) - 4 ≡ length (x ∷ xs) = omega arith in
    rw (long, start) (ap (λ l. units (codes "***") ++ l) (drop-append (x ∷ xs) t))

mask_tail_short : (s : List ℕ) → length s ≤ 4 → mask_tail s ≡ units (codes "[REDACTED]")
unfolding mask_tail redacted
mask_tail_short s short = let h : leb (length s) 4 ≡ true = ground arith in rw h refl

abbrev pub HidesHead : FieldFormat → Type 0
HidesHead format = (format ≡ FieldFormat.phone) ⊎ (format ≡ FieldFormat.identifier)

-- A masked phone number or identifier of more than four units is three stars and its last four
-- units, so nothing that stands before them is shown; one of at most four units is redacted.
pub mask_text_tail :
    (format : FieldFormat) (x : ℕ) (xs t s : List ℕ)
    → HidesHead format
    → length t ≡ 4
    → length s ≤ 4
    → (mask_text (some format) ((x ∷ xs) ++ t) ≡ units (codes "***") ++ t)
      × (mask_text (some format) s ≡ units (codes "[REDACTED]"))
unfolding mask_text
mask_text_tail format x xs t s (inl e) four short =
    (rw e (mask_tail-append x xs t four), rw e (mask_tail_short s short))
mask_text_tail format x xs t s (inr e) four short =
    (rw e (mask_tail-append x xs t four), rw e (mask_tail_short s short))
