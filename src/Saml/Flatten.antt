-- ===== src/Saml/Flatten.antt =====
-- The attributes of an assertion, flattened by name, against a reference that reads them off, and what
-- JSON shows of them.
use xdauth.Json.{Value, Values, str, arr, nil, cons, get_field}
use xdauth.Prelude.{
  append_assoc, append-nil, ◌≡◌, refl, sym, ap, ◌∙◌, inl, inr, false, List, [], ◌∷◌, ◌++◌, Option,
  none, some, arith, is_empty, if◌then◌else◌, Bool-cases,
}
use xdauth.Saml.{
  Attribute, effective_name, Claims, values_of, append_value, add_values, add_attributes,
  add_statements, array_of, generic_value, generic_claims,
}
use xdauth.Text.{Text, text_eq}
use xdauth.Text.Laws.{text_eq_iff}

abbrev pub or_none : Option (List Text) → List Text
or_none none = []
or_none (some vs) = vs

-- The reference: the values under a name, in the order of the assertion.
abbrev pub named : Text → List Attribute → List Text
named name [] = []
named name (a ∷ attrs) =
    if text_eq (if is_empty a.friendly_name then a.name else a.friendly_name) name
    then a.values ++ named name attrs
    else named name attrs

abbrev pub named_in : Text → List (List Attribute) → List Text
named_in name [] = []
named_in name (st ∷ sts) = named name st ++ named_in name sts

values-append_value :
    (n name v : Text) (m : Claims)
    → or_none (values_of name (append_value n v m)) ≡ (
        if text_eq n name then or_none (values_of name m) ++ v ∷ [] else or_none (values_of name m))
unfolding values_of append_value
values-append_value n name v [] = ground arith
values-append_value n name v ((k, vs) ∷ m) =
    ground (
      arith,
      text_eq_iff n name,
      text_eq_iff k n,
      text_eq_iff k name,
      values-append_value n name v m,
    )

values-add_values :
    (n name : Text) (vs : List Text) (m : Claims)
    → or_none (values_of name (add_values n vs m))
      ≡ (if text_eq n name then or_none (values_of name m) ++ vs else or_none (values_of name m))
unfolding add_values
values-add_values n name [] m = ground (arith, append-nil (or_none (values_of name m)))
values-add_values n name (v ∷ vs) m = ground (
  arith,
  values-add_values n name vs (append_value n v m),
  values-append_value n name v m,
  append_assoc (or_none (values_of name m)) (v ∷ []) vs,
)

values-add_attributes :
    (name : Text) (attrs : List Attribute) (m : Claims)
    → or_none (values_of name (add_attributes attrs m))
      ≡ or_none (values_of name m) ++ named name attrs
unfolding add_attributes
values-add_attributes name [] m = sym (append-nil (or_none (values_of name m)))
values-add_attributes name (a ∷ attrs) m = ground (
  arith,
  values-add_attributes name attrs (add_values (effective_name a) a.values m),
  values-add_values (effective_name a) name a.values m,
  append_assoc (or_none (values_of name m)) a.values (named name attrs),
)

pub values-add_statements :
    (name : Text) (sts : List (List Attribute)) (m : Claims)
    → or_none (values_of name (add_statements sts m))
      ≡ or_none (values_of name m) ++ named_in name sts
unfolding add_statements
values-add_statements name [] m = sym (append-nil (or_none (values_of name m)))
values-add_statements name (st ∷ sts) m =
    values-add_statements name sts (add_attributes st m)
    ∙ ap (λ x. x ++ named_in name sts) (values-add_attributes name st m)
    ∙ append_assoc (or_none (values_of name m)) (named name st) (named_in name sts)

-- The reference for JSON: nothing, one value alone, or an array of them all.
abbrev texts : List Text → Values
texts [] = nil
texts (v ∷ vs) = cons (str v) (texts vs)

abbrev pub shown_as : List Text → Option Value
shown_as [] = none
shown_as (v ∷ []) = some (str v)
shown_as (v ∷ w ∷ vs) = some (arr (cons (str v) (cons (str w) (texts vs))))

texts-array_of : (vs : List Text) → array_of vs ≡ texts vs
texts-array_of [] = refl
texts-array_of (v ∷ vs) = ap (cons (str v)) (texts-array_of vs)

shown_as-generic_value :
    (vs : List Text) → is_empty vs ≡ false → some (generic_value vs) ≡ shown_as vs
shown_as-generic_value [] h = absurd (ground arith)
shown_as-generic_value (v ∷ []) h = refl
shown_as-generic_value (v ∷ w ∷ vs) h =
    ap (λ x. some (arr (cons (str v) (cons (str w) x)))) (texts-array_of vs)

-- No name stands for no values.
abbrev pub Filled : Claims → Type 0
Filled [] = Unit
Filled ((n, vs) ∷ m) = (is_empty vs ≡ false) × Filled m

append_nonempty : (vs : List Text) (v : Text) → is_empty (vs ++ v ∷ []) ≡ false
append_nonempty [] v = refl
append_nonempty (w ∷ vs) v = refl

append_value-Filled : (n v : Text) (m : Claims) → Filled m → Filled (append_value n v m)
unfolding append_value
append_value-Filled n v [] f = (refl, tt)
append_value-Filled n v ((k, vs) ∷ m) (h, f) = elim (Bool-cases (text_eq k n)) [
  | inl e ↦ rw (e, append_value) (append_nonempty vs v, f)
  | inr e ↦ rw (e, append_value) (h, append_value-Filled n v m f)
]

add_values-Filled : (n : Text) (vs : List Text) (m : Claims) → Filled m → Filled (add_values n vs m)
unfolding add_values
add_values-Filled n [] m f = f
add_values-Filled n (v ∷ vs) m f =
    add_values-Filled n vs (append_value n v m) (append_value-Filled n v m f)

add_attributes-Filled :
    (attrs : List Attribute) (m : Claims) → Filled m → Filled (add_attributes attrs m)
unfolding add_attributes
add_attributes-Filled [] m f = f
add_attributes-Filled (a ∷ attrs) m f =
    add_attributes-Filled attrs (add_values (effective_name a) a.values m)
      (add_values-Filled (effective_name a) a.values m f)

pub add_statements-Filled :
    (sts : List (List Attribute)) (m : Claims) → Filled m → Filled (add_statements sts m)
unfolding add_statements
add_statements-Filled [] m f = f
add_statements-Filled (st ∷ sts) m f =
    add_statements-Filled sts (add_attributes st m) (add_attributes-Filled st m f)

pub field-generic_claims :
    (name : Text) (m : Claims)
    → Filled m
    → get_field name (generic_claims m) ≡ shown_as (or_none (values_of name m))
unfolding get_field generic_claims values_of
field-generic_claims name [] f = refl
field-generic_claims name ((n, vs) ∷ m) (h, f) = elim (Bool-cases (text_eq n name)) [
  | inl e ↦ rw (e, get_field, values_of) (shown_as-generic_value vs h)
  | inr e ↦ rw (e, get_field, values_of) (field-generic_claims name m f)
]
