-- ===== src/Saml.antt =====
-- internal/saml/saml.go: the provider of identities by SAML 2.0. crewjam/saml, package net/url and the
-- throw-away certificate are the parameter `ServiceProvider`.
pub mod Flatten
pub mod Laws
pub mod New
use xdauth.Broker.{IdentityProvider}
use xdauth.Http.{Request, lookup, or_empty}
use xdauth.Json.{str, arr, Values, nil, cons, Value, Fields, end, field}
use xdauth.Prelude.{
  Bool, true, false, not, ◌||◌, List, [], ◌∷◌, ◌++◌, Option, none, some, is_empty, if◌then◌else◌,
}
use xdauth.Session.{Identity, Session}
use xdauth.Text.{Text, bytes, text_eq}

pub record Attribute : Type 0 where
  pub friendly_name : Text
  pub name : Text
  pub values : List Text

-- `crewjamsaml.Assertion`: a subject may have no NameID, and an assertion no subject.
pub record Assertion : Type 0 where
  pub id : Text
  pub subject : Option (Option Text)
  pub attribute_statements : List (List Attribute)

-- The service provider for the metadata of one identity provider.
pub record ServiceProvider : Type 0 where
  -- `GetSSOBindingLocation` for the redirect binding, empty where there is none
  pub sso_location : Text
  -- the ID of `MakeAuthenticationRequest` for a location, from a fresh text; `none` is an error
  pub make_request : Text → Text → Option Text
  -- the URL of `Redirect` for a request ID and a relay state; `none` is an error
  pub redirect_url : Text → Text → Option Text
  -- `ParseResponse` for the request IDs that it may answer: the assertion, once its signature,
  -- audience and times are checked
  pub parse_response : Request → List Text → Option Assertion

pub record Provider : Type 0 where
  pub sp : ServiceProvider
  pub identity_attribute : Text

abbrev pub effective_name : Attribute → Text
effective_name a = if is_empty a.friendly_name then a.name else a.friendly_name

-- A map from names to values, in which a name stands once.
abbrev pub Claims : Type 0
Claims = List (Text × List Text)

pub values_of : Text → Claims → Option (List Text)
values_of name [] = none
values_of name ((n, vs) ∷ m) =
    let rest = values_of name m in if text_eq n name then some vs else rest

-- `out[name] = append(out[name], v)`
pub append_value : Text → Text → Claims → Claims
append_value name v [] = (name, v ∷ []) ∷ []
append_value name v ((n, vs) ∷ m) =
    let rest = append_value name v m in
    if text_eq n name then (n, vs ++ v ∷ []) ∷ m else (n, vs) ∷ rest

pub add_values : Text → List Text → Claims → Claims
unfolding append_value
add_values name [] m = m
add_values name (v ∷ vs) m = add_values name vs (append_value name v m)

pub add_attributes : List Attribute → Claims → Claims
unfolding add_values
add_attributes [] m = m
add_attributes (a ∷ attrs) m = add_attributes attrs (add_values (effective_name a) a.values m)

pub add_statements : List (List Attribute) → Claims → Claims
unfolding add_attributes
add_statements [] m = m
add_statements (st ∷ sts) m = add_statements sts (add_attributes st m)

pub attribute_claims : Assertion → Claims
unfolding add_statements
attribute_claims a = add_statements a.attribute_statements []

abbrev pub name_id : Option (Option Text) → Option Text
name_id none = none
name_id (some n) = n

abbrev pub first_filled : Option (List Text) → Option Text
first_filled (some (v ∷ _)) = if is_empty v then none else some v
first_filled _ = none

-- The identity value; `none` is an error.
pub identity_value : Assertion → Claims → Text → Option Text
identity_value a claims identity_attribute =
    if is_empty identity_attribute
    then name_id a.subject
    else first_filled (values_of identity_attribute claims)

abbrev pub array_of : List Text → Values
array_of [] = nil
array_of (v ∷ vs) = cons (str v) (array_of vs)

-- One value alone, or an array.
abbrev pub generic_value : List Text → Value
generic_value (v ∷ []) = str v
generic_value vs = arr (array_of vs)

pub generic_claims : Claims → Fields
generic_claims [] = end
generic_claims ((n, vs) ∷ m) = field n (generic_value vs) (generic_claims m)

abbrev pub subject_of : Assertion → Text
subject_of a = elim (name_id a.subject) [ none ↦ a.id | some n ↦ n ]

pub identity_from_assertion : Assertion → Text → Option Identity
unfolding attribute_claims identity_value generic_claims
identity_from_assertion a identity_attribute =
    let claims = attribute_claims a in
    elim (identity_value a claims identity_attribute) [
      | none ↦ none
      | some value ↦
          some (record { subject = subject_of a; value = value; claims = generic_claims claims })
    ]

abbrev pub first_of : List Text → Text
first_of [] = []
first_of (t ∷ _) = t

-- The session keeps the request's ID where only the redirect fails.
pub begin_login : Provider → List Text → Session → Session × Option Text
begin_login p fresh sess =
    if is_empty p.sp.sso_location
    then (sess, none)
    else elim (p.sp.make_request p.sp.sso_location (first_of fresh)) [
      | none ↦ (sess, none)
      | some request_id ↦ (
        record sess { saml_request_id = request_id; protocol = bytes "saml" },
        p.sp.redirect_url request_id sess.id,
      )
    ]

abbrev pub parses : Option (List (Text × Text)) → Bool
parses none = false
parses (some _) = true

pub complete_login : Provider → Request → Session → Option Identity
unfolding identity_from_assertion
complete_login p r sess =
    let relay_state = or_empty (lookup (bytes "RelayState") r.post_form) in
    if not (parses r.form)
    then none
    else if is_empty relay_state || not (text_eq relay_state sess.id)
    then none
    else elim (p.sp.parse_response r (sess.saml_request_id ∷ [])) [
      | none ↦ none
      | some assertion ↦ identity_from_assertion assertion p.identity_attribute
    ]

abbrev pub saml_provider : Provider → IdentityProvider
saml_provider p = record { begin_login = begin_login p; complete_login = complete_login p }
