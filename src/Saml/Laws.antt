-- ===== src/Saml/Laws.antt =====
-- Whom the SAML provider vouches for, and the attributes that it passes on.
use xdauth.Http.{Request, lookup, or_empty}
use xdauth.Json.{get_field}
use xdauth.Prelude.{
  ◌≡◌, ◌≢◌, refl, subst, ◌↔◌, sym, ap, ◌∙◌, inl, inr, true, false, List, [], ◌∷◌, Option, none,
  some, arith, is_empty, Bool-cases, Option-cases,
}
use xdauth.Saml.{
  Assertion, Provider, values_of, attribute_claims, identity_value, first_filled, generic_claims,
  subject_of, identity_from_assertion, first_of, begin_login, parses, complete_login, saml_provider,
}
use xdauth.Session.{Identity, Session}
use xdauth.System.{IdpLaws}
use xdauth.Text.{Text, bytes}
use xdauth.Text.Laws.{text_eq_iff, text_eq_refl}
use xdauth.Saml.Flatten.{
  or_none, named_in, values-add_statements, shown_as, add_statements-Filled, field-generic_claims,
}

-- The flattened claims hold under each name all values that the assertion has under it, in any of its
-- statements and attributes, in order; an attribute's name is its friendly name where it has one.
pub attribute_claims-named :
    (a : Assertion) (name : Text)
    → or_none (values_of name (attribute_claims a)) ≡ named_in name a.attribute_statements
unfolding attribute_claims values_of
attribute_claims-named a name = values-add_statements name a.attribute_statements []

-- The claims hold what the assertion has under each name.
claims_named :
    (a : Assertion) (name : Text)
    → get_field name (generic_claims (attribute_claims a))
      ≡ shown_as (named_in name a.attribute_statements)
unfolding attribute_claims
claims_named a name =
    field-generic_claims name (attribute_claims a)
      (add_statements-Filled a.attribute_statements [] tt)
    ∙ ap shown_as (attribute_claims-named a name)

-- The NameID of an assertion, which is its subject; or its own ID where it has no NameID.
pub data SubjectIs (a : Assertion) (t : Text) : Type 0 where
  by_name_id : a.subject ≡ some (some t) → SubjectIs a t
  by_assertion_id : ((n : Text) → a.subject ≢ some (some n)) → t ≡ a.id → SubjectIs a t

-- The value of an identity: the NameID, or the first value of the attribute that is configured.
pub data ValueIs (a : Assertion) (attribute : Text) (v : Text) : Type 0 where
  is_name_id : is_empty attribute ≡ true → a.subject ≡ some (some v) → ValueIs a attribute v
  is_attribute :
      (rest : List Text)
      → is_empty attribute ≡ false
      → is_empty v ≡ false
      → named_in attribute a.attribute_statements ≡ v ∷ rest
      → ValueIs a attribute v

subject_of-SubjectIs : (a : Assertion) → SubjectIs a (subject_of a)
subject_of-SubjectIs a = elim (Option-cases a.subject) [
  | inl e ↦ by_assertion_id (λ n h. ground arith) (ground arith)
  | inr (o, e) ↦ elim (Option-cases o) [
    | inl d ↦ by_assertion_id (λ n h. ground arith) (ground arith)
    | inr (n, d) ↦ by_name_id (ground arith)
  ]
]

SubjectIs-subject_of : (a : Assertion) (t : Text) → SubjectIs a t → subject_of a ≡ t
SubjectIs-subject_of a t (by_name_id e) = rw e refl
SubjectIs-subject_of a t (by_assertion_id no_name e) = elim (Option-cases a.subject) [
  | inl d ↦ rw d (sym e)
  | inr (o, d) ↦ elim (Option-cases o) [
    | inl c ↦ rw (d, c) (sym e)
    | inr (n, c) ↦ absurd (no_name n (d ∙ ap some c))
  ]
]

first_filled-or_none :
    (o : Option (List Text)) (v : Text)
    → first_filled o ≡ some v
    → (is_empty v ≡ false) × (rest : List Text) × (or_none o ≡ v ∷ rest)
first_filled-or_none none v h = absurd (ground arith)
first_filled-or_none (some []) v h = absurd (ground arith)
first_filled-or_none (some (w ∷ ws)) v h = (ground arith, ws, ground arith)

or_none-first_filled :
    (o : Option (List Text)) (v : Text) (rest : List Text)
    → is_empty v ≡ false
    → or_none o ≡ v ∷ rest
    → first_filled o ≡ some v
or_none-first_filled none v rest f h = absurd (ground arith)
or_none-first_filled (some []) v rest f h = absurd (ground arith)
or_none-first_filled (some (w ∷ ws)) v rest f h = ground arith

identity_value-ValueIs :
    (a : Assertion) (attr v : Text)
    → identity_value a (attribute_claims a) attr ≡ some v
    → ValueIs a attr v
unfolding identity_value
identity_value-ValueIs a attr v h = elim (Bool-cases (is_empty attr)) [
  | inl e ↦ is_name_id e (ground (arith, Option-cases a.subject))
  | inr e ↦
      let (full, rest, p) = first_filled-or_none _ v (rw (e, identity_value) at h) in
      is_attribute rest e full (sym (attribute_claims-named a attr) ∙ p)
]

ValueIs-identity_value :
    (a : Assertion) (attr v : Text)
    → ValueIs a attr v
    → identity_value a (attribute_claims a) attr ≡ some v
unfolding identity_value
ValueIs-identity_value a attr v (is_name_id e h) = rw (e, h) refl
ValueIs-identity_value a attr v (is_attribute rest e full h) =
    rw (e, identity_value) (or_none-first_filled _ v rest full (attribute_claims-named a attr ∙ h))

-- What stands behind an identity: the browser brought the session's id as the relay state, the
-- response answers the session's request, and its assertion gives the subject, the value and the
-- claims.
pub record Vouched (p : Provider) (r : Request) (s : Session) (i : Identity) : Type 0 where
  pub assertion : Assertion
  pub well_formed : parses r.form ≡ true
  pub same_relay_state : or_empty (lookup (bytes "RelayState") r.post_form) ≡ s.id
  pub has_relay_state : is_empty s.id ≡ false
  pub answers : p.sp.parse_response r (s.saml_request_id ∷ []) ≡ some assertion
  pub subject : SubjectIs assertion i.subject
  pub value : ValueIs assertion p.identity_attribute i.value
  pub same_claims : i.claims ≡ generic_claims (attribute_claims assertion)
  pub claims_hold :
      (name : Text)
      → get_field name i.claims ≡ shown_as (named_in name assertion.attribute_statements)

identity_inv :
    (a : Assertion) (attr : Text) (i : Identity)
    → identity_from_assertion a attr ≡ some i
    → (i.subject ≡ subject_of a)
      × (i.claims ≡ generic_claims (attribute_claims a))
      × (identity_value a (attribute_claims a) attr ≡ some i.value)
unfolding identity_from_assertion
identity_inv a attr i h = elim (Option-cases (identity_value a (attribute_claims a) attr)) [
  | inl e ↦ absurd (ground arith)
  | inr (v, e) ↦ ground arith
]

complete_login_inv :
    (p : Provider) (r : Request) (s : Session) (i : Identity)
    → complete_login p r s ≡ some i
    → (parses r.form ≡ true)
      × (or_empty (lookup (bytes "RelayState") r.post_form) ≡ s.id)
      × (is_empty s.id ≡ false)
      × (a : Assertion) × (p.sp.parse_response r (s.saml_request_id ∷ []) ≡ some a)
      × (identity_from_assertion a p.identity_attribute ≡ some i)
unfolding complete_login
complete_login_inv p r s i h =
    elim (Option-cases (p.sp.parse_response r (s.saml_request_id ∷ []))) [
      | inl e ↦ absurd (ground arith)
      | inr (a, e) ↦
          ground (arith, text_eq_iff (or_empty (lookup (bytes "RelayState") r.post_form)) s.id)
    ]

saml_forward :
    (p : Provider) (r : Request) (s : Session) (i : Identity)
    → complete_login p r s ≡ some i
    → Vouched p r s i
saml_forward p r s i h =
    let (form, same, filled, a, answers, made) = complete_login_inv p r s i h in
    let (subject, claims, value) = identity_inv a p.identity_attribute i made in
    record {
      assertion = a;
      well_formed = form;
      same_relay_state = same;
      has_relay_state = filled;
      answers = answers;
      subject = subst (SubjectIs a) (sym subject) (subject_of-SubjectIs a);
      value = identity_value-ValueIs a p.identity_attribute i.value value;
      same_claims = claims;
      claims_hold = λ name. ap (get_field name) claims ∙ claims_named a name;
    }

saml_backward :
    (p : Provider) (r : Request) (s : Session) (i : Identity)
    → Vouched p r s i
    → complete_login p r s ≡ some i
unfolding complete_login identity_from_assertion
saml_backward p r s i v = ground (
  arith,
  v.well_formed,
  v.same_relay_state,
  v.has_relay_state,
  v.answers,
  SubjectIs-subject_of v.assertion i.subject v.subject,
  v.same_claims,
  ValueIs-identity_value v.assertion p.identity_attribute i.value v.value,
  text_eq_refl s.id,
)

-- The provider vouches for an identity exactly where: the browser posted the session's id, which is
-- not empty, as the relay state; the response checks as an answer to the session's own request; the
-- value is the assertion's NameID or, where an attribute is configured, the first value under its
-- name, which is not empty; the subject is the NameID, or the assertion's ID where it has none; and
-- the claims are the attributes of the assertion, and hold under each name all its values in order,
-- one alone or several as an array.
pub saml_complete_login_iff :
    (p : Provider) (r : Request) (s : Session) (i : Identity)
    → (complete_login p r s ≡ some i) ↔ Vouched p r s i
saml_complete_login_iff p r s i = (saml_forward p r s i, saml_backward p r s i)

-- `BeginLogin` writes the correlation values of a session only, as the broker relies on.
pub saml_provider-IdpLaws : (p : Provider) → IdpLaws (saml_provider p)
unfolding begin_login
saml_provider-IdpLaws p = record {
  begins = λ fresh s. elim (Bool-cases (is_empty p.sp.sso_location)) [
    | inl e ↦
        (s.protocol, s.idp_state, s.idp_nonce, s.idp_pkce_verifier, s.saml_request_id, ground arith)
    | inr e ↦ elim (Option-cases (p.sp.make_request p.sp.sso_location (first_of fresh))) [
      | inl m ↦ (
        s.protocol,
        s.idp_state,
        s.idp_nonce,
        s.idp_pkce_verifier,
        s.saml_request_id,
        ground arith,
      )
      | inr (id, m) ↦
          (bytes "saml", s.idp_state, s.idp_nonce, s.idp_pkce_verifier, id, ground arith)
    ]
  ];
}
