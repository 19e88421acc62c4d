-- ===== src/Store/Redis/Json.antt =====
-- The sessions that encoding/json gives back as they were: it replaces what is no valid UTF-8, writes
-- the names of a map in ascending order, and reads a number as a `float64`.
use xdauth.Json.{Value, null, bool, num, str, arr, obj, Values, nil, cons, Fields, end, field}
use xdauth.Prelude.{
  ℕ, Bool, true, false, ◌&&◌, ◌||◌, List, [], ◌∷◌, Option, none, some, ltb, leb, ◌==◌, all, ◌≡◌,
  if◌then◌else◌,
}
use xdauth.Session.{Identity, Session}
use xdauth.Text.{Text}

abbrev between : ℕ → ℕ → ℕ → Bool
between low high c = leb low c && leb c high

-- The ranges of the bytes that follow this first byte of a character, by RFC 3629.
abbrev followers : ℕ → Option (List (ℕ × ℕ))
followers c =
    if ltb c 128
    then some []
    else if between 194 223 c
    then some ((128, 191) ∷ [])
    else if c == 224
    then some ((160, 191) ∷ (128, 191) ∷ [])
    else if c == 237
    then some ((128, 159) ∷ (128, 191) ∷ [])
    else if between 225 239 c
    then some ((128, 191) ∷ (128, 191) ∷ [])
    else if c == 240
    then some ((144, 191) ∷ (128, 191) ∷ (128, 191) ∷ [])
    else if between 241 243 c
    then some ((128, 191) ∷ (128, 191) ∷ (128, 191) ∷ [])
    else if c == 244
    then some ((128, 143) ∷ (128, 191) ∷ (128, 191) ∷ [])
    else none

abbrev utf8_after : List (ℕ × ℕ) → Text → Bool
utf8_after [] [] = true
utf8_after (r ∷ rs) [] = false
utf8_after [] (c ∷ t) = elim (followers c) [ none ↦ false | some rs ↦ utf8_after rs t ]
utf8_after ((low, high) ∷ rs) (c ∷ t) = between low high c && utf8_after rs t

abbrev pub is_utf8 : Text → Bool
is_utf8 t = utf8_after [] t

abbrev text_ltb : Text → Text → Bool
text_ltb a [] = false
text_ltb [] (d ∷ b) = true
text_ltb (c ∷ a) (d ∷ b) = ltb c d || (c == d && text_ltb a b)

abbrev is_before : Text → Fields → Bool
is_before name end = true
is_before name (field n v rest) = text_ltb name n

-- Whether JSON gives these back; `is_number` tells the texts that it writes for a `float64`.
unfoldable mutual
  pub keeps_value : (Text → Bool) → Value → Bool
  keeps_value is_number null = true
  keeps_value is_number (bool b) = true
  keeps_value is_number (num t) = is_number t
  keeps_value is_number (str t) = is_utf8 t
  keeps_value is_number (arr vs) = keeps_values is_number vs
  keeps_value is_number (obj fs) = keeps_fields is_number fs

  pub keeps_values : (Text → Bool) → Values → Bool
  keeps_values is_number nil = true
  keeps_values is_number (cons v vs) = keeps_value is_number v && keeps_values is_number vs

  pub keeps_fields : (Text → Bool) → Fields → Bool
  keeps_fields is_number end = true
  keeps_fields is_number (field n v rest) =
      is_utf8 n && (keeps_value is_number v && (is_before n rest && keeps_fields is_number rest))

abbrev keeps_identity : (Text → Bool) → Option Identity → Bool
keeps_identity is_number none = true
keeps_identity is_number (some i) =
    is_utf8 i.subject && (is_utf8 i.value && keeps_fields is_number i.claims)

abbrev pub JsonKeeps : (Text → Bool) → Session → Type 0
JsonKeeps is_number s =
    (all is_utf8 (
        s.id ∷ s.login_hint ∷ s.code_challenge ∷ s.client_kind ∷ s.client_host ∷ s.client_ip
        ∷ s.verified_client ∷ s.user_code ∷ s.protocol ∷ s.idp_state ∷ s.idp_nonce
        ∷ s.idp_pkce_verifier ∷ s.saml_request_id ∷ s.csrf_token ∷ s.approval_binding_hash ∷ [])
      ≡ true)
    × (keeps_identity is_number s.identity ≡ true)
