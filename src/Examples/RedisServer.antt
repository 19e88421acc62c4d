-- ===== src/Examples/RedisServer.antt =====
-- A server without expiry, and an encoding of sessions whose claims are texts, that keep the laws which
-- `Redis` relies on.
use xdauth.Examples.{demo, alice, ready}
use xdauth.Json.{Fields, end, field, null, bool, num, str, arr, obj}
use xdauth.Store.Redis.Json.{JsonKeeps, is_utf8, keeps_fields, keeps_value}
use xdauth.Pkce.{challenge_of, hash_binding}
use xdauth.Text.Encoding.{base64, hex}
use xdauth.Prelude.{
  ℕ, zero, suc, ◌+◌, ◌≤◌, ◌≡◌, refl, sym, ap, ◌∙◌, inl, inr, Bool, true, false, List, [], ◌∷◌, ◌++◌,
  Option, none, some, arith, length, take, drop, if◌then◌else◌, Option-cases,
}
use xdauth.Session.{State, pending, awaiting_approval, approved, denied, expired, Identity, Session}
use xdauth.Store.{StoreLawsFor}
use xdauth.Store.Redis.{Reply, value, nil, RedisServer, redis_store}
use xdauth.Store.Redis.Laws.{ServerLaws, redis_store-StoreLawsFor}
use xdauth.Text.{Text, bytes, text_eq}
use xdauth.Text.Laws.{text_eq_iff, text_eq_refl}

-- Each text with its length in front.
abbrev pack : List Text → Text
pack [] = []
pack (t ∷ ts) = length t ∷ t ++ pack ts

abbrev unpack : ℕ → Text → List Text
unpack zero r = []
unpack (suc n) [] = []
unpack (suc n) (l ∷ r) = take l r ∷ unpack n (drop l r)

length-append : (t r : Text) → length (t ++ r) ≡ length t + length r
length-append [] r = omega arith
length-append (c ∷ t) r = omega (arith, length-append t r)

take-append : (t r : Text) → take (length t) (t ++ r) ≡ t
take-append [] r = refl
take-append (c ∷ t) r = ap (λ x. c ∷ x) (take-append t r)

drop-append : (t r : Text) → drop (length t) (t ++ r) ≡ r
drop-append [] r = refl
drop-append (c ∷ t) r = drop-append t r

length-pack : (ts : List Text) → length ts ≤ length (pack ts)
length-pack [] = omega arith
length-pack (t ∷ ts) = omega (arith, length-pack ts, length-append t (pack ts))

unpack-pack : (n : ℕ) (ts : List Text) → length ts ≤ n → unpack n (pack ts) ≡ ts
unpack-pack zero [] l = refl
unpack-pack zero (t ∷ ts) l = absurd (omega (arith, l))
unpack-pack (suc n) [] l = refl
unpack-pack (suc n) (t ∷ ts) l =
    rw (take-append t (pack ts), drop-append t (pack ts))
      (ap (λ x. t ∷ x) (unpack-pack n ts (omega (arith, l))))

abbrev state_code : State → ℕ
state_code pending = 0
state_code awaiting_approval = 1
state_code approved = 2
state_code denied = 3
state_code expired = 4

abbrev state_of : ℕ → State
state_of zero = pending
state_of (suc zero) = awaiting_approval
state_of (suc (suc zero)) = approved
state_of (suc (suc (suc zero))) = denied
state_of _ = expired

abbrev flag : Bool → ℕ
flag true = 1
flag false = 0

abbrev is_flag : ℕ → Bool
is_flag zero = false
is_flag (suc n) = true

abbrev numbers_of : Session → Text
numbers_of s =
    s.interval
    ∷ s.created_at
    ∷ s.expires_at
    ∷ s.identity_at
    ∷ s.approve_attempts
    ∷ s.last_poll_at
    ∷ state_code s.state
    ∷ flag s.consumed
    ∷ []

abbrev texts_of : Session → List Text
texts_of s =
    numbers_of s
    ∷ s.id
    ∷ s.login_hint
    ∷ s.code_challenge
    ∷ s.client_kind
    ∷ s.client_host
    ∷ s.client_ip
    ∷ s.verified_client
    ∷ s.user_code
    ∷ s.protocol
    ∷ s.idp_state
    ∷ s.idp_nonce
    ∷ s.idp_pkce_verifier
    ∷ s.saml_request_id
    ∷ s.csrf_token
    ∷ s.approval_binding_hash
    ∷ []

some_text : {a b : Text} → some a ≡ some b → a ≡ b
some_text e = cc

some_list : {a b : List Text} → some a ≡ some b → a ≡ b
some_list e = cc

-- Claims that are texts, as a list of names and values.
abbrev flat : Fields → Option (List Text)
flat end = some []
flat (field n (str v) rest) = elim (flat rest) [ none ↦ none | some ts ↦ some (n ∷ v ∷ ts) ]
flat (field n _ rest) = none

abbrev fields_of : List Text → Fields
fields_of (n ∷ v ∷ ts) = field n (str v) (fields_of ts)
fields_of _ = end

fields_of-flat : (fs : Fields) (ts : List Text) → flat fs ≡ some ts → fields_of ts ≡ fs
fields_of-flat end ts h = ap fields_of (sym (some_list h))
fields_of-flat (field n (str v) rest) ts h = elim (Option-cases (flat rest)) [
  | inl e ↦ absurd (ground arith)
  | inr (us, e) ↦
      let same : n ∷ v ∷ us ≡ ts = some_list (ground arith) in
      ap fields_of (sym same) ∙ ap (field n (str v)) (fields_of-flat rest us e)
]
fields_of-flat (field n null rest) ts h = absurd (ground arith)
fields_of-flat (field n (bool b) rest) ts h = absurd (ground arith)
fields_of-flat (field n (num t) rest) ts h = absurd (ground arith)
fields_of-flat (field n (arr vs) rest) ts h = absurd (ground arith)
fields_of-flat (field n (obj fs) rest) ts h = absurd (ground arith)

abbrev identity_of : List Text → Option Identity
identity_of (subject ∷ name ∷ ts) =
    some (record { subject = subject; value = name; claims = fields_of ts })
identity_of _ = none

abbrev session_of : List Text → Option Session
session_of
      ((interval ∷ created ∷ expires ∷ bound ∷ attempts ∷ polled ∷ st ∷ used ∷ [])
        ∷ id
        ∷ hint
        ∷ challenge
        ∷ kind
        ∷ host
        ∷ ip
        ∷ client
        ∷ code
        ∷ protocol
        ∷ idp_state
        ∷ nonce
        ∷ pkce
        ∷ request
        ∷ csrf
        ∷ binding
        ∷ bound_identity) =
    some (record {
      id = id;
      login_hint = hint;
      code_challenge = challenge;
      client_kind = kind;
      client_host = host;
      client_ip = ip;
      verified_client = client;
      interval = interval;
      created_at = created;
      expires_at = expires;
      user_code = code;
      protocol = protocol;
      idp_state = idp_state;
      idp_nonce = nonce;
      idp_pkce_verifier = pkce;
      saml_request_id = request;
      identity = identity_of bound_identity;
      identity_at = bound;
      approve_attempts = attempts;
      csrf_token = csrf;
      approval_binding_hash = binding;
      last_poll_at = polled;
      state = state_of st;
      consumed = is_flag used;
    })
session_of _ = none

-- The texts of the identity, where its claims are texts.
abbrev identity_texts : Option Identity → Option (List Text)
identity_texts none = some []
identity_texts (some i) = elim (flat i.claims) [
  | none ↦ none
  | some ts ↦ some (i.subject ∷ i.value ∷ ts)
]

abbrev encode_session : Session → Option Text
encode_session s = elim (identity_texts s.identity) [
  | none ↦ none
  | some ts ↦ some (pack (texts_of s ++ ts))
]

abbrev decode_session : Text → Option Session
decode_session raw = session_of (unpack (length raw) raw)

abbrev reply_of : Option Text → Reply
reply_of none = nil
reply_of (some v) = value v

abbrev is_some : Option Text → Bool
is_some none = false
is_some (some _) = true

abbrev server : RedisServer
server = record {
  Server = Text → Option Text;
  rget = λ db t k. reply_of (db k);
  rexists = λ db t k. some (is_some (db k));
  rset = λ db t k v ttl. ((λ j. if text_eq k j then some v else db j), true);
  encode = encode_session;
  decode = decode_session;
  is_number = λ t. true;
}

state_of-code : (s : State) → state_of (state_code s) ≡ s
state_of-code pending = refl
state_of-code awaiting_approval = refl
state_of-code approved = refl
state_of-code denied = refl
state_of-code expired = refl

is_flag-flag : (b : Bool) → is_flag (flag b) ≡ b
is_flag-flag true = refl
is_flag-flag false = refl

identity_of-texts :
    (o : Option Identity) (ts : List Text) → identity_texts o ≡ some ts → identity_of ts ≡ o
identity_of-texts none ts h = ap identity_of (sym (some_list h))
identity_of-texts (some i) ts h = elim (Option-cases (flat i.claims)) [
  | inl e ↦ absurd (ground arith)
  | inr (us, e) ↦
      let same : i.subject ∷ i.value ∷ us ≡ ts = some_list (ground arith) in
      ap identity_of (sym same)
      ∙ ap (λ c. some (record { subject = i.subject; value = i.value; claims = c }))
          (fields_of-flat i.claims us e)
]

session_of-texts :
    (s : Session) (ts : List Text)
    → identity_of ts ≡ s.identity
    → session_of (texts_of s ++ ts) ≡ some s
session_of-texts s ts e = rw (state_of-code s.state, is_flag-flag s.consumed, e) refl

decode-encode :
    (s : Session) (raw : Text) → encode_session s ≡ some raw → decode_session raw ≡ some s
decode-encode s raw h = elim (Option-cases (identity_texts s.identity)) [
  | inl e ↦ absurd (ground arith)
  | inr (ts, e) ↦
      let all_texts = texts_of s ++ ts in
      let packed : pack all_texts ≡ raw = some_text (ground arith) in
      ap decode_session (sym packed)
      ∙ ap session_of (unpack-pack (length (pack all_texts)) all_texts (length-pack all_texts))
      ∙ session_of-texts s ts (identity_of-texts s.identity ts e)
]

server-ServerLaws : ServerLaws server
server-ServerLaws = record {
  get-set = λ db t k v ttl p d. rw (text_eq_refl k) refl;
  get-set_other = λ db t k j v ttl n. ground (arith, text_eq_iff k j);
  value-set = λ db t later k v w j ttl h. ground (arith, text_eq_iff k j);
  exists_nil = λ db t k h. ground arith;
  decode-encode = λ s raw keeps h. decode-encode s raw h;
}

-- JSON keeps a session with an identity and claims, but not a byte that is no UTF-8.
abbrev signed_in : Session
signed_in = record ready {
  identity =
      some (record alice { claims = field (bytes "mail") (str (bytes "alice@example.com")) end });
}

signed_in-kept : JsonKeeps (λ t. true) signed_in
unfolding challenge_of base64 hash_binding hex keeps_fields keeps_value
signed_in-kept = (refl, refl)

two_bytes : is_utf8 (195 ∷ 169 ∷ []) ≡ true
two_bytes = refl

stray_byte : is_utf8 (255 ∷ []) ≡ false
stray_byte = refl

redis_store-StoreLawsFor_example :
    StoreLawsFor (redis_store server (bytes "xdauth:session:")) (JsonKeeps (λ t. true))
redis_store-StoreLawsFor_example =
    redis_store-StoreLawsFor server (bytes "xdauth:session:") server-ServerLaws
