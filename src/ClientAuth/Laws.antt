-- ===== src/ClientAuth/Laws.antt =====
-- Who passes clientauth.go, and what the parsed configuration admits.
use xdauth.ClientAuth.{
  StaticTokenClientAuth, ClientAuthenticator, static_tokens, find_token, bearer_prefix,
  authenticate_static, set_token, parse_token_pair, add_token_pairs, parse_client_auth_tokens,
}
use xdauth.Http.{Request, header, lookup}
use xdauth.Prelude.{
  ◌≡◌, ◌≢◌, ◌↔◌, refl, sym, ap, subst, ◌∙◌, inl, inr, false, List, [], ◌∷◌, ◌++◌, some, arith,
  is_empty, Option-cases, if◌then◌else◌,
}
use xdauth.Text.{Text, bytes, text_eq, strip_prefix, split}
use xdauth.Text.Laws.{
  text_eq_iff, constant_time_compare_lem, strip_prefix-append, strip_prefix_sound,
}

some-eq : {m n : List (Text × Text)} → some m ≡ some n → m ≡ n
some-eq e = cc

-- The scan of the tokens is a look-up.
find_token-lookup : (t : Text) (m : List (Text × Text)) → find_token t m ≡ lookup t m
unfolding find_token lookup
find_token-lookup t [] = refl
find_token-lookup t ((k, v) ∷ m) =
    ground (
      arith,
      find_token-lookup t m,
      constant_time_compare_lem t k,
      text_eq_iff t k,
      text_eq_iff k t,
    )

-- A request passes, as the client `id`, exactly when its Authorization header is "Bearer " and a
-- token under which the configuration holds `id`.
pub authenticate_static_iff :
    (a : StaticTokenClientAuth) (r : Request) (id : Text)
    → (authenticate_static a r ≡ some id) ↔ (
        (token : Text) × (header r (bytes "Authorization") ≡ bearer_prefix ++ token)
        × (lookup token a.tokens ≡ some id))
unfolding authenticate_static
authenticate_static_iff a r id = (forward, backward)
  where
    auth : Text
    auth = header r (bytes "Authorization")

    forward :
        authenticate_static a r ≡ some id
        → (token : Text) × (auth ≡ bearer_prefix ++ token) × (lookup token a.tokens ≡ some id)
    forward h = elim (Option-cases (strip_prefix bearer_prefix auth)) [
      | inl e ↦ absurd (ground (arith, e))
      | inr (token, e) ↦ (
        token,
        strip_prefix_sound bearer_prefix auth token e,
        sym (find_token-lookup token a.tokens) ∙ (ground (arith, e)),
      )
    ]

    backward :
        (token : Text) × (auth ≡ bearer_prefix ++ token) × (lookup token a.tokens ≡ some id)
        → authenticate_static a r ≡ some id
    backward (token, e, l) = ground (
      arith,
      e,
      ap (strip_prefix bearer_prefix) e,
      strip_prefix-append bearer_prefix token,
      find_token-lookup token a.tokens,
      l,
    )

lookup-set_token :
    (k j v : Text) (m : List (Text × Text))
    → lookup j (set_token k v m) ≡ (if text_eq k j then some v else lookup j m)
unfolding lookup set_token
lookup-set_token k j v [] = refl
lookup-set_token k j v ((i, w) ∷ m) =
    ground (arith, text_eq_iff k j, text_eq_iff i k, text_eq_iff i j, lookup-set_token k j v m)

-- Each token and each client id of a configuration is not empty.
abbrev pub Filled : List (Text × Text) → Type 0
Filled [] = Unit
Filled ((token, id) ∷ m) = (token ≢ []) × (id ≢ []) × Filled m

set_token-Filled :
    (k v : Text) (m : List (Text × Text)) → k ≢ [] → v ≢ [] → Filled m → Filled (set_token k v m)
unfolding set_token
set_token-Filled k v [] hk hv h = (hk, hv, tt)
set_token-Filled k v ((j, w) ∷ m) hk hv h = ground (arith, set_token-Filled k v m)

parse_token_pair_filled :
    (pair token id : Text) → parse_token_pair pair ≡ some (token, id) → (token ≢ []) × (id ≢ [])
unfolding parse_token_pair
parse_token_pair_filled pair token id h = ground arith

add_token_pairs-Filled :
    (pairs : List Text) (m m' : List (Text × Text))
    → Filled m
    → add_token_pairs pairs m ≡ some m'
    → Filled m'
unfolding add_token_pairs
add_token_pairs-Filled [] m m' h e = subst Filled (some-eq e) h
add_token_pairs-Filled (pair ∷ pairs) m m' h e = elim (Option-cases (parse_token_pair pair)) [
  | inl f ↦ absurd (ground arith)
  | inr ((token, id), f) ↦
      let (ht, hi) = parse_token_pair_filled pair token id f in
      add_token_pairs-Filled pairs (set_token token id m) m' (set_token-Filled token id m ht hi h)
        (ground arith)
]

-- A configured list of tokens gates the broker: it is refused, or it gives an authenticator all of
-- whose tokens and client ids are not empty.
pub parse_client_auth_tokens-Filled :
    (raw : Text) (a : ClientAuthenticator)
    → is_empty raw ≡ false
    → parse_client_auth_tokens raw ≡ some a
    → (m : List (Text × Text)) × (a ≡ static_tokens (record { tokens = m })) × Filled m
unfolding parse_client_auth_tokens
parse_client_auth_tokens-Filled raw a ne h =
    elim (Option-cases (add_token_pairs (split raw 44) [])) [
      | inl f ↦ absurd (ground arith)
      | inr (m, f) ↦ (m, ground arith, add_token_pairs-Filled (split raw 44) [] m tt f)
    ]
