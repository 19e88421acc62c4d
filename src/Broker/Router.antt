-- ===== src/Broker/Router.antt =====
-- `Router` of internal/broker/broker.go: the routes, and the headers that its middlewares set. The
-- matching of a path with a pattern is that of github.com/go-chi/chi, a parameter.
pub mod Link
use xdauth.Prelude.{
  ℕ, ◌&&◌, Bool, true, false, not, List, [], ◌∷◌, ◌++◌, Option, none, some, all, ◌==◌,
  if◌then◌else◌, is_empty, ◌≡◌,
}
use xdauth.Text.{Text, bytes, text_eq}

pub data Handler : Type 0 where
  to_healthz to_start to_verify to_idp_response to_approve to_poll : Handler

pub record Route : Type 0 where
  pub method : Text
  pub pattern : Text
  pub handler : Handler

abbrev pub route : Text → Text → Handler → Route
route method pattern handler = record { method = method; pattern = pattern; handler = handler }

abbrev pub verify_path : Text
verify_path = bytes "/auth/verify/"

abbrev pub session_id_pattern : Text
session_id_pattern = bytes "{session_id}"

abbrev pub routes : List Route
routes =
    route (bytes "GET") (bytes "/healthz") to_healthz
    ∷ route (bytes "POST") (bytes "/auth/start") to_start
    ∷ route (bytes "GET") (verify_path ++ session_id_pattern) to_verify
    ∷ route (bytes "GET") (bytes "/auth/callback") to_idp_response
    ∷ route (bytes "POST") (bytes "/auth/saml/acs") to_idp_response
    ∷ route (bytes "POST") (bytes "/auth/approve") to_approve
    ∷ route (bytes "POST") (bytes "/auth/poll") to_poll
    ∷ []

-- The header of `noStoreMiddleware`, and those of `cspMiddleware`.
abbrev pub no_store : List (Text × Text)
no_store = (bytes "Cache-Control", bytes "no-store") ∷ []

abbrev pub csp : List (Text × Text)
csp =
    (
      bytes "Content-Security-Policy",
      bytes
          "default-src 'none'; style-src 'unsafe-inline'; base-uri 'none'; form-action 'self'; frame-ancestors 'none'",
    )
    ∷ (bytes "X-Content-Type-Options", bytes "nosniff")
    ∷ (bytes "Referrer-Policy", bytes "no-referrer")
    ∷ []

-- What is in the header before the handler runs.
unfoldable pub headers_before : Handler → List (Text × Text)
headers_before to_healthz = []
headers_before _ = no_store ++ csp

-- Whether a pattern matches a path: the value of its parameter, which is empty where it has none.
pub record Mux : Type 0 where
  pub matches : (pattern path : Text) → Option Text

abbrev pub lacks : ℕ → Text → Bool
lacks c = all (λ d. not (d == c))

-- A path without the characters that chi reads as a parameter, "{", or as a wildcard, "*".
abbrev pub is_plain : Text → Bool
is_plain t = lacks 123 t && lacks 42 t

-- What chi documents: a pattern that has neither a parameter nor a wildcard matches itself only, and
-- a parameter at the end matches what is left of the path, if that is not empty and has no slash.
-- Patterns begin with a slash.
pub record MuxLaws (mux : Mux) : Type 0 where
  pub literal :
      (rest path : Text)
      → is_plain rest ≡ true
      → mux.matches (47 ∷ rest) path ≡ (if text_eq (47 ∷ rest) path then some [] else none)
  pub parameter :
      (rest id : Text)
      → is_plain rest ≡ true
      → is_empty id ≡ false
      → lacks 47 id ≡ true
      → mux.matches ((47 ∷ rest) ++ session_id_pattern) ((47 ∷ rest) ++ id) ≡ some id

-- The handler of a request and the parameter of its path; `none` is the answer 404 or 405.
unfoldable pub dispatch_in : Mux → List Route → (method path : Text) → Option (Handler × Text)
dispatch_in mux [] method path = none
dispatch_in mux (r ∷ rs) method path =
    let rest = dispatch_in mux rs method path in
    if text_eq r.method method
    then elim (mux.matches r.pattern path) [ none ↦ rest | some x ↦ some (r.handler, x) ]
    else rest

abbrev pub dispatch : Mux → (method path : Text) → Option (Handler × Text)
dispatch mux = dispatch_in mux routes
