-- ===== src/Http.antt =====
-- What the handlers read of an `http.Request` and write to an `http.ResponseWriter`.
use xdauth.Prelude.{Bool, true, false, List, [], ◌∷◌, Option, none, some, if◌then◌else◌, ◌||◌}
use xdauth.Text.{Text, bytes, text_eq}

pub record Request : Type 0 where
  pub remote_addr : Text
  -- name and value of each header line, in order, under the canonical names
  pub headers : List (Text × Text)
  pub cookies : List (Text × Text)
  -- `r.URL.Query()`, and the values that only the body holds
  pub query : List (Text × Text)
  pub post_form : List (Text × Text)
  -- the values of the body and of the query, once they are parsed; `none` for a malformed form
  pub form : Option (List (Text × Text))
  -- the CommonName of each peer certificate; `none` for a request without TLS
  pub tls : Option (List Text)

-- The first value under a name.
unfoldable pub lookup : Text → List (Text × Text) → Option Text
lookup k [] = none
lookup k ((j, v) ∷ m) = if text_eq j k then some v else lookup k m

abbrev pub or_empty : Option Text → Text
or_empty none = []
or_empty (some t) = t

-- `r.Header.Get`: the first value, or the empty string.
unfoldable pub header : Request → Text → Text
unfolding lookup
header r name = or_empty (lookup name r.headers)

abbrev pub form_values : Option (List (Text × Text)) → List (Text × Text)
form_values none = []
form_values (some m) = m

-- `r.FormValue`
unfoldable pub form_value : Request → Text → Text
unfolding lookup
form_value r name = or_empty (lookup name (form_values r.form))

-- `r.TLS != nil || r.Header.Get("X-Forwarded-Proto") == "https"`
abbrev pub has_tls : Option (List Text) → Bool
has_tls none = false
has_tls (some _) = true

unfoldable pub is_secure : Request → Bool
unfolding header
is_secure r = has_tls r.tls || text_eq (header r (bytes "X-Forwarded-Proto")) (bytes "https")

pub data SameSite : Type 0 where
  none_mode lax_mode : SameSite

pub record Cookie : Type 0 where
  pub name : Text
  pub value : Text
  pub path : Text
  -- `MaxAge: -1`, which deletes the cookie
  pub deleted : Bool
  pub http_only : Bool
  pub secure : Bool
  pub same_site : SameSite
