-- ===== src/Broker/Cookies.antt =====
-- The cookies of internal/broker/handlers.go.
use xdauth.Http.{Request, Cookie, SameSite, none_mode, lax_mode, lookup, is_secure}
use xdauth.Pkce.{hash_binding}
use xdauth.Platform.{Platform}
use xdauth.Prelude.{
  Bool, true, false, not, ◌||◌, List, [], ◌∷◌, Option, none, some, length, is_empty, ◌==◌,
  if◌then◌else◌,
}
use xdauth.Session.{Session}
use xdauth.Text.{Text, bytes, constant_time_compare}

abbrev pub session_cookie_name : Text
session_cookie_name = bytes "xdauth_session"

abbrev pub approval_cookie_name : Text
approval_cookie_name = bytes "xdauth_approve"

abbrev pub same_site_of : Bool → SameSite
same_site_of secure = if not secure then lax_mode else none_mode

-- `setSessionCookie`: the cookie, and the deletion of one at the path "/auth".
unfoldable pub session_cookies : Request → Text → List Cookie
unfolding is_secure
session_cookies r session_id =
    let secure = is_secure r in
    record {
      name = session_cookie_name;
      value = session_id;
      path = bytes "/";
      deleted = false;
      http_only = true;
      secure = secure;
      same_site = same_site_of secure;
    }
    ∷ record {
      name = session_cookie_name;
      value = [];
      path = bytes "/auth";
      deleted = true;
      http_only = true;
      secure = secure;
      same_site = same_site_of secure;
    }
    ∷ []

-- `setApprovalCookie`
unfoldable pub approval_cookie : Request → Text → Cookie
unfolding is_secure
approval_cookie r secret =
    let secure = is_secure r in
    record {
      name = approval_cookie_name;
      value = secret;
      path = bytes "/";
      deleted = false;
      http_only = true;
      secure = secure;
      same_site = same_site_of secure;
    }

abbrev pub unless_empty : Option Text → Option Text
unless_empty none = none
unless_empty (some v) = if is_empty v then none else some v

unfoldable pub read_session_cookie : Request → Option Text
unfolding lookup
read_session_cookie r = unless_empty (lookup session_cookie_name r.cookies)

unfoldable pub read_approval_cookie : Request → Option Text
unfolding lookup
read_approval_cookie r = unless_empty (lookup approval_cookie_name r.cookies)

unfoldable pub constant_time_string_equal : Text → Text → Bool
constant_time_string_equal a b =
    if is_empty a || is_empty b || not (length a == length b)
    then false
    else constant_time_compare a b == 1

module _ ⦃sys : Platform⦄ where
  unfoldable pub approval_binding_matches : Request → Session → Bool
  unfolding read_approval_cookie constant_time_string_equal
  approval_binding_matches r s = elim (read_approval_cookie r) [
    | none ↦ false
    | some secret ↦
        if is_empty s.approval_binding_hash
        then false
        else constant_time_string_equal (hash_binding secret) s.approval_binding_hash
  ]
