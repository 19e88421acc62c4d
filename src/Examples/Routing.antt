-- ===== src/Examples/Routing.antt =====
-- A router that matches as chi documents, and the link of a start.
use xdauth.Broker.{StartResponse, json_start}
use xdauth.Broker.Router.{session_id_pattern, to_verify, Mux, MuxLaws, lacks, is_plain, dispatch}
use xdauth.Broker.Router.Link.{link_opens_session}
use xdauth.Broker.Start.{handle_start, authenticate}
use xdauth.Broker.{observe_event}
use xdauth.ClientIp.{is_allowed_client, resolve_client_ip, resolve_from, is_trusted_host, peer_host}
use xdauth.Detect.{observe, get_counter, put_counter, map_key}
use xdauth.RateLimit.{allow}
use xdauth.Machine.{new_session}
use xdauth.Pkce.{challenge_of}
use xdauth.Text.Encoding.{base64}
use xdauth.UserCode.{generate_user_code}
use xdauth.Http.{header, lookup}
use xdauth.Store.Memory.{create, find, put}
use xdauth.Examples.{demo, counting, request}
use xdauth.Examples.Login.{empty_broker, login}
use xdauth.Prelude.{
  ◌<◌, ◌≡◌, refl, true, false, not, ◌||◌, [], ◌∷◌, ◌++◌, Option, none, some, arith, length,
  is_empty, if◌then◌else◌, ◌==◌, Bool-cases, inl, inr,
}
use xdauth.Store.Memory.{memory_store}
use xdauth.Text.{Text, bytes, cut, strip_prefix, text_eq}
use xdauth.Text.Laws.{strip_prefix-append}

abbrev segment : Option Text → Option Text
segment none = none
segment (some id) = if is_empty id || not (lacks 47 id) then none else some id

abbrev before_brace : Option (Text × Text) → Text
before_brace none = []
before_brace (some (before, rest)) = before

abbrev mux : Mux
mux = record {
  matches = λ pattern path.
      if lacks 123 pattern
      then (if text_eq pattern path then some [] else none)
      else segment (strip_prefix (before_brace (cut pattern 123)) path);
}

has_brace : (before : Text) → lacks 123 (before ++ session_id_pattern) ≡ false
has_brace [] = refl
has_brace (c ∷ before) = ground (arith, has_brace before)

-- A text with a brace can be cut.
is_cut : (before : Text) → (p : Text × Text) × (cut (before ++ session_id_pattern) 123 ≡ some p)
unfolding cut
is_cut [] = (_, refl)
is_cut (c ∷ before) = elim (Bool-cases (c == 123)) [
  | inl e ↦ (([], before ++ session_id_pattern), rw e refl)
  | inr e ↦ let (p, k) = is_cut before in ((c ∷ p.0, p.1), rw (e, k) refl)
]

cut_brace :
    (before : Text)
    → lacks 123 before ≡ true
    → before_brace (cut (before ++ session_id_pattern) 123) ≡ before
unfolding cut
cut_brace [] h = refl
cut_brace (c ∷ before) h = let (p, k) = is_cut before in ground (arith, k, cut_brace before)

is_plain-lacks : (t : Text) → is_plain t ≡ true → lacks 123 t ≡ true
is_plain-lacks t h = ground arith

mux-MuxLaws : MuxLaws mux
mux-MuxLaws = record {
  literal = λ rest path h. rw (is_plain-lacks rest h) refl;
  parameter = λ rest id h full flat.
      let before : Text = 47 ∷ rest in
      rw
        (
          has_brace before,
          cut_brace before (is_plain-lacks rest h),
          strip_prefix-append before id,
          full,
          flat,
        )
        refl;
}

random_bytes : (bs : Text) → some (bytes "a") ≡ some bs → 0 < length bs
random_bytes [] e = cc
random_bytes (c ∷ bs) e = omega arith

starts :
    (handle_start counting memory_store empty_broker request
      (some login)
      1000
      (some (bytes "a"))
      (some (bytes "01234567"))).1.status
    ≡ 200
unfolding handle_start authenticate challenge_of base64 is_allowed_client resolve_client_ip
    resolve_from is_trusted_host peer_host observe_event observe get_counter put_counter map_key
    allow new_session generate_user_code header lookup create find put text_eq
starts = refl

link_opens_session_example :
    let (b', answer) =
      handle_start counting memory_store empty_broker request
        (some login)
        1000
        (some (bytes "a"))
        (some (bytes "01234567")) in
    (reply : StartResponse) × (path : Text) × (answer.body ≡ json_start reply)
    × (reply.verification_uri ≡ bytes "https://b" ++ path)
    × (dispatch mux (bytes "GET") path ≡ some (to_verify, reply.session_id))
link_opens_session_example =
    link_opens_session counting memory_store mux empty_broker request (some login) 1000
      (some (bytes "a")) (some (bytes "01234567")) mux-MuxLaws random_bytes starts
