-- ===== src/Broker/Router/Link.antt =====
-- The link of a start's answer, as a request to the router.
use xdauth.Broker.{Broker, StartResponse, json_start}
use xdauth.Broker.Router.{to_verify, verify_path, Mux, MuxLaws, lacks, dispatch_in, dispatch}
use xdauth.Broker.Start.{StartRequest, handle_start}
use xdauth.Broker.Start.Answer.{handle_start-Drawn}
use xdauth.Http.{Request}
use xdauth.Machine.{new_session_id}
use xdauth.Platform.{Platform}
use xdauth.Prelude.{
  append_assoc, ◌≡◌, ◌<◌, refl, ◌∙◌, true, false, [], ◌∷◌, ◌++◌, Option, none, some, arith,
  is_empty, length,
}
use xdauth.RateLimit.{Limiting}
use xdauth.Session.{Time}
use xdauth.Store.{Store}
use xdauth.Text.{Text, bytes, text_eq}
use xdauth.Text.Encoding.{hex}

hex-lacks : (t : Text) → lacks 47 (hex t) ≡ true
unfolding hex
hex-lacks [] = refl
hex-lacks (b ∷ bs) = ground (arith, hex-lacks bs)

hex-nonempty : (t : Text) → 0 < length t → is_empty (hex t) ≡ false
unfolding hex
hex-nonempty [] l = absurd (omega (arith, l))
hex-nonempty (b ∷ bs) l = refl

dispatch-verify :
    (mux : Mux) (laws : MuxLaws mux) (id : Text)
    → is_empty id ≡ false
    → lacks 47 id ≡ true
    → dispatch mux (bytes "GET") (verify_path ++ id) ≡ some (to_verify, id)
unfolding dispatch_in text_eq
dispatch-verify mux laws id full flat =
    rw
      (
        laws.literal (bytes "healthz") (verify_path ++ id) refl,
        laws.parameter (bytes "auth/verify/") id refl full flat,
      )
      refl

new_session_id-path :
    (ib : Option Text) (id : Text)
    → ((b : Text) → ib ≡ some b → 0 < length b)
    → new_session_id ib ≡ some id
    → (is_empty id ≡ false) × (lacks 47 id ≡ true)
unfolding new_session_id
new_session_id-path none id full h = absurd (ground arith)
new_session_id-path (some b) id full h =
    (ground (arith, hex-nonempty b (full b refl)), ground (arith, hex-lacks b))

module _ ⦃sys : Platform⦄ (L : Limiting) (S : Store) where
  -- Over a router that matches as chi documents: a start that is answered with 200, from random bytes
  -- that are not none, gives the client a link below the base URL, and a GET of this link gets to the
  -- page of the session whose id the answer has.
  pub link_opens_session :
      (mux : Mux) (b : Broker L S) (r : Request) (body : Option StartRequest) (now : Time)
      (ib cb : Option Text)
      → MuxLaws mux
      → ((bs : Text) → ib ≡ some bs → 0 < length bs)
      → (handle_start L S b r body now ib cb).1.status ≡ 200
      → (reply : StartResponse) × (path : Text) × ((handle_start L S b r body now ib cb).1.body
          ≡ json_start reply)
        × (reply.verification_uri ≡ b.cfg.base_url ++ path)
        × (dispatch mux (bytes "GET") path ≡ some (to_verify, reply.session_id))
  link_opens_session mux b r body now ib cb laws full ok =
      let d = handle_start-Drawn L S b r body now ib cb ok in
      let (filled, flat) = new_session_id-path ib d.reply.session_id full d.id_drawn in
      (
        d.reply,
        verify_path ++ d.reply.session_id,
        d.is_reply,
        d.link ∙ append_assoc b.cfg.base_url verify_path d.reply.session_id,
        dispatch-verify mux laws d.reply.session_id filled flat,
      )
