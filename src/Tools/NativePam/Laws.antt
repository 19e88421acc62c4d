-- ===== src/Tools/NativePam/Laws.antt =====
-- When cmd/xdauth-pam-native lets a user in.
use xdauth.Client.{Session, Outcome, finished, poll_failed, unexpected, context_done}
use xdauth.Http.{or_empty}
use xdauth.Machine.{Artifact}
use xdauth.Platform.{Platform}
use xdauth.Prelude.{
  ◌≡◌, ◌↔◌, refl, List, [], ◌∷◌, ◌++◌, none, inl, inr, true, false, Option, some, arith, is_empty,
  Option-cases,
}
use xdauth.Text.{Text, bytes, text_eq}
use xdauth.Text.Laws.{text_eq_iff}
use xdauth.Tools.{World, start_in, poll_in}
use xdauth.Tools.Laws.{approved_result, result-approved, Approves}
use xdauth.Tools.NativePam.{
  PamHandle, pam_success, env_item, module_arg, code_of, native_request, sign_in,
  pam_sm_authenticate,
}

native_outcome :
    (o : Outcome)
    → code_of o ≡ pam_success
    → (a : Option Artifact) × (o ≡ finished (approved_result a))
unfolding code_of
native_outcome (finished res) h =
    (res.artifact, ground (arith, text_eq_iff res.status (bytes "approved"), result-approved res))
native_outcome poll_failed h = absurd (ground arith)
native_outcome (unexpected t) h = absurd (ground arith)
native_outcome context_done h = absurd (ground arith)

has_item : (o : Option Text) → env_item o ≡ or_empty o
has_item none = refl
has_item (some t) = refl

has_arg :
    (args : List Text)
    → is_empty (module_arg args 0) ≡ false
    → (rest : List Text) × (args ≡ module_arg args 0 ∷ rest)
unfolding module_arg
has_arg [] h = absurd (ground arith)
has_arg (a ∷ args) h = (args, refl)

module _ ⦃sys : Platform⦄ where
  -- What lets a user in: the first argument of the module is the broker's URL, the handle has this
  -- user and a conversation, the broker starts a login for this very user, the link and the code of
  -- it can be shown, and its polls end with "approved".
  pub record LetsIn (w : World) (h : PamHandle) : Type 0 where
    pub broker_url : Text
    pub other_args : List Text
    pub user : Text
    pub sess : Session
    pub artifact : Option Artifact
    pub args : h.module_args ≡ broker_url ∷ other_args
    pub has_broker : is_empty broker_url ≡ false
    pub is_user : h.user ≡ some user
    pub converses : h.has_conversation ≡ true
    pub shown :
        h.send_info (
          bytes "xdauth: to finish signing in, visit "
          ++ (sess.verification_uri ++ (bytes " and enter the code: " ++ sess.user_code)))
        ≡ true
    pub signs_in :
        Approves w
          (record {
            broker_url = broker_url;
            login_hint = user;
            client_kind = bytes "ssh";
            client_host = or_empty h.rhost;
          })
          sess
          artifact

  native_forward : (w : World) (h : PamHandle) → pam_sm_authenticate w h ≡ pam_success → LetsIn w h
  unfolding pam_sm_authenticate sign_in
  native_forward w h e = elim (Option-cases h.user) [
    | inl u ↦ absurd (ground (arith, u))
    | inr (user, u) ↦
        elim (Option-cases (start_in w (native_request (module_arg h.module_args 0) user h))) [
          | inl s ↦ absurd (ground (arith, u, s))
          | inr (sess, s) ↦
              let done : code_of (poll_in w sess) ≡ pam_success = ground (arith, u, s) in
              let (a, p) = native_outcome (poll_in w sess) done in
              let filled : is_empty (module_arg h.module_args 0) ≡ false = ground (arith, u, s) in
              let (rest, is_args) = has_arg h.module_args filled in
              record {
                broker_url = module_arg h.module_args 0;
                other_args = rest;
                user = user;
                sess = sess;
                artifact = a;
                args = is_args;
                has_broker = filled;
                is_user = u;
                converses = ground (arith, u, s);
                shown = ground (arith, u, s);
                signs_in = record { started = rw (← has_item h.rhost) s; approved = p };
              }
        ]
  ]

  native_backward : (w : World) (h : PamHandle) → LetsIn w h → pam_sm_authenticate w h ≡ pam_success
  unfolding pam_sm_authenticate sign_in code_of text_eq module_arg
  native_backward w h l = ground (
    arith,
    l.args,
    l.has_broker,
    l.is_user,
    l.converses,
    l.shown,
    has_item h.rhost,
    l.signs_in.started,
    l.signs_in.approved,
  )

  -- The PAM module lets a user in exactly when it has a broker, a user and a conversation, the broker
  -- starts a login with this user's name as the hint and the remote host as the client's, the link
  -- and the code of it can be shown, and its polls end with "approved".
  pub pam_sm_authenticate_iff :
      (w : World) (h : PamHandle) → (pam_sm_authenticate w h ≡ pam_success) ↔ LetsIn w h
  pam_sm_authenticate_iff w h = (native_forward w h, native_backward w h)
