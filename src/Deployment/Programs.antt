-- ===== src/Deployment/Programs.antt =====
-- The PAM helper and the SSH server against this broker.
use xdauth.Broker.{Broker, IdentityProvider}
use xdauth.Client.{Session}
use xdauth.Config.{Config}
use xdauth.Deployment.{Connected}
use xdauth.Deployment.Granted.{Backed, Approves-Backed}
use xdauth.Machine.{Artifact, normalizer_of}
use xdauth.Platform.{Platform}
use xdauth.Prelude.{◌≤◌, ◌≡◌, ◌≢◌, sym, ap, ◌∙◌, List, none, some}
use xdauth.RateLimit.{Limiting}
use xdauth.Session as session
use xdauth.Session.{Time}
use xdauth.Store.{Store, StoreLaws, found}
use xdauth.System.{Call, IdpLaws}
use xdauth.System.Grants.{some_artifact}
use xdauth.System.Single.{made_in}
use xdauth.Text.{Text}
use xdauth.Tools.{World, start_in}
use xdauth.Tools.Pam.{PamEnv, pam_request, pam_run}
use xdauth.Tools.Pam.Laws.{pam_run_iff}
use xdauth.Tools.Sshd.{Connection, permitted, nil_artifact, ssh_request, keyboard_interactive_auth}
use xdauth.Tools.Sshd.Laws.{keyboard_interactive_auth_iff, ssh_nil_artifact_inv}

module _ ⦃sys : Platform⦄ (L : Limiting) (S : Store) (laws : StoreLaws S) (idp : IdentityProvider)
    (idp_laws : IdpLaws idp) (cfg : Config L) where
  -- The PAM helper against this broker, over any store and provider that keep their laws, where no two
  -- starts draw one session id: if it exits with 0, then the session that it started was approved with
  -- its code, not after the expiry, by a browser that had signed in as an identity which matches
  -- PAM_USER by the broker's normalizer, and for which the provider vouched.
  pub pam_run-Backed :
      {start : Broker L S} {cs : List Call} (w : World) (env : PamEnv)
      → start.cfg ≡ cfg
      → ((later : Time) (id : Text) (x : session.Session) → S.get start.db later id ≢ found x)
      → ((id : Text) → made_in id cs ≤ 1)
      → Connected L S idp start cs w (pam_request env)
      → (pam_run w env).code ≡ 0
      → (sess : Session) × (a : Artifact) × (start_in w (pam_request env) ≡ some sess)
        × Backed L S laws idp idp_laws cfg cs env.pam_user sess a
  pam_run-Backed w env same none_yet once net done =
      let (url, user, sess, o, v) = (pam_run_iff w env).0 done in
      let (a, is_a, backed) =
        Approves-Backed L S laws idp idp_laws cfg w (pam_request env) sess o same none_yet net
          (once sess.id) v in
      (sess, a, v.started, backed)

  -- The SSH server against this broker, under the same conditions: no answer of the broker crashes it,
  -- and if it lets a connection in as `i`, then `i` matches the connection's user by the broker's
  -- normalizer, and the session that it started was approved with its code, not after the expiry, by a
  -- browser that had signed in as that identity, for which the provider vouched.
  pub keyboard_interactive_auth-Backed :
      {start : Broker L S} {cs : List Call} (w : World) (url : Text) (c : Connection)
      → start.cfg ≡ cfg
      → ((later : Time) (id : Text) (x : session.Session) → S.get start.db later id ≢ found x)
      → ((id : Text) → made_in id cs ≤ 1)
      → Connected L S idp start cs w (ssh_request url c)
      → (keyboard_interactive_auth w url c ≢ nil_artifact)
        × ((i : Text)
            → keyboard_interactive_auth w url c ≡ permitted i
            → (normalizer_of cfg.identity_normalizer i
                ≡ normalizer_of cfg.identity_normalizer c.user)
              × (sess : Session) × (a : Artifact) × (start_in w (ssh_request url c) ≡ some sess)
              × (a.identity ≡ i)
              × Backed L S laws idp idp_laws cfg cs c.user sess a)
  keyboard_interactive_auth-Backed w url c same none_yet once net = (
    λ crash.
        let (sess, v) = ssh_nil_artifact_inv w url c crash in
        let (a, is_a, backed) =
          Approves-Backed L S laws idp idp_laws cfg w (ssh_request url c) sess none same none_yet
            net (once sess.id) v in
        cc,
    λ i done.
        let (sess, a, sent, v, is_i) = (keyboard_interactive_auth_iff w url c i).0 done in
        let (a', is_a, backed) =
          Approves-Backed L S laws idp idp_laws cfg w (ssh_request url c) sess (some a) same
            none_yet net (once sess.id) v in
        let named : a'.identity ≡ i = sym (ap (λ x. x.identity) (some_artifact is_a)) ∙ is_i in
        (
          ap (normalizer_of cfg.identity_normalizer)
                (sym named ∙ ap (λ x. x.identity) backed.content)
              ∙ backed.is_user,
          sess,
          a',
          v.started,
          named,
          backed,
        ),
  )
