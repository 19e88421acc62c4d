-- ===== src/Deployment/Origin.antt =====
-- Which call made a session, where only one start drew its id.
use xdauth.Broker.{IdentityProvider}
use xdauth.Config.{Config}
use xdauth.Deployment.{Earlier, now, before}
use xdauth.Machine.{normalizer_of}
use xdauth.Machine.Steps.{new_session-Fresh}
use xdauth.Platform.{Platform}
use xdauth.Prelude.{◌≤◌, ◌≡◌, refl, sym, ap, true, List, ◌∷◌, Option, none, some, arith}
use xdauth.RateLimit.{Limiting}
use xdauth.Session.{Time, Identity, Session}
use xdauth.Store.{Store}
use xdauth.System.{Call, start_call}
use xdauth.System.Grants.{
  Started, started_now, started_before, SignedIn, signed_in_now, signed_in_before, ApprovedBy,
  approved_by_now, approved_by_before,
}
use xdauth.System.Provenance.{StartedBy, started_by}
use xdauth.System.Single.{made_in}
use xdauth.System.Touch.{makes}
use xdauth.Text.{Text}
use xdauth.Text.Laws.{text_eq_refl}
use xdauth.UserCode.{generate_user_code}

-- The call is one of these.
pub data Called (c : Call) : List Call → Type 0 where
  latest : {cs : List Call} → Called c (c ∷ cs)
  past : {cs : List Call} {d : Call} → Called c cs → Called c (d ∷ cs)

pub Earlier-Called : {c : Call} {cs ds : List Call} → Earlier (c ∷ cs) ds → Called c ds
Earlier-Called now = latest
Earlier-Called (before d e) = past (Earlier-Called e)

Called-made_in :
    {c : Call} {cs : List Call} (id : Text) → Called c cs → makes id c ≡ true → 1 ≤ made_in id cs
unfolding made_in
Called-made_in id latest m = ground (arith, m)
Called-made_in id (past k) m = ground (arith, Called-made_in id k m)

-- Two calls that make one session are one, where at most one is made.
pub same_call :
    {c d : Call} {cs : List Call} (id : Text)
    → Called c cs
    → Called d cs
    → makes id c ≡ true
    → makes id d ≡ true
    → made_in id cs ≤ 1
    → c ≡ d
unfolding made_in
same_call id latest latest m n l = refl
same_call id latest (past k) m n l = absurd (ground (arith, Called-made_in id k n, m))
same_call id (past k) latest m n l = absurd (ground (arith, Called-made_in id k m, n))
same_call id (past k) (past j) m n l = same_call id k j m n (ground (arith, l))

-- The login hint of a start, and the code that it draws.
abbrev pub hint_in : Call → Option Text
hint_in (start_call r (some req) t ib cb) = some req.login_hint
hint_in _ = none

abbrev pub code_in : Call → Option Text
code_in (start_call r body t ib cb) = generate_user_code cb
code_in _ = none

module _ ⦃sys : Platform⦄ (L : Limiting) (S : Store) (idp : IdentityProvider) (cfg : Config L) where
  -- The start of a session is among the calls, with its hint and its code.
  pub record Birth (s : Session) (cs : List Call) : Type 0 where
    pub call : Call
    pub is_called : Called call cs
    pub makes_it : makes s.id call ≡ true
    pub hint : hint_in call ≡ some s.login_hint
    pub code : code_in call ≡ some s.user_code

  StartedBy-Birth :
      {s : Session} {c : Call} {cs : List Call} → StartedBy L S idp cfg s c → Birth s (c ∷ cs)
  unfolding makes
  StartedBy-Birth {s = s}
        (started_by {r} {req} {now = t} {ib} {cb} verified client fields method network fresh) =
      let n = new_session-Fresh _ _ _ t ib cb s fresh in
      record {
        call = start_call r (some req) t ib cb;
        is_called = latest;
        makes_it = ground (arith, n.id_drawn, text_eq_refl s.id);
        hint = ap some (sym n.hint);
        code = n.code_drawn;
      }

  pub Started-Birth : {s : Session} {cs : List Call} → Started L S idp cfg s cs → Birth s cs
  Started-Birth (started_now st) = StartedBy-Birth st
  Started-Birth (started_before st) =
      let b = Started-Birth st in
      record {
        call = b.call;
        is_called = past b.is_called;
        makes_it = b.makes_it;
        hint = b.hint;
        code = b.code;
      }

  pub Earlier-ApprovedBy :
      {s : Session} {i : Identity} {t : Time} {h : Text} {cs ds : List Call}
      → Earlier cs ds
      → ApprovedBy L S idp cfg s i t h cs
      → ApprovedBy L S idp cfg s i t h ds
  Earlier-ApprovedBy now a = a
  Earlier-ApprovedBy (before c e) a = approved_by_before (Earlier-ApprovedBy e a)

  SignedIn-Started :
      {s : Session} {i : Identity} {t : Time} {h : Text} {cs : List Call}
      → SignedIn L S idp cfg s i t h cs
      → Started L S idp cfg s cs
  SignedIn-Started (signed_in_now secret es cookie vouched same fresh k l st) = started_before st
  SignedIn-Started (signed_in_before k) = started_before (SignedIn-Started k)

  pub ApprovedBy-Started :
      {s : Session} {i : Identity} {t : Time} {h : Text} {cs : List Call}
      → ApprovedBy L S idp cfg s i t h cs
      → Started L S idp cfg s cs
  ApprovedBy-Started (approved_by_now cookie d c p l k) = started_before (SignedIn-Started k)
  ApprovedBy-Started (approved_by_before k) = started_before (ApprovedBy-Started k)

  SignedIn-matches :
      {s : Session} {i : Identity} {t : Time} {h : Text} {cs : List Call}
      → SignedIn L S idp cfg s i t h cs
      → normalizer_of cfg.identity_normalizer i.value
        ≡ normalizer_of cfg.identity_normalizer s.login_hint
  SignedIn-matches (signed_in_now secret es cookie vouched same fresh k l st) = same
  SignedIn-matches (signed_in_before k) = SignedIn-matches k

  -- The identity of an approval matches the session's login hint.
  pub ApprovedBy-matches :
      {s : Session} {i : Identity} {t : Time} {h : Text} {cs : List Call}
      → ApprovedBy L S idp cfg s i t h cs
      → normalizer_of cfg.identity_normalizer i.value
        ≡ normalizer_of cfg.identity_normalizer s.login_hint
  ApprovedBy-matches (approved_by_now cookie d c p l k) = SignedIn-matches k
  ApprovedBy-matches (approved_by_before k) = ApprovedBy-matches k
