-- ===== src/System/Single.antt =====
-- How many polls for one session are answered with an artifact, over all calls that the broker serves.
use xdauth.Broker.{Broker, IdentityProvider}
use xdauth.Broker.Poll.{hands_out}
use xdauth.Broker.Poll.Laws.{handle_poll-handed}
use xdauth.Config.{Config}
use xdauth.Machine.{expire_if_needed, bind_identity, approve, poll}
use xdauth.Machine.Steps.{new_session-Fresh}
use xdauth.Machine.Trace.{Event, begins, expires, binds, submits, polls, step, count_if}
use xdauth.Machine.Trace.Limits.{release_once, release_consumes, step-consumed}
use xdauth.Platform.{Platform}
use xdauth.Prelude.{
  ℕ, ◌≤◌, ◌≡◌, ◌≢◌, refl, sym, ap, subst, ◌∙◌, ◌⊎◌, inl, inr, Bool, true, false, ◌&&◌, List, [],
  ◌∷◌, none, some, arith, Bool-cases,
}
use xdauth.Prelude.Int.{pos_part}
use xdauth.RateLimit.{Limiting}
use xdauth.Session.{Time, Session}
use xdauth.Store.{Store, StoreLaws, Steadfast, found}
use xdauth.System.{
  Call, start_call, verify_call, callback_call, approve_call, poll_call, IdpLaws, serve, History,
  started, served, evicted,
}
use xdauth.System.Grants.{Started, started_now, started_before, Made-Started}
use xdauth.System.Invariant.{Sound, origin_id}
use xdauth.System.Invariant.Calls.{History-Sound}
use xdauth.System.Provenance.{started_by}
use xdauth.System.Touch.{makes, untouched, stepped, made, serve-Touch}
use xdauth.Text.{Text, text_eq}
use xdauth.Text.Laws.{text_eq_iff, text_eq_refl}

-- How many of the calls are starts that would make a session of this id.
unfoldable pub made_in : Text → List Call → ℕ
made_in id [] = 0
made_in id (c ∷ cs) = count_if (makes id c) (made_in id cs)

-- Whether the call is a poll for the session `id`.
abbrev pub polls_for : Text → Call → Bool
polls_for id (poll_call r (some req) now) = text_eq req.session_id id
polls_for id _ = false

module _ ⦃sys : Platform⦄ (L : Limiting) (S : Store) (idp : IdentityProvider) where
  -- Whether the call is a poll for the session `id` that is answered with an artifact.
  abbrev pub hands_out_for : Text → Broker L S → Call → Bool
  hands_out_for id b c = polls_for id c && hands_out (serve L S idp b c).1.body

  -- How many polls for the session `id` were answered with an artifact.
  pub handed_out :
      {start : Broker L S} {cs : List Call} {b : Broker L S} → Text → History L S idp start cs b → ℕ
  handed_out id started = 0
  handed_out id (served {b = b} c h) = count_if (hands_out_for id b c) (handed_out id h)
  handed_out id (evicted db w h) = handed_out id h

module _ ⦃sys : Platform⦄ (L : Limiting) (S : Store) (laws : StoreLaws S) (steadfast : Steadfast S)
    (idp : IdentityProvider) (idp_laws : IdpLaws idp) (cfg : Config L) where
  -- Every session that is found under `id` has given its artifact away.
  abbrev Spent : Text → S.Db → Type 0
  Spent id db = (later : Time) (x : Session) → S.get db later id ≡ found x → x.consumed ≡ true

  step-id :
      (b : Broker L S) (s : Session) (e : Event)
      → (step b.cfg.identity_normalizer (pos_part b.cfg.artifact_ttl) s e).id ≡ s.id
  unfolding step poll approve bind_identity expire_if_needed
  step-id b s (polls v now) = ground arith
  step-id b s (begins p st n v r) = refl
  step-id b s (expires now) = ground arith
  step-id b s (binds i now h r) = ground arith
  step-id b s (submits c d now p) = ground arith

  Started-made_in : {s : Session} {cs : List Call} → Started L S idp cfg s cs → 1 ≤ made_in s.id cs
  unfolding made_in makes
  Started-made_in {s = s}
        (started_now {cs = cs}
          (started_by {r} {req} {now} {ib} {cb} verified client fields method network fresh)) =
      let n = new_session-Fresh _ _ _ now ib cb s fresh in
      ground (arith, n.id_drawn, text_eq_refl s.id)
  Started-made_in (started_before st) = ground (arith, Started-made_in st)

  -- A session that is there was made by a start.
  found-made_in :
      {cs : List Call} {b : Broker L S} {now : Time} {id : Text} {s : Session}
      → Sound L S laws idp idp_laws cfg cs b
      → S.get b.db now id ≡ found s
      → 1 ≤ made_in id cs
  found-made_in {cs = cs} v g =
      let (same, t) = v.traced _ _ _ g in
      subst (λ i. 1 ≤ made_in i cs) (sym (origin_id L S laws idp idp_laws cfg t) ∙ same)
        (Started-made_in (Made-Started L S idp cfg t.origin t.made))

  -- What holds of a session all along: no artifact was handed out, or one was and the session is spent.
  abbrev Once :
      {start : Broker L S} {cs : List Call} {b : Broker L S}
      → Text
      → History L S idp start cs b
      → Type 0
  Once {cs = cs} {b = b} id h =
      (handed_out L S idp id h ≡ 0)
      ⊎ ((handed_out L S idp id h ≡ 1) × (1 ≤ made_in id cs) × Spent id b.db)

  serve-Spent :
      {cs : List Call} {b : Broker L S} (id : Text) (c : Call)
      → Sound L S laws idp idp_laws cfg cs b
      → 1 ≤ made_in id cs
      → made_in id (c ∷ cs) ≤ 1
      → Spent id b.db
      → Spent id (serve L S idp b c).0.db
  unfolding made_in
  serve-Spent {b = b} id c v l m spent later x g = elim (serve-Touch L S idp idp_laws b c) [
    | untouched same ↦ spent later x (ap (λ d. S.get d later id) (sym same) ∙ g)
    | stepped now i s e h new ↦
        let y = step b.cfg.identity_normalizer (pos_part b.cfg.artifact_ttl) s e in
        let (same, t) = v.traced now i s h in
        elim (laws.found-update b.db now later y x id (ap (λ d. S.get d later id) (sym new) ∙ g)) [
          | inr old ↦ spent later x old
          | inl (there, here) ↦
              let here_id : i ≡ id = sym same ∙ sym (step-id b s e) ∙ there in
              let used = spent now s (subst (λ k. S.get b.db now k ≡ found s) here_id h) in
              ap (λ z. z.consumed) here
              ∙ step-consumed b.cfg.identity_normalizer (pos_part b.cfg.artifact_ttl) s e used
        ]
    | made now s makes_it new ↦
        elim (laws.found-create b.db now later s x id (ap (λ d. S.get d later id) (sym new) ∙ g)) [
          | inr old ↦ spent later x old
          | inl (there, here) ↦
              let it : makes id c ≡ true = subst (λ k. makes k c ≡ true) there makes_it in
              absurd (ground (arith, it))
        ]
  ]

  -- A poll that is answered with an artifact found a session that was not spent, and spends it.
  record Handing (id : Text) (b : Broker L S) (db : S.Db) : Type 0 where
    was_there : (now : Time) × (s : Session) × (S.get b.db now id ≡ found s) × (s.consumed ≡ false)
    is_spent : Spent id db

  handed-Spent :
      {cs : List Call} {b : Broker L S} (id : Text) (c : Call)
      → Sound L S laws idp idp_laws cfg cs b
      → hands_out_for L S idp id b c ≡ true
      → Handing id b (serve L S idp b c).0.db
  unfolding serve step
  handed-Spent {b = b} id (poll_call r (some req) now) v h =
      let (q, s, e, g, released, new) = handle_poll-handed L S b r (some req) now (ground arith) in
      let ttl = pos_part b.cfg.artifact_ttl in
      let f = b.cfg.identity_normalizer in
      let ev = polls q.code_verifier now in
      let here_id : q.session_id ≡ id = ground (arith, e, text_eq_iff req.session_id id) in
      let here : S.get b.db now id ≡ found s = subst (λ k. S.get b.db now k ≡ found s) here_id g in
      let (same, t) = v.traced now id s here in
      let y = step f ttl s ev in
      record {
        was_there = (now, s, here, ground (arith, release_once f ttl s ev, released));
        is_spent = λ later x k.
            let held : S.get b.db now y.id ≡ found s =
              subst (λ i. S.get b.db now i ≡ found s) (sym (step-id b s ev ∙ same)) here in
            let k' : S.get (S.update b.db now y).0 later y.id ≡ found x =
              subst (λ i. S.get (S.update b.db now y).0 later i ≡ found x)
                (sym (step-id b s ev ∙ same)) (ap (λ d. S.get d later id) (sym new) ∙ k) in
            ap (λ z. z.consumed) (steadfast.replaced b.db now later y s x held k')
            ∙ release_consumes f ttl s ev released;
      }
  handed-Spent id (poll_call r none now) v h = absurd (ground arith)
  handed-Spent id (start_call r body now ib cb) v h = absurd (ground arith)
  handed-Spent id (verify_call r i now fresh) v h = absurd (ground arith)
  handed-Spent id (callback_call r now sb cb) v h = absurd (ground arith)
  handed-Spent id (approve_call r now) v h = absurd (ground arith)

  step-Once :
      {start : Broker L S} {cs : List Call} {b : Broker L S} (id : Text) (c : Call)
      (h : History L S idp start cs b)
      → Sound L S laws idp idp_laws cfg cs b
      → made_in id (c ∷ cs) ≤ 1
      → Once id h
      → Once id (served c h)
  unfolding handed_out made_in
  step-Once {cs = cs} {b = b} id c h v m o = elim (Bool-cases (hands_out_for L S idp id b c)) [
    | inl given ↦
        let d = handed-Spent id c v given in
        let (now, s, g, unused) = d.was_there in
        let l = found-made_in v g in
        elim o [
          | inl zero_so_far ↦ inr (ground (arith, given), ground (arith, l), d.is_spent)
          | inr (one, l', spent) ↦ absurd (ground (arith, spent now s g))
        ]
    | inr kept ↦ elim o [
      | inl zero_so_far ↦ inl (ground (arith, kept))
      | inr (one, l, spent) ↦
          inr (ground (arith, kept), ground (arith, l), serve-Spent id c v l m spent)
    ]
  ]

  History-Once :
      {start : Broker L S} {cs : List Call} {b : Broker L S} (id : Text)
      → start.cfg ≡ cfg
      → ((later : Time) (id : Text) (x : Session) → S.get start.db later id ≢ found x)
      → made_in id cs ≤ 1
      → (h : History L S idp start cs b) → Once id h
  unfolding handed_out made_in
  History-Once id same none_yet m started = inl refl
  History-Once id same none_yet m (served {cs = cs} c h) =
      step-Once id c h (History-Sound L S laws idp idp_laws cfg same none_yet h) m
        (History-Once id same none_yet (ground (arith, m)) h)
  History-Once id same none_yet m (evicted db w h) = elim (History-Once id same none_yet m h) [
    | inl zero_so_far ↦ inl zero_so_far
    | inr (one, l, spent) ↦ inr (one, l, λ later x g. spent later x (w later id x g))
  ]

  -- Of calls that are served one after the other, from a store without sessions on, over any store that
  -- keeps its laws and takes every update of a session it holds: of a session whose id at most one start
  -- drew, at most one poll is answered with an artifact.
  pub handed_out-le :
      {start : Broker L S} {cs : List Call} {b : Broker L S} (id : Text)
      → start.cfg ≡ cfg
      → ((later : Time) (id : Text) (x : Session) → S.get start.db later id ≢ found x)
      → made_in id cs ≤ 1
      → (h : History L S idp start cs b) → handed_out L S idp id h ≤ 1
  handed_out-le id same none_yet m h = ground (arith, History-Once id same none_yet m h)
