-- ===== src/Broker/Approve/Laws.antt =====
-- What `handleApprove` stores.
use xdauth.Broker.{Broker}
use xdauth.Broker.Approve.{
  ApproveRequest, approve_request, handle_approve, approve_session, after_approve,
}
use xdauth.Broker.Cookies.{read_session_cookie, read_approval_cookie, constant_time_string_equal}
use xdauth.Broker.Frame.{observe_event-SameStore, Fetched-cases}
use xdauth.Broker.Verify.{update_quietly}
use xdauth.ClientIp.{resolve_client_ip}
use xdauth.Detect.{wrong_code}
use xdauth.Http.{Request, or_empty}
use xdauth.Machine.{Error, approve}
use xdauth.Platform.{Platform}
use xdauth.Prelude.{
  ◌≡◌, refl, ◌⊎◌, inl, inr, true, false, List, Option, some, arith, is_empty, Bool-cases,
  Option-cases, subst,
}
use xdauth.RateLimit.{Limiting}
use xdauth.Session.{Time, Session}
use xdauth.Store.{Store, found}
use xdauth.Text.{Text}
use xdauth.Text.Laws.{text_eq_iff, text_eq_refl, constant_time_compare_lem}

-- The comparison of the CSRF tokens passes only for equal tokens that are not empty.
pub constant_time_string_equal_sound :
    (a b : Text) → constant_time_string_equal a b ≡ true → (a ≡ b) × (is_empty a ≡ false)
unfolding constant_time_string_equal
constant_time_string_equal_sound a b h =
    ground (arith, text_eq_iff a b, constant_time_compare_lem a b)

pub constant_time_string_equal_refl :
    (a : Text) → is_empty a ≡ false → constant_time_string_equal a a ≡ true
unfolding constant_time_string_equal
constant_time_string_equal_refl a h = ground (arith, text_eq_refl a, constant_time_compare_lem a a)

module _ ⦃sys : Platform⦄ (L : Limiting) (S : Store) where
  pub after_approve-db :
      (b : Broker L S) (r : Request) (s : Session) (e : Option Error) (now : Time)
      → (after_approve L S b r s e now).0.db ≡ b.db
  unfolding after_approve
  after_approve-db b r s e now =
      let ip = resolve_client_ip r b.cfg.trusted_proxies in
      let o = observe_event-SameStore L S b wrong_code ip s.id now in ground (arith, o.same_db)

  -- The session as `approve` leaves it for this form and these cookies.
  abbrev pub approved_by : Request → ApproveRequest → Session → Time → Session
  approved_by r req s now =
      (approve s req.user_code req.approve now (or_empty (read_approval_cookie r))).0

  pub approve_session-db :
      (b : Broker L S) (r : Request) (req : ApproveRequest) (s : Session) (now : Time)
      → let b' = (approve_session L S b r req s now).0 in
        (b'.db ≡ b.db)
        ⊎ ((req.csrf_token ≡ s.csrf_token)
            × (is_empty req.csrf_token ≡ false)
            × (b'.db ≡ (S.update b.db now (approved_by r req s now)).0))
  unfolding approve_session
  approve_session-db b r req s now =
      let (s', err) = approve s req.user_code req.approve now (or_empty (read_approval_cookie r)) in
      elim (Bool-cases (constant_time_string_equal req.csrf_token s.csrf_token)) [
        | inl e ↦
            let (same, full) = constant_time_string_equal_sound req.csrf_token s.csrf_token e in
            inr (
              same,
              full,
              rw (e, approve_session) (after_approve-db (update_quietly L S b now s') r s' err now),
            )
        | inr e ↦ inl (rw (e, approve_session) refl)
      ]

  pub handle_approve-step :
      (b : Broker L S) (r : Request) (now : Time) (id : Text) (m : List (Text × Text)) (s : Session)
      → read_session_cookie r ≡ some id
      → r.form ≡ some m
      → S.get b.db now id ≡ found s
      → handle_approve L S b r now ≡ approve_session L S b r (approve_request r id) s now
  unfolding handle_approve
  handle_approve-step b r now id m s c f g = ground arith

  -- What a form that finds `s` writes.
  abbrev pub Wrote : Broker L S → Request → Time → Text → Session → S.Db → Type 0
  Wrote b r now id s db =
      (read_session_cookie r ≡ some id)
      × (S.get b.db now id ≡ found s)
      × ((approve_request r id).csrf_token ≡ s.csrf_token)
      × (is_empty s.csrf_token ≡ false)
      × (db ≡ (S.update b.db now (approved_by r (approve_request r id) s now)).0)

  handle_approve-found :
      (b : Broker L S) (r : Request) (now : Time) (id : Text) (m : List (Text × Text)) (s : Session)
      → read_session_cookie r ≡ some id
      → r.form ≡ some m
      → S.get b.db now id ≡ found s
      → let b' = (handle_approve L S b r now).0 in
        (b'.db ≡ b.db) ⊎ ((id : Text) × (s : Session) × Wrote b r now id s b'.db)
  handle_approve-found b r now id m s c f g =
      let step = handle_approve-step b r now id m s c f g in
      elim (approve_session-db b r (approve_request r id) s now) [
        | inl same ↦ inl (rw step same)
        | inr (same, full, new) ↦
            inr (id, s, (c, g, same, subst (λ t. is_empty t ≡ false) same full, rw step new))
      ]

  -- A form writes nothing, or it carries the CSRF token of the session of its cookie, which is not
  -- empty, and writes that session as `approve` leaves it.
  pub handle_approve-db :
      (b : Broker L S) (r : Request) (now : Time)
      → let b' = (handle_approve L S b r now).0 in
        (b'.db ≡ b.db) ⊎ ((id : Text) × (s : Session) × Wrote b r now id s b'.db)
  unfolding handle_approve
  handle_approve-db b r now = elim (Option-cases (read_session_cookie r)) [
    | inl c ↦ inl (rw (c, handle_approve))
    | inr (id, c) ↦ elim (Option-cases r.form) [
      | inl f ↦ inl (ground arith)
      | inr (m, f) ↦ elim (Fetched-cases (S.get b.db now id)) [
        | inl (x, g) ↦ inl (ground arith)
        | inr (s, g) ↦ handle_approve-found b r now id m s c f g
      ]
    ]
  ]
