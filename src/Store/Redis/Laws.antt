-- ===== src/Store/Redis/Laws.antt =====
-- `Redis` of redis.go against the interface, and what it relies on.
use xdauth.Prelude.{
  ◌<◌, ◌≡◌, ◌≢◌, ◌⊎◌, refl, ap, true, false, ◌++◌, [], ◌∷◌, none, some, arith, Option-cases, inl,
  inr,
}
use xdauth.Session.{Time, Duration, Session}
use xdauth.Store.{not_found, found, missing, StoreLawsFor}
use xdauth.Store.Redis.Json.{JsonKeeps}
use xdauth.Store.Redis.{
  Reply, value, nil, error, RedisServer, time_to_live, key, write, redis_create, redis_get,
  redis_update, redis_store,
}
use xdauth.Text.{Text, text_eq}
use xdauth.Text.Laws.{text_eq_iff}

-- What Redis and encoding/json document, as far as the store relies on it: a value set with a time to
-- live above 0 is there at once, other keys stay, GET finds under a key, whatever the outcome of a SET
-- and at any time, only what was set under it or was there before, EXISTS agrees with GET, and a
-- session decodes from its encoding if its texts are valid UTF-8 and its claims are as JSON writes
-- them.
pub record ServerLaws (R : RedisServer) : Type 0 where
  pub get-set :
      (db : R.Server) (t : Time) (k v : Text) (ttl : Duration)
      → 0 < ttl
      → (R.rset db t k v ttl).1 ≡ true
      → R.rget (R.rset db t k v ttl).0 t k ≡ value v
  pub get-set_other :
      (db : R.Server) (t : Time) (k j v : Text) (ttl : Duration)
      → k ≢ j
      → R.rget (R.rset db t k v ttl).0 t j ≡ R.rget db t j
  pub value-set :
      (db : R.Server) (t later : Time) (k v w j : Text) (ttl : Duration)
      → R.rget (R.rset db t k v ttl).0 later j ≡ value w
      → ((k ≡ j) × (w ≡ v)) ⊎ (R.rget db later j ≡ value w)
  pub exists_nil :
      (db : R.Server) (t : Time) (k : Text) → R.rget db t k ≡ nil → R.rexists db t k ≡ some false
  pub decode-encode :
      (s : Session) (raw : Text)
      → JsonKeeps R.is_number s
      → R.encode s ≡ some raw
      → R.decode raw ≡ some s

-- A key never gets a time to live of 0, which Redis would take for none.
pub time_to_live_pos : (s : Session) (now : Time) → 0 < time_to_live s now
unfolding time_to_live
time_to_live_pos s now = ground arith

prefix_injective : (p a b : Text) → p ++ a ≡ p ++ b → a ≡ b
prefix_injective [] a b h = h
prefix_injective (c ∷ p) a b h = prefix_injective p a b (ap tail_of h)
  where
    tail_of : Text → Text
    tail_of [] = []
    tail_of (x ∷ xs) = xs

reply_cases : (r : Reply) → ((w : Text) × (r ≡ value w)) ⊎ ((r ≡ nil) ⊎ (r ≡ error))
reply_cases (value w) = inl (w, refl)
reply_cases nil = inr (inl refl)
reply_cases error = inr (inr refl)

module _ (R : RedisServer) (p : Text) (L : ServerLaws R) where
  get-write :
      (db : R.Server) (t : Time) (s : Session)
      → JsonKeeps R.is_number s
      → (write R p db t s).1 ≡ none
      → redis_get R p (write R p db t s).0 t s.id ≡ found s
  unfolding write redis_get
  get-write db t s keeps h = elim (Option-cases (R.encode s)) [
    | inl e ↦ absurd (ground arith)
    | inr (raw, e) ↦ ground (
      arith,
      L.get-set db t (key R p s.id) raw (time_to_live s t),
      time_to_live_pos s t,
      L.decode-encode s raw keeps e,
    )
  ]

  get-write_other :
      (db : R.Server) (t : Time) (s : Session) (id : Text)
      → text_eq s.id id ≡ false
      → redis_get R p (write R p db t s).0 t id ≡ redis_get R p db t id
  unfolding write redis_get
  get-write_other db t s id h = elim (Option-cases (R.encode s)) [
    | inl e ↦ ground arith
    | inr (raw, e) ↦
        let apart : key R p s.id ≢ key R p id =
          λ q. ground (arith, prefix_injective p s.id id q, text_eq_iff s.id id) in
        ground
          (arith, L.get-set_other db t (key R p s.id) (key R p id) raw (time_to_live s t) apart)
  ]

  get-redis_update :
      (db : R.Server) (t : Time) (s : Session)
      → JsonKeeps R.is_number s
      → (redis_update R p db t s).1 ≡ none
      → redis_get R p (redis_update R p db t s).0 t s.id ≡ found s
  unfolding redis_update
  get-redis_update db t s keeps h = elim (Option-cases (R.rexists db t (key R p s.id))) [
    | inl e ↦ absurd (ground arith)
    | inr (false, e) ↦ absurd (ground arith)
    | inr (true, e) ↦ rw (e, redis_update) (get-write db t s keeps (rw (e, redis_update) at h))
  ]

  get-redis_update_other :
      (db : R.Server) (t : Time) (s : Session) (id : Text)
      → text_eq s.id id ≡ false
      → redis_get R p (redis_update R p db t s).0 t id ≡ redis_get R p db t id
  unfolding redis_update
  get-redis_update_other db t s id h = elim (Option-cases (R.rexists db t (key R p s.id))) [
    | inl e ↦ rw (e, redis_update)
    | inr (false, e) ↦ rw (e, redis_update)
    | inr (true, e) ↦ rw (e, redis_update) (get-write_other db t s id h)
  ]

  redis_update_missing :
      (db : R.Server) (t : Time) (s : Session)
      → redis_get R p db t s.id ≡ missing not_found
      → redis_update R p db t s ≡ (db, some not_found)
  unfolding redis_update redis_get
  redis_update_missing db t s h = ground (arith, L.exists_nil db t (key R p s.id))

  redis_get-found :
      (db : R.Server) (t : Time) (id : Text) (x : Session)
      → redis_get R p db t id ≡ found x
      → (w : Text) × (R.rget db t (key R p id) ≡ value w) × (R.decode w ≡ some x)
  unfolding redis_get
  redis_get-found db t id x h = elim (reply_cases (R.rget db t (key R p id))) [
    | inl (w, e) ↦ (w, e, ground arith)
    | inr (inl e) ↦ absurd (ground arith)
    | inr (inr e) ↦ absurd (ground arith)
  ]

  found-set :
      (db : R.Server) (t later : Time) (s x : Session) (id raw : Text)
      → JsonKeeps R.is_number s
      → R.encode s ≡ some raw
      → let db' = (R.rset db t (key R p s.id) raw (time_to_live s t)).0 in
        redis_get R p db' later id ≡ found x
        → ((s.id ≡ id) × (x ≡ s)) ⊎ (redis_get R p db later id ≡ found x)
  unfolding redis_get
  found-set db t later s x id raw keeps e h =
      let db' : R.Server = (R.rset db t (key R p s.id) raw (time_to_live s t)).0 in
      let (w, g, d) = redis_get-found db' later id x h in
      let c = L.value-set db t later (key R p s.id) raw w (key R p id) (time_to_live s t) g in
      ground (
        arith,
        c,
        prefix_injective p s.id id,
        L.decode-encode s raw keeps e,
        ap R.decode {x = w} {y = raw},
      )

  found-write :
      (db : R.Server) (t later : Time) (s x : Session) (id : Text)
      → JsonKeeps R.is_number s
      → redis_get R p (write R p db t s).0 later id ≡ found x
      → ((s.id ≡ id) × (x ≡ s)) ⊎ (redis_get R p db later id ≡ found x)
  unfolding write
  found-write db t later s x id keeps h = elim (Option-cases (R.encode s)) [
    | inl e ↦ inr (rw (e, write) at h)
    | inr (raw, e) ↦ found-set db t later s x id raw keeps e (rw (e, write) at h)
  ]

  found-redis_update :
      (db : R.Server) (t later : Time) (s x : Session) (id : Text)
      → JsonKeeps R.is_number s
      → redis_get R p (redis_update R p db t s).0 later id ≡ found x
      → ((s.id ≡ id) × (x ≡ s)) ⊎ (redis_get R p db later id ≡ found x)
  unfolding redis_update
  found-redis_update db t later s x id keeps h =
      elim (Option-cases (R.rexists db t (key R p s.id))) [
        | inl e ↦ inr (rw (e, redis_update) at h)
        | inr (false, e) ↦ inr (rw (e, redis_update) at h)
        | inr (true, e) ↦ found-write db t later s x id keeps (rw (e, redis_update) at h)
      ]

  -- Over a server and an encoding that keep these laws `Redis` is a store for the sessions that JSON
  -- gives back, which are those of valid UTF-8 with claims as JSON writes them: for these it keeps all
  -- laws of the interface, whatever its key prefix.
  pub redis_store-StoreLawsFor : StoreLawsFor (redis_store R p) (JsonKeeps R.is_number)
  unfolding redis_create
  redis_store-StoreLawsFor = record {
    get-create = get-write;
    get-create_other = get-write_other;
    get-update = get-redis_update;
    get-update_other = get-redis_update_other;
    found-create = found-write;
    found-update = found-redis_update;
    update_missing = redis_update_missing;
  }
