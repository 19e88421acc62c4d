-- ===== src/Store/Redis.antt =====
-- internal/store/redis.go: sessions as JSON under keys that Redis itself lets expire.
pub mod Json
pub mod Laws
use xdauth.Prelude.{
  ℕ, ◌+◌, ◌-◌, ◌*◌, ◌<◌, ◌≡◌, Bool, true, false, [], ◌++◌, Option, none, some, ltb, is_empty,
  if◌then◌else◌,
}
use xdauth.Detect.{second}
use xdauth.Session.{Time, Duration, Session}
use xdauth.Store.{StoreError, not_found, failed, Fetched, found, missing, Store}
use xdauth.Text.{Text, bytes}

-- A reply of the client: a value, no such key (`redis.Nil`), or an error.
pub data Reply : Type 0 where
  value : Text → Reply
  nil : Reply
  error : Reply

-- The server behind the client, which is go-redis, and encoding/json.
pub record RedisServer : Type 1 where
  pub Server : Type 0
  pub rget : Server → Time → Text → Reply
  -- `EXISTS` of one key; `none` is an error
  pub rexists : Server → Time → Text → Option Bool
  -- `SET` with a time to live, and whether it succeeded
  pub rset : Server → Time → Text → Text → Duration → Server × Bool
  -- `none` is an error
  pub encode : Session → Option Text
  pub decode : Text → Option Session
  -- whether encoding/json writes this text for a `float64`
  pub is_number : Text → Bool

-- `NewRedis`
unfoldable pub prefix_or_default : Text → Text
prefix_or_default p = if is_empty p then bytes "xdauth:session:" else p

-- `time.Until(...)` past twice the TTL, or a minute where that is over.
pub time_to_live : Session → Time → Duration
time_to_live s now =
    let until = s.expires_at + (s.expires_at - s.created_at) in
    if ltb now until then until - now else 60 * second

module _ (R : RedisServer) (key_prefix : Text) where
  open R use {Server, rget, rexists, rset, encode, decode}

  abbrev pub key : Text → Text
  key id = key_prefix ++ id

  pub write : Server → Time → Session → Server × Option StoreError
  write db now s = elim (encode s) [
    | none ↦ (db, some failed)
    | some raw ↦
        let (db', done) = rset db now (key s.id) raw (time_to_live s now) in
        (db', if done then none else some failed)
  ]

  pub redis_create : Server → Time → Session → Server × Option StoreError
  unfolding write
  redis_create db now s = write db now s

  abbrev pub decoded : Option Session → Fetched
  decoded none = missing failed
  decoded (some s) = found s

  pub redis_get : Server → Time → Text → Fetched
  redis_get db now id = elim (rget db now (key id)) [
    | nil ↦ missing not_found
    | error ↦ missing failed
    | value raw ↦ decoded (decode raw)
  ]

  pub redis_update : Server → Time → Session → Server × Option StoreError
  unfolding write
  redis_update db now s = elim (rexists db now (key s.id)) [
    | none ↦ (db, some failed)
    | some false ↦ (db, some not_found)
    | some true ↦ write db now s
  ]

  abbrev pub redis_store : Store
  redis_store = record {
    Db = Server;
    create = redis_create;
    get = redis_get;
    update = redis_update;
  }
