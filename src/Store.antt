-- ===== src/Store.antt =====
-- The `Store` interface of internal/store/store.go: what the broker asks of a store of sessions, and
-- the laws that it relies on. `Memory` and `Redis` are its two implementations.
pub mod Memory
pub mod Redis
use xdauth.Prelude.{ℕ, ◌+◌, ◌-◌, ◌<◌, ◌≡◌, ◌⊎◌, Bool, true, false, Option, none, some}
use xdauth.Session.{Time, Session}
use xdauth.Text.{Text, text_eq}

pub data StoreError : Type 0 where
  -- `ErrNotFound`
  not_found : StoreError
  -- any other error of the store: the network, or what it holds cannot be decoded
  failed : StoreError

pub data Fetched : Type 0 where
  found : Session → Fetched
  missing : StoreError → Fetched

-- The state of a store, and its operations at a time. A `none` is success.
pub record Store : Type 1 where
  pub Db : Type 0
  pub create : Db → Time → Session → Db × Option StoreError
  pub get : Db → Time → Text → Fetched
  pub update : Db → Time → Session → Db × Option StoreError

-- The laws: a session that was stored is what `get` finds at that time, under its id and no other,
-- a session that is not there is not updated, and whatever the outcome of a write, at any time
-- `get` finds under an id only what was written under it or was found there before.
pub record StoreLaws (S : Store) : Type 0 where
  pub get-create :
      (db : S.Db) (t : Time) (s : Session)
      → (S.create db t s).1 ≡ none
      → S.get (S.create db t s).0 t s.id ≡ found s
  pub get-create_other :
      (db : S.Db) (t : Time) (s : Session) (id : Text)
      → text_eq s.id id ≡ false
      → S.get (S.create db t s).0 t id ≡ S.get db t id
  pub get-update :
      (db : S.Db) (t : Time) (s : Session)
      → (S.update db t s).1 ≡ none
      → S.get (S.update db t s).0 t s.id ≡ found s
  pub get-update_other :
      (db : S.Db) (t : Time) (s : Session) (id : Text)
      → text_eq s.id id ≡ false
      → S.get (S.update db t s).0 t id ≡ S.get db t id
  pub found-create :
      (db : S.Db) (t later : Time) (s x : Session) (id : Text)
      → S.get (S.create db t s).0 later id ≡ found x
      → ((s.id ≡ id) × (x ≡ s)) ⊎ (S.get db later id ≡ found x)
  pub found-update :
      (db : S.Db) (t later : Time) (s x : Session) (id : Text)
      → S.get (S.update db t s).0 later id ≡ found x
      → ((s.id ≡ id) × (x ≡ s)) ⊎ (S.get db later id ≡ found x)
  pub update_missing :
      (db : S.Db) (t : Time) (s : Session)
      → S.get db t s.id ≡ missing not_found
      → S.update db t s ≡ (db, some not_found)

-- The same laws for the sessions that a store keeps as they are.
pub record StoreLawsFor (S : Store) (Kept : Session → Type 0) : Type 0 where
  pub get-create :
      (db : S.Db) (t : Time) (s : Session)
      → Kept s
      → (S.create db t s).1 ≡ none
      → S.get (S.create db t s).0 t s.id ≡ found s
  pub get-create_other :
      (db : S.Db) (t : Time) (s : Session) (id : Text)
      → text_eq s.id id ≡ false
      → S.get (S.create db t s).0 t id ≡ S.get db t id
  pub get-update :
      (db : S.Db) (t : Time) (s : Session)
      → Kept s
      → (S.update db t s).1 ≡ none
      → S.get (S.update db t s).0 t s.id ≡ found s
  pub get-update_other :
      (db : S.Db) (t : Time) (s : Session) (id : Text)
      → text_eq s.id id ≡ false
      → S.get (S.update db t s).0 t id ≡ S.get db t id
  pub found-create :
      (db : S.Db) (t later : Time) (s x : Session) (id : Text)
      → Kept s
      → S.get (S.create db t s).0 later id ≡ found x
      → ((s.id ≡ id) × (x ≡ s)) ⊎ (S.get db later id ≡ found x)
  pub found-update :
      (db : S.Db) (t later : Time) (s x : Session) (id : Text)
      → Kept s
      → S.get (S.update db t s).0 later id ≡ found x
      → ((s.id ≡ id) × (x ≡ s)) ⊎ (S.get db later id ≡ found x)
  pub update_missing :
      (db : S.Db) (t : Time) (s : Session)
      → S.get db t s.id ≡ missing not_found
      → S.update db t s ≡ (db, some not_found)

-- A store that takes every update of a session that it holds: from then on it finds under that id
-- nothing else, until the next write.
pub record Steadfast (S : Store) : Type 0 where
  pub replaced :
      (db : S.Db) (t later : Time) (s old x : Session)
      → S.get db t s.id ≡ found old
      → S.get (S.update db t s).0 later s.id ≡ found x
      → x ≡ s

-- A store that keeps what it accepts: a session that it created, and every update of a session that
-- it holds, is found from then on, until the next write.
pub record Durable (S : Store) : Type 0 where
  pub created :
      (db : S.Db) (t later : Time) (s : Session)
      → (S.create db t s).1 ≡ none
      → S.get (S.create db t s).0 later s.id ≡ found s
  pub kept :
      (db : S.Db) (t later : Time) (s old : Session)
      → S.get db t s.id ≡ found old
      → S.get (S.update db t s).0 later s.id ≡ found s
