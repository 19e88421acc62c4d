-- ===== src/Store/Memory.antt =====
-- `Memory` of internal/store/store.go: a map of sessions, and its sweeper.
pub mod Laws
use xdauth.Prelude.{
  ℕ, ◌+◌, ◌-◌, Bool, true, false, List, [], ◌∷◌, Option, none, some, ltb, if◌then◌else◌,
}
use xdauth.Session.{Time, Session}
use xdauth.Store.{StoreError, not_found, Fetched, found, missing, Store}
use xdauth.Text.{Text, text_eq}

-- The map, as a list in which an id stands once.
abbrev pub Memory : Type 0
Memory = List (Text × Session)

unfoldable pub new_memory : Memory
new_memory = []

unfoldable pub find : Text → Memory → Option Session
find id [] = none
find id ((j, s) ∷ m) = if text_eq j id then some s else find id m

unfoldable pub put : Text → Session → Memory → Memory
put id s [] = (id, s) ∷ []
put id s ((j, r) ∷ m) = let rest = put id s m in if text_eq j id then (id, s) ∷ m else (j, r) ∷ rest

-- Twice the session's TTL has passed.
abbrev pub is_stale : Time → Session → Bool
is_stale now s = ltb (s.expires_at + (s.expires_at - s.created_at)) now

pub sweep : Time → Memory → Memory
sweep now [] = []
sweep now ((id, s) ∷ m) = let rest = sweep now m in if is_stale now s then rest else (id, s) ∷ rest

unfoldable pub create : Memory → Time → Session → Memory × Option StoreError
unfolding put
create m now s = (put s.id s m, none)

abbrev pub fetched : Option Session → Fetched
fetched none = missing not_found
fetched (some s) = found s

-- The session that it returns is a copy.
unfoldable pub get : Memory → Time → Text → Fetched
unfolding find
get m now id = fetched (find id m)

unfoldable pub update : Memory → Time → Session → Memory × Option StoreError
unfolding find put
update m now s = elim (find s.id m) [ none ↦ (m, some not_found) | some _ ↦ (put s.id s m, none) ]

abbrev pub memory_store : Store
memory_store = record { Db = Memory; create = create; get = get; update = update }
