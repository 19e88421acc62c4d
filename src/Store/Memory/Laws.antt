-- ===== src/Store/Memory/Laws.antt =====
-- `Memory` of store.go against the interface, and its sweeper.
use xdauth.Prelude.{
  ◌+◌, ◌-◌, ◌≤◌, ◌≡◌, ◌↔◌, Option-cases, refl, ◌⊎◌, false, [], ◌∷◌, none, some, arith,
  if◌then◌else◌, subst, Bool-cases, inl, inr,
}
use xdauth.Session.{Time, Session}
use xdauth.Store.{not_found, found, missing, StoreLaws, Steadfast, Durable}
use xdauth.Store.Memory.{Memory, find, put, is_stale, sweep, create, get, update, memory_store}
use xdauth.Text.{Text, text_eq}
use xdauth.Text.Laws.{text_eq_iff, text_eq_sound, text_eq_refl}

find-put :
    (id j : Text) (s : Session) (m : Memory)
    → find j (put id s m) ≡ (if text_eq id j then some s else find j m)
unfolding find put
find-put id j s [] = refl
find-put id j s ((i, r) ∷ m) =
    ground (arith, text_eq_iff id j, text_eq_iff i id, text_eq_iff i j, find-put id j s m)

get-create : (m : Memory) (t : Time) (s : Session) → get (create m t s).0 t s.id ≡ found s
unfolding get create
get-create m t s = ground (arith, find-put s.id s.id s m, text_eq_refl s.id)

get-create_other :
    (m : Memory) (t : Time) (s : Session) (id : Text)
    → text_eq s.id id ≡ false
    → get (create m t s).0 t id ≡ get m t id
unfolding get create
get-create_other m t s id h = ground (arith, find-put s.id id s m)

get-update :
    (m : Memory) (t : Time) (s : Session)
    → (update m t s).1 ≡ none
    → get (update m t s).0 t s.id ≡ found s
unfolding get update
get-update m t s h = ground (arith, find-put s.id s.id s m, text_eq_refl s.id)

get-update_other :
    (m : Memory) (t : Time) (s : Session) (id : Text)
    → text_eq s.id id ≡ false
    → get (update m t s).0 t id ≡ get m t id
unfolding get update
get-update_other m t s id h = ground (arith, find-put s.id id s m)

update_missing :
    (m : Memory) (t : Time) (s : Session)
    → get m t s.id ≡ missing not_found
    → update m t s ≡ (m, some not_found)
unfolding get update
update_missing m t s h = ground arith

found-create :
    (m : Memory) (t later : Time) (s x : Session) (id : Text)
    → get (create m t s).0 later id ≡ found x
    → ((s.id ≡ id) × (x ≡ s)) ⊎ (get m later id ≡ found x)
unfolding get create
found-create m t later s x id h = ground (arith, find-put s.id id s m, text_eq_iff s.id id)

found-update :
    (m : Memory) (t later : Time) (s x : Session) (id : Text)
    → get (update m t s).0 later id ≡ found x
    → ((s.id ≡ id) × (x ≡ s)) ⊎ (get m later id ≡ found x)
unfolding get update
found-update m t later s x id h = ground (arith, find-put s.id id s m, text_eq_iff s.id id)

-- `Memory` is a store: it keeps all laws of the interface.
pub memory_store-StoreLaws : StoreLaws memory_store
memory_store-StoreLaws = record {
  get-create = λ m t s _. get-create m t s;
  get-create_other = get-create_other;
  get-update = get-update;
  get-update_other = get-update_other;
  found-create = found-create;
  found-update = found-update;
  update_missing = update_missing;
}

-- `Memory` takes every update of a session that it holds.
pub memory_store-Steadfast : Steadfast memory_store
unfolding get update
memory_store-Steadfast = record {
  replaced = λ m t later s old x held g. ground (arith, find-put s.id s.id s m, text_eq_refl s.id);
}

pub memory_store-Durable : Durable memory_store
unfolding get update create
memory_store-Durable = record {
  created = λ m t later s done. ground (arith, find-put s.id s.id s m, text_eq_refl s.id);
  kept = λ m t later s old held. ground (arith, find-put s.id s.id s m, text_eq_refl s.id);
}

abbrev pub Absent : Text → Memory → Type 0
Absent k [] = Unit
Absent k ((j, s) ∷ m) = (text_eq j k ≡ false) × Absent k m

-- No id stands twice.
abbrev pub Distinct : Memory → Type 0
Distinct [] = Unit
Distinct ((k, s) ∷ m) = Absent k m × Distinct m

find-Absent : (k : Text) (m : Memory) → Absent k m → find k m ≡ none
unfolding find
find-Absent k [] a = refl
find-Absent k ((j, s) ∷ m) a = ground (arith, find-Absent k m a.1)

find-sweep :
    (now : Time) (id : Text) (m : Memory)
    → Distinct m
    → find id (sweep now m)
      ≡ elim (find id m) [ none ↦ none | some s ↦ if is_stale now s then none else some s ]
unfolding find sweep
find-sweep now id [] d = refl
find-sweep now id ((j, s) ∷ m) d = elim (Bool-cases (text_eq j id)) [
  | inl same ↦
      let gone = find-Absent id m (subst (λ k. Absent k m) (text_eq_sound j id same) d.0) in
      ground (arith, find-sweep now id m d.1, gone)
  | inr other ↦ ground (arith, find-sweep now id m d.1)
]

-- Of a map in which no id stands twice, a sweep keeps exactly the sessions for which not more than
-- twice the TTL, from the creation to the expiry, has passed: an expired session is still found as
-- long again as it lived, and after that no longer.
pub sweep_iff :
    (now : Time) (id : Text) (m : Memory) (s : Session)
    → Distinct m
    → (find id (sweep now m) ≡ some s)
      ↔ ((find id m ≡ some s) × (now ≤ s.expires_at + (s.expires_at - s.created_at)))
sweep_iff now id m s d =
    let kept = find-sweep now id m d in
    (
      (λ h. elim (Option-cases (find id m)) [
        | inl e ↦ absurd (ground (arith, kept))
        | inr (x, e) ↦ ground (arith, kept)
      ]),
      (λ (e, l). ground (arith, kept)),
    )
