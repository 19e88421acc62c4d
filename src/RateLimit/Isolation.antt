-- ===== src/RateLimit/Isolation.antt =====
-- The buckets of different keys in ratelimit.go.
use xdauth.Prelude.{
  ◌≡◌, refl, inl, inr, true, false, List, [], ◌∷◌, Option, none, some, arith, if◌then◌else◌,
  Bool-cases, subst,
}
use xdauth.RateLimit.{
  Limiting, LimiterEntry, KeyedLimiter, find_entry, put_entry, is_idle, sweep_entries,
  limiter_or_new, allow,
}
use xdauth.Session.{Time, Duration}
use xdauth.Text.{Text, text_eq}
use xdauth.Text.Laws.{text_eq_iff, text_eq_sound, text_eq_refl, text_eq-false_comm}

abbrev pub Absent {ℓ} : {A : Type ℓ} → Text → List (Text × A) → Type 0
Absent k [] = Unit
Absent k ((j, e) ∷ m) = (text_eq j k ≡ false) × Absent k m

-- No key stands twice.
abbrev pub Distinct {ℓ} : {A : Type ℓ} → List (Text × A) → Type 0
Distinct [] = Unit
Distinct ((k, e) ∷ m) = Absent k m × Distinct m

module _ (L : Limiting) where
  open L use {Limiter, new_limiter, allow_one}

  find-put :
      (k j : Text) (e : LimiterEntry L) (m : List (Text × LimiterEntry L))
      → find_entry L j (put_entry L k e m) ≡ (if text_eq k j then some e else find_entry L j m)
  unfolding find_entry put_entry
  find-put k j e [] = refl
  find-put k j e ((i, d) ∷ m) =
      ground (arith, text_eq_iff k j, text_eq_iff i k, text_eq_iff i j, find-put k j e m)

  -- Of an entry, if it is not idle.
  abbrev pub unless_idle : Duration → Time → Option (LimiterEntry L) → Option (LimiterEntry L)
  unless_idle ttl now none = none
  unless_idle ttl now (some e) = if is_idle L ttl now e then none else some e

  find-Absent : (j : Text) (m : List (Text × LimiterEntry L)) → Absent j m → find_entry L j m ≡ none
  unfolding find_entry
  find-Absent j [] a = refl
  find-Absent j ((i, d) ∷ m) a = ground (arith, find-Absent j m a.1)

  Absent-text_eq :
      (i j : Text) (m : List (Text × LimiterEntry L)) → text_eq i j ≡ true → Absent i m → Absent j m
  Absent-text_eq i j m e a = subst (λ k. Absent k m) (text_eq_sound i j e) a

  find-sweep :
      (ttl : Duration) (now : Time) (j : Text) (m : List (Text × LimiterEntry L))
      → Distinct m
      → find_entry L j (sweep_entries L ttl now m) ≡ unless_idle ttl now (find_entry L j m)
  unfolding find_entry sweep_entries
  find-sweep ttl now j [] d = refl
  find-sweep ttl now j ((i, e) ∷ m) d = elim (Bool-cases (text_eq i j)) [
    | inl same ↦
        ground (arith, find-sweep ttl now j m d.1, find-Absent j m (Absent-text_eq i j m same d.0))
    | inr other ↦ ground (arith, find-sweep ttl now j m d.1)
  ]

  -- Of a limiter that holds no key twice: `Allow` asks the bucket of the key, or a full new one where
  -- the key has none or was idle too long; it answers what that bucket answers and keeps it. Of the
  -- other keys' buckets it drops those that were idle too long, and changes nothing else.
  pub allow_isolates :
      (k : KeyedLimiter L) (key other : Text) (now : Time)
      → Distinct k.entries
      → text_eq key other ≡ false
      → let l = limiter_or_new L k (unless_idle k.idle_ttl now (find_entry L key k.entries)) in
        let (k', answer) = allow L k key now in
        (answer ≡ (allow_one l now).1)
        × (find_entry L key k'.entries
            ≡ some (record { limiter = (allow_one l now).0; last_seen = now }))
        × (find_entry L other k'.entries
            ≡ unless_idle k.idle_ttl now (find_entry L other k.entries))
  unfolding allow
  allow_isolates k key other now d h =
      let swept = sweep_entries L k.idle_ttl now k.entries in
      let l = limiter_or_new L k (find_entry L key swept) in
      let e : LimiterEntry L = record { limiter = (allow_one l now).0; last_seen = now } in
      rw
        (← find-sweep k.idle_ttl now key k.entries d, ← find-sweep k.idle_ttl now other k.entries d)
        (
          refl,
          ground (arith, find-put key key e swept, text_eq_refl key),
          ground (arith, find-put key other e swept),
        )

  Absent-sweep :
      (ttl : Duration) (now : Time) (j : Text) (m : List (Text × LimiterEntry L))
      → Absent j m
      → Absent j (sweep_entries L ttl now m)
  unfolding sweep_entries
  Absent-sweep ttl now j [] a = tt
  Absent-sweep ttl now j ((i, e) ∷ m) a = ground (arith, Absent-sweep ttl now j m a.1)

  sweep-Distinct :
      (ttl : Duration) (now : Time) (m : List (Text × LimiterEntry L))
      → Distinct m
      → Distinct (sweep_entries L ttl now m)
  unfolding sweep_entries
  sweep-Distinct ttl now [] d = tt
  sweep-Distinct ttl now ((i, e) ∷ m) d =
      ground (arith, sweep-Distinct ttl now m d.1, Absent-sweep ttl now i m d.0)

  Absent-put :
      (j k : Text) (e : LimiterEntry L) (m : List (Text × LimiterEntry L))
      → text_eq k j ≡ false
      → Absent j m
      → Absent j (put_entry L k e m)
  unfolding put_entry
  Absent-put j k e [] h a = (h, tt)
  Absent-put j k e ((i, d) ∷ m) h a = ground (arith, Absent-put j k e m h a.1)

  put-Distinct :
      (k : Text) (e : LimiterEntry L) (m : List (Text × LimiterEntry L))
      → Distinct m
      → Distinct (put_entry L k e m)
  unfolding put_entry
  put-Distinct k e [] d = (tt, tt)
  put-Distinct k e ((i, c) ∷ m) d = elim (Bool-cases (text_eq i k)) [
    | inl same ↦ rw same (Absent-text_eq i k m same d.0, d.1)
    | inr other ↦
        rw other (Absent-put i k e m (text_eq-false_comm i k other) d.0, put-Distinct k e m d.1)
  ]

  -- `Allow` keeps the keys distinct.
  pub allow-Distinct :
      (k : KeyedLimiter L) (key : Text) (now : Time)
      → Distinct k.entries
      → Distinct (allow L k key now).0.entries
  unfolding allow
  allow-Distinct k key now d = put-Distinct key _ _ (sweep-Distinct k.idle_ttl now k.entries d)
