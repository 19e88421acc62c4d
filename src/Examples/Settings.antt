-- ===== src/Examples/Settings.antt =====
-- The settings and the discovery of the command at concrete inputs.
use xdauth.Command.{Attempt, discovered, gave_up, retry_discovery}
use xdauth.Command.Laws.{retry_discovery_ends}
use xdauth.Detect.{second}
use xdauth.Examples.{demo}
use xdauth.Prelude.{ℕ, ◌+◌, ◌*◌, ◌<◌, ◌≡◌, refl, [], ◌∷◌, none, some, arith}

abbrev failure : Attempt ℕ
failure = record { ended_at = 200; found = none }

abbrev success : Attempt ℕ
success = record { ended_at = 900; found = some 7 }

retry_discovery_ends_example :
    let (waits, found) = retry_discovery 100 (failure ∷ success ∷ []) in
    ((v : ℕ) → success.found ≡ some v → (found ≡ discovered v) × (waits ≡ 500000000 ∷ []))
    × (success.found ≡ none
        → 100 + 30 * second < 900
        → (found ≡ gave_up) × (waits ≡ 500000000 ∷ []))
retry_discovery_ends_example =
    retry_discovery_ends 100 (failure ∷ []) [] success ((refl, omega arith), tt)
