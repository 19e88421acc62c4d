-- ===== src/Command/Laws.antt =====
-- What the settings mean, and how long the command waits for the identity provider.
use xdauth.Command.{
  parse_cidrs, parse_cidr_list, Attempt, discovered, gave_up, next_backoff, retry_loop,
  retry_discovery,
}
use xdauth.Detect.{second}
use xdauth.Net.{Prefix}
use xdauth.Platform.{Platform}
use xdauth.Prelude.{
  ℕ, zero, suc, append_assoc, append-nil, ◌+◌, ◌*◌, ◌≤◌, ◌<◌, ◌≡◌, refl, sym, ap, inl, inr, List,
  [], ◌∷◌, ◌++◌, map, Option, none, some, All, arith, length, is_empty, Option-cases, if◌then◌else◌,
}
use xdauth.Session.{Time, Duration}
use xdauth.Text.{Text, split}
use xdauth.Text.Case.{trim_space}

-- The reference: all values, if there are no errors.
abbrev pub all_of {ℓ} : {A : Type ℓ} → List (Option A) → Option (List A)
all_of [] = some []
all_of (none ∷ os) = none
all_of (some x ∷ os) = elim (all_of os) [ none ↦ none | some xs ↦ some (x ∷ xs) ]

-- The prefixes so far, in front of what is read.
abbrev in_front : List Prefix → Option (List Prefix) → Option (List Prefix)
in_front out none = none
in_front out (some ps) = some (out ++ ps)

module _ ⦃sys : Platform⦄ where
  abbrev pub read_part : Text → Option Prefix
  read_part part = sys.parse_prefix (trim_space part)

  parse_cidrs-all_of :
      (parts : List Text) (out : List Prefix)
      → parse_cidrs parts out ≡ in_front out (all_of (map read_part parts))
  unfolding parse_cidrs
  parse_cidrs-all_of [] out = ap some (sym (append-nil out))
  parse_cidrs-all_of (part ∷ parts) out = elim (Option-cases (read_part part)) [
    | inl e ↦ ground arith
    | inr (p, e) ↦ elim (Option-cases (all_of (map read_part parts))) [
      | inl f ↦ ground (arith, parse_cidrs-all_of parts (out ++ p ∷ []))
      | inr (ps, f) ↦
          ground (arith, parse_cidrs-all_of parts (out ++ p ∷ []), append_assoc out (p ∷ []) ps)
    ]
  ]

  -- A list of networks that is not empty is read exactly as its parts are, without the blanks around
  -- them and in their order, and is refused if one of them is; an empty one gates nothing.
  pub parse_cidr_list-all_of :
      (raw : Text)
      → parse_cidr_list raw
        ≡ (if is_empty raw then some [] else all_of (map read_part (split raw 44)))
  unfolding parse_cidr_list
  parse_cidr_list-all_of raw = elim (Option-cases (all_of (map read_part (split raw 44)))) [
    | inl f ↦ ground (arith, parse_cidrs-all_of (split raw 44) [])
    | inr (ps, f) ↦ ground (arith, parse_cidrs-all_of (split raw 44) [])
  ]

-- The reference: the wait after so many failures before, and the first waits of a loop that goes on
-- from there.
abbrev pub wait_after : ℕ → Duration
wait_after zero = 500000000
wait_after (suc zero) = 1000000000
wait_after (suc (suc zero)) = 2000000000
wait_after (suc (suc (suc zero))) = 4000000000
wait_after _ = 8000000000

abbrev pub waits_from : ℕ → ℕ → List Duration
waits_from k zero = []
waits_from k (suc n) = wait_after k ∷ waits_from (suc k) n

next_backoff-wait_after : (k : ℕ) → next_backoff (wait_after k) ≡ wait_after (suc k)
next_backoff-wait_after zero = refl
next_backoff-wait_after (suc zero) = refl
next_backoff-wait_after (suc (suc zero)) = refl
next_backoff-wait_after (suc (suc (suc zero))) = refl
next_backoff-wait_after (suc (suc (suc (suc k)))) = refl

module _ {A : Type 0} where
  -- Attempts that fail before the deadline.
  abbrev pub Failing : Time → List (Attempt A) → Type 0
  Failing deadline = All (λ a. (a.found ≡ none) × (a.ended_at ≤ deadline))

  retry_loop_ends :
      (deadline : Time) (k : ℕ) (failed later : List (Attempt A)) (a : Attempt A)
      → Failing deadline failed
      → let (waits, found) = retry_loop deadline (wait_after k) (failed ++ a ∷ later) in
        ((v : A)
          → a.found ≡ some v
          → (found ≡ discovered v) × (waits ≡ waits_from k (length failed)))
        × (a.found ≡ none
            → deadline < a.ended_at
            → (found ≡ gave_up) × (waits ≡ waits_from k (length failed)))
  unfolding retry_loop
  retry_loop_ends deadline k [] later a f = ((λ v e. ground arith), (λ e l. ground arith))
  retry_loop_ends deadline k (x ∷ failed) later a f =
      let rest = retry_loop_ends deadline (suc k) failed later a f.1 in
      let next = next_backoff-wait_after k in
      (
        (λ v e. ground (arith, next, rest.0 v e, f.0)),
        (λ e l. ground (arith, next, rest.1 e l, f.0)),
      )

  -- After attempts that fail within thirty seconds of the beginning, the next one decides if it
  -- succeeds or is over later than that: its value is taken, or its error; what would come later does
  -- not matter. There is one wait after each failure before: of half a second, one second, two, four,
  -- and then eight seconds each.
  pub retry_discovery_ends :
      (began : Time) (failed later : List (Attempt A)) (a : Attempt A)
      → Failing (began + 30 * second) failed
      → let (waits, found) = retry_discovery began (failed ++ a ∷ later) in
        ((v : A)
          → a.found ≡ some v
          → (found ≡ discovered v) × (waits ≡ waits_from 0 (length failed)))
        × (a.found ≡ none
            → began + 30 * second < a.ended_at
            → (found ≡ gave_up) × (waits ≡ waits_from 0 (length failed)))
  unfolding retry_discovery
  retry_discovery_ends began failed later a f =
      retry_loop_ends (began + 30 * second) 0 failed later a f
