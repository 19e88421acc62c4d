-- ===== src/Client/Waits.antt =====
-- How long `Poll` of pkg/client/client.go waits between its polls.
use xdauth.Client.Laws.{Answer, is_waiting}
use xdauth.Client.{slower, poll_once, poll_loop}
use xdauth.Prelude.{
  ap, ℕ, zero, suc, ◌+◌, ◌/◌, ◌≤◌, ◌<◌, ◌≡◌, refl, sym, subst, inl, inr, Bool, true, false, List,
  [], ◌∷◌, none, some, arith, Option-cases, Bool-cases, if◌then◌else◌,
}
use xdauth.Prelude.Int.{ℤ, pos, negsuc, two_63}
use xdauth.Text.Laws.{text_eq_sound}
use xdauth.Text.{Text, bytes, text_eq}

-- Whether an answer asks the client to slow down, and how many of the answers do.
abbrev pub asks_slower : Answer → Bool
asks_slower a = elim (poll_once a) [
  | none ↦ false
  | some (st, artifact) ↦ text_eq st (bytes "slow_down")
]

abbrev pub slow_downs : List Answer → ℕ
slow_downs [] = 0
slow_downs (a ∷ answers) = if asks_slower a then suc (slow_downs answers) else slow_downs answers

-- The reference, without a bound: the interval after it has grown by its half so many times.
abbrev pub grown : ℕ → ℕ → ℕ
grown n zero = n
grown n (suc k) = grown (n + n / 2) k

grown-ge : (n k : ℕ) → n ≤ grown n k
grown-ge n zero = omega arith
grown-ge n (suc k) = omega (arith, grown-ge (n + n / 2) k)

pending-apart :
    (st : Text) → text_eq st (bytes "pending") ≡ true → text_eq st (bytes "slow_down") ≡ false
unfolding text_eq
pending-apart st h =
    subst (λ t. text_eq t (bytes "slow_down") ≡ false) (sym (text_eq_sound st (bytes "pending") h))
      refl

slower-exact : (n : ℕ) → n + n / 2 < two_63 → slower (pos n) ≡ pos (n + n / 2)
slower-exact n h = ground arith

-- Each wait is not negative and at least the one before, the first at least `low`, and all at most
-- `high`.
abbrev pub Ascending : ℕ → ℕ → List ℤ → Type 0
Ascending low high [] = Unit
Ascending low high (pos d ∷ ds) = (low ≤ d) × (d ≤ high) × Ascending d high ds
Ascending low high (negsuc d ∷ ds) = 0 < 0

-- The reference, without a bound: one wait for each answer until the first that ends the loop, of the
-- interval, which a "slow_down" has grown by its half.
abbrev pub waits_for : ℕ → List Answer → List ℤ
waits_for n [] = []
waits_for n (a ∷ answers) =
    let m = if asks_slower a then n + n / 2 else n in
    let rest = waits_for m answers in if is_waiting a then pos m ∷ rest else []

-- The count of the first answer, put in.
counted :
    (n : ℕ) (a : Answer) (answers : List Answer) (b : Bool)
    → asks_slower a ≡ b
    → grown n (slow_downs (a ∷ answers)) < two_63
    → grown n (if b then suc (slow_downs answers) else slow_downs answers) < two_63
counted n a answers b e l =
    subst (λ c. grown n (if c then suc (slow_downs answers) else slow_downs answers) < two_63) e l

slow_down-apart :
    (st : Text) → text_eq st (bytes "slow_down") ≡ true → text_eq st (bytes "pending") ≡ false
slow_down-apart st v = elim (Bool-cases (text_eq st (bytes "pending"))) [
  | inl w ↦ absurd (ground (arith, pending-apart st w))
  | inr w ↦ w
]

poll_loop-waits_for :
    (n : ℕ) (answers : List Answer)
    → grown n (slow_downs answers) < two_63
    → (poll_loop (pos n) answers).0 ≡ waits_for n answers
unfolding poll_loop
poll_loop-waits_for n [] l = refl
poll_loop-waits_for n (a ∷ answers) l = elim (Option-cases (poll_once a)) [
  | inl e ↦ ground (arith, e)
  | inr ((st, artifact), e) ↦ elim (Bool-cases (text_eq st (bytes "slow_down"))) [
    | inr v ↦
        let k = counted n a answers false (rw (e, asks_slower) v) l in
        ground (arith, e, v, poll_loop-waits_for n answers k)
    | inl v ↦
        let k = counted n a answers true (rw (e, asks_slower) v) l in
        let m = n + n / 2 in
        let exact = slower-exact n (omega (arith, grown-ge m (slow_downs answers), k)) in
        let apart = slow_down-apart st v in
        rw (e, poll_loop, is_waiting, asks_slower, v, apart, exact)
          (ap (λ ws. pos m ∷ ws) (poll_loop-waits_for m answers k))
  ]
]

waits_for-Ascending :
    (n : ℕ) (answers : List Answer)
    → Ascending n (grown n (slow_downs answers)) (waits_for n answers)
waits_for-Ascending n [] = tt
waits_for-Ascending n (a ∷ answers) = elim (Bool-cases (is_waiting a)) [
  | inr w ↦ rw w tt
  | inl w ↦ elim (Bool-cases (asks_slower a)) [
    | inl v ↦
        let m = n + n / 2 in
        rw (w, v) (omega arith, grown-ge m (slow_downs answers), waits_for-Ascending m answers)
    | inr v ↦
        rw (w, v) (omega arith, grown-ge n (slow_downs answers), waits_for-Ascending n answers)
  ]
]

-- As long as the interval, grown by its half once for each "slow_down" among the answers, fits an
-- `int64`: the client waits after each "pending" for the interval, and after each "slow_down" for the
-- interval grown by its half, which it keeps from then on. The waits never get shorter, none is below
-- the interval at first, nor above what it grows to.
pub poll_loop-Ascending :
    (n : ℕ) (answers : List Answer)
    → grown n (slow_downs answers) < two_63
    → ((poll_loop (pos n) answers).0 ≡ waits_for n answers)
      × Ascending n (grown n (slow_downs answers)) (poll_loop (pos n) answers).0
poll_loop-Ascending n answers l =
    let same = poll_loop-waits_for n answers l in
    (
      same,
      subst (Ascending n (grown n (slow_downs answers))) (sym same) (waits_for-Ascending n answers),
    )
