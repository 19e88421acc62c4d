-- ===== src/UserCode/Format.antt =====
-- The codes that usercode.go makes: their form, and where their characters come from.
use xdauth.Prelude.{
  ℕ, zero, suc, ◌%◌, ◌<◌, ◌≡◌, refl, subst, Bool, true, not, ◌&&◌, [], ◌∷◌, some, arith, length,
  take, drop, any, all, ◌==◌, ==_iff, if◌then◌else◌,
}
use xdauth.Text.{Text, bytes}
use xdauth.UserCode.{user_code_alphabet, char_at, code_char, generate_user_code}

-- A character of a code: of the alphabet, and none of the look-alikes 0, O, 1 and I.
abbrev pub is_code_char : ℕ → Bool
is_code_char c = any (λ d. d == c) user_code_alphabet && not (any (λ d. d == c) (bytes "0O1I"))

-- "XXXX-XXXX"
abbrev pub IsUserCode : Text → Type 0
IsUserCode t =
    (length t ≡ 9)
    × (char_at t 4 ≡ 45)
    × (all is_code_char (take 4 t) ≡ true)
    × (all is_code_char (drop 5 t) ≡ true)

-- Whether a test passes on all numbers under a bound.
passes_under : (test : ℕ → Bool) (bound : ℕ) → Bool
passes_under test zero = true
passes_under test (suc m) = passes_under test m && test m

passes_each :
    (test : ℕ → Bool) (bound i : ℕ) → i < bound → passes_under test bound ≡ true → test i ≡ true
unfolding passes_under
passes_each test zero i below h = absurd (omega arith)
passes_each test (suc m) i below h = ground (arith, passes_each test m i)

alphabet_table : passes_under (λ i. is_code_char (char_at user_code_alphabet i)) 32 ≡ true
unfolding passes_under
alphabet_table = refl

code_char_valid : (b : ℕ) → is_code_char (code_char b) ≡ true
code_char_valid b =
    passes_each (λ i. is_code_char (char_at user_code_alphabet i)) 32 (b % 32) (omega arith)
      alphabet_table

some-eq : {a b : Text} → some a ≡ some b → a ≡ b
some-eq e = cc

-- From eight random bytes comes a code of the form "XXXX-XXXX", without look-alikes.
pub generate_user_code-IsUserCode :
    (raw code : Text) → length raw ≡ 8 → generate_user_code (some raw) ≡ some code → IsUserCode code
unfolding generate_user_code
generate_user_code-IsUserCode (a ∷ b ∷ c ∷ d ∷ e ∷ f ∷ g ∷ h ∷ []) code l m =
    subst IsUserCode (some-eq m) (
      refl,
      refl,
      rw (code_char_valid a, code_char_valid b, code_char_valid c, code_char_valid d),
      rw (code_char_valid e, code_char_valid f, code_char_valid g, code_char_valid h),
    )
generate_user_code-IsUserCode _ code l m = absurd (omega arith)

pub count_below : ℕ → (ℕ → Bool) → ℕ
count_below zero p = 0
count_below (suc n) p = let rest = count_below n p in if p n then suc rest else rest

abbrev pub sources_of : ℕ → ℕ
sources_of c = count_below 256 (λ b. code_char b == c)

sources_table : passes_under (λ i. sources_of (char_at user_code_alphabet i) == 8) 32 ≡ true
unfolding passes_under count_below
sources_table = refl

-- Each character of the alphabet comes from eight of the 256 values of a random byte, so that all
-- are equally likely.
pub code_char_uniform : (i : ℕ) → i < 32 → sources_of (char_at user_code_alphabet i) ≡ 8
code_char_uniform i h =
    (==_iff _ 8).0
      (passes_each (λ j. sources_of (char_at user_code_alphabet j) == 8) 32 i h sources_table)
