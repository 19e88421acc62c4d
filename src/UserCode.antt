-- ===== src/UserCode.antt =====
-- internal/broker/usercode.go
pub mod Format
pub mod Matching
use xdauth.Prelude.{
  ℕ, zero, suc, ◌%◌, Bool, false, List, [], ◌∷◌, ◌++◌, map, Option, none, some, length, take, drop,
  ◌==◌, if◌then◌else◌,
}
use xdauth.Platform.{Platform}
use xdauth.Text.{Text, bytes, constant_time_compare, remove_all}
use xdauth.Text.Case.{to_upper, trim_space}

abbrev pub user_code_alphabet : Text
user_code_alphabet = bytes "ABCDEFGHJKLMNPQRSTUVWXYZ23456789"

-- `userCodeAlphabet[i]`; the index is below the length wherever the program reads it.
abbrev pub char_at : Text → ℕ → ℕ
char_at [] i = 0
char_at (c ∷ t) zero = c
char_at (c ∷ t) (suc i) = char_at t i

abbrev pub code_char : ℕ → ℕ
code_char b = char_at user_code_alphabet (b % length user_code_alphabet)

-- The argument is what `rand.Read` put into the eight bytes, or `none` for its error.
unfoldable pub generate_user_code : Option Text → Option Text
generate_user_code none = none
generate_user_code (some raw) = let idx = map code_char raw in some (take 4 idx ++ 45 ∷ drop 4 idx)

module _ ⦃sys : Platform⦄ where
  unfoldable pub normalize_user_code : Text → Text
  normalize_user_code s = remove_all (remove_all (to_upper (trim_space s)) 45) 32

  unfoldable pub codes_equal : Text → Text → Bool
  unfolding normalize_user_code constant_time_compare
  codes_equal submitted expected =
      let a = normalize_user_code submitted in
      let b = normalize_user_code expected in
      if length a == length b then constant_time_compare a b == 1 else false
