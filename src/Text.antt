-- ===== src/Text.antt =====
-- Go strings as byte sequences, with the functions of package strings that the program calls.
pub mod Laws
pub mod Case
pub mod Encoding
use Prim.Native.Char.{code}
use Prim.Native.String.{String}
use xdauth.Prelude.{
  ℕ, suc, ◌+◌, Bool, true, false, ◌&&◌, ◌||◌, List, [], ◌∷◌, ◌++◌, Option, none, some, ltb, leb,
  ◌==◌, if◌then◌else◌, all, is_empty,
}

abbrev pub Text : Type 0
Text = List ℕ

-- A quoted text as bytes; the program's literals are ASCII.
abbrev pub bytes : String → Text
bytes String.[] = []
bytes (String.◌∷◌ c s) = code c ∷ bytes s

-- `a == b` on strings. `subtle.ConstantTimeCompare(a, b) == 1` gives the same answer.
unfoldable pub text_eq : Text → Text → Bool
text_eq [] [] = true
text_eq (x ∷ xs) (y ∷ ys) = x == y && text_eq xs ys
text_eq _ _ = false

-- `subtle.ConstantTimeCompare`: 1 for equal contents, 0 for any others, unequal lengths included.
unfoldable pub constant_time_compare : Text → Text → ℕ
constant_time_compare a b = if text_eq a b then 1 else 0

-- All bytes below `utf8.RuneSelf`.
abbrev pub is_ascii : Text → Bool
is_ascii = all (λ c. ltb c 128)

abbrev pub is_space : ℕ → Bool
is_space c = c == 32 || leb 9 c && leb c 13

abbrev pub trim_start : (ℕ → Bool) → Text → Text
trim_start p [] = []
trim_start p (c ∷ t) = elim (p c) [ true ↦ trim_start p t | false ↦ c ∷ t ]

-- Keeps `c` unless nothing is left behind it and it is to be trimmed.
abbrev pub cons_trimmed : (ℕ → Bool) → ℕ → Text → Text
cons_trimmed p c [] = if p c then [] else c ∷ []
cons_trimmed p c (d ∷ t) = c ∷ d ∷ t

abbrev pub trim_end : (ℕ → Bool) → Text → Text
trim_end p [] = []
trim_end p (c ∷ t) = cons_trimmed p c (trim_end p t)

-- `strings.TrimRight(s, c)` for a cutset of one byte
unfoldable pub trim_right : Text → ℕ → Text
trim_right t c = trim_end (λ d. d == c) t

-- `strings.ReplaceAll(s, c, "")` for one byte
unfoldable pub remove_all : Text → ℕ → Text
remove_all [] c = []
remove_all (d ∷ t) c = let rest = remove_all t c in if d == c then rest else d ∷ rest

abbrev pub push_head : ℕ → List Text → List Text
push_head c [] = (c ∷ []) ∷ []
push_head c (t ∷ ts) = (c ∷ t) ∷ ts

-- `strings.Split(s, sep)` for a separator of one byte
unfoldable pub split : Text → ℕ → List Text
split [] sep = [] ∷ []
split (c ∷ t) sep = let rest = split t sep in if c == sep then [] ∷ rest else push_head c rest

-- The two parts of `strings.SplitN(s, sep, 2)`; `none` where the separator does not occur.
unfoldable pub cut : Text → ℕ → Option (Text × Text)
cut [] sep = none
cut (c ∷ t) sep =
    let rest = cut t sep in
    if c == sep then some ([], t) else elim rest [ none ↦ none | some (a, b) ↦ some (c ∷ a, b) ]

-- `strings.HasPrefix` with `strings.TrimPrefix`: what follows the prefix.
pub strip_prefix : Text → Text → Option Text
strip_prefix [] t = some t
strip_prefix (p ∷ ps) [] = none
strip_prefix (p ∷ ps) (c ∷ t) = let rest = strip_prefix ps t in if p == c then rest else none
