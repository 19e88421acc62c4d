-- ===== src/Text/Laws.antt =====
-- Lemmas on the equality and the splitting of texts.
use xdauth.Prelude.{ℕ, ◌≡◌, refl, ◌↔◌, ◌≢◌, true, false, List, [], ◌∷◌, ◌++◌, some, arith, ◌==◌}
use xdauth.Text.{Text, text_eq, constant_time_compare, split, push_head, strip_prefix}

pub text_eq_sound : (a b : Text) → text_eq a b ≡ true → a ≡ b
unfolding text_eq
text_eq_sound [] [] h = refl
text_eq_sound [] (y ∷ ys) h = cc
text_eq_sound (x ∷ xs) [] h = cc
text_eq_sound (x ∷ xs) (y ∷ ys) h = ground (arith, text_eq_sound xs ys)

pub text_eq_refl : (a : Text) → text_eq a a ≡ true
unfolding text_eq
text_eq_refl [] = refl
text_eq_refl (x ∷ xs) = ground (arith, text_eq_refl xs)

pub text_eq_iff : (a b : Text) → (text_eq a b ≡ true) ↔ (a ≡ b)
text_eq_iff a b = (text_eq_sound a b, λ e. rw e (text_eq_refl b))

pub text_eq-false_comm : (a b : Text) → text_eq a b ≡ false → text_eq b a ≡ false
text_eq-false_comm a b h = ground (arith, text_eq_iff a b, text_eq_iff b a)

pub constant_time_compare_lem : (a b : Text) → (constant_time_compare a b == 1) ≡ text_eq a b
unfolding constant_time_compare
constant_time_compare_lem a b = ground arith

pub split-ne-nil : (t : Text) (sep : ℕ) → split t sep ≢ []
unfolding split
split-ne-nil [] sep = λ e. cc
split-ne-nil (c ∷ t) sep = ground (arith, split-ne-nil t sep)

push_head-append :
    (c : ℕ) (xs ys : List Text) → xs ≢ [] → push_head c (xs ++ ys) ≡ push_head c xs ++ ys
push_head-append c [] ys h = absurd (h refl)
push_head-append c (x ∷ xs) ys h = refl

-- Splitting a text at one of its separators splits both sides.
pub split-append : (a b : Text) (sep : ℕ) → split (a ++ sep ∷ b) sep ≡ split a sep ++ split b sep
unfolding split
split-append [] b sep = ground arith
split-append (c ∷ a) b sep = ground (
  arith,
  split-append a b sep,
  push_head-append c (split a sep) (split b sep) (split-ne-nil a sep),
)

pub strip_prefix-append : (p t : Text) → strip_prefix p (p ++ t) ≡ some t
unfolding strip_prefix
strip_prefix-append [] t = refl
strip_prefix-append (c ∷ p) t = ground (arith, strip_prefix-append p t)

pub strip_prefix_sound : (p t r : Text) → strip_prefix p t ≡ some r → t ≡ p ++ r
unfolding strip_prefix
strip_prefix_sound [] t r h = ground arith
strip_prefix_sound (c ∷ p) [] r h = cc
strip_prefix_sound (c ∷ p) (d ∷ t) r h = ground (arith, strip_prefix_sound p t r)
