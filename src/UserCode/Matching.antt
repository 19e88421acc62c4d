-- ===== src/UserCode/Matching.antt =====
-- When a typed code matches: usercode.go against a plain description.
use xdauth.Platform.{Platform}
use xdauth.Prelude.{
  ℕ, ◌≡◌, refl, ap, ◌∙◌, ◌↔◌, Bool, true, not, ◌&&◌, ◌||◌, [], ◌∷◌, map, arith, length, all, keep,
  ltb, leb, ◌==◌,
}
use xdauth.Text.{Text, is_ascii, is_space, trim_start, trim_end, cons_trimmed, remove_all}
use xdauth.Text.Case.{upper, to_upper, trim_space}
use xdauth.Text.Laws.{text_eq_iff, constant_time_compare_lem}
use xdauth.UserCode.{normalize_user_code, codes_equal}

-- ASCII, with no white space but the blank
abbrev pub is_plain : Text → Bool
is_plain = all (λ c. ltb c 128 && not (leb 9 c && leb c 13))

-- The reference: upper case, without dashes and blanks.
abbrev pub squeeze : Text → Text
squeeze t = keep (λ c. not (c == 45 || c == 32)) (map upper t)

abbrev strip : Text → Text
strip t = remove_all (remove_all (map upper t) 45) 32

strip-squeeze : (t : Text) → strip t ≡ squeeze t
unfolding remove_all
strip-squeeze [] = refl
strip-squeeze (c ∷ t) = ground (arith, strip-squeeze t)

strip-trim_start : (t : Text) → is_plain t ≡ true → strip (trim_start is_space t) ≡ strip t
unfolding remove_all
strip-trim_start [] h = refl
strip-trim_start (c ∷ t) h = ground (arith, strip-trim_start t)

strip-cons_trimmed :
    (c : ℕ) (t : Text)
    → is_plain (c ∷ []) ≡ true
    → strip (cons_trimmed is_space c t) ≡ strip (c ∷ t)
unfolding remove_all
strip-cons_trimmed c [] h = ground arith
strip-cons_trimmed c (d ∷ t) h = refl

strip-cons : (c : ℕ) (s t : Text) → strip s ≡ strip t → strip (c ∷ s) ≡ strip (c ∷ t)
unfolding remove_all
strip-cons c s t h = ground arith

strip-trim_end : (t : Text) → is_plain t ≡ true → strip (trim_end is_space t) ≡ strip t
strip-trim_end [] h = refl
strip-trim_end (c ∷ t) h =
    strip-cons_trimmed c (trim_end is_space t) (ground arith)
    ∙ strip-cons c (trim_end is_space t) t (strip-trim_end t (ground arith))

is_plain-trim_start : (t : Text) → is_plain t ≡ true → is_plain (trim_start is_space t) ≡ true
is_plain-trim_start [] h = refl
is_plain-trim_start (c ∷ t) h = ground (arith, is_plain-trim_start t)

is_plain-cons_trimmed :
    (c : ℕ) (t : Text)
    → is_plain (c ∷ []) ≡ true
    → is_plain t ≡ true
    → is_plain (cons_trimmed is_space c t) ≡ true
is_plain-cons_trimmed c [] h k = ground arith
is_plain-cons_trimmed c (d ∷ t) h k = ground arith

is_plain-trim_end : (t : Text) → is_plain t ≡ true → is_plain (trim_end is_space t) ≡ true
is_plain-trim_end [] h = refl
is_plain-trim_end (c ∷ t) h =
    is_plain-cons_trimmed c (trim_end is_space t) (ground arith)
      (is_plain-trim_end t (ground arith))

is_plain-is_ascii : (t : Text) → is_plain t ≡ true → is_ascii t ≡ true
is_plain-is_ascii [] h = refl
is_plain-is_ascii (c ∷ t) h = ground (arith, is_plain-is_ascii t)

module _ ⦃sys : Platform⦄ where
  normalize_user_code-squeeze : (t : Text) → is_plain t ≡ true → normalize_user_code t ≡ squeeze t
  unfolding normalize_user_code to_upper trim_space
  normalize_user_code-squeeze t h =
      let left = trim_start is_space t in
      let left_plain = is_plain-trim_start t h in
      rw
        (
          is_plain-is_ascii t h,
          is_plain-is_ascii (trim_end is_space left) (is_plain-trim_end left left_plain),
        )
        (strip-trim_end left left_plain ∙ strip-trim_start t h ∙ strip-squeeze t)

  codes_equal_iff :
      (a b : Text) → (codes_equal a b ≡ true) ↔ (normalize_user_code a ≡ normalize_user_code b)
  unfolding codes_equal
  codes_equal_iff a b = ground (
    arith,
    constant_time_compare_lem (normalize_user_code a) (normalize_user_code b),
    text_eq_iff (normalize_user_code a) (normalize_user_code b),
    ap length {x = normalize_user_code a} {y = normalize_user_code b},
  )

  -- Of texts of ASCII characters whose only white space is the blank: a typed code matches exactly
  -- when it agrees with the session's up to case, dashes and blanks.
  pub codes_equal-iff-squeeze :
      (a b : Text)
      → is_plain a ≡ true
      → is_plain b ≡ true
      → (codes_equal a b ≡ true) ↔ (squeeze a ≡ squeeze b)
  codes_equal-iff-squeeze a b p q =
      rw (← normalize_user_code-squeeze a p, ← normalize_user_code-squeeze b q)
        (codes_equal_iff a b)

  pub codes_equal_refl : (a : Text) → codes_equal a a ≡ true
  codes_equal_refl a = (codes_equal_iff a a).1 refl
