-- ===== src/Text/Encoding.antt =====
-- The standard library's hexadecimal and raw base64url encodings, with lemmas on them.
use xdauth.Prelude.{
  ℕ, ◌+◌, ◌-◌, ◌*◌, ◌/◌, ◌%◌, ◌<◌, ◌≡◌, refl, [], ◌∷◌, All, length, arith, ltb, ◌==◌, if◌then◌else◌,
}
use xdauth.Text.{Text}

abbrev hex_digit : ℕ → ℕ
hex_digit d = if ltb d 10 then 48 + d else 87 + d

-- `hex.EncodeToString`
unfoldable pub hex : Text → Text
hex [] = []
hex (b ∷ bs) = hex_digit (b / 16) ∷ hex_digit (b % 16) ∷ hex bs

abbrev pub AreBytes : Text → Type 0
AreBytes = All (λ b. b < 256)

hex_digit_injective : (a b : ℕ) → a < 16 → b < 16 → hex_digit a ≡ hex_digit b → a ≡ b
hex_digit_injective a b p q h = ground arith

pub hex_injective : (a b : Text) → AreBytes a → AreBytes b → hex a ≡ hex b → a ≡ b
unfolding hex
hex_injective [] [] p q h = refl
hex_injective [] (y ∷ ys) p q h = cc
hex_injective (x ∷ xs) [] p q h = cc
hex_injective (x ∷ xs) (y ∷ ys) p q h = ground (
  arith,
  hex_digit_injective (x / 16) (y / 16),
  hex_digit_injective (x % 16) (y % 16),
  hex_injective xs ys p.1 q.1,
)

pub length-hex : (t : Text) → length (hex t) ≡ 2 * length t
unfolding hex
length-hex [] = omega arith
length-hex (b ∷ bs) = omega (arith, length-hex bs)

-- The alphabet A-Z a-z 0-9 - _ of `base64.RawURLEncoding`.
abbrev base64_digit : ℕ → ℕ
base64_digit d =
    if ltb d 26
    then 65 + d
    else if ltb d 52
    then 71 + d
    else if ltb d 62
    then d - 4
    else if d == 62
    then 45
    else 95

-- `base64.RawURLEncoding.EncodeToString`: six bits to a character, and no padding.
unfoldable pub base64 : Text → Text
base64 [] = []
base64 (a ∷ []) = base64_digit (a / 4) ∷ base64_digit (a % 4 * 16) ∷ []
base64 (a ∷ b ∷ []) =
    base64_digit (a / 4) ∷ base64_digit (a % 4 * 16 + b / 16) ∷ base64_digit (b % 16 * 4) ∷ []
base64 (a ∷ b ∷ c ∷ r) =
    base64_digit (a / 4)
    ∷ base64_digit (a % 4 * 16 + b / 16)
    ∷ base64_digit (b % 16 * 4 + c / 64)
    ∷ base64_digit (c % 64)
    ∷ base64 r

base64_digit_injective : (a b : ℕ) → a < 64 → b < 64 → base64_digit a ≡ base64_digit b → a ≡ b
base64_digit_injective a b p q h = ground arith

base64_group :
    {a b c x y z : ℕ}
    → a < 256
    → b < 256
    → c < 256
    → x < 256
    → y < 256
    → z < 256
    → a / 4 ≡ x / 4
    → a % 4 * 16 + b / 16 ≡ x % 4 * 16 + y / 16
    → b % 16 * 4 + c / 64 ≡ y % 16 * 4 + z / 64
    → c % 64 ≡ z % 64
    → (a ≡ x) × (b ≡ y) × (c ≡ z)
base64_group h1 h2 h3 h4 h5 h6 e1 e2 e3 e4 = omega arith

pub base64_injective : (a b : Text) → AreBytes a → AreBytes b → base64 a ≡ base64 b → a ≡ b
unfolding base64
base64_injective [] [] p q h = refl
base64_injective [] (x ∷ []) p q h = cc
base64_injective [] (x ∷ y ∷ []) p q h = cc
base64_injective [] (x ∷ y ∷ z ∷ s) p q h = cc
base64_injective (a ∷ []) [] p q h = cc
base64_injective (a ∷ []) (x ∷ []) p q h = ground (
  arith,
  base64_digit_injective (a / 4) (x / 4),
  base64_digit_injective (a % 4 * 16) (x % 4 * 16),
)
base64_injective (a ∷ []) (x ∷ y ∷ []) p q h = cc
base64_injective (a ∷ []) (x ∷ y ∷ z ∷ s) p q h = cc
base64_injective (a ∷ b ∷ []) [] p q h = cc
base64_injective (a ∷ b ∷ []) (x ∷ []) p q h = cc
base64_injective (a ∷ b ∷ []) (x ∷ y ∷ []) p q h = ground (
  arith,
  base64_digit_injective (a / 4) (x / 4),
  base64_digit_injective (a % 4 * 16 + b / 16) (x % 4 * 16 + y / 16),
  base64_digit_injective (b % 16 * 4) (y % 16 * 4),
)
base64_injective (a ∷ b ∷ []) (x ∷ y ∷ z ∷ s) p q h = cc
base64_injective (a ∷ b ∷ c ∷ r) [] p q h = cc
base64_injective (a ∷ b ∷ c ∷ r) (x ∷ []) p q h = cc
base64_injective (a ∷ b ∷ c ∷ r) (x ∷ y ∷ []) p q h = cc
base64_injective (a ∷ b ∷ c ∷ r) (x ∷ y ∷ z ∷ s) p q h = ground (
  arith,
  base64_digit_injective (a / 4) (x / 4),
  base64_digit_injective (a % 4 * 16 + b / 16) (x % 4 * 16 + y / 16),
  base64_digit_injective (b % 16 * 4 + c / 64) (y % 16 * 4 + z / 64),
  base64_digit_injective (c % 64) (z % 64),
  base64_injective r s p.1.1.1 q.1.1.1,
)
