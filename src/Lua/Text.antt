-- ===== src/Lua/Text.antt =====
-- What the functions of src/bindings/lua/src/liblpm_utils.c use of the C library. A string is the
-- list of its character codes, without the NUL at its end.
use liblpm.Base.{
  ℕ, ◌+◌, ◌-◌, ◌*◌, Bool, true, false, ◌&&◌, ◌||◌, ◌≡◌, refl, ◌==◌, ltb, leb, if◌then◌else◌, Option,
  none, some, List, [], ◌∷◌,
}

infixl 5 ◌>>=◌
abbrev pub ◌>>=◌ {ℓ κ} : {A : Type ℓ} {B : Type κ} → Option A → (A → Option B) → Option B
none >>= f = none
some a >>= f = f a

pub bind-some {ℓ κ} :
    {A : Type ℓ} {B : Type κ} (o : Option A) (f : A → Option B) (b : B)
    → (o >>= f) ≡ some b
    → (a : A) × ((o ≡ some a) × (f a ≡ some b))
bind-some none f b e = absurd (cc e)
bind-some (some a) f b e = (a, (refl, e))

pub some-eq {ℓ} : {A : Type ℓ} {a b : A} → some a ≡ some b → a ≡ b
some-eq e = cc e

abbrev pub Text : Type 0
Text = List ℕ

abbrev pub slash : ℕ
slash = 47

abbrev pub dot : ℕ
dot = 46

abbrev pub colon : ℕ
colon = 58

abbrev pub percent : ℕ
percent = 37

abbrev pub is_empty : Text → Bool
is_empty [] = true
is_empty (c ∷ s) = false

-- The first character is `c`.
abbrev pub starts : ℕ → Text → Bool
starts c [] = false
starts c (x ∷ s) = x == c

-- `isspace`
abbrev pub is_space : ℕ → Bool
is_space c = c == 32 || leb 9 c && leb c 13

-- What a digit or a letter of either case stands for.
abbrev pub digit_value : ℕ → ℕ
digit_value c = if leb c 57 then c - 48 else if leb 97 c then c - 87 else c - 55

abbrev pub is_digit : ℕ → ℕ → Bool
is_digit base c =
    (leb 48 c && leb c 57 || leb 65 c && leb c 90 || leb 97 c && leb c 122)
    && ltb (digit_value c) base

-- `strchr`: what is before the first `c` and what is after it.
unfoldable pub split_at : ℕ → Text → Option (Text × Text)
split_at c [] = none
split_at c (x ∷ s) =
    let later = split_at c s in
    if x == c
    then some ([], s)
    else elim later [ none ↦ none | some (before, after) ↦ some (x ∷ before, after) ]

-- A number as `strtol`, `strtoul` and `%u` read it, and what follows it.
pub record Number : Type 0 where
  pub is_negative : Bool
  pub magnitude : ℕ
  pub rest : Text

unfoldable pub skip_space : Text → Text
skip_space [] = []
skip_space (c ∷ s) = let later = skip_space s in if is_space c then later else c ∷ s

abbrev pub sign : Text → Bool × Text
sign [] = (false, [])
sign (c ∷ s) = if c == 45 then (true, s) else if c == 43 then (false, s) else (false, c ∷ s)

-- The `0x` that may stand before a hexadecimal number.
abbrev pub hex_mark : Text → Text
hex_mark (c ∷ x ∷ d ∷ s) =
    if c == 48 && ((x == 120 || x == 88) && is_digit 16 d) then d ∷ s else c ∷ x ∷ d ∷ s
hex_mark (c ∷ x ∷ []) = c ∷ x ∷ []
hex_mark (c ∷ []) = c ∷ []
hex_mark [] = []

unfoldable pub read_digits : ℕ → ℕ → Text → ℕ × Text
read_digits base acc [] = (acc, [])
read_digits base acc (c ∷ s) =
    let later = read_digits base (acc * base + digit_value c) s in
    if is_digit base c then later else (acc, c ∷ s)

abbrev pub starts_number : ℕ → Text → Bool
starts_number base [] = false
starts_number base (c ∷ s) = is_digit base c

abbrev pub unmarked : ℕ → Text → Text
unmarked base s = if base == 16 then hex_mark s else s

-- The number after white space, a sign and its mark; none if there is none.
unfoldable pub read_number : ℕ → Text → Option Number
unfolding read_digits skip_space
read_number base s =
    if starts_number base s_digits
    then some (record {
      is_negative = (sign (skip_space s)).0;
      magnitude = (read_digits base 0 s_digits).0;
      rest = (read_digits base 0 s_digits).1;
    })
    else none
  where
    s_digits : Text
    s_digits = unmarked base (sign (skip_space s)).1
