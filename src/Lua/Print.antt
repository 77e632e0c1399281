-- ===== src/Lua/Print.antt =====
-- Decimal numbers as text, and what the C library reads of them.
use liblpm.Base.{
  ℕ, ◌+◌, ◌*◌, ◌/◌, ◌%◌, ◌≤◌, ◌<◌, ◌≡◌, refl, arith, ap, ◌∙◌, true, false, ◌==◌, ltb, if◌then◌else◌,
  some, [], ◌∷◌, length, Bool-cases, inl, inr,
}
use liblpm.Lua.Text.{
  Text, digit_value, is_digit, is_space, starts_number, skip_space, read_digits, read_number,
  split_at,
}

-- A number below 256 in decimal, before the text `s`.
abbrev pub print_byte : ℕ → Text → Text
print_byte n s =
    if ltb n 10
    then (48 + n) ∷ s
    else if ltb n 100
    then (48 + n / 10) ∷ (48 + n % 10) ∷ s
    else (48 + n / 100) ∷ (48 + n / 10 % 10) ∷ (48 + n % 10) ∷ s

digit_lem : (x : ℕ) → x < 10 → (is_digit 10 (48 + x) ≡ true) × (digit_value (48 + x) ≡ x)
digit_lem x h = (ground arith, ground arith)

read_digit :
    (acc x : ℕ) (s : Text)
    → x < 10
    → read_digits 10 acc ((48 + x) ∷ s) ≡ read_digits 10 (acc * 10 + x) s
unfolding read_digits
read_digit acc x s h = rw ((digit_lem x h).0, (digit_lem x h).1) refl

read_stop : (acc : ℕ) (s : Text) → starts_number 10 s ≡ false → read_digits 10 acc s ≡ (acc, s)
unfolding read_digits
read_stop acc [] e = refl
read_stop acc (c ∷ s) e = rw e refl

read_print :
    (n : ℕ) (s : Text)
    → n < 256
    → starts_number 10 s ≡ false
    → read_digits 10 0 (print_byte n s) ≡ (n, s)
read_print n s fits stop = elim (Bool-cases (ltb n 10)) [
  | inl one ↦
      let sum : 0 * 10 + n ≡ n = omega arith in
      rw (one, read_digit 0 n s (ground arith), sum) (read_stop n s stop)
  | inr more ↦ elim (Bool-cases (ltb n 100)) [
    | inl two ↦
        let sum : (0 * 10 + n / 10) * 10 + n % 10 ≡ n = omega arith in
        rw
          (
            more,
            two,
            read_digit 0 (n / 10) ((48 + n % 10) ∷ s) (ground arith),
            read_digit (0 * 10 + n / 10) (n % 10) s (omega arith),
            sum,
          )
          (read_stop n s stop)
    | inr three ↦
        let sum : ((0 * 10 + n / 100) * 10 + n / 10 % 10) * 10 + n % 10 ≡ n = omega arith in
        rw
          (
            more,
            three,
            read_digit 0 (n / 100) ((48 + n / 10 % 10) ∷ (48 + n % 10) ∷ s) (omega arith),
            read_digit (0 * 10 + n / 100) (n / 10 % 10) ((48 + n % 10) ∷ s) (omega arith),
            read_digit ((0 * 10 + n / 100) * 10 + n / 10 % 10) (n % 10) s (omega arith),
            sum,
          )
          (read_stop n s stop)
  ]
]

-- A text that starts with a digit is read as it is.
read_plain :
    (x : ℕ) (s : Text)
    → x < 10
    → read_number 10 ((48 + x) ∷ s)
      ≡ some (record {
        is_negative = false;
        magnitude = (read_digits 10 0 ((48 + x) ∷ s)).0;
        rest = (read_digits 10 0 ((48 + x) ∷ s)).1;
      })
unfolding read_number skip_space
read_plain x s h =
    let shown : is_space (48 + x) ≡ false = ground arith in
    let not_minus : (48 + x == 45) ≡ false = ground arith in
    let not_plus : (48 + x == 43) ≡ false = ground arith in
    rw (shown, not_minus, not_plus, (digit_lem x h).0) refl

pub read_number-print_byte :
    (n : ℕ) (s : Text)
    → n < 256
    → starts_number 10 s ≡ false
    → read_number 10 (print_byte n s)
      ≡ some (record { is_negative = false; magnitude = n; rest = s })
read_number-print_byte n s fits stop =
    plain
    ∙ ap (λ (o : ℕ × Text). some (record { is_negative = false; magnitude = o.0; rest = o.1 }))
        (read_print n s fits stop)
  where
    plain :
        read_number 10 (print_byte n s)
        ≡ some (record {
          is_negative = false;
          magnitude = (read_digits 10 0 (print_byte n s)).0;
          rest = (read_digits 10 0 (print_byte n s)).1;
        })
    plain = elim (Bool-cases (ltb n 10)) [
      | inl one ↦ rw one (read_plain n s (ground arith))
      | inr more ↦ elim (Bool-cases (ltb n 100)) [
        | inl two ↦ rw (more, two) (read_plain (n / 10) ((48 + n % 10) ∷ s) (ground arith))
        | inr three ↦
            rw (more, three)
              (read_plain (n / 100) ((48 + n / 10 % 10) ∷ (48 + n % 10) ∷ s) (omega arith))
      ]
    ]

pub split_past :
    (c x : ℕ) (s before after : Text)
    → (x == c) ≡ false
    → split_at c s ≡ some (before, after)
    → split_at c (x ∷ s) ≡ some (x ∷ before, after)
unfolding split_at
split_past c x s before after other e = rw (other, e) refl

-- Digits are not where a text is split.
pub split_at-print_byte :
    (c n : ℕ) (s before after : Text)
    → c < 48
    → split_at c s ≡ some (before, after)
    → split_at c (print_byte n s) ≡ some (print_byte n before, after)
split_at-print_byte c n s before after low e = elim (Bool-cases (ltb n 10)) [
  | inl one ↦ rw one (split_past c (48 + n) s before after (ground arith) e)
  | inr more ↦
      let last = split_past c (48 + n % 10) s before after (ground arith) e in
      elim (Bool-cases (ltb n 100)) [
        | inl two ↦ rw (more, two) (split_past c (48 + n / 10) _ _ after (ground arith) last)
        | inr three ↦
            rw (more, three)
              (split_past c (48 + n / 100) _ _ after (ground arith)
                (split_past c (48 + n / 10 % 10) _ _ after (ground arith) last))
      ]
]

pub length-print_byte : (n : ℕ) (s : Text) → length (print_byte n s) ≤ 3 + length s
length-print_byte n s = ground arith
