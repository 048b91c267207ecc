-- ===== src/Http/Signature/Hex.antt =====
-- Lower-case hexadecimal text and the bytes that it stands for.
use wats.Base.{
  ℕ, ◌+◌, ◌*◌, ◌/◌, ◌%◌, ◌-◌, ◌≡◌, ◌<◌, ◌∙◌, refl, ap, true, some, List, [], ◌∷◌, All, length,
  arith, ltb, if◌then◌else◌,
}
use wats.Http.Signature.{is_hex, is_hex_text, digit_value, hex_pairs}

-- The digit of a value below 16.
unfoldable pub hex_digit : ℕ → ℕ
hex_digit n = if ltb n 10 then n + b'0' else n + 87

-- The two digits of each byte.
unfoldable pub hex_of : List ℕ → List ℕ
hex_of [] = []
hex_of (b ∷ bs) = hex_digit (b / 16) ∷ hex_digit (b % 16) ∷ hex_of bs

abbrev pub IsByte : ℕ → Type 0
IsByte b = b < 256

is_hex-hex_digit : (n : ℕ) → n < 16 → is_hex (hex_digit n) ≡ true
unfolding is_hex hex_digit
is_hex-hex_digit n h = ground arith

digit_value-hex_digit : (n : ℕ) → n < 16 → digit_value (hex_digit n) ≡ n
unfolding digit_value hex_digit
digit_value-hex_digit n h = ground arith

hex_digit-digit_value : (c : ℕ) → is_hex c ≡ true → hex_digit (digit_value c) ≡ c
unfolding is_hex digit_value hex_digit
hex_digit-digit_value c h = ground arith

digit_value-lt : (c : ℕ) → is_hex c ≡ true → digit_value c < 16
unfolding is_hex digit_value
digit_value-lt c h = ground arith

pairs-cons :
    (a b : ℕ) (s bs : List ℕ)
    → hex_pairs s ≡ some bs
    → is_hex a ≡ true
    → is_hex b ≡ true
    → hex_pairs (a ∷ b ∷ s) ≡ some ((digit_value a * 16 + digit_value b) ∷ bs)
unfolding hex_pairs
pairs-cons a b s bs h p q = rw (h, p, q) refl

pub hex_pairs-hex_of : (bs : List ℕ) → All IsByte bs → hex_pairs (hex_of bs) ≡ some bs
unfolding hex_pairs hex_of
hex_pairs-hex_of [] h = refl
hex_pairs-hex_of (b ∷ bs) h =
    let high : b / 16 < 16 = omega (arith, h.0) in
    let low : b % 16 < 16 = omega arith in
    pairs-cons (hex_digit (b / 16)) (hex_digit (b % 16)) (hex_of bs) bs (hex_pairs-hex_of bs h.1)
      (is_hex-hex_digit (b / 16) high) (is_hex-hex_digit (b % 16) low)
    ∙ ap (λ x. some (x ∷ bs))
        (omega (arith, digit_value-hex_digit (b / 16) high, digit_value-hex_digit (b % 16) low))

pub is_hex_text-hex_of : (bs : List ℕ) → All IsByte bs → is_hex_text (hex_of bs) ≡ true
unfolding hex_of
is_hex_text-hex_of [] h = refl
is_hex_text-hex_of (b ∷ bs) h = ground (
  arith,
  is_hex-hex_digit (b / 16) (omega (arith, h.0)),
  is_hex-hex_digit (b % 16) (omega arith),
  is_hex_text-hex_of bs h.1,
)

pub length-hex_of : (bs : List ℕ) → length (hex_of bs) ≡ 2 * length bs
unfolding hex_of
length-hex_of [] = refl
length-hex_of (b ∷ bs) = omega (arith, length-hex_of bs)

hex_of-cons :
    (a b : ℕ) (bs s : List ℕ)
    → is_hex a ≡ true
    → is_hex b ≡ true
    → hex_of bs ≡ s
    → hex_of ((digit_value a * 16 + digit_value b) ∷ bs) ≡ a ∷ b ∷ s
unfolding hex_of
hex_of-cons a b bs s pa pb h =
    let low = digit_value-lt b pb in
    let div : (digit_value a * 16 + digit_value b) / 16 ≡ digit_value a = omega (arith, low) in
    let rem : (digit_value a * 16 + digit_value b) % 16 ≡ digit_value b = omega (arith, low) in
    rw (div, rem, hex_digit-digit_value a pa, hex_digit-digit_value b pb, h) refl

-- A text of `2 * n` digits is that of its `n` bytes.
pub hex_pairs-of :
    (n : ℕ) (s : List ℕ)
    → length s ≡ 2 * n
    → is_hex_text s ≡ true
    → (bs : List ℕ) × (hex_pairs s ≡ some bs) × (hex_of bs ≡ s) × (length bs ≡ n)
unfolding hex_of hex_pairs
hex_pairs-of n [] h q = ([], refl, refl, omega (arith, h))
hex_pairs-of n (a ∷ []) h q = ground (arith, h)
hex_pairs-of n (a ∷ b ∷ s) h q =
    let pa : is_hex a ≡ true = ground (arith, q) in
    let pb : is_hex b ≡ true = ground (arith, q) in
    let more = hex_pairs-of (n - 1) s (omega (arith, h)) (ground (arith, q)) in
    (
      (digit_value a * 16 + digit_value b) ∷ more.0,
      pairs-cons a b s more.0 more.1 pa pb,
      hex_of-cons a b more.0 s pa pb more.2,
      omega (arith, more.3, h),
    )
