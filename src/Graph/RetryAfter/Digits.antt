-- ===== src/Graph/RetryAfter/Digits.antt =====
-- A Retry-After value of digits alone.
use mathlib.Core.List.{reverse-reverse, reverse-cons}
use wats.Base.{
  ℕ, suc, ◌+◌, ◌-◌, ◌*◌, ◌≡◌, refl, ap, ◌∙◌, true, false, Option, some, List, [], ◌∷◌, reverse,
  arith, All, All-append, length,
}
use wats.Graph.RetryAfter.{
  is_space, drop_spaces, trim, is_digit, scan_digits, decimal, decimal_whole, decimal_rest,
  is_finite, parse_trimmed, parse_retry_after_ms,
}

-- The number that a text of digits denotes, continued from `value`.
abbrev pub digits_value : ℕ → List ℕ → ℕ
digits_value value [] = value
digits_value value (c ∷ s) = digits_value (value * 10 + (c - b'0')) s

abbrev pub Digits : List ℕ → Type 0
Digits = All (λ c. is_digit c ≡ true)

scan_digits-Digits :
    (value count : ℕ) (s : List ℕ)
    → Digits s
    → scan_digits value count s
      ≡ record { value = digits_value value s; count = count + length s; rest = [] }
unfolding scan_digits
scan_digits-Digits value count [] h = ground arith
scan_digits-Digits value count (c ∷ s) (h, hs) =
    rw h (ground (arith, scan_digits-Digits (value * 10 + (c - b'0')) (suc count) s hs))

decimal-Digits :
    (c : ℕ) (s : List ℕ)
    → Digits (c ∷ s)
    → decimal (c ∷ s) ≡ some (record { num = digits_value 0 (c ∷ s); den = 1 })
unfolding decimal decimal_rest
decimal-Digits c s h = ap decimal_whole (scan_digits-Digits 0 0 (c ∷ s) h) ∙ ground arith

not-is_space : (c : ℕ) → is_digit c ≡ true → is_space c ≡ false
unfolding is_space
not-is_space c h = ground arith

drop_spaces-Digits : (s : List ℕ) → Digits s → drop_spaces s ≡ s
unfolding drop_spaces
drop_spaces-Digits [] h = refl
drop_spaces-Digits (c ∷ s) (h, hs) = rw (not-is_space c h)

reverse-Digits : (s : List ℕ) → Digits s → Digits (reverse s)
reverse-Digits [] h = tt
reverse-Digits (c ∷ s) (h, hs) =
    rw (reverse-cons c s) (All-append _ (reverse s) (c ∷ []) (reverse-Digits s hs) (h, tt))

trim-Digits : (s : List ℕ) → Digits s → trim s ≡ s
unfolding trim
trim-Digits s h =
    rw (drop_spaces-Digits s h, drop_spaces-Digits (reverse s) (reverse-Digits s h))
      (reverse-reverse s)

pub parse_retry_after_ms-Digits :
    (date_parse : List ℕ → Option ℕ) (now c : ℕ) (s : List ℕ)
    → Digits (c ∷ s)
    → is_finite (record { num = digits_value 0 (c ∷ s); den = 1 }) ≡ true
    → parse_retry_after_ms date_parse (some (c ∷ s)) now
      ≡ some (record { num = digits_value 0 (c ∷ s) * 1000; den = 1 })
unfolding parse_retry_after_ms parse_trimmed
parse_retry_after_ms-Digits date_parse now c s h finite =
    rw (trim-Digits (c ∷ s) h, parse_retry_after_ms)
      (rw (decimal-Digits c s h, parse_trimmed) (rw finite refl))
