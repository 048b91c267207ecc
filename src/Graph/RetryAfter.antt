-- ===== src/Graph/RetryAfter.antt =====
-- packages/graph/src/reliableTransport.ts, `parseRetryAfterMs`: the value of a Retry-After header,
-- as a list of UTF-16 code units, read as a number of seconds or as a date.
pub mod Digits
use wats.Base.{
  ℕ, suc, ◌+◌, ◌-◌, ◌*◌, ◌^◌, Bool, true, false, ◌&&◌, ◌||◌, Option, none, some, List, [], ◌∷◌,
  reverse, ltb, leb, ◌==◌, if◌then◌else◌,
}

-- A number num / den.
pub record Fraction : Type 0 where
  pub num : ℕ
  pub den : ℕ

-- The code units that `trim` removes.
unfoldable pub is_space : ℕ → Bool
is_space c =
    (leb 9 c && leb c 13)
    || c == 32
    || c == 0xa0
    || c == 0x1680
    || (leb 0x2000 c && leb c 0x200a)
    || c == 0x2028
    || c == 0x2029
    || c == 0x202f
    || c == 0x205f
    || c == 0x3000
    || c == 0xfeff

pub drop_spaces : List ℕ → List ℕ
drop_spaces [] = []
drop_spaces (c ∷ s) = if is_space c then drop_spaces s else c ∷ s

pub trim : List ℕ → List ℕ
trim s = reverse (drop_spaces (reverse (drop_spaces s)))

abbrev pub is_digit : ℕ → Bool
is_digit c = leb b'0' c && leb c b'9'

-- The value and the count of the leading digits, and what follows them.
pub record Scanned : Type 0 where
  pub value : ℕ
  pub count : ℕ
  pub rest : List ℕ

pub scan_digits : ℕ → ℕ → List ℕ → Scanned
scan_digits value count [] = record { value = value; count = count; rest = [] }
scan_digits value count (c ∷ s) =
    let more = scan_digits (value * 10 + (c - b'0')) (suc count) s in
    if is_digit c then more else record { value = value; count = count; rest = c ∷ s }

-- The fraction digits behind `whole`.
pub decimal_fraction : ℕ → Scanned → Option Fraction
decimal_fraction whole f = elim f.rest [
  | [] ↦
      if f.count == 0
      then none
      else some (record { num = whole * 10 ^ f.count + f.value; den = 10 ^ f.count })
  | c ∷ s ↦ none
]

-- What follows the whole digits: nothing, or a point and the fraction digits.
pub decimal_rest : ℕ → List ℕ → Option Fraction
decimal_rest whole [] = some (record { num = whole; den = 1 })
decimal_rest whole (c ∷ s) = if c == b'.' then decimal_fraction whole (scan_digits 0 0 s) else none

abbrev decimal_whole : Scanned → Option Fraction
decimal_whole whole = if whole.count == 0 then none else decimal_rest whole.value whole.rest

-- `/^\d+(?:\.\d+)?$/` with the number that the text denotes.
pub decimal : List ℕ → Option Fraction
decimal s = decimal_whole (scan_digits 0 0 s)

-- `Number.isFinite(Number(…))`: from this bound on a text is rounded to `Infinity`.
unfoldable pub is_finite : Fraction → Bool
is_finite x = ltb x.num ((2 ^ 1024 - 2 ^ 970) * x.den)

abbrev starts_with_minus : List ℕ → Bool
starts_with_minus [] = false
starts_with_minus (c ∷ s) = c == b'-'

-- `Math.max(0, dateMs - nowMs)` for a date that can be read
pub parse_date_ms : (List ℕ → Option ℕ) → List ℕ → ℕ → Option Fraction
parse_date_ms date_parse s now = if starts_with_minus s then none else elim (date_parse s) [
  | none ↦ none
  | some date ↦ some (record { num = date - now; den = 1 })
]

pub parse_trimmed : (List ℕ → Option ℕ) → List ℕ → ℕ → Option Fraction
parse_trimmed date_parse [] now = none
parse_trimmed date_parse (c ∷ s) now = elim (decimal (c ∷ s)) [
  | none ↦ parse_date_ms date_parse (c ∷ s) now
  | some seconds ↦
      if is_finite seconds
      then some (record { num = seconds.num * 1000; den = seconds.den })
      else parse_date_ms date_parse (c ∷ s) now
]

unfoldable pub parse_retry_after_ms : (List ℕ → Option ℕ) → Option (List ℕ) → ℕ → Option Fraction
parse_retry_after_ms date_parse none now = none
parse_retry_after_ms date_parse (some header) now = parse_trimmed date_parse (trim header) now
