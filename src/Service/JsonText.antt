-- ===== src/Service/JsonText.antt =====
-- `JSON.stringify` of strings and of arrays of strings, as packages/service uses it for its keys:
-- texts are lists of UTF-16 code units.
use wats.Base.{
  ℕ, ◌+◌, ◌/◌, ◌%◌, Bool, ◌&&◌, ◌||◌, List, [], ◌∷◌, ◌++◌, ltb, leb, ◌==◌, if◌then◌else◌,
}
use wats.Base.Text.{Text}

abbrev pub hex_digit : ℕ → ℕ
hex_digit n = if ltb n 10 then b'0' + n else 87 + n

-- `\uXXXX`
pub unicode_escape : ℕ → Text
unicode_escape c =
    b'\\'
    ∷ b'u'
    ∷ hex_digit (c / 4096 % 16)
    ∷ hex_digit (c / 256 % 16)
    ∷ hex_digit (c / 16 % 16)
    ∷ hex_digit (c % 16)
    ∷ []

-- What stands for a code unit that is no surrogate.
pub escape_unit : ℕ → Text
escape_unit c =
    if c == b'"'
    then b'\\' ∷ b'"' ∷ []
    else if c == b'\\'
    then b'\\' ∷ b'\\' ∷ []
    else if c == 8
    then b'\\' ∷ b'b' ∷ []
    else if c == 9
    then b'\\' ∷ b't' ∷ []
    else if c == 10
    then b'\\' ∷ b'n' ∷ []
    else if c == 12
    then b'\\' ∷ b'f' ∷ []
    else if c == 13
    then b'\\' ∷ b'r' ∷ []
    else if ltb c 32
    then unicode_escape c
    else c ∷ []

abbrev pub is_lead : ℕ → Bool
is_lead c = leb 0xd800 c && leb c 0xdbff

abbrev pub is_trail : ℕ → Bool
is_trail c = leb 0xdc00 c && leb c 0xdfff

-- What stands for a code unit that is not the first of a surrogate pair.
pub escape_single : ℕ → Text
escape_single c = if is_lead c || is_trail c then unicode_escape c else escape_unit c

pub escape : Text → Text
escape [] = []
escape (c ∷ []) = escape_single c
escape (c ∷ d ∷ s) =
    let pair = c ∷ d ∷ escape s in
    let single = escape_single c ++ escape (d ∷ s) in
    if is_lead c && is_trail d then pair else single

pub quote : Text → Text
quote s = b'"' ∷ (escape s ++ b'"' ∷ [])

-- Texts between commas.
pub comma_separated : List Text → Text
comma_separated [] = []
comma_separated (t ∷ []) = t
comma_separated (t ∷ u ∷ ts) = t ++ b',' ∷ comma_separated (u ∷ ts)

pub quote_all : List Text → List Text
quote_all [] = []
quote_all (t ∷ ts) = quote t ∷ quote_all ts

-- `JSON.stringify` of an array of strings
pub stringify_strings : List Text → Text
stringify_strings ts = b'[' ∷ (comma_separated (quote_all ts) ++ b']' ∷ [])
