-- ===== src/Graph/PathTemplate.antt =====
-- packages/graph/src/endpoint.ts: the path templates of endpoints, and how a template's placeholders
-- are replaced by parameter values. Texts are lists of UTF-16 code units.
pub mod Pieces
pub mod Fill
pub mod Separators
mod Tests
use wats.Base.{
  ℕ, ◌+◌, Bool, true, false, not, ◌&&◌, ◌||◌, Option, none, some, List, [], ◌∷◌, ◌++◌, any, ltb,
  leb, ◌==◌, if◌then◌else◌,
}
use wats.Base.Result.{Result, ok, err, ◌>>=◌, ◌>>◌, guard}
use wats.Base.Text.{Text, codes, text_eq, is_empty}

-- The messages of `GraphRequestValidationError`, as far as they concern templates and values.
pub data TemplateError : Type 0 where
  empty_placeholder bad_placeholder duplicate_placeholder unbalanced_braces missing_path_param
        empty_value dot_segment path_traversal query_or_fragment control_character :
      TemplateError

-- `hasControlChar`
unfoldable pub has_control_char : Text → Bool
has_control_char s = any (λ c. ltb c 0x20 || c == 0x7f) s

abbrev is_name_start : ℕ → Bool
is_name_start c = (leb b'a' c && leb c b'z') || (leb b'A' c && leb c b'Z') || c == b'_'

abbrev is_name_unit : ℕ → Bool
is_name_unit c = is_name_start c || (leb b'0' c && leb c b'9')

-- `PLACEHOLDER_NAME_REGEXP`
unfoldable pub is_placeholder_name : Text → Bool
is_placeholder_name [] = false
is_placeholder_name (c ∷ s) = is_name_start c && not (any (λ d. not (is_name_unit d)) s)

-- A code unit that stands for itself, or a placeholder `{name}`.
pub data Piece : Type 0 where
  unit : ℕ → Piece
  hole : Text → Piece

abbrev pub units : Text → List Piece
units [] = []
units (c ∷ s) = unit c ∷ units s

-- The matches of `PLACEHOLDER_SCAN_REGEXP` and what stands between them; the second argument is
-- what follows a brace that is open.
unfoldable pub scan : Text → Option Text → List Piece
scan [] none = []
scan [] (some name) = unit b'{' ∷ units name
scan (c ∷ s) none = elim (c == b'{') [ true ↦ scan s (some []) | false ↦ unit c ∷ scan s none ]
scan (c ∷ s) (some name) = elim (c == b'}') [
  | true ↦ hole name ∷ scan s none
  | false ↦ elim (c == b'{') [
    | true ↦ unit b'{' ∷ (units name ++ scan s (some []))
    | false ↦ scan s (some (name ++ c ∷ []))
  ]
]

-- The loop of `parsePathTemplate`, with the names that were seen.
unfoldable pub placeholders : List Piece → List Text → Result TemplateError (List Text)
placeholders [] seen = ok []
placeholders (unit c ∷ ps) seen = placeholders ps seen
placeholders (hole name ∷ ps) seen =
    let rest = placeholders ps (name ∷ seen) in
    do
      guard (not (is_empty name)) empty_placeholder
      guard (is_placeholder_name name) bad_placeholder
      guard (not (any (text_eq name) seen)) duplicate_placeholder
      names ← rest
      ok (name ∷ names)

-- `stripped.includes("{") || stripped.includes("}")`
unfoldable pub has_stray_brace : List Piece → Bool
has_stray_brace [] = false
has_stray_brace (unit c ∷ ps) = c == b'{' || c == b'}' || has_stray_brace ps
has_stray_brace (hole name ∷ ps) = has_stray_brace ps

-- `parsePathTemplate`
unfoldable pub parse_path_template : Text → Result TemplateError (List Text)
parse_path_template template = do
  names ← placeholders (scan template none) []
  guard (not (has_stray_brace (scan template none))) unbalanced_braces
  ok names

abbrev includes : Text → ℕ → Bool
includes s c = any (λ d. d == c) s

-- `assertSafePathParamValue`
unfoldable pub assert_safe_path_param_value : Text → Result TemplateError (Unit {0})
assert_safe_path_param_value value = do
  guard (not (is_empty value)) empty_value
  guard (not (text_eq value (codes ".") || text_eq value (codes ".."))) dot_segment
  guard (not (includes value b'/' || includes value b'\\')) path_traversal
  guard (not (includes value b'?' || includes value b'#')) query_or_fragment
  guard (not (has_control_char value)) control_character

-- The text after a prefix.
unfoldable pub after_prefix : Text → Text → Option Text
after_prefix [] s = some s
after_prefix (p ∷ ps) [] = none
after_prefix (p ∷ ps) (c ∷ s) = let rest = after_prefix ps s in if p == c then rest else none

abbrev pub before : ℕ → Option (Text × Text) → Option (Text × Text)
before c none = none
before c (some (s, t)) = some (c ∷ s, t)

-- What stands before and after the first occurrence of a pattern that is not empty.
unfoldable pub split_at : Text → Text → Option (Text × Text)
split_at pattern [] = none
split_at pattern (c ∷ s) =
    let later = before c (split_at pattern s) in
    elim (after_prefix pattern (c ∷ s)) [ none ↦ later | some rest ↦ some ([], rest) ]

-- The replacement text of `String.prototype.replace` for a pattern that is a string: `$$`, `$&`,
-- `$` with a backquote and `$'` stand for a dollar, the match, what is before it and what is after it.
unfoldable pub expand : Text → Text → Text → Text → Text
expand matched pre post [] = []
expand matched pre post (c ∷ []) = c ∷ []
expand matched pre post (c ∷ d ∷ s) =
    let rest = expand matched pre post s in
    let plain = c ∷ expand matched pre post (d ∷ s) in
    if not (c == b'$')
    then plain
    else if d == b'$'
    then b'$' ∷ rest
    else if d == b'&'
    then matched ++ rest
    else if d == 0x60
    then pre ++ rest
    else if d == 0x27
    then post ++ rest
    else plain

abbrev pub placeholder : Text → Text
placeholder name = b'{' ∷ (name ++ b'}' ∷ [])

abbrev pub spliced : Text → Text → Text → Option (Text × Text) → Text
spliced pattern value text none = text
spliced pattern value text (some (pre, post)) = pre ++ expand pattern pre post value ++ post

-- `resolved.replace(pattern, value)`
unfoldable pub replace_first : Text → Text → Text → Text
replace_first text pattern value = spliced pattern value text (split_at pattern text)

-- The value of a parameter that is a string.
unfoldable pub get_param : Text → List (Text × Text) → Option Text
get_param name [] = none
get_param name ((n, v) ∷ ps) = if text_eq n name then some v else get_param name ps

-- `resolvePath`
unfoldable pub resolve_path : Text → List (Text × Text) → List Text → Result TemplateError Text
resolve_path resolved params [] = ok resolved
resolve_path resolved params (name ∷ names) = elim (get_param name params) [
  | none ↦ err missing_path_param
  | some value ↦ do
    assert_safe_path_param_value value
    resolve_path (replace_first resolved (placeholder name) value) params names
]
