-- ===== src/Graph/PathTemplate/Pieces.antt =====
-- What an accepted template consists of.
use wats.Base.{
  ℕ, ◌≡◌, ◌≢◌, ◌∙◌, refl, sym, ap, inl, inr, true, false, Option, none, some, List, [], ◌∷◌, ◌++◌,
  append-nil, append_assoc, All, arith, ==_iff, Bool-cases,
}
use wats.Base.Result.{ok, Result-cases}
use wats.Base.Text.{Text}
use wats.Graph.PathTemplate.{
  is_placeholder_name, Piece, unit, hole, units, scan, placeholders, has_stray_brace,
  parse_path_template,
}

-- The template that consists of pieces.
unfoldable pub render : List Piece → Text
render [] = []
render (unit c ∷ ps) = c ∷ render ps
render (hole name ∷ ps) = b'{' ∷ (name ++ b'}' ∷ render ps)

-- The names of the placeholders, in order.
unfoldable pub holes : List Piece → List Text
holes [] = []
holes (unit c ∷ ps) = holes ps
holes (hole name ∷ ps) = name ∷ holes ps

abbrev pub Lacks : ℕ → Text → Type 0
Lacks c s = All (λ d. d ≢ c) s

abbrev pub IsPiece : Piece → Type 0
IsPiece (unit c) = c ≢ b'{'
IsPiece (hole name) = is_placeholder_name name ≡ true

render-units : (s : Text) (ps : List Piece) → render (units s ++ ps) ≡ s ++ render ps
unfolding render
render-units [] ps = refl
render-units (c ∷ s) ps = rw (render-units s ps) refl

abbrev opened : Option Text → Text
opened none = []
opened (some name) = b'{' ∷ name

render-scan_lem :
    (s : Text) (open_name : Option Text) → render (scan s open_name) ≡ opened open_name ++ s
unfolding render scan
render-scan_lem [] none = refl
render-scan_lem [] (some name) =
    ap (λ t. b'{' ∷ t) (ap render (sym (append-nil (units name))) ∙ render-units name [])
render-scan_lem (c ∷ s) none =
    ground (arith, render-scan_lem s none, render-scan_lem s (some []), ==_iff c b'{')
render-scan_lem (c ∷ s) (some name) = ground (
  arith,
  render-scan_lem s none,
  render-scan_lem s (some []),
  render-scan_lem s (some (name ++ c ∷ [])),
  append_assoc name (c ∷ []) s,
  render-units name (scan s (some [])),
  ==_iff c b'{',
  ==_iff c b'}',
)

-- The pieces make up the template.
pub render-scan : (s : Text) → render (scan s none) ≡ s
render-scan s = render-scan_lem s none

placeholders-holes :
    (ps : List Piece) (seen names : List Text)
    → placeholders ps seen ≡ ok names
    → has_stray_brace ps ≡ false
    → (names ≡ holes ps) × All IsPiece ps
unfolding placeholders has_stray_brace holes
placeholders-holes [] seen names h b = (ground (arith, h), tt)
placeholders-holes (unit c ∷ ps) seen names h b =
    ground (arith, placeholders-holes ps seen names h, ==_iff c b'{')
placeholders-holes (hole name ∷ ps) seen names h b =
    elim (Result-cases (placeholders ps (name ∷ seen))) [
      | inl (more, e) ↦ ground (arith, e, placeholders-holes ps (name ∷ seen) more e b)
      | inr (code, e) ↦ absurd (ground (arith, e))
    ]

-- An accepted template has pieces with valid names and no brace besides, and its names are theirs.
pub parse_path_template-holes :
    (template : Text) (names : List Text)
    → parse_path_template template ≡ ok names
    → (names ≡ holes (scan template none)) × All IsPiece (scan template none)
unfolding parse_path_template
parse_path_template-holes template names h =
    elim (Result-cases (placeholders (scan template none) [])) [
      | inl (more, e) ↦ elim (Bool-cases (has_stray_brace (scan template none))) [
        | inr b ↦ ground (arith, e, b, placeholders-holes (scan template none) [] more e b)
        | inl b ↦ absurd (ground (arith, e, b))
      ]
      | inr (code, e) ↦ absurd (ground (arith, e))
    ]
