-- ===== src/Graph/PathTemplate/Separators.antt =====
-- Values bring no separator into a path.
use wats.Base.{
  ℕ, ◌≡◌, refl, inl, inr, Bool, true, false, not, ◌||◌, none, List, [], ◌∷◌, ◌++◌, any, All, keep,
  arith, ◌==◌, Option-cases,
}
use wats.Base.Result.{ok, Result-cases}
use wats.Base.Text.{Text}
use wats.Graph.PathTemplate.{
  is_placeholder_name, is_name_unit, Piece, unit, hole, scan, parse_path_template,
  assert_safe_path_param_value, get_param, resolve_path,
}
use wats.Graph.PathTemplate.Pieces.{render, holes, IsPiece, render-scan, parse_path_template-holes}
use wats.Graph.PathTemplate.Fill.{ArePlain, check_values, fill, resolve_path-fill}

abbrev pub is_separator : ℕ → Bool
is_separator c = c == b'/' || c == b'\\' || c == b'?' || c == b'#'

-- The separators of a text, in order.
abbrev pub separators : Text → Text
separators s = keep is_separator s

separators-append : (s t : Text) → separators (s ++ t) ≡ separators s ++ separators t
separators-append [] t = refl
separators-append (c ∷ s) t = ground (arith, separators-append s t)

separators-excluded :
    (value : Text)
    → any (λ c. c == b'/') value ≡ false
    → any (λ c. c == b'\\') value ≡ false
    → any (λ c. c == b'?') value ≡ false
    → any (λ c. c == b'#') value ≡ false
    → separators value ≡ []
separators-excluded [] h₁ h₂ h₃ h₄ = refl
separators-excluded (c ∷ s) h₁ h₂ h₃ h₄ = ground (arith, separators-excluded s)

-- A value that passes the check has no separator.
assert_safe_path_param_value-separators :
    (value : Text) → assert_safe_path_param_value value ≡ ok tt → separators value ≡ []
unfolding assert_safe_path_param_value
assert_safe_path_param_value-separators value h = ground (arith, h, separators-excluded value)

separators-name_units : (s : Text) → any (λ d. not (is_name_unit d)) s ≡ false → separators s ≡ []
separators-name_units [] h = refl
separators-name_units (c ∷ s) h = grind (arith, separators-name_units s)

is_placeholder_name-separators :
    (name : Text) → is_placeholder_name name ≡ true → separators name ≡ []
unfolding is_placeholder_name
is_placeholder_name-separators [] h = refl
is_placeholder_name-separators (c ∷ s) h = grind (arith, separators-name_units s)

-- A piece's separators in a template and in a path.
separators-fill :
    (ps : List Piece) (params : List (Text × Text))
    → All IsPiece ps
    → check_values params (holes ps) ≡ ok tt
    → separators (fill params ps) ≡ separators (render ps)
unfolding fill render check_values holes
separators-fill [] params k h = refl
separators-fill (unit c ∷ ps) params k h = ground (arith, separators-fill ps params (k.1) h)
separators-fill (hole name ∷ ps) params k h = elim (Option-cases (get_param name params)) [
  | inl e ↦ absurd (ground (arith, e))
  | inr (value, e) ↦ elim (Result-cases (assert_safe_path_param_value value)) [
    | inr (code, x) ↦ absurd (ground (arith, e, x))
    | inl (done, x) ↦ ground (
      arith,
      e,
      x,
      separators-append value (fill params ps),
      separators-append name (b'}' ∷ render ps),
      assert_safe_path_param_value-separators value x,
      is_placeholder_name-separators name (k.0),
      separators-fill ps params (k.1),
    )
  ]
]

-- For an accepted template and parameters whose values have no dollar and no opening brace, a path
-- that `resolvePath` gives has the separators `/`, `\`, `?` and `#` of the template, in the same
-- order, and no other.
pub resolve_path-separators :
    (template path : Text) (names : List Text) (params : List (Text × Text))
    → parse_path_template template ≡ ok names
    → ArePlain params
    → resolve_path template params names ≡ ok path
    → separators path ≡ separators template
resolve_path-separators template path names params h plain r =
    let (e, pieces) = parse_path_template-holes template names h in
    elim (Result-cases (check_values params names)) [
      | inl (done, x) ↦ ground (
        arith,
        r,
        x,
        e,
        resolve_path-fill template names params h plain,
        separators-fill (scan template none) params pieces,
        render-scan template,
      )
      | inr (code, x) ↦
          absurd (ground (arith, r, x, resolve_path-fill template names params h plain))
    ]
