-- ===== src/Graph/PathTemplate/Fill.antt =====
-- Resolving a template puts the values in the places of their placeholders.
use wats.Base.{
  ℕ, ◌≡◌, ◌≢◌, ◌∙◌, refl, sym, ap, inl, inr, Option, none, some, List, [], ◌∷◌, ◌++◌, append_assoc,
  All, All-append, arith, ==_iff, ==_refl, Bool-cases, Option-cases,
}
use wats.Base.Result.{Result, ok, err, ◌>>=◌, ◌>>◌, Result-cases}
use wats.Base.Text.{Text, text_eq}
use wats.Graph.PathTemplate.{
  TemplateError, missing_path_param, Piece, unit, hole, scan, parse_path_template, placeholder,
  assert_safe_path_param_value, after_prefix, split_at, expand, replace_first, get_param,
  resolve_path,
}
use wats.Graph.PathTemplate.Pieces.{
  render, holes, Lacks, IsPiece, render-scan, parse_path_template-holes,
}

expand-plain :
    (matched pre post value : Text) → Lacks b'$' value → expand matched pre post value ≡ value
unfolding expand
expand-plain matched pre post [] h = refl
expand-plain matched pre post (c ∷ []) h = refl
expand-plain matched pre post (c ∷ d ∷ s) h =
    ground (arith, expand-plain matched pre post (d ∷ s) (h.1), ==_iff c b'$', h.0)

after_prefix-append : (p t : Text) → after_prefix p (p ++ t) ≡ some t
unfolding after_prefix
after_prefix-append [] t = refl
after_prefix-append (c ∷ p) t = ground (arith, ==_refl c, after_prefix-append p t)

after_prefix-placeholder :
    (name rest : Text) → after_prefix (placeholder name) (b'{' ∷ (name ++ b'}' ∷ rest)) ≡ some rest
after_prefix-placeholder name rest =
    ap (λ t. after_prefix (placeholder name) (b'{' ∷ t)) (sym (append_assoc name (b'}' ∷ []) rest))
    ∙ after_prefix-append (placeholder name) rest

split_at-placeholder :
    (name pre rest : Text)
    → Lacks b'{' pre
    → split_at (placeholder name) (pre ++ b'{' ∷ (name ++ b'}' ∷ rest)) ≡ some (pre, rest)
unfolding split_at
split_at-placeholder name [] rest h = ground (arith, after_prefix-placeholder name rest)
split_at-placeholder name (c ∷ pre) rest h = ground (
  arith,
  split_at-placeholder name pre rest (h.1),
  other c (pre ++ b'{' ∷ (name ++ b'}' ∷ rest)) (h.0),
)
  where
    other : (d : ℕ) (s : Text) → d ≢ b'{' → after_prefix (placeholder name) (d ∷ s) ≡ none
    other d s ne = unfold after_prefix in ground (arith, ==_iff b'{' d)

replace_first-placeholder :
    (name pre rest value : Text)
    → Lacks b'{' pre
    → Lacks b'$' value
    → replace_first (pre ++ b'{' ∷ (name ++ b'}' ∷ rest)) (placeholder name) value
      ≡ (pre ++ value) ++ rest
unfolding replace_first
replace_first-placeholder name pre rest value h k = ground (
  arith,
  split_at-placeholder name pre rest h,
  expand-plain (placeholder name) pre rest value k,
  append_assoc pre value rest,
)

-- A value without a dollar and without an opening brace.
abbrev pub IsPlain : Text → Type 0
IsPlain value = Lacks b'{' value × Lacks b'$' value

abbrev pub ArePlain : List (Text × Text) → Type 0
ArePlain params = All (λ p. IsPlain (p.1)) params

get_param-IsPlain :
    (name value : Text) (params : List (Text × Text))
    → ArePlain params
    → get_param name params ≡ some value
    → IsPlain value
unfolding get_param
get_param-IsPlain name value [] h e = cc
get_param-IsPlain name value ((n, v) ∷ params) h e = elim (Bool-cases (text_eq n name)) [
  | inl y ↦ ground (arith, h.0, y, e)
  | inr y ↦ get_param-IsPlain name value params (h.1) (ground (arith, y, e))
]

module _ (params : List (Text × Text)) where
  -- The checks of the values, in order.
  unfoldable pub check_values : List Text → Result TemplateError (Unit {0})
  check_values [] = ok tt
  check_values (name ∷ names) = elim (get_param name params) [
    | none ↦ err missing_path_param
    | some value ↦ do assert_safe_path_param_value value; check_values names
  ]

  abbrev pub value_or_empty : Option Text → Text
  value_or_empty none = []
  value_or_empty (some value) = value

  -- All placeholders at once.
  unfoldable pub fill : List Piece → Text
  fill [] = []
  fill (unit c ∷ ps) = c ∷ fill ps
  fill (hole name ∷ ps) = value_or_empty (get_param name params) ++ fill ps

  resolve_path-fill_lem :
      (ps : List Piece) (pre : Text)
      → Lacks b'{' pre
      → All IsPiece ps
      → ArePlain params
      → resolve_path (pre ++ render ps) params (holes ps)
        ≡ (check_values (holes ps) >>= λ _. ok (pre ++ fill ps))
  unfolding resolve_path render holes fill check_values
  resolve_path-fill_lem [] pre h k plain = refl
  resolve_path-fill_lem (unit c ∷ ps) pre h k plain =
      rw
        (
          sym (append_assoc pre (c ∷ []) (render ps)),
          resolve_path-fill_lem ps (pre ++ c ∷ [])
              (All-append (λ d. d ≢ b'{') pre (c ∷ []) h (k.0, tt)) (k.1) plain,
          append_assoc pre (c ∷ []) (fill ps),
        )
        refl
  resolve_path-fill_lem (hole name ∷ ps) pre h k plain =
      elim (Option-cases (get_param name params)) [
        | inl e ↦ ground (arith, e)
        | inr (value, e) ↦
            let plain_value : IsPlain value = get_param-IsPlain name value params plain e in
            elim (Result-cases (assert_safe_path_param_value value)) [
              | inr (code, x) ↦ ground (arith, e, x)
              | inl (done, x) ↦ ground (
                arith,
                e,
                x,
                replace_first-placeholder name pre (render ps) value h (plain_value.1),
                resolve_path-fill_lem ps (pre ++ value)
                    (All-append (λ d. d ≢ b'{') pre value h (plain_value.0)) (k.1) plain,
                append_assoc pre value (fill ps),
              )
            ]
      ]

-- For an accepted template and parameters whose values have no dollar and no opening brace,
-- `resolvePath` is the same as checking the values in the order of the template's placeholders and, if
-- no check fails, replacing all placeholders at once, each by the value of the parameter it names.
pub resolve_path-fill :
    (template : Text) (names : List Text) (params : List (Text × Text))
    → parse_path_template template ≡ ok names
    → ArePlain params
    → resolve_path template params names
      ≡ (check_values params names >>= λ _. ok (fill params (scan template none)))
resolve_path-fill template names params h plain =
    let (e, pieces) = parse_path_template-holes template names h in
    rw e (
      ap (λ t. resolve_path t params (holes (scan template none))) (sym (render-scan template))
      ∙ resolve_path-fill_lem params (scan template none) [] tt pieces plain)
