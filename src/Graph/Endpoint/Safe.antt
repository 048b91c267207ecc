-- ===== src/Graph/Endpoint/Safe.antt =====
-- What the checks of `defineEndpoint` guarantee of the path and the query of a request.
use wats.Base.{
  ◌≡◌, ◌≢◌, refl, inl, inr, Bool, true, false, ◌||◌, Option, none, some, List, [], ◌∷◌, All, arith,
  ==_iff, Bool-cases, Option-cases,
}
use mathlib.Core.Path.{subst}
use wats.Base.Result.{Result, ok, err, ◌>>=◌, ◌>>◌, Result-cases}
use wats.Base.Text.{Text, text_eq, text_eq_refl}
use wats.Graph.PathTemplate.{parse_path_template, resolve_path}
use wats.Graph.PathTemplate.Fill.{IsPlain, ArePlain}
use wats.Graph.PathTemplate.Separators.{separators, resolve_path-separators}
use wats.Graph.Endpoint.{
  EndpointError, in_path, in_query, elsewhere, Spec, not_object, spec, Definition, Value, text,
  not_text, lookup, lifted, Endpoint, define_endpoint, is_present, check_known, path_value,
  path_values, is_safe_query_value, query_value, build_query, invoke,
}

ok-injective {ℓ κ} :
    {E : Type ℓ} {A : Type κ} {a b : A} → ◌≡◌ {A = Result E A} (ok a) (ok b) → a ≡ b
ok-injective h = ground (arith, h)

-- Whether a name is that of a query parameter.
pub declares : Text → List (Text × Spec) → Bool
declares name [] = false
declares name ((n, spec in_query required) ∷ specs) = text_eq n name || declares name specs
declares name ((n, s) ∷ specs) = declares name specs

bind-ok {ℓ κ μ} :
    {E : Type ℓ} {A : Type κ} {B : Type μ} (m : Result E A) (f : A → Result E B) (b : B)
    → (m >>= f) ≡ ok b
    → (a : A) × (m ≡ ok a) × (f a ≡ ok b)
bind-ok (ok a) f b h = (a, refl, h)
bind-ok (err e) f b h = absurd (ground (arith, h))

then-ok {ℓ κ} :
    {E : Type ℓ} {B : Type κ} (m : Result E (Unit {0})) (n : Result E B) (b : B)
    → (m >> n) ≡ ok b
    → n ≡ ok b
then-ok (ok a) n b h = h
then-ok (err e) n b h = absurd (ground (arith, h))

lifted-ok {ℓ} : {A : Type ℓ} (m : Result _ A) (a : A) → lifted m ≡ ok a → m ≡ ok a
lifted-ok (ok x) a h = ground (arith, h)
lifted-ok (err e) a h = absurd (ground (arith, h))

define_endpoint-parsed :
    (d : Definition) (e : Endpoint)
    → define_endpoint d ≡ ok e
    → parse_path_template e.template ≡ ok e.path_param_names
unfolding define_endpoint
define_endpoint-parsed d e h = elim (Option-cases d.method) [
  | inl m ↦ absurd (ground (arith, m, h))
  | inr (method, m) ↦ elim (Option-cases d.path_template) [
    | inl t ↦ absurd (ground (arith, m, t, h))
    | inr (template, t) ↦ elim (Option-cases d.params) [
      | inl p ↦ absurd (ground (arith, m, t, p, h))
      | inr (params, p) ↦ elim (Result-cases (parse_path_template template)) [
        | inl (names, n) ↦ ground (arith, m, t, p, n, h)
        | inr (code, n) ↦ absurd (ground (arith, m, t, p, n, h))
      ]
    ]
  ]
]

abbrev pub IsPlainValue : Value → Type 0
IsPlainValue (text value) = IsPlain value
IsPlainValue not_text = Unit

abbrev pub ArePlainValues : List (Text × Value) → Type 0
ArePlainValues params = All (λ p. IsPlainValue p.1) params

lookup-IsPlain :
    (name value : Text) (params : List (Text × Value))
    → ArePlainValues params
    → lookup name params ≡ some (text value)
    → IsPlain value
unfolding lookup
lookup-IsPlain name value [] h e = cc
lookup-IsPlain name value ((n, v) ∷ params) h e = elim (Bool-cases (text_eq n name)) [
  | inl y ↦ plain v (h.0) (ground (arith, y, e))
  | inr y ↦ lookup-IsPlain name value params (h.1) (ground (arith, y, e))
]
  where
    plain : (v : Value) → IsPlainValue v → v ≡ text value → IsPlain value
    plain (text w) p e = ground (arith, p, e)
    plain not_text p e = absurd (ground (arith, e))

path_value-text :
    (v : Option Value) (value : Text) → path_value v ≡ ok value → v ≡ some (text value)
unfolding path_value
path_value-text none value h = absurd (ground (arith, h))
path_value-text (some not_text) value h = absurd (ground (arith, h))
path_value-text (some (text w)) value h = ground (arith, h)

path_values-ArePlain :
    (params : List (Text × Value)) (names : List Text) (values : List (Text × Text))
    → ArePlainValues params
    → path_values params names ≡ ok values
    → ArePlain values
unfolding path_values
path_values-ArePlain params [] values h e = subst ArePlain (ok-injective e) tt
path_values-ArePlain params (name ∷ names) values h e =
    let (value, found, e₁) =
      bind-ok (path_value (lookup name params))
        (λ v. path_values params names >>= λ vs. ok ((name, v) ∷ vs)) values e in
    let (more, rest, e₂) =
      bind-ok (path_values params names) (λ vs. ok ((name, value) ∷ vs)) values e₁ in
    subst ArePlain (ok-injective e₂) (
      lookup-IsPlain name value params h (path_value-text (lookup name params) value found),
      path_values-ArePlain params names more h rest,
    )

-- No NUL, LF or CR stands in a text.
abbrev pub IsClean : Text → Type 0
IsClean value = All (λ c. (c ≢ 0) × (c ≢ 10) × (c ≢ 13)) value

is_safe_query_value-IsClean : (value : Text) → is_safe_query_value value ≡ true → IsClean value
unfolding is_safe_query_value
is_safe_query_value-IsClean [] h = tt
is_safe_query_value-IsClean (c ∷ value) h = (
  (ground (arith, h, ==_iff c 0), ground (arith, h, ==_iff c 10), ground (arith, h, ==_iff c 13)),
  is_safe_query_value-IsClean value (ground (arith, h)),
)

-- A member of the query comes from a parameter that is declared for it, and its value is safe.
abbrev pub IsQueryMember : List (Text × Spec) → Text × Text → Type 0
IsQueryMember specs m = IsClean m.1 × (declares m.0 specs ≡ true)

query_value-IsSafe :
    (name : Text) (required : Bool) (v : Option Value)
    (rest : Result EndpointError (List (Text × Text))) (specs : List (Text × Spec))
    (query : List (Text × Text))
    → declares name specs ≡ true
    → ((q : List (Text × Text)) → rest ≡ ok q → All (IsQueryMember specs) q)
    → query_value name required v rest ≡ ok query
    → All (IsQueryMember specs) query
unfolding query_value
query_value-IsSafe name true none rest specs query d more e = absurd (ground (arith, e))
query_value-IsSafe name false none rest specs query d more e = more query e
query_value-IsSafe name required (some not_text) rest specs query d more e =
    absurd (ground (arith, e))
query_value-IsSafe name required (some (text value)) rest specs query d more e =
    elim (Bool-cases (is_safe_query_value value)) [
      | inr n ↦ absurd (ground (arith, n, e))
      | inl y ↦
          let (q, is_rest, e₁) =
            bind-ok rest (λ q. ok ((name, value) ∷ q)) query (ground (arith, y, e)) in
          subst (All (IsQueryMember specs)) (ok-injective e₁)
            ((is_safe_query_value-IsClean value y, d), more q is_rest)
    ]

build_query-lem :
    (params : List (Text × Value)) (suffix specs : List (Text × Spec)) (query : List (Text × Text))
    → ((n : Text) → declares n suffix ≡ true → declares n specs ≡ true)
    → build_query params suffix ≡ ok query
    → All (IsQueryMember specs) query
unfolding build_query declares
build_query-lem params [] specs query sub e = subst (All (IsQueryMember specs)) (ok-injective e) tt
build_query-lem params ((name, not_object) ∷ suffix) specs query sub e =
    build_query-lem params suffix specs query sub e
build_query-lem params ((name, spec in_path required) ∷ suffix) specs query sub e =
    build_query-lem params suffix specs query sub e
build_query-lem params ((name, spec elsewhere required) ∷ suffix) specs query sub e =
    build_query-lem params suffix specs query sub e
build_query-lem params ((name, spec in_query required) ∷ suffix) specs query sub e =
    query_value-IsSafe name required (lookup name params) (build_query params suffix) specs query
      (sub name (ground (arith, text_eq_refl name)))
      (λ q h. build_query-lem params suffix specs q (λ n d. sub n (ground (arith, d))) h) e

-- Every parameter of the call is declared.
abbrev pub AreDeclared : List (Text × Spec) → List (Text × Value) → Type 0
AreDeclared specs params = All (λ p. is_present (lookup p.0 specs) ≡ true) params

check_known-AreDeclared :
    (specs : List (Text × Spec)) (params : List (Text × Value))
    → check_known specs params ≡ ok tt
    → AreDeclared specs params
unfolding check_known
check_known-AreDeclared specs [] h = tt
check_known-AreDeclared specs ((key, v) ∷ params) h =
    elim (Bool-cases (is_present (lookup key specs))) [
      | inl y ↦ (y, check_known-AreDeclared specs params (ground (arith, y, h)))
      | inr n ↦ absurd (ground (arith, n, h))
    ]

-- Take an endpoint that `defineEndpoint` accepts and a call whose texts have no dollar and no opening
-- brace. If the call gives a request, then its path has the separators of the endpoint's template and
-- no other; each member of its query is of a parameter that is declared for the query and has no CR,
-- LF or NUL; and all parameters of the call are declared.
pub invoke-IsQueryMember-AreDeclared :
    (d : Definition) (e : Endpoint) (params : List (Text × Value)) (path : Text)
    (query : List (Text × Text))
    → define_endpoint d ≡ ok e
    → ArePlainValues params
    → invoke e params ≡ ok (path, query)
    → (separators path ≡ separators e.template)
      × All (IsQueryMember e.specs) query
      × AreDeclared e.specs params
unfolding invoke
invoke-IsQueryMember-AreDeclared d e params path query defined plain h =
    elim (Result-cases (check_known e.specs params)) [
      | inr (code, k) ↦ absurd (ground (arith, k, h))
      | inl (done, k) ↦ elim (Result-cases (path_values params e.path_param_names)) [
        | inr (code, v) ↦ absurd (ground (arith, k, v, h))
        | inl (values, v) ↦
            elim (Result-cases (resolve_path e.template values e.path_param_names)) [
              | inr (code, r) ↦ absurd (ground (arith, k, v, r, h))
              | inl (resolved, r) ↦ elim (Result-cases (build_query params e.specs)) [
                | inr (code, q) ↦ absurd (ground (arith, k, v, r, q, h))
                | inl (members, q) ↦
                    let same : (resolved ≡ path) × (members ≡ query) =
                      (ground (arith, k, v, r, q, h), ground (arith, k, v, r, q, h)) in
                    (
                      resolve_path-separators e.template path e.path_param_names values
                          (define_endpoint-parsed d e defined)
                          (path_values-ArePlain params e.path_param_names values plain v)
                          (ground (arith, r, same.0)),
                      build_query-lem params e.specs e.specs query (λ n d. d)
                          (ground (arith, q, same.1)),
                      check_known-AreDeclared e.specs params k,
                    )
              ]
            ]
      ]
    ]
