-- ===== src/Graph/Endpoint.antt =====
-- packages/graph/src/endpoint.ts, `defineEndpoint`: the checks of a definition, and what a call makes
-- of its parameters. Objects with text keys are lists of their own members; inherited members, the
-- building of the body, headers and the signal are left out.
pub mod Safe
mod Tests
use wats.Base.{
  ℕ, Bool, true, false, not, ◌&&◌, ◌||◌, Option, none, some, List, [], ◌∷◌, any, ◌==◌,
  if◌then◌else◌,
}
use wats.Base.Result.{Result, ok, err, ◌>>=◌, ◌>>◌, guard}
use wats.Base.Text.{Text, codes, text_eq, is_empty}
use wats.Graph.PathTemplate.{
  TemplateError, has_control_char, is_placeholder_name, parse_path_template, resolve_path,
}

-- The messages of `GraphRequestValidationError`.
pub data EndpointError : Type 0 where
  bad_method bad_template control_in_template bad_params bad_build_body bad_content_type bad_key
        bad_spec bad_place not_in_template not_declared unknown_param missing_path_value
        missing_query_value not_a_string unsafe_query_value :
      EndpointError
  template_error : TemplateError → EndpointError

-- `EndpointParamSpec["in"]`, or another value.
pub data Place : Type 0 where
  in_path in_query elsewhere : Place

-- A member of `params`: an `EndpointParamSpec`, or a value that is no object.
pub data Spec : Type 0 where
  not_object : Spec
  spec : Place → Bool → Spec

-- `EndpointDefinition`: what is no text, no object or no function is `none` or `false`; a content type
-- that is absent is accepted.
pub record Definition : Type 0 where
  pub method : Option Text
  pub path_template : Option Text
  pub params : Option (List (Text × Spec))
  pub build_body_ok : Bool
  pub content_type_ok : Bool

-- A value of a call's `params`: a text, or another value that is not `undefined`.
pub data Value : Type 0 where
  text : Text → Value
  not_text : Value

-- `ALLOWED_METHODS`
pub is_allowed_method : Text → Bool
is_allowed_method m =
    text_eq m (codes "GET")
    || text_eq m (codes "POST")
    || text_eq m (codes "PUT")
    || text_eq m (codes "PATCH")
    || text_eq m (codes "DELETE")

pub lookup {ℓ} : {A : Type ℓ} → Text → List (Text × A) → Option A
lookup name [] = none
lookup name ((n, a) ∷ entries) = if text_eq n name then some a else lookup name entries

abbrev pub member : Text → List Text → Bool
member name names = any (λ n. text_eq n name) names

-- The checks of one member of `params`.
pub check_spec : List Text → Text → Spec → Result EndpointError (Unit {0})
check_spec placeholders key not_object = err bad_spec
check_spec placeholders key (spec elsewhere required) = err bad_place
check_spec placeholders key (spec in_query required) = ok tt
check_spec placeholders key (spec in_path required) =
    guard (member key placeholders) not_in_template

pub check_specs : List Text → List (Text × Spec) → Result EndpointError (Unit {0})
check_specs placeholders [] = ok tt
check_specs placeholders ((key, s) ∷ params) =
    let rest = check_specs placeholders params in
    do guard (is_placeholder_name key) bad_key; check_spec placeholders key s; rest

abbrev pub is_path_spec : Option Spec → Bool
is_path_spec (some (spec in_path required)) = true
is_path_spec _ = false

pub check_placeholders : List (Text × Spec) → List Text → Result EndpointError (Unit {0})
check_placeholders params [] = ok tt
check_placeholders params (name ∷ names) =
    let rest = check_placeholders params names in
    do guard (is_path_spec (lookup name params)) not_declared; rest

abbrev pub lifted {ℓ} : {A : Type ℓ} → Result TemplateError A → Result EndpointError A
lifted (ok a) = ok a
lifted (err e) = err (template_error e)

abbrev pub present {ℓ} : {A : Type ℓ} → EndpointError → Option A → Result EndpointError A
present e none = err e
present e (some a) = ok a

-- What a definition that is accepted fixes: the template, the members of `params`, and the names of
-- the placeholders.
pub record Endpoint : Type 0 where
  pub template : Text
  pub specs : List (Text × Spec)
  pub path_param_names : List Text

-- `validateDefinition`
pub define_endpoint : Definition → Result EndpointError Endpoint
define_endpoint d = do
  method ← present bad_method d.method
  guard (is_allowed_method method) bad_method
  template ← present bad_template d.path_template
  guard (not (is_empty template)) bad_template
  guard (not (has_control_char template)) control_in_template
  params ← present bad_params d.params
  guard d.build_body_ok bad_build_body
  guard d.content_type_ok bad_content_type
  names ← lifted (parse_path_template template)
  check_specs names params
  check_placeholders params names
  ok (record { template = template; specs = params; path_param_names = names })

abbrev pub is_present {ℓ} : {A : Type ℓ} → Option A → Bool
is_present none = false
is_present (some a) = true

-- The loop that rejects unknown parameters.
pub check_known : List (Text × Spec) → List (Text × Value) → Result EndpointError (Unit {0})
check_known specs [] = ok tt
check_known specs ((key, v) ∷ params) =
    let rest = check_known specs params in
    do guard (is_present (lookup key specs)) unknown_param; rest

pub path_value : Option Value → Result EndpointError Text
path_value none = err missing_path_value
path_value (some not_text) = err not_a_string
path_value (some (text value)) = ok value

-- `pathValues`
pub path_values : List (Text × Value) → List Text → Result EndpointError (List (Text × Text))
path_values params [] = ok []
path_values params (name ∷ names) =
    let rest = path_values params names in
    do value ← path_value (lookup name params); values ← rest; ok ((name, value) ∷ values)

-- `assertSafeQueryValue`, as a test
pub is_safe_query_value : Text → Bool
is_safe_query_value value = not (any (λ c. c == 0 || c == 10 || c == 13) value)

-- One round of the loop of `buildQuery`; `rest` is what the rounds after it give.
pub query_value :
    Text
    → Bool
    → Option Value
    → Result EndpointError (List (Text × Text))
    → Result EndpointError (List (Text × Text))
query_value name required none rest = if required then err missing_query_value else rest
query_value name required (some not_text) rest = err not_a_string
query_value name required (some (text value)) rest = do
  guard (is_safe_query_value value) unsafe_query_value
  query ← rest
  ok ((name, value) ∷ query)

-- `buildQuery`; no member is no query.
pub build_query :
    List (Text × Value) → List (Text × Spec) → Result EndpointError (List (Text × Text))
build_query params [] = ok []
build_query params ((name, spec in_query required) ∷ specs) =
    query_value name required (lookup name params) (build_query params specs)
build_query params ((name, s) ∷ specs) = build_query params specs

-- `invoke`, up to the body: the path and the query of the request.
pub invoke : Endpoint → List (Text × Value) → Result EndpointError (Text × List (Text × Text))
invoke e params = do
  check_known e.specs params
  values ← path_values params e.path_param_names
  path ← lifted (resolve_path e.template values e.path_param_names)
  query ← build_query params e.specs
  ok (path, query)
