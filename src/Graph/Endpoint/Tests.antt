-- ===== src/Graph/Endpoint/Tests.antt =====
-- An endpoint with a parameter for the path and one for the query, and a call of it.
use wats.Base.{◌≡◌, refl, arith, true, some, List, [], ◌∷◌, All}
use wats.Base.Result.{ok, err}
use wats.Base.Text.{Text, codes}
use wats.Graph.PathTemplate.{
  parse_path_template, placeholders, scan, is_placeholder_name, has_stray_brace, has_control_char,
  resolve_path, get_param, assert_safe_path_param_value, replace_first, split_at, after_prefix,
  expand,
}
use wats.Graph.PathTemplate.Separators.{separators}
use wats.Graph.Endpoint.{
  Definition, Endpoint, Value, text, spec, in_path, in_query, define_endpoint, is_allowed_method,
  check_specs, check_spec, check_placeholders, lookup, invoke, check_known, path_values, path_value,
  build_query, query_value, is_safe_query_value, not_declared, missing_query_value, Spec,
}
use wats.Graph.Endpoint.Safe.{
  ArePlainValues, IsQueryMember, AreDeclared, invoke-IsQueryMember-AreDeclared,
}

abbrev template : Text
template = codes "/{id}/x"

abbrev specs : List (Text × Spec)
specs = (codes "id", spec in_path true) ∷ (codes "limit", spec in_query true) ∷ []

abbrev definition : Definition
definition = record {
  method = some (codes "GET");
  path_template = some template;
  params = some specs;
  build_body_ok = true;
  content_type_ok = true;
}

abbrev endpoint : Endpoint
endpoint = record { template = template; specs = specs; path_param_names = codes "id" ∷ [] }

abbrev params : List (Text × Value)
params = (codes "limit", text (codes "5")) ∷ (codes "id", text (codes "7")) ∷ []

defined : define_endpoint definition ≡ ok endpoint
unfolding define_endpoint is_allowed_method has_control_char parse_path_template placeholders scan
    is_placeholder_name has_stray_brace check_specs check_spec check_placeholders lookup
defined = refl

called : invoke endpoint params ≡ ok (codes "/7/x", (codes "limit", codes "5") ∷ [])
unfolding invoke check_known lookup path_values path_value resolve_path get_param
    assert_safe_path_param_value has_control_char replace_first split_at after_prefix expand
    build_query query_value is_safe_query_value
called = refl

plain : ArePlainValues params
plain = (((omega arith, tt), (omega arith, tt)), (((omega arith, tt), (omega arith, tt)), tt))

invoke-IsQueryMember-AreDeclared_example :
    (separators (codes "/7/x") ≡ separators template)
    × All (IsQueryMember specs) ((codes "limit", codes "5") ∷ [])
    × AreDeclared specs params
invoke-IsQueryMember-AreDeclared_example =
    invoke-IsQueryMember-AreDeclared definition endpoint params (codes "/7/x")
      ((codes "limit", codes "5") ∷ []) defined plain called

refuses_undeclared : define_endpoint (record definition { params = some [] }) ≡ err not_declared
unfolding define_endpoint is_allowed_method has_control_char parse_path_template placeholders scan
    is_placeholder_name has_stray_brace check_specs check_spec check_placeholders lookup
refuses_undeclared = refl

refuses_missing : invoke endpoint ((codes "id", text (codes "7")) ∷ []) ≡ err missing_query_value
unfolding invoke check_known lookup path_values path_value resolve_path get_param
    assert_safe_path_param_value has_control_char replace_first split_at after_prefix expand
    build_query query_value is_safe_query_value
refuses_missing = refl
