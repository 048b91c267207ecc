-- ===== src/Graph/PathTemplate/Tests.antt =====
-- Templates of the endpoints, and values with the patterns of `String.prototype.replace`.
use wats.Base.{◌≡◌, refl, List, [], ◌∷◌}
use wats.Base.Result.{ok, err}
use wats.Base.Text.{Text, codes}
use wats.Graph.PathTemplate.{
  path_traversal, duplicate_placeholder, unbalanced_braces, scan, parse_path_template, resolve_path,
  get_param, assert_safe_path_param_value, has_control_char, replace_first, split_at, after_prefix,
  expand, placeholders, is_placeholder_name, has_stray_brace,
}

abbrev template : Text
template = codes "/{waba}/x/{id}"

abbrev params : List (Text × Text)
params = (codes "id", codes "7") ∷ (codes "waba", codes "12") ∷ []

abbrev names : List Text
names = codes "waba" ∷ codes "id" ∷ []

resolves : resolve_path template params names ≡ ok (codes "/12/x/7")
unfolding resolve_path get_param assert_safe_path_param_value has_control_char replace_first
    split_at after_prefix expand
resolves = refl

accepts : parse_path_template template ≡ ok names
unfolding parse_path_template placeholders is_placeholder_name has_stray_brace scan
accepts = refl

refuses_duplicate : parse_path_template (codes "/{id}/{id}") ≡ err duplicate_placeholder
unfolding parse_path_template placeholders is_placeholder_name has_stray_brace scan
refuses_duplicate = refl

refuses_nested : parse_path_template (codes "/{a{id}}") ≡ err unbalanced_braces
unfolding parse_path_template placeholders is_placeholder_name has_stray_brace scan
refuses_nested = refl

refuses_slash :
    resolve_path (codes "/{id}") ((codes "id", codes "1/2") ∷ []) (codes "id" ∷ [])
    ≡ err path_traversal
unfolding resolve_path get_param assert_safe_path_param_value has_control_char replace_first
    split_at after_prefix expand
refuses_slash = refl

-- A value that is accepted brings a separator in: `$'` stands for what follows the placeholder.
pattern_brings_separator :
    resolve_path (codes "/{id}/messages") ((codes "id", codes "$'") ∷ []) (codes "id" ∷ [])
    ≡ ok (codes "//messages/messages")
unfolding resolve_path get_param assert_safe_path_param_value has_control_char replace_first
    split_at after_prefix expand
pattern_brings_separator = refl

-- A value that is accepted changes: `$$` stands for one dollar.
pattern_drops_dollar :
    resolve_path (codes "/{id}") ((codes "id", codes "1$$2") ∷ []) (codes "id" ∷ [])
    ≡ ok (codes "/1$2")
unfolding resolve_path get_param assert_safe_path_param_value has_control_char replace_first
    split_at after_prefix expand
pattern_drops_dollar = refl
