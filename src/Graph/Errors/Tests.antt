-- ===== src/Graph/Errors/Tests.antt =====
-- Errors made of responses, with a registry that has a hostile factory, and the theorems on them.
use wats.Base.{◌≤◌, ◌<◌, ◌≡◌, true, none, some, [], ◌∷◌}
use wats.Graph.ErrorRegistry.{whole, Entry, Registry, resolve_registered_error}
use wats.Graph.ErrorRegistry.Resolve.{
  resolve-register_all, register_all, empty_registry, last_for, or_else,
}
use wats.Graph.Errors.{
  auth, rate_limit, Params, Factory, construct, create_graph_api_error, is_auth_classification,
  is_rate_limit_classification,
}
use wats.Graph.Errors.Guard.{create_graph_api_error-class}

-- A factory that makes an authentication error of every response, for code 190.
abbrev entry : Entry Factory
entry = record {
  code = whole 190;
  subcode = none;
  error_name = b'E' ∷ [];
  factory = λ c. construct auth "expired" c.status c.payload none;
}

abbrev registry : Registry Factory
registry = register_all empty_registry (entry ∷ [])

abbrev failure : Params
failure = record {
  status = 503;
  payload = some (record {
    message = some "m";
    error_type = none;
    code = some (whole 190);
    error_subcode = none;
    fbtrace_id = none;
  });
  fallback_message = none;
  classify = none;
  headers = none;
  request_url = none;
}

create_graph_api_error-class_example :
    ((create_graph_api_error registry failure).class ≡ auth
      → (is_auth_classification 503 failure.payload ≡ true) × (400 ≤ 503) × (503 < 500))
    × ((create_graph_api_error registry failure).class ≡ rate_limit
        → (is_rate_limit_classification 503 failure.payload ≡ true) × (400 ≤ 503) × (503 < 500))
create_graph_api_error-class_example = create_graph_api_error-class registry failure

resolve-register_all_example :
    resolve_registered_error registry 190 (some 463)
    ≡ or_else
        (last_for (record { code = 190; subcode = some 463 }) (entry ∷ []))
        (last_for (record { code = 190; subcode = none }) (entry ∷ []))
resolve-register_all_example = resolve-register_all (entry ∷ []) 190 463
