-- ===== src/Graph/Errors/Guard.antt =====
-- The guards on the class of an error, whatever is registered.
use wats.Base.{ℕ, ◌≤◌, ◌<◌, ◌≡◌, true, Option, none, some, arith}
use wats.Graph.ErrorRegistry.{Registry, Entry}
use wats.Graph.Errors.{
  api, auth, rate_limit, ApiError, Params, Payload, Factory, construct, is_auth_classification,
  is_rate_limit_classification, checked_instance, construct_with, classified_error, error_for,
  create_graph_api_error, factory_context, payload_code, payload_field, resolve_number,
}

auth-4xx :
    (status : ℕ) (payload : Option Payload)
    → is_auth_classification status payload ≡ true
    → (400 ≤ status) × (status < 500)
unfolding is_auth_classification
auth-4xx status payload h = ground arith

rate_limit-4xx :
    (status : ℕ) (payload : Option Payload)
    → is_rate_limit_classification status payload ≡ true
    → (400 ≤ status) × (status < 500)
unfolding is_rate_limit_classification
rate_limit-4xx status payload h = ground arith

checked_instance-auth :
    (p : Params) (x : ApiError)
    → (checked_instance p.status p.payload (construct_with api p) x).class ≡ auth
    → is_auth_classification p.status p.payload ≡ true
unfolding checked_instance construct_with construct
checked_instance-auth p x h = ground arith

checked_instance-rate_limit :
    (p : Params) (x : ApiError)
    → (checked_instance p.status p.payload (construct_with api p) x).class ≡ rate_limit
    → is_rate_limit_classification p.status p.payload ≡ true
unfolding checked_instance construct_with construct
checked_instance-rate_limit p x h = ground arith

error_for-auth :
    (p : Params) (o : Option (Entry Factory))
    → (error_for p o).class ≡ auth
    → is_auth_classification p.status p.payload ≡ true
unfolding error_for classified_error construct_with construct
error_for-auth p none h = ground arith
error_for-auth p (some entry) h = checked_instance-auth p (entry.factory (factory_context p)) h

create_graph_api_error-auth :
    (r : Registry Factory) (p : Params)
    → (create_graph_api_error r p).class ≡ auth
    → is_auth_classification p.status p.payload ≡ true
unfolding create_graph_api_error construct_with construct
create_graph_api_error-auth r p h = ground (
  arith,
  error_for-auth p
      (resolve_number r (payload_code p.payload) (payload_field (λ x. x.error_subcode) p.payload)),
)

error_for-rate_limit :
    (p : Params) (o : Option (Entry Factory))
    → (error_for p o).class ≡ rate_limit
    → is_rate_limit_classification p.status p.payload ≡ true
unfolding error_for classified_error construct_with construct
error_for-rate_limit p none h = ground arith
error_for-rate_limit p (some entry) h =
    checked_instance-rate_limit p (entry.factory (factory_context p)) h

create_graph_api_error-rate_limit :
    (r : Registry Factory) (p : Params)
    → (create_graph_api_error r p).class ≡ rate_limit
    → is_rate_limit_classification p.status p.payload ≡ true
unfolding create_graph_api_error construct_with construct
create_graph_api_error-rate_limit r p h = ground (
  arith,
  error_for-rate_limit p
      (resolve_number r (payload_code p.payload) (payload_field (λ x. x.error_subcode) p.payload)),
)

-- Whatever factories are registered, an authentication error comes only of a response that is
-- classified as one, a rate limit error only of one that is classified so, and either only of
-- a status from 400 to 499.
pub create_graph_api_error-class :
    (r : Registry Factory) (p : Params)
    → ((create_graph_api_error r p).class ≡ auth
        → (is_auth_classification p.status p.payload ≡ true) × (400 ≤ p.status) × (p.status < 500))
      × ((create_graph_api_error r p).class ≡ rate_limit
          → (is_rate_limit_classification p.status p.payload ≡ true)
            × (400 ≤ p.status)
            × (p.status < 500))
create_graph_api_error-class r p = (
  (λ h.
      let a = create_graph_api_error-auth r p h in
      (a, (auth-4xx p.status p.payload a).0, (auth-4xx p.status p.payload a).1)),
  (λ h.
      let a = create_graph_api_error-rate_limit r p h in
      (a, (rate_limit-4xx p.status p.payload a).0, (rate_limit-4xx p.status p.payload a).1)),
)
