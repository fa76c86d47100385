-- ===== src/Webhooks/GatewayRoute/Tests.antt =====
-- Tests of the gateway-route validator, and its theorems at concrete routes.
use aws_app_mesh_controller.Base.{
  String, Option, none, some, List, [], ◌∷◌, ◌++◌, ◌≡◌, refl, ◌↔◌, ok, err, All, arith, nat_eq,
  string_eq, option_eq,
}
use aws_app_mesh_controller.Base.Int.{pos, negsuc}
use aws_app_mesh_controller.Api.Shared.{HeaderMatchMethod}
use aws_app_mesh_controller.Api.Equal.{mesh_reference_eq, virtual_gateway_reference_eq}
use aws_app_mesh_controller.Api.GatewayRoute.{
  GatewayRoute, GatewayRouteSpec, HttpGatewayRoute, HttpGatewayRouteMatch, HttpGatewayRouteHeader,
  HttpGatewayRouteAction,
}
use aws_app_mesh_controller.Webhooks.Checks.{
  too_many_header_filters, changed_fields, enforce, changed,
}
use aws_app_mesh_controller.Webhooks.GatewayRoute.{
  validate_internal, validate_update, enforce_fields_immutability, validate_header_match,
  get_num_of_header_match_filters, validate_http_headers_if_any,
}
use aws_app_mesh_controller.Webhooks.GatewayRoute.Headers.{
  headers_without_range, headers_after_range_unchecked, HeaderOk,
}
use aws_app_mesh_controller.Webhooks.GatewayRoute.Decides.{validate_internal-ok, validate_update-ok}

abbrev no_filter : HeaderMatchMethod
no_filter = record { exact = none; prefix = none; range = none; regex = none; suffix = none }

abbrev exact : String → HeaderMatchMethod
exact s = record no_filter { exact = some s }

abbrev range : HeaderMatchMethod
range = record no_filter { range = some (record { start = negsuc 4; end = pos 10 }) }

abbrev header : Option HeaderMatchMethod → HttpGatewayRouteHeader
header m = record { name = "x"; match = m; invert = none }

abbrev any_action : HttpGatewayRouteAction
any_action = record {
  target = record {
    virtual_service = record { virtual_service_ref = none; virtual_service_arn = some "arn" };
    port = none;
  };
  rewrite = none;
}

abbrev prefixed : List HttpGatewayRouteHeader → HttpGatewayRouteMatch
prefixed hs = record {
  prefix = some "/a";
  path = none;
  query_parameters = [];
  method = none;
  hostname = none;
  headers = hs;
  port = none;
}

abbrev http : List HttpGatewayRouteHeader → HttpGatewayRoute
http hs = record { match = prefixed hs; action = any_action }

abbrev spec : List HttpGatewayRouteHeader → GatewayRouteSpec
spec hs = record {
  aws_name = some "r";
  priority = none;
  grpc_route = none;
  http_route = some (http hs);
  http2_route = none;
  virtual_gateway_ref = none;
  mesh_ref = some (record { name = "m"; uid = "u" });
}

abbrev route : List HttpGatewayRouteHeader → GatewayRoute
route hs = record {
  metadata = record {
    name = "r";
    namespace = "ns";
    uid = "1";
    labels = [];
    finalizers = [];
    generation = pos 1;
    deletion_timestamp = none;
  };
  spec = spec hs;
  status = record { gateway_route_arn = none; conditions = []; observed_generation = none };
}

validate_internal-ok_example : validate_internal (spec (header (some (exact "a")) ∷ [])) ≡ ok tt
validate_internal-ok_example =
    (validate_internal-ok (spec (header (some (exact "a")) ∷ []))).1
      (refl, tt, (((omega arith, omega arith, tt, tt), (refl, tt)), tt), tt)

-- A header without a filter is refused, unless it stands behind a range.
empty_match_refused :
    validate_http_headers_if_any
      (header (some (record (exact "a") { suffix = some "b" })) ∷ header (some range) ∷ [])
    ≡ err too_many_header_filters
unfolding validate_http_headers_if_any validate_header_match get_num_of_header_match_filters
empty_match_refused = refl

headers_without_range_example :
    (validate_http_headers_if_any (header (some (exact "a")) ∷ header none ∷ []) ≡ ok tt)
    ↔ All (λ h. HeaderOk h.match) (header (some (exact "a")) ∷ header none ∷ [])
headers_without_range_example =
    headers_without_range (header (some (exact "a")) ∷ header none ∷ []) (refl, (tt, tt))

headers_after_range_unchecked_example :
    validate_http_headers_if_any
      ((header (some (exact "a")) ∷ []) ++ header (some range) ∷ header (some no_filter) ∷ [])
    ≡ ok tt
headers_after_range_unchecked_example =
    headers_after_range_unchecked (header (some (exact "a")) ∷ []) (header (some range)) range
      (record { start = negsuc 4; end = pos 10 }) (header (some no_filter) ∷ [])
      ((refl, (refl, tt)), tt) refl refl (refl, omega arith)

validate_update-ok_example : validate_update (route (header (some range) ∷ [])) (route []) ≡ ok tt
validate_update-ok_example = (validate_update-ok (route (header (some range) ∷ [])) (route [])).1 (
  refl,
  refl,
  refl,
  (refl, tt, (((omega arith, omega arith, tt, tt), (refl, omega arith)), tt), tt),
)

renamed_route :
    validate_update (route []) (record (route []) { spec = record (spec []) { aws_name = none } })
    ≡ err (changed_fields "GatewayRoute" ("spec.awsName" ∷ []))
unfolding validate_update enforce_fields_immutability enforce changed option_eq mesh_reference_eq
    string_eq
renamed_route = refl
