-- ===== src/Webhooks/GatewayRoute.antt =====
-- webhooks/appmesh/gatewayroute_validator.go. A nil dereference is a panic.
pub mod Headers
mod Accepts
pub mod Decides
mod Tests
use text.Mathlib.Text.{starts_with}
use aws_app_mesh_controller.Base.{
  ℕ, String, Bool, true, false, not, ◌&&◌, ◌||◌, Option, none, some, List, [], ◌∷◌, ◌++◌, ok, err,
  panic, ◌>>=◌, ◌>>◌, ltb, eqb, is_some, ends_with, if◌then◌else◌, option_eq, string_eq,
}
use aws_app_mesh_controller.Base.Int.{ltb_ℤ}
use aws_app_mesh_controller.Api.Shared.{
  MatchRange, HeaderMatchMethod, GrpcRouteMetadataMatchMethod, HttpPathMatch, HttpQueryParameters,
}
use aws_app_mesh_controller.Api.GatewayRoute.{
  GatewayRouteSpec, GatewayRoute, GrpcGatewayRoute, GrpcGatewayRouteMatch, GrpcGatewayRouteMetadata,
  HttpGatewayRoute, HttpGatewayRouteMatch, HttpGatewayRouteHeader, HttpGatewayRouteAction,
  HttpGatewayRouteRewrite, GatewayRoutePrefixRewrite, GatewayRouteHostnameMatch,
}
use aws_app_mesh_controller.Api.Equal.{mesh_reference_eq, virtual_gateway_reference_eq}
use aws_app_mesh_controller.Webhooks.Checks.{
  Check, missing_route_type, multiple_route_types, missing_query_match, missing_header_match,
  too_many_header_filters, too_many_metadata_filters, invalid_range, missing_rewrite,
  prefix_and_path_rewrite, relative_prefix, two_prefix_rewrites, relative_rewrite_prefix,
  missing_service_and_hostname, missing_route_match, prefix_and_path, missing_hostname_match,
  two_hostname_matches, missing_path_match, two_path_matches, count_if, changed, enforce, if_any,
}

pub get_number_of_route_types : GatewayRouteSpec → ℕ
get_number_of_route_types spec =
    let n = count_if (is_some spec.grpc_route) 0 in
    let n' = count_if (is_some spec.http_route) n in count_if (is_some spec.http2_route) n'

pub get_num_of_header_match_filters : HeaderMatchMethod → ℕ
get_num_of_header_match_filters m =
    let a = count_if (is_some m.exact) 0 in
    let b = count_if (is_some m.prefix) a in
    let c = count_if (is_some m.regex) b in
    let d = count_if (is_some m.suffix) c in count_if (is_some m.range) d

pub get_num_of_metadata_match_filters : GrpcRouteMetadataMatchMethod → ℕ
get_num_of_metadata_match_filters m =
    let a = count_if (is_some m.exact) 0 in
    let b = count_if (is_some m.prefix) a in
    let c = count_if (is_some m.regex) b in
    let d = count_if (is_some m.suffix) c in count_if (is_some m.range) d

-- `start >= end` is an error.
pub validate_match_range : MatchRange → Check
validate_match_range r = if not (ltb_ℤ r.start r.end) then err invalid_range else ok tt

pub validate_query_parameters_if_any : List HttpQueryParameters → Check
validate_query_parameters_if_any [] = ok tt
validate_query_parameters_if_any (q ∷ qs) =
    let rest = validate_query_parameters_if_any qs in
    elim q.match [
      | none ↦ rest
      | some m ↦ if is_some m.exact then rest else err missing_query_match
    ]

-- `if m.Range != nil { return validateMatchRange(m.Range) }`: a range ends the loop.
pub after_range : Option MatchRange → Check → Check
after_range none rest = rest
after_range (some r) rest = validate_match_range r

-- The body of the loop over the headers.
pub validate_header_match : HeaderMatchMethod → Check → Check
validate_header_match m rest =
    let n = get_num_of_header_match_filters m in
    if ltb 1 n
    then err too_many_header_filters
    else if eqb n 0
    then err missing_header_match
    else after_range m.range rest

pub validate_http_headers_if_any : List HttpGatewayRouteHeader → Check
validate_http_headers_if_any [] = ok tt
validate_http_headers_if_any (h ∷ hs) =
    let rest = validate_http_headers_if_any hs in
    elim h.match [ none ↦ rest | some m ↦ validate_header_match m rest ]

pub validate_metadata_match : GrpcRouteMetadataMatchMethod → Check → Check
validate_metadata_match m rest =
    if ltb 1 (get_num_of_metadata_match_filters m)
    then err too_many_metadata_filters
    else after_range m.range rest

pub validate_metadata_if_any : List GrpcGatewayRouteMetadata → Check
validate_metadata_if_any [] = ok tt
validate_metadata_if_any (h ∷ hs) =
    let rest = validate_metadata_if_any hs in
    elim h.match [ none ↦ rest | some m ↦ validate_metadata_match m rest ]

pub validate_host_name : GatewayRouteHostnameMatch → Check
validate_host_name h =
    if not (is_some h.exact) && not (is_some h.suffix)
    then err missing_hostname_match
    else if is_some h.exact && is_some h.suffix
    then err two_hostname_matches
    else ok tt

pub validate_path_for_gateway_route : HttpPathMatch → Check
validate_path_for_gateway_route p =
    if not (is_some p.exact) && not (is_some p.regex)
    then err missing_path_match
    else if is_some p.exact && is_some p.regex
    then err two_path_matches
    else ok tt

pub validate_prefix_path_host_name : HttpGatewayRouteMatch → Check
validate_prefix_path_host_name m =
    if not (is_some m.prefix) && not (is_some m.path) && not (is_some m.hostname)
    then err missing_route_match
    else if is_some m.prefix && is_some m.path
    then err prefix_and_path
    else do if_any m.path validate_path_for_gateway_route; if_any m.hostname validate_host_name

-- The headers are checked, or else the query parameters: never both.
pub validate_http_route_match : HttpGatewayRouteMatch → Check
validate_http_route_match m = do
  validate_prefix_path_host_name m
  elim m.headers [
    | [] ↦ validate_query_parameters_if_any m.query_parameters
    | h ∷ hs ↦ validate_http_headers_if_any (h ∷ hs)
  ]

pub absolute_prefix : String → Check
absolute_prefix v =
    if not (ends_with v "/") || not (starts_with v "/") then err relative_rewrite_prefix else ok tt

pub validate_prefix_rewrite : GatewayRoutePrefixRewrite → Check
validate_prefix_rewrite p =
    if is_some p.default_prefix && is_some p.value
    then err two_prefix_rewrites
    else if_any p.value absolute_prefix

pub is_relative : Option String → Bool
is_relative none = false
is_relative (some s) = not (starts_with s "/")

pub validate_http_route_rewrite : HttpGatewayRouteRewrite → HttpGatewayRouteMatch → Check
unfolding is_relative
validate_http_route_rewrite w m =
    if not (is_some w.prefix) && not (is_some w.path) && not (is_some w.hostname)
    then err missing_rewrite
    else if is_some w.prefix && is_some w.path
    then err prefix_and_path_rewrite
    else if_any w.prefix
        λ p. if is_relative m.prefix then err relative_prefix else validate_prefix_rewrite p

-- The action is the zero struct: each of its pointers is nil.
pub is_zero_action : HttpGatewayRouteAction → Bool
is_zero_action a =
    not (is_some a.target.virtual_service.virtual_service_ref)
    && not (is_some a.target.virtual_service.virtual_service_arn)
    && not (is_some a.target.port)
    && not (is_some a.rewrite)

pub validate_http_route_spec : HttpGatewayRoute → Check
unfolding is_zero_action
validate_http_route_spec r = do
  validate_http_route_match r.match
  if not (is_zero_action r.action)
      then if_any r.action.rewrite (λ w. validate_http_route_rewrite w r.match)
      else ok tt

pub validate_hostname_and_servicename : GrpcGatewayRouteMatch → Check
validate_hostname_and_servicename m =
    if not (is_some m.service_name) && not (is_some m.hostname)
    then err missing_service_and_hostname
    else if not (is_some m.service_name)
    then elim m.hostname [ none ↦ panic | some h ↦ validate_host_name h ]
    else ok tt

pub validate_grpc_gateway_route_spec : GrpcGatewayRoute → Check
validate_grpc_gateway_route_spec r = do
  validate_hostname_and_servicename r.match
  validate_metadata_if_any r.match.metadata

-- The chain of nil tests; the last arm dereferences spec.HTTP2Route.
pub dispatch : Option GrpcGatewayRoute → Option HttpGatewayRoute → Option HttpGatewayRoute → Check
dispatch (some r) http http2 = validate_grpc_gateway_route_spec r
dispatch none (some r) http2 = validate_http_route_spec r
dispatch none none (some r) = validate_http_route_spec r
dispatch none none none = panic

pub validate_internal : GatewayRouteSpec → Check
validate_internal spec =
    let n = get_number_of_route_types spec in
    if eqb n 0
    then err missing_route_type
    else if ltb 1 n
    then err multiple_route_types
    else dispatch spec.grpc_route spec.http_route spec.http2_route

pub validate_create : GatewayRoute → Check
validate_create r = validate_internal r.spec

pub enforce_fields_immutability : GatewayRoute → GatewayRoute → Check
enforce_fields_immutability new old = enforce "GatewayRoute" (
    changed "spec.awsName" new.spec.aws_name old.spec.aws_name
    ++ (changed "spec.meshRef" new.spec.mesh_ref old.spec.mesh_ref
        ++ changed "spec.virtualGatewayRef" new.spec.virtual_gateway_ref
            old.spec.virtual_gateway_ref))

pub validate_update : GatewayRoute → GatewayRoute → Check
validate_update new old = do enforce_fields_immutability new old; validate_internal new.spec
