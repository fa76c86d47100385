-- ===== src/Webhooks/GatewayRoute/Accepts.antt =====
-- What gatewayroute_validator.go asks of a spec. This is less than a spec should be: headers and
-- metadata after the first range match, query parameters beside headers, and a hostname beside a service
-- name are not looked at.
use text.Mathlib.Text.{starts_with}
use aws_app_mesh_controller.Base.{
  ◌≤◌, ◌<◌, Bool, true, false, List, [], ◌∷◌, ◌≡◌, refl, ◌↔◌, ◌⊎◌, ok, is_some, All, arith,
  ends_with, not, ◌&&◌, String, Bool-cases, inl, inr,
}
use aws_app_mesh_controller.Api.Shared.{HttpPathMatch, HttpQueryParameters}
use aws_app_mesh_controller.Api.GatewayRoute.{
  GatewayRouteSpec, GrpcGatewayRoute, HttpGatewayRoute, HttpGatewayRouteMatch,
  HttpGatewayRouteHeader, HttpGatewayRouteRewrite, GatewayRoutePrefixRewrite,
  GatewayRouteHostnameMatch,
}
use aws_app_mesh_controller.Webhooks.Checks.{count_true, guard-ok, seq-ok, if_any-ok, IfAny}
use aws_app_mesh_controller.Webhooks.GatewayRoute.{
  validate_host_name, validate_path_for_gateway_route, validate_prefix_path_host_name,
  validate_http_route_match, validate_query_parameters_if_any, validate_http_headers_if_any,
  absolute_prefix, validate_prefix_rewrite,
}
use aws_app_mesh_controller.Webhooks.GatewayRoute.Headers.{
  HeadersPass, MetadataPass, QueryOk, validate_http_headers_if_any-ok,
  validate_query_parameters_if_any-ok,
}

abbrev pub HostnameOk : GatewayRouteHostnameMatch → Type 0
HostnameOk h = count_true (is_some h.exact ∷ is_some h.suffix ∷ []) ≡ 1

abbrev pub PathOk : HttpPathMatch → Type 0
PathOk p = count_true (is_some p.exact ∷ is_some p.regex ∷ []) ≡ 1

-- With headers, only they are looked at; without, the query parameters are.
abbrev pub ListsPass : List HttpGatewayRouteHeader → List HttpQueryParameters → Type 0
ListsPass [] qs = All QueryOk qs
ListsPass (h ∷ hs) qs = HeadersPass (h ∷ hs)

abbrev pub TargetOk : HttpGatewayRouteMatch → Type 0
TargetOk m =
    (0 < count_true (is_some m.prefix ∷ is_some m.path ∷ is_some m.hostname ∷ []))
    × (count_true (is_some m.prefix ∷ is_some m.path ∷ []) ≤ 1)
    × IfAny PathOk m.path
    × IfAny HostnameOk m.hostname

abbrev pub MatchPasses : HttpGatewayRouteMatch → Type 0
MatchPasses m = TargetOk m × ListsPass m.headers m.query_parameters

abbrev pub PrefixRewriteOk : GatewayRoutePrefixRewrite → Type 0
PrefixRewriteOk p =
    (count_true (is_some p.default_prefix ∷ is_some p.value ∷ []) ≤ 1)
    × IfAny (λ v. (ends_with v "/" ≡ true) × (starts_with v "/" ≡ true)) p.value

abbrev pub RewritePasses : HttpGatewayRouteMatch → HttpGatewayRouteRewrite → Type 0
RewritePasses m w =
    (0 < count_true (is_some w.prefix ∷ is_some w.path ∷ is_some w.hostname ∷ []))
    × (count_true (is_some w.prefix ∷ is_some w.path ∷ []) ≤ 1)
    × IfAny (λ p. IfAny (λ s. starts_with s "/" ≡ true) m.prefix × PrefixRewriteOk p) w.prefix

abbrev pub HttpPasses : HttpGatewayRoute → Type 0
HttpPasses r = MatchPasses r.match × IfAny (RewritePasses r.match) r.action.rewrite

-- A hostname beside a service name is not looked at.
abbrev pub GrpcPasses : GrpcGatewayRoute → Type 0
GrpcPasses r =
    (0 < count_true (is_some r.match.service_name ∷ is_some r.match.hostname ∷ []))
    × ((is_some r.match.service_name ≡ true) ⊎ IfAny HostnameOk r.match.hostname)
    × MetadataPass r.match.metadata

abbrev pub SpecPasses : GatewayRouteSpec → Type 0
SpecPasses s =
    (count_true (is_some s.grpc_route ∷ is_some s.http_route ∷ is_some s.http2_route ∷ []) ≡ 1)
    × IfAny GrpcPasses s.grpc_route
    × IfAny HttpPasses s.http_route
    × IfAny HttpPasses s.http2_route

pub validate_host_name-ok :
    (h : GatewayRouteHostnameMatch) → (validate_host_name h ≡ ok tt) ↔ HostnameOk h
unfolding validate_host_name
validate_host_name-ok h = ground arith

validate_path-ok : (p : HttpPathMatch) → (validate_path_for_gateway_route p ≡ ok tt) ↔ PathOk p
unfolding validate_path_for_gateway_route
validate_path-ok p = ground arith

at_most_one_of_two : (a b : Bool) → ((a && b) ≡ false) ↔ (count_true (a ∷ b ∷ []) ≤ 1)
at_most_one_of_two a b = ground arith

-- The guard on three options, of which the first two exclude each other.
pub guards :
    (a b c : Bool)
    → (((not a && not b && not c) ≡ false) × ((a && b) ≡ false))
      ↔ ((0 < count_true (a ∷ b ∷ c ∷ [])) × (count_true (a ∷ b ∷ []) ≤ 1))
guards a b c = ground arith

target-ok : (m : HttpGatewayRouteMatch) → (validate_prefix_path_host_name m ≡ ok tt) ↔ TargetOk m
unfolding validate_prefix_path_host_name
target-ok m =
    let g = guards (is_some m.prefix) (is_some m.path) (is_some m.hostname) in
    let paths = if_any-ok validate_path_for_gateway_route validate_path-ok m.path in
    let hosts = if_any-ok validate_host_name validate_host_name-ok m.hostname in
    (
      λ p.
          let (a, q) = (guard-ok _ _ _).0 p in
          let (b, r) = (guard-ok _ _ _).0 q in
          let (c, d) = (seq-ok _ _).0 r in let (e, f) = g.0 (a, b) in (e, f, paths.0 c, hosts.0 d),
      λ (e, f, c, d).
          let (a, b) = g.1 (e, f) in
          (guard-ok _ _ _).1 (a, (guard-ok _ _ _).1 (b, (seq-ok _ _).1 (paths.1 c, hosts.1 d))),
    )

lists-ok :
    (hs : List HttpGatewayRouteHeader) (qs : List HttpQueryParameters)
    → (elim hs [
      | [] ↦ validate_query_parameters_if_any qs
      | h ∷ t ↦ validate_http_headers_if_any (h ∷ t)
    ]
        ≡ ok tt)
      ↔ ListsPass hs qs
lists-ok [] qs = validate_query_parameters_if_any-ok qs
lists-ok (h ∷ hs) qs = validate_http_headers_if_any-ok (h ∷ hs)

pub match-ok : (m : HttpGatewayRouteMatch) → (validate_http_route_match m ≡ ok tt) ↔ MatchPasses m
unfolding validate_http_route_match
match-ok m =
    let lists = lists-ok m.headers m.query_parameters in
    (
      λ p. let (a, b) = (seq-ok _ _).0 p in ((target-ok m).0 a, lists.0 b),
      λ p. (seq-ok _ _).1 ((target-ok m).1 p.0, lists.1 p.1),
    )

absolute-ok :
    (v : String)
    → (absolute_prefix v ≡ ok tt) ↔ ((ends_with v "/" ≡ true) × (starts_with v "/" ≡ true))
unfolding absolute_prefix
absolute-ok v = elim (Bool-cases (ends_with v "/")) [
  | inl e ↦ elim (Bool-cases (starts_with v "/")) [
    | inl f ↦ rw (e, f) (λ _. (refl, refl), λ _. refl)
    | inr f ↦ rw (e, f) (λ h. cc, λ h. cc (h.1))
  ]
  | inr e ↦ rw e (λ h. cc, λ h. cc (h.0))
]

pub prefix_rewrite-ok :
    (p : GatewayRoutePrefixRewrite) → (validate_prefix_rewrite p ≡ ok tt) ↔ PrefixRewriteOk p
unfolding validate_prefix_rewrite
prefix_rewrite-ok p =
    let values = if_any-ok absolute_prefix absolute-ok p.value in
    let few = at_most_one_of_two (is_some p.default_prefix) (is_some p.value) in
    (
      λ q. let (a, b) = (guard-ok _ _ _).0 q in (few.0 a, values.0 b),
      λ q. (guard-ok _ _ _).1 (few.1 q.0, values.1 q.1),
    )
