-- ===== src/Webhooks/GatewayRoute/Decides.antt =====
-- Which specs gatewayroute_validator.go accepts, on create and on update.
use text.Mathlib.Text.{starts_with}
use aws_app_mesh_controller.Base.{
  ◌<◌, Bool, true, false, not, ◌&&◌, Option, none, some, [], ◌∷◌, ◌≡◌, refl, ◌↔◌, ◌⊎◌, ok, err,
  panic, is_some, arith, String, if◌then◌else◌, Bool-cases, inl, inr, option_eq, string_eq,
}
use aws_app_mesh_controller.Api.GatewayRoute.{
  GatewayRouteSpec, GatewayRoute, GrpcGatewayRoute, HttpGatewayRoute, HttpGatewayRouteMatch,
  HttpGatewayRouteAction, HttpGatewayRouteRewrite, GatewayRoutePrefixRewrite,
  GatewayRouteHostnameMatch,
}
use aws_app_mesh_controller.Api.Equal.{mesh_reference_eq, virtual_gateway_reference_eq}
use aws_app_mesh_controller.Webhooks.Checks.{
  Check, count_true, guard-ok, seq-ok, if_any, if_any-ok, IfAny, relative_prefix,
  missing_service_and_hostname, enforce-ok, changed-nil, append-nil_iff,
}
use aws_app_mesh_controller.Webhooks.GatewayRoute.{
  validate_host_name, validate_prefix_rewrite, validate_http_route_rewrite, is_relative,
  is_zero_action, validate_http_route_spec, validate_hostname_and_servicename, dispatch,
  validate_grpc_gateway_route_spec, get_number_of_route_types, validate_internal,
  enforce_fields_immutability, validate_update,
}
use aws_app_mesh_controller.Webhooks.GatewayRoute.Headers.{validate_metadata_if_any-ok}
use aws_app_mesh_controller.Webhooks.GatewayRoute.Accepts.{
  HostnameOk, PrefixRewriteOk, RewritePasses, HttpPasses, GrpcPasses, SpecPasses, guards, match-ok,
  prefix_rewrite-ok, validate_host_name-ok,
}

relative-ok :
    (o : Option String) → (is_relative o ≡ false) ↔ IfAny (λ s. starts_with s "/" ≡ true) o
unfolding is_relative
relative-ok none = (λ _. tt, λ _. refl)
relative-ok (some s) = elim (Bool-cases (starts_with s "/")) [
  | inl e ↦ rw e (λ _. refl, λ _. refl)
  | inr e ↦ rw e (λ h. cc, λ h. cc)
]

module _ (m : HttpGatewayRouteMatch) where
  prefix-ok :
      (p : GatewayRoutePrefixRewrite)
      → ((if is_relative m.prefix then err relative_prefix else validate_prefix_rewrite p) ≡ ok tt)
        ↔ (IfAny (λ s. starts_with s "/" ≡ true) m.prefix × PrefixRewriteOk p)
  prefix-ok p = (
    λ q.
        let (a, b) = (guard-ok _ _ _).0 q in
        ((relative-ok m.prefix).0 a, (prefix_rewrite-ok p).0 b),
    λ q. (guard-ok _ _ _).1 ((relative-ok m.prefix).1 q.0, (prefix_rewrite-ok p).1 q.1),
  )

  rewrite-ok :
      (w : HttpGatewayRouteRewrite) → (validate_http_route_rewrite w m ≡ ok tt) ↔ RewritePasses m w
  unfolding validate_http_route_rewrite
  rewrite-ok w =
      let g = guards (is_some w.prefix) (is_some w.path) (is_some w.hostname) in
      let prefixes = if_any-ok _ prefix-ok w.prefix in
      (
        λ p.
            let (a, q) = (guard-ok _ _ _).0 p in
            let (b, r) = (guard-ok _ _ _).0 q in let (e, f) = g.0 (a, b) in (e, f, prefixes.0 r),
        λ (e, f, r).
            let (a, b) = g.1 (e, f) in (guard-ok _ _ _).1 (a, (guard-ok _ _ _).1 (b, prefixes.1 r)),
      )

-- The test for the zero action changes nothing: a zero action has no rewrite.
zero_action :
    (a : HttpGatewayRouteAction) (f : HttpGatewayRouteRewrite → Check)
    → (if not (is_zero_action a) then if_any a.rewrite f else ok tt) ≡ if_any a.rewrite f
unfolding is_zero_action
zero_action a f = ground arith

http-ok : (r : HttpGatewayRoute) → (validate_http_route_spec r ≡ ok tt) ↔ HttpPasses r
unfolding validate_http_route_spec
http-ok r =
    let same = zero_action r.action (λ w. validate_http_route_rewrite w r.match) in
    let rewrites = if_any-ok _ (rewrite-ok r.match) r.action.rewrite in
    (
      λ p. let (a, b) = (seq-ok _ _).0 p in ((match-ok r.match).0 a, rewrites.0 (rw same at b)),
      λ p. (seq-ok _ _).1 ((match-ok r.match).1 p.0, rw same (rewrites.1 p.1)),
    )

named-ok :
    (s : Bool) (o : Option GatewayRouteHostnameMatch)
    → ((if not s && not (is_some o)
          then err missing_service_and_hostname
          else if not s
          then elim o [ none ↦ panic | some h ↦ validate_host_name h ]
          else ok tt)
        ≡ ok tt)
      ↔ ((0 < count_true (s ∷ is_some o ∷ [])) × ((s ≡ true) ⊎ IfAny HostnameOk o))
named-ok true none = (λ _. (omega arith, inl refl), λ _. refl)
named-ok true (some h) = (λ _. (omega arith, inl refl), λ _. refl)
named-ok false none = (λ h. cc, λ h. absurd (omega (arith, h.0)))
named-ok false (some h) = (λ e. (omega arith, inr ((validate_host_name-ok h).0 e)), λ p. second p.1)
  where
    second : (◌≡◌ {A = Bool} false true) ⊎ HostnameOk h → validate_host_name h ≡ ok tt
    second (inl e) = cc
    second (inr k) = (validate_host_name-ok h).1 k

grpc-ok : (r : GrpcGatewayRoute) → (validate_grpc_gateway_route_spec r ≡ ok tt) ↔ GrpcPasses r
unfolding validate_grpc_gateway_route_spec validate_hostname_and_servicename
grpc-ok r =
    let named = named-ok (is_some r.match.service_name) r.match.hostname in
    let metadata = validate_metadata_if_any-ok r.match.metadata in
    (
      λ p. let (a, b) = (seq-ok _ _).0 p in let (c, d) = named.0 a in (c, d, metadata.0 b),
      λ (c, d, b). (seq-ok _ _).1 (named.1 (c, d), metadata.1 b),
    )

-- A spec is accepted exactly when it has exactly one of the three routes, and that route passes the
-- tests that are made, which are the following. An HTTP or HTTP2 route: its match has a prefix, a
-- path or a hostname, not both prefix and path; the path, if set, is exact or a regex and not both,
-- and the hostname, if set, is exact or a suffix and not both; if there are headers, each header
-- match up to and with the first that has a range holds exactly one filter, and that range is not
-- empty, and if there are none, each query-parameter match is exact; a rewrite, if set, has a
-- prefix, a path or a hostname, not both prefix and path, and with a rewrite of the prefix the
-- match's prefix, if set, starts with "/", not both a default prefix and a value are set, and the
-- value, if set, starts and ends with "/". A gRPC route: it has a service name or a hostname, the
-- hostname of a route without a service name is exact or a suffix and not both, and each metadata
-- match up to and with the first that has a range holds at most one filter, and that range is not
-- empty. So the headers or metadata after the first range, query parameters beside headers, and a
-- hostname beside a service name do not count.
pub validate_internal-ok :
    (spec : GatewayRouteSpec) → (validate_internal spec ≡ ok tt) ↔ SpecPasses spec
unfolding validate_internal get_number_of_route_types dispatch
validate_internal-ok spec = go spec.grpc_route spec.http_route spec.http2_route
  where
    go :
        (g : Option GrpcGatewayRoute) (h k : Option HttpGatewayRoute)
        → ((validate_internal (record spec { grpc_route = g; http_route = h; http2_route = k }))
            ≡ ok tt)
          ↔ ((count_true (is_some g ∷ is_some h ∷ is_some k ∷ []) ≡ 1)
              × IfAny GrpcPasses g
              × IfAny HttpPasses h
              × IfAny HttpPasses k)
    go none none none = (λ e. cc, λ p. absurd (omega (arith, p.0)))
    go (some g) none none = (λ e. (refl, (grpc-ok g).0 e, tt, tt), λ p. (grpc-ok g).1 p.1)
    go none (some h) none = (λ e. (refl, tt, (http-ok h).0 e, tt), λ p. (http-ok h).1 p.2)
    go none none (some k) = (λ e. (refl, tt, tt, (http-ok k).0 e), λ p. (http-ok k).1 p.3)
    go none (some h) (some k) = (λ e. cc, λ p. absurd (omega (arith, p.0)))
    go (some g) none (some k) = (λ e. cc, λ p. absurd (omega (arith, p.0)))
    go (some g) (some h) none = (λ e. cc, λ p. absurd (omega (arith, p.0)))
    go (some g) (some h) (some k) = (λ e. cc, λ p. absurd (omega (arith, p.0)))

-- An update of a gateway route is accepted exactly when it keeps the AWS name and both references,
-- and the new spec passes the tests that the spec of a new gateway route has to pass (SpecPasses,
-- which leaves out headers and metadata after the first range, query parameters beside headers,
-- and a hostname beside a service name).
pub validate_update-ok :
    (new old : GatewayRoute)
    → (validate_update new old ≡ ok tt) ↔ (
        (new.spec.aws_name ≡ old.spec.aws_name)
        × (new.spec.mesh_ref ≡ old.spec.mesh_ref)
        × (new.spec.virtual_gateway_ref ≡ old.spec.virtual_gateway_ref)
        × SpecPasses new.spec)
unfolding validate_update enforce_fields_immutability
validate_update-ok new old =
    let name = changed-nil "spec.awsName" new.spec.aws_name old.spec.aws_name in
    let mesh = changed-nil "spec.meshRef" new.spec.mesh_ref old.spec.mesh_ref in
    let gateway =
      changed-nil "spec.virtualGatewayRef" new.spec.virtual_gateway_ref
        old.spec.virtual_gateway_ref in
    let spec = validate_internal-ok new.spec in
    (
      λ p.
          let (a, b) = (seq-ok _ _).0 p in
          let (c, d) = (append-nil_iff _ _).0 ((enforce-ok _ _).0 a) in
          let (e, f) = (append-nil_iff _ _).0 d in (name.0 c, mesh.0 e, gateway.0 f, spec.0 b),
      λ (c, e, f, b). (seq-ok _ _).1 (
        (enforce-ok _ _).1
            ((append-nil_iff _ _).1 (name.1 c, (append-nil_iff _ _).1 (mesh.1 e, gateway.1 f))),
        spec.1 b,
      ),
    )
