-- ===== src/Webhooks/VirtualRouter/Decides.antt =====
-- Which routers virtualrouter_validator.go accepts, on create and on update.
use aws_app_mesh_controller.Base.{
  String, Option, none, some, List, [], ◌∷◌, map, ◌≡◌, refl, ◌↔◌, ok, is_some, arith, All, Distinct,
  filter_map, ap, string_eq, option_eq,
}
use aws_app_mesh_controller.Api.Shared.{HttpPathMatch}
use aws_app_mesh_controller.Api.VirtualRouter.{Route, HttpRoute, HttpRouteMatch, VirtualRouter}
use aws_app_mesh_controller.Api.Equal.{mesh_reference_eq}
use aws_app_mesh_controller.Webhooks.Checks.{
  Check, count_true, seq-ok, if_any-ok, IfAny, enforce-ok, changed-nil, append-nil_iff,
  no_repeats-ok,
}
use aws_app_mesh_controller.Webhooks.VirtualRouter.{
  validate_path_for_virtual_route, validate_route_match, validate_route, validate_routes,
  check_for_duplicate_route_entries, enforce_fields_immutability, validate_create, validate_update,
}

abbrev pub names : List Route → List String
names = map (λ r. r.name)

abbrev pub PathOk : HttpPathMatch → Type 0
PathOk p = count_true (is_some p.exact ∷ is_some p.regex ∷ []) ≡ 1

abbrev pub MatchOk : HttpRouteMatch → Type 0
MatchOk m = (count_true (is_some m.prefix ∷ is_some m.path ∷ []) ≡ 1) × IfAny PathOk m.path

-- An HTTP2 route beside an HTTP route is not looked at, and gRPC and TCP routes are not either.
abbrev pub RoutePasses : Option HttpRoute → Option HttpRoute → Type 0
RoutePasses (some h) http2 = MatchOk h.match
RoutePasses none http2 = IfAny (λ h. MatchOk h.match) http2

path-ok : (p : HttpPathMatch) → (validate_path_for_virtual_route p ≡ ok tt) ↔ PathOk p
unfolding validate_path_for_virtual_route
path-ok p = ground arith

route_match-ok : (m : HttpRouteMatch) → (validate_route_match m ≡ ok tt) ↔ MatchOk m
unfolding validate_route_match
route_match-ok m = ground (arith, if_any-ok validate_path_for_virtual_route path-ok m.path)

route-ok : (r : Route) → (validate_route r ≡ ok tt) ↔ RoutePasses r.http_route r.http2_route
unfolding validate_route
route-ok r =
    either r.http_route
      (if_any-ok (λ h. validate_route_match h.match) (λ h. route_match-ok h.match) r.http2_route)
  where
    either :
        (o : Option HttpRoute) {c : Check}
        → ((c ≡ ok tt) ↔ IfAny (λ h. MatchOk h.match) r.http2_route)
        → (elim o [ some h ↦ validate_route_match h.match | none ↦ c ] ≡ ok tt)
          ↔ RoutePasses o r.http2_route
    either none e = e
    either (some h) e = route_match-ok h.match

routes-ok :
    (rs : List Route)
    → (validate_routes rs ≡ ok tt) ↔ All (λ r. RoutePasses r.http_route r.http2_route) rs
unfolding validate_routes
routes-ok [] = (λ _. tt, λ _. refl)
routes-ok (r ∷ rs) = (
  λ p. let (a, b) = (seq-ok _ _).0 p in ((route-ok r).0 a, (routes-ok rs).0 b),
  λ p. (seq-ok _ _).1 ((route-ok r).1 p.0, (routes-ok rs).1 p.1),
)

names-filter_map : (rs : List Route) → filter_map (λ r. some r.name) rs ≡ names rs
unfolding filter_map
names-filter_map [] = refl
names-filter_map (r ∷ rs) = ap (◌∷◌ r.name) (names-filter_map rs)

duplicates-ok :
    (vr : VirtualRouter)
    → (check_for_duplicate_route_entries vr ≡ ok tt) ↔ Distinct (names vr.spec.routes)
unfolding check_for_duplicate_route_entries
duplicates-ok vr = rw (← names-filter_map vr.spec.routes) (no_repeats-ok _ _ vr.spec.routes)

-- A new router is accepted exactly when its route names differ, and in each route the match of the HTTP
-- route, or of the HTTP2 route where there is no HTTP route, has a prefix or a path and not both, and a
-- path that is exact or a regex and not both. An HTTP2 route beside an HTTP route, and gRPC and TCP
-- routes, are not looked at.
pub router_create-ok :
    (vr : VirtualRouter)
    → (validate_create vr ≡ ok tt) ↔ (
        Distinct (names vr.spec.routes)
        × All (λ r. RoutePasses r.http_route r.http2_route) vr.spec.routes)
unfolding validate_create
router_create-ok vr = (
  λ p. let (a, b) = (seq-ok _ _).0 p in ((duplicates-ok vr).0 a, (routes-ok _).0 b),
  λ p. (seq-ok _ _).1 ((duplicates-ok vr).1 p.0, (routes-ok _).1 p.1),
)

-- An update of a router is accepted exactly when the new router would be accepted as a new one and it
-- keeps the AWS name and the mesh reference.
pub router_update-ok :
    (new old : VirtualRouter)
    → (validate_update new old ≡ ok tt) ↔ (
        (new.spec.aws_name ≡ old.spec.aws_name)
        × (new.spec.mesh_ref ≡ old.spec.mesh_ref)
        × (validate_create new ≡ ok tt))
unfolding validate_update validate_create enforce_fields_immutability
router_update-ok new old =
    let name = changed-nil "spec.awsName" new.spec.aws_name old.spec.aws_name in
    let mesh = changed-nil "spec.meshRef" new.spec.mesh_ref old.spec.mesh_ref in
    (
      λ p.
          let (a, b) = (seq-ok _ _).0 p in
          let (c, d) = (append-nil_iff _ _).0 ((enforce-ok _ _).0 a) in (name.0 c, mesh.0 d, b),
      λ (c, d, b).
          (seq-ok _ _).1 ((enforce-ok _ _).1 ((append-nil_iff _ _).1 (name.1 c, mesh.1 d)), b),
    )
