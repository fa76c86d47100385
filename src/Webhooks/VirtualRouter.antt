-- ===== src/Webhooks/VirtualRouter.antt =====
-- webhooks/appmesh/virtualrouter_validator.go.
pub mod Decides
mod Tests
use aws_app_mesh_controller.Base.{
  String, Bool, true, not, ◌&&◌, Option, none, some, List, [], ◌∷◌, ◌++◌, ok, err, ◌>>=◌, ◌>>◌,
  is_some, if◌then◌else◌, option_eq, string_eq,
}
use aws_app_mesh_controller.Base.Dict
use aws_app_mesh_controller.Base.Dict.{Dict}
use aws_app_mesh_controller.Api.Shared.{HttpPathMatch}
use aws_app_mesh_controller.Api.VirtualRouter.{Route, HttpRouteMatch, VirtualRouter}
use aws_app_mesh_controller.Api.Equal.{mesh_reference_eq}
use aws_app_mesh_controller.Webhooks.Checks.{
  Check, missing_route_match, prefix_and_path, missing_path_match, two_path_matches,
  duplicate_route, changed, enforce, if_any, no_repeats,
}

pub validate_path_for_virtual_route : HttpPathMatch → Check
validate_path_for_virtual_route p =
    if not (is_some p.exact) && not (is_some p.regex)
    then err missing_path_match
    else if is_some p.exact && is_some p.regex
    then err two_path_matches
    else ok tt

pub validate_route_match : HttpRouteMatch → Check
validate_route_match m =
    if not (is_some m.prefix) && not (is_some m.path)
    then err missing_route_match
    else if is_some m.prefix && is_some m.path
    then err prefix_and_path
    else if_any m.path validate_path_for_virtual_route

-- The HTTP route is checked, or else the HTTP2 route.
pub validate_route : Route → Check
validate_route r = elim r.http_route [
  | some h ↦ validate_route_match h.match
  | none ↦ if_any r.http2_route (λ h. validate_route_match h.match)
]

-- `for _, route := range vr.Spec.Routes { if err := validateRoute(route); err != nil { … } }`
pub validate_routes : List Route → Check
validate_routes [] = ok tt
validate_routes (r ∷ rs) = do validate_route r; validate_routes rs

pub check_for_duplicate_route_entries : VirtualRouter → Check
check_for_duplicate_route_entries vr =
    no_repeats (λ r. some r.name) (λ r. duplicate_route vr.metadata.name r.name) vr.spec.routes

pub enforce_fields_immutability : VirtualRouter → VirtualRouter → Check
enforce_fields_immutability new old = enforce "VirtualRouter" (
    changed "spec.awsName" new.spec.aws_name old.spec.aws_name
    ++ changed "spec.meshRef" new.spec.mesh_ref old.spec.mesh_ref)

pub validate_create : VirtualRouter → Check
validate_create vr = do check_for_duplicate_route_entries vr; validate_routes vr.spec.routes

pub validate_update : VirtualRouter → VirtualRouter → Check
validate_update new old = do
  enforce_fields_immutability new old
  check_for_duplicate_route_entries new
  validate_routes new.spec.routes
