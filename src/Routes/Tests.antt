-- ===== src/Routes/Tests.antt =====
-- The matching of routes at concrete routes.
use aws_app_mesh_controller.Base.{
  String, true, false, none, some, List, [], ◌∷◌, ◌≡◌, refl, contains, not, ◌&&◌, string_eq,
}
use aws_app_mesh_controller.Api.VirtualRouter.{Route}
use aws_app_mesh_controller.Base.Int.{ℤ, pos, int_eq}
use aws_app_mesh_controller.Base.Dict
use aws_app_mesh_controller.Base.Dict.{Dict}
use aws_app_mesh_controller.Routes.{
  RouteRef, SdkListener, match_routes_against_sdk_route_refs, tainted_sdk_route_refs,
  route_ref_name, is_tainted,
}
use aws_app_mesh_controller.Routes.Tainted.{tainted-names, is_tainted-false}
use aws_app_mesh_controller.Routes.Match.{names, ref_names, pair_names, match_routes-names}
use aws_app_mesh_controller.Routes.Reconcile.Memory.{list_sets, list_sets-laws, go_sdk, go_sdk-laws}

abbrev route : String → Route
route n = record {
  name = n;
  grpc_route = none;
  http_route = none;
  http2_route = none;
  tcp_route = none;
  priority = none;
}

abbrev ref : String → RouteRef
ref n = record {
  mesh_name = some "m";
  mesh_owner = none;
  virtual_router_name = some "r";
  route_name = some n;
}

abbrev routes : List Route
routes = route "a" ∷ route "b" ∷ []

abbrev refs : List RouteRef
refs = ref "b" ∷ ref "c" ∷ []

match_routes-names_example :
    let m = match_routes_against_sdk_route_refs go_sdk list_sets routes refs in
    (contains (names m.unmatched_routes) "b"
      ≡ (contains (names routes) "b" && not (contains (ref_names go_sdk refs) "b")))
    × (contains (pair_names m.matched) "b"
        ≡ (contains (names routes) "b" && contains (ref_names go_sdk refs) "b"))
    × (contains (ref_names go_sdk m.unmatched_sdk_route_refs) "b"
        ≡ (contains (ref_names go_sdk refs) "b" && not (contains (names routes) "b")))
match_routes-names_example = match_routes-names go_sdk list_sets list_sets-laws routes refs "b"

-- A TCP route at a port whose listener is HTTP.
abbrev tcp : Route
tcp = record (route "b") {
  tcp_route = some (record {
    match = some (record { port = some (pos 80) });
    action = record { weighted_targets = [] };
    timeout = none;
  });
}

abbrev http_listener : SdkListener
http_listener = record { port = some (pos 80); protocol = some "http" }

tainted-names_example :
    contains
      (ref_names go_sdk
        (tainted_sdk_route_refs go_sdk list_sets (tcp ∷ []) (http_listener ∷ []) refs))
      "b"
    ≡ true
unfolding route_ref_name string_eq int_eq
tainted-names_example =
    tainted-names go_sdk go_sdk-laws list_sets list_sets-laws (tcp ∷ []) (http_listener ∷ []) refs
      "b"

abbrev by_port : Dict ℤ String
by_port = (pos 80, "tcp") ∷ []

is_tainted-false_example : is_tainted go_sdk by_port tcp ≡ false
unfolding Dict.lookup int_eq
is_tainted-false_example = (is_tainted-false go_sdk go_sdk-laws by_port tcp).1 (refl, tt)
