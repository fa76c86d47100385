-- ===== src/Routes/Reconcile/Tests.antt =====
-- A reconciliation that creates, updates and deletes, against an App Mesh in memory.
use aws_app_mesh_controller.Base.Int.{pos}
use aws_app_mesh_controller.Base.{
  String, Bool, none, some, [], ◌∷◌, Result, ok, ◌≡◌, refl, string_eq, ◌==◌, ==-refl, ◌<>◌, select,
  filter_map,
}
use aws_app_mesh_controller.Base.Exec.{for_each}
use aws_app_mesh_controller.Base.Dict
use aws_app_mesh_controller.Base.Dict.{Dict}
use aws_app_mesh_controller.Api.Meta.{ObjectMeta}
use aws_app_mesh_controller.Api.Mesh.{Mesh}
use aws_app_mesh_controller.Api.VirtualRouter.{Route, VirtualRouter}
use aws_app_mesh_controller.Routes.{
  insert_tainted, is_tainted, sdk_listener_by_port, tainted_sdk_route_refs, route_by_name,
  route_ref_name, sdk_route_ref_by_name, pair_of, match_routes_against_sdk_route_refs,
}
use aws_app_mesh_controller.Routes.Reconcile.{
  remove, remove_step, delete_sdk_route_by_ref, RouteData, address_of_ref, address_of, concat_pages,
  list_sdk_route_refs, find_sdk_route, found, delete_sdk_route, delete_step, create_sdk_route,
  update_sdk_route, create_step, update_step, reconcile, update, cleanup,
}
use aws_app_mesh_controller.Routes.Reconcile.Steps.{Agrees}
use aws_app_mesh_controller.Routes.Reconcile.Remove.{remove-ok}
use aws_app_mesh_controller.Routes.Reconcile.Methods.{update-converges, cleanup-empties}
use aws_app_mesh_controller.Routes.Reconcile.Memory.{
  list_sets, list_sets-laws, go_sdk, go_sdk-laws, memory_api, memory_api-laws, held_routes,
  AnyAddress, if_held, ref_of,
}

abbrev meta : ObjectMeta
meta = record {
  name = "r";
  namespace = "ns";
  uid = "u";
  labels = [];
  finalizers = [];
  generation = pos 1;
  deletion_timestamp = none;
}

abbrev route : String → Route
route n = record {
  name = n;
  grpc_route = none;
  http_route = none;
  http2_route = none;
  tcp_route = none;
  priority = none;
}

abbrev mesh : Mesh (Unit {0})
mesh = record {
  metadata = meta;
  spec = record {
    aws_name = some "m";
    namespace_selector = none;
    egress_filter = none;
    mesh_owner = none;
    service_discovery = none;
  };
  status = record { mesh_arn = none; conditions = []; observed_generation = none };
}

abbrev router : VirtualRouter
router = record {
  metadata = meta;
  spec = record {
    aws_name = some "r";
    listeners = [];
    routes = route "a" ∷ route "b" ∷ [];
    mesh_ref = none;
  };
  status = record {
    virtual_router_arn = none;
    route_arns = none;
    conditions = [];
    observed_generation = none;
  };
}

abbrev build : Route → Result (Unit {0}) String
build r = ok (r.name <> "!")

abbrev same : String → String → Bool
same s t = s == t

abbrev before : Dict String String
before = ("b", "old") ∷ ("c", "gone") ∷ []

abbrev after : Dict String String
after = ("b", "b!") ∷ ("a", "a!") ∷ []

abbrev held : String → RouteData String
held n = record {
  address = address_of mesh router;
  route_name = some n;
  arn = some n;
  spec = n <> "!";
}

update_run :
    update go_sdk list_sets memory_api build same mesh router before
    ≡ (ok (("a", held "a") ∷ ("b", held "b") ∷ []), after)
unfolding update list_sdk_route_refs concat_pages reconcile match_routes_against_sdk_route_refs
    route_by_name sdk_route_ref_by_name route_ref_name create_step create_sdk_route update_step
    find_sdk_route found update_sdk_route delete_step delete_sdk_route address_of address_of_ref
    for_each pair_of if_held ref_of select filter_map Dict.keys Dict.lookup Dict.insert Dict.erase
    Dict.index_by Dict.values_of string_eq
update_run = refl

cleanup_run : cleanup go_sdk list_sets memory_api build same mesh router before ≡ (ok tt, [])
unfolding cleanup list_sdk_route_refs concat_pages reconcile match_routes_against_sdk_route_refs
    route_by_name sdk_route_ref_by_name route_ref_name create_step create_sdk_route update_step
    find_sdk_route found update_sdk_route delete_step delete_sdk_route address_of address_of_ref
    for_each pair_of if_held ref_of select filter_map Dict.keys Dict.lookup Dict.insert Dict.erase
    Dict.index_by Dict.values_of string_eq
cleanup_run = refl

update-converges_example :
    Agrees build same (Dict.lookup "b" (route_by_name router.spec.routes)) (held_routes after "b")
update-converges_example =
    update-converges go_sdk go_sdk-laws list_sets list_sets-laws memory_api held_routes AnyAddress
      memory_api-laws build same ==-refl mesh router tt before _ after update_run "b"

cleanup-empties_example : held_routes [] "c" ≡ none
cleanup-empties_example =
    cleanup-empties go_sdk go_sdk-laws list_sets list_sets-laws memory_api held_routes AnyAddress
      memory_api-laws build same ==-refl mesh router tt before tt [] cleanup_run "c"

remove_run :
    remove go_sdk list_sets {B = Unit {0}} memory_api mesh router [] before
    ≡ (ok tt, ("b", "old") ∷ [])
unfolding remove remove_step delete_sdk_route_by_ref list_sdk_route_refs concat_pages
    tainted_sdk_route_refs insert_tainted is_tainted route_by_name sdk_route_ref_by_name
    sdk_listener_by_port route_ref_name address_of address_of_ref for_each if_held ref_of select
    filter_map Dict.keys Dict.lookup Dict.insert Dict.erase Dict.index_by Dict.values_of string_eq
remove_run = refl

remove-ok_example : held_routes (("b", "old") ∷ []) "c" ≡ none
unfolding Dict.lookup string_eq
remove-ok_example =
    remove-ok go_sdk list_sets list_sets-laws memory_api held_routes AnyAddress memory_api-laws mesh
      router tt [] before tt (("b", "old") ∷ []) remove_run "c"
