-- ===== src/Managers/Routers/Tests.antt =====
-- A virtual router at a concrete App Mesh and cluster: it is another account's, but its routes change.
use aws_app_mesh_controller.Base.{
  String, Bool, true, Option, none, some, List, [], ◌∷◌, Result, ok, ◌≡◌, refl, ==-refl, ◌==◌, ◌<>◌,
  string_eq, is_some, filter_map, select,
}
use aws_app_mesh_controller.Base.Int.{int_eq}
use aws_app_mesh_controller.Base.Exec.{for_each}
use aws_app_mesh_controller.Base.Dict
use aws_app_mesh_controller.Base.Dict.{Dict}
use aws_app_mesh_controller.Api.Meta.{NamespacedName}
use aws_app_mesh_controller.Api.Shared.{VirtualNodeReference}
use aws_app_mesh_controller.Api.Mesh.{Mesh}
use aws_app_mesh_controller.Api.VirtualNode.{VirtualNode}
use aws_app_mesh_controller.Api.VirtualRouter.{Route, VirtualRouter, VirtualRouterSpec}
use aws_app_mesh_controller.Conditions.{is_active, has_changed, get_condition}
use aws_app_mesh_controller.References.{UnexpectedReference}
use aws_app_mesh_controller.References.Resolver.{resolve_mesh_reference}
use aws_app_mesh_controller.Routes.{
  SdkListener, match_routes_against_sdk_route_refs, route_by_name, sdk_route_ref_by_name,
  route_ref_name, pair_of, tainted_sdk_route_refs, insert_tainted, is_tainted, sdk_listener_by_port,
  extract_virtual_node_references, route_references,
}
use aws_app_mesh_controller.Routes.Reconcile
use aws_app_mesh_controller.Routes.Reconcile.{
  Address, address_of, address_of_ref, list_sdk_route_refs, concat_pages, create_step,
  create_sdk_route, update_step, find_sdk_route, found, update_sdk_route, delete_step,
  delete_sdk_route, delete_sdk_route_by_ref, remove_step,
}
use aws_app_mesh_controller.Routes.Reconcile.Steps.{Agrees}
use aws_app_mesh_controller.Routes.Reconcile.Memory.{
  go_sdk, go_sdk-laws, list_sets, list_sets-laws, AnyAddress, if_held, ref_of,
}
use aws_app_mesh_controller.Managers.{
  ResourceKey, find_sdk, update_sdk, delete_sdk, is_controlled, is_owned, find_mesh_dependency,
  validate_mesh_dependencies,
}
use aws_app_mesh_controller.Managers.Laws.{Held}
use aws_app_mesh_controller.Managers.Applied.{Applied, Deleted}
use aws_app_mesh_controller.Managers.Memory.{
  World, held_in, my_account, if_there, resource_key_eq, meta, mesh_reference, cluster,
}
use aws_app_mesh_controller.Managers.Status.{arn_differs, generation_differs, conditions_change}
use aws_app_mesh_controller.Managers.Dependencies.{find_virtual_nodes, validate_all}
use aws_app_mesh_controller.Managers.Routers.{
  key, build_sdk_virtual_router_spec, build_sdk_route_spec, find_sdk_virtual_router,
  update_sdk_virtual_router, delete_sdk_virtual_router, update_crd_virtual_router,
  virtual_router_needs_update, route_arn_by_name, same_arns, create_or_update, reconcile,
  clean_up_found, cleanup,
}
use aws_app_mesh_controller.Managers.Routers.Memory.{
  memory_routes, memory_routers, router-laws, routes_in,
}
use aws_app_mesh_controller.Managers.Routers.Converges.{router-Applied}
use aws_app_mesh_controller.Managers.Routers.Cleanup.{router-Deleted}

abbrev route : String → Route
route n = record {
  name = n;
  grpc_route = none;
  http_route = none;
  http2_route = none;
  tcp_route = none;
  priority = none;
}

abbrev router : Option String → VirtualRouter
router arn = record {
  metadata = meta "r";
  spec = record {
    aws_name = some "r";
    listeners = [];
    routes = route "a" ∷ route "b" ∷ [];
    mesh_ref = some mesh_reference;
  };
  status = record {
    virtual_router_arn = arn;
    route_arns = none;
    conditions = [];
    observed_generation = none;
  };
}

abbrev convert : VirtualRouterSpec → Result Bool String
convert spec = ok "new"

abbrev listeners_of : String → List SdkListener
listeners_of s = []

abbrev convert_route :
    Route → (VirtualNodeReference → Result UnexpectedReference String) → Result Bool String
convert_route r f = ok (r.name <> "!")

abbrev same : String → String → Bool
same s t = s == t

abbrev router_key : ResourceKey
router_key = record {
  mesh_name = some "m";
  mesh_owner = none;
  virtual_gateway_name = none;
  name = some "r";
}

abbrev foreign : Held String
foreign = record { owner = some "2"; spec = "old" }

abbrev before : World
before = ((router_key, foreign) ∷ [], ("b", "old") ∷ ("c", "gone") ∷ [])

abbrev after : World
after = ((router_key, foreign) ∷ [], ("b", "b!") ∷ ("a", "a!") ∷ [])

reconcile_run :
    reconcile go_sdk my_account 5 list_sets cluster memory_routers same convert listeners_of
      memory_routes same convert_route
      (router none)
      before
    ≡ (ok tt, after)
unfolding reconcile find_mesh_dependency resolve_mesh_reference validate_mesh_dependencies is_active
    find_virtual_nodes extract_virtual_node_references route_references validate_all
    find_sdk_virtual_router find_sdk key create_or_update update_sdk_virtual_router update_sdk
    is_controlled build_sdk_virtual_router_spec build_sdk_route_spec update_crd_virtual_router
    virtual_router_needs_update arn_differs generation_differs conditions_change has_changed
    get_condition same_arns route_arn_by_name Reconcile.remove Reconcile.update Reconcile.reconcile
    remove_step delete_sdk_route_by_ref list_sdk_route_refs concat_pages
    match_routes_against_sdk_route_refs tainted_sdk_route_refs insert_tainted is_tainted
    sdk_listener_by_port route_by_name sdk_route_ref_by_name route_ref_name create_step
    create_sdk_route update_step find_sdk_route found update_sdk_route delete_step delete_sdk_route
    address_of address_of_ref for_each pair_of if_held ref_of if_there select filter_map Dict.keys
    Dict.lookup Dict.insert Dict.erase Dict.index_by Dict.values_of string_eq resource_key_eq int_eq
reconcile_run = refl

cleanup_run :
    cleanup go_sdk my_account 5 list_sets cluster memory_routers same convert listeners_of
      memory_routes same convert_route
      (router (some "arn"))
      before
    ≡ (ok tt, ((router_key, foreign) ∷ [], []))
unfolding cleanup find_mesh_dependency resolve_mesh_reference find_sdk_virtual_router find_sdk key
    clean_up_found delete_sdk_virtual_router delete_sdk is_owned is_controlled build_sdk_route_spec
    Reconcile.cleanup Reconcile.reconcile list_sdk_route_refs concat_pages
    match_routes_against_sdk_route_refs route_by_name sdk_route_ref_by_name route_ref_name
    create_step create_sdk_route update_step find_sdk_route found update_sdk_route delete_step
    delete_sdk_route address_of address_of_ref for_each pair_of if_held ref_of if_there select
    filter_map Dict.keys Dict.lookup Dict.insert Dict.erase Dict.index_by Dict.values_of string_eq
    resource_key_eq
cleanup_run = refl

router-Applied_example :
    (ms : Mesh (Unit {0})) × (nodes : Dict NamespacedName (VirtualNode (Unit {0}))) × (s : String)
    × ((v : World) × (find_mesh_dependency cluster (some mesh_reference) before ≡ (ok ms, v)))
    × (is_active "MeshActive" ms.status.conditions ≡ true)
    × ((v v' : World) × (find_virtual_nodes cluster
            (meta "r")
            (extract_virtual_node_references (router none).spec.routes)
            v
          ≡ (ok nodes, v')))
    × (build_sdk_virtual_router_spec convert (router none) ≡ ok s)
    × Applied go_sdk my_account same s
        (held_in before (key ms (router none)))
        (held_in after (key ms (router none)))
    × ((n : String)
        → Agrees
            (build_sdk_route_spec go_sdk convert_route (router none) nodes)
            same
            (Dict.lookup n (route_by_name (router none).spec.routes))
            (routes_in (address_of ms (router none)) after n))
router-Applied_example =
    router-Applied go_sdk go_sdk-laws my_account 5 list_sets list_sets-laws cluster memory_routers
      same convert listeners_of memory_routes same convert_route held_in routes_in (λ _. AnyAddress)
      router-laws ==-refl ==-refl (router none) before tt after reconcile_run

router-Deleted_example :
    (ms : Mesh (Unit {0})) × ((v : World) × (find_mesh_dependency cluster
          (some mesh_reference)
          before
        ≡ (ok ms, v)))
    × Deleted go_sdk my_account
        (held_in before (key ms (router (some "arn"))))
        (held_in ((router_key, foreign) ∷ [], []) (key ms (router (some "arn"))))
    × (is_some (held_in before (key ms (router (some "arn")))) ≡ true
        → (n : String)
        → routes_in (address_of ms (router (some "arn"))) ((router_key, foreign) ∷ [], []) n ≡ none)
router-Deleted_example =
    router-Deleted go_sdk go_sdk-laws my_account 5 list_sets list_sets-laws cluster memory_routers
      same convert listeners_of memory_routes same convert_route held_in routes_in (λ _. AnyAddress)
      router-laws ==-refl (router (some "arn")) before tt ((router_key, foreign) ∷ [], []) refl
      cleanup_run
