-- ===== src/Managers/Routers.antt =====
-- pkg/virtualrouter/resource_manager.go. The routes are changed before and after the router itself:
-- routes that no longer fit the listeners go before an update of the router.
pub mod Memory
pub mod Steps
mod Tests
pub mod Converges
pub mod Cleanup
use aws_app_mesh_controller.Base.{
  ℕ, String, Bool, Option, none, some, List, [], ◌∷◌, ◌++◌, Result, if◌then◌else◌, is_some,
  contains, string_eq, true, false, ◌&&◌, ◌||◌, not, err, ok, panic, ◌==◌, option_eq,
}
use aws_app_mesh_controller.Base.Exec.{Exec, pure, ◌>>=◌, ◌>>◌}
use aws_app_mesh_controller.Base.Dict.{Dict}
use aws_app_mesh_controller.Api.Meta.{NamespacedName}
use aws_app_mesh_controller.Api.Equal.{namespaced_name_eq}
use aws_app_mesh_controller.Api.Mesh.{Mesh, MeshSpec}
use aws_app_mesh_controller.Api.Shared.{
  VirtualNodeReference, VirtualServiceReference, VirtualRouterReference,
}
use aws_app_mesh_controller.Api.VirtualNode.{VirtualNode, VirtualNodeSpec, Backend}
use aws_app_mesh_controller.Api.VirtualGateway.{VirtualGateway, VirtualGatewaySpec}
use aws_app_mesh_controller.Api.VirtualService.{VirtualService, VirtualServiceSpec}
use aws_app_mesh_controller.Api.VirtualRouter.{VirtualRouter, VirtualRouterSpec}
use aws_app_mesh_controller.Api.GatewayRoute.{GatewayRoute, GatewayRouteSpec}
use aws_app_mesh_controller.References.{
  AwsSdk, UnexpectedReference, build_sdk_virtual_service_reference_convert_func,
  build_sdk_virtual_node_reference_convert_func, build_sdk_virtual_router_reference_convert_func,
  object_key_for_virtual_service_reference,
}
use aws_app_mesh_controller.References.Resolver.{Client}
use aws_app_mesh_controller.Runtime.{Failure}
use aws_app_mesh_controller.Managers.{
  ResourceKey, ResourceData, ResourceApi, find_sdk, create_sdk, update_sdk, delete_sdk, if_found,
  find_mesh_dependency, validate_mesh_dependencies,
}
use aws_app_mesh_controller.Managers.Status.{
  update_crd_mesh, update_crd_virtual_node, update_crd_virtual_gateway, update_crd_virtual_service,
  update_crd_gateway_route,
}
use aws_app_mesh_controller.Managers.Dependencies.{
  find_virtual_nodes, find_virtual_services, find_virtual_routers, find_node_virtual_services,
  find_virtual_gateway_dependency, validate_all, validate_virtual_node, validate_virtual_router,
  validate_virtual_service, validate_backend, validate_virtual_gateway_dependency,
  provider_node_references, provider_router_references, route_target_references, reference_to,
}
use aws_app_mesh_controller.Base.Sets.{StringSets}
use aws_app_mesh_controller.Base.Dict
use aws_app_mesh_controller.Api.VirtualRouter.{Route}
use aws_app_mesh_controller.Routes.{SdkListener, extract_virtual_node_references}
use aws_app_mesh_controller.Routes.Reconcile
use aws_app_mesh_controller.Routes.Reconcile.{
  RouteData, RouteApi, RouteError, api_error, bad_spec, route_not_found,
}
use aws_app_mesh_controller.Runtime.{caused, message, sdk_route_not_found}
use aws_app_mesh_controller.References.Resolver.{from_client}
use aws_app_mesh_controller.Managers.Status.{
  arn_differs, generation_differs, next_arn, next_generation, next_conditions, conditions_change,
}

-- The error of the routes manager is handed on.
abbrev pub as_failure : {E : Type 0} → RouteError E E → Failure E
as_failure (api_error e) = caused e
as_failure (bad_spec e) = caused e
as_failure (route_not_found name) = message (sdk_route_not_found name)

abbrev pub from_routes : {W E A : Type 0} → Result (RouteError E E) A × W → Result (Failure E) A × W
from_routes (ok a, w) = (ok a, w)
from_routes (err e, w) = (err (as_failure e), w)
from_routes (panic, w) = (panic, w)

-- cmp.Equal on maps: nil equals nil only, and the other map is never nil.
unfoldable pub same_arns : Option (Dict String String) → Dict String String → Bool
same_arns none b = false
same_arns (some a) b = Dict.same_map a b

module _ (sdk : AwsSdk) {Spec : Type 0} where
  unfoldable pub route_arn_by_name : Dict String (RouteData Spec) → Dict String String
  route_arn_by_name [] = []
  route_arn_by_name ((name, d) ∷ rest) = (name, sdk.string_value d.arn) ∷ route_arn_by_name rest

module _ (sdk : AwsSdk) (now : ℕ) {Spec RouteSpec : Type 0} where
  unfoldable pub virtual_router_with_status :
      VirtualRouter → ResourceData Spec → Dict String (RouteData RouteSpec) → VirtualRouter
  virtual_router_with_status vr d routes = record vr {
    status = record {
      virtual_router_arn = next_arn sdk vr.status.virtual_router_arn d.arn;
      route_arns =
          if same_arns vr.status.route_arns (route_arn_by_name sdk routes)
          then vr.status.route_arns
          else some (route_arn_by_name sdk routes);
      conditions = next_conditions sdk now "VirtualRouterActive" vr.status.conditions d;
      observed_generation =
          next_generation sdk vr.status.observed_generation vr.metadata.generation;
    };
  }

  unfoldable pub virtual_router_needs_update :
      VirtualRouter → ResourceData Spec → Dict String (RouteData RouteSpec) → Bool
  virtual_router_needs_update vr d routes =
      arn_differs sdk vr.status.virtual_router_arn d.arn
      || generation_differs sdk vr.status.observed_generation vr.metadata.generation
      || not (same_arns vr.status.route_arns (route_arn_by_name sdk routes))
      || conditions_change sdk now "VirtualRouterActive" vr.status.conditions d

unfoldable pub key : {Selector : Type 0} → Mesh Selector → VirtualRouter → ResourceKey
key ms vr = record {
  mesh_name = ms.spec.aws_name;
  mesh_owner = ms.spec.mesh_owner;
  virtual_gateway_name = none;
  name = vr.spec.aws_name;
}

-- `convert` is the conversion of pkg/conversions.
unfoldable pub build_sdk_virtual_router_spec :
    {E Spec : Type 0} → (VirtualRouterSpec → Result E Spec) → VirtualRouter → Result E Spec
build_sdk_virtual_router_spec convert vr = convert vr.spec

module _ (sdk : AwsSdk) {E Selector RouteSpec : Type 0}
    (convert_route : Route
      → (VirtualNodeReference → Result UnexpectedReference String)
      → Result E RouteSpec) where
  -- `convert_route` is the conversion of pkg/conversions, given the conversion of references.
  unfoldable pub build_sdk_route_spec :
      VirtualRouter → Dict NamespacedName (VirtualNode Selector) → Route → Result E RouteSpec
  build_sdk_route_spec vr nodes route =
      convert_route route (build_sdk_virtual_node_reference_convert_func sdk vr.metadata nodes)

module _ (sdk : AwsSdk) (account_id : String) (now : ℕ) (sets : StringSets)
    {W E Selector Spec RouteSpec : Type 0} (client : Client W E Selector)
    (api : ResourceApi W E Spec) (equal : Spec → Spec → Bool)
    (convert : VirtualRouterSpec → Result E Spec) (listeners_of : Spec → List SdkListener)
    (route_api : RouteApi W E RouteSpec) (equal_route : RouteSpec → RouteSpec → Bool)
    (convert_route : Route
      → (VirtualNodeReference → Result UnexpectedReference String)
      → Result E RouteSpec) where
  unfoldable pub find_sdk_virtual_router :
      Mesh Selector → VirtualRouter → Exec W (Failure E) (Option (ResourceData Spec))
  find_sdk_virtual_router ms vr = find_sdk api (key ms vr)

  unfoldable pub create_sdk_virtual_router :
      Mesh Selector → VirtualRouter → Exec W (Failure E) (ResourceData Spec)
  create_sdk_virtual_router ms vr =
      create_sdk api (key ms vr) (build_sdk_virtual_router_spec convert vr)

  unfoldable pub update_sdk_virtual_router :
      ResourceData Spec → VirtualRouter → Exec W (Failure E) (ResourceData Spec)
  update_sdk_virtual_router d vr =
      update_sdk api sdk account_id equal d.key (build_sdk_virtual_router_spec convert vr) d

  unfoldable pub delete_sdk_virtual_router : ResourceData Spec → Exec W (Failure E) (Unit {0})
  delete_sdk_virtual_router d = delete_sdk api sdk account_id d.key d

  unfoldable pub update_crd_virtual_router :
      VirtualRouter
      → ResourceData Spec
      → Dict String (RouteData RouteSpec)
      → Exec W (Failure E) (Unit {0})
  update_crd_virtual_router vr d routes =
      if virtual_router_needs_update sdk now vr d routes
      then (λ w. from_client (
          client.patch_virtual_router_status vr (virtual_router_with_status sdk now vr d routes) w))
      else pure tt

  -- The router that App Mesh holds afterwards, and its routes.
  unfoldable pub create_or_update :
      Mesh Selector
      → VirtualRouter
      → Dict NamespacedName (VirtualNode Selector)
      → Option (ResourceData Spec)
      → Exec W (Failure E) (ResourceData Spec × Dict String (RouteData RouteSpec))
  create_or_update ms vr nodes none = do
    d ← create_sdk_virtual_router ms vr
    routes ← λ w. from_routes (
        Reconcile.create sdk sets route_api (build_sdk_route_spec sdk convert_route vr nodes)
          equal_route ms vr w)
    pure (d, routes)
  create_or_update ms vr nodes (some found) = do
    λ w. from_routes (Reconcile.remove sdk sets route_api ms vr (listeners_of found.spec) w)
    d ← update_sdk_virtual_router found vr
    routes ← λ w. from_routes (
        Reconcile.update sdk sets route_api (build_sdk_route_spec sdk convert_route vr nodes)
          equal_route ms vr w)
    pure (d, routes)

  unfoldable pub reconcile : VirtualRouter → Exec W (Failure E) (Unit {0})
  reconcile vr = do
    ms ← find_mesh_dependency client vr.spec.mesh_ref
    validate_mesh_dependencies ms
    nodes ← find_virtual_nodes client vr.metadata (extract_virtual_node_references vr.spec.routes)
    validate_all ms (validate_virtual_node ms) nodes
    found ← find_sdk_virtual_router ms vr
    held ← create_or_update ms vr nodes found
    update_crd_virtual_router vr held.0 held.1

  -- The routes go first. No route is built, so that the map of nodes plays no role.
  unfoldable pub clean_up_found :
      Mesh Selector → VirtualRouter → ResourceData Spec → Exec W (Failure E) (Unit {0})
  clean_up_found ms vr d = do
    λ w. from_routes (
        Reconcile.cleanup sdk sets route_api
          (build_sdk_route_spec sdk {Selector = Selector} convert_route vr []) equal_route ms vr w)
    delete_sdk_virtual_router d

  unfoldable pub cleanup : VirtualRouter → Exec W (Failure E) (Unit {0})
  cleanup vr = do
    ms ← find_mesh_dependency client vr.spec.mesh_ref
    λ w.
        if_found vr.status.virtual_router_arn (clean_up_found ms vr)
          (find_sdk_virtual_router ms vr w)
