-- ===== src/Managers/Nodes.antt =====
-- pkg/virtualnode/resource_manager.go. `missing_backends` is the
-- second loop of BuildSDKVirtualNodeSpec, over the map in the order of its entries.
pub mod Converges
mod Tests
use aws_app_mesh_controller.Base.{
  ℕ, String, Bool, Option, none, some, List, [], ◌∷◌, ◌++◌, Result, if◌then◌else◌, is_some,
  contains, string_eq,
}
use aws_app_mesh_controller.Base.Exec.{Exec, pure, ◌>>=◌, ◌>>◌}
use aws_app_mesh_controller.Base.Dict.{Dict}
use aws_app_mesh_controller.Api.Meta.{NamespacedName}
use aws_app_mesh_controller.Api.Equal.{namespaced_name_eq}
use aws_app_mesh_controller.Api.Mesh.{Mesh, MeshSpec}
use aws_app_mesh_controller.Api.Shared.{
  VirtualNodeReference, VirtualServiceReference, VirtualRouterReference,
}
use aws_app_mesh_controller.Api.VirtualNode.{VirtualNode, VirtualNodeSpec, Backend}
use aws_app_mesh_controller.Api.VirtualGateway.{VirtualGateway, VirtualGatewaySpec}
use aws_app_mesh_controller.Api.VirtualService.{VirtualService, VirtualServiceSpec}
use aws_app_mesh_controller.Api.VirtualRouter.{VirtualRouter, VirtualRouterSpec}
use aws_app_mesh_controller.Api.GatewayRoute.{GatewayRoute, GatewayRouteSpec}
use aws_app_mesh_controller.References.{
  AwsSdk, UnexpectedReference, build_sdk_virtual_service_reference_convert_func,
  build_sdk_virtual_node_reference_convert_func, build_sdk_virtual_router_reference_convert_func,
  object_key_for_virtual_service_reference,
}
use aws_app_mesh_controller.References.Resolver.{Client}
use aws_app_mesh_controller.Runtime.{Failure}
use aws_app_mesh_controller.Managers.{
  ResourceKey, ResourceData, ResourceApi, find_sdk, create_sdk, update_sdk, delete_sdk, if_found,
  find_mesh_dependency, validate_mesh_dependencies,
}
use aws_app_mesh_controller.Managers.Status.{
  update_crd_mesh, update_crd_virtual_node, update_crd_virtual_gateway, update_crd_virtual_service,
  update_crd_gateway_route,
}
use aws_app_mesh_controller.Managers.Dependencies.{
  find_virtual_nodes, find_virtual_services, find_virtual_routers, find_node_virtual_services,
  find_virtual_gateway_dependency, validate_all, validate_virtual_node, validate_virtual_router,
  validate_virtual_service, validate_backend, validate_virtual_gateway_dependency,
  provider_node_references, provider_router_references, route_target_references, reference_to,
}

unfoldable pub key : {Selector : Type 0} → Mesh Selector → VirtualNode Selector → ResourceKey
key ms vn = record {
  mesh_name = ms.spec.aws_name;
  mesh_owner = ms.spec.mesh_owner;
  virtual_gateway_name = none;
  name = vn.spec.aws_name;
}

module _ {Selector : Type 0} where
  -- The keys of the backends that are given by reference.
  unfoldable pub backend_keys : VirtualNode Selector → List Backend → List NamespacedName
  backend_keys vn [] = []
  backend_keys vn (b ∷ bs) =
      let rest = backend_keys vn bs in
      elim b.virtual_service.virtual_service_ref [
        | none ↦ rest
        | some ref ↦ object_key_for_virtual_service_reference vn.metadata ref ∷ rest
      ]

-- The virtual services of the backend groups become backends.
unfoldable pub missing_backends :
    List NamespacedName → Dict NamespacedName VirtualService → List Backend
missing_backends present [] = []
missing_backends present ((k, vs) ∷ rest) =
    let others = missing_backends present rest in
    if contains present k
    then others
    else record {
      virtual_service = record {
        virtual_service_ref = some (reference_to vs);
        virtual_service_arn = none;
        client_policy = none;
      };
    }
      ∷ others

module _ {Selector : Type 0} where
  unfoldable pub with_group_backends :
      VirtualNode Selector → Dict NamespacedName VirtualService → VirtualNodeSpec Selector
  with_group_backends vn by_key = record vn.spec {
    backends = vn.spec.backends ++ missing_backends (backend_keys vn vn.spec.backends) by_key;
  }

module _ (sdk : AwsSdk) {E Selector Spec : Type 0}
    (convert : VirtualNodeSpec Selector
      → (VirtualServiceReference → Result UnexpectedReference String)
      → Result E Spec) where
  -- `convert` is the conversion of pkg/conversions, given the conversion of references.
  unfoldable pub build_sdk_virtual_node_spec :
      VirtualNode Selector → Dict NamespacedName VirtualService → Result E Spec
  build_sdk_virtual_node_spec vn by_key =
      convert (with_group_backends vn by_key)
        (build_sdk_virtual_service_reference_convert_func sdk vn.metadata by_key)

module _ (sdk : AwsSdk) (account_id : String) (now : ℕ) {W E Selector Spec : Type 0}
    (client : Client W E Selector) (api : ResourceApi W E Spec) (equal : Spec → Spec → Bool)
    (enable_backend_groups : Bool)
    (convert : VirtualNodeSpec Selector
      → (VirtualServiceReference → Result UnexpectedReference String)
      → Result E Spec) where
  unfoldable pub find_sdk_virtual_node :
      Mesh Selector → VirtualNode Selector → Exec W (Failure E) (Option (ResourceData Spec))
  find_sdk_virtual_node ms vn = find_sdk api (key ms vn)

  unfoldable pub create_sdk_virtual_node :
      Mesh Selector
      → VirtualNode Selector
      → Dict NamespacedName VirtualService
      → Exec W (Failure E) (ResourceData Spec)
  create_sdk_virtual_node ms vn by_key =
      create_sdk api (key ms vn) (build_sdk_virtual_node_spec sdk convert vn by_key)

  unfoldable pub update_sdk_virtual_node :
      ResourceData Spec
      → Mesh Selector
      → VirtualNode Selector
      → Dict NamespacedName VirtualService
      → Exec W (Failure E) (ResourceData Spec)
  update_sdk_virtual_node d ms vn by_key =
      update_sdk api sdk account_id equal
        (record {
          mesh_name = ms.spec.aws_name;
          mesh_owner = ms.spec.mesh_owner;
          virtual_gateway_name = none;
          name = d.key.name;
        })
        (build_sdk_virtual_node_spec sdk convert vn by_key) d

  unfoldable pub delete_sdk_virtual_node :
      ResourceData Spec → Mesh Selector → VirtualNode Selector → Exec W (Failure E) (Unit {0})
  delete_sdk_virtual_node d ms vn =
      delete_sdk api sdk account_id
        (record {
          mesh_name = ms.spec.aws_name;
          mesh_owner = ms.spec.mesh_owner;
          virtual_gateway_name = none;
          name = d.key.name;
        })
        d

  unfoldable pub create_or_update :
      Mesh Selector
      → VirtualNode Selector
      → Dict NamespacedName VirtualService
      → Option (ResourceData Spec)
      → Exec W (Failure E) (ResourceData Spec)
  create_or_update ms vn by_key none = create_sdk_virtual_node ms vn by_key
  create_or_update ms vn by_key (some d) = update_sdk_virtual_node d ms vn by_key

  unfoldable pub reconcile : VirtualNode Selector → Exec W (Failure E) (Unit {0})
  reconcile vn = do
    ms ← find_mesh_dependency client vn.spec.mesh_ref
    validate_mesh_dependencies ms
    by_key ← find_node_virtual_services client enable_backend_groups vn
    validate_all ms (validate_backend ms) by_key
    o ← find_sdk_virtual_node ms vn
    d ← create_or_update ms vn by_key o
    update_crd_virtual_node sdk now client vn d

  unfoldable pub cleanup : VirtualNode Selector → Exec W (Failure E) (Unit {0})
  cleanup vn = do
    ms ← find_mesh_dependency client vn.spec.mesh_ref
    λ w.
        if_found vn.status.virtual_node_arn (λ d. delete_sdk_virtual_node d ms vn)
          (find_sdk_virtual_node ms vn w)
