-- ===== src/Managers/Services.antt =====
-- pkg/virtualservice/resource_manager.go.
use aws_app_mesh_controller.Base.{ℕ, String, Bool, Option, none, some, Result, string_eq}
use aws_app_mesh_controller.Base.Exec.{Exec, ◌>>=◌, ◌>>◌}
use aws_app_mesh_controller.Base.Dict.{Dict}
use aws_app_mesh_controller.Api.Meta.{NamespacedName}
use aws_app_mesh_controller.Api.Equal.{namespaced_name_eq}
use aws_app_mesh_controller.Api.Mesh.{Mesh}
use aws_app_mesh_controller.Api.Shared.{VirtualNodeReference, VirtualRouterReference}
use aws_app_mesh_controller.Api.VirtualNode.{VirtualNode}
use aws_app_mesh_controller.Api.VirtualService.{VirtualService, VirtualServiceSpec}
use aws_app_mesh_controller.Api.VirtualRouter.{VirtualRouter}
use aws_app_mesh_controller.References.{
  AwsSdk, UnexpectedReference, build_sdk_virtual_node_reference_convert_func,
  build_sdk_virtual_router_reference_convert_func,
}
use aws_app_mesh_controller.References.Resolver.{Client}
use aws_app_mesh_controller.Runtime.{Failure}
use aws_app_mesh_controller.Managers.{
  ResourceKey, ResourceData, ResourceApi, find_sdk, create_sdk, update_sdk, delete_sdk, if_found,
  find_mesh_dependency, validate_mesh_dependencies,
}
use aws_app_mesh_controller.Managers.Status.{update_crd_virtual_service}
use aws_app_mesh_controller.Managers.Dependencies.{
  find_virtual_nodes, find_virtual_routers, validate_all, validate_virtual_node,
  validate_virtual_router, provider_node_references, provider_router_references,
}

unfoldable pub key : {Selector : Type 0} → Mesh Selector → VirtualService → ResourceKey
key ms vs = record {
  mesh_name = ms.spec.aws_name;
  mesh_owner = ms.spec.mesh_owner;
  virtual_gateway_name = none;
  name = vs.spec.aws_name;
}

module _ (sdk : AwsSdk) {E Selector Spec : Type 0}
    (convert : VirtualServiceSpec
      → (VirtualNodeReference → Result UnexpectedReference String)
      → (VirtualRouterReference → Result UnexpectedReference String)
      → Result E Spec) where
  -- `convert` is the conversion of pkg/conversions, given the conversions of references.
  unfoldable pub build_sdk_virtual_service_spec :
      VirtualService
      → Dict NamespacedName (VirtualNode Selector)
      → Dict NamespacedName VirtualRouter
      → Result E Spec
  build_sdk_virtual_service_spec vs nodes routers =
      convert vs.spec (build_sdk_virtual_node_reference_convert_func sdk vs.metadata nodes)
        (build_sdk_virtual_router_reference_convert_func sdk vs.metadata routers)

module _ (sdk : AwsSdk) (account_id : String) (now : ℕ) {W E Selector Spec : Type 0}
    (client : Client W E Selector) (api : ResourceApi W E Spec) (equal : Spec → Spec → Bool)
    (convert : VirtualServiceSpec
      → (VirtualNodeReference → Result UnexpectedReference String)
      → (VirtualRouterReference → Result UnexpectedReference String)
      → Result E Spec) where
  unfoldable pub find_sdk_virtual_service :
      Mesh Selector → VirtualService → Exec W (Failure E) (Option (ResourceData Spec))
  find_sdk_virtual_service ms vs = find_sdk api (key ms vs)

  unfoldable pub create_sdk_virtual_service :
      Mesh Selector
      → VirtualService
      → Dict NamespacedName (VirtualNode Selector)
      → Dict NamespacedName VirtualRouter
      → Exec W (Failure E) (ResourceData Spec)
  create_sdk_virtual_service ms vs nodes routers =
      create_sdk api (key ms vs) (build_sdk_virtual_service_spec sdk convert vs nodes routers)

  unfoldable pub update_sdk_virtual_service :
      ResourceData Spec
      → VirtualService
      → Dict NamespacedName (VirtualNode Selector)
      → Dict NamespacedName VirtualRouter
      → Exec W (Failure E) (ResourceData Spec)
  update_sdk_virtual_service d vs nodes routers =
      update_sdk api sdk account_id equal
        (record {
          mesh_name = d.key.mesh_name;
          mesh_owner = d.key.mesh_owner;
          virtual_gateway_name = none;
          name = d.key.name;
        })
        (build_sdk_virtual_service_spec sdk convert vs nodes routers) d

  unfoldable pub delete_sdk_virtual_service :
      ResourceData Spec → VirtualService → Exec W (Failure E) (Unit {0})
  delete_sdk_virtual_service d vs =
      delete_sdk api sdk account_id
        (record {
          mesh_name = d.key.mesh_name;
          mesh_owner = d.key.mesh_owner;
          virtual_gateway_name = none;
          name = d.key.name;
        })
        d

  unfoldable pub create_or_update :
      Mesh Selector
      → VirtualService
      → Dict NamespacedName (VirtualNode Selector)
      → Dict NamespacedName VirtualRouter
      → Option (ResourceData Spec)
      → Exec W (Failure E) (ResourceData Spec)
  create_or_update ms vs nodes routers none = create_sdk_virtual_service ms vs nodes routers
  create_or_update ms vs nodes routers (some d) = update_sdk_virtual_service d vs nodes routers

  unfoldable pub reconcile : VirtualService → Exec W (Failure E) (Unit {0})
  reconcile vs = do
    ms ← find_mesh_dependency client vs.spec.mesh_ref
    validate_mesh_dependencies ms
    nodes ← find_virtual_nodes client vs.metadata (provider_node_references vs)
    validate_all ms (validate_virtual_node ms) nodes
    routers ← find_virtual_routers client vs.metadata (provider_router_references vs)
    validate_all ms (validate_virtual_router ms) routers
    o ← find_sdk_virtual_service ms vs
    d ← create_or_update ms vs nodes routers o
    update_crd_virtual_service sdk now client vs d

  unfoldable pub cleanup : VirtualService → Exec W (Failure E) (Unit {0})
  cleanup vs = do
    ms ← find_mesh_dependency client vs.spec.mesh_ref
    λ w.
        if_found vs.status.virtual_service_arn (λ d. delete_sdk_virtual_service d vs)
          (find_sdk_virtual_service ms vs w)
