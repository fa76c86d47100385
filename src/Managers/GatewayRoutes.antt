-- ===== src/Managers/GatewayRoutes.antt =====
-- pkg/gatewayroute/resource_manager.go.
use aws_app_mesh_controller.Base.{ℕ, String, Bool, Option, none, some, Result, string_eq}
use aws_app_mesh_controller.Base.Exec.{Exec, ◌>>=◌, ◌>>◌}
use aws_app_mesh_controller.Base.Dict.{Dict}
use aws_app_mesh_controller.Api.Meta.{NamespacedName}
use aws_app_mesh_controller.Api.Equal.{namespaced_name_eq}
use aws_app_mesh_controller.Api.Mesh.{Mesh}
use aws_app_mesh_controller.Api.Shared.{VirtualServiceReference}
use aws_app_mesh_controller.Api.VirtualGateway.{VirtualGateway}
use aws_app_mesh_controller.Api.VirtualService.{VirtualService}
use aws_app_mesh_controller.Api.GatewayRoute.{GatewayRoute, GatewayRouteSpec}
use aws_app_mesh_controller.References.{
  AwsSdk, UnexpectedReference, build_sdk_virtual_service_reference_convert_func,
}
use aws_app_mesh_controller.References.Resolver.{Client}
use aws_app_mesh_controller.Runtime.{Failure}
use aws_app_mesh_controller.Managers.{
  ResourceKey, ResourceData, ResourceApi, find_sdk, create_sdk, update_sdk, delete_sdk, if_found,
  find_mesh_dependency, validate_mesh_dependencies,
}
use aws_app_mesh_controller.Managers.Status.{update_crd_gateway_route}
use aws_app_mesh_controller.Managers.Dependencies.{
  find_virtual_services, find_virtual_gateway_dependency, validate_all, validate_virtual_service,
  validate_virtual_gateway_dependency, route_target_references,
}

unfoldable pub key :
    {Selector : Type 0} → Mesh Selector → VirtualGateway Selector → GatewayRoute → ResourceKey
key ms vg gr = record {
  mesh_name = ms.spec.aws_name;
  mesh_owner = ms.spec.mesh_owner;
  virtual_gateway_name = vg.spec.aws_name;
  name = gr.spec.aws_name;
}

module _ (sdk : AwsSdk) {E Spec : Type 0}
    (convert : GatewayRouteSpec
      → (VirtualServiceReference → Result UnexpectedReference String)
      → Result E Spec) where
  -- `convert` is the conversion of pkg/conversions, given the conversion of references.
  unfoldable pub build_sdk_gateway_route_spec :
      GatewayRoute → Dict NamespacedName VirtualService → Result E Spec
  build_sdk_gateway_route_spec gr by_key =
      convert gr.spec (build_sdk_virtual_service_reference_convert_func sdk gr.metadata by_key)

module _ (sdk : AwsSdk) (account_id : String) (now : ℕ) {W E Selector Spec : Type 0}
    (client : Client W E Selector) (api : ResourceApi W E Spec) (equal : Spec → Spec → Bool)
    (convert : GatewayRouteSpec
      → (VirtualServiceReference → Result UnexpectedReference String)
      → Result E Spec) where
  unfoldable pub find_sdk_gateway_route :
      Mesh Selector
      → VirtualGateway Selector
      → GatewayRoute
      → Exec W (Failure E) (Option (ResourceData Spec))
  find_sdk_gateway_route ms vg gr = find_sdk api (key ms vg gr)

  unfoldable pub create_sdk_gateway_route :
      Mesh Selector
      → VirtualGateway Selector
      → GatewayRoute
      → Dict NamespacedName VirtualService
      → Exec W (Failure E) (ResourceData Spec)
  create_sdk_gateway_route ms vg gr by_key =
      create_sdk api (key ms vg gr) (build_sdk_gateway_route_spec sdk convert gr by_key)

  unfoldable pub update_sdk_gateway_route :
      ResourceData Spec
      → Mesh Selector
      → VirtualGateway Selector
      → GatewayRoute
      → Dict NamespacedName VirtualService
      → Exec W (Failure E) (ResourceData Spec)
  update_sdk_gateway_route d ms vg gr by_key =
      update_sdk api sdk account_id equal
        (record {
          mesh_name = ms.spec.aws_name;
          mesh_owner = ms.spec.mesh_owner;
          virtual_gateway_name = vg.spec.aws_name;
          name = d.key.name;
        })
        (build_sdk_gateway_route_spec sdk convert gr by_key) d

  unfoldable pub delete_sdk_gateway_route :
      ResourceData Spec
      → Mesh Selector
      → VirtualGateway Selector
      → GatewayRoute
      → Exec W (Failure E) (Unit {0})
  delete_sdk_gateway_route d ms vg gr =
      delete_sdk api sdk account_id
        (record {
          mesh_name = ms.spec.aws_name;
          mesh_owner = ms.spec.mesh_owner;
          virtual_gateway_name = vg.spec.aws_name;
          name = d.key.name;
        })
        d

  unfoldable pub create_or_update :
      Mesh Selector
      → VirtualGateway Selector
      → GatewayRoute
      → Dict NamespacedName VirtualService
      → Option (ResourceData Spec)
      → Exec W (Failure E) (ResourceData Spec)
  create_or_update ms vg gr by_key none = create_sdk_gateway_route ms vg gr by_key
  create_or_update ms vg gr by_key (some d) = update_sdk_gateway_route d ms vg gr by_key

  unfoldable pub reconcile : GatewayRoute → Exec W (Failure E) (Unit {0})
  reconcile gr = do
    ms ← find_mesh_dependency client gr.spec.mesh_ref
    validate_mesh_dependencies ms
    vg ← find_virtual_gateway_dependency client gr
    validate_virtual_gateway_dependency ms vg
    by_key ← find_virtual_services client gr.metadata (route_target_references gr)
    validate_all ms (validate_virtual_service ms) by_key
    o ← find_sdk_gateway_route ms vg gr
    d ← create_or_update ms vg gr by_key o
    update_crd_gateway_route sdk now client gr d

  unfoldable pub cleanup : GatewayRoute → Exec W (Failure E) (Unit {0})
  cleanup gr = do
    ms ← find_mesh_dependency client gr.spec.mesh_ref
    vg ← find_virtual_gateway_dependency client gr
    λ w.
        if_found gr.status.gateway_route_arn (λ d. delete_sdk_gateway_route d ms vg gr)
          (find_sdk_gateway_route ms vg gr w)
