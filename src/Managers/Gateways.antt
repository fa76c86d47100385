-- ===== src/Managers/Gateways.antt =====
-- pkg/virtualgateway/resource_manager.go.
use aws_app_mesh_controller.Base.{ℕ, String, Bool, Option, none, some, Result, string_eq}
use aws_app_mesh_controller.Base.Exec.{Exec, ◌>>=◌, ◌>>◌}
use aws_app_mesh_controller.Api.Equal.{namespaced_name_eq}
use aws_app_mesh_controller.Api.Mesh.{Mesh}
use aws_app_mesh_controller.Api.VirtualGateway.{VirtualGateway, VirtualGatewaySpec}
use aws_app_mesh_controller.References.{AwsSdk}
use aws_app_mesh_controller.References.Resolver.{Client}
use aws_app_mesh_controller.Runtime.{Failure}
use aws_app_mesh_controller.Managers.{
  ResourceKey, ResourceData, ResourceApi, find_sdk, create_sdk, update_sdk, delete_sdk, if_found,
  find_mesh_dependency, validate_mesh_dependencies,
}
use aws_app_mesh_controller.Managers.Status.{update_crd_virtual_gateway}

unfoldable pub key : {Selector : Type 0} → Mesh Selector → VirtualGateway Selector → ResourceKey
key ms vg = record {
  mesh_name = ms.spec.aws_name;
  mesh_owner = ms.spec.mesh_owner;
  virtual_gateway_name = none;
  name = vg.spec.aws_name;
}

module _ {E Selector Spec : Type 0} (convert : VirtualGatewaySpec Selector → Result E Spec) where
  -- `convert` is the conversion of pkg/conversions.
  unfoldable pub build_sdk_virtual_gateway_spec : VirtualGateway Selector → Result E Spec
  build_sdk_virtual_gateway_spec vg = convert vg.spec

module _ (sdk : AwsSdk) (account_id : String) (now : ℕ) {W E Selector Spec : Type 0}
    (client : Client W E Selector) (api : ResourceApi W E Spec) (equal : Spec → Spec → Bool)
    (convert : VirtualGatewaySpec Selector → Result E Spec) where
  unfoldable pub find_sdk_virtual_gateway :
      Mesh Selector → VirtualGateway Selector → Exec W (Failure E) (Option (ResourceData Spec))
  find_sdk_virtual_gateway ms vg = find_sdk api (key ms vg)

  unfoldable pub create_sdk_virtual_gateway :
      Mesh Selector → VirtualGateway Selector → Exec W (Failure E) (ResourceData Spec)
  create_sdk_virtual_gateway ms vg =
      create_sdk api (key ms vg) (build_sdk_virtual_gateway_spec convert vg)

  unfoldable pub update_sdk_virtual_gateway :
      ResourceData Spec
      → Mesh Selector
      → VirtualGateway Selector
      → Exec W (Failure E) (ResourceData Spec)
  update_sdk_virtual_gateway d ms vg =
      update_sdk api sdk account_id equal
        (record {
          mesh_name = ms.spec.aws_name;
          mesh_owner = ms.spec.mesh_owner;
          virtual_gateway_name = none;
          name = d.key.name;
        })
        (build_sdk_virtual_gateway_spec convert vg) d

  unfoldable pub delete_sdk_virtual_gateway :
      ResourceData Spec → Mesh Selector → VirtualGateway Selector → Exec W (Failure E) (Unit {0})
  delete_sdk_virtual_gateway d ms vg =
      delete_sdk api sdk account_id
        (record {
          mesh_name = ms.spec.aws_name;
          mesh_owner = ms.spec.mesh_owner;
          virtual_gateway_name = none;
          name = d.key.name;
        })
        d

  unfoldable pub create_or_update :
      Mesh Selector
      → VirtualGateway Selector
      → Option (ResourceData Spec)
      → Exec W (Failure E) (ResourceData Spec)
  create_or_update ms vg none = create_sdk_virtual_gateway ms vg
  create_or_update ms vg (some d) = update_sdk_virtual_gateway d ms vg

  unfoldable pub reconcile : VirtualGateway Selector → Exec W (Failure E) (Unit {0})
  reconcile vg = do
    ms ← find_mesh_dependency client vg.spec.mesh_ref
    validate_mesh_dependencies ms
    o ← find_sdk_virtual_gateway ms vg
    d ← create_or_update ms vg o
    update_crd_virtual_gateway sdk now client vg d

  unfoldable pub cleanup : VirtualGateway Selector → Exec W (Failure E) (Unit {0})
  cleanup vg = do
    ms ← find_mesh_dependency client vg.spec.mesh_ref
    λ w.
        if_found vg.status.virtual_gateway_arn (λ d. delete_sdk_virtual_gateway d ms vg)
          (find_sdk_virtual_gateway ms vg w)
