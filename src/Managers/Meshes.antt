-- ===== src/Managers/Meshes.antt =====
-- pkg/mesh/resource_manager.go.
use aws_app_mesh_controller.Base.{ℕ, String, Bool, Option, none, some, Result, string_eq}
use aws_app_mesh_controller.Base.Exec.{Exec, ◌>>=◌}
use aws_app_mesh_controller.Api.Equal.{namespaced_name_eq}
use aws_app_mesh_controller.Api.Mesh.{Mesh, MeshSpec}
use aws_app_mesh_controller.References.{AwsSdk}
use aws_app_mesh_controller.References.Resolver.{Client}
use aws_app_mesh_controller.Runtime.{Failure}
use aws_app_mesh_controller.Managers.{
  ResourceKey, ResourceData, ResourceApi, find_sdk, create_sdk, update_sdk, delete_sdk, if_found,
}
use aws_app_mesh_controller.Managers.Status.{update_crd_mesh}

unfoldable pub key : {Selector : Type 0} → Mesh Selector → ResourceKey
key ms = record {
  mesh_name = ms.spec.aws_name;
  mesh_owner = ms.spec.mesh_owner;
  virtual_gateway_name = none;
  name = none;
}

module _ {E Selector Spec : Type 0} (convert : MeshSpec Selector → Result E Spec) where
  -- `convert` is the conversion of pkg/conversions.
  unfoldable pub build_sdk_mesh_spec : Mesh Selector → Result E Spec
  build_sdk_mesh_spec ms = convert ms.spec

module _ (sdk : AwsSdk) (account_id : String) (now : ℕ) {W E Selector Spec : Type 0}
    (client : Client W E Selector) (api : ResourceApi W E Spec) (equal : Spec → Spec → Bool)
    (convert : MeshSpec Selector → Result E Spec) where
  unfoldable pub find_sdk_mesh : Mesh Selector → Exec W (Failure E) (Option (ResourceData Spec))
  find_sdk_mesh ms = find_sdk api (key ms)

  unfoldable pub create_sdk_mesh : Mesh Selector → Exec W (Failure E) (ResourceData Spec)
  create_sdk_mesh ms =
      create_sdk api (record (key ms) { mesh_owner = none }) (build_sdk_mesh_spec convert ms)

  unfoldable pub update_sdk_mesh :
      ResourceData Spec → Mesh Selector → Exec W (Failure E) (ResourceData Spec)
  update_sdk_mesh d ms =
      update_sdk api sdk account_id equal
        (record {
          mesh_name = d.key.mesh_name;
          mesh_owner = none;
          virtual_gateway_name = none;
          name = none;
        })
        (build_sdk_mesh_spec convert ms) d

  unfoldable pub delete_sdk_mesh : ResourceData Spec → Mesh Selector → Exec W (Failure E) (Unit {0})
  delete_sdk_mesh d ms =
      delete_sdk api sdk account_id
        (record {
          mesh_name = d.key.mesh_name;
          mesh_owner = none;
          virtual_gateway_name = none;
          name = none;
        })
        d

  unfoldable pub create_or_update :
      Mesh Selector → Option (ResourceData Spec) → Exec W (Failure E) (ResourceData Spec)
  create_or_update ms none = create_sdk_mesh ms
  create_or_update ms (some d) = update_sdk_mesh d ms

  unfoldable pub reconcile : Mesh Selector → Exec W (Failure E) (Unit {0})
  reconcile ms = do
    o ← find_sdk_mesh ms
    d ← create_or_update ms o
    update_crd_mesh sdk now client ms d

  unfoldable pub cleanup : Mesh Selector → Exec W (Failure E) (Unit {0})
  cleanup ms = λ w. if_found ms.status.mesh_arn (λ d. delete_sdk_mesh d ms) (find_sdk_mesh ms w)
