-- ===== src/Managers.antt =====
-- pkg/*/resource_manager.go: what the managers of the resources share. Each manager finds the
-- resource in App Mesh, creates it or updates it, and deletes it when the custom resource goes; in
-- every package these steps are the same code on another type. The services.AppMesh client is a
-- parameter. `build` is the result of the package's BuildSDK…Spec.
pub mod Memory
pub mod Laws
pub mod Applied
pub mod Meshes
pub mod Routers
pub mod Gateways
pub mod Nodes
pub mod Services
pub mod GatewayRoutes
pub mod Status
pub mod Dependencies
use aws_app_mesh_controller.Base.{
  String, Bool, Option, none, some, Result, ok, err, panic, ◌==◌, if◌then◌else◌, string_eq, is_some,
}
use aws_app_mesh_controller.Base.Exec.{Exec, pure, throw, ◌>>=◌}
use aws_app_mesh_controller.Api.Mesh.{Mesh}
use aws_app_mesh_controller.Api.Shared.{MeshReference}
use aws_app_mesh_controller.References.{AwsSdk}
use aws_app_mesh_controller.References.Resolver.{Client, from_client, wrap, resolve_mesh_reference}
use aws_app_mesh_controller.Runtime.{
  Failure, caused, message, requeue_error, mesh_ref_is_nil, mesh_is_not_active,
}
use aws_app_mesh_controller.Conditions.{is_active}

-- The names in the input of a call on a resource. A mesh has no further names, and only a gateway
-- route names its gateway.
pub record ResourceKey : Type 0 where
  pub mesh_name : Option String
  pub mesh_owner : Option String
  pub virtual_gateway_name : Option String
  pub name : Option String

-- appmesh.MeshData, appmesh.VirtualNodeData and so on of the SDK. `status` is a pointer to a struct
-- with a pointer to the status code.
pub record ResourceData (Spec : Type 0) : Type 0 where
  pub key : ResourceKey
  pub arn : Option String
  pub resource_owner : Option String
  pub spec : Spec
  pub status : Option (Option String)

-- services.AppMesh: its calls on one kind of resource.
pub record ResourceApi (W E Spec : Type 0) : Type 0 where
  pub describe : ResourceKey → Exec W E (ResourceData Spec)
  pub create : ResourceKey → Spec → Exec W E (ResourceData Spec)
  pub update : ResourceKey → Spec → Exec W E (ResourceData Spec)
  pub delete : ResourceKey → Exec W E (ResourceData Spec)
  -- an awserr.Error with the code NotFoundException
  pub is_not_found : E → Bool

-- A missing resource is a nil resource, and no error.
abbrev pub nil_if_missing :
    {W E A : Type 0} → (E → Bool) → Result E A × W → Result (Failure E) (Option A) × W
nil_if_missing missing (ok a, w) = (ok (some a), w)
nil_if_missing missing (err e, w) = if missing e then (ok none, w) else (err (caused e), w)
nil_if_missing missing (panic, w) = (panic, w)

-- `_, err := …`
abbrev pub discard : {W E A : Type 0} → Result E A × W → Result E (Unit {0}) × W
discard (ok a, w) = (ok tt, w)
discard (err e, w) = (err e, w)
discard (panic, w) = (panic, w)

abbrev pub built : {W E Spec : Type 0} → Result E Spec → Exec W (Failure E) Spec
built (ok s) w = (ok s, w)
built (err e) w = (err (caused e), w)
built panic w = (panic, w)

module _ {W E Spec : Type 0} (api : ResourceApi W E Spec) where
  unfoldable pub find_sdk : ResourceKey → Exec W (Failure E) (Option (ResourceData Spec))
  find_sdk key w = nil_if_missing api.is_not_found (api.describe key w)

  unfoldable pub create_sdk : ResourceKey → Result E Spec → Exec W (Failure E) (ResourceData Spec)
  create_sdk key build = do spec ← built build; λ w. from_client (api.create key spec w)

  module _ (sdk : AwsSdk) (account_id : String) where
    unfoldable pub is_controlled : ResourceData Spec → Bool
    is_controlled d = sdk.string_value d.resource_owner == account_id

    -- A resource is owned exactly if it is controlled, until there are tags.
    unfoldable pub is_owned : ResourceData Spec → Bool
    is_owned d = is_controlled d

    -- `key` is the name of the resource in the input of the update.
    unfoldable pub update_sdk :
        (equal : Spec → Spec → Bool)
        → ResourceKey
        → Result E Spec
        → ResourceData Spec
        → Exec W (Failure E) (ResourceData Spec)
    update_sdk equal key build d = do
      desired ← built build
      if equal desired d.spec
          then pure d
          else if is_controlled d
          then (λ w. from_client (api.update key desired w))
          else pure d

    unfoldable pub delete_sdk : ResourceKey → ResourceData Spec → Exec W (Failure E) (Unit {0})
    delete_sdk key d =
        if is_owned d then (λ w. from_client (discard (api.delete key w))) else pure tt

-- A cleanup goes on with the resource that was found. An error of the search counts only if the
-- custom resource has an ARN.
abbrev pub if_found :
    {W E A : Type 0}
    → Option String
    → (A → Exec W (Failure E) (Unit {0}))
    → Result (Failure E) (Option A) × W
    → Result (Failure E) (Unit {0}) × W
if_found arn next (ok (some d), w) = next d w
if_found arn next (ok none, w) = (ok tt, w)
if_found arn next (err e, w) = if is_some arn then (err e, w) else (ok tt, w)
if_found arn next (panic, w) = (panic, w)

module _ {W E Selector : Type 0} (client : Client W E Selector) where
  unfoldable pub find_mesh_dependency : Option MeshReference → Exec W (Failure E) (Mesh Selector)
  find_mesh_dependency none = throw (message mesh_ref_is_nil)
  find_mesh_dependency (some ref) = λ w. wrap (resolve_mesh_reference client ref w)

unfoldable pub validate_mesh_dependencies :
    {W E Selector : Type 0} → Mesh Selector → Exec W (Failure E) (Unit {0})
validate_mesh_dependencies ms =
    if is_active "MeshActive" ms.status.conditions
    then pure tt
    else throw (requeue_error (message mesh_is_not_active))
