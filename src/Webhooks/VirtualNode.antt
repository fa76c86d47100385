-- ===== src/Webhooks/VirtualNode.antt =====
-- webhooks/appmesh/virtualnode_validator.go. A nil slice of listeners is `none`, and a nil
-- dereference is a panic.
pub mod Decides
pub mod Panics
pub mod Backends
mod Tests
use aws_app_mesh_controller.Base.{
  ℕ, String, Bool, true, false, not, ◌&&◌, Option, none, some, List, [], ◌∷◌, ◌++◌, Result, ok, err,
  panic, ◌>>=◌, ◌>>◌, ltb, is_some, if◌then◌else◌, option_eq, string_eq, ◌==◌, ◌<>◌,
}
use aws_app_mesh_controller.Api.Meta.{ObjectMeta}
use aws_app_mesh_controller.Api.Equal.{mesh_reference_eq, service_discovery_eq}
use aws_app_mesh_controller.Api.Shared.{VirtualServiceReference}
use aws_app_mesh_controller.Api.Listener.{Listener, VirtualNodeConnectionPool}
use aws_app_mesh_controller.Api.VirtualNode.{
  VirtualNode, Backend, ServiceDiscovery, AwsCloudMapServiceDiscovery,
}
use aws_app_mesh_controller.References.{object_key_for_virtual_service_reference}
use aws_app_mesh_controller.Webhooks.Checks.{
  Check, Error, multiple_connection_pools, missing_service_discovery, duplicate_reference,
  duplicate_arn, changed, enforce, count_if, if_any, no_repeats,
}

pub pool_count : VirtualNodeConnectionPool → ℕ
pool_count p =
    let a = count_if (is_some p.tcp) 0 in
    let b = count_if (is_some p.http) a in
    let c = count_if (is_some p.http2) b in count_if (is_some p.grpc) c

pub check_listener_multiple_connection_pools : Listener → Check
check_listener_multiple_connection_pools l =
    if_any l.connection_pool
      λ p. if ltb 1 (pool_count p) then err multiple_connection_pools else ok tt

pub check_listeners : List Listener → Check
check_listeners [] = ok tt
check_listeners (l ∷ ls) = do check_listener_multiple_connection_pools l; check_listeners ls

-- The key of a backend in backendMap. A backend with neither reference nor ARN is passed over.
pub backend_identifier : ObjectMeta → Backend → Option String
backend_identifier vn b = elim b.virtual_service.virtual_service_ref [
  | some ref ↦
      let key = object_key_for_virtual_service_reference vn ref in
      some ((key.name <> "-") <> key.namespace)
  | none ↦ b.virtual_service.virtual_service_arn
]

pub duplicate_backend : String → Backend → Error
duplicate_backend vn b = elim b.virtual_service.virtual_service_ref [
  | some ref ↦ duplicate_reference vn ref.name
  | none ↦ elim b.virtual_service.virtual_service_arn [
    | some arn ↦ duplicate_arn vn arn
    | none ↦ duplicate_arn vn ""
  ]
]

-- `oldVN.Spec.ServiceDiscovery != nil && oldVN.Spec.ServiceDiscovery.AWSCloudMap != nil &&
-- !reflect.DeepEqual(vn.Spec.ServiceDiscovery.AWSCloudMap, …)`, and the field's name if it holds.
pub changed_cloud_map :
    Option ServiceDiscovery → Option ServiceDiscovery → Result Error (List String)
changed_cloud_map new none = ok []
changed_cloud_map new (some old) = elim old.aws_cloud_map [
  | none ↦ ok []
  | some c ↦ elim new [
    | none ↦ panic
    | some sd ↦ ok (changed "spec.serviceDiscovery.awsCloudMap" sd.aws_cloud_map (some c))
  ]
]

module _ {Selector : Type 0} where
  pub check_virtual_node_backends_for_duplicates : VirtualNode Selector → Check
  unfolding backend_identifier duplicate_backend
  check_virtual_node_backends_for_duplicates vn =
      no_repeats (backend_identifier vn.metadata) (duplicate_backend vn.metadata.name)
        vn.spec.backends

  pub check_for_required_fields : VirtualNode Selector → Check
  check_for_required_fields vn =
      if is_some vn.spec.listeners && not (is_some vn.spec.service_discovery)
      then err (missing_service_discovery vn.metadata.name)
      else ok tt

  pub check_for_connection_pool_protocols : VirtualNode Selector → Check
  check_for_connection_pool_protocols vn = if_any vn.spec.listeners check_listeners

  pub enforce_fields_immutability : VirtualNode Selector → VirtualNode Selector → Check
  enforce_fields_immutability new old = do
    let name = changed "spec.awsName" new.spec.aws_name old.spec.aws_name
    let mesh = changed "spec.meshRef" new.spec.mesh_ref old.spec.mesh_ref
    cloud_map ← changed_cloud_map new.spec.service_discovery old.spec.service_discovery
    enforce "VirtualNode" (name ++ (mesh ++ cloud_map))

  pub validate_create : VirtualNode Selector → Check
  validate_create vn = do
    check_for_required_fields vn
    check_virtual_node_backends_for_duplicates vn
    check_for_connection_pool_protocols vn

  pub validate_update : VirtualNode Selector → VirtualNode Selector → Check
  validate_update new old = do
    check_for_required_fields new
    enforce_fields_immutability new old
    check_virtual_node_backends_for_duplicates new
    check_for_connection_pool_protocols new
