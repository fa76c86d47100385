-- ===== src/Webhooks/Mesh.antt =====
-- webhooks/appmesh: mesh_validator.go, virtualservice_validator.go and backendgroup_validator.go. A
-- nil dereference is a panic.
pub mod Decides
mod Tests
use aws_app_mesh_controller.Base.{
  String, Bool, true, Option, none, some, List, [], ◌++◌, ok, err, panic, ◌>>=◌, ◌>>◌, ◌||◌, ◌==◌,
  if◌then◌else◌, option_eq, string_eq,
}
use aws_app_mesh_controller.Api.Equal.{mesh_reference_eq}
use aws_app_mesh_controller.Api.Mesh.{Mesh, MeshServiceDiscovery}
use aws_app_mesh_controller.Api.VirtualService.{VirtualService}
use aws_app_mesh_controller.Api.BackendGroup.{BackendGroup}
use aws_app_mesh_controller.Webhooks.Checks.{Check, invalid_ip_preference, changed, enforce}

abbrev pub ip_preference_ipv4 : String
ip_preference_ipv4 = "IPv4_ONLY"

abbrev pub ip_preference_ipv6 : String
ip_preference_ipv6 = "IPv6_ONLY"

pub allowed_ip_preference : String → Check
allowed_ip_preference s =
    if s == ip_preference_ipv4 || s == ip_preference_ipv6 then ok tt else err invalid_ip_preference

module _ {Selector : Type 0} where
  -- Without a preference the mesh passes, whether the controller's family is IPv4 or not.
  pub check_ip_preference : String → Mesh Selector → Check
  unfolding allowed_ip_preference
  check_ip_preference ip_family mesh = elim mesh.spec.service_discovery [
    | none ↦ if ip_family == "ipv4" then ok tt else ok tt
    | some sd ↦ elim sd.ip_preference [ none ↦ panic | some s ↦ allowed_ip_preference s ]
  ]

  pub enforce_fields_immutability : Mesh Selector → Mesh Selector → Check
  enforce_fields_immutability new old =
      enforce "Mesh" (changed "spec.awsName" new.spec.aws_name old.spec.aws_name)

  unfoldable pub validate_create : String → Mesh Selector → Check
  validate_create ip_family mesh = check_ip_preference ip_family mesh

  pub validate_update : String → Mesh Selector → Mesh Selector → Check
  validate_update ip_family new old = do
    enforce_fields_immutability new old
    check_ip_preference ip_family new

pub validate_virtual_service_update : VirtualService → VirtualService → Check
validate_virtual_service_update new old = enforce "VirtualService" (
    changed "spec.awsName" new.spec.aws_name old.spec.aws_name
    ++ changed "spec.meshRef" new.spec.mesh_ref old.spec.mesh_ref)

pub validate_backend_group_update : BackendGroup → BackendGroup → Check
validate_backend_group_update new old =
    enforce "BackendGroup" (changed "spec.meshRef" new.spec.mesh_ref old.spec.mesh_ref)
