-- ===== src/Webhooks/VirtualGateway.antt =====
-- webhooks/appmesh/virtualgateway_validator.go. A nil slice of listeners is `none`.
pub mod Decides
mod Tests
use aws_app_mesh_controller.Base.{
  ℕ, Option, none, some, List, [], ◌∷◌, ◌++◌, ok, err, ◌>>=◌, ◌>>◌, ltb, is_some, if◌then◌else◌,
  option_eq, string_eq,
}
use aws_app_mesh_controller.Api.Equal.{mesh_reference_eq}
use aws_app_mesh_controller.Api.VirtualGateway.{
  VirtualGateway, VirtualGatewayListener, VirtualGatewayConnectionPool,
}
use aws_app_mesh_controller.Webhooks.Checks.{
  Check, multiple_connection_pools, changed, enforce, count_if, if_any,
}

pub pool_count : VirtualGatewayConnectionPool → ℕ
pool_count p =
    let a = count_if (is_some p.http) 0 in
    let b = count_if (is_some p.http2) a in count_if (is_some p.grpc) b

pub check_listener_multiple_connection_pools : VirtualGatewayListener → Check
check_listener_multiple_connection_pools l =
    if_any l.connection_pool
      λ p. if ltb 1 (pool_count p) then err multiple_connection_pools else ok tt

pub check_listeners : List VirtualGatewayListener → Check
check_listeners [] = ok tt
check_listeners (l ∷ ls) = do check_listener_multiple_connection_pools l; check_listeners ls

module _ {Selector : Type 0} where
  pub check_for_connection_pool_protocols : VirtualGateway Selector → Check
  check_for_connection_pool_protocols vg = if_any vg.spec.listeners check_listeners

  pub enforce_fields_immutability : VirtualGateway Selector → VirtualGateway Selector → Check
  enforce_fields_immutability new old = enforce "VirtualGateway" (
      changed "spec.awsName" new.spec.aws_name old.spec.aws_name
      ++ changed "spec.meshRef" new.spec.mesh_ref old.spec.mesh_ref)

  pub validate_create : VirtualGateway Selector → Check
  validate_create vg = check_for_connection_pool_protocols vg

  pub validate_update : VirtualGateway Selector → VirtualGateway Selector → Check
  validate_update new old = do
    enforce_fields_immutability new old
    check_for_connection_pool_protocols new
