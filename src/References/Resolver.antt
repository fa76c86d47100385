-- ===== src/References/Resolver.antt =====
-- pkg/references/resolver.go: the object that a reference names, read from the cluster.
use aws_app_mesh_controller.Base.{
  String, Result, ok, err, panic, ◌==◌, if◌then◌else◌, string_eq, List,
}
use aws_app_mesh_controller.Base.Exec.{Exec, pure, throw, ◌>>=◌}
use aws_app_mesh_controller.Api.Meta.{ObjectMeta, NamespacedName}
use aws_app_mesh_controller.Api.Shared.{
  MeshReference, VirtualGatewayReference, VirtualNodeReference, VirtualServiceReference,
  VirtualRouterReference,
}
use aws_app_mesh_controller.Api.Mesh.{Mesh}
use aws_app_mesh_controller.Api.BackendGroup.{BackendGroupReference, BackendGroup}
use aws_app_mesh_controller.Api.VirtualNode.{VirtualNode}
use aws_app_mesh_controller.Api.VirtualGateway.{VirtualGateway}
use aws_app_mesh_controller.Api.VirtualService.{VirtualService}
use aws_app_mesh_controller.Api.VirtualRouter.{VirtualRouter}
use aws_app_mesh_controller.Api.GatewayRoute.{GatewayRoute}
use aws_app_mesh_controller.Runtime.{Failure, caused, message, wrapped, uid_mismatch}
use aws_app_mesh_controller.References.{
  object_key_for_virtual_gateway_reference, object_key_for_virtual_node_reference,
  object_key_for_virtual_service_reference, object_key_for_virtual_router_reference,
  object_key_for_backend_group_reference,
}

-- client.Client of the controller runtime: its calls on the resources. A patch is given the object
-- before and after the change of its status.
pub record Client (W E Selector : Type 0) : Type 0 where
  pub get_mesh : NamespacedName → Exec W E (Mesh Selector)
  pub get_virtual_gateway : NamespacedName → Exec W E (VirtualGateway Selector)
  pub get_virtual_node : NamespacedName → Exec W E (VirtualNode Selector)
  pub get_virtual_service : NamespacedName → Exec W E VirtualService
  pub get_virtual_router : NamespacedName → Exec W E VirtualRouter
  pub get_backend_group : NamespacedName → Exec W E BackendGroup
  pub list_virtual_services : String → Exec W E (List VirtualService)
  pub patch_mesh_status : Mesh Selector → Mesh Selector → Exec W E (Unit {0})
  pub patch_virtual_gateway_status :
      VirtualGateway Selector → VirtualGateway Selector → Exec W E (Unit {0})
  pub patch_virtual_node_status : VirtualNode Selector → VirtualNode Selector → Exec W E (Unit {0})
  pub patch_virtual_service_status : VirtualService → VirtualService → Exec W E (Unit {0})
  pub patch_virtual_router_status : VirtualRouter → VirtualRouter → Exec W E (Unit {0})
  pub patch_gateway_route_status : GatewayRoute → GatewayRoute → Exec W E (Unit {0})

-- `return err`, where the error of the client is the caller's.
abbrev pub from_client : {W E A : Type 0} → Result E A × W → Result (Failure E) A × W
from_client (ok a, w) = (ok a, w)
from_client (err e, w) = (err (caused e), w)
from_client (panic, w) = (panic, w)

-- `return nil, errors.Wrapf(err, …)`
abbrev pub wrap : {W E A : Type 0} → Result (Failure E) A × W → Result (Failure E) A × W
wrap (ok a, w) = (ok a, w)
wrap (err e, w) = (err (wrapped e), w)
wrap (panic, w) = (panic, w)

module _ {W E Selector : Type 0} (client : Client W E Selector) where
  unfoldable pub resolve_mesh_reference : MeshReference → Exec W (Failure E) (Mesh Selector)
  resolve_mesh_reference ref = do
    mesh ← λ w. wrap (from_client (client.get_mesh (record { namespace = ""; name = ref.name }) w))
    if mesh.metadata.uid == ref.uid then pure mesh else throw (message (uid_mismatch ref.name))

  unfoldable pub resolve_virtual_gateway_reference :
      ObjectMeta → VirtualGatewayReference → Exec W (Failure E) (VirtualGateway Selector)
  resolve_virtual_gateway_reference obj ref = do
    vg ← λ w. wrap (
        from_client
          (client.get_virtual_gateway (object_key_for_virtual_gateway_reference obj ref) w))
    if vg.metadata.uid == ref.uid then pure vg else throw (message (uid_mismatch ref.name))

  unfoldable pub resolve_virtual_node_reference :
      ObjectMeta → VirtualNodeReference → Exec W (Failure E) (VirtualNode Selector)
  resolve_virtual_node_reference obj ref = λ w.
      wrap (from_client (client.get_virtual_node (object_key_for_virtual_node_reference obj ref) w))

  unfoldable pub resolve_virtual_service_reference :
      ObjectMeta → VirtualServiceReference → Exec W (Failure E) VirtualService
  resolve_virtual_service_reference obj ref = λ w. wrap (
      from_client (client.get_virtual_service (object_key_for_virtual_service_reference obj ref) w))

  unfoldable pub resolve_virtual_router_reference :
      ObjectMeta → VirtualRouterReference → Exec W (Failure E) VirtualRouter
  resolve_virtual_router_reference obj ref = λ w.
      wrap (
        from_client (client.get_virtual_router (object_key_for_virtual_router_reference obj ref) w))

  unfoldable pub resolve_backend_group_reference :
      ObjectMeta → BackendGroupReference → Exec W (Failure E) BackendGroup
  resolve_backend_group_reference obj ref = λ w.
      wrap
        (from_client (client.get_backend_group (object_key_for_backend_group_reference obj ref) w))
