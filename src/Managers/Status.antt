-- ===== src/Managers/Status.antt =====
-- pkg/*/resource_manager.go, updateCRD…: the status of a custom resource follows the resource in
-- App Mesh, and is patched only if it changed. `now` is the clock at the update.
use aws_app_mesh_controller.Base.{
  ℕ, String, Bool, not, ◌||◌, Option, none, some, List, ◌==◌, if◌then◌else◌, string_eq,
}
use aws_app_mesh_controller.Base.Int.{ℤ, int_eq}
use aws_app_mesh_controller.Base.Exec.{Exec, pure}
use aws_app_mesh_controller.Api.Meta.{Condition}
use aws_app_mesh_controller.Api.Mesh.{Mesh}
use aws_app_mesh_controller.Api.VirtualNode.{VirtualNode}
use aws_app_mesh_controller.Api.VirtualGateway.{VirtualGateway}
use aws_app_mesh_controller.Api.VirtualService.{VirtualService}
use aws_app_mesh_controller.Api.GatewayRoute.{GatewayRoute}
use aws_app_mesh_controller.References.{AwsSdk}
use aws_app_mesh_controller.References.Resolver.{Client, from_client}
use aws_app_mesh_controller.Runtime.{Failure}
use aws_app_mesh_controller.Conditions.{update_conditions, has_changed}
use aws_app_mesh_controller.Managers.{ResourceData}

module _ (sdk : AwsSdk) where
  -- The status of the active condition: "ACTIVE" is the status code of every kind of resource.
  unfoldable pub active_condition_status : Option (Option String) → String
  active_condition_status none = "False"
  active_condition_status (some code) =
      if sdk.string_value code == "ACTIVE" then "True" else "False"

  unfoldable pub arn_differs : Option String → Option String → Bool
  arn_differs old new = not (sdk.string_value old == sdk.string_value new)

  unfoldable pub generation_differs : Option ℤ → ℤ → Bool
  generation_differs observed generation = not (sdk.int64_value observed == generation)

  unfoldable pub next_arn : Option String → Option String → Option String
  next_arn old new = if arn_differs old new then new else old

  unfoldable pub next_generation : Option ℤ → ℤ → Option ℤ
  next_generation observed generation =
      if generation_differs observed generation then some generation else observed

  module _ {Spec : Type 0} (now : ℕ) (type : String) where
    unfoldable pub next_conditions : List Condition → ResourceData Spec → List Condition
    next_conditions cs d =
        update_conditions sdk now type (active_condition_status d.status) none none cs

    unfoldable pub conditions_change : List Condition → ResourceData Spec → Bool
    conditions_change cs d =
        has_changed sdk now type (active_condition_status d.status) none none cs

module _ (sdk : AwsSdk) (now : ℕ) {Spec Selector : Type 0} where
  unfoldable pub mesh_with_status : Mesh Selector → ResourceData Spec → Mesh Selector
  mesh_with_status ms d = record ms {
    status = record {
      mesh_arn = next_arn sdk ms.status.mesh_arn d.arn;
      conditions = next_conditions sdk now "MeshActive" ms.status.conditions d;
      observed_generation =
          next_generation sdk ms.status.observed_generation ms.metadata.generation;
    };
  }

  unfoldable pub mesh_needs_update : Mesh Selector → ResourceData Spec → Bool
  mesh_needs_update ms d =
      arn_differs sdk ms.status.mesh_arn d.arn
      || generation_differs sdk ms.status.observed_generation ms.metadata.generation
      || conditions_change sdk now "MeshActive" ms.status.conditions d

  unfoldable pub virtual_node_with_status :
      VirtualNode Selector → ResourceData Spec → VirtualNode Selector
  virtual_node_with_status vn d = record vn {
    status = record {
      virtual_node_arn = next_arn sdk vn.status.virtual_node_arn d.arn;
      conditions = next_conditions sdk now "VirtualNodeActive" vn.status.conditions d;
      observed_generation =
          next_generation sdk vn.status.observed_generation vn.metadata.generation;
    };
  }

  unfoldable pub virtual_node_needs_update : VirtualNode Selector → ResourceData Spec → Bool
  virtual_node_needs_update vn d =
      arn_differs sdk vn.status.virtual_node_arn d.arn
      || generation_differs sdk vn.status.observed_generation vn.metadata.generation
      || conditions_change sdk now "VirtualNodeActive" vn.status.conditions d

  -- The observed generation of a gateway is left as it is.
  unfoldable pub virtual_gateway_with_status :
      VirtualGateway Selector → ResourceData Spec → VirtualGateway Selector
  virtual_gateway_with_status vg d = record vg {
    status = record {
      virtual_gateway_arn = next_arn sdk vg.status.virtual_gateway_arn d.arn;
      conditions = next_conditions sdk now "VirtualGatewayActive" vg.status.conditions d;
      observed_generation = vg.status.observed_generation;
    };
  }

  unfoldable pub virtual_gateway_needs_update : VirtualGateway Selector → ResourceData Spec → Bool
  virtual_gateway_needs_update vg d =
      arn_differs sdk vg.status.virtual_gateway_arn d.arn
      || conditions_change sdk now "VirtualGatewayActive" vg.status.conditions d

module _ (sdk : AwsSdk) (now : ℕ) {Spec : Type 0} where
  unfoldable pub virtual_service_with_status : VirtualService → ResourceData Spec → VirtualService
  virtual_service_with_status vs d = record vs {
    status = record {
      virtual_service_arn = next_arn sdk vs.status.virtual_service_arn d.arn;
      conditions = next_conditions sdk now "VirtualServiceActive" vs.status.conditions d;
      observed_generation =
          next_generation sdk vs.status.observed_generation vs.metadata.generation;
    };
  }

  unfoldable pub virtual_service_needs_update : VirtualService → ResourceData Spec → Bool
  virtual_service_needs_update vs d =
      arn_differs sdk vs.status.virtual_service_arn d.arn
      || generation_differs sdk vs.status.observed_generation vs.metadata.generation
      || conditions_change sdk now "VirtualServiceActive" vs.status.conditions d

  unfoldable pub gateway_route_with_status : GatewayRoute → ResourceData Spec → GatewayRoute
  gateway_route_with_status gr d = record gr {
    status = record {
      gateway_route_arn = next_arn sdk gr.status.gateway_route_arn d.arn;
      conditions = next_conditions sdk now "GatewayRouteActive" gr.status.conditions d;
      observed_generation =
          next_generation sdk gr.status.observed_generation gr.metadata.generation;
    };
  }

  unfoldable pub gateway_route_needs_update : GatewayRoute → ResourceData Spec → Bool
  gateway_route_needs_update gr d =
      arn_differs sdk gr.status.gateway_route_arn d.arn
      || generation_differs sdk gr.status.observed_generation gr.metadata.generation
      || conditions_change sdk now "GatewayRouteActive" gr.status.conditions d

module _ (sdk : AwsSdk) (now : ℕ) {W E Selector Spec : Type 0} (client : Client W E Selector) where
  unfoldable pub update_crd_mesh : Mesh Selector → ResourceData Spec → Exec W (Failure E) (Unit {0})
  update_crd_mesh ms d =
      if mesh_needs_update sdk now ms d
      then (λ w. from_client (client.patch_mesh_status ms (mesh_with_status sdk now ms d) w))
      else pure tt

  unfoldable pub update_crd_virtual_node :
      VirtualNode Selector → ResourceData Spec → Exec W (Failure E) (Unit {0})
  update_crd_virtual_node vn d =
      if virtual_node_needs_update sdk now vn d
      then (λ w.
          from_client
            (client.patch_virtual_node_status vn (virtual_node_with_status sdk now vn d) w))
      else pure tt

  unfoldable pub update_crd_virtual_gateway :
      VirtualGateway Selector → ResourceData Spec → Exec W (Failure E) (Unit {0})
  update_crd_virtual_gateway vg d =
      if virtual_gateway_needs_update sdk now vg d
      then (λ w.
          from_client
            (client.patch_virtual_gateway_status vg (virtual_gateway_with_status sdk now vg d) w))
      else pure tt

  unfoldable pub update_crd_virtual_service :
      VirtualService → ResourceData Spec → Exec W (Failure E) (Unit {0})
  update_crd_virtual_service vs d =
      if virtual_service_needs_update sdk now vs d
      then (λ w.
          from_client
            (client.patch_virtual_service_status vs (virtual_service_with_status sdk now vs d) w))
      else pure tt

  unfoldable pub update_crd_gateway_route :
      GatewayRoute → ResourceData Spec → Exec W (Failure E) (Unit {0})
  update_crd_gateway_route gr d =
      if gateway_route_needs_update sdk now gr d
      then (λ w.
          from_client
            (client.patch_gateway_route_status gr (gateway_route_with_status sdk now gr d) w))
      else pure tt
