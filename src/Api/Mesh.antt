-- ===== src/Api/Mesh.antt =====
-- apis/appmesh/v1beta2/mesh_types.go.
-- `Selector` is metav1.LabelSelector.
use aws_app_mesh_controller.Base.{String, Option, List}
use aws_app_mesh_controller.Base.Int.{ℤ}
use aws_app_mesh_controller.Api.Meta.{ObjectMeta, Condition}

pub record EgressFilter : Type 0 where
  pub type : String

pub record MeshServiceDiscovery : Type 0 where
  pub ip_preference : Option String

pub record MeshSpec (Selector : Type 0) : Type 0 where
  pub aws_name : Option String
  pub namespace_selector : Option Selector
  pub egress_filter : Option EgressFilter
  pub mesh_owner : Option String
  pub service_discovery : Option MeshServiceDiscovery

pub record MeshStatus : Type 0 where
  pub mesh_arn : Option String
  pub conditions : List Condition
  pub observed_generation : Option ℤ

pub record Mesh (Selector : Type 0) : Type 0 where
  pub metadata : ObjectMeta
  pub spec : MeshSpec Selector
  pub status : MeshStatus
