-- ===== src/Api/VirtualService.antt =====
-- apis/appmesh/v1beta2/virtualservice_types.go.
use aws_app_mesh_controller.Base.{String, Option, List}
use aws_app_mesh_controller.Base.Int.{ℤ}
use aws_app_mesh_controller.Api.Meta.{ObjectMeta, Condition}
use aws_app_mesh_controller.Api.Shared.{VirtualNodeReference, VirtualRouterReference, MeshReference}

pub record VirtualNodeServiceProvider : Type 0 where
  pub virtual_node_ref : Option VirtualNodeReference
  pub virtual_node_arn : Option String

pub record VirtualRouterServiceProvider : Type 0 where
  pub virtual_router_ref : Option VirtualRouterReference
  pub virtual_router_arn : Option String

pub record VirtualServiceProvider : Type 0 where
  pub virtual_node : Option VirtualNodeServiceProvider
  pub virtual_router : Option VirtualRouterServiceProvider

pub record VirtualServiceSpec : Type 0 where
  pub aws_name : Option String
  pub provider : Option VirtualServiceProvider
  pub mesh_ref : Option MeshReference

pub record VirtualServiceStatus : Type 0 where
  pub virtual_service_arn : Option String
  pub conditions : List Condition
  pub observed_generation : Option ℤ

pub record VirtualService : Type 0 where
  pub metadata : ObjectMeta
  pub spec : VirtualServiceSpec
  pub status : VirtualServiceStatus
