-- ===== src/Api/BackendGroup.antt =====
-- apis/appmesh/v1beta2/backendgroup_types.go.
use aws_app_mesh_controller.Base.{String, Option, List}
use aws_app_mesh_controller.Api.Meta.{ObjectMeta}
use aws_app_mesh_controller.Api.Shared.{VirtualServiceReference, MeshReference}

pub record BackendGroupReference : Type 0 where
  pub namespace : Option String
  pub name : String

pub record BackendGroupSpec : Type 0 where
  pub virtual_services : List VirtualServiceReference
  pub mesh_ref : Option MeshReference

pub record BackendGroupStatus : Type 0 where

pub record BackendGroup : Type 0 where
  pub metadata : ObjectMeta
  pub spec : BackendGroupSpec
  pub status : BackendGroupStatus
