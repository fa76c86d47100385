-- ===== src/Api/VirtualNode.antt =====
-- apis/appmesh/v1beta2/virtualnode_types.go: backends, service discovery, the resource.
-- `Selector` is metav1.LabelSelector. `listeners` and `attributes` are options: the program tells a nil
-- slice apart, by a test or by reflect.DeepEqual.
use aws_app_mesh_controller.Base.{String, Option, List}
use aws_app_mesh_controller.Base.Int.{ℤ}
use aws_app_mesh_controller.Api.Meta.{ObjectMeta, Condition}
use aws_app_mesh_controller.Api.Shared.{VirtualServiceReference, MeshReference}
use aws_app_mesh_controller.Api.Tls.{ClientPolicy}
use aws_app_mesh_controller.Api.Listener.{Listener}
use aws_app_mesh_controller.Api.BackendGroup.{BackendGroupReference}

pub record VirtualServiceBackend : Type 0 where
  pub virtual_service_ref : Option VirtualServiceReference
  pub virtual_service_arn : Option String
  pub client_policy : Option ClientPolicy

pub record Backend : Type 0 where
  pub virtual_service : VirtualServiceBackend

pub record BackendDefaults : Type 0 where
  pub client_policy : Option ClientPolicy

pub record AwsCloudMapInstanceAttribute : Type 0 where
  pub key : String
  pub value : String

pub record AwsCloudMapServiceDiscovery : Type 0 where
  pub namespace_name : String
  pub service_name : String
  pub attributes : Option (List AwsCloudMapInstanceAttribute)

pub record DnsServiceDiscovery : Type 0 where
  pub hostname : String
  pub response_type : Option String

pub record ServiceDiscovery : Type 0 where
  pub aws_cloud_map : Option AwsCloudMapServiceDiscovery
  pub dns : Option DnsServiceDiscovery

pub record JsonFormatRef : Type 0 where
  pub key : String
  pub value : String

pub record LoggingFormat : Type 0 where
  pub json : List (Option JsonFormatRef)
  pub text : Option String

pub record FileAccessLog : Type 0 where
  pub path : String
  pub format : Option LoggingFormat

pub record AccessLog : Type 0 where
  pub file : Option FileAccessLog

pub record Logging : Type 0 where
  pub access_log : Option AccessLog

pub record VirtualNodeSpec (Selector : Type 0) : Type 0 where
  pub aws_name : Option String
  pub pod_selector : Option Selector
  pub listeners : Option (List Listener)
  pub service_discovery : Option ServiceDiscovery
  pub backends : List Backend
  pub backend_groups : List BackendGroupReference
  pub backend_defaults : Option BackendDefaults
  pub logging : Option Logging
  pub mesh_ref : Option MeshReference

pub record VirtualNodeStatus : Type 0 where
  pub virtual_node_arn : Option String
  pub conditions : List Condition
  pub observed_generation : Option ℤ

pub record VirtualNode (Selector : Type 0) : Type 0 where
  pub metadata : ObjectMeta
  pub spec : VirtualNodeSpec Selector
  pub status : VirtualNodeStatus
