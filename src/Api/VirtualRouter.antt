-- ===== src/Api/VirtualRouter.antt =====
-- apis/appmesh/v1beta2/virtualrouter_types.go.
-- `route_arns` is an option: cmp.Equal tells a nil map from an empty one.
use aws_app_mesh_controller.Base.{String, Bool, Option, List}
use aws_app_mesh_controller.Base.Dict.{Dict}
use aws_app_mesh_controller.Base.Int.{ℤ}
use aws_app_mesh_controller.Api.Meta.{ObjectMeta, Condition}
use aws_app_mesh_controller.Api.Shared.{
  Duration, HeaderMatchMethod, GrpcRouteMetadataMatchMethod, PortMapping, VirtualNodeReference,
  MeshReference, HttpPathMatch, HttpQueryParameters, HttpTimeout, GrpcTimeout, TcpTimeout,
}

pub record VirtualRouterListener : Type 0 where
  pub port_mapping : PortMapping

pub record WeightedTarget : Type 0 where
  pub virtual_node_ref : Option VirtualNodeReference
  pub virtual_node_arn : Option String
  pub weight : ℤ
  pub port : Option ℤ

pub record HttpRouteHeader : Type 0 where
  pub name : String
  pub match : Option HeaderMatchMethod
  pub invert : Option Bool

pub record HttpRouteMatch : Type 0 where
  pub headers : List HttpRouteHeader
  pub method : Option String
  pub prefix : Option String
  pub scheme : Option String
  pub path : Option HttpPathMatch
  pub query_parameters : List HttpQueryParameters
  pub port : Option ℤ

pub record HttpRouteAction : Type 0 where
  pub weighted_targets : List WeightedTarget

pub record HttpRetryPolicy : Type 0 where
  pub http_retry_events : List String
  pub tcp_retry_events : List String
  pub max_retries : ℤ
  pub per_retry_timeout : Duration

pub record HttpRoute : Type 0 where
  pub match : HttpRouteMatch
  pub action : HttpRouteAction
  pub retry_policy : Option HttpRetryPolicy
  pub timeout : Option HttpTimeout

pub record TcpRouteAction : Type 0 where
  pub weighted_targets : List WeightedTarget

pub record TcpRouteMatch : Type 0 where
  pub port : Option ℤ

pub record TcpRoute : Type 0 where
  pub match : Option TcpRouteMatch
  pub action : TcpRouteAction
  pub timeout : Option TcpTimeout

pub record GrpcRouteMetadata : Type 0 where
  pub name : String
  pub match : Option GrpcRouteMetadataMatchMethod
  pub invert : Option Bool

pub record GrpcRouteMatch : Type 0 where
  pub method_name : Option String
  pub service_name : Option String
  pub metadata : List GrpcRouteMetadata
  pub port : Option ℤ

pub record GrpcRouteAction : Type 0 where
  pub weighted_targets : List WeightedTarget

pub record GrpcRetryPolicy : Type 0 where
  pub grpc_retry_events : List String
  pub http_retry_events : List String
  pub tcp_retry_events : List String
  pub max_retries : ℤ
  pub per_retry_timeout : Duration

pub record GrpcRoute : Type 0 where
  pub match : GrpcRouteMatch
  pub action : GrpcRouteAction
  pub retry_policy : Option GrpcRetryPolicy
  pub timeout : Option GrpcTimeout

pub record Route : Type 0 where
  pub name : String
  pub grpc_route : Option GrpcRoute
  pub http_route : Option HttpRoute
  pub http2_route : Option HttpRoute
  pub tcp_route : Option TcpRoute
  pub priority : Option ℤ

pub record VirtualRouterSpec : Type 0 where
  pub aws_name : Option String
  pub listeners : List VirtualRouterListener
  pub routes : List Route
  pub mesh_ref : Option MeshReference

pub record VirtualRouterStatus : Type 0 where
  pub virtual_router_arn : Option String
  pub route_arns : Option (Dict String String)
  pub conditions : List Condition
  pub observed_generation : Option ℤ

pub record VirtualRouter : Type 0 where
  pub metadata : ObjectMeta
  pub spec : VirtualRouterSpec
  pub status : VirtualRouterStatus
