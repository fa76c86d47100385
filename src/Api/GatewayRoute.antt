-- ===== src/Api/GatewayRoute.antt =====
-- apis/appmesh/v1beta2/gatewayroute_types.go.
use aws_app_mesh_controller.Base.{String, Bool, Option, List}
use aws_app_mesh_controller.Base.Int.{ℤ}
use aws_app_mesh_controller.Api.Meta.{ObjectMeta, Condition}
use aws_app_mesh_controller.Api.Shared.{
  HeaderMatchMethod, GrpcRouteMetadataMatchMethod, VirtualServiceReference, MeshReference,
  VirtualGatewayReference, HttpPathMatch, HttpQueryParameters,
}

pub record GatewayRouteVirtualService : Type 0 where
  pub virtual_service_ref : Option VirtualServiceReference
  pub virtual_service_arn : Option String

pub record GatewayRouteTarget : Type 0 where
  pub virtual_service : GatewayRouteVirtualService
  pub port : Option ℤ

pub record GatewayRouteHostnameMatch : Type 0 where
  pub exact : Option String
  pub suffix : Option String

pub record GrpcGatewayRouteMetadata : Type 0 where
  pub name : Option String
  pub match : Option GrpcRouteMetadataMatchMethod
  pub invert : Option Bool

pub record GrpcGatewayRouteMatch : Type 0 where
  pub service_name : Option String
  pub hostname : Option GatewayRouteHostnameMatch
  pub metadata : List GrpcGatewayRouteMetadata
  pub port : Option ℤ

pub record GatewayRouteHostnameRewrite : Type 0 where
  pub default_target_hostname : Option String

pub record GrpcGatewayRouteRewrite : Type 0 where
  pub hostname : Option GatewayRouteHostnameRewrite

pub record GrpcGatewayRouteAction : Type 0 where
  pub target : GatewayRouteTarget
  pub rewrite : Option GrpcGatewayRouteRewrite

pub record GrpcGatewayRoute : Type 0 where
  pub match : GrpcGatewayRouteMatch
  pub action : GrpcGatewayRouteAction

pub record HttpGatewayRouteHeader : Type 0 where
  pub name : String
  pub match : Option HeaderMatchMethod
  pub invert : Option Bool

pub record HttpGatewayRouteMatch : Type 0 where
  pub prefix : Option String
  pub path : Option HttpPathMatch
  pub query_parameters : List HttpQueryParameters
  pub method : Option String
  pub hostname : Option GatewayRouteHostnameMatch
  pub headers : List HttpGatewayRouteHeader
  pub port : Option ℤ

pub record GatewayRoutePrefixRewrite : Type 0 where
  pub default_prefix : Option String
  pub value : Option String

pub record GatewayRoutePathRewrite : Type 0 where
  pub exact : Option String

pub record HttpGatewayRouteRewrite : Type 0 where
  pub prefix : Option GatewayRoutePrefixRewrite
  pub path : Option GatewayRoutePathRewrite
  pub hostname : Option GatewayRouteHostnameRewrite

pub record HttpGatewayRouteAction : Type 0 where
  pub target : GatewayRouteTarget
  pub rewrite : Option HttpGatewayRouteRewrite

pub record HttpGatewayRoute : Type 0 where
  pub match : HttpGatewayRouteMatch
  pub action : HttpGatewayRouteAction

pub record GatewayRouteSpec : Type 0 where
  pub aws_name : Option String
  pub priority : Option ℤ
  pub grpc_route : Option GrpcGatewayRoute
  pub http_route : Option HttpGatewayRoute
  pub http2_route : Option HttpGatewayRoute
  pub virtual_gateway_ref : Option VirtualGatewayReference
  pub mesh_ref : Option MeshReference

pub record GatewayRouteStatus : Type 0 where
  pub gateway_route_arn : Option String
  pub conditions : List Condition
  pub observed_generation : Option ℤ

pub record GatewayRoute : Type 0 where
  pub metadata : ObjectMeta
  pub spec : GatewayRouteSpec
  pub status : GatewayRouteStatus
