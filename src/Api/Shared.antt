-- ===== src/Api/Shared.antt =====
-- apis/appmesh/v1beta2/types.go: the structs that several resources share.
use aws_app_mesh_controller.Base.{String, Option, List}
use aws_app_mesh_controller.Base.Int.{ℤ}

pub record Duration : Type 0 where
  pub unit : String
  pub value : ℤ

pub record MatchRange : Type 0 where
  pub start : ℤ
  pub end : ℤ

pub record HeaderMatchMethod : Type 0 where
  pub exact : Option String
  pub prefix : Option String
  pub range : Option MatchRange
  pub regex : Option String
  pub suffix : Option String

pub record GrpcRouteMetadataMatchMethod : Type 0 where
  pub exact : Option String
  pub prefix : Option String
  pub range : Option MatchRange
  pub regex : Option String
  pub suffix : Option String

pub record PortMapping : Type 0 where
  pub port : ℤ
  pub protocol : String

pub record VirtualNodeReference : Type 0 where
  pub namespace : Option String
  pub name : String

pub record VirtualServiceReference : Type 0 where
  pub namespace : Option String
  pub name : String

pub record VirtualRouterReference : Type 0 where
  pub namespace : Option String
  pub name : String

pub record MeshReference : Type 0 where
  pub name : String
  pub uid : String

pub record VirtualGatewayReference : Type 0 where
  pub namespace : Option String
  pub name : String
  pub uid : String

pub record HttpPathMatch : Type 0 where
  pub exact : Option String
  pub regex : Option String

pub record QueryMatchMethod : Type 0 where
  pub exact : Option String

pub record HttpQueryParameters : Type 0 where
  pub name : Option String
  pub match : Option QueryMatchMethod

pub record HttpTimeout : Type 0 where
  pub per_request : Option Duration
  pub idle : Option Duration

pub record GrpcTimeout : Type 0 where
  pub per_request : Option Duration
  pub idle : Option Duration

pub record TcpTimeout : Type 0 where
  pub idle : Option Duration

pub record TcpConnectionPool : Type 0 where
  pub max_connections : ℤ

pub record HttpConnectionPool : Type 0 where
  pub max_connections : ℤ
  pub max_pending_requests : Option ℤ

pub record Http2ConnectionPool : Type 0 where
  pub max_requests : ℤ

pub record GrpcConnectionPool : Type 0 where
  pub max_requests : ℤ

pub record SubjectAlternativeNameMatchers : Type 0 where
  pub exact : List (Option String)

pub record SubjectAlternativeNames : Type 0 where
  pub match : Option SubjectAlternativeNameMatchers
