-- ===== src/Api/Listener.antt =====
-- apis/appmesh/v1beta2/virtualnode_types.go: listeners.
use aws_app_mesh_controller.Base.{String, Option}
use aws_app_mesh_controller.Base.Int.{ℤ}
use aws_app_mesh_controller.Api.Shared.{
  Duration, PortMapping, HttpTimeout, GrpcTimeout, TcpTimeout, TcpConnectionPool,
  HttpConnectionPool, Http2ConnectionPool, GrpcConnectionPool,
}
use aws_app_mesh_controller.Api.Tls.{ListenerTls}

pub record HealthCheckPolicy : Type 0 where
  pub healthy_threshold : ℤ
  pub interval_millis : ℤ
  pub path : Option String
  pub port : Option ℤ
  pub protocol : String
  pub timeout_millis : ℤ
  pub unhealthy_threshold : ℤ

pub record OutlierDetection : Type 0 where
  pub max_server_errors : ℤ
  pub interval : Duration
  pub base_ejection_duration : Duration
  pub max_ejection_percent : ℤ

pub record ListenerTimeout : Type 0 where
  pub tcp : Option TcpTimeout
  pub http : Option HttpTimeout
  pub http2 : Option HttpTimeout
  pub grpc : Option GrpcTimeout

pub record VirtualNodeConnectionPool : Type 0 where
  pub tcp : Option TcpConnectionPool
  pub http : Option HttpConnectionPool
  pub http2 : Option Http2ConnectionPool
  pub grpc : Option GrpcConnectionPool

pub record Listener : Type 0 where
  pub port_mapping : PortMapping
  pub health_check : Option HealthCheckPolicy
  pub outlier_detection : Option OutlierDetection
  pub connection_pool : Option VirtualNodeConnectionPool
  pub tls : Option ListenerTls
  pub timeout : Option ListenerTimeout
