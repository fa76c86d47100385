-- ===== src/Api/VirtualGateway.antt =====
-- apis/appmesh/v1beta2/virtualgateway_types.go.
-- `Selector` is metav1.LabelSelector. `listeners` is an option: the program tells a nil slice apart.
use aws_app_mesh_controller.Base.{String, Bool, Option, List}
use aws_app_mesh_controller.Base.Int.{ℤ}
use aws_app_mesh_controller.Api.Meta.{ObjectMeta, Condition}
use aws_app_mesh_controller.Api.Shared.{
  MeshReference, HttpConnectionPool, Http2ConnectionPool, GrpcConnectionPool,
  SubjectAlternativeNames,
}
use aws_app_mesh_controller.Api.VirtualNode.{LoggingFormat}

pub record VirtualGatewayPortMapping : Type 0 where
  pub port : ℤ
  pub protocol : String

pub record VirtualGatewayHealthCheckPolicy : Type 0 where
  pub healthy_threshold : ℤ
  pub interval_millis : ℤ
  pub path : Option String
  pub port : Option ℤ
  pub protocol : String
  pub timeout_millis : ℤ
  pub unhealthy_threshold : ℤ

pub record VirtualGatewayConnectionPool : Type 0 where
  pub http : Option HttpConnectionPool
  pub http2 : Option Http2ConnectionPool
  pub grpc : Option GrpcConnectionPool

pub record VirtualGatewayListenerTlsAcmCertificate : Type 0 where
  pub certificate_arn : String

pub record VirtualGatewayListenerTlsFileCertificate : Type 0 where
  pub certificate_chain : String
  pub private_key : String

pub record VirtualGatewayListenerTlsSdsCertificate : Type 0 where
  pub secret_name : Option String

pub record VirtualGatewayTlsValidationContextAcmTrust : Type 0 where
  pub certificate_authority_arns : List String

pub record VirtualGatewayTlsValidationContextFileTrust : Type 0 where
  pub certificate_chain : String

pub record VirtualGatewayTlsValidationContextSdsTrust : Type 0 where
  pub secret_name : Option String

pub record VirtualGatewayListenerTlsValidationContextTrust : Type 0 where
  pub acm : Option VirtualGatewayTlsValidationContextAcmTrust
  pub file : Option VirtualGatewayTlsValidationContextFileTrust
  pub sds : Option VirtualGatewayTlsValidationContextSdsTrust

pub record VirtualGatewayListenerTlsCertificate : Type 0 where
  pub acm : Option VirtualGatewayListenerTlsAcmCertificate
  pub file : Option VirtualGatewayListenerTlsFileCertificate
  pub sds : Option VirtualGatewayListenerTlsSdsCertificate

pub record VirtualGatewayListenerTlsValidationContext : Type 0 where
  pub trust : VirtualGatewayListenerTlsValidationContextTrust
  pub subject_alternative_names : Option SubjectAlternativeNames

pub record VirtualGatewayListenerTls : Type 0 where
  pub certificate : VirtualGatewayListenerTlsCertificate
  pub validation : Option VirtualGatewayListenerTlsValidationContext
  pub mode : String

pub record VirtualGatewayFileAccessLog : Type 0 where
  pub path : String
  pub format : Option LoggingFormat

pub record VirtualGatewayAccessLog : Type 0 where
  pub file : Option VirtualGatewayFileAccessLog

pub record VirtualGatewayLogging : Type 0 where
  pub access_log : Option VirtualGatewayAccessLog

pub record VirtualGatewayListener : Type 0 where
  pub port_mapping : VirtualGatewayPortMapping
  pub health_check : Option VirtualGatewayHealthCheckPolicy
  pub connection_pool : Option VirtualGatewayConnectionPool
  pub tls : Option VirtualGatewayListenerTls

pub record VirtualGatewayTlsValidationContextTrust : Type 0 where
  pub acm : Option VirtualGatewayTlsValidationContextAcmTrust
  pub file : Option VirtualGatewayTlsValidationContextFileTrust
  pub sds : Option VirtualGatewayTlsValidationContextSdsTrust

pub record VirtualGatewayTlsValidationContext : Type 0 where
  pub trust : VirtualGatewayTlsValidationContextTrust
  pub subject_alternative_names : Option SubjectAlternativeNames

pub record VirtualGatewayClientTlsCertificate : Type 0 where
  pub file : Option VirtualGatewayListenerTlsFileCertificate
  pub sds : Option VirtualGatewayListenerTlsSdsCertificate

pub record VirtualGatewayClientPolicyTls : Type 0 where
  pub enforce : Option Bool
  pub ports : List ℤ
  pub certificate : Option VirtualGatewayClientTlsCertificate
  pub validation : VirtualGatewayTlsValidationContext

pub record VirtualGatewayClientPolicy : Type 0 where
  pub tls : Option VirtualGatewayClientPolicyTls

pub record VirtualGatewayBackendDefaults : Type 0 where
  pub client_policy : Option VirtualGatewayClientPolicy

pub record VirtualGatewaySpec (Selector : Type 0) : Type 0 where
  pub aws_name : Option String
  pub namespace_selector : Option Selector
  pub pod_selector : Option Selector
  pub gateway_route_selector : Option Selector
  pub listeners : Option (List VirtualGatewayListener)
  pub logging : Option VirtualGatewayLogging
  pub backend_defaults : Option VirtualGatewayBackendDefaults
  pub mesh_ref : Option MeshReference

pub record VirtualGatewayStatus : Type 0 where
  pub virtual_gateway_arn : Option String
  pub conditions : List Condition
  pub observed_generation : Option ℤ

pub record VirtualGateway (Selector : Type 0) : Type 0 where
  pub metadata : ObjectMeta
  pub spec : VirtualGatewaySpec Selector
  pub status : VirtualGatewayStatus
