-- ===== src/Api/Tls.antt =====
-- apis/appmesh/v1beta2/virtualnode_types.go: client policies and TLS settings.
use aws_app_mesh_controller.Base.{String, Bool, Option, List}
use aws_app_mesh_controller.Base.Int.{ℤ}
use aws_app_mesh_controller.Api.Shared.{SubjectAlternativeNames}

pub record TlsValidationContextAcmTrust : Type 0 where
  pub certificate_authority_arns : List String

pub record TlsValidationContextFileTrust : Type 0 where
  pub certificate_chain : String

pub record TlsValidationContextSdsTrust : Type 0 where
  pub secret_name : Option String

pub record TlsValidationContextTrust : Type 0 where
  pub acm : Option TlsValidationContextAcmTrust
  pub file : Option TlsValidationContextFileTrust
  pub sds : Option TlsValidationContextSdsTrust

pub record TlsValidationContext : Type 0 where
  pub trust : TlsValidationContextTrust
  pub subject_alternative_names : Option SubjectAlternativeNames

pub record ListenerTlsFileCertificate : Type 0 where
  pub certificate_chain : String
  pub private_key : String

pub record ListenerTlsSdsCertificate : Type 0 where
  pub secret_name : Option String

pub record ClientTlsCertificate : Type 0 where
  pub file : Option ListenerTlsFileCertificate
  pub sds : Option ListenerTlsSdsCertificate

pub record ClientPolicyTls : Type 0 where
  pub enforce : Option Bool
  pub ports : List ℤ
  pub validation : TlsValidationContext
  pub certificate : Option ClientTlsCertificate

pub record ClientPolicy : Type 0 where
  pub tls : Option ClientPolicyTls

pub record ListenerTlsAcmCertificate : Type 0 where
  pub certificate_arn : String

pub record ListenerTlsCertificate : Type 0 where
  pub acm : Option ListenerTlsAcmCertificate
  pub file : Option ListenerTlsFileCertificate
  pub sds : Option ListenerTlsSdsCertificate

pub record ListenerTlsValidationContextTrust : Type 0 where
  pub file : Option TlsValidationContextFileTrust
  pub sds : Option TlsValidationContextSdsTrust

pub record ListenerTlsValidationContext : Type 0 where
  pub trust : ListenerTlsValidationContextTrust
  pub subject_alternative_names : Option SubjectAlternativeNames

pub record ListenerTls : Type 0 where
  pub certificate : ListenerTlsCertificate
  pub mode : String
  pub validation : Option ListenerTlsValidationContext
