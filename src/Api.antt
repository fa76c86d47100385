-- ===== src/Api.antt =====
-- apis/appmesh/v1beta2: the custom resources, one record for each struct, with its fields.
pub mod Meta
pub mod Shared
pub mod Mesh
pub mod VirtualRouter
pub mod GatewayRoute
pub mod Tls
pub mod Listener
pub mod VirtualNode
pub mod VirtualGateway
pub mod VirtualService
pub mod BackendGroup
pub mod Equal
