-- ===== src/Webhooks.antt =====
-- webhooks/appmesh: the validating and the mutating admission webhooks of the custom resources.
pub mod Checks
pub mod GatewayRoute
pub mod VirtualRouter
pub mod VirtualGateway
pub mod Mesh
pub mod VirtualNode
pub mod Mutate
