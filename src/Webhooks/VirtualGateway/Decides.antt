-- ===== src/Webhooks/VirtualGateway/Decides.antt =====
-- Which gateways virtualgateway_validator.go accepts.
use aws_app_mesh_controller.Base.{
  List, [], ◌∷◌, ◌≡◌, refl, ◌↔◌, ◌≤◌, ok, is_some, arith, All, option_eq, string_eq,
}
use aws_app_mesh_controller.Api.Equal.{mesh_reference_eq}
use aws_app_mesh_controller.Api.VirtualGateway.{
  VirtualGateway, VirtualGatewayListener, VirtualGatewayConnectionPool,
}
use aws_app_mesh_controller.Webhooks.Checks.{
  count_true, IfAny, if_any-ok, seq-ok, enforce-ok, changed-nil, append-nil_iff,
}
use aws_app_mesh_controller.Webhooks.VirtualGateway.{
  pool_count, check_listener_multiple_connection_pools, check_listeners,
  check_for_connection_pool_protocols, enforce_fields_immutability, validate_update,
}

abbrev pub PoolOk : VirtualGatewayConnectionPool → Type 0
PoolOk p = count_true (is_some p.http ∷ is_some p.http2 ∷ is_some p.grpc ∷ []) ≤ 1

abbrev pub ListenerOk : VirtualGatewayListener → Type 0
ListenerOk l = IfAny PoolOk l.connection_pool

listener-ok :
    (l : VirtualGatewayListener)
    → (check_listener_multiple_connection_pools l ≡ ok tt) ↔ ListenerOk l
unfolding check_listener_multiple_connection_pools pool_count
listener-ok l = if_any-ok _ (λ p. ground arith) l.connection_pool

listeners-ok : (ls : List VirtualGatewayListener) → (check_listeners ls ≡ ok tt) ↔ All ListenerOk ls
unfolding check_listeners
listeners-ok [] = (λ _. tt, λ _. refl)
listeners-ok (l ∷ ls) = (
  λ p. let (a, b) = (seq-ok _ _).0 p in ((listener-ok l).0 a, (listeners-ok ls).0 b),
  λ p. (seq-ok _ _).1 ((listener-ok l).1 p.0, (listeners-ok ls).1 p.1),
)

module _ {Selector : Type 0} where
  -- An update of a gateway is accepted exactly when it keeps the AWS name and the mesh reference and
  -- no listener has two kinds of connection pool.
  pub gateway_update-ok :
      (new old : VirtualGateway Selector)
      → (validate_update new old ≡ ok tt) ↔ (
          (new.spec.aws_name ≡ old.spec.aws_name)
          × (new.spec.mesh_ref ≡ old.spec.mesh_ref)
          × IfAny (All ListenerOk) new.spec.listeners)
  unfolding validate_update check_for_connection_pool_protocols enforce_fields_immutability
  gateway_update-ok new old =
      let name = changed-nil "spec.awsName" new.spec.aws_name old.spec.aws_name in
      let mesh = changed-nil "spec.meshRef" new.spec.mesh_ref old.spec.mesh_ref in
      let pools = if_any-ok check_listeners listeners-ok new.spec.listeners in
      (
        λ p.
            let (a, b) = (seq-ok _ _).0 p in
            let (c, d) = (append-nil_iff _ _).0 ((enforce-ok _ _).0 a) in
            (name.0 c, mesh.0 d, pools.0 b),
        λ (c, d, b).
            (seq-ok _ _).1
              ((enforce-ok _ _).1 ((append-nil_iff _ _).1 (name.1 c, mesh.1 d)), pools.1 b),
      )
