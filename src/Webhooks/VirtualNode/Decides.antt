-- ===== src/Webhooks/VirtualNode/Decides.antt =====
-- Which nodes virtualnode_validator.go accepts, on create and on update.
use aws_app_mesh_controller.Base.{
  ◌≤◌, String, true, Option, none, some, List, [], ◌∷◌, ◌++◌, ◌≡◌, refl, ◌↔◌, ◌⊎◌, ap, Result, err,
  ok, panic, ◌>>=◌, is_some, arith, All, Distinct, filter_map, string_eq, option_eq,
}
use aws_app_mesh_controller.Api.Equal.{mesh_reference_eq, service_discovery_eq}
use aws_app_mesh_controller.Api.Meta.{ObjectMeta}
use aws_app_mesh_controller.Api.Listener.{Listener, VirtualNodeConnectionPool}
use aws_app_mesh_controller.Api.VirtualNode.{
  VirtualNode, ServiceDiscovery, AwsCloudMapServiceDiscovery, Backend,
}
use aws_app_mesh_controller.Webhooks.Checks.{
  count_true, seq-ok, if_any-ok, IfAny, no_repeats-ok, enforce, Error, enforce-ok, changed-nil,
  append-nil_iff,
}
use aws_app_mesh_controller.Webhooks.VirtualNode.{
  pool_count, check_listener_multiple_connection_pools, check_listeners, backend_identifier,
  check_virtual_node_backends_for_duplicates, check_for_required_fields, changed_cloud_map,
  check_for_connection_pool_protocols, enforce_fields_immutability, validate_create,
  validate_update,
}

-- At most one kind of connection pool.
abbrev pub PoolOk : VirtualNodeConnectionPool → Type 0
PoolOk p = count_true (is_some p.tcp ∷ is_some p.http ∷ is_some p.http2 ∷ is_some p.grpc ∷ []) ≤ 1

abbrev pub ListenerOk : Listener → Type 0
ListenerOk l = IfAny PoolOk l.connection_pool

abbrev pub identifiers : ObjectMeta → List Backend → List String
identifiers vn = filter_map (backend_identifier vn)

abbrev pub NodeOk : {Selector : Type 0} → VirtualNode Selector → Type 0
NodeOk vn =
    ((vn.spec.listeners ≡ none) ⊎ (is_some vn.spec.service_discovery ≡ true))
    × Distinct (identifiers vn.metadata vn.spec.backends)
    × IfAny (All ListenerOk) vn.spec.listeners

listener-ok : (l : Listener) → (check_listener_multiple_connection_pools l ≡ ok tt) ↔ ListenerOk l
unfolding check_listener_multiple_connection_pools pool_count
listener-ok l = if_any-ok _ (λ p. ground arith) l.connection_pool

listeners-ok : (ls : List Listener) → (check_listeners ls ≡ ok tt) ↔ All ListenerOk ls
unfolding check_listeners
listeners-ok [] = (λ _. tt, λ _. refl)
listeners-ok (l ∷ ls) = (
  λ p. let (a, b) = (seq-ok _ _).0 p in ((listener-ok l).0 a, (listeners-ok ls).0 b),
  λ p. (seq-ok _ _).1 ((listener-ok l).1 p.0, (listeners-ok ls).1 p.1),
)

abbrev pub cloud_map_of : Option ServiceDiscovery → Option AwsCloudMapServiceDiscovery
cloud_map_of none = none
cloud_map_of (some sd) = sd.aws_cloud_map

-- What was registered in Cloud Map keeps its Cloud Map service.
abbrev pub Kept : Option ServiceDiscovery → Option AwsCloudMapServiceDiscovery → Type 0
Kept new none = Unit {0}
Kept new (some c) = cloud_map_of new ≡ some c

cloud_map-ok :
    (new old : Option ServiceDiscovery)
    → (changed_cloud_map new old ≡ ok []) ↔ Kept new (cloud_map_of old)
unfolding changed_cloud_map
cloud_map-ok new none = (λ _. tt, λ _. refl)
cloud_map-ok new (some old) = go old.aws_cloud_map new
  where
    go :
        (c : Option AwsCloudMapServiceDiscovery) (n : Option ServiceDiscovery)
        → (changed_cloud_map n (some (record old { aws_cloud_map = c })) ≡ ok []) ↔ Kept n c
    go none n = (λ _. tt, λ _. refl)
    go (some c) none = (λ e. cc, λ e. cc)
    go (some c) (some sd) =
        let same = changed-nil "spec.serviceDiscovery.awsCloudMap" sd.aws_cloud_map (some c) in
        (λ e. same.0 (cc), λ k. cc (same.1 k))

immutable-ok :
    (kind : String) (a b : List String) (m : Result Error (List String))
    → ((do c ← m; enforce kind (a ++ (b ++ c))) ≡ ok tt) ↔ ((a ≡ []) × (b ≡ []) × (m ≡ ok []))
immutable-ok kind a b (ok c) = (
  λ e.
      let (x, y) = (append-nil_iff a (b ++ c)).0 ((enforce-ok _ _).0 e) in
      let (z, w) = (append-nil_iff b c).0 y in (x, z, ap {B = Result Error (List String)} ok w),
  λ (x, z, w).
      (enforce-ok _ _).1 ((append-nil_iff a (b ++ c)).1 (x, (append-nil_iff b c).1 (z, cc))),
)
immutable-ok kind a b (err e) = (λ h. cc, λ h. cc (h.2))
immutable-ok kind a b panic = (λ h. cc, λ h. cc (h.2))

module _ {Selector : Type 0} where
  pub required-ok :
      (vn : VirtualNode Selector)
      → (check_for_required_fields vn ≡ ok tt)
        ↔ ((vn.spec.listeners ≡ none) ⊎ (is_some vn.spec.service_discovery ≡ true))
  unfolding check_for_required_fields
  required-ok vn = ground arith

  backends-ok :
      (vn : VirtualNode Selector)
      → (check_virtual_node_backends_for_duplicates vn ≡ ok tt)
        ↔ Distinct (identifiers vn.metadata vn.spec.backends)
  unfolding check_virtual_node_backends_for_duplicates
  backends-ok vn = no_repeats-ok _ _ vn.spec.backends

  pub node_create-ok : (vn : VirtualNode Selector) → (validate_create vn ≡ ok tt) ↔ NodeOk vn
  unfolding validate_create check_for_connection_pool_protocols
  node_create-ok vn =
      let pools = if_any-ok check_listeners listeners-ok vn.spec.listeners in
      (
        λ p.
            let (a, q) = (seq-ok _ _).0 p in
            let (b, c) = (seq-ok _ _).0 q in
            ((required-ok vn).0 a, (backends-ok vn).0 b, pools.0 c),
        λ (a, b, c).
            (seq-ok _ _).1 ((required-ok vn).1 a, (seq-ok _ _).1 ((backends-ok vn).1 b, pools.1 c)),
      )

  -- An update is accepted exactly when besides it keeps the AWS name, the mesh reference and the
  -- Cloud Map service of a node that had one.
  pub node_update-ok :
      (new old : VirtualNode Selector)
      → (validate_update new old ≡ ok tt) ↔ (
          (new.spec.aws_name ≡ old.spec.aws_name)
          × (new.spec.mesh_ref ≡ old.spec.mesh_ref)
          × Kept new.spec.service_discovery (cloud_map_of old.spec.service_discovery)
          × NodeOk new)
  unfolding validate_update validate_create enforce_fields_immutability
  node_update-ok new old =
      let name = changed-nil "spec.awsName" new.spec.aws_name old.spec.aws_name in
      let mesh = changed-nil "spec.meshRef" new.spec.mesh_ref old.spec.mesh_ref in
      let map = cloud_map-ok new.spec.service_discovery old.spec.service_discovery in
      let kept = immutable-ok "VirtualNode" _ _ _ in
      let create = node_create-ok new in
      (
        λ p.
            let (a, q) = (seq-ok _ _).0 p in
            let (b, r) = (seq-ok _ _).0 q in
            let (c, d, e) = kept.0 b in
            (name.0 c, mesh.0 d, map.0 e, create.0 ((seq-ok _ _).1 (a, r))),
        λ (c, d, e, n).
            let (a, r) = (seq-ok _ _).0 (create.1 n) in
            (seq-ok _ _).1 (a, (seq-ok _ _).1 (kept.1 (name.1 c, mesh.1 d, map.1 e), r)),
      )
