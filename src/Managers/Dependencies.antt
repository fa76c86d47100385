-- ===== src/Managers/Dependencies.antt =====
-- pkg/*/resource_manager.go and references.go: the objects that a resource refers to are read from
-- the cluster, once for each key, and checked. Go ranges over its maps in any order: a check of
-- several objects may hand back the error of any of those that fail it, here that of the first.
pub mod Untouched
use aws_app_mesh_controller.Base.{
  String, Bool, true, false, Option, none, some, List, [], ◌∷◌, ◌++◌, map, Result, ok, err, panic,
  ◌==◌, if◌then◌else◌, string_eq, is_some,
}
use aws_app_mesh_controller.Base.Exec.{Exec, pure, throw, for_each, ◌>>=◌, ◌>>◌}
use aws_app_mesh_controller.Base.Dict
use aws_app_mesh_controller.Base.Dict.{Dict}
use aws_app_mesh_controller.Api.Meta.{ObjectMeta, NamespacedName, Condition}
use aws_app_mesh_controller.Api.Equal.{namespaced_name_eq}
use aws_app_mesh_controller.Api.Shared.{
  MeshReference, VirtualGatewayReference, VirtualNodeReference, VirtualServiceReference,
  VirtualRouterReference,
}
use aws_app_mesh_controller.Api.Mesh.{Mesh}
use aws_app_mesh_controller.Api.BackendGroup.{BackendGroupReference}
use aws_app_mesh_controller.Api.VirtualNode.{Backend, VirtualNode}
use aws_app_mesh_controller.Api.VirtualGateway.{VirtualGateway}
use aws_app_mesh_controller.Api.VirtualService.{
  VirtualService, VirtualServiceProvider, VirtualNodeServiceProvider, VirtualRouterServiceProvider,
}
use aws_app_mesh_controller.Api.VirtualRouter.{VirtualRouter}
use aws_app_mesh_controller.Api.GatewayRoute.{GatewayRoute, GatewayRouteTarget}
use aws_app_mesh_controller.Membership.{is_mesh_referenced}
use aws_app_mesh_controller.Conditions.{is_active}
use aws_app_mesh_controller.Runtime.{
  Failure, Message, message, requeue_error, not_in_mesh, virtual_gateway_ref_is_nil,
  virtual_gateway_is_not_active, virtual_node_is_not_active, virtual_service_is_not_active,
  virtual_router_is_not_active, could_not_list_virtual_services,
}
use aws_app_mesh_controller.References.{
  object_key_for_virtual_node_reference, object_key_for_virtual_service_reference,
  object_key_for_virtual_router_reference, object_key_for_backend_group_reference,
}
use aws_app_mesh_controller.References.Resolver.{
  Client, wrap, resolve_virtual_gateway_reference, resolve_virtual_node_reference,
  resolve_virtual_service_reference, resolve_virtual_router_reference,
  resolve_backend_group_reference,
}

-- `if x != nil { refs = append(refs, *x) }`
abbrev pub as_list : {A : Type 0} → Option A → List A
as_list none = []
as_list (some a) = a ∷ []

-- A key that is in the map already is passed over.
unfoldable pub find_step :
    {W E Ref A : Type 0}
    → (Ref → NamespacedName)
    → (Ref → Exec W (Failure E) A)
    → Dict NamespacedName A
    → Ref
    → Exec W (Failure E) (Dict NamespacedName A)
find_step key resolve by_key ref =
    if is_some (Dict.lookup (key ref) by_key)
    then pure by_key
    else do a ← λ w. wrap (resolve ref w); pure (Dict.insert (key ref) a by_key)

-- virtualnode: ExtractVirtualServiceReferences
unfoldable pub backend_references : List Backend → List VirtualServiceReference
backend_references [] = []
backend_references (b ∷ bs) = as_list b.virtual_service.virtual_service_ref ++ backend_references bs

-- gatewayroute: ExtractVirtualServiceReferences
unfoldable pub route_target_references : GatewayRoute → List VirtualServiceReference
route_target_references gr =
    elim gr.spec.grpc_route [
      | none ↦ []
      | some r ↦ as_list r.action.target.virtual_service.virtual_service_ref
    ]
    ++ elim gr.spec.http_route [
      | none ↦ []
      | some r ↦ as_list r.action.target.virtual_service.virtual_service_ref
    ]
    ++ elim gr.spec.http2_route [
      | none ↦ []
      | some r ↦ as_list r.action.target.virtual_service.virtual_service_ref
    ]

-- virtualservice: ExtractVirtualNodeReferences
unfoldable pub provider_node_references : VirtualService → List VirtualNodeReference
provider_node_references vs = elim vs.spec.provider [
  | none ↦ []
  | some p ↦ elim p.virtual_node [ none ↦ [] | some n ↦ as_list n.virtual_node_ref ]
]

-- virtualservice: ExtractVirtualRouterReferences
unfoldable pub provider_router_references : VirtualService → List VirtualRouterReference
provider_router_references vs = elim vs.spec.provider [
  | none ↦ []
  | some p ↦ elim p.virtual_router [ none ↦ [] | some r ↦ as_list r.virtual_router_ref ]
]

-- `aws.String(vs.Namespace)` and the name of a listed virtual service.
unfoldable pub reference_to : VirtualService → VirtualServiceReference
reference_to vs = record { namespace = some vs.metadata.namespace; name = vs.metadata.name }

module _ {W E Selector : Type 0} (client : Client W E Selector) where
  -- The loops over the references, for the objects that they name.
  unfoldable pub find_virtual_nodes :
      ObjectMeta
      → List VirtualNodeReference
      → Exec W (Failure E) (Dict NamespacedName (VirtualNode Selector))
  find_virtual_nodes obj =
      for_each
        (find_step (object_key_for_virtual_node_reference obj)
          (resolve_virtual_node_reference client obj))
        []

  unfoldable pub find_virtual_services :
      ObjectMeta
      → List VirtualServiceReference
      → Exec W (Failure E) (Dict NamespacedName VirtualService)
  find_virtual_services obj =
      for_each
        (find_step (object_key_for_virtual_service_reference obj)
          (resolve_virtual_service_reference client obj))
        []

  unfoldable pub find_virtual_routers :
      ObjectMeta
      → List VirtualRouterReference
      → Exec W (Failure E) (Dict NamespacedName VirtualRouter)
  find_virtual_routers obj =
      for_each
        (find_step (object_key_for_virtual_router_reference obj)
          (resolve_virtual_router_reference client obj))
        []

  -- `fmt.Errorf("could not list …", bgKey.Namespace)` drops the error of the client.
  abbrev pub or_not_listed :
      String
      → Result E (List VirtualService) × W
      → Result (Failure E) (List VirtualServiceReference) × W
  or_not_listed namespace (ok items, w) = (ok (map reference_to items), w)
  or_not_listed namespace (err e, w) =
      (err (message (could_not_list_virtual_services namespace)), w)
  or_not_listed namespace (panic, w) = (panic, w)

  -- The virtual services of one backend group: of the whole namespace for the name "*".
  unfoldable pub group_members :
      ObjectMeta → BackendGroupReference → Exec W (Failure E) (List VirtualServiceReference)
  group_members obj ref =
      let key = object_key_for_backend_group_reference obj ref in
      if key.name == "*"
      then (λ w. or_not_listed key.namespace (client.list_virtual_services key.namespace w))
      else do
        bg ← λ w. wrap (resolve_backend_group_reference client obj ref w)
        pure bg.spec.virtual_services

  unfoldable pub group_step :
      ObjectMeta
      → List VirtualServiceReference
      → BackendGroupReference
      → Exec W (Failure E) (List VirtualServiceReference)
  group_step obj refs group = do members ← group_members obj group; pure (refs ++ members)

  -- findVirtualServiceDependencies of a virtual node.
  unfoldable pub find_node_virtual_services :
      Bool → VirtualNode Selector → Exec W (Failure E) (Dict NamespacedName VirtualService)
  find_node_virtual_services enable_backend_groups vn = do
    refs ←
        if enable_backend_groups
        then for_each (group_step vn.metadata) (backend_references vn.spec.backends)
            vn.spec.backend_groups
        else pure (backend_references vn.spec.backends)
    find_virtual_services vn.metadata refs

  unfoldable pub find_virtual_gateway_dependency :
      GatewayRoute → Exec W (Failure E) (VirtualGateway Selector)
  find_virtual_gateway_dependency gr = elim gr.spec.virtual_gateway_ref [
    | none ↦ throw (message virtual_gateway_ref_is_nil)
    | some ref ↦ λ w. wrap (resolve_virtual_gateway_reference client gr.metadata ref w)
  ]

-- k8s.NamespacedName
abbrev pub namespaced_name : ObjectMeta → NamespacedName
namespaced_name m = record { namespace = m.namespace; name = m.name }

module _ {W E Selector : Type 0} (ms : Mesh Selector) where
  -- `MeshRef == nil || !IsMeshReferenced(ms, *MeshRef)` is an error.
  unfoldable pub check_belongs : ObjectMeta → Option MeshReference → Exec W (Failure E) (Unit {0})
  check_belongs obj mesh_ref =
      if elim mesh_ref [ none ↦ false | some ref ↦ is_mesh_referenced ms ref ]
      then pure tt
      else throw (message (not_in_mesh (namespaced_name obj) (namespaced_name ms.metadata)))

  -- An object that is not active yet is waited for.
  unfoldable pub check_active : String → Message → List Condition → Exec W (Failure E) (Unit {0})
  check_active type waits cs =
      if is_active type cs then pure tt else throw (requeue_error (message waits))

  unfoldable pub validate_virtual_node :
      Unit {0} → VirtualNode Selector → Exec W (Failure E) (Unit {0})
  validate_virtual_node _ vn = do
    check_belongs vn.metadata vn.spec.mesh_ref
    check_active "VirtualNodeActive" virtual_node_is_not_active vn.status.conditions

  unfoldable pub validate_virtual_router : Unit {0} → VirtualRouter → Exec W (Failure E) (Unit {0})
  validate_virtual_router _ vr = do
    check_belongs vr.metadata vr.spec.mesh_ref
    check_active "VirtualRouterActive" virtual_router_is_not_active vr.status.conditions

  unfoldable pub validate_virtual_service :
      Unit {0} → VirtualService → Exec W (Failure E) (Unit {0})
  validate_virtual_service _ vs = do
    check_belongs vs.metadata vs.spec.mesh_ref
    check_active "VirtualServiceActive" virtual_service_is_not_active vs.status.conditions

  -- A backend of a node need not be active, so that nodes and services may refer to each other.
  unfoldable pub validate_backend : Unit {0} → VirtualService → Exec W (Failure E) (Unit {0})
  validate_backend _ vs = check_belongs vs.metadata vs.spec.mesh_ref

  unfoldable pub validate_virtual_gateway_dependency :
      VirtualGateway Selector → Exec W (Failure E) (Unit {0})
  validate_virtual_gateway_dependency vg = do
    check_belongs vg.metadata vg.spec.mesh_ref
    check_active "VirtualGatewayActive" virtual_gateway_is_not_active vg.status.conditions

  -- `for _, x := range xByKey`
  unfoldable pub validate_all :
      {A : Type 0}
      → (Unit {0} → A → Exec W (Failure E) (Unit {0}))
      → Dict NamespacedName A
      → Exec W (Failure E) (Unit {0})
  validate_all validate by_key = for_each validate tt (map (λ p. p.1) by_key)
