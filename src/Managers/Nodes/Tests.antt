-- ===== src/Managers/Nodes/Tests.antt =====
-- A virtual node at a concrete App Mesh and cluster.
use aws_app_mesh_controller.Base.{
  String, Bool, true, Option, none, some, List, [], ◌∷◌, Result, ok, ◌≡◌, refl, ◌==◌, ◌||◌, ◌<>◌,
  string_eq,
}
use aws_app_mesh_controller.Base.Int.{int_eq}
use aws_app_mesh_controller.Base.Exec.{for_each}
use aws_app_mesh_controller.Base.Dict
use aws_app_mesh_controller.Base.Dict.{Dict}
use aws_app_mesh_controller.Api.Equal.{namespaced_name_eq}
use aws_app_mesh_controller.Api.Shared.{VirtualServiceReference}
use aws_app_mesh_controller.Api.VirtualNode.{VirtualNode, VirtualNodeSpec, Backend}
use aws_app_mesh_controller.Api.VirtualService.{VirtualService}
use aws_app_mesh_controller.Membership.{is_mesh_referenced}
use aws_app_mesh_controller.Conditions.{is_active, has_changed, get_condition}
use aws_app_mesh_controller.References.{
  UnexpectedReference, object_key_for_virtual_service_reference,
  object_key_for_backend_group_reference, build_sdk_virtual_service_reference_convert_func,
}
use aws_app_mesh_controller.References.Resolver.{
  resolve_mesh_reference, resolve_virtual_service_reference,
}
use aws_app_mesh_controller.Routes.Reconcile.Memory.{go_sdk}
use aws_app_mesh_controller.Managers.{
  ResourceKey, find_sdk, update_sdk, delete_sdk, is_controlled, is_owned, find_mesh_dependency,
  validate_mesh_dependencies,
}
use aws_app_mesh_controller.Managers.Memory.{
  World, held_in, my_account, mine, memory_resources, memory_resources-laws, if_there,
  resource_key_eq, meta, mesh_reference, cluster, cluster-Keeps,
}
use aws_app_mesh_controller.Api.Mesh.{Mesh}
use aws_app_mesh_controller.Managers.Applied.{Deleted}
use aws_app_mesh_controller.Managers.Status.{
  arn_differs, generation_differs, conditions_change, virtual_node_needs_update,
  update_crd_virtual_node,
}
use aws_app_mesh_controller.Managers.Dependencies.{
  find_step, backend_references, reference_to, find_virtual_services, group_members, group_step,
  find_node_virtual_services, check_belongs, validate_backend, validate_all,
}
use aws_app_mesh_controller.Managers.Nodes.{
  key, backend_keys, missing_backends, with_group_backends, build_sdk_virtual_node_spec,
  find_sdk_virtual_node, update_sdk_virtual_node, delete_sdk_virtual_node, create_or_update,
  reconcile, cleanup,
}
use aws_app_mesh_controller.Managers.Nodes.Converges.{node-Deleted}

-- Its only backend comes from the backend group of all services.
abbrev node : Option String → VirtualNode (Unit {0})
node arn = record {
  metadata = meta "n";
  spec = record {
    aws_name = some "n";
    pod_selector = none;
    listeners = none;
    service_discovery = none;
    backends = [];
    backend_groups = record { namespace = none; name = "*" } ∷ [];
    backend_defaults = none;
    logging = none;
    mesh_ref = some mesh_reference;
  };
  status = record { virtual_node_arn = arn; conditions = []; observed_generation = none };
}

abbrev backend_name :
    List Backend → (VirtualServiceReference → Result UnexpectedReference String) → String
backend_name [] f = "none"
backend_name (b ∷ _) f = elim b.virtual_service.virtual_service_ref [
  | none ↦ "none"
  | some ref ↦ elim (f ref) [ ok s ↦ s | _ ↦ "unexpected" ]
]

-- A conversion that keeps the name of the first backend.
abbrev convert :
    VirtualNodeSpec (Unit {0})
    → (VirtualServiceReference → Result UnexpectedReference String)
    → Result Bool String
convert spec f = ok (backend_name spec.backends f)

-- App Mesh adds a port, which the comparison takes no notice of.
abbrev fill : String → String
fill s = s <> ":8080"

abbrev same : String → String → Bool
same s t = s == t || fill s == t

abbrev node_key : ResourceKey
node_key = record {
  mesh_name = some "m";
  mesh_owner = none;
  virtual_gateway_name = none;
  name = some "n";
}

abbrev before : World
before = ((node_key, mine "old") ∷ [], [])

abbrev after : World
after = ((node_key, mine "s:8080") ∷ [], [])

-- What is held already is left alone.
reconcile_again :
    reconcile go_sdk my_account 5 cluster
      (memory_resources fill)
      same
      true
      convert
      (node none)
      after
    ≡ (ok tt, after)
unfolding reconcile find_mesh_dependency resolve_mesh_reference validate_mesh_dependencies is_active
    find_node_virtual_services backend_references group_step group_members reference_to
    find_virtual_services find_step resolve_virtual_service_reference
    object_key_for_virtual_service_reference object_key_for_backend_group_reference validate_all
    validate_backend check_belongs is_mesh_referenced find_sdk_virtual_node find_sdk key
    create_or_update update_sdk_virtual_node update_sdk is_controlled build_sdk_virtual_node_spec
    with_group_backends missing_backends backend_keys
    build_sdk_virtual_service_reference_convert_func update_crd_virtual_node
    virtual_node_needs_update arn_differs generation_differs conditions_change has_changed
    get_condition for_each if_there Dict.lookup Dict.insert string_eq namespaced_name_eq
    resource_key_eq int_eq
reconcile_again = refl

cleanup_run :
    cleanup go_sdk my_account 5 cluster
      (memory_resources fill)
      same
      true
      convert
      (node (some "arn"))
      before
    ≡ (ok tt, ([], []))
unfolding cleanup find_mesh_dependency resolve_mesh_reference find_sdk_virtual_node find_sdk key
    delete_sdk_virtual_node delete_sdk is_owned is_controlled if_there Dict.lookup Dict.erase
    string_eq resource_key_eq
cleanup_run = refl

node-Deleted_example :
    (ms : Mesh (Unit {0})) × ((v : World) × (find_mesh_dependency cluster
          (some mesh_reference)
          before
        ≡ (ok ms, v)))
    × Deleted go_sdk my_account
        (held_in before (key ms (node (some "arn"))))
        (held_in ([], []) (key ms (node (some "arn"))))
node-Deleted_example =
    node-Deleted go_sdk my_account 5 cluster (memory_resources fill) same true convert held_in
      (memory_resources-laws fill) (λ k. cluster-Keeps (λ w. held_in w k)) (node (some "arn"))
      before tt ([], []) refl cleanup_run
