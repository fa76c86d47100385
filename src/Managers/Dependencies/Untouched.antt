-- ===== src/Managers/Dependencies/Untouched.antt =====
-- Finding and checking the dependencies leaves App Mesh as it is.
use aws_app_mesh_controller.Base.{
  String, Bool, false, Option, none, some, List, [], map, Result, ok, err, panic, ◌==◌, ◌≡◌, refl,
  if◌then◌else◌, is_some, string_eq,
}
use aws_app_mesh_controller.Base.Exec.{Exec, pure, for_each}
use aws_app_mesh_controller.Base.Keeps.{Keeps, >>=-Keeps, if-Keeps, for_each-Keeps}
use aws_app_mesh_controller.Base.Dict
use aws_app_mesh_controller.Base.Dict.{Dict}
use aws_app_mesh_controller.Api.Meta.{ObjectMeta, NamespacedName, Condition}
use aws_app_mesh_controller.Api.Equal.{namespaced_name_eq}
use aws_app_mesh_controller.Api.Shared.{
  MeshReference, VirtualNodeReference, VirtualServiceReference,
}
use aws_app_mesh_controller.Api.Mesh.{Mesh}
use aws_app_mesh_controller.Api.BackendGroup.{BackendGroupReference}
use aws_app_mesh_controller.Api.VirtualNode.{VirtualNode}
use aws_app_mesh_controller.Api.VirtualService.{VirtualService}
use aws_app_mesh_controller.Membership.{is_mesh_referenced}
use aws_app_mesh_controller.Conditions.{is_active}
use aws_app_mesh_controller.Runtime.{Failure, Message}
use aws_app_mesh_controller.References.{
  object_key_for_virtual_node_reference, object_key_for_virtual_service_reference,
  object_key_for_backend_group_reference,
}
use aws_app_mesh_controller.References.Resolver.{
  Client, wrap, resolve_virtual_node_reference, resolve_virtual_service_reference,
  resolve_backend_group_reference,
}
use aws_app_mesh_controller.Managers.{validate_mesh_dependencies}
use aws_app_mesh_controller.Managers.Laws.{ClientKeeps, wrap-Keeps, get-Keeps}
use aws_app_mesh_controller.Managers.Dependencies.{
  find_step, find_virtual_nodes, find_virtual_services, find_node_virtual_services, or_not_listed,
  group_members, group_step, backend_references, check_belongs, check_active, validate_virtual_node,
  validate_backend, validate_all,
}

module _ {W E V : Type 0} (view : W → V) where
  find_step-Keeps :
      {Ref A : Type 0} (key : Ref → NamespacedName) (resolve : Ref → Exec W (Failure E) A)
      → ((ref : Ref) → Keeps view (resolve ref))
      → (by_key : Dict NamespacedName A) (ref : Ref) → Keeps view (find_step key resolve by_key ref)
  unfolding find_step
  find_step-Keeps key resolve p by_key ref =
      if-Keeps view (is_some (Dict.lookup (key ref) by_key)) _ _ (λ w. refl)
        (>>=-Keeps view (λ w. wrap (resolve ref w)) _ (wrap-Keeps view (resolve ref) (p ref))
          (λ a w. refl))

module _ (E : Type 0) {W V Selector : Type 0} (view : W → V) (ms : Mesh Selector) where
  check_belongs-Keeps :
      (obj : ObjectMeta) (ref : Option MeshReference)
      → Keeps view (check_belongs {E = E} ms obj ref)
  unfolding check_belongs
  check_belongs-Keeps obj ref =
      if-Keeps view (elim ref [ none ↦ false | some r ↦ is_mesh_referenced ms r ]) _ _ (λ w. refl)
        (λ w. refl)

  check_active-Keeps :
      (type : String) (waits : Message) (cs : List Condition)
      → Keeps view (check_active {E = E} ms type waits cs)
  unfolding check_active
  check_active-Keeps type waits cs = if-Keeps view (is_active type cs) _ _ (λ w. refl) (λ w. refl)

  pub validate_virtual_nodes-Keeps :
      (nodes : Dict NamespacedName (VirtualNode Selector))
      → Keeps view (validate_all {E = E} ms (validate_virtual_node ms) nodes)
  unfolding validate_all validate_virtual_node
  validate_virtual_nodes-Keeps nodes =
      for_each-Keeps view (validate_virtual_node ms)
        (λ u vn.
          >>=-Keeps view (check_belongs ms vn.metadata vn.spec.mesh_ref) _
            (check_belongs-Keeps vn.metadata vn.spec.mesh_ref)
            (λ _. check_active-Keeps _ _ vn.status.conditions))
        tt (map (λ p. p.1) nodes)

  pub validate_backends-Keeps :
      (services : Dict NamespacedName VirtualService)
      → Keeps view (validate_all {E = E} ms (validate_backend ms) services)
  unfolding validate_all validate_backend
  validate_backends-Keeps services =
      for_each-Keeps view (validate_backend ms)
        (λ u vs. check_belongs-Keeps vs.metadata vs.spec.mesh_ref) tt (map (λ p. p.1) services)

  pub validate_mesh-Keeps : Keeps view (validate_mesh_dependencies {E = E} ms)
  unfolding validate_mesh_dependencies
  validate_mesh-Keeps =
      if-Keeps view (is_active "MeshActive" ms.status.conditions) _ _ (λ w. refl) (λ w. refl)

module _ {W E Selector V : Type 0} (client : Client W E Selector) (view : W → V)
    (keeps : ClientKeeps client view) where
  pub find_virtual_nodes-Keeps :
      (obj : ObjectMeta) (refs : List VirtualNodeReference)
      → Keeps view (find_virtual_nodes client obj refs)
  unfolding find_virtual_nodes resolve_virtual_node_reference
  find_virtual_nodes-Keeps obj refs =
      for_each-Keeps view _
        (find_step-Keeps view (object_key_for_virtual_node_reference obj)
          (resolve_virtual_node_reference client obj)
          (λ ref.
            let key = object_key_for_virtual_node_reference obj ref in
            get-Keeps view (client.get_virtual_node key) (keeps.get_virtual_node-Keeps key)))
        [] refs

  find_virtual_services-Keeps :
      (obj : ObjectMeta) (refs : List VirtualServiceReference)
      → Keeps view (find_virtual_services client obj refs)
  unfolding find_virtual_services resolve_virtual_service_reference
  find_virtual_services-Keeps obj refs =
      for_each-Keeps view _
        (find_step-Keeps view (object_key_for_virtual_service_reference obj)
          (resolve_virtual_service_reference client obj)
          (λ ref.
            let key = object_key_for_virtual_service_reference obj ref in
            get-Keeps view (client.get_virtual_service key) (keeps.get_virtual_service-Keeps key)))
        [] refs

  listed-Keeps :
      (namespace : String)
      → Keeps view (λ w. or_not_listed client namespace (client.list_virtual_services namespace w))
  listed-Keeps namespace w =
      go (client.list_virtual_services namespace w).0 (client.list_virtual_services namespace w).1
        (keeps.list_virtual_services-Keeps namespace w)
    where
      go :
          (r : Result E (List VirtualService)) (v : W)
          → view v ≡ view w
          → view (or_not_listed client namespace (r, v)).1 ≡ view w
      go (ok a) v e = e
      go (err x) v e = e
      go panic v e = e

  group_members-Keeps :
      (obj : ObjectMeta) (ref : BackendGroupReference) → Keeps view (group_members client obj ref)
  unfolding group_members resolve_backend_group_reference
  group_members-Keeps obj ref =
      let key = object_key_for_backend_group_reference obj ref in
      if-Keeps view (key.name == "*") _ _ (listed-Keeps key.namespace) (
        >>=-Keeps view (λ w. wrap (resolve_backend_group_reference client obj ref w)) _
          (wrap-Keeps view (resolve_backend_group_reference client obj ref)
            (get-Keeps view (client.get_backend_group key) (keeps.get_backend_group-Keeps key)))
          (λ bg w. refl))

  pub find_node_virtual_services-Keeps :
      (enable_backend_groups : Bool) (vn : VirtualNode Selector)
      → Keeps view (find_node_virtual_services client enable_backend_groups vn)
  unfolding find_node_virtual_services group_step
  find_node_virtual_services-Keeps enable vn =
      let refs = backend_references vn.spec.backends in
      >>=-Keeps view
        (if enable
          then for_each (group_step client vn.metadata) refs vn.spec.backend_groups
          else pure refs)
        _
        (if-Keeps view enable (for_each (group_step client vn.metadata) refs vn.spec.backend_groups)
          (pure refs)
          (for_each-Keeps view (group_step client vn.metadata)
            (λ rs group.
              >>=-Keeps view (group_members client vn.metadata group) _
                (group_members-Keeps vn.metadata group) (λ ms w. refl))
            refs vn.spec.backend_groups)
          (λ w. refl))
        (λ rs. find_virtual_services-Keeps vn.metadata rs)
