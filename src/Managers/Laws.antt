-- ===== src/Managers/Laws.antt =====
-- What the managers rely on of the clients.
use aws_app_mesh_controller.Base.{
  String, Bool, true, false, Option, none, some, Result, ok, err, panic, ◌≡◌, refl, sym, ap, ◌==◌,
  if◌then◌else◌, string_eq,
}
use aws_app_mesh_controller.Base.Exec.{Exec, pure, throw}
use aws_app_mesh_controller.Base.Keeps.{Keeps, >>=-Keeps, if-Keeps}
use aws_app_mesh_controller.Api.Meta.{NamespacedName}
use aws_app_mesh_controller.Api.Mesh.{Mesh}
use aws_app_mesh_controller.Api.VirtualNode.{VirtualNode}
use aws_app_mesh_controller.Api.VirtualRouter.{VirtualRouter}
use aws_app_mesh_controller.Api.Shared.{MeshReference}
use aws_app_mesh_controller.Runtime.{Failure, requeue_error, message, mesh_is_not_active}
use aws_app_mesh_controller.Conditions.{is_active}
use aws_app_mesh_controller.References.Resolver.{Client, from_client, wrap, resolve_mesh_reference}
use aws_app_mesh_controller.Managers.{
  ResourceKey, ResourceData, ResourceApi, discard, find_mesh_dependency, validate_mesh_dependencies,
}

-- A resource as App Mesh holds it.
pub record Held (Spec : Type 0) : Type 0 where
  pub owner : Option String
  pub spec : Spec

abbrev pub held_data : {Spec : Type 0} → ResourceData Spec → Held Spec
held_data d = record { owner = d.resource_owner; spec = d.spec }

-- App Mesh as a store of resources: `held` is what it holds under the names of a call. The names of a
-- described resource lead to that resource. `Answers s t` says that App Mesh, when `s` is sent, may hold
-- `t`: it fills in what is unset, as the port of a health check.
pub record ResourceApiLaws {W E Spec : Type 0} (api : ResourceApi W E Spec)
    (held : W → ResourceKey → Option (Held Spec)) (Answers : Spec → Spec → Type 0) : Type 0 where
  pub describe-Keeps : (k j : ResourceKey) → Keeps (λ w. held w j) (api.describe k)
  pub describe-ok :
      (k : ResourceKey) (w : W) (d : ResourceData Spec) (w' : W)
      → api.describe k w ≡ (ok d, w')
      → (held w k ≡ some (held_data d))
        × (d.key.name ≡ k.name)
        × ((v : W) → held v d.key ≡ held v k)
  pub describe-missing :
      (k : ResourceKey) (w : W) (e : E) (w' : W)
      → api.describe k w ≡ (err e, w')
      → api.is_not_found e ≡ true
      → held w k ≡ none
  pub create-ok :
      (k : ResourceKey) (s : Spec) (w : W) (d : ResourceData Spec) (w' : W)
      → api.create k s w ≡ (ok d, w')
      → (h : Held Spec) × (held w' k ≡ some h) × Answers s h.spec
  pub update-ok :
      (k : ResourceKey) (s : Spec) (w : W) (d : ResourceData Spec) (w' : W)
      → api.update k s w ≡ (ok d, w')
      → (h : Held Spec) × (held w' k ≡ some h) × Answers s h.spec
  pub delete-ok :
      (k : ResourceKey) (w : W) (d : ResourceData Spec) (w' : W)
      → api.delete k w ≡ (ok d, w')
      → held w' k ≡ none

-- The calls on the cluster leave App Mesh as it is.
pub record ClientKeeps {W E Selector V : Type 0} (client : Client W E Selector) (view : W → V)
    : Type 0 where
  pub get_mesh-Keeps : (k : NamespacedName) → Keeps view (client.get_mesh k)
  pub get_virtual_node-Keeps : (k : NamespacedName) → Keeps view (client.get_virtual_node k)
  pub get_virtual_service-Keeps : (k : NamespacedName) → Keeps view (client.get_virtual_service k)
  pub get_backend_group-Keeps : (k : NamespacedName) → Keeps view (client.get_backend_group k)
  pub list_virtual_services-Keeps :
      (namespace : String) → Keeps view (client.list_virtual_services namespace)
  pub patch_virtual_node_status-Keeps :
      (old new : VirtualNode Selector) → Keeps view (client.patch_virtual_node_status old new)
  pub patch_virtual_router_status-Keeps :
      (old new : VirtualRouter) → Keeps view (client.patch_virtual_router_status old new)

module _ {W V : Type 0} (view : W → V) {E A : Type 0} where
  pub from_client-Keeps : (m : Exec W E A) → Keeps view m → Keeps view (λ w. from_client (m w))
  from_client-Keeps m p w = go (m w).0 (m w).1 (p w)
    where
      go : (r : Result E A) (v : W) → view v ≡ view w → view (from_client (r, v)).1 ≡ view w
      go (ok a) v e = e
      go (err x) v e = e
      go panic v e = e

  pub discard-Keeps : (m : Exec W E A) → Keeps view m → Keeps view (λ w. discard (m w))
  discard-Keeps m p w = go (m w).0 (m w).1 (p w)
    where
      go : (r : Result E A) (v : W) → view v ≡ view w → view (discard (r, v)).1 ≡ view w
      go (ok a) v e = e
      go (err x) v e = e
      go panic v e = e

  pub wrap-Keeps : (m : Exec W (Failure E) A) → Keeps view m → Keeps view (λ w. wrap (m w))
  wrap-Keeps m p w = go (m w).0 (m w).1 (p w)
    where
      go : (r : Result (Failure E) A) (v : W) → view v ≡ view w → view (wrap (r, v)).1 ≡ view w
      go (ok a) v e = e
      go (err x) v e = e
      go panic v e = e

  pub get-Keeps : (m : Exec W E A) → Keeps view m → Keeps view (λ w. wrap (from_client (m w)))
  get-Keeps m p = wrap-Keeps (λ w. from_client (m w)) (from_client-Keeps m p)

module _ {W E Selector V : Type 0} (client : Client W E Selector) (view : W → V)
    (keeps : ClientKeeps client view) where
  pub find_mesh_dependency-Keeps :
      (ref : Option MeshReference) → Keeps view (find_mesh_dependency client ref)
  unfolding find_mesh_dependency resolve_mesh_reference
  find_mesh_dependency-Keeps none = λ w. refl
  find_mesh_dependency-Keeps (some ref) =
      let key : NamespacedName = record { namespace = ""; name = ref.name } in
      wrap-Keeps view (resolve_mesh_reference client ref) (
        >>=-Keeps view (λ w. wrap (from_client (client.get_mesh key w))) _
          (get-Keeps view (client.get_mesh key) (keeps.get_mesh-Keeps key))
          (λ mesh. if-Keeps view (mesh.metadata.uid == ref.uid) _ _ (λ w. refl) (λ w. refl)))

-- A mesh that passes the check is active, and the check changes nothing.
pub active_mesh :
    {W E Selector : Type 0} (ms : Mesh Selector) (w : W) (u : Unit {0}) (w' : W)
    → validate_mesh_dependencies {E = E} ms w ≡ (ok u, w')
    → (is_active "MeshActive" ms.status.conditions ≡ true) × (w' ≡ w)
unfolding validate_mesh_dependencies
active_mesh {E = E} ms w u w' e = go (is_active "MeshActive" ms.status.conditions) e
  where
    go :
        (b : Bool)
        → Path
            (Result (Failure E) (Unit {0}) × _)
            ((if b then pure tt else throw (requeue_error (message mesh_is_not_active))) w)
            (ok u, w')
        → (b ≡ true) × (w' ≡ w)
    go true q = (refl, sym (ap (λ p. p.1) q))
    go false q = cc (ap (λ p. p.0) q)
