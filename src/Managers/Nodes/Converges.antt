-- ===== src/Managers/Nodes/Converges.antt =====
-- A virtual node from its custom resource to App Mesh and away again.
use aws_app_mesh_controller.Base.{
  ℕ, String, Bool, true, Option, Result, ok, ◌≡◌, ap, subst, is_some, string_eq,
}
use aws_app_mesh_controller.Base.Exec.{>>=-eq-ok}
use aws_app_mesh_controller.Base.Keeps.{Keeps, seen_after}
use aws_app_mesh_controller.Base.Dict.{Dict}
use aws_app_mesh_controller.Api.Shared.{VirtualServiceReference}
use aws_app_mesh_controller.Api.Mesh.{Mesh}
use aws_app_mesh_controller.Api.VirtualNode.{VirtualNode, VirtualNodeSpec}
use aws_app_mesh_controller.Api.VirtualService.{VirtualService}
use aws_app_mesh_controller.References.{AwsSdk, UnexpectedReference}
use aws_app_mesh_controller.References.Resolver.{Client}
use aws_app_mesh_controller.Managers.{ResourceKey, ResourceData, ResourceApi, find_mesh_dependency}
use aws_app_mesh_controller.Managers.Laws.{
  Held, ResourceApiLaws, ClientKeeps, find_mesh_dependency-Keeps,
}
use aws_app_mesh_controller.Managers.Applied.{Deleted, cleanup_found-Deleted}
use aws_app_mesh_controller.Managers.Nodes.{
  key, find_sdk_virtual_node, delete_sdk_virtual_node, cleanup,
}

module _ (sdk : AwsSdk) (account_id : String) (now : ℕ) {W E Selector Spec : Type 0}
    (client : Client W E Selector) (api : ResourceApi W E Spec) (equal : Spec → Spec → Bool)
    (enable_backend_groups : Bool)
    (convert : VirtualNodeSpec Selector
      → (VirtualServiceReference → Result UnexpectedReference String)
      → Result E Spec)
    (held : W → ResourceKey → Option (Held Spec)) {Answers : Spec → Spec → Type 0}
    (laws : ResourceApiLaws api held Answers) where
  named :
      (ms : Mesh Selector) (vn : VirtualNode Selector) (d : ResourceData Spec)
      → d.key.name ≡ vn.spec.aws_name
      → (v : W) → held v (record (key ms vn) { name = d.key.name }) ≡ held v (key ms vn)
  unfolding key
  named ms vn d e v = ap (λ (n : Option String). held v (record (key ms vn) { name = n })) e

  module _ (keeps : (k : ResourceKey) → ClientKeeps client (λ w. held w k)) where
    -- With clients that keep their laws: when a virtual node with an ARN is cleaned up, the mesh that
    -- it refers to was found, and App Mesh holds no node for it afterwards; except that a node of
    -- another account is as it was.
    pub node-Deleted :
        (vn : VirtualNode Selector) (w : W) (u : Unit {0}) (w' : W)
        → is_some vn.status.virtual_node_arn ≡ true
        → cleanup sdk account_id now client api equal enable_backend_groups convert vn w
          ≡ (ok u, w')
        → (ms : Mesh Selector) × ((v : W) × (find_mesh_dependency client vn.spec.mesh_ref w
              ≡ (ok ms, v)))
          × Deleted sdk account_id (held w (key ms vn)) (held w' (key ms vn))
    unfolding cleanup find_sdk_virtual_node delete_sdk_virtual_node key
    node-Deleted vn w u w' arn e =
        let (ms, w₁, e₁, f₁) = >>=-eq-ok (find_mesh_dependency client vn.spec.mesh_ref) _ e in
        let k = key ms vn in
        let view : W → Option (Held Spec) = λ x. held x k in
        let unchanged : view w₁ ≡ view w =
          seen_after view (find_mesh_dependency client vn.spec.mesh_ref)
            (find_mesh_dependency-Keeps client view (keeps k) vn.spec.mesh_ref) e₁ in
        (
          ms,
          (w₁, e₁),
          subst (λ b. Deleted sdk account_id b (view w')) unchanged
              (cleanup_found-Deleted api held laws k sdk account_id vn.status.virtual_node_arn
                (λ d. record k { name = d.key.name }) (λ d e _ v. named ms vn d e v) w₁ u w' arn
                f₁),
        )
