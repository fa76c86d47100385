-- ===== src/Managers/Routers/Converges.antt =====
-- A virtual router and its routes from the custom resource to App Mesh and away again.
use aws_app_mesh_controller.Base.{
  ℕ, String, Bool, true, Option, List, Result, ok, ◌≡◌, sym, ap, ◌∙◌, subst, string_eq,
}
use aws_app_mesh_controller.Base.Exec.{>>=-eq-ok}
use aws_app_mesh_controller.Base.Keeps.{seen_after}
use aws_app_mesh_controller.Base.Dict
use aws_app_mesh_controller.Base.Dict.{Dict}
use aws_app_mesh_controller.Base.Sets.{StringSets, StringSetLaws}
use aws_app_mesh_controller.Api.Meta.{NamespacedName}
use aws_app_mesh_controller.Api.Shared.{VirtualNodeReference}
use aws_app_mesh_controller.Api.Mesh.{Mesh}
use aws_app_mesh_controller.Api.VirtualNode.{VirtualNode}
use aws_app_mesh_controller.Api.VirtualRouter.{Route, VirtualRouter, VirtualRouterSpec}
use aws_app_mesh_controller.Conditions.{is_active}
use aws_app_mesh_controller.References.{AwsSdk, AwsSdkLaws, UnexpectedReference}
use aws_app_mesh_controller.References.Resolver.{Client}
use aws_app_mesh_controller.Routes.{SdkListener, route_by_name, extract_virtual_node_references}
use aws_app_mesh_controller.Routes.Reconcile.{Address, RouteApi, address_of}
use aws_app_mesh_controller.Routes.Reconcile.Steps.{Agrees}
use aws_app_mesh_controller.Managers.{
  ResourceKey, ResourceApi, find_mesh_dependency, validate_mesh_dependencies,
}
use aws_app_mesh_controller.Managers.Laws.{Held, find_mesh_dependency-Keeps, active_mesh}
use aws_app_mesh_controller.Managers.Applied.{Applied, find_sdk-Found}
use aws_app_mesh_controller.Managers.Dependencies.{
  find_virtual_nodes, validate_all, validate_virtual_node,
}
use aws_app_mesh_controller.Managers.Dependencies.Untouched.{
  find_virtual_nodes-Keeps, validate_virtual_nodes-Keeps,
}
use aws_app_mesh_controller.Managers.Routers.{
  key, build_sdk_virtual_router_spec, build_sdk_route_spec, find_sdk_virtual_router,
  update_crd_virtual_router, create_or_update, reconcile,
}
use aws_app_mesh_controller.Managers.Routers.Steps.{
  RouterLaws, create_or_update-Done, update_crd-Keeps,
}

module _ (sdk : AwsSdk) (sdk_laws : AwsSdkLaws sdk) (account_id : String) (now : ℕ)
    (sets : StringSets) (set_laws : StringSetLaws sets) {W E Selector Spec RouteSpec : Type 0}
    (client : Client W E Selector) (api : ResourceApi W E Spec) (equal : Spec → Spec → Bool)
    (convert : VirtualRouterSpec → Result E Spec) (listeners_of : Spec → List SdkListener)
    (route_api : RouteApi W E RouteSpec) (equal_route : RouteSpec → RouteSpec → Bool)
    (convert_route : Route
      → (VirtualNodeReference → Result UnexpectedReference String)
      → Result E RouteSpec)
    (held : W → ResourceKey → Option (Held Spec)) (routes : Address → W → String → Option RouteSpec)
    (Same : Address → Address → Type 0)
    (laws : RouterLaws sdk client api route_api held routes Same)
    (equal_route-refl : (s : RouteSpec) → equal_route s s ≡ true) where
  -- With sets and clients that keep their laws, and reflexive `equal` and `equal_route`: when a
  -- virtual router is reconciled, the mesh that it refers to was found and is active, and the
  -- virtual nodes of its routes were found; afterwards App Mesh holds for the router the spec built
  -- from it, up to `equal`, except that a router of another account is as it was; and it holds, whosever
  -- the router is, exactly the routes of its spec: under each name the route built from the last
  -- route of that name, up to `equal_route`, and nothing under the other names.
  pub router-Applied :
      (equal-refl : (s : Spec) → equal s s ≡ true) (vr : VirtualRouter) (w : W) (u : Unit {0})
      (w' : W)
      → reconcile sdk account_id now sets client api equal convert listeners_of route_api
          equal_route convert_route vr w
        ≡ (ok u, w')
      → (ms : Mesh Selector) × (nodes : Dict NamespacedName (VirtualNode Selector)) × (s : Spec)
        × ((v : W) × (find_mesh_dependency client vr.spec.mesh_ref w ≡ (ok ms, v)))
        × (is_active "MeshActive" ms.status.conditions ≡ true)
        × ((v v' : W) × (find_virtual_nodes client vr.metadata
                (extract_virtual_node_references vr.spec.routes)
                v
              ≡ (ok nodes, v')))
        × (build_sdk_virtual_router_spec convert vr ≡ ok s)
        × Applied sdk account_id equal s (held w (key ms vr)) (held w' (key ms vr))
        × ((n : String)
            → Agrees
                (build_sdk_route_spec sdk convert_route vr nodes)
                equal_route
                (Dict.lookup n (route_by_name vr.spec.routes))
                (routes (address_of ms vr) w' n))
  unfolding reconcile find_sdk_virtual_router
  router-Applied equal-refl vr w u w' e =
      let refs = extract_virtual_node_references vr.spec.routes in
      let (ms, w₁, e₁, f₁) = >>=-eq-ok (find_mesh_dependency client vr.spec.mesh_ref) _ e in
      let (_, w₂, e₂, f₂) = >>=-eq-ok (validate_mesh_dependencies ms) _ f₁ in
      let (nodes, w₃, e₃, f₃) = >>=-eq-ok (find_virtual_nodes client vr.metadata refs) _ f₂ in
      let (_, w₄, e₄, f₄) = >>=-eq-ok (validate_all ms (validate_virtual_node ms) nodes) _ f₃ in
      let (o, w₅, e₅, f₅) =
        >>=-eq-ok
          (find_sdk_virtual_router sdk account_id now sets client api equal convert listeners_of
            route_api equal_route convert_route ms vr)
          _ f₄ in
      let (held_now, w₆, e₆, f₆) =
        >>=-eq-ok
          (create_or_update sdk account_id now sets client api equal convert listeners_of route_api
            equal_route convert_route ms vr nodes o)
          _ f₅ in
      let k = key ms vr in
      let a = address_of ms vr in
      let view : W → Option (Held Spec) = λ x. held x k in
      let (active, idle) = active_mesh ms w₁ tt w₂ e₂ in
      let (same, found) = find_sdk-Found api held laws.api_laws k w₄ o w₅ e₅ in
      let unchanged : view w₅ ≡ view w =
        same
        ∙ seen_after view (validate_all ms (validate_virtual_node ms) nodes)
            (validate_virtual_nodes-Keeps E view ms nodes) e₄
        ∙ seen_after view (find_virtual_nodes client vr.metadata refs)
            (find_virtual_nodes-Keeps client view (laws.client-Keeps k) vr.metadata refs) e₃
        ∙ ap view idle
        ∙ seen_after view (find_mesh_dependency client vr.spec.mesh_ref)
            (find_mesh_dependency-Keeps client view (laws.client-Keeps k) vr.spec.mesh_ref) e₁ in
      let ((s, built, applied), routed) =
        create_or_update-Done sdk sdk_laws account_id now sets set_laws client api equal convert
          listeners_of route_api equal_route convert_route held routes Same laws equal_route-refl
          equal-refl ms vr nodes o w₅ held_now.0 held_now.1 w₆ found e₆ in
      let crd =
        update_crd_virtual_router sdk account_id now sets client api equal convert listeners_of
          route_api equal_route convert_route vr held_now.0 held_now.1 in
      let patched : view w' ≡ view w₆ =
        seen_after view crd
          (update_crd-Keeps sdk sdk_laws account_id now sets set_laws client api equal convert
            listeners_of route_api equal_route convert_route held routes Same laws equal_route-refl
            view (laws.client-Keeps k) vr held_now.0 held_now.1)
          f₆ in
      (
        ms,
        nodes,
        s,
        (w₁, e₁),
        active,
        (w₂, w₃, e₃),
        built,
        subst (λ b. Applied sdk account_id equal s b (view w')) unchanged
            (subst (λ x. Applied sdk account_id equal s (view w₅) x) (sym patched) applied),
        λ n.
            subst
              (Agrees (build_sdk_route_spec sdk convert_route vr nodes) equal_route
                (Dict.lookup n (route_by_name vr.spec.routes)))
              (sym (
                seen_after (λ x. routes a x n) crd
                  (update_crd-Keeps sdk sdk_laws account_id now sets set_laws client api equal
                    convert listeners_of route_api equal_route convert_route held routes Same laws
                    equal_route-refl (λ x. routes a x n) (laws.client-Keeps_routes a n) vr
                    held_now.0 held_now.1)
                  f₆))
              (routed n),
      )
