-- ===== src/Managers/Routers/Cleanup.antt =====
-- The end of a virtual router.
use aws_app_mesh_controller.Base.{
  ℕ, String, Bool, true, false, Option, none, some, List, [], Result, ok, ◌≡◌, refl, sym, ap, ◌∙◌,
  subst, is_some, string_eq, inl, inr,
}
use aws_app_mesh_controller.Base.Exec.{Exec, >>=-eq-ok}
use aws_app_mesh_controller.Base.Keeps.{Keeps, seen_after, if-Keeps}
use aws_app_mesh_controller.Base.Sets.{StringSets, StringSetLaws}
use aws_app_mesh_controller.Api.Shared.{VirtualNodeReference}
use aws_app_mesh_controller.Api.Mesh.{Mesh}
use aws_app_mesh_controller.Api.VirtualRouter.{Route, VirtualRouter, VirtualRouterSpec}
use aws_app_mesh_controller.Runtime.{Failure}
use aws_app_mesh_controller.References.{AwsSdk, AwsSdkLaws, UnexpectedReference}
use aws_app_mesh_controller.References.Resolver.{Client}
use aws_app_mesh_controller.Routes.{SdkListener}
use aws_app_mesh_controller.Routes.Reconcile
use aws_app_mesh_controller.Routes.Reconcile.{Address, RouteData, RouteApi, RouteError, address_of}
use aws_app_mesh_controller.Routes.Reconcile.Keeps.{cleanup-Keeps}
use aws_app_mesh_controller.Routes.Reconcile.Methods.{cleanup-empties}
use aws_app_mesh_controller.Managers.{
  ResourceKey, ResourceData, ResourceApi, delete_sdk, is_owned, discard, find_sdk,
  find_mesh_dependency,
}
use aws_app_mesh_controller.Managers.Laws.{
  Held, from_client-Keeps, discard-Keeps, find_mesh_dependency-Keeps,
}
use aws_app_mesh_controller.Managers.Applied.{
  Deleted, find_sdk-Found, delete_sdk-Deleted, cleaned-up,
}
use aws_app_mesh_controller.Managers.Routers.{
  key, build_sdk_route_spec, find_sdk_virtual_router, delete_sdk_virtual_router, from_routes,
  clean_up_found, cleanup,
}
use aws_app_mesh_controller.Managers.Routers.Steps.{RouterLaws, from_routes-Keeps, from_routes-ok}

module _ (sdk : AwsSdk) (sdk_laws : AwsSdkLaws sdk) (account_id : String) (now : ℕ)
    (sets : StringSets) (set_laws : StringSetLaws sets) {W E Selector Spec RouteSpec : Type 0}
    (client : Client W E Selector) (api : ResourceApi W E Spec) (equal : Spec → Spec → Bool)
    (convert : VirtualRouterSpec → Result E Spec) (listeners_of : Spec → List SdkListener)
    (route_api : RouteApi W E RouteSpec) (equal_route : RouteSpec → RouteSpec → Bool)
    (convert_route : Route
      → (VirtualNodeReference → Result UnexpectedReference String)
      → Result E RouteSpec)
    (held : W → ResourceKey → Option (Held Spec)) (routes : Address → W → String → Option RouteSpec)
    (Same : Address → Address → Type 0)
    (laws : RouterLaws sdk client api route_api held routes Same)
    (equal_route-refl : (s : RouteSpec) → equal_route s s ≡ true) where
  delete_router-Keeps :
      (d : ResourceData Spec) (a : Address) (n : String)
      → Keeps
          (λ w. routes a w n)
          (delete_sdk_virtual_router sdk account_id now sets client api equal convert listeners_of
            route_api equal_route convert_route d)
  unfolding delete_sdk_virtual_router delete_sdk
  delete_router-Keeps d a n =
      if-Keeps (λ w. routes a w n) (is_owned api sdk account_id d) _ _
        (from_client-Keeps (λ w. routes a w n) (λ w. discard (api.delete d.key w))
          (discard-Keeps (λ w. routes a w n) (api.delete d.key)
            (laws.delete-Keeps_routes d.key a n)))
        (λ w. refl)

  -- With sets and clients that keep their laws, and a reflexive `equal_route`: when a virtual router
  -- with an ARN is cleaned up, the mesh that it refers to was found; afterwards App Mesh holds no
  -- such router, except that a router of another account is as it was; and if there was a
  -- router, whosever it is, App Mesh holds no route of it.
  pub router-Deleted :
      (vr : VirtualRouter) (w : W) (u : Unit {0}) (w' : W)
      → is_some vr.status.virtual_router_arn ≡ true
      → cleanup sdk account_id now sets client api equal convert listeners_of route_api equal_route
          convert_route vr w
        ≡ (ok u, w')
      → (ms : Mesh Selector) × ((v : W) × (find_mesh_dependency client vr.spec.mesh_ref w
            ≡ (ok ms, v)))
        × Deleted sdk account_id (held w (key ms vr)) (held w' (key ms vr))
        × (is_some (held w (key ms vr)) ≡ true
            → (n : String) → routes (address_of ms vr) w' n ≡ none)
  unfolding cleanup find_sdk_virtual_router clean_up_found delete_sdk_virtual_router
  router-Deleted vr w u w' arn e =
      let (ms, w₁, e₁, f₁) = >>=-eq-ok (find_mesh_dependency client vr.spec.mesh_ref) _ e in
      let k = key ms vr in
      let a = address_of ms vr in
      let view : W → Option (Held Spec) = λ x. held x k in
      let clean =
        clean_up_found sdk account_id now sets client api equal convert listeners_of route_api
          equal_route convert_route ms vr in
      let unchanged : view w₁ ≡ view w =
        seen_after view (find_mesh_dependency client vr.spec.mesh_ref)
          (find_mesh_dependency-Keeps client view (laws.client-Keeps k) vr.spec.mesh_ref) e₁ in
      let build = build_sdk_route_spec sdk {Selector = Selector} convert_route vr [] in
      let emptied : Exec W (Failure E) (Unit {0}) =
        λ x. from_routes (Reconcile.cleanup sdk sets route_api build equal_route ms vr x) in
      elim (cleaned-up vr.status.virtual_router_arn clean (find_sdk api k w₁) u w' arn f₁) [
        | inl absent ↦
            let (same, found) = find_sdk-Found api held laws.api_laws k w₁ none w' absent in
            let nothing : view w ≡ none = sym unchanged ∙ sym same ∙ found in
            (
              ms,
              (w₁, e₁),
              subst (λ b. Deleted sdk account_id b (view w')) (sym nothing) found,
              λ there n.
                  let contra : Path Bool false true = sym (ap is_some nothing) ∙ there in cc contra,
            )
        | inr (d, v, is, cleaned) ↦
            let (same, found) = find_sdk-Found api held laws.api_laws k w₁ (some d) v is in
            let (x, v₁, c₁, c₂) = >>=-eq-ok emptied _ cleaned in
            let kept : view v₁ ≡ view v =
              seen_after view emptied
                (from_routes-Keeps view _ (
                  cleanup-Keeps sdk sets E route_api view (laws.routes-Keep k) build equal_route ms
                    vr))
                c₁ in
            (
              ms,
              (w₁, e₁),
              subst (λ b. Deleted sdk account_id b (view w')) (kept ∙ same ∙ unchanged)
                  (delete_sdk-Deleted api held laws.api_laws k sdk account_id d.key d u v₁ w'
                    found.2 (kept ∙ found.0) c₂),
              λ _ n.
                  seen_after (λ y. routes a y n)
                    (delete_sdk_virtual_router sdk account_id now sets client api equal convert
                      listeners_of route_api equal_route convert_route d)
                    (delete_router-Keeps d a n) c₂
                  ∙ cleanup-empties sdk sdk_laws sets set_laws route_api (routes a) (Same a)
                      (laws.route_laws a) build equal_route equal_route-refl ms vr (laws.same a) v x
                      v₁ (from_routes-ok _ x v₁ c₁) n,
            )
      ]
