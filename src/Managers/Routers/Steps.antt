-- ===== src/Managers/Routers/Steps.antt =====
-- The creation and the update of a virtual router with its routes.
use aws_app_mesh_controller.Base.{
  ℕ, String, Bool, true, Option, none, some, List, Result, ok, err, panic, ◌≡◌, refl, sym, ap, ◌∙◌,
  subst, string_eq, arith,
}
use aws_app_mesh_controller.Base.Exec.{Exec, >>=-eq-ok}
use aws_app_mesh_controller.Base.Keeps.{Keeps, seen_after, if-Keeps}
use aws_app_mesh_controller.Base.Dict
use aws_app_mesh_controller.Base.Dict.{Dict}
use aws_app_mesh_controller.Base.Sets.{StringSets, StringSetLaws}
use aws_app_mesh_controller.Api.Meta.{NamespacedName}
use aws_app_mesh_controller.Api.Shared.{VirtualNodeReference}
use aws_app_mesh_controller.Api.Mesh.{Mesh}
use aws_app_mesh_controller.Api.VirtualNode.{VirtualNode}
use aws_app_mesh_controller.Api.VirtualRouter.{Route, VirtualRouter, VirtualRouterSpec}
use aws_app_mesh_controller.Runtime.{Failure}
use aws_app_mesh_controller.References.{AwsSdk, AwsSdkLaws, UnexpectedReference}
use aws_app_mesh_controller.References.Resolver.{Client}
use aws_app_mesh_controller.Routes.{SdkListener, route_by_name}
use aws_app_mesh_controller.Routes.Reconcile
use aws_app_mesh_controller.Routes.Reconcile.{Address, RouteData, RouteApi, RouteError, address_of}
use aws_app_mesh_controller.Routes.Reconcile.Laws.{RouteApiLaws}
use aws_app_mesh_controller.Routes.Reconcile.Keeps.{
  RouteApiKeeps, remove-Keeps, create-Keeps, update-Keeps,
}
use aws_app_mesh_controller.Routes.Reconcile.Steps.{Agrees}
use aws_app_mesh_controller.Routes.Reconcile.Methods.{create-converges, update-converges}
use aws_app_mesh_controller.Managers.{ResourceKey, ResourceData, ResourceApi}
use aws_app_mesh_controller.Managers.Laws.{Held, ResourceApiLaws, ClientKeeps, from_client-Keeps}
use aws_app_mesh_controller.Managers.Applied.{
  Applied, Settled, Settled-Applied, Found, create_sdk-called, create_sdk-Settled,
  update_sdk-Settled,
}
use aws_app_mesh_controller.Managers.Routers.{
  key, build_sdk_virtual_router_spec, build_sdk_route_spec, create_sdk_virtual_router,
  update_sdk_virtual_router, from_routes, virtual_router_needs_update, virtual_router_with_status,
  update_crd_virtual_router, create_or_update,
}

pub from_routes-ok :
    {W E A : Type 0} (p : Result (RouteError E E) A × W) (a : A) (w : W)
    → from_routes p ≡ (ok a, w)
    → p ≡ (ok a, w)
from_routes-ok (ok b, v) a w e = ground arith
from_routes-ok (err x, v) a w e = cc (ap (λ p. p.0) e)
from_routes-ok (panic, v) a w e = cc (ap (λ p. p.0) e)

pub from_routes-Keeps :
    {W V E A : Type 0} (view : W → V) (m : Exec W (RouteError E E) A)
    → Keeps view m
    → Keeps view (λ w. from_routes (m w))
from_routes-Keeps {W = W} {E = E} {A = A} view m p w = go (m w).0 (m w).1 (p w)
  where
    go :
        (r : Result (RouteError E E) A) (v : W)
        → view v ≡ view w
        → view (from_routes (r, v)).1 ≡ view w
    go (ok a) v e = e
    go (err x) v e = e
    go panic v e = e

-- The router that the calls on routes are about.
pub address_of_key : ResourceKey → Address
address_of_key k = record {
  mesh_name = k.mesh_name;
  mesh_owner = k.mesh_owner;
  virtual_router_name = k.name;
}

-- App Mesh as a store of routers with their routes: `routes a` is what it holds of the routes of the
-- router with the address `a`, and `Same a` the addresses of that router. A new router has no
-- routes, a router is deleted without changing routes (with routes it is not deleted), and the calls
-- on routes leave the routers as they are.
pub record RouterLaws (sdk : AwsSdk) {W E Selector Spec RouteSpec : Type 0}
    (client : Client W E Selector) (api : ResourceApi W E Spec) (route_api : RouteApi W E RouteSpec)
    (held : W → ResourceKey → Option (Held Spec)) (routes : Address → W → String → Option RouteSpec)
    (Same : Address → Address → Type 0) : Type 0 where
  pub same : (a : Address) → Same a a
  pub api_laws : ResourceApiLaws api held (λ s t. t ≡ s)
  pub route_laws : (a : Address) → RouteApiLaws sdk route_api (routes a) (Same a)
  pub routes-Keep : (k : ResourceKey) → RouteApiKeeps route_api (λ w. held w k)
  pub client-Keeps : (k : ResourceKey) → ClientKeeps client (λ w. held w k)
  pub client-Keeps_routes : (a : Address) (n : String) → ClientKeeps client (λ w. routes a w n)
  pub new_router-empty :
      (k : ResourceKey) (s : Spec) (w : W) (d : ResourceData Spec) (w' : W)
      → api.create k s w ≡ (ok d, w')
      → (n : String) → routes (address_of_key k) w' n ≡ none
  pub delete-Keeps_routes :
      (k : ResourceKey) (a : Address) (n : String) → Keeps (λ w. routes a w n) (api.delete k)

module _ (sdk : AwsSdk) (sdk_laws : AwsSdkLaws sdk) (account_id : String) (now : ℕ)
    (sets : StringSets) (set_laws : StringSetLaws sets) {W E Selector Spec RouteSpec : Type 0}
    (client : Client W E Selector) (api : ResourceApi W E Spec) (equal : Spec → Spec → Bool)
    (convert : VirtualRouterSpec → Result E Spec) (listeners_of : Spec → List SdkListener)
    (route_api : RouteApi W E RouteSpec) (equal_route : RouteSpec → RouteSpec → Bool)
    (convert_route : Route
      → (VirtualNodeReference → Result UnexpectedReference String)
      → Result E RouteSpec)
    (held : W → ResourceKey → Option (Held Spec)) (routes : Address → W → String → Option RouteSpec)
    (Same : Address → Address → Type 0)
    (laws : RouterLaws sdk client api route_api held routes Same)
    (equal_route-refl : (s : RouteSpec) → equal_route s s ≡ true) where
  -- The routes of the spec, and no others.
  abbrev pub Routed :
      Mesh Selector → VirtualRouter → Dict NamespacedName (VirtualNode Selector) → W → Type 0
  Routed ms vr nodes w =
      (n : String)
      → Agrees (build_sdk_route_spec sdk convert_route vr nodes) equal_route
          (Dict.lookup n (route_by_name vr.spec.routes)) (routes (address_of ms vr) w n)

  module _ (equal-refl : (s : Spec) → equal s s ≡ true) (ms : Mesh Selector) (vr : VirtualRouter)
      (nodes : Dict NamespacedName (VirtualNode Selector)) where
    abbrev pub Done : W → W → Type 0
    Done w w' =
        ((s : Spec) × (build_sdk_virtual_router_spec convert vr ≡ ok s)
          × Applied sdk account_id equal s (held w (key ms vr)) (held w' (key ms vr)))
        × Routed ms vr nodes w'

    -- App Mesh holds the very spec that was sent.
    exact :
        (s : Spec) (before after : Option (Held Spec))
        → Settled sdk account_id (λ x y. y ≡ x) equal s before after
        → Applied sdk account_id equal s before after
    exact s before after =
        Settled-Applied sdk account_id (λ x y. y ≡ x) equal s before after
          (λ t is. ap (equal s) is ∙ equal-refl s)

    created-Done :
        (w : W) (d : ResourceData Spec) (by_name : Dict String (RouteData RouteSpec)) (w' : W)
        → held w (key ms vr) ≡ none
        → create_or_update sdk account_id now sets client api equal convert listeners_of route_api
            equal_route convert_route ms vr nodes none w
          ≡ (ok (d, by_name), w')
        → Done w w'
    unfolding create_or_update create_sdk_virtual_router key address_of address_of_key
    created-Done w d by_name w' absent e =
        let k = key ms vr in
        let a = address_of ms vr in
        let build = build_sdk_route_spec sdk convert_route vr nodes in
        let routed : Exec W (Failure E) (Dict String (RouteData RouteSpec)) =
          λ x. from_routes (Reconcile.create sdk sets route_api build equal_route ms vr x) in
        let (c, w₁, e₁, f₁) =
          >>=-eq-ok
            (create_sdk_virtual_router sdk account_id now sets client api equal convert listeners_of
              route_api equal_route convert_route ms vr)
            _ e in
        let (m, w₂, e₂, f₂) = >>=-eq-ok routed _ f₁ in
        let (_, v, called) =
          create_sdk-called api held laws.api_laws k (build_sdk_virtual_router_spec convert vr) w c
            w₁ e₁ in
        let empty = laws.new_router-empty k _ v c w₁ called in
        let (s, is, settled) =
          create_sdk-Settled api held laws.api_laws k equal sdk account_id
            (build_sdk_virtual_router_spec convert vr) w c w₁ absent e₁ in
        let view : W → Option (Held Spec) = λ x. held x k in
        let kept : view w₂ ≡ view w₁ =
          seen_after view routed
            (from_routes-Keeps view _
              (create-Keeps sdk sets E route_api view (laws.routes-Keep k) build equal_route ms vr))
            e₂ in
        let converged =
          create-converges sdk sdk_laws sets set_laws route_api (routes a) (Same a)
            (laws.route_laws a) build equal_route equal_route-refl ms vr (laws.same a) w₁ m w₂ empty
            (from_routes-ok _ m w₂ e₂) in
        subst (Done w) (ap (λ p. p.1) f₂) (
          (
            s,
            is,
            subst (Applied sdk account_id equal s (view w)) (sym kept)
                (exact s (view w) (view w₁) settled),
          ),
          converged,
        )

    updated-Done :
        (c : ResourceData Spec) (w : W) (d : ResourceData Spec)
        (by_name : Dict String (RouteData RouteSpec)) (w' : W)
        → Found held (key ms vr) w (some c)
        → create_or_update sdk account_id now sets client api equal convert listeners_of route_api
            equal_route convert_route ms vr nodes
            (some c)
            w
          ≡ (ok (d, by_name), w')
        → Done w w'
    unfolding create_or_update update_sdk_virtual_router
    updated-Done c w d by_name w' there e =
        let k = key ms vr in
        let a = address_of ms vr in
        let build = build_sdk_route_spec sdk convert_route vr nodes in
        let view : W → Option (Held Spec) = λ x. held x k in
        let removed : Exec W (Failure E) (Unit {0}) =
          λ x. from_routes (Reconcile.remove sdk sets route_api ms vr (listeners_of c.spec) x) in
        let routed : Exec W (Failure E) (Dict String (RouteData RouteSpec)) =
          λ x. from_routes (Reconcile.update sdk sets route_api build equal_route ms vr x) in
        let (u, w₁, e₁, f₁) = >>=-eq-ok removed _ e in
        let (d', w₂, e₂, f₂) =
          >>=-eq-ok
            (update_sdk_virtual_router sdk account_id now sets client api equal convert listeners_of
              route_api equal_route convert_route c vr)
            _ f₁ in
        let (m, w₃, e₃, f₃) = >>=-eq-ok routed _ f₂ in
        let before : view w₁ ≡ view w =
          seen_after view removed
            (from_routes-Keeps view _ (
              remove-Keeps sdk sets E route_api view (laws.routes-Keep k) ms vr
                (listeners_of c.spec)))
            e₁ in
        let after : view w₃ ≡ view w₂ =
          seen_after view routed
            (from_routes-Keeps view _
              (update-Keeps sdk sets E route_api view (laws.routes-Keep k) build equal_route ms vr))
            e₃ in
        let (s, is, settled) =
          update_sdk-Settled api held laws.api_laws k equal sdk account_id
            (build_sdk_virtual_router_spec convert vr) c.key c d' w₁ w₂ there.2 (before ∙ there.0)
            e₂ in
        let converged =
          update-converges sdk sdk_laws sets set_laws route_api (routes a) (Same a)
            (laws.route_laws a) build equal_route equal_route-refl ms vr (laws.same a) w₂ m w₃
            (from_routes-ok _ m w₃ e₃) in
        subst (Done w) (ap (λ p. p.1) f₃) (
          (
            s,
            is,
            subst (λ b. Applied sdk account_id equal s b (view w₃)) before
                (subst (Applied sdk account_id equal s (view w₁)) (sym after)
                  (exact s (view w₁) (view w₂) settled)),
          ),
          converged,
        )

    pub create_or_update-Done :
        (o : Option (ResourceData Spec)) (w : W) (d : ResourceData Spec)
        (by_name : Dict String (RouteData RouteSpec)) (w' : W)
        → Found held (key ms vr) w o
        → create_or_update sdk account_id now sets client api equal convert listeners_of route_api
            equal_route convert_route ms vr nodes o w
          ≡ (ok (d, by_name), w')
        → Done w w'
    create_or_update-Done none w d by_name w' found e = created-Done w d by_name w' found e
    create_or_update-Done (some c) w d by_name w' found e = updated-Done c w d by_name w' found e

  module _ {V : Type 0} (view : W → V) (keeps : ClientKeeps client view) where
    pub update_crd-Keeps :
        (vr : VirtualRouter) (d : ResourceData Spec) (by_name : Dict String (RouteData RouteSpec))
        → Keeps view (
            update_crd_virtual_router sdk account_id now sets client api equal convert listeners_of
              route_api equal_route convert_route vr d by_name)
    unfolding update_crd_virtual_router
    update_crd-Keeps vr d by_name =
        if-Keeps view (virtual_router_needs_update sdk now vr d by_name) _ _
          (from_client-Keeps view _ (
            keeps.patch_virtual_router_status-Keeps vr
              (virtual_router_with_status sdk now vr d by_name)))
          (λ w. refl)
