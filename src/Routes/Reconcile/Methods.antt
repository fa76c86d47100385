-- ===== src/Routes/Reconcile/Methods.antt =====
-- RoutesManager's update and cleanup, from the listing of the routes to the last call.
use aws_app_mesh_controller.Base.{
  String, Bool, true, Option, none, [], Result, ok, ◌≡◌, sym, ap, subst, is_some, string_eq,
}
use aws_app_mesh_controller.Base.Exec.{>>=-eq-ok}
use aws_app_mesh_controller.Base.Dict
use aws_app_mesh_controller.Base.Dict.{Dict}
use aws_app_mesh_controller.Base.Sets.{StringSets, StringSetLaws}
use aws_app_mesh_controller.Api.VirtualRouter.{Route, VirtualRouter}
use aws_app_mesh_controller.Api.Mesh.{Mesh}
use aws_app_mesh_controller.References.{AwsSdk, AwsSdkLaws}
use aws_app_mesh_controller.Routes.{route_by_name}
use aws_app_mesh_controller.Routes.Reconcile.{
  Address, RouteData, RouteApi, address_of, list_sdk_route_refs, reconcile, create, update, cleanup,
}
use aws_app_mesh_controller.Routes.Reconcile.Laws.{RouteApiLaws}
use aws_app_mesh_controller.Routes.Reconcile.Listing.{list_sdk_route_refs-ok}
use aws_app_mesh_controller.Routes.Reconcile.Steps.{Agrees}
use aws_app_mesh_controller.Routes.Reconcile.Converges.{reconcile-converges}

module _ (sdk : AwsSdk) (sdk_laws : AwsSdkLaws sdk) (sets : StringSets)
    (set_laws : StringSetLaws sets) {W E B Spec : Type 0} (api : RouteApi W E Spec)
    (view : W → String → Option Spec) (Mine : Address → Type 0)
    (laws : RouteApiLaws sdk api view Mine) (build : Route → Result B Spec)
    (equal : Spec → Spec → Bool) (equal-refl : (s : Spec) → equal s s ≡ true) where
  module _ {Selector : Type 0} (ms : Mesh Selector) (vr : VirtualRouter)
      (mine : Mine (address_of ms vr)) (w : W) where
    -- With sets and a client that keep their laws, and a reflexive `equal`: an update of the routes
    -- of a virtual router that succeeds leaves App Mesh with exactly the routes of its spec: under
    -- each name the spec built from the last route of that name, up to `equal`, and nothing under
    -- the other names.
    pub update-converges :
        (d : Dict String (RouteData Spec)) (w' : W)
        → update sdk sets api build equal ms vr w ≡ (ok d, w')
        → (n : String)
        → Agrees build equal (Dict.lookup n (route_by_name vr.spec.routes)) (view w' n)
    unfolding update
    update-converges d w' e =
        let (refs, v, e₁, e₂) =
          >>=-eq-ok (list_sdk_route_refs sdk sets api (address_of ms vr)) _ e in
        let (_, all_mine, listed) =
          list_sdk_route_refs-ok sdk sets api view Mine laws (address_of ms vr) w refs v mine e₁ in
        reconcile-converges sdk sdk_laws sets set_laws api view Mine laws build equal equal-refl
          (address_of ms vr) mine vr.spec.routes refs all_mine v d w' listed e₂

    -- The routes of a router that had none.
    pub create-converges :
        (d : Dict String (RouteData Spec)) (w' : W)
        → ((n : String) → view w n ≡ none)
        → create sdk sets api build equal ms vr w ≡ (ok d, w')
        → (n : String)
        → Agrees build equal (Dict.lookup n (route_by_name vr.spec.routes)) (view w' n)
    unfolding create
    create-converges d w' empty =
        reconcile-converges sdk sdk_laws sets set_laws api view Mine laws build equal equal-refl
          (address_of ms vr) mine vr.spec.routes [] tt w d w' (λ n. sym (ap is_some (empty n)))

    -- With sets and a client that keep their laws, and a reflexive `equal`: a cleanup of a virtual
    -- router that succeeds leaves App Mesh without routes for it.
    pub cleanup-empties :
        (u : Unit {0}) (w' : W)
        → cleanup sdk sets api build equal ms vr w ≡ (ok u, w')
        → (n : String) → view w' n ≡ none
    unfolding cleanup route_by_name Dict.index_by Dict.lookup
    cleanup-empties u w' e n =
        let (refs, v, e₁, e₂) =
          >>=-eq-ok (list_sdk_route_refs sdk sets api (address_of ms vr)) _ e in
        let (_, all_mine, listed) =
          list_sdk_route_refs-ok sdk sets api view Mine laws (address_of ms vr) w refs v mine e₁ in
        let (d, v', e₃, e₄) =
          >>=-eq-ok (reconcile sdk sets api build equal (address_of ms vr) [] refs) _ e₂ in
        let empty =
          reconcile-converges sdk sdk_laws sets set_laws api view Mine laws build equal equal-refl
            (address_of ms vr) mine [] refs all_mine v d v' listed e₃ n in
        subst (λ x. view x n ≡ none) (ap (λ p. p.1) e₄) empty
