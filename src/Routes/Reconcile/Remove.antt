-- ===== src/Routes/Reconcile/Remove.antt =====
-- RoutesManager's remove takes away the tainted routes and no others.
use aws_app_mesh_controller.Base.{
  String, Bool, not, ◌&&◌, ◌||◌, Option, none, List, [], ◌∷◌, contains, is_some, All, ok, ◌≡◌, ap,
  ◌∙◌, subst, if◌then◌else◌, string_eq, inl, inr, All-filter_map,
}
use aws_app_mesh_controller.Base.Exec.{
  >>=-eq-ok, Settles, for_each-Settles, Settles-after, settled_already,
}
use aws_app_mesh_controller.Base.Dict
use aws_app_mesh_controller.Base.Sets.{StringSets, StringSetLaws}
use aws_app_mesh_controller.Api.VirtualRouter.{Route, VirtualRouter}
use aws_app_mesh_controller.Api.Mesh.{Mesh}
use aws_app_mesh_controller.References.{AwsSdk}
use aws_app_mesh_controller.Routes.{
  RouteRef, SdkListener, route_by_name, route_ref_name, sdk_route_ref_by_name, sdk_listener_by_port,
  tainted_sdk_route_refs,
}
use aws_app_mesh_controller.Routes.Match.{names, ref_names}
use aws_app_mesh_controller.Routes.Tainted.{contains-tainted_sdk_route_refs, tainted_at}
use aws_app_mesh_controller.Routes.Reconcile.{
  Address, RouteApi, address_of_ref, address_of, list_sdk_route_refs, delete_sdk_route_by_ref,
  remove_step, remove,
}
use aws_app_mesh_controller.Routes.Reconcile.Laws.{RouteApiLaws, unless_missing-ok}
use aws_app_mesh_controller.Routes.Reconcile.Listing.{list_sdk_route_refs-ok}

-- What stands under a name after the tainted routes went.
abbrev pub Gone : {V : Type 0} → Bool → Option V → Option V → Type 0
Gone tainted before after = if tainted then (after ≡ none) else (after ≡ before)

module _ (sdk : AwsSdk) (sets : StringSets) (Mine : Address → Type 0) where
  tainted_Mine :
      (routes : List Route) (listeners : List SdkListener) (refs : List RouteRef)
      → All (λ r. Mine (address_of_ref r)) refs
      → All (λ r. Mine (address_of_ref r)) (tainted_sdk_route_refs sdk sets routes listeners refs)
  unfolding tainted_sdk_route_refs sdk_route_ref_by_name Dict.values_of
  tainted_Mine routes listeners refs mine =
      All-filter_map (λ r. Mine (address_of_ref r)) _ _
        (λ k r. Dict.index_by-All (λ r. Mine (address_of_ref r)) (route_ref_name sdk) refs k r mine)

module _ (sdk : AwsSdk) (sets : StringSets) (set_laws : StringSetLaws sets) {W E B Spec : Type 0}
    (api : RouteApi W E Spec) (view : W → String → Option Spec) (Mine : Address → Type 0)
    (laws : RouteApiLaws sdk api view Mine) where
  remove_step-Settles :
      (u : Unit {0}) (ref : RouteRef) (w : W) (u' : Unit {0}) (w' : W)
      → Mine (address_of_ref ref)
      → remove_step sdk sets {B = B} api u ref w ≡ (ok u', w')
      → Settles view (λ _ o. o ≡ none) (route_ref_name sdk ref ∷ []) w w'
  unfolding remove_step delete_sdk_route_by_ref route_ref_name
  remove_step-Settles u ref w u' w' mine e =
      elim (unless_missing-ok api.is_not_found tt _ u' w' e) [
        | inl done ↦ laws.delete-ok (address_of_ref ref) ref.route_name w u' w' mine done
        | inr (x, failed, missing) ↦
            let (same, absent) =
              laws.delete-missing (address_of_ref ref) ref.route_name w x w' mine failed missing in
            let name = sdk.string_value ref.route_name in
            Settles-after view (λ _ o. o ≡ none) (name ∷ []) w w' w' same
              (settled_already view (λ _ o. o ≡ none) name w' (same name ∙ absent))
      ]

  module _ {Selector : Type 0} (ms : Mesh Selector) (vr : VirtualRouter)
      (mine : Mine (address_of ms vr)) (listeners : List SdkListener) where
    -- With sets and a client that keep their laws: when the removal succeeds, App Mesh holds nothing
    -- under the names that it held and that are not wanted or tainted by the listeners' protocols,
    -- and under the other names what it held before.
    pub remove-ok :
        (w : W) (u : Unit {0}) (w' : W)
        → remove sdk sets {B = B} api ms vr listeners w ≡ (ok u, w')
        → (n : String)
        → Gone
            (is_some (view w n)
              && (not (contains (names vr.spec.routes) n)
                  || tainted_at sdk
                      (sdk_listener_by_port sdk listeners [])
                      (Dict.lookup n (route_by_name vr.spec.routes))))
            (view w n)
            (view w' n)
    unfolding remove
    remove-ok w u w' e n =
        let (refs, v, e₁, e₂) =
          >>=-eq-ok (list_sdk_route_refs sdk sets api (address_of ms vr)) _ e in
        let (same, all_mine, listed) =
          list_sdk_route_refs-ok sdk sets api view Mine laws (address_of ms vr) w refs v mine e₁ in
        let tainted = tainted_sdk_route_refs sdk sets vr.spec.routes listeners refs in
        let settled =
          for_each-Settles view (λ _ o. o ≡ none) (route_ref_name sdk)
            (λ r. Mine (address_of_ref r)) _ remove_step-Settles tt tainted v u w'
            (tainted_Mine sdk sets Mine vr.spec.routes listeners refs all_mine) e₂ in
        subst (λ b. Gone b (view w n) (view w' n))
          (contains-tainted_sdk_route_refs sdk sets set_laws vr.spec.routes listeners refs n
            ∙ ap
                (λ b.
                  b
                  && (not (contains (names vr.spec.routes) n)
                      || tainted_at sdk (sdk_listener_by_port sdk listeners [])
                          (Dict.lookup n (route_by_name vr.spec.routes))))
                (listed n ∙ ap is_some (same n)))
          (Settles-after view (λ _ o. o ≡ none) (ref_names sdk tainted) w v w' same settled n)
