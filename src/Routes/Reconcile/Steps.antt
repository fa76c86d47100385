-- ===== src/Routes/Reconcile/Steps.antt =====
-- One step of each loop of the reconciliation settles the entry of one name.
use aws_app_mesh_controller.Base.{
  String, Bool, true, false, Option, none, some, [], ◌∷◌, Result, ok, ◌≡◌, refl, sym, ap, ◌∙◌,
  subst, arith, if◌then◌else◌, string_eq,
}
use aws_app_mesh_controller.Base.Exec.{
  pure, >>=-eq-ok, Settles, SameView, Settles-one, Settles-after, settled_already,
}
use aws_app_mesh_controller.Base.Dict
use aws_app_mesh_controller.Base.Dict.{Dict}
use aws_app_mesh_controller.Base.Sets.{StringSets, StringSetLaws}
use aws_app_mesh_controller.Api.VirtualRouter.{Route}
use aws_app_mesh_controller.References.{AwsSdk, AwsSdkLaws}
use aws_app_mesh_controller.Routes.{RouteRef, RouteAndSdkRouteRef, route_ref_name}
use aws_app_mesh_controller.Routes.Reconcile.{
  Address, RouteData, RouteApi, RouteError, address_of_ref, from_api, from_build, find_sdk_route,
  found, delete_sdk_route, delete_step, create_sdk_route, update_sdk_route, create_step,
  update_step,
}
use aws_app_mesh_controller.Routes.Reconcile.Laws.{
  RouteApiLaws, from_api-ok, from_build-ok, found_route-ok,
}

-- What App Mesh should hold for a wanted route, or for none: a spec that `equal` does not tell from
-- the one that is built.
abbrev pub Agrees :
    {B Spec : Type 0}
    → (Route → Result B Spec)
    → (Spec → Spec → Bool)
    → Option Route
    → Option Spec
    → Type 0
Agrees build equal none o = o ≡ none
Agrees {B} {Spec} build equal (some r) o =
    (desired : Spec) × (actual : Spec) × (build r ≡ ok desired)
    × (o ≡ some actual)
    × (equal desired actual ≡ true)

module _ (sdk : AwsSdk) (sdk_laws : AwsSdkLaws sdk) (sets : StringSets)
    (set_laws : StringSetLaws sets) {W E B Spec : Type 0} (api : RouteApi W E Spec)
    (view : W → String → Option Spec) (Mine : Address → Type 0)
    (laws : RouteApiLaws sdk api view Mine) where
  found-ok :
      (ref : RouteRef) (o : Option (RouteData Spec)) (w : W) (d : RouteData Spec) (w' : W)
      → found sdk sets {B = B} api ref o w ≡ (ok d, w')
      → (o ≡ some d) × (w' ≡ w)
  unfolding found
  found-ok ref none w d w' e = cc (ap (λ p. p.0) e)
  found-ok ref (some x) w d w' e = ground arith

  -- The route that a step finds is the one that App Mesh holds under the reference's name.
  find_found :
      (ref : RouteRef) (w : W) (o : Option (RouteData Spec)) (v : W) (d : RouteData Spec) (v' : W)
      → Mine (address_of_ref ref)
      → find_sdk_route sdk sets {B = B} api ref w ≡ (ok o, v)
      → found sdk sets {B = B} api ref o v ≡ (ok d, v')
      → SameView view w v'
        × Mine d.address
        × (d.route_name ≡ ref.route_name)
        × (view w (sdk.string_value ref.route_name) ≡ some d.spec)
  unfolding find_sdk_route
  find_found ref w o v d v' mine e₁ e₂ =
      let (e, f) = found-ok ref o v d v' e₂ in
      let described =
        found_route-ok api.is_not_found _ d v
          (e₁ ∙ ap (λ (x : Option (RouteData Spec)). (ok x, v)) e) in
      let (same, mine', named, held) = laws.describe-ok _ _ w d v mine described in
      ((λ n. ap (λ x. view x n) f ∙ same n), mine', named, held)

  pub delete_step-Settles :
      (u : Unit {0}) (ref : RouteRef) (w : W) (u' : Unit {0}) (w' : W)
      → Mine (address_of_ref ref)
      → delete_step sdk sets {B = B} api u ref w ≡ (ok u', w')
      → Settles view (λ _ o. o ≡ none) (route_ref_name sdk ref ∷ []) w w'
  unfolding delete_step delete_sdk_route route_ref_name
  delete_step-Settles u ref w u' w' mine e =
      let (o, v, e₁, e₂) = >>=-eq-ok (find_sdk_route sdk sets api ref) _ e in
      let (d, v', e₃, e₄) = >>=-eq-ok (found sdk sets api ref o) _ e₂ in
      let (same, mine', named, held) = find_found ref w o v d v' mine e₁ e₃ in
      let deleted = laws.delete-ok d.address d.route_name v' u' w' mine' (from_api-ok _ u' w' e₄) in
      Settles-after view (λ _ o. o ≡ none) (route_ref_name sdk ref ∷ []) w v' w' same
        (subst (λ n. Settles view (λ _ o. o ≡ none) (sdk.string_value n ∷ []) v' w') named deleted)

  module _ (build : Route → Result B Spec) (equal : Spec → Spec → Bool)
      (equal-refl : (s : Spec) → equal s s ≡ true) where
    abbrev Holds : Route → String → Option Spec → Type 0
    Holds r _ o = Agrees build equal (some r) o

    abbrev Wanted : Dict String Route → String → Option Spec → Type 0
    Wanted by_name n o = Agrees build equal (Dict.lookup n by_name) o

    Wanted-of_Holds :
        (by_name : Dict String Route) (r : Route) (w w' : W)
        → Dict.lookup r.name by_name ≡ some r
        → Settles view (Holds r) (r.name ∷ []) w w'
        → Settles view (Wanted by_name) (r.name ∷ []) w w'
    Wanted-of_Holds by_name r w w' key =
        Settles-one view (Holds r) (Wanted by_name) r.name w w'
          (λ o h. subst (λ x. Agrees build equal x o) (sym key) h)

    create_sdk_route-Settles :
        (a : Address) (r : Route) (w : W) (d : RouteData Spec) (w' : W)
        → Mine a
        → create_sdk_route sdk sets api build equal a r w ≡ (ok d, w')
        → Settles view (Holds r) (r.name ∷ []) w w'
    unfolding create_sdk_route
    create_sdk_route-Settles a r w d w' mine e =
        let (s, v, e₁, e₂) = >>=-eq-ok (from_build (build r)) _ e in
        let (built, same) = from_build-ok (build r) s w v e₁ in
        let created = laws.create-ok a (some r.name) s v d w' mine (from_api-ok _ d w' e₂) in
        let named =
          subst (λ n. Settles view (λ _ o. o ≡ some s) (n ∷ []) v w')
            (sdk_laws.string_value-some r.name) created in
        Settles-one view (λ _ o. o ≡ some s) (Holds r) r.name w w'
          (λ o h. (s, s, built, h, equal-refl s))
          (subst (λ x. Settles view (λ _ o. o ≡ some s) (r.name ∷ []) x w') same named)

    pub create_step-Settles :
        (by_name : Dict String Route) (a : Address) (m : Dict String (RouteData Spec)) (r : Route)
        (w : W) (m' : Dict String (RouteData Spec)) (w' : W)
        → Mine a
        → Dict.lookup r.name by_name ≡ some r
        → create_step sdk sets api build equal a m r w ≡ (ok m', w')
        → Settles view (Wanted by_name) (r.name ∷ []) w w'
    unfolding create_step
    create_step-Settles by_name a m r w m' w' mine key e =
        let (d, v, e₁, e₂) = >>=-eq-ok (create_sdk_route sdk sets api build equal a r) _ e in
        let settled = create_sdk_route-Settles a r w d v mine e₁ in
        let last : v ≡ w' = ap (λ p. p.1) e₂ in
        Wanted-of_Holds by_name r w w' key
          (subst (λ x. Settles view (Holds r) (r.name ∷ []) w x) last settled)

    update_sdk_route-Settles :
        (r : Route) (d : RouteData Spec) (w : W) (d' : RouteData Spec) (w' : W)
        → Mine d.address
        → view w (sdk.string_value d.route_name) ≡ some d.spec
        → update_sdk_route sdk sets api build equal d r w ≡ (ok d', w')
        → Settles view (Holds r) (sdk.string_value d.route_name ∷ []) w w'
    unfolding update_sdk_route
    update_sdk_route-Settles r d w d' w' mine held e =
        let (s, v, e₁, e₂) = >>=-eq-ok (from_build (build r)) _ e in
        let (built, same) = from_build-ok (build r) s w v e₁ in
        decide s built (equal s d.spec) refl (
          subst
            (λ x.
              (if equal s d.spec then pure {E = RouteError E B} d else λ w.
              from_api {B = B} (api.update_route d.address d.route_name s w))
                x
              ≡ (ok d', w'))
            same e₂)
      where
        name : String
        name = sdk.string_value d.route_name

        decide :
            (s : Spec)
            → build r ≡ ok s
            → (b : Bool) → equal s d.spec ≡ b
            → (if b then pure d else λ w.
                  from_api {B = B} (api.update_route d.address d.route_name s w))
                w
              ≡ (ok d', w')
            → Settles view (Holds r) (name ∷ []) w w'
        decide s built true same e =
            subst (λ x. Settles view (Holds r) (name ∷ []) w x) (ap (λ p. p.1) e)
              (settled_already view (Holds r) name w (s, d.spec, built, held, same))
        decide s built false differs e =
            Settles-one view (λ _ o. o ≡ some s) (Holds r) name w w'
              (λ o h. (s, s, built, h, equal-refl s))
              (laws.update-ok d.address d.route_name s w d' w' mine (from_api-ok _ d' w' e))

    pub update_step-Settles :
        (by_name : Dict String Route) (m : Dict String (RouteData Spec)) (p : RouteAndSdkRouteRef)
        (w : W) (m' : Dict String (RouteData Spec)) (w' : W)
        → Mine (address_of_ref p.sdk_route_ref)
        → Dict.lookup p.route.name by_name ≡ some p.route
        → route_ref_name sdk p.sdk_route_ref ≡ p.route.name
        → update_step sdk sets api build equal m p w ≡ (ok m', w')
        → Settles view (Wanted by_name) (p.route.name ∷ []) w w'
    unfolding update_step route_ref_name
    update_step-Settles by_name m p w m' w' mine key named e =
        let (o, v, e₁, e₂) = >>=-eq-ok (find_sdk_route sdk sets api p.sdk_route_ref) _ e in
        let (d, v', e₃, e₄) = >>=-eq-ok (found sdk sets api p.sdk_route_ref o) _ e₂ in
        let (d', v'', e₅, e₆) =
          >>=-eq-ok (update_sdk_route sdk sets api build equal d p.route) _ e₄ in
        let (same, mine', kept, held) = find_found p.sdk_route_ref w o v d v' mine e₁ e₃ in
        let name = ap sdk.string_value kept ∙ named in
        let held' : view v' (sdk.string_value d.route_name) ≡ some d.spec =
          same (sdk.string_value d.route_name)
          ∙ (ap (λ n. view w (sdk.string_value n)) kept ∙ held) in
        let settled = update_sdk_route-Settles p.route d v' d' v'' mine' held' e₅ in
        Wanted-of_Holds by_name p.route w w' key (
          Settles-after view (Holds p.route) (p.route.name ∷ []) w v' w' same (
            subst (λ x. Settles view (Holds p.route) (p.route.name ∷ []) v' x) (ap (λ q. q.1) e₆)
              (subst (λ n. Settles view (Holds p.route) (n ∷ []) v' v'') name settled)))
