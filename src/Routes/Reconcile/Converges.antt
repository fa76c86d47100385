-- ===== src/Routes/Reconcile/Converges.antt =====
-- After a reconciliation that succeeds, App Mesh holds exactly the routes that are wanted.
use aws_app_mesh_controller.Base.{
  String, Bool, true, false, not, ◌&&◌, Option, none, some, List, [], contains, is_some, All,
  Result, ok, ◌≡◌, refl, sym, ap, ◌∙◌, subst, if◌then◌else◌, string_eq, All-filter_map,
}
use aws_app_mesh_controller.Base.Exec.{>>=-eq-ok, Settles, for_each, for_each-Settles}
use aws_app_mesh_controller.Base.Dict
use aws_app_mesh_controller.Base.Dict.{Dict}
use aws_app_mesh_controller.Base.Sets.{StringSets, StringSetLaws}
use aws_app_mesh_controller.Api.VirtualRouter.{Route}
use aws_app_mesh_controller.References.{AwsSdk, AwsSdkLaws}
use aws_app_mesh_controller.Routes.{
  RouteRef, RouteAndSdkRouteRef, route_by_name, route_ref_name, sdk_route_ref_by_name,
  match_routes_against_sdk_route_refs,
}
use aws_app_mesh_controller.Routes.Match.{
  names, ref_names, pair_names, route_by_name-IsKeyed, ref_by_name-IsKeyed, has_route,
  match_routes-names, pair_of-eq-some,
}
use aws_app_mesh_controller.Routes.Reconcile.{
  Address, RouteData, RouteApi, address_of_ref, delete_step, create_step, update_step, reconcile,
}
use aws_app_mesh_controller.Routes.Reconcile.Laws.{RouteApiLaws}
use aws_app_mesh_controller.Routes.Reconcile.Steps.{
  Agrees, delete_step-Settles, create_step-Settles, update_step-Settles,
}

-- The three loops leave each name as it is wanted.
combine :
    {V : Type 0} (P : Option V → Type 0) (wanted actual : Bool) (v₀ v₁ v₂ v₃ : Option V)
    → (if wanted && not actual then P v₁ else (v₁ ≡ v₀))
    → (if wanted && actual then P v₂ else (v₂ ≡ v₁))
    → (if actual && not wanted then (v₃ ≡ none) else (v₃ ≡ v₂))
    → (wanted ≡ false → P none)
    → actual ≡ is_some v₀
    → P v₃
combine P true true v₀ v₁ v₂ v₃ c u d nothing seen = subst P (sym d) u
combine P true false v₀ v₁ v₂ v₃ c u d nothing seen = subst P (sym (d ∙ u)) c
combine P false true v₀ v₁ v₂ v₃ c u d nothing seen = subst P (sym d) (nothing refl)
combine P false false none v₁ v₂ v₃ c u d nothing seen = subst P (sym (d ∙ (u ∙ c))) (nothing refl)
combine P false false (some v) v₁ v₂ v₃ c u d nothing seen = cc

settled_if :
    {V : Type 0} (t c : Bool) (P : V → Type 0) (x y : V)
    → c ≡ t
    → (if c then P y else (y ≡ x))
    → (if t then P y else (y ≡ x))
settled_if t c P x y e h = subst (λ b. if b then P y else (y ≡ x)) e h

module _ (sdk : AwsSdk) (sdk_laws : AwsSdkLaws sdk) (sets : StringSets)
    (set_laws : StringSetLaws sets) {W E B Spec : Type 0} (api : RouteApi W E Spec)
    (view : W → String → Option Spec) (Mine : Address → Type 0)
    (laws : RouteApiLaws sdk api view Mine) (build : Route → Result B Spec)
    (equal : Spec → Spec → Bool) (equal-refl : (s : Spec) → equal s s ≡ true) where
  -- What App Mesh holds under a name is what the routes want there.
  abbrev WantedAt : List Route → String → Option Spec → Type 0
  WantedAt routes n o = Agrees build equal (Dict.lookup n (route_by_name routes)) o

  abbrev MineRef : RouteRef → Type 0
  MineRef r = Mine (address_of_ref r)

  nothing_wanted :
      (routes : List Route) (n : String)
      → contains (names routes) n ≡ false
      → WantedAt routes n none
  nothing_wanted routes n e = go (Dict.lookup n (route_by_name routes)) (has_route routes n ∙ e)
    where
      go : (o : Option Route) → is_some o ≡ false → Agrees build equal o none
      go none q = refl
      go (some r) q = cc

  abbrev Keeps : Dict String Route → Route → Type 0
  Keeps by_name r = Dict.lookup r.name by_name ≡ some r

  abbrev Pairs : Dict String Route → RouteAndSdkRouteRef → Type 0
  Pairs by_name p =
      MineRef p.sdk_route_ref
      × Keeps by_name p.route
      × (route_ref_name sdk p.sdk_route_ref ≡ p.route.name)

  Keeps-of :
      (routes : List Route) (k : String) (r : Route)
      → Dict.lookup k (route_by_name routes) ≡ some r
      → Keeps (route_by_name routes) r
  Keeps-of routes k r e =
      subst (λ j. Dict.lookup j (route_by_name routes) ≡ some r)
        (sym ((route_by_name-IsKeyed routes).key_of k r e)) e

  mine_of :
      (refs : List RouteRef) (k : String) (r : RouteRef)
      → All MineRef refs
      → Dict.lookup k (sdk_route_ref_by_name sdk refs) ≡ some r
      → MineRef r
  unfolding sdk_route_ref_by_name
  mine_of refs k r = Dict.index_by-All MineRef (route_ref_name sdk) refs k r

  created_Keep :
      (routes : List Route) (refs : List RouteRef)
      → All
          (Keeps (route_by_name routes))
          (match_routes_against_sdk_route_refs sdk sets routes refs).unmatched_routes
  unfolding match_routes_against_sdk_route_refs Dict.values_of
  created_Keep routes refs = All-filter_map (Keeps (route_by_name routes)) _ _ (Keeps-of routes)

  matched_Pairs :
      (routes : List Route) (refs : List RouteRef)
      → All MineRef refs
      → All
          (Pairs (route_by_name routes))
          (match_routes_against_sdk_route_refs sdk sets routes refs).matched
  unfolding match_routes_against_sdk_route_refs
  matched_Pairs routes refs mine = All-filter_map (Pairs (route_by_name routes)) _ _ (λ k p e.
      let (wanted, actual) = pair_of-eq-some sdk sets set_laws _ _ p e in
      (
        mine_of refs k p.sdk_route_ref mine actual,
        Keeps-of routes k p.route wanted,
        (ref_by_name-IsKeyed sdk refs).key_of k p.sdk_route_ref actual
            ∙ sym ((route_by_name-IsKeyed routes).key_of k p.route wanted),
      ))

  deleted_Mine :
      (routes : List Route) (refs : List RouteRef)
      → All MineRef refs
      → All MineRef
          (match_routes_against_sdk_route_refs sdk sets routes refs).unmatched_sdk_route_refs
  unfolding match_routes_against_sdk_route_refs Dict.values_of
  deleted_Mine routes refs mine = All-filter_map MineRef _ _ (λ k r. mine_of refs k r mine)

  module _ (a : Address) (mine : Mine a) (routes : List Route) (refs : List RouteRef)
      (all_mine : All MineRef refs) where
    created-Settles :
        (d : Dict String (RouteData Spec)) (w : W) (d' : Dict String (RouteData Spec)) (w' : W)
        → for_each
            (create_step sdk sets api build equal a)
            d
            (match_routes_against_sdk_route_refs sdk sets routes refs).unmatched_routes
            w
          ≡ (ok d', w')
        → Settles view
            (WantedAt routes)
            (names (match_routes_against_sdk_route_refs sdk sets routes refs).unmatched_routes)
            w
            w'
    created-Settles d w d' w' =
        for_each-Settles view (WantedAt routes) (λ r. r.name) (Keeps (route_by_name routes)) _
          (λ m r v m' v' keep.
            create_step-Settles sdk sdk_laws sets set_laws api view Mine laws build equal equal-refl
              (route_by_name routes) a m r v m' v' mine keep)
          d _ w d' w' (created_Keep routes refs)

    updated-Settles :
        (d : Dict String (RouteData Spec)) (w : W) (d' : Dict String (RouteData Spec)) (w' : W)
        → for_each
            (update_step sdk sets api build equal)
            d
            (match_routes_against_sdk_route_refs sdk sets routes refs).matched
            w
          ≡ (ok d', w')
        → Settles view
            (WantedAt routes)
            (pair_names (match_routes_against_sdk_route_refs sdk sets routes refs).matched)
            w
            w'
    updated-Settles d w d' w' =
        for_each-Settles view (WantedAt routes) (λ p. p.route.name) (Pairs (route_by_name routes)) _
          (λ m p v m' v' q.
            update_step-Settles sdk sdk_laws sets set_laws api view Mine laws build equal equal-refl
              (route_by_name routes) m p v m' v' q.0 q.1 q.2)
          d _ w d' w' (matched_Pairs routes refs all_mine)

    deleted-Settles :
        (u : Unit {0}) (w : W) (u' : Unit {0}) (w' : W)
        → for_each
            (delete_step sdk sets {B = B} api)
            u
            (match_routes_against_sdk_route_refs sdk sets routes refs).unmatched_sdk_route_refs
            w
          ≡ (ok u', w')
        → Settles view
            (λ _ o. o ≡ none)
            (ref_names sdk
              (match_routes_against_sdk_route_refs sdk sets routes refs).unmatched_sdk_route_refs)
            w
            w'
    deleted-Settles u w u' w' =
        for_each-Settles view (λ _ o. o ≡ none) (route_ref_name sdk) MineRef _
          (delete_step-Settles sdk sdk_laws sets set_laws api view Mine laws) u _ w u' w'
          (deleted_Mine routes refs all_mine)

    -- When the references of the router list the names that App Mesh holds, a reconciliation that
    -- succeeds leaves it with exactly the wanted routes: under each name the spec built from the
    -- last route of that name, up to `equal`, and nothing under the other names.
    pub reconcile-converges :
        (w : W) (d : Dict String (RouteData Spec)) (w' : W)
        → ((n : String) → contains (ref_names sdk refs) n ≡ is_some (view w n))
        → reconcile sdk sets api build equal a routes refs w ≡ (ok d, w')
        → (n : String) → Agrees build equal (Dict.lookup n (route_by_name routes)) (view w' n)
    unfolding reconcile
    reconcile-converges w d w' listed e n =
        let m = match_routes_against_sdk_route_refs sdk sets routes refs in
        let (d₁, w₁, e₁, f₁) =
          >>=-eq-ok (for_each (create_step sdk sets api build equal a) [] m.unmatched_routes) _ e in
        let (d₂, w₂, e₂, f₂) =
          >>=-eq-ok (for_each (update_step sdk sets api build equal) d₁ m.matched) _ f₁ in
        let (u, w₃, e₃, f₃) =
          >>=-eq-ok (for_each (delete_step sdk sets api) tt m.unmatched_sdk_route_refs) _ f₂ in
        let (only_wanted, both, only_actual) = match_routes-names sdk sets set_laws routes refs n in
        let done : Agrees build equal (Dict.lookup n (route_by_name routes)) (view w₃ n) =
          combine (WantedAt routes n) (contains (names routes) n) (contains (ref_names sdk refs) n)
            (view w n) (view w₁ n) (view w₂ n) (view w₃ n)
            (settled_if _ _ (WantedAt routes n) _ _ only_wanted (created-Settles [] w d₁ w₁ e₁ n))
            (settled_if _ _ (WantedAt routes n) _ _ both (updated-Settles d₁ w₁ d₂ w₂ e₂ n))
            (settled_if _ _ (λ o. o ≡ none) _ _ only_actual (deleted-Settles tt w₂ u w₃ e₃ n))
            (nothing_wanted routes n) (listed n) in
        subst (λ v. Agrees build equal (Dict.lookup n (route_by_name routes)) (view v n))
          (ap (λ p. p.1) f₃) done
