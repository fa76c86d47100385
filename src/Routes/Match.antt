-- ===== src/Routes/Match.antt =====
-- matchRoutesAgainstSDKRouteRefs splits the names of both sides into three disjoint lots.
use aws_app_mesh_controller.Base.{
  String, not, ◌&&◌, Option, none, some, List, map, contains, is_some, ◌≡◌, refl, ◌∙◌, arith,
  string_eq, Keyed, contains-filter_map,
}
use aws_app_mesh_controller.Base.Dict
use aws_app_mesh_controller.Base.Dict.{Dict, IsKeyed}
use aws_app_mesh_controller.Base.Sets.{StringSets, StringSetLaws}
use aws_app_mesh_controller.Api.VirtualRouter.{Route}
use aws_app_mesh_controller.References.{AwsSdk}
use aws_app_mesh_controller.Routes.{
  RouteRef, RouteAndSdkRouteRef, route_by_name, route_ref_name, sdk_route_ref_by_name, pair_of,
  match_routes_against_sdk_route_refs,
}

abbrev pub names : List Route → List String
names = map (λ r. r.name)

abbrev pub ref_names : AwsSdk → List RouteRef → List String
ref_names sdk = map (route_ref_name sdk)

abbrev pub pair_names : List RouteAndSdkRouteRef → List String
pair_names = map (λ p. p.route.name)

pub route_by_name-IsKeyed : (rs : List Route) → IsKeyed (λ (r : Route). r.name) (route_by_name rs)
unfolding route_by_name
route_by_name-IsKeyed rs = Dict.index_by-IsKeyed (λ r. r.name) rs

pub has_route :
    (rs : List Route) (n : String)
    → is_some (Dict.lookup n (route_by_name rs)) ≡ contains (names rs) n
unfolding route_by_name
has_route rs n = Dict.contains-index_by (λ r. r.name) rs n

pub ref_by_name-IsKeyed :
    (sdk : AwsSdk) (rs : List RouteRef)
    → IsKeyed (route_ref_name sdk) (sdk_route_ref_by_name sdk rs)
unfolding sdk_route_ref_by_name
ref_by_name-IsKeyed sdk rs = Dict.index_by-IsKeyed (route_ref_name sdk) rs

pub has_ref :
    (sdk : AwsSdk) (rs : List RouteRef) (n : String)
    → is_some (Dict.lookup n (sdk_route_ref_by_name sdk rs)) ≡ contains (ref_names sdk rs) n
unfolding sdk_route_ref_by_name
has_ref sdk rs n = Dict.contains-index_by (route_ref_name sdk) rs n

module _ (sdk : AwsSdk) (sets : StringSets) (laws : StringSetLaws sets) where
  module _ (routes : List Route) (refs : List RouteRef) (n : String) where
    pub route_keys :
        contains (sets.list (sets.key_set (Dict.keys (route_by_name routes)))) n
        ≡ contains (names routes) n
    route_keys =
        laws.contains-key_set _ n
        ∙ (Dict.contains-keys (route_by_name routes) n ∙ has_route routes n)

    pub ref_keys :
        contains (sets.list (sets.key_set (Dict.keys (sdk_route_ref_by_name sdk refs)))) n
        ≡ contains (ref_names sdk refs) n
    ref_keys =
        laws.contains-key_set _ n
        ∙ (Dict.contains-keys (sdk_route_ref_by_name sdk refs) n ∙ has_ref sdk refs n)

  pub pair_of-eq-some :
      (o : Option Route) (o' : Option RouteRef) (p : RouteAndSdkRouteRef)
      → pair_of o o' ≡ some p
      → (o ≡ some p.route) × (o' ≡ some p.sdk_route_ref)
  unfolding pair_of
  pair_of-eq-some (some r) (some s) p e = ground arith
  pair_of-eq-some none _ p e = cc
  pair_of-eq-some (some r) none p e = cc

  pairs-Keyed :
      (routes : List Route) (refs : List RouteRef)
      → Keyed
          (λ (p : RouteAndSdkRouteRef). p.route.name)
          (λ (n : String).
            pair_of
              (Dict.lookup n (route_by_name routes))
              (Dict.lookup n (sdk_route_ref_by_name sdk refs)))
  pairs-Keyed routes refs = record {
    key_of = λ k p e. (route_by_name-IsKeyed routes).key_of k p.route (pair_of-eq-some _ _ p e).0;
  }

  is_some-pair_of :
      (o : Option Route) (o' : Option RouteRef) → is_some (pair_of o o') ≡ (is_some o && is_some o')
  unfolding pair_of
  is_some-pair_of (some r) (some s) = refl
  is_some-pair_of none _ = refl
  is_some-pair_of (some r) none = refl

  -- With sets that keep their laws: a name is unmatched on the routes' side exactly if only a route has it, matched if both sides
  -- have it, and unmatched on App Mesh's side if only a route reference has it.
  pub match_routes-names :
      (routes : List Route) (refs : List RouteRef) (n : String)
      → let m = match_routes_against_sdk_route_refs sdk sets routes refs in
        let wanted = contains (names routes) n in
        let actual = contains (ref_names sdk refs) n in
        (contains (names m.unmatched_routes) n ≡ (wanted && not actual))
        × (contains (pair_names m.matched) n ≡ (wanted && actual))
        × (contains (ref_names sdk m.unmatched_sdk_route_refs) n ≡ (actual && not wanted))
  unfolding match_routes_against_sdk_route_refs
  match_routes-names routes refs n =
      let by_name = route_by_name routes in
      let by_ref = sdk_route_ref_by_name sdk refs in
      let route_set = sets.key_set (Dict.keys by_name) in
      let ref_set = sets.key_set (Dict.keys by_ref) in
      let wanted = route_keys routes refs n in
      let actual = ref_keys routes refs n in
      (
        ground (
          arith,
          Dict.contains-values_of (λ (r : Route). r.name) by_name
              (sets.list (sets.difference route_set ref_set)) n (route_by_name-IsKeyed routes),
          laws.contains-difference route_set ref_set n,
          wanted,
          actual,
          has_route routes n,
        ),
        ground (
          arith,
          contains-filter_map (λ (p : RouteAndSdkRouteRef). p.route.name)
              (λ (k : String). pair_of (Dict.lookup k by_name) (Dict.lookup k by_ref))
              (sets.list (sets.intersection route_set ref_set)) n (pairs-Keyed routes refs),
          laws.contains-intersection route_set ref_set n,
          is_some-pair_of (Dict.lookup n by_name) (Dict.lookup n by_ref),
          wanted,
          actual,
          has_route routes n,
          has_ref sdk refs n,
        ),
        ground (
          arith,
          Dict.contains-values_of (route_ref_name sdk) by_ref
              (sets.list (sets.difference ref_set route_set)) n (ref_by_name-IsKeyed sdk refs),
          laws.contains-difference ref_set route_set n,
          wanted,
          actual,
          has_ref sdk refs n,
        ),
      )
