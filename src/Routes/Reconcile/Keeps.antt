-- ===== src/Routes/Reconcile/Keeps.antt =====
-- The routes manager changes nothing but what the calls on routes change.
use aws_app_mesh_controller.Base.{
  String, Bool, true, false, Option, none, some, List, [], Result, ok, err, panic, ◌≡◌, refl,
}
use mathlib.Core.Bool.{cond}
use aws_app_mesh_controller.Base.Exec.{Exec, pure, for_each}
use aws_app_mesh_controller.Base.Keeps.{Keeps, >>=-Keeps, if-Keeps, for_each-Keeps}
use aws_app_mesh_controller.Base.Dict.{Dict}
use aws_app_mesh_controller.Base.Sets.{StringSets}
use aws_app_mesh_controller.Api.Mesh.{Mesh}
use aws_app_mesh_controller.Api.VirtualRouter.{Route, VirtualRouter}
use aws_app_mesh_controller.References.{AwsSdk}
use aws_app_mesh_controller.Routes.{
  RouteRef, RouteAndSdkRouteRef, SdkListener, match_routes_against_sdk_route_refs,
  tainted_sdk_route_refs,
}
use aws_app_mesh_controller.Routes.Reconcile.{
  Address, RouteData, RouteApi, RouteError, api_error, address_of_ref, address_of, concat_pages,
  from_api, from_build, some_route, unless_missing, list_sdk_route_refs, find_sdk_route,
  delete_sdk_route, delete_sdk_route_by_ref, found, delete_step, remove_step, remove,
  create_sdk_route, update_sdk_route, create_step, update_step, reconcile, create, update, cleanup,
}

pub record RouteApiKeeps {W E Spec V : Type 0} (api : RouteApi W E Spec) (view : W → V)
    : Type 0 where
  pub list-Keeps : (a : Address) → Keeps view (api.list_routes a)
  pub describe-Keeps : (a : Address) (n : Option String) → Keeps view (api.describe_route a n)
  pub create-Keeps :
      (a : Address) (n : Option String) (s : Spec) → Keeps view (api.create_route a n s)
  pub update-Keeps :
      (a : Address) (n : Option String) (s : Spec) → Keeps view (api.update_route a n s)
  pub delete-Keeps : (a : Address) (n : Option String) → Keeps view (api.delete_route a n)

module _ (B : Type 0) {W V : Type 0} (view : W → V) {E A : Type 0} where
  from_api-Keeps : (m : Exec W E A) → Keeps view m → Keeps view (λ w. from_api {B = B} (m w))
  from_api-Keeps m p w = go (m w).0 (m w).1 (p w)
    where
      go : (r : Result E A) (v : W) → view v ≡ view w → view (from_api {B = B} (r, v)).1 ≡ view w
      go (ok a) v e = e
      go (err x) v e = e
      go panic v e = e

  unless_missing-Keeps :
      (missing : E → Bool) (a : A) (m : Exec W E A)
      → Keeps view m
      → Keeps view (λ w. unless_missing {B = B} missing a (m w))
  unless_missing-Keeps missing a m p w = go (m w).0 (m w).1 (p w)
    where
      either :
          (b : Bool) (x : E) (v : W)
          → view v ≡ view w
          → view (cond {A = Result (RouteError E B) A × W} b (ok a, v) (err (api_error x), v)).1
            ≡ view w
      either true x v e = e
      either false x v e = e

      go :
          (r : Result E A) (v : W)
          → view v ≡ view w
          → view (unless_missing {B = B} missing a (r, v)).1 ≡ view w
      go (ok b) v e = e
      go (err x) v e = either (missing x) x v e
      go panic v e = e

some_route-Keeps :
    {W V E A : Type 0} (view : W → V) (m : Exec W E A)
    → Keeps view m
    → Keeps view (λ w. some_route (m w))
some_route-Keeps {W = W} {E = E} {A = A} view m p w = go (m w).0 (m w).1 (p w)
  where
    go : (r : Result E A) (v : W) → view v ≡ view w → view (some_route (r, v)).1 ≡ view w
    go (ok a) v e = e
    go (err x) v e = e
    go panic v e = e

from_build-Keeps :
    (E : Type 0) {W V B Spec : Type 0} (view : W → V) (r : Result B Spec)
    → Keeps view (from_build {E = E} r)
from_build-Keeps E view (ok s) = λ w. refl
from_build-Keeps E view (err e) = λ w. refl
from_build-Keeps E view panic = λ w. refl

module _ (sdk : AwsSdk) (sets : StringSets) (B : Type 0) {W E Spec V : Type 0}
    (api : RouteApi W E Spec) (view : W → V) (keeps : RouteApiKeeps api view) where
  list-Keeps : (a : Address) → Keeps view (list_sdk_route_refs sdk sets {B = B} api a)
  unfolding list_sdk_route_refs
  list-Keeps a =
      >>=-Keeps view (λ w. from_api {B = B} (api.list_routes a w))
        (λ pages. pure (concat_pages pages))
        (from_api-Keeps B view (api.list_routes a) (keeps.list-Keeps a)) (λ pages w. refl)

  find-Keeps : (ref : RouteRef) → Keeps view (find_sdk_route sdk sets {B = B} api ref)
  unfolding find_sdk_route
  find-Keeps ref = unless_missing-Keeps B view api.is_not_found none _ (
      some_route-Keeps view (api.describe_route (address_of_ref ref) ref.route_name)
        (keeps.describe-Keeps (address_of_ref ref) ref.route_name))

  found-Keeps :
      (ref : RouteRef) (o : Option (RouteData Spec)) → Keeps view (found sdk sets {B = B} api ref o)
  unfolding found
  found-Keeps ref none = λ w. refl
  found-Keeps ref (some d) = λ w. refl

  delete_step-Keeps :
      (u : Unit {0}) (ref : RouteRef) → Keeps view (delete_step sdk sets {B = B} api u ref)
  unfolding delete_step delete_sdk_route
  delete_step-Keeps u ref =
      >>=-Keeps view (find_sdk_route sdk sets api ref) _ (find-Keeps ref) (λ o.
        >>=-Keeps view (found sdk sets api ref o) _ (found-Keeps ref o) (λ d.
          from_api-Keeps B view (api.delete_route d.address d.route_name)
            (keeps.delete-Keeps d.address d.route_name)))

  pub remove-Keeps :
      {Selector : Type 0} (ms : Mesh Selector) (vr : VirtualRouter) (listeners : List SdkListener)
      → Keeps view (remove sdk sets {B = B} api ms vr listeners)
  unfolding remove remove_step delete_sdk_route_by_ref
  remove-Keeps ms vr listeners =
      >>=-Keeps view (list_sdk_route_refs sdk sets api (address_of ms vr)) _
        (list-Keeps (address_of ms vr))
        (λ refs.
          for_each-Keeps view _
            (λ u ref.
              unless_missing-Keeps B view api.is_not_found tt
                (api.delete_route (address_of_ref ref) ref.route_name)
                (keeps.delete-Keeps (address_of_ref ref) ref.route_name))
            tt (tainted_sdk_route_refs sdk sets vr.spec.routes listeners refs))

  module _ (build : Route → Result B Spec) (equal : Spec → Spec → Bool) where
    create_step-Keeps :
        (a : Address) (d : Dict String (RouteData Spec)) (r : Route)
        → Keeps view (create_step sdk sets api build equal a d r)
    unfolding create_step create_sdk_route
    create_step-Keeps a d r =
        >>=-Keeps view (create_sdk_route sdk sets api build equal a r) _
          (>>=-Keeps view (from_build (build r)) _ (from_build-Keeps E view (build r)) (λ s.
            from_api-Keeps B view (api.create_route a (some r.name) s)
              (keeps.create-Keeps a (some r.name) s)))
          (λ x w. refl)

    update_step-Keeps :
        (m : Dict String (RouteData Spec)) (p : RouteAndSdkRouteRef)
        → Keeps view (update_step sdk sets api build equal m p)
    unfolding update_step update_sdk_route
    update_step-Keeps m p =
        >>=-Keeps view (find_sdk_route sdk sets api p.sdk_route_ref) _ (find-Keeps p.sdk_route_ref)
          (λ o.
            >>=-Keeps view (found sdk sets api p.sdk_route_ref o) _ (found-Keeps p.sdk_route_ref o)
              (λ d.
                >>=-Keeps view (update_sdk_route sdk sets api build equal d p.route) _
                  (>>=-Keeps view (from_build (build p.route)) _
                    (from_build-Keeps E view (build p.route))
                    (λ s.
                      if-Keeps view (equal s d.spec) _ _ (λ w. refl)
                        (from_api-Keeps B view (api.update_route d.address d.route_name s)
                          (keeps.update-Keeps d.address d.route_name s))))
                  (λ x w. refl)))

    reconcile-Keeps :
        (a : Address) (routes : List Route) (refs : List RouteRef)
        → Keeps view (reconcile sdk sets api build equal a routes refs)
    unfolding reconcile
    reconcile-Keeps a routes refs =
        let m = match_routes_against_sdk_route_refs sdk sets routes refs in
        >>=-Keeps view (for_each (create_step sdk sets api build equal a) [] m.unmatched_routes) _
          (for_each-Keeps view _ (create_step-Keeps a) [] m.unmatched_routes)
          (λ created.
            >>=-Keeps view (for_each (update_step sdk sets api build equal) created m.matched) _
              (for_each-Keeps view _ update_step-Keeps created m.matched)
              (λ updated.
                >>=-Keeps view (for_each (delete_step sdk sets api) tt m.unmatched_sdk_route_refs) _
                  (for_each-Keeps view _ delete_step-Keeps tt m.unmatched_sdk_route_refs)
                  (λ u w. refl)))

    module _ {Selector : Type 0} (ms : Mesh Selector) (vr : VirtualRouter) where
      pub create-Keeps : Keeps view (create sdk sets api build equal ms vr)
      unfolding create
      create-Keeps = reconcile-Keeps (address_of ms vr) vr.spec.routes []

      pub update-Keeps : Keeps view (update sdk sets api build equal ms vr)
      unfolding update
      update-Keeps =
          >>=-Keeps view (list_sdk_route_refs sdk sets api (address_of ms vr)) _
            (list-Keeps (address_of ms vr)) (reconcile-Keeps (address_of ms vr) vr.spec.routes)

      pub cleanup-Keeps : Keeps view (cleanup sdk sets api build equal ms vr)
      unfolding cleanup
      cleanup-Keeps =
          >>=-Keeps view (list_sdk_route_refs sdk sets api (address_of ms vr)) _
            (list-Keeps (address_of ms vr))
            (λ refs.
              >>=-Keeps view (reconcile sdk sets api build equal (address_of ms vr) [] refs) _
                (reconcile-Keeps (address_of ms vr) [] refs) (λ d w. refl))
