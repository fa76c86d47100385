-- ===== src/Routes/Reconcile.antt =====
-- routes_manager.go: create, update, remove and cleanup of the routes of one virtual router. The
-- App Mesh client is a parameter. `build` is BuildSDKRouteSpec at the router and the node map of
-- the call, and `equal` is cmp.Equal with EquateEmpty.
pub mod Laws
pub mod Keeps
pub mod Steps
pub mod Converges
pub mod Listing
pub mod Methods
pub mod Remove
pub mod Memory
mod Tests
use aws_app_mesh_controller.Base.{
  String, Bool, true, false, Option, none, some, List, [], ◌∷◌, ◌++◌, Result, ok, err, panic,
  if◌then◌else◌, string_eq,
}
use aws_app_mesh_controller.Base.Exec.{Exec, pure, throw, for_each, ◌>>=◌, ◌>>◌}
use aws_app_mesh_controller.Base.Dict
use aws_app_mesh_controller.Base.Dict.{Dict}
use aws_app_mesh_controller.Base.Sets.{StringSets}
use aws_app_mesh_controller.Api.Mesh.{Mesh}
use aws_app_mesh_controller.Api.VirtualRouter.{Route, VirtualRouter}
use aws_app_mesh_controller.References.{AwsSdk}
use aws_app_mesh_controller.Routes.{
  RouteRef, RouteAndSdkRouteRef, SdkListener, match_routes_against_sdk_route_refs,
  tainted_sdk_route_refs,
}

-- The virtual router that a call of the client is about.
pub record Address : Type 0 where
  pub mesh_name : Option String
  pub mesh_owner : Option String
  pub virtual_router_name : Option String

-- appmesh.RouteData of the SDK.
pub record RouteData (Spec : Type 0) : Type 0 where
  pub address : Address
  pub route_name : Option String
  pub arn : Option String
  pub spec : Spec

-- services.AppMesh: its calls on routes. A listing comes in pages.
pub record RouteApi (W E Spec : Type 0) : Type 0 where
  pub list_routes : Address → Exec W E (List (List RouteRef))
  pub describe_route : Address → Option String → Exec W E (RouteData Spec)
  pub create_route : Address → Option String → Spec → Exec W E (RouteData Spec)
  pub update_route : Address → Option String → Spec → Exec W E (RouteData Spec)
  pub delete_route : Address → Option String → Exec W E (Unit {0})
  -- an awserr.Error with the code NotFoundException
  pub is_not_found : E → Bool

pub data RouteError (E B : Type 0) : Type 0 where
  api_error : E → RouteError E B
  bad_spec : B → RouteError E B
  route_not_found : Option String → RouteError E B

unfoldable pub address_of_ref : RouteRef → Address
address_of_ref r = record {
  mesh_name = r.mesh_name;
  mesh_owner = r.mesh_owner;
  virtual_router_name = r.virtual_router_name;
}

unfoldable pub address_of : {Selector : Type 0} → Mesh Selector → VirtualRouter → Address
address_of ms vr = record {
  mesh_name = ms.spec.aws_name;
  mesh_owner = ms.spec.mesh_owner;
  virtual_router_name = vr.spec.aws_name;
}

-- `sdkRouteRefs = append(sdkRouteRefs, output.Routes...)` for each page.
unfoldable pub concat_pages : List (List RouteRef) → List RouteRef
concat_pages [] = []
concat_pages (p ∷ ps) = p ++ concat_pages ps

-- The error of the client becomes the error of the method.
abbrev pub from_api : {W E B A : Type 0} → Result E A × W → Result (RouteError E B) A × W
from_api (ok a, w) = (ok a, w)
from_api (err e, w) = (err (api_error e), w)
from_api (panic, w) = (panic, w)

abbrev pub from_build : {W E B Spec : Type 0} → Result B Spec → Exec W (RouteError E B) Spec
from_build (ok s) w = (ok s, w)
from_build (err e) w = (err (bad_spec e), w)
from_build panic w = (panic, w)

abbrev pub some_route : {W E A : Type 0} → Result E A × W → Result E (Option A) × W
some_route (ok a, w) = (ok (some a), w)
some_route (err e, w) = (err e, w)
some_route (panic, w) = (panic, w)

-- `if awsErr.Code() == "NotFoundException"`: the error gives way to a value.
abbrev pub unless_missing :
    {W E B A : Type 0} → (E → Bool) → A → Result E A × W → Result (RouteError E B) A × W
unless_missing missing a (ok b, w) = (ok b, w)
unless_missing missing a (err e, w) = if missing e then (ok a, w) else (err (api_error e), w)
unless_missing missing a (panic, w) = (panic, w)

module _ (sdk : AwsSdk) (sets : StringSets) {W E B Spec : Type 0} (api : RouteApi W E Spec) where
  unfoldable pub list_sdk_route_refs : Address → Exec W (RouteError E B) (List RouteRef)
  list_sdk_route_refs a = do pages ← λ w. from_api (api.list_routes a w); pure (concat_pages pages)

  -- `none` is a nil route.
  unfoldable pub find_sdk_route : RouteRef → Exec W (RouteError E B) (Option (RouteData Spec))
  find_sdk_route ref = (λ w.
      unless_missing api.is_not_found none
        (some_route (api.describe_route (address_of_ref ref) ref.route_name w)))

  unfoldable pub delete_sdk_route : RouteData Spec → Exec W (RouteError E B) (Unit {0})
  delete_sdk_route d = λ w. from_api (api.delete_route d.address d.route_name w)

  unfoldable pub delete_sdk_route_by_ref : RouteRef → Exec W (RouteError E B) (Unit {0})
  delete_sdk_route_by_ref ref = λ w.
      unless_missing api.is_not_found tt (api.delete_route (address_of_ref ref) ref.route_name w)

  -- A route that was listed and is gone is an error of the method.
  unfoldable pub found :
      RouteRef → Option (RouteData Spec) → Exec W (RouteError E B) (RouteData Spec)
  found ref none = throw (route_not_found ref.route_name)
  found ref (some d) = pure d

  unfoldable pub delete_step : Unit {0} → RouteRef → Exec W (RouteError E B) (Unit {0})
  delete_step _ ref = do o ← find_sdk_route ref; d ← found ref o; delete_sdk_route d

  unfoldable pub remove_step : Unit {0} → RouteRef → Exec W (RouteError E B) (Unit {0})
  remove_step _ ref = delete_sdk_route_by_ref ref

  -- Routes that are gone or whose protocol changed go before the listeners are updated.
  unfoldable pub remove :
      {Selector : Type 0}
      → Mesh Selector
      → VirtualRouter
      → List SdkListener
      → Exec W (RouteError E B) (Unit {0})
  remove ms vr listeners = do
    refs ← list_sdk_route_refs (address_of ms vr)
    for_each remove_step tt (tainted_sdk_route_refs sdk sets vr.spec.routes listeners refs)

  module _ (build : Route → Result B Spec) (equal : Spec → Spec → Bool) where
    unfoldable pub create_sdk_route : Address → Route → Exec W (RouteError E B) (RouteData Spec)
    create_sdk_route a r = do
      spec ← from_build (build r)
      λ w. from_api (api.create_route a (some r.name) spec w)

    unfoldable pub update_sdk_route :
        RouteData Spec → Route → Exec W (RouteError E B) (RouteData Spec)
    update_sdk_route d r = do
      desired ← from_build (build r)
      if equal desired d.spec then pure d else λ w.
          from_api (api.update_route d.address d.route_name desired w)

    unfoldable pub create_step :
        Address
        → Dict String (RouteData Spec)
        → Route
        → Exec W (RouteError E B) (Dict String (RouteData Spec))
    create_step a by_name r = do d ← create_sdk_route a r; pure (Dict.insert r.name d by_name)

    unfoldable pub update_step :
        Dict String (RouteData Spec)
        → RouteAndSdkRouteRef
        → Exec W (RouteError E B) (Dict String (RouteData Spec))
    update_step by_name p = do
      o ← find_sdk_route p.sdk_route_ref
      d ← found p.sdk_route_ref o
      d' ← update_sdk_route d p.route
      pure (Dict.insert p.route.name d' by_name)

    unfoldable pub reconcile :
        Address
        → List Route
        → List RouteRef
        → Exec W (RouteError E B) (Dict String (RouteData Spec))
    reconcile a routes refs =
        let m = match_routes_against_sdk_route_refs sdk sets routes refs in
        do
          created ← for_each (create_step a) [] m.unmatched_routes
          updated ← for_each update_step created m.matched
          for_each delete_step tt m.unmatched_sdk_route_refs
          pure updated

    unfoldable pub create :
        {Selector : Type 0}
        → Mesh Selector
        → VirtualRouter
        → Exec W (RouteError E B) (Dict String (RouteData Spec))
    create ms vr = reconcile (address_of ms vr) vr.spec.routes []

    unfoldable pub update :
        {Selector : Type 0}
        → Mesh Selector
        → VirtualRouter
        → Exec W (RouteError E B) (Dict String (RouteData Spec))
    update ms vr = do
      refs ← list_sdk_route_refs (address_of ms vr)
      reconcile (address_of ms vr) vr.spec.routes refs

    unfoldable pub cleanup :
        {Selector : Type 0} → Mesh Selector → VirtualRouter → Exec W (RouteError E B) (Unit {0})
    cleanup ms vr = do
      refs ← list_sdk_route_refs (address_of ms vr)
      reconcile (address_of ms vr) [] refs
      pure tt
