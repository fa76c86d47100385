-- ===== src/Routes.antt =====
-- pkg/virtualrouter/routes_manager.go and references.go: the routes of a virtual router, matched
-- against those of AWS App Mesh and reconciled with them.
pub mod Match
pub mod Tainted
pub mod Reconcile
mod Tests
use aws_app_mesh_controller.Base.{
  String, Bool, true, false, not, ◌&&◌, ◌||◌, Option, none, some, List, [], ◌∷◌, ◌++◌, map,
  filter_map, is_some, ◌==◌, if◌then◌else◌, string_eq,
}
use aws_app_mesh_controller.Base.Int.{ℤ, int_eq}
use aws_app_mesh_controller.Base.Dict
use aws_app_mesh_controller.Base.Dict.{Dict}
use aws_app_mesh_controller.Base.Sets.{StringSets}
use aws_app_mesh_controller.Api.Meta.{NamespacedName}
use aws_app_mesh_controller.Api.Shared.{VirtualNodeReference}
use aws_app_mesh_controller.Api.VirtualRouter.{Route, WeightedTarget, VirtualRouter}
use aws_app_mesh_controller.References.{AwsSdk, object_key_for_virtual_node_reference}

-- appmesh.RouteRef of the SDK.
pub record RouteRef : Type 0 where
  pub mesh_name : Option String
  pub mesh_owner : Option String
  pub virtual_router_name : Option String
  pub route_name : Option String

-- A listener of appmesh.VirtualRouterSpec of the SDK: its port mapping.
pub record SdkListener : Type 0 where
  pub port : Option ℤ
  pub protocol : Option String

unfoldable pub route_by_name : List Route → Dict String Route
route_by_name routes = Dict.index_by (λ r. r.name) routes []

module _ (sdk : AwsSdk) where
  unfoldable pub route_ref_name : RouteRef → String
  route_ref_name r = sdk.string_value r.route_name

  unfoldable pub sdk_route_ref_by_name : List RouteRef → Dict String RouteRef
  sdk_route_ref_by_name refs = Dict.index_by route_ref_name refs []

  unfoldable pub sdk_listener_by_port : List SdkListener → Dict ℤ String → Dict ℤ String
  sdk_listener_by_port [] d = d
  sdk_listener_by_port (l ∷ ls) d =
      sdk_listener_by_port ls (Dict.insert (sdk.int64_value l.port) (sdk.string_value l.protocol) d)

pub record RouteAndSdkRouteRef : Type 0 where
  pub route : Route
  pub sdk_route_ref : RouteRef

unfoldable pub pair_of : Option Route → Option RouteRef → Option RouteAndSdkRouteRef
pair_of (some r) (some s) = some (record { route = r; sdk_route_ref = s })
pair_of _ _ = none

pub record Matching : Type 0 where
  pub matched : List RouteAndSdkRouteRef
  pub unmatched_routes : List Route
  pub unmatched_sdk_route_refs : List RouteRef

module _ (sdk : AwsSdk) (sets : StringSets) where
  unfoldable pub match_routes_against_sdk_route_refs : List Route → List RouteRef → Matching
  match_routes_against_sdk_route_refs routes refs =
      let by_name = route_by_name routes in
      let ref_by_name = sdk_route_ref_by_name sdk refs in
      let route_names = sets.key_set (Dict.keys by_name) in
      let ref_names = sets.key_set (Dict.keys ref_by_name) in
      record {
        matched =
            filter_map (λ n. pair_of (Dict.lookup n by_name) (Dict.lookup n ref_by_name))
              (sets.list (sets.intersection route_names ref_names));
        unmatched_routes =
            Dict.values_of by_name (sets.list (sets.difference route_names ref_names));
        unmatched_sdk_route_refs =
            Dict.values_of ref_by_name (sets.list (sets.difference ref_names route_names));
      }

-- `port != nil && sdkListenerByPort[*port] != protocol`; a missing port reads as "".
pub protocol_changed : AwsSdk → Dict ℤ String → Option ℤ → String → Bool
protocol_changed sdk by_port none protocol = false
protocol_changed sdk by_port (some port) protocol = not (
    elim (Dict.lookup (sdk.int64_value (some port)) by_port) [ none ↦ "" | some p ↦ p ] == protocol)

-- The chain of tests over the four kinds of route: each of them taints.
unfoldable pub is_tainted : AwsSdk → Dict ℤ String → Route → Bool
is_tainted sdk by_port r =
    let test = protocol_changed sdk by_port in
    let tcp : Bool = elim r.tcp_route [
      | none ↦ false
      | some t ↦ elim t.match [ none ↦ false | some m ↦ test m.port "tcp" ]
    ] in
    let grpc : Bool = elim r.grpc_route [ none ↦ false | some g ↦ test g.match.port "grpc" ] in
    let http2 : Bool = elim r.http2_route [ none ↦ false | some h ↦ test h.match.port "http2" ] in
    let http : Bool = elim r.http_route [ none ↦ false | some h ↦ test h.match.port "http" ] in
    if tcp then true else if grpc then true else if http2 then true else http

module _ (sdk : AwsSdk) (sets : StringSets) where
  -- The loop over the matched names.
  unfoldable pub insert_tainted :
      Dict String Route → Dict ℤ String → List String → sets.StringSet → sets.StringSet
  insert_tainted by_name by_port [] set = set
  insert_tainted by_name by_port (n ∷ ns) set =
      insert_tainted by_name by_port ns (elim (Dict.lookup n by_name) [
        | none ↦ set
        | some r ↦ if is_tainted sdk by_port r then sets.insert r.name set else set
      ])

  unfoldable pub tainted_sdk_route_refs :
      List Route → List SdkListener → List RouteRef → List RouteRef
  tainted_sdk_route_refs routes listeners refs =
      let by_name = route_by_name routes in
      let ref_by_name = sdk_route_ref_by_name sdk refs in
      let by_port = sdk_listener_by_port sdk listeners [] in
      let route_names = sets.key_set (Dict.keys by_name) in
      let ref_names = sets.key_set (Dict.keys ref_by_name) in
      let matched = sets.list (sets.intersection route_names ref_names) in
      let gone = sets.difference ref_names route_names in
      Dict.values_of ref_by_name (sets.list (insert_tainted by_name by_port matched gone))

-- The references among the targets of one route.
pub references_of : List WeightedTarget → List VirtualNodeReference
references_of = filter_map (λ t. t.virtual_node_ref)

unfoldable pub route_references : Route → List VirtualNodeReference
unfolding references_of
route_references r =
    let grpc : List VirtualNodeReference = elim r.grpc_route [
      | none ↦ []
      | some g ↦ references_of g.action.weighted_targets
    ] in
    let http : List VirtualNodeReference = elim r.http_route [
      | none ↦ []
      | some h ↦ references_of h.action.weighted_targets
    ] in
    let http2 : List VirtualNodeReference = elim r.http2_route [
      | none ↦ []
      | some h ↦ references_of h.action.weighted_targets
    ] in
    let tcp : List VirtualNodeReference = elim r.tcp_route [
      | none ↦ []
      | some t ↦ references_of t.action.weighted_targets
    ] in
    grpc ++ (http ++ (http2 ++ tcp))

unfoldable pub extract_virtual_node_references : List Route → List VirtualNodeReference
extract_virtual_node_references [] = []
extract_virtual_node_references (r ∷ rs) = route_references r ++ extract_virtual_node_references rs

pub virtual_node_reference_index_func : VirtualRouter → List NamespacedName
virtual_node_reference_index_func vr =
    map (object_key_for_virtual_node_reference vr.metadata)
      (extract_virtual_node_references vr.spec.routes)
