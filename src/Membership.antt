-- ===== src/Membership.antt =====
-- pkg/mesh/membership_designator.go, members_finalizer.go and utils.go, and their counterparts in
-- pkg/virtualgateway: which mesh or gateway an object joins, and when either may be deleted. The
-- Kubernetes client and label selectors are parameters.
pub mod Candidates
pub mod Designate
pub mod Finalize
use aws_app_mesh_controller.Base.{
  String, Bool, true, false, ◌&&◌, Option, none, some, List, [], ◌∷◌, map, Result, ok, err, panic,
  ◌>>=◌, is_some, if◌then◌else◌, string_eq, ◌==◌,
}
use aws_app_mesh_controller.Base.Dict.{Dict}
use aws_app_mesh_controller.Api.Meta.{ObjectMeta, NamespacedName}
use aws_app_mesh_controller.Api.Shared.{MeshReference, VirtualGatewayReference}
use aws_app_mesh_controller.Api.Mesh.{Mesh}
use aws_app_mesh_controller.Api.VirtualNode.{VirtualNode}
use aws_app_mesh_controller.Api.VirtualRouter.{VirtualRouter}
use aws_app_mesh_controller.Api.VirtualService.{VirtualService}
use aws_app_mesh_controller.Api.VirtualGateway.{VirtualGateway}
use aws_app_mesh_controller.Api.GatewayRoute.{GatewayRoute}

abbrev pub Labels : Type 0
Labels = Dict String String

-- metav1.LabelSelectorAsSelector with Selector.Matches, and labels.Everything.
pub record LabelSelectors (Selector E : Type 0) : Type 0 where
  pub as_selector : Option Selector → Result E (Labels → Bool)
  pub everything : Labels → Bool

-- What the Kubernetes client reads. A namespace is its labels.
pub record Cluster (Selector E : Type 0) : Type 0 where
  pub get_namespace : String → Result E Labels
  pub list_meshes : Result E (List (Mesh Selector))
  pub list_virtual_services : Result E (List VirtualService)
  pub list_virtual_routers : Result E (List VirtualRouter)
  pub list_virtual_nodes : Result E (List (VirtualNode Selector))
  pub list_virtual_gateways : Result E (List (VirtualGateway Selector))
  pub list_virtual_gateways_in : String → Result E (List (VirtualGateway Selector))
  pub list_gateway_routes : Result E (List GatewayRoute)

pub data DesignationError (E : Type 0) : Type 0 where
  read_failed bad_selector : E → DesignationError E
  no_candidate : String → DesignationError E
  many_candidates : String → List String → DesignationError E
  many_gateways_for_pod : NamespacedName → List NamespacedName → DesignationError E
  being_terminated : String → DesignationError E

-- `for … { matches, err := …; if err != nil { return nil, err }; if matches { append } }`
unfoldable pub candidates {ℓ} :
    {E : Type 0} {A : Type ℓ} → (A → Result E Bool) → List A → Result E (List A)
candidates f [] = ok []
candidates f (a ∷ as') = do
  matches ← f a
  rest ← candidates f as'
  ok (if matches then a ∷ rest else rest)

abbrev pub wrap : {E F A : Type 0} → (E → F) → Result E A → Result F A
wrap f (ok a) = ok a
wrap f (err e) = err (f e)
wrap f panic = panic

unfoldable pub is_mesh_referenced : {Selector : Type 0} → Mesh Selector → MeshReference → Bool
is_mesh_referenced ms r = ms.metadata.name == r.name && ms.metadata.uid == r.uid

-- The namespace is dereferenced once the names are equal.
unfoldable pub is_virtual_gateway_referenced :
    {Selector E : Type 0} → VirtualGateway Selector → VirtualGatewayReference → Result E Bool
is_virtual_gateway_referenced vg r =
    if vg.metadata.name == r.name
    then elim r.namespace [
      | none ↦ panic
      | some ns ↦ ok (vg.metadata.namespace == ns && vg.metadata.uid == r.uid)
    ]
    else ok false

module _ {Selector E : Type 0} (selectors : LabelSelectors Selector E) where
  unfoldable pub selects : Labels → Option Selector → Result (DesignationError E) Bool
  selects labels s = do matches ← wrap bad_selector (selectors.as_selector s); ok (matches labels)

  unfoldable pub the_only_mesh :
      String → List (Mesh Selector) → Result (DesignationError E) (Mesh Selector)
  the_only_mesh ns [] = err (no_candidate ns)
  the_only_mesh ns (m ∷ []) =
      if is_some m.metadata.deletion_timestamp then err (being_terminated m.metadata.name) else ok m
  the_only_mesh ns (m ∷ m' ∷ ms) =
      err (many_candidates ns (map (λ (x : Mesh Selector). x.metadata.name) (m ∷ m' ∷ ms)))

  unfoldable pub designate :
      Cluster Selector E → ObjectMeta → Result (DesignationError E) (Mesh Selector)
  designate cluster obj = do
    labels ← wrap read_failed (cluster.get_namespace obj.namespace)
    meshes ← wrap read_failed cluster.list_meshes
    found ← candidates (λ (m : Mesh Selector). selects labels m.spec.namespace_selector) meshes
    the_only_mesh obj.namespace found

  unfoldable pub matches_gateway_route_selector :
      ObjectMeta → VirtualGateway Selector → Result (DesignationError E) Bool
  matches_gateway_route_selector obj vg = elim vg.spec.gateway_route_selector [
    | none ↦ ok (selectors.everything obj.labels)
    | some s ↦ selects obj.labels (some s)
  ]

  unfoldable pub matches_gateway_route :
      Labels → ObjectMeta → VirtualGateway Selector → Result (DesignationError E) Bool
  matches_gateway_route labels obj vg = do
    in_namespace ← selects labels vg.spec.namespace_selector
    if in_namespace then matches_gateway_route_selector obj vg else ok false

  unfoldable pub the_only_gateway :
      String
      → List (VirtualGateway Selector)
      → Result (DesignationError E) (VirtualGateway Selector)
  the_only_gateway name [] = err (no_candidate name)
  the_only_gateway name (g ∷ []) = ok g
  the_only_gateway name (g ∷ g' ∷ gs) =
      err (
        many_candidates name (map (λ (x : VirtualGateway Selector). x.metadata.name) (g ∷ g' ∷ gs)))

  -- `ns` is the namespace of the admission request.
  unfoldable pub designate_for_gateway_route :
      Cluster Selector E
      → String
      → ObjectMeta
      → Result (DesignationError E) (VirtualGateway Selector)
  designate_for_gateway_route cluster ns obj = do
    labels ← wrap read_failed (cluster.get_namespace ns)
    gateways ← wrap read_failed cluster.list_virtual_gateways
    found ← candidates (matches_gateway_route labels obj) gateways
    the_only_gateway obj.name found

  -- A pod need not belong to a gateway.
  pub at_most_one_gateway :
      ObjectMeta
      → List (VirtualGateway Selector)
      → Result (DesignationError E) (Option (VirtualGateway Selector))
  at_most_one_gateway pod [] = ok none
  at_most_one_gateway pod (g ∷ []) = ok (some g)
  at_most_one_gateway pod (g ∷ g' ∷ gs) = err (
      many_gateways_for_pod (record { namespace = pod.namespace; name = pod.name })
        (map
          (λ (x : VirtualGateway Selector). record {
            namespace = x.metadata.namespace;
            name = x.metadata.name;
          })
          (g ∷ g' ∷ gs)))

  pub designate_for_pod :
      Cluster Selector E
      → String
      → ObjectMeta
      → Result (DesignationError E) (Option (VirtualGateway Selector))
  designate_for_pod cluster ns pod = do
    gateways ← wrap read_failed (cluster.list_virtual_gateways_in ns)
    found ←
        candidates (λ (g : VirtualGateway Selector). selects pod.labels g.spec.pod_selector)
          gateways
    at_most_one_gateway pod found
