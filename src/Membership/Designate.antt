-- ===== src/Membership/Designate.antt =====
-- An object joins exactly the one mesh or gateway that selects it.
pub mod Gateways
mod Tests
use aws_app_mesh_controller.Base.{
  String, Bool, true, false, Option, none, some, List, [], ◌∷◌, Result, ok, err, panic, ◌≡◌, refl,
  sym, ap, ◌∙◌, ◌↔◌, select, All, is_some, if◌then◌else◌, arith, ◌>>=◌, Option-cases, inl, inr,
}
use aws_app_mesh_controller.Api.Meta.{ObjectMeta}
use aws_app_mesh_controller.Api.Mesh.{Mesh}
use aws_app_mesh_controller.Api.VirtualGateway.{VirtualGateway}
use aws_app_mesh_controller.Membership.Candidates.{
  positive, Answered, bind-ok, wrap-ok, candidates-ok,
}
use aws_app_mesh_controller.Membership.{
  Labels, LabelSelectors, Cluster, DesignationError, read_failed, bad_selector, candidates, wrap,
  selects, the_only_mesh, designate, matches_gateway_route, the_only_gateway,
  designate_for_gateway_route, at_most_one_gateway, designate_for_pod,
}

module _ {Selector E : Type 0} (selectors : LabelSelectors Selector E) where
  -- The meshes whose namespace selector matches the labels.
  abbrev pub matching_meshes : Labels → List (Mesh Selector) → List (Mesh Selector)
  matching_meshes labels =
      select (λ m. positive (selects selectors labels m.spec.namespace_selector))

  only_mesh-ok :
      (ns : String) (ms : List (Mesh Selector)) (m : Mesh Selector)
      → (the_only_mesh selectors ns ms ≡ ok m)
        ↔ ((ms ≡ m ∷ []) × (m.metadata.deletion_timestamp ≡ none))
  unfolding the_only_mesh
  only_mesh-ok ns [] m = (λ h. cc, λ h. cc (h.0))
  only_mesh-ok ns (x ∷ []) m = ground arith
  only_mesh-ok ns (x ∷ y ∷ zs) m = (λ h. cc, λ h. cc (h.0))

  -- A mesh is designated for an object exactly when the namespace and the meshes are read, every
  -- namespace selector is well formed, that mesh is the only one whose selector matches the labels of
  -- the object's namespace, and it is not being deleted.
  pub designate-ok :
      (cluster : Cluster Selector E) (obj : ObjectMeta) (m : Mesh Selector)
      → (designate selectors cluster obj ≡ ok m) ↔ (
          (labels : Labels) × (meshes : List (Mesh Selector)) × (cluster.get_namespace obj.namespace
            ≡ ok labels)
          × (cluster.list_meshes ≡ ok meshes)
          × All (λ x. Answered (selects selectors labels x.spec.namespace_selector)) meshes
          × (matching_meshes labels meshes ≡ m ∷ [])
          × (m.metadata.deletion_timestamp ≡ none))
  unfolding designate
  designate-ok cluster obj m = (
    λ h.
        let (labels, e₁, h₁) =
          (bind-ok (wrap read_failed (cluster.get_namespace obj.namespace)) _ m).0 h in
        let (meshes, e₂, h₂) = (bind-ok (wrap read_failed cluster.list_meshes) _ m).0 h₁ in
        let (found, e₃, h₃) = (bind-ok (candidates _ meshes) _ m).0 h₂ in
        let (all, these) = (candidates-ok _ meshes found).0 e₃ in
        let (one, live) = (only_mesh-ok obj.namespace found m).0 h₃ in
        (
          labels,
          meshes,
          (wrap-ok read_failed _ labels).0 e₁,
          (wrap-ok read_failed _ meshes).0 e₂,
          all,
          these ∙ one,
          live,
        ),
    λ (labels, meshes, e₁, e₂, all, one, live).
        (bind-ok (wrap read_failed (cluster.get_namespace obj.namespace)) _ m).1 (
          labels,
          (wrap-ok read_failed _ labels).1 e₁,
          (bind-ok (wrap read_failed cluster.list_meshes) _ m).1 (
            meshes,
            (wrap-ok read_failed _ meshes).1 e₂,
            (bind-ok (candidates _ meshes) _ m).1 (
              m ∷ [],
              (candidates-ok _ meshes (m ∷ [])).1 (all, one),
              (only_mesh-ok obj.namespace (m ∷ []) m).1 (refl, live),
            ),
          ),
        ),
  )

  only_gateway-ok :
      (name : String) (gs : List (VirtualGateway Selector)) (g : VirtualGateway Selector)
      → (the_only_gateway selectors name gs ≡ ok g) ↔ (gs ≡ g ∷ [])
  unfolding the_only_gateway
  only_gateway-ok name [] g = (λ h. cc, λ h. cc h)
  only_gateway-ok name (x ∷ []) g = (λ h. cc, λ h. cc h)
  only_gateway-ok name (x ∷ y ∷ zs) g = (λ h. cc, λ h. cc h)

  -- The same by the test that the loop uses.
  pub designate_for_gateway_route-selected :
      (cluster : Cluster Selector E) (ns : String) (obj : ObjectMeta) (g : VirtualGateway Selector)
      → (designate_for_gateway_route selectors cluster ns obj ≡ ok g) ↔ (
          (labels : Labels) × (gateways : List (VirtualGateway Selector)) × (cluster.get_namespace
              ns
            ≡ ok labels)
          × (cluster.list_virtual_gateways ≡ ok gateways)
          × All (λ x. Answered (matches_gateway_route selectors labels obj x)) gateways
          × (select (λ x. positive (matches_gateway_route selectors labels obj x)) gateways
              ≡ g ∷ []))
  unfolding designate_for_gateway_route
  designate_for_gateway_route-selected cluster ns obj g = (
    λ h.
        let (labels, e₁, h₁) = (bind-ok (wrap read_failed (cluster.get_namespace ns)) _ g).0 h in
        let (gateways, e₂, h₂) =
          (bind-ok (wrap read_failed cluster.list_virtual_gateways) _ g).0 h₁ in
        let (found, e₃, h₃) = (bind-ok (candidates _ gateways) _ g).0 h₂ in
        let (all, these) = (candidates-ok _ gateways found).0 e₃ in
        (
          labels,
          gateways,
          (wrap-ok read_failed _ labels).0 e₁,
          (wrap-ok read_failed _ gateways).0 e₂,
          all,
          these ∙ (only_gateway-ok obj.name found g).0 h₃,
        ),
    λ (labels, gateways, e₁, e₂, all, one).
        (bind-ok (wrap read_failed (cluster.get_namespace ns)) _ g).1 (
          labels,
          (wrap-ok read_failed _ labels).1 e₁,
          (bind-ok (wrap read_failed cluster.list_virtual_gateways) _ g).1 (
            gateways,
            (wrap-ok read_failed _ gateways).1 e₂,
            (bind-ok (candidates _ gateways) _ g).1 (
              g ∷ [],
              (candidates-ok _ gateways (g ∷ [])).1 (all, one),
              (only_gateway-ok obj.name (g ∷ []) g).1 refl,
            ),
          ),
        ),
  )

  abbrev pub to_list : {A : Type 0} → Option A → List A
  to_list none = []
  to_list (some a) = a ∷ []

  at_most_one-ok :
      (pod : ObjectMeta) (gs : List (VirtualGateway Selector))
      (o : Option (VirtualGateway Selector))
      → (at_most_one_gateway selectors pod gs ≡ ok o) ↔ (gs ≡ to_list o)
  unfolding at_most_one_gateway
  at_most_one-ok pod [] none = (λ _. refl, λ _. refl)
  at_most_one-ok pod [] (some g) = (λ h. cc, λ h. cc h)
  at_most_one-ok pod (x ∷ []) none = (λ h. cc, λ h. cc h)
  at_most_one-ok pod (x ∷ []) (some g) = (λ h. cc, λ h. cc h)
  at_most_one-ok pod (x ∷ y ∷ zs) none = (λ h. cc, λ h. cc h)
  at_most_one-ok pod (x ∷ y ∷ zs) (some g) = (λ h. cc, λ h. cc h)

  -- The designation of a gateway for a pod succeeds exactly when the gateways of the request's
  -- namespace are listed, their pod selectors are well formed and at most one of them matches the
  -- pod's labels: its result is that one, or none.
  pub designate_for_pod-ok :
      (cluster : Cluster Selector E) (ns : String) (pod : ObjectMeta)
      (o : Option (VirtualGateway Selector))
      → (designate_for_pod selectors cluster ns pod ≡ ok o) ↔ (
          (gateways : List (VirtualGateway Selector)) × (cluster.list_virtual_gateways_in ns
            ≡ ok gateways)
          × All (λ x. Answered (selects selectors pod.labels x.spec.pod_selector)) gateways
          × (select (λ x. positive (selects selectors pod.labels x.spec.pod_selector)) gateways
              ≡ to_list o))
  unfolding designate_for_pod
  designate_for_pod-ok cluster ns pod o = (
    λ h.
        let (gateways, e₁, h₁) =
          (bind-ok (wrap read_failed (cluster.list_virtual_gateways_in ns)) _ o).0 h in
        let (found, e₂, h₂) = (bind-ok (candidates _ gateways) _ o).0 h₁ in
        let (all, these) = (candidates-ok _ gateways found).0 e₂ in
        (
          gateways,
          (wrap-ok read_failed _ gateways).0 e₁,
          all,
          these ∙ (at_most_one-ok pod found o).0 h₂,
        ),
    λ (gateways, e₁, all, these).
        (bind-ok (wrap read_failed (cluster.list_virtual_gateways_in ns)) _ o).1 (
          gateways,
          (wrap-ok read_failed _ gateways).1 e₁,
          (bind-ok (candidates _ gateways) _ o).1 (
            to_list o,
            (candidates-ok _ gateways (to_list o)).1 (all, these),
            (at_most_one-ok pod (to_list o) o).1 refl,
          ),
        ),
  )
