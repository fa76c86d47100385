-- ===== src/Webhooks/Mutate/Joins.antt =====
-- What a gateway route refers to once it is admitted.
use aws_app_mesh_controller.Base.{
  String, Bool, true, false, Option, none, some, Result, ok, err, ◌≡◌, refl, ap, sym, ◌∙◌, subst,
  ◌↔◌, arith, string_eq, if◌then◌else◌,
}
use aws_app_mesh_controller.Api.Meta.{ObjectMeta}
use aws_app_mesh_controller.Api.Shared.{MeshReference, VirtualGatewayReference}
use aws_app_mesh_controller.Api.Mesh.{Mesh}
use aws_app_mesh_controller.Api.VirtualGateway.{VirtualGateway}
use aws_app_mesh_controller.Api.GatewayRoute.{GatewayRoute}
use aws_app_mesh_controller.Membership.{
  LabelSelectors, Cluster, designate, designate_for_gateway_route, is_mesh_referenced,
  is_virtual_gateway_referenced,
}
use aws_app_mesh_controller.Membership.Candidates.{bind-ok, wrap-ok}
use aws_app_mesh_controller.Membership.Finalize.{is_member, is_gateway_member}
use aws_app_mesh_controller.Webhooks.Mutate.{
  defaulting_aws_name, underscored, reference_to, gateway_reference_to, belongs_to,
  gateway_of_other_mesh, not_designated, designate_mesh, designate_gateway, create_gateway_route,
}

guarded-ok :
    {E A : Type 0} (b : Bool) (e : E) (x y : A)
    → (Path (Result E A) (if b then ok x else err e) (ok y)) ↔ ((b ≡ true) × (x ≡ y))
guarded-ok true e x y = (λ h. (refl, cc), λ p. ap (λ z. ok z) p.1)
guarded-ok false e x y = (λ h. cc, λ p. cc (p.0))

module _ {Selector : Type 0} where
  belongs-same :
      (ms : Mesh Selector) (o : Option MeshReference)
      → (belongs_to ms o ≡ true) ↔ (o ≡ some (reference_to ms))
  unfolding belongs_to is_mesh_referenced
  belongs-same ms none = (λ h. cc, λ h. cc)
  belongs-same ms (some r) = ground arith

  is_member-reference : (ms : Mesh Selector) → is_member ms (some (reference_to ms)) ≡ true
  unfolding is_member is_mesh_referenced
  is_member-reference ms = ground arith

  is_gateway_member-reference :
      {E : Type 0} (vg : VirtualGateway Selector)
      → is_gateway_member {E = E} vg (some (gateway_reference_to vg)) ≡ ok true
  unfolding is_gateway_member is_virtual_gateway_referenced
  is_gateway_member-reference vg = ground arith

  -- The route with the two references, and an AWS name.
  abbrev pub joined : Mesh Selector → VirtualGateway Selector → GatewayRoute → GatewayRoute
  joined ms vg gr = record gr {
    spec = record gr.spec {
      mesh_ref = some (reference_to ms);
      virtual_gateway_ref = some (gateway_reference_to vg);
      aws_name = defaulting_aws_name (underscored gr.metadata) gr.spec.aws_name;
    };
  }

module _ {Selector E : Type 0} (selectors : LabelSelectors Selector E)
    (cluster : Cluster Selector E) where
  designate_mesh-ok :
      (kind : String) (obj : ObjectMeta) (o : Option MeshReference) (ms : Mesh Selector)
      → (designate_mesh selectors cluster kind obj o ≡ ok ms)
        ↔ ((o ≡ none) × (designate selectors cluster obj ≡ ok ms))
  unfolding designate_mesh
  designate_mesh-ok kind obj (some r) ms = (λ h. cc, λ h. cc (h.0))
  designate_mesh-ok kind obj none ms =
      let same = wrap-ok not_designated (designate selectors cluster obj) ms in
      (λ h. (refl, same.0 h), λ p. same.1 p.1)

  designate_gateway-ok :
      (ns : String) (obj : ObjectMeta) (o : Option VirtualGatewayReference)
      (vg : VirtualGateway Selector)
      → (designate_gateway selectors cluster ns obj o ≡ ok vg)
        ↔ ((o ≡ none) × (designate_for_gateway_route selectors cluster ns obj ≡ ok vg))
  unfolding designate_gateway
  designate_gateway-ok ns obj (some r) vg = (λ h. cc, λ h. cc (h.0))
  designate_gateway-ok ns obj none vg =
      let same = wrap-ok not_designated (designate_for_gateway_route selectors cluster ns obj) vg in
      (λ h. (refl, same.0 h), λ p. same.1 p.1)

  -- A new gateway route is admitted exactly when it has no references yet, a mesh and a gateway are
  -- designated for it, and the gateway is in that mesh. It then has the gateway's mesh reference, and
  -- counts as a member of the mesh and of the gateway, which both wait for it when they are deleted.
  pub gateway_route-Joins :
      (ns : String) (gr gr' : GatewayRoute)
      → (create_gateway_route selectors cluster ns gr ≡ ok gr') ↔ (
          (ms : Mesh Selector) × (vg : VirtualGateway Selector) × (gr.spec.mesh_ref ≡ none)
          × (gr.spec.virtual_gateway_ref ≡ none)
          × (designate selectors cluster gr.metadata ≡ ok ms)
          × (designate_for_gateway_route selectors cluster ns gr.metadata ≡ ok vg)
          × (joined ms vg gr ≡ gr')
          × (vg.spec.mesh_ref ≡ gr'.spec.mesh_ref)
          × (is_member ms gr'.spec.mesh_ref ≡ true)
          × (is_gateway_member {E = E} vg gr'.spec.virtual_gateway_ref ≡ ok true))
  unfolding create_gateway_route
  gateway_route-Joins ns gr gr' = (
    λ h.
        let (ms, e₁, h₁) = (bind-ok (designate_mesh selectors cluster _ _ _) _ gr').0 h in
        let (vg, e₂, h₂) = (bind-ok (designate_gateway selectors cluster _ _ _) _ gr').0 h₁ in
        let (no_mesh, d₁) = (designate_mesh-ok _ _ _ ms).0 e₁ in
        let (no_gateway, d₂) = (designate_gateway-ok _ _ _ vg).0 e₂ in
        let (belongs, same) = (guarded-ok _ gateway_of_other_mesh _ gr').0 h₂ in
        (
          ms,
          vg,
          no_mesh,
          no_gateway,
          d₁,
          d₂,
          same,
          (belongs-same ms _).0 belongs ∙ ap (λ (g : GatewayRoute). g.spec.mesh_ref) same,
          subst (λ (g : GatewayRoute). is_member ms g.spec.mesh_ref ≡ true) same
              (is_member-reference ms),
          subst
              (λ (g : GatewayRoute).
                is_gateway_member {E = E} vg g.spec.virtual_gateway_ref ≡ ok true)
              same (is_gateway_member-reference vg),
        ),
    λ (ms, vg, no_mesh, no_gateway, d₁, d₂, same, belongs, _, _).
        (bind-ok (designate_mesh selectors cluster _ _ _) _ gr').1 (
          ms,
          (designate_mesh-ok _ _ _ ms).1 (no_mesh, d₁),
          (bind-ok (designate_gateway selectors cluster _ _ _) _ gr').1 (
            vg,
            (designate_gateway-ok _ _ _ vg).1 (no_gateway, d₂),
            (guarded-ok _ gateway_of_other_mesh _ gr').1 (
              (belongs-same ms _).1
                  (belongs ∙ sym (ap (λ (g : GatewayRoute). g.spec.mesh_ref) same)),
              same,
            ),
          ),
        ),
  )
