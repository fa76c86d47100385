-- ===== src/Membership/Finalize/Gateways.antt =====
-- A gateway is finalized exactly when no listed gateway route refers to it.
use aws_app_mesh_controller.Base.{
  String, Bool, true, false, Option, none, some, List, [], ◌∷◌, Result, ok, err, panic, ◌≡◌, ◌≢◌,
  ◌⊎◌, refl, ap, ◌∙◌, ◌↔◌, select, All, length, arith, string_eq,
}
use aws_app_mesh_controller.Api.Shared.{VirtualGatewayReference}
use aws_app_mesh_controller.Api.VirtualGateway.{VirtualGateway}
use aws_app_mesh_controller.Api.GatewayRoute.{GatewayRoute}
use aws_app_mesh_controller.Membership.{Cluster, candidates, is_virtual_gateway_referenced}
use aws_app_mesh_controller.Membership.Candidates.{bind-ok, candidates-ok, positive, Answered}
use aws_app_mesh_controller.Membership.Finalize.{is_gateway_member, finalize_virtual_gateway}
use aws_app_mesh_controller.Membership.Finalize.Waits.{
  select-none, All-iff, counted-nil, finished-ok, listed-ok,
}

Answered-false :
    {E : Type 0} (r : Result E Bool) → (Answered r × (positive r ≡ false)) ↔ (r ≡ ok false)
Answered-false (ok true) = (λ h. cc (h.1), λ h. cc)
Answered-false (ok false) = (λ h. refl, λ h. ((false, refl), refl))
Answered-false (err e) = (λ h. cc (h.0.1), λ h. cc)
Answered-false panic = (λ h. cc (h.0.1), λ h. cc)

All-both :
    {A : Type 0} (P Q : A → Type 0) (xs : List A) → (All P xs × All Q xs) ↔ All (λ a. P a × Q a) xs
All-both P Q [] = (λ _. tt, λ _. (tt, tt))
All-both P Q (x ∷ xs) = (
  λ p. ((p.0.0, p.1.0), (All-both P Q xs).0 (p.0.1, p.1.1)),
  λ p. let (a, b) = (All-both P Q xs).1 p.1 in ((p.0.0, a), (p.0.1, b)),
)

no_candidates :
    {E A : Type 0} (f : A → Result E Bool) (xs : List A)
    → ((All (λ a. Answered (f a)) xs) × (length (select (λ a. positive (f a)) xs) ≡ 0))
      ↔ All (λ a. f a ≡ ok false) xs
no_candidates f xs =
    let empty = select-none (λ a. positive (f a)) xs in
    let both = All-both (λ a. Answered (f a)) (λ a. positive (f a) ≡ false) xs in
    let each = All-iff _ (λ a. f a ≡ ok false) (λ a. Answered-false (f a)) xs in
    (λ p. each.0 (both.0 (p.0, empty.0 p.1)), λ p. let (a, b) = both.1 (each.1 p) in (a, empty.1 b))

module _ {Selector : Type 0} (vg : VirtualGateway Selector) where
  -- The reference is not to the gateway, and the test of it does not need a missing namespace.
  abbrev pub Clear : Option VirtualGatewayReference → Type 0
  Clear none = Unit
  Clear (some r) =
      (vg.metadata.name ≢ r.name)
      ⊎ ((ns : String) × (r.namespace ≡ some ns)
          × ¬ ((vg.metadata.namespace ≡ ns) × (vg.metadata.uid ≡ r.uid)))

  module _ {E : Type 0} where
    Clear-false :
        (o : Option VirtualGatewayReference) → (is_gateway_member {E = E} vg o ≡ ok false) ↔ Clear o
    unfolding is_gateway_member is_virtual_gateway_referenced
    Clear-false none = (λ _. tt, λ _. refl)
    Clear-false (some r) = ground arith

    -- A gateway is let go exactly when the gateway routes are listed and each of them has no gateway, or
    -- one of another name, or one with a namespace such that the namespace or the UID differs.
    pub finalize_virtual_gateway-ok :
        (cluster : Cluster Selector E)
        → (finalize_virtual_gateway cluster vg ≡ ok tt) ↔ (
            (routes : List GatewayRoute) × (cluster.list_gateway_routes ≡ ok routes)
            × All (λ x. Clear x.spec.virtual_gateway_ref) routes)
    unfolding finalize_virtual_gateway
    finalize_virtual_gateway-ok cluster = (
      λ h.
          let (routes, e₁, h₁) = (listed-ok cluster.list_gateway_routes _).0 h in
          let (found, e₂, h₂) = (bind-ok (candidates _ routes) _ tt).0 h₁ in
          let (all, these) = (candidates-ok _ routes found).0 e₂ in
          let zero = (counted-nil _ _).0 ((finished-ok _).0 h₂) in
          (
            routes,
            e₁,
            (All-iff _ _ (λ (x : GatewayRoute). Clear-false x.spec.virtual_gateway_ref) routes).0
                ((no_candidates _ routes).0 (all, ap length these ∙ zero)),
          ),
      λ (routes, e₁, clear).
          let (all, zero) = (no_candidates _ routes).1 (
            (All-iff _ _ (λ (x : GatewayRoute). Clear-false x.spec.virtual_gateway_ref) routes).1
              clear) in
          (listed-ok cluster.list_gateway_routes _).1 (
            routes,
            e₁,
            (bind-ok (candidates _ routes) _ tt).1 (
              _,
              (candidates-ok _ routes _).1 (all, refl),
              (finished-ok _).1 ((counted-nil _ _).1 zero),
            ),
          ),
    )
