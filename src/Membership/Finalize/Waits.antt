-- ===== src/Membership/Finalize/Waits.antt =====
-- A mesh is finalized exactly when no listed object refers to it.
use aws_app_mesh_controller.Base.{
  ℕ, String, Bool, true, false, Option, none, some, List, [], ◌∷◌, Result, ok, ◌≡◌, refl, ◌↔◌,
  select, All, length, if◌then◌else◌, arith, ◌>>=◌, string_eq,
}
use aws_app_mesh_controller.Api.Shared.{MeshReference}
use aws_app_mesh_controller.Api.Mesh.{Mesh}
use aws_app_mesh_controller.Api.VirtualNode.{VirtualNode}
use aws_app_mesh_controller.Api.VirtualRouter.{VirtualRouter}
use aws_app_mesh_controller.Api.VirtualService.{VirtualService}
use aws_app_mesh_controller.Api.VirtualGateway.{VirtualGateway}
use aws_app_mesh_controller.Api.GatewayRoute.{GatewayRoute}
use aws_app_mesh_controller.Webhooks.Checks.{append-nil_iff}
use aws_app_mesh_controller.Membership.{Cluster, wrap, is_mesh_referenced}
use aws_app_mesh_controller.Membership.Candidates.{bind-ok, wrap-ok}
use aws_app_mesh_controller.Membership.Finalize.{
  FinalizeError, list_failed, is_member, members, counted, finish_finalize, finalize,
  pending_counts,
}

pub select-none :
    {A : Type 0} (p : A → Bool) (xs : List A)
    → (length (select p xs) ≡ 0) ↔ All (λ a. p a ≡ false) xs
unfolding select
select-none p [] = (λ _. tt, λ _. refl)
select-none p (x ∷ xs) = go (p x) (select-none p xs)
  where
    go :
        (b : Bool)
        → ((length (select p xs) ≡ 0) ↔ All (λ a. p a ≡ false) xs)
        → (length (if b then x ∷ select p xs else select p xs) ≡ 0)
          ↔ ((b ≡ false) × All (λ a. p a ≡ false) xs)
    go true later = (λ h. absurd (omega (arith, h)), λ h. cc (h.0))
    go false later = (λ h. (refl, later.0 h), λ h. later.1 h.1)

pub All-iff :
    {A : Type 0} (P Q : A → Type 0) → ((a : A) → P a ↔ Q a) → (xs : List A) → All P xs ↔ All Q xs
All-iff P Q h [] = (λ _. tt, λ _. tt)
All-iff P Q h (x ∷ xs) =
    (λ p. ((h x).0 p.0, (All-iff P Q h xs).0 p.1), λ q. ((h x).1 q.0, (All-iff P Q h xs).1 q.1))

pub counted-nil : (kind : String) (n : ℕ) → (counted kind n ≡ []) ↔ (n ≡ 0)
unfolding counted
counted-nil kind n = ground arith

pub finished-ok :
    {E : Type 0} (cs : List (String × ℕ)) → (finish_finalize {E = E} cs ≡ ok tt) ↔ (cs ≡ [])
unfolding finish_finalize
finished-ok [] = (λ _. refl, λ _. refl)
finished-ok (c ∷ cs) = (λ h. cc, λ h. cc)

pub listed-ok :
    {E A : Type 0} (r : Result E A) (f : A → Result (FinalizeError E) (Unit {0}))
    → ((do x ← wrap list_failed r; f x) ≡ ok tt) ↔ ((x : A) × (r ≡ ok x) × (f x ≡ ok tt))
listed-ok r f = (
  λ h.
      let (x, e, k) = (bind-ok (wrap list_failed r) f tt).0 h in
      (x, (wrap-ok list_failed r x).0 e, k),
  λ (x, e, k). (bind-ok (wrap list_failed r) f tt).1 (x, (wrap-ok list_failed r x).1 e, k),
)

module _ {Selector : Type 0} (ms : Mesh Selector) where
  -- The reference is not to the mesh: its name or its UID differs.
  abbrev pub NotMember : Option MeshReference → Type 0
  NotMember none = Unit
  NotMember (some r) = ¬ ((ms.metadata.name ≡ r.name) × (ms.metadata.uid ≡ r.uid))

  member-false : (o : Option MeshReference) → (is_member ms o ≡ false) ↔ NotMember o
  unfolding is_member is_mesh_referenced
  member-false none = (λ _. tt, λ _. refl)
  member-false (some r) = ground arith

  none_left :
      {A : Type 0} (kind : String) (ref : A → Option MeshReference) (xs : List A)
      → (counted kind (length (members ms ref xs)) ≡ []) ↔ All (λ a. NotMember (ref a)) xs
  unfolding members
  none_left kind ref xs =
      let same = All-iff _ (λ a. NotMember (ref a)) (λ a. member-false (ref a)) xs in
      let few = counted-nil kind (length (select (λ a. is_member ms (ref a)) xs)) in
      let empty = select-none (λ a. is_member ms (ref a)) xs in
      (λ h. same.0 (empty.0 (few.0 h)), λ h. few.1 (empty.1 (same.1 h)))

  -- What the five listings hold does not refer to the mesh.
  abbrev pub Deserted :
      List VirtualService
      → List VirtualRouter
      → List (VirtualNode Selector)
      → List (VirtualGateway Selector)
      → List GatewayRoute
      → Type 0
  Deserted services routers nodes gateways routes =
      All (λ x. NotMember x.spec.mesh_ref) services
      × All (λ x. NotMember x.spec.mesh_ref) routers
      × All (λ x. NotMember x.spec.mesh_ref) nodes
      × All (λ x. NotMember x.spec.mesh_ref) gateways
      × All (λ x. NotMember x.spec.mesh_ref) routes

  counts-nil :
      (services : List VirtualService) (routers : List VirtualRouter)
      (nodes : List (VirtualNode Selector)) (gateways : List (VirtualGateway Selector))
      (routes : List GatewayRoute)
      → (pending_counts ms services routers nodes gateways routes ≡ [])
        ↔ Deserted services routers nodes gateways routes
  unfolding pending_counts
  counts-nil services routers nodes gateways routes = (
    λ h.
        let (a, i) = (append-nil_iff _ _).0 h in
        let (b, j) = (append-nil_iff _ _).0 i in
        let (c, k) = (append-nil_iff _ _).0 j in
        let (d, e) = (append-nil_iff _ _).0 k in
        (
          (none_left _ _ services).0 a,
          (none_left _ _ routers).0 b,
          (none_left _ _ nodes).0 c,
          (none_left _ _ gateways).0 d,
          (none_left _ _ routes).0 e,
        ),
    λ (a, b, c, d, e). (append-nil_iff _ _).1 (
      (none_left _ _ services).1 a,
      (append-nil_iff _ _).1 (
        (none_left _ _ routers).1 b,
        (append-nil_iff _ _).1 (
          (none_left _ _ nodes).1 c,
          (append-nil_iff _ _).1 ((none_left _ _ gateways).1 d, (none_left _ _ routes).1 e),
        ),
      ),
    ),
  )

  module _ {E : Type 0} (cluster : Cluster Selector E) where
    -- A mesh is let go exactly when the five kinds of objects are listed and none of the listed objects
    -- refers to it by name and UID.
    pub finalize-ok : (finalize cluster ms ≡ ok tt) ↔ (
        (services : List VirtualService) × (routers : List VirtualRouter) × (nodes : List
          (VirtualNode Selector))
        × (gateways : List (VirtualGateway Selector)) × (routes : List GatewayRoute)
        × (cluster.list_virtual_services ≡ ok services)
        × (cluster.list_virtual_routers ≡ ok routers)
        × (cluster.list_virtual_nodes ≡ ok nodes)
        × (cluster.list_virtual_gateways ≡ ok gateways)
        × (cluster.list_gateway_routes ≡ ok routes)
        × Deserted services routers nodes gateways routes)
    unfolding finalize
    finalize-ok = (
      λ h.
          let (services, e₁, h₁) = (listed-ok cluster.list_virtual_services _).0 h in
          let (routers, e₂, h₂) = (listed-ok cluster.list_virtual_routers _).0 h₁ in
          let (nodes, e₃, h₃) = (listed-ok cluster.list_virtual_nodes _).0 h₂ in
          let (gateways, e₄, h₄) = (listed-ok cluster.list_virtual_gateways _).0 h₃ in
          let (routes, e₅, h₅) = (listed-ok cluster.list_gateway_routes _).0 h₄ in
          (
            services,
            routers,
            nodes,
            gateways,
            routes,
            e₁,
            e₂,
            e₃,
            e₄,
            e₅,
            (counts-nil services routers nodes gateways routes).0 ((finished-ok _).0 h₅),
          ),
      λ (services, routers, nodes, gateways, routes, e₁, e₂, e₃, e₄, e₅, deserted).
          (listed-ok cluster.list_virtual_services _).1 (
            services,
            e₁,
            (listed-ok cluster.list_virtual_routers _).1 (
              routers,
              e₂,
              (listed-ok cluster.list_virtual_nodes _).1 (
                nodes,
                e₃,
                (listed-ok cluster.list_virtual_gateways _).1 (
                  gateways,
                  e₄,
                  (listed-ok cluster.list_gateway_routes _).1 (
                    routes,
                    e₅,
                    (finished-ok _).1
                        ((counts-nil services routers nodes gateways routes).1 deserted),
                  ),
                ),
              ),
            ),
          ),
    )
