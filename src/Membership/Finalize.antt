-- ===== src/Membership/Finalize.antt =====
-- members_finalizer.go of pkg/mesh and pkg/virtualgateway: a mesh or gateway waits for its members.
pub mod Waits
pub mod Gateways
mod Tests
use aws_app_mesh_controller.Base.{
  ℕ, String, Bool, true, false, Option, none, some, List, [], ◌∷◌, ◌++◌, Result, ok, err, panic,
  ◌≡◌, refl, sym, ap, ◌∙◌, ◌↔◌, select, All, length, if◌then◌else◌, arith, ◌>>=◌, ◌&&◌, ◌==◌,
  string_eq, eqb,
}
use aws_app_mesh_controller.Api.Meta.{ObjectMeta}
use aws_app_mesh_controller.Api.Shared.{MeshReference, VirtualGatewayReference}
use aws_app_mesh_controller.Api.Mesh.{Mesh}
use aws_app_mesh_controller.Api.VirtualNode.{VirtualNode}
use aws_app_mesh_controller.Api.VirtualRouter.{VirtualRouter}
use aws_app_mesh_controller.Api.VirtualService.{VirtualService}
use aws_app_mesh_controller.Api.VirtualGateway.{VirtualGateway}
use aws_app_mesh_controller.Api.GatewayRoute.{GatewayRoute}
use aws_app_mesh_controller.Membership.{
  Cluster, candidates, wrap, is_mesh_referenced, is_virtual_gateway_referenced,
}

-- A RequeueAfterError, whose event names the kinds of the members that are left and their numbers.
pub data FinalizeError (E : Type 0) : Type 0 where
  list_failed : E → FinalizeError E
  pending_members : List (String × ℕ) → FinalizeError E

module _ {Selector : Type 0} where
  -- `vs.Spec.MeshRef == nil || !IsMeshReferenced(ms, *vs.Spec.MeshRef)` skips the object.
  unfoldable pub is_member : Mesh Selector → Option MeshReference → Bool
  is_member ms none = false
  is_member ms (some r) = is_mesh_referenced ms r

  pub members : {A : Type 0} → Mesh Selector → (A → Option MeshReference) → List A → List A
  members ms ref = select (λ a. is_member ms (ref a))

-- `if len(members) != 0 { message = append(message, …) }`
pub counted : String → ℕ → List (String × ℕ)
counted kind n = if eqb n 0 then [] else (kind, n) ∷ []

pub finish_finalize : {E : Type 0} → List (String × ℕ) → Result (FinalizeError E) (Unit {0})
finish_finalize [] = ok tt
finish_finalize (c ∷ cs) = err (pending_members (c ∷ cs))

-- The numbers in the message of buildPendingMembersEventMessage.
pub pending_counts :
    {Selector : Type 0}
    → Mesh Selector
    → List VirtualService
    → List VirtualRouter
    → List (VirtualNode Selector)
    → List (VirtualGateway Selector)
    → List GatewayRoute
    → List (String × ℕ)
pending_counts {Selector} ms services routers nodes gateways routes =
    counted "virtualService"
      (length (members ms (λ (x : VirtualService). x.spec.mesh_ref) services))
    ++ (counted "virtualRouter"
          (length (members ms (λ (x : VirtualRouter). x.spec.mesh_ref) routers))
        ++ (counted "virtualNode"
              (length (members ms (λ (x : VirtualNode Selector). x.spec.mesh_ref) nodes))
            ++ (counted "virtualGateway"
                  (length (members ms (λ (x : VirtualGateway Selector). x.spec.mesh_ref) gateways))
                ++ counted "gatewayRoute"
                    (length (members ms (λ (x : GatewayRoute). x.spec.mesh_ref) routes)))))

module _ {Selector E : Type 0} where
  pub finalize : Cluster Selector E → Mesh Selector → Result (FinalizeError E) (Unit {0})
  finalize cluster ms = do
    services ← wrap list_failed cluster.list_virtual_services
    routers ← wrap list_failed cluster.list_virtual_routers
    nodes ← wrap list_failed cluster.list_virtual_nodes
    gateways ← wrap list_failed cluster.list_virtual_gateways
    routes ← wrap list_failed cluster.list_gateway_routes
    finish_finalize (pending_counts ms services routers nodes gateways routes)

  -- The loop of findGatewayRouteMembers for a gateway.
  unfoldable pub is_gateway_member :
      VirtualGateway Selector → Option VirtualGatewayReference → Result (FinalizeError E) Bool
  is_gateway_member vg none = ok false
  is_gateway_member vg (some r) = is_virtual_gateway_referenced vg r

  pub finalize_virtual_gateway :
      Cluster Selector E → VirtualGateway Selector → Result (FinalizeError E) (Unit {0})
  finalize_virtual_gateway cluster vg = do
    routes ← wrap list_failed cluster.list_gateway_routes
    found ←
        candidates (λ (x : GatewayRoute). is_gateway_member vg x.spec.virtual_gateway_ref) routes
    finish_finalize (counted "gatewayRoute" (length found))
