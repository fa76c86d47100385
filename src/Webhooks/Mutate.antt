-- ===== src/Webhooks/Mutate.antt =====
-- webhooks/appmesh: *_mutator.go: what admission fills in before a resource is validated. MutateCreate
-- is create_…; MutateUpdate changes meshes only.
pub mod Meshes
pub mod Joins
mod Tests
use aws_app_mesh_controller.Base.{
  String, Bool, false, Option, none, some, Result, ok, err, ◌>>=◌, ◌<>◌, ◌==◌, if◌then◌else◌,
  string_eq,
}
use aws_app_mesh_controller.Api.Meta.{ObjectMeta}
use aws_app_mesh_controller.Api.Shared.{MeshReference, VirtualGatewayReference}
use aws_app_mesh_controller.Api.Mesh.{Mesh}
use aws_app_mesh_controller.Api.VirtualNode.{VirtualNode}
use aws_app_mesh_controller.Api.VirtualRouter.{VirtualRouter}
use aws_app_mesh_controller.Api.VirtualService.{VirtualService}
use aws_app_mesh_controller.Api.VirtualGateway.{VirtualGateway}
use aws_app_mesh_controller.Api.GatewayRoute.{GatewayRoute}
use aws_app_mesh_controller.Api.BackendGroup.{BackendGroup}
use aws_app_mesh_controller.Membership.{
  LabelSelectors, Cluster, DesignationError, wrap, designate, designate_for_gateway_route,
  is_mesh_referenced,
}
use aws_app_mesh_controller.Webhooks.Mesh.{ip_preference_ipv4, ip_preference_ipv6}

abbrev pub ipv6 : String
ipv6 = "ipv6"

-- `if x.Spec.AWSName == nil || len(*x.Spec.AWSName) == 0 { x.Spec.AWSName = &awsName }`
unfoldable pub defaulting_aws_name : String → Option String → Option String
defaulting_aws_name aws_name none = some aws_name
defaulting_aws_name aws_name (some s) = some (if s == "" then aws_name else s)

abbrev pub underscored : ObjectMeta → String
underscored obj = (obj.name <> "_") <> obj.namespace

module _ {Selector : Type 0} where
  unfoldable pub defaulting_ip_preference : String → Mesh Selector → Mesh Selector
  defaulting_ip_preference ip_family ms = elim ms.spec.service_discovery [
    | none ↦ if ip_family == ipv6 then prefer ip_preference_ipv6 else ms
    | some sd ↦ if ip_family == ipv6 then prefer ip_preference_ipv6 else prefer ip_preference_ipv4
  ]
    where
      prefer : String → Mesh Selector
      prefer s = record ms {
        spec = record ms.spec { service_discovery = some (record { ip_preference = some s }) };
      }

  unfoldable pub create_mesh : String → Mesh Selector → Mesh Selector
  create_mesh ip_family ms = defaulting_ip_preference ip_family (record ms {
    spec = record ms.spec { aws_name = defaulting_aws_name ms.metadata.name ms.spec.aws_name };
  })

  unfoldable pub update_mesh : String → Mesh Selector → Mesh Selector
  update_mesh ip_family ms = defaulting_ip_preference ip_family ms

  abbrev pub reference_to : Mesh Selector → MeshReference
  reference_to ms = record { name = ms.metadata.name; uid = ms.metadata.uid }

  abbrev pub gateway_reference_to : VirtualGateway Selector → VirtualGatewayReference
  gateway_reference_to vg = record {
    namespace = some vg.metadata.namespace;
    name = vg.metadata.name;
    uid = vg.metadata.uid;
  }

  unfoldable pub belongs_to : Mesh Selector → Option MeshReference → Bool
  belongs_to ms none = false
  belongs_to ms (some r) = is_mesh_referenced ms r

pub data MutateError (E : Type 0) : Type 0 where
  -- the resource's kind, and the field
  read_only_field : String → String → MutateError E
  not_designated : DesignationError E → MutateError E
  gateway_of_other_mesh : MutateError E

module _ {Selector E : Type 0} (selectors : LabelSelectors Selector E)
    (cluster : Cluster Selector E) where
  -- designateMeshMembership of every mutator, up to the reference that it writes.
  unfoldable pub designate_mesh :
      String → ObjectMeta → Option MeshReference → Result (MutateError E) (Mesh Selector)
  designate_mesh kind obj (some r) = err (read_only_field kind "spec.meshRef")
  designate_mesh kind obj none = wrap not_designated (designate selectors cluster obj)

  pub create_virtual_node : VirtualNode Selector → Result (MutateError E) (VirtualNode Selector)
  create_virtual_node vn = do
    ms ← designate_mesh "VirtualNode" vn.metadata vn.spec.mesh_ref
    ok (record vn {
      spec = record vn.spec {
        mesh_ref = some (reference_to ms);
        aws_name = defaulting_aws_name (underscored vn.metadata) vn.spec.aws_name;
      };
    })

  pub create_virtual_router : VirtualRouter → Result (MutateError E) VirtualRouter
  create_virtual_router vr = do
    ms ← designate_mesh "VirtualRouter" vr.metadata vr.spec.mesh_ref
    ok (record vr {
      spec = record vr.spec {
        mesh_ref = some (reference_to ms);
        aws_name = defaulting_aws_name (underscored vr.metadata) vr.spec.aws_name;
      };
    })

  pub create_virtual_service : VirtualService → Result (MutateError E) VirtualService
  create_virtual_service vs = do
    ms ← designate_mesh "VirtualService" vs.metadata vs.spec.mesh_ref
    ok (record vs {
      spec = record vs.spec {
        mesh_ref = some (reference_to ms);
        aws_name =
            defaulting_aws_name ((vs.metadata.name <> ".") <> vs.metadata.namespace)
              vs.spec.aws_name;
      };
    })

  pub create_virtual_gateway :
      VirtualGateway Selector → Result (MutateError E) (VirtualGateway Selector)
  create_virtual_gateway vg = do
    ms ← designate_mesh "VirtualGateway" vg.metadata vg.spec.mesh_ref
    ok (record vg {
      spec = record vg.spec {
        mesh_ref = some (reference_to ms);
        aws_name = defaulting_aws_name (underscored vg.metadata) vg.spec.aws_name;
      };
    })

  pub create_backend_group : BackendGroup → Result (MutateError E) BackendGroup
  create_backend_group bg = do
    ms ← designate_mesh "BackendGroup" bg.metadata bg.spec.mesh_ref
    ok (record bg { spec = record bg.spec { mesh_ref = some (reference_to ms) } })

  unfoldable pub designate_gateway :
      String
      → ObjectMeta
      → Option VirtualGatewayReference
      → Result (MutateError E) (VirtualGateway Selector)
  designate_gateway ns obj (some r) = err (read_only_field "GatewayRoute" "spec.virtualGatewayRef")
  designate_gateway ns obj none =
      wrap not_designated (designate_for_gateway_route selectors cluster ns obj)

  -- `ns` is the namespace of the admission request.
  unfoldable pub create_gateway_route : String → GatewayRoute → Result (MutateError E) GatewayRoute
  create_gateway_route ns gr = do
    ms ← designate_mesh "GatewayRoute" gr.metadata gr.spec.mesh_ref
    vg ← designate_gateway ns gr.metadata gr.spec.virtual_gateway_ref
    if belongs_to ms vg.spec.mesh_ref
        then ok (record gr {
          spec = record gr.spec {
            mesh_ref = some (reference_to ms);
            virtual_gateway_ref = some (gateway_reference_to vg);
            aws_name = defaulting_aws_name (underscored gr.metadata) gr.spec.aws_name;
          };
        })
        else err gateway_of_other_mesh
