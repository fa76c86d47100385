-- ===== src/Webhooks/VirtualNode/Tests.antt =====
-- The virtual-node validator at concrete nodes.
use aws_app_mesh_controller.Base.Int.{pos}
use aws_app_mesh_controller.Base.{
  String, Option, none, some, List, [], ◌∷◌, ◌≡◌, ◌≢◌, refl, ok, panic, inl, inr, string_eq,
  filter_map,
}
use aws_app_mesh_controller.Api.Meta.{ObjectMeta}
use aws_app_mesh_controller.Api.VirtualNode.{
  VirtualNode, Backend, ServiceDiscovery, AwsCloudMapServiceDiscovery,
}
use aws_app_mesh_controller.Api.Shared.{VirtualServiceReference}
use aws_app_mesh_controller.References.{object_key_for_virtual_service_reference}
use aws_app_mesh_controller.Webhooks.VirtualNode.{
  validate_create, validate_update, backend_identifier,
}
use aws_app_mesh_controller.Webhooks.VirtualNode.Decides.{node_update-ok}
use aws_app_mesh_controller.Webhooks.VirtualNode.Panics.{node_update-panics}
use aws_app_mesh_controller.Webhooks.VirtualNode.Backends.{dash_collision, left, right}

abbrev meta : ObjectMeta
meta = record {
  name = "n";
  namespace = "ns";
  uid = "u";
  labels = [];
  finalizers = [];
  generation = pos 1;
  deletion_timestamp = none;
}

abbrev backend : VirtualServiceReference → Backend
backend r = record {
  virtual_service = record {
    virtual_service_ref = some r;
    virtual_service_arn = none;
    client_policy = none;
  };
}

abbrev node : Option ServiceDiscovery → List Backend → VirtualNode (Unit {0})
node sd bs = record {
  metadata = meta;
  spec = record {
    aws_name = some "n";
    pod_selector = none;
    listeners = none;
    service_discovery = sd;
    backends = bs;
    backend_groups = [];
    backend_defaults = none;
    logging = none;
    mesh_ref = none;
  };
  status = record { virtual_node_arn = none; conditions = []; observed_generation = none };
}

abbrev cloud_map : AwsCloudMapServiceDiscovery
cloud_map = record { namespace_name = "prod"; service_name = "cart"; attributes = none }

abbrev discovery : ServiceDiscovery
discovery = record { aws_cloud_map = some cloud_map; dns = none }

abbrev reference : String → VirtualServiceReference
reference n = record { namespace = none; name = n }

abbrev two : VirtualNode (Unit {0})
two = node (some discovery) (backend (reference "a") ∷ backend (reference "b") ∷ [])

node_update-ok_example : validate_update two (node (some discovery) []) ≡ ok tt
unfolding backend_identifier object_key_for_virtual_service_reference filter_map string_eq
node_update-ok_example =
    (node_update-ok two (node (some discovery) [])).1
      (refl, refl, refl, (inl refl, (refl, (refl, tt)), tt))

node_update-panics_example : validate_update (node none []) (node (some discovery) []) ≡ panic
node_update-panics_example =
    (node_update-panics (node none []) (node (some discovery) [])).1 (refl, refl, (cloud_map, refl))

abbrev colliding : VirtualNode (Unit {0})
colliding =
    node none
      (backend (right "a" "b" "c") ∷ backend (reference "x") ∷ backend (left "a" "b" "c") ∷ [])

dash_collision_example :
    (object_key_for_virtual_service_reference colliding.metadata (left "a" "b" "c")
      ≢ object_key_for_virtual_service_reference colliding.metadata (right "a" "b" "c"))
    × (validate_create colliding ≢ ok tt)
dash_collision_example =
    dash_collision colliding (backend (left "a" "b" "c")) (backend (right "a" "b" "c")) "a" "b" "c"
      (λ e. cc e) (inr ([], backend (reference "x") ∷ [], [], refl)) refl refl
