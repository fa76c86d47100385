-- ===== src/Webhooks/Mutate/Tests.antt =====
-- Tests of the mutators in a small cluster, and the theorem about gateway routes there.
use aws_app_mesh_controller.Base.Int.{pos}
use aws_app_mesh_controller.Base.{
  String, true, false, none, some, [], ◌∷◌, ok, ◌≡◌, refl, string_eq, is_some,
}
use aws_app_mesh_controller.Base.Dict
use aws_app_mesh_controller.Api.Meta.{ObjectMeta}
use aws_app_mesh_controller.Api.Mesh.{Mesh}
use aws_app_mesh_controller.Api.VirtualGateway.{VirtualGateway}
use aws_app_mesh_controller.Api.GatewayRoute.{GatewayRoute}
use aws_app_mesh_controller.Membership.{
  Labels, LabelSelectors, Cluster, selects, designate, designate_for_gateway_route,
  matches_gateway_route, matches_gateway_route_selector, candidates, the_only_mesh,
  the_only_gateway, is_mesh_referenced, is_virtual_gateway_referenced,
}
use aws_app_mesh_controller.Membership.Finalize.{is_member, is_gateway_member}
use aws_app_mesh_controller.Webhooks.Mesh.{validate_update}
use aws_app_mesh_controller.Webhooks.Mutate.Meshes.{update-accepted}
use aws_app_mesh_controller.Webhooks.Mutate.{
  update_mesh, create_gateway_route, create_mesh, defaulting_ip_preference, defaulting_aws_name,
}
use aws_app_mesh_controller.Webhooks.Mutate.Joins.{gateway_route-Joins, joined}

-- A selector is a label that has to be present; nil selects nothing.
abbrev has_label : LabelSelectors String (Unit {0})
has_label = record {
  as_selector = λ o. elim o [
    | none ↦ ok (λ ls. false)
    | some l ↦ ok (λ (ls : Labels). is_some (Dict.lookup l ls))
  ];
  everything = λ ls. true;
}

abbrev meta : String → ObjectMeta
meta n = record {
  name = n;
  namespace = "ns";
  uid = "u";
  labels = [];
  finalizers = [];
  generation = pos 1;
  deletion_timestamp = none;
}

abbrev mesh : Mesh String
mesh = record {
  metadata = meta "m";
  spec = record {
    aws_name = none;
    namespace_selector = some "prod";
    egress_filter = none;
    mesh_owner = none;
    service_discovery = none;
  };
  status = record { mesh_arn = none; conditions = []; observed_generation = none };
}

abbrev gateway : VirtualGateway String
gateway = record {
  metadata = meta "g";
  spec = record {
    aws_name = some "g";
    namespace_selector = some "prod";
    pod_selector = none;
    gateway_route_selector = none;
    listeners = none;
    logging = none;
    backend_defaults = none;
    mesh_ref = some (record { name = "m"; uid = "u" });
  };
  status = record { virtual_gateway_arn = none; conditions = []; observed_generation = none };
}

abbrev cluster : Cluster String (Unit {0})
cluster = record {
  get_namespace = λ n. ok (("prod", "") ∷ []);
  list_meshes = ok (mesh ∷ []);
  list_virtual_services = ok [];
  list_virtual_routers = ok [];
  list_virtual_nodes = ok [];
  list_virtual_gateways = ok (gateway ∷ []);
  list_virtual_gateways_in = λ ns. ok [];
  list_gateway_routes = ok [];
}

abbrev route : GatewayRoute
route = record {
  metadata = meta "r";
  spec = record {
    aws_name = none;
    priority = none;
    grpc_route = none;
    http_route = none;
    http2_route = none;
    virtual_gateway_ref = none;
    mesh_ref = none;
  };
  status = record { gateway_route_arn = none; conditions = []; observed_generation = none };
}

named : (joined mesh gateway route).spec.aws_name ≡ some "r_ns"
unfolding defaulting_aws_name
named = refl

mesh_prefers :
    (create_mesh "ipv6" mesh).spec.service_discovery
    ≡ some (record { ip_preference = some "IPv6_ONLY" })
unfolding create_mesh defaulting_ip_preference string_eq
mesh_prefers = refl

-- Without the mutator this mesh would make the validator panic.
abbrev unset : Mesh String
unset = record mesh {
  spec = record mesh.spec { service_discovery = some (record { ip_preference = none }) };
}

update-accepted_example : validate_update "ipv4" (update_mesh "ipv4" unset) mesh ≡ ok tt
update-accepted_example = (update-accepted "ipv4" unset mesh).1 refl

gateway_route-Joins_example :
    create_gateway_route has_label cluster "ns" route ≡ ok (joined mesh gateway route)
unfolding selects candidates designate designate_for_gateway_route matches_gateway_route
    matches_gateway_route_selector the_only_mesh the_only_gateway is_member is_mesh_referenced
    is_gateway_member is_virtual_gateway_referenced Dict.lookup string_eq
gateway_route-Joins_example =
    (gateway_route-Joins has_label cluster "ns" route (joined mesh gateway route)).1
      (mesh, gateway, refl, refl, refl, refl, refl, refl, refl, refl)
