-- ===== src/Membership/Designate/Tests.antt =====
-- The designation of a mesh and of a gateway in a small cluster.
use aws_app_mesh_controller.Base.Int.{pos}
use aws_app_mesh_controller.Base.{
  inl, String, true, false, none, some, [], ◌∷◌, ok, ◌≡◌, refl, select, string_eq, is_some,
}
use aws_app_mesh_controller.Base.Dict
use aws_app_mesh_controller.Api.Meta.{ObjectMeta}
use aws_app_mesh_controller.Api.Mesh.{Mesh}
use aws_app_mesh_controller.Api.VirtualGateway.{VirtualGateway}
use aws_app_mesh_controller.Membership.{
  Labels, LabelSelectors, Cluster, selects, designate, designate_for_gateway_route,
  designate_for_pod,
}
use aws_app_mesh_controller.Membership.Designate.{designate-ok, designate_for_pod-ok}
use aws_app_mesh_controller.Membership.Designate.Gateways.{designate_for_gateway_route-ok}

-- A selector is a label that has to be present; nil selects nothing.
abbrev has_label : LabelSelectors String (Unit {0})
has_label = record {
  as_selector = λ o. elim o [
    | none ↦ ok (λ ls. false)
    | some l ↦ ok (λ (ls : Labels). is_some (Dict.lookup l ls))
  ];
  everything = λ ls. true;
}

abbrev meta : String → Labels → ObjectMeta
meta n ls = record {
  name = n;
  namespace = "ns";
  uid = "u";
  labels = ls;
  finalizers = [];
  generation = pos 1;
  deletion_timestamp = none;
}

abbrev mesh : String → String → Mesh String
mesh n l = record {
  metadata = meta n [];
  spec = record {
    aws_name = some n;
    namespace_selector = some l;
    egress_filter = none;
    mesh_owner = none;
    service_discovery = none;
  };
  status = record { mesh_arn = none; conditions = []; observed_generation = none };
}

abbrev gateway : String → String → VirtualGateway String
gateway n l = record {
  metadata = meta n [];
  spec = record {
    aws_name = some n;
    namespace_selector = some l;
    pod_selector = none;
    gateway_route_selector = none;
    listeners = none;
    logging = none;
    backend_defaults = none;
    mesh_ref = none;
  };
  status = record { virtual_gateway_arn = none; conditions = []; observed_generation = none };
}

abbrev cluster : Cluster String (Unit {0})
cluster = record {
  get_namespace = λ n. ok (("prod", "") ∷ []);
  list_meshes = ok (mesh "a" "test" ∷ mesh "b" "prod" ∷ []);
  list_virtual_services = ok [];
  list_virtual_routers = ok [];
  list_virtual_nodes = ok [];
  list_virtual_gateways = ok (gateway "g" "prod" ∷ gateway "h" "test" ∷ []);
  list_virtual_gateways_in = λ ns. ok [];
  list_gateway_routes = ok [];
}

designate-ok_example : designate has_label cluster (meta "o" []) ≡ ok (mesh "b" "prod")
unfolding selects select Dict.lookup string_eq
designate-ok_example = (designate-ok has_label cluster (meta "o" []) (mesh "b" "prod")).1 (
  ("prod", "") ∷ [],
  mesh "a" "test" ∷ mesh "b" "prod" ∷ [],
  refl,
  refl,
  ((false, refl), ((true, refl), tt)),
  refl,
  refl,
)

designate_for_gateway_route-ok_example :
    designate_for_gateway_route has_label cluster "ns" (meta "r" []) ≡ ok (gateway "g" "prod")
unfolding Dict.lookup string_eq
designate_for_gateway_route-ok_example =
    (designate_for_gateway_route-ok has_label cluster "ns" (meta "r" []) (gateway "g" "prod")).1 (
      ("prod", "") ∷ [],
      [],
      gateway "h" "test" ∷ [],
      refl,
      refl,
      (inl (_, refl, refl), tt),
      ((_, refl, refl), refl),
    )

abbrev pod_gateway : VirtualGateway String
pod_gateway = record {
  metadata = meta "g" [];
  spec = record (gateway "g" "prod").spec { pod_selector = some "app" };
  status = (gateway "g" "prod").status;
}

abbrev pods : Cluster String (Unit {0})
pods = record cluster {
  list_virtual_gateways_in = λ ns. ok (pod_gateway ∷ gateway "h" "test" ∷ []);
}

designate_for_pod-ok_example :
    designate_for_pod has_label pods "ns" (meta "p" (("app", "") ∷ [])) ≡ ok (some pod_gateway)
unfolding selects select Dict.lookup string_eq
designate_for_pod-ok_example =
    (designate_for_pod-ok has_label pods "ns" (meta "p" (("app", "") ∷ [])) (some pod_gateway)).1
      (pod_gateway ∷ gateway "h" "test" ∷ [], refl, ((true, refl), ((false, refl), tt)), refl)
