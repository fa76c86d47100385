-- ===== src/Membership/Finalize/Tests.antt =====
-- A mesh that objects of another mesh do not hold back.
use aws_app_mesh_controller.Base.Int.{pos}
use aws_app_mesh_controller.Base.{
  inr, String, Bool, true, false, ap, ◌==◌, none, some, [], ◌∷◌, ok, ◌≡◌, refl, string_eq,
}
use aws_app_mesh_controller.Api.Meta.{ObjectMeta}
use aws_app_mesh_controller.Api.Shared.{MeshReference}
use aws_app_mesh_controller.Api.Mesh.{Mesh}
use aws_app_mesh_controller.Api.VirtualService.{VirtualService}
use aws_app_mesh_controller.Membership.{Cluster}
use aws_app_mesh_controller.Api.VirtualGateway.{VirtualGateway}
use aws_app_mesh_controller.Api.GatewayRoute.{GatewayRoute}
use aws_app_mesh_controller.Membership.Finalize.{finalize, finalize_virtual_gateway}
use aws_app_mesh_controller.Membership.Finalize.Gateways.{finalize_virtual_gateway-ok}
use aws_app_mesh_controller.Membership.Finalize.Waits.{finalize-ok}

abbrev meta : String → ObjectMeta
meta n = record {
  name = n;
  namespace = "ns";
  uid = "1";
  labels = [];
  finalizers = [];
  generation = pos 1;
  deletion_timestamp = none;
}

abbrev mesh : Mesh (Unit {0})
mesh = record {
  metadata = meta "m";
  spec = record {
    aws_name = some "m";
    namespace_selector = none;
    egress_filter = none;
    mesh_owner = none;
    service_discovery = none;
  };
  status = record { mesh_arn = none; conditions = []; observed_generation = none };
}

-- The mesh of the same name that was there before.
abbrev former : MeshReference
former = record { name = "m"; uid = "0" }

abbrev service : VirtualService
service = record {
  metadata = meta "s";
  spec = record { aws_name = some "s"; provider = none; mesh_ref = some former };
  status = record { virtual_service_arn = none; conditions = []; observed_generation = none };
}

abbrev cluster : Cluster (Unit {0}) (Unit {0})
cluster = record {
  get_namespace = λ n. ok [];
  list_meshes = ok (mesh ∷ []);
  list_virtual_services = ok (service ∷ []);
  list_virtual_routers = ok [];
  list_virtual_nodes = ok [];
  list_virtual_gateways = ok [];
  list_virtual_gateways_in = λ ns. ok [];
  list_gateway_routes = ok [];
}

differ : ¬ Path String "1" "0"
unfolding string_eq
differ e = cc same
  where
    same : Path Bool false true
    same = ap (λ (s : String). s == "0") e

finalize-ok_example : finalize cluster mesh ≡ ok tt
finalize-ok_example = (finalize-ok mesh cluster).1 (
  service ∷ [],
  [],
  [],
  [],
  [],
  refl,
  refl,
  refl,
  refl,
  refl,
  ((λ p. differ p.1, tt), tt, tt, tt, tt),
)

abbrev gateway : VirtualGateway (Unit {0})
gateway = record {
  metadata = meta "g";
  spec = record {
    aws_name = some "g";
    namespace_selector = none;
    pod_selector = none;
    gateway_route_selector = none;
    listeners = none;
    logging = none;
    backend_defaults = none;
    mesh_ref = none;
  };
  status = record { virtual_gateway_arn = none; conditions = []; observed_generation = none };
}

-- A route of the gateway of the same name and namespace that was there before.
abbrev route : GatewayRoute
route = record {
  metadata = meta "r";
  spec = record {
    aws_name = some "r";
    priority = none;
    grpc_route = none;
    http_route = none;
    http2_route = none;
    virtual_gateway_ref = some (record { namespace = some "ns"; name = "g"; uid = "0" });
    mesh_ref = none;
  };
  status = record { gateway_route_arn = none; conditions = []; observed_generation = none };
}

finalize_virtual_gateway-ok_example :
    finalize_virtual_gateway (record cluster { list_gateway_routes = ok (route ∷ []) }) gateway
    ≡ ok tt
finalize_virtual_gateway-ok_example =
    (finalize_virtual_gateway-ok gateway
        (record cluster { list_gateway_routes = ok (route ∷ []) })).1
      (route ∷ [], refl, (inr ("ns", refl, λ p. differ p.1), tt))
