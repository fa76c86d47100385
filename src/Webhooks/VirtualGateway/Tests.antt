-- ===== src/Webhooks/VirtualGateway/Tests.antt =====
-- The virtual-gateway validator at a concrete gateway.
use aws_app_mesh_controller.Base.{none, some, List, [], ◌∷◌, ◌≡◌, refl, ok, arith}
use aws_app_mesh_controller.Base.Int.{pos}
use aws_app_mesh_controller.Api.VirtualGateway.{
  VirtualGateway, VirtualGatewayListener, VirtualGatewayConnectionPool,
}
use aws_app_mesh_controller.Webhooks.VirtualGateway.{validate_update}
use aws_app_mesh_controller.Webhooks.VirtualGateway.Decides.{gateway_update-ok}

abbrev pool : VirtualGatewayConnectionPool
pool = record {
  http = some (record { max_connections = pos 5; max_pending_requests = none });
  http2 = none;
  grpc = none;
}

abbrev listener : VirtualGatewayListener
listener = record {
  port_mapping = record { port = pos 80; protocol = "http" };
  health_check = none;
  connection_pool = some pool;
  tls = none;
}

abbrev gateway : List VirtualGatewayListener → VirtualGateway (Unit {0})
gateway ls = record {
  metadata = record {
    name = "g";
    namespace = "ns";
    uid = "u";
    labels = [];
    finalizers = [];
    generation = pos 1;
    deletion_timestamp = none;
  };
  spec = record {
    aws_name = some "g";
    namespace_selector = none;
    pod_selector = none;
    gateway_route_selector = none;
    listeners = some ls;
    logging = none;
    backend_defaults = none;
    mesh_ref = none;
  };
  status = record { virtual_gateway_arn = none; conditions = []; observed_generation = none };
}

gateway_update-ok_example : validate_update (gateway (listener ∷ [])) (gateway []) ≡ ok tt
gateway_update-ok_example =
    (gateway_update-ok (gateway (listener ∷ [])) (gateway [])).1 (refl, refl, (omega arith, tt))
