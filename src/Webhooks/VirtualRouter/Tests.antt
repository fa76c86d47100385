-- ===== src/Webhooks/VirtualRouter/Tests.antt =====
-- The virtual-router validator at concrete routers.
use aws_app_mesh_controller.Base.Int.{pos}
use aws_app_mesh_controller.Base.{
  String, Option, none, some, List, [], ◌∷◌, ◌≡◌, refl, ok, err, string_eq, filter_map,
}
use aws_app_mesh_controller.Base.Dict
use aws_app_mesh_controller.Api.Shared.{HttpPathMatch}
use aws_app_mesh_controller.Api.VirtualRouter.{Route, HttpRoute, VirtualRouter}
use aws_app_mesh_controller.Webhooks.Checks.{duplicate_route, no_repeats, repeats_from}
use aws_app_mesh_controller.Webhooks.VirtualRouter.{
  validate_create, validate_update, check_for_duplicate_route_entries,
}
use aws_app_mesh_controller.Webhooks.VirtualRouter.Decides.{router_create-ok, router_update-ok}

abbrev http : Option HttpPathMatch → HttpRoute
http p = record {
  match = record {
    headers = [];
    method = none;
    prefix = none;
    scheme = none;
    path = p;
    query_parameters = [];
    port = none;
  };
  action = record { weighted_targets = [] };
  retry_policy = none;
  timeout = none;
}

abbrev route : String → Route
route n = record {
  name = n;
  grpc_route = none;
  http_route = some (http (some (record { exact = some "/a"; regex = none })));
  http2_route = none;
  tcp_route = none;
  priority = none;
}

abbrev router : List Route → VirtualRouter
router rs = record {
  metadata = record {
    name = "r";
    namespace = "ns";
    uid = "u";
    labels = [];
    finalizers = [];
    generation = pos 1;
    deletion_timestamp = none;
  };
  spec = record { aws_name = some "r"; listeners = []; routes = rs; mesh_ref = none };
  status = record {
    virtual_router_arn = none;
    route_arns = none;
    conditions = [];
    observed_generation = none;
  };
}

abbrev two : VirtualRouter
two = router (route "a" ∷ route "b" ∷ [])

router_create-ok_example : validate_create two ≡ ok tt
unfolding string_eq
router_create-ok_example =
    (router_create-ok two).1 ((refl, (refl, tt)), ((refl, refl), ((refl, refl), tt)))

router_update-ok_example : validate_update two (router []) ≡ ok tt
unfolding string_eq
router_update-ok_example =
    (router_update-ok two (router [])).1 (
      refl,
      refl,
      (router_create-ok two).1 ((refl, (refl, tt)), ((refl, refl), ((refl, refl), tt))),
    )

repeated_name :
    validate_create (router (route "a" ∷ route "a" ∷ [])) ≡ err (duplicate_route "r" "a")
unfolding validate_create check_for_duplicate_route_entries no_repeats repeats_from filter_map
    string_eq Dict.lookup Dict.insert
repeated_name = refl
