-- ===== src/Webhooks/Mesh/Tests.antt =====
-- The mesh validator at concrete meshes.
use aws_app_mesh_controller.Base.Int.{pos}
use aws_app_mesh_controller.Base.{String, Option, none, some, [], ◌≡◌, refl, ok, panic, inl}
use aws_app_mesh_controller.Api.Mesh.{Mesh, MeshServiceDiscovery}
use aws_app_mesh_controller.Webhooks.Mesh.{validate_update, check_ip_preference}
use aws_app_mesh_controller.Webhooks.Mesh.Decides.{mesh_update-ok, check_ip_preference-panics}

abbrev discovery : Option String → MeshServiceDiscovery
discovery preference = record { ip_preference = preference }

abbrev mesh : Option MeshServiceDiscovery → Mesh (Unit {0})
mesh sd = record {
  metadata = record {
    name = "m";
    namespace = "";
    uid = "u";
    labels = [];
    finalizers = [];
    generation = pos 1;
    deletion_timestamp = none;
  };
  spec = record {
    aws_name = some "m";
    namespace_selector = none;
    egress_filter = none;
    mesh_owner = none;
    service_discovery = sd;
  };
  status = record { mesh_arn = none; conditions = []; observed_generation = none };
}

mesh_update-ok_example :
    validate_update "ipv4" (mesh (some (discovery (some "IPv4_ONLY")))) (mesh none) ≡ ok tt
mesh_update-ok_example =
    (mesh_update-ok "ipv4" (mesh (some (discovery (some "IPv4_ONLY")))) (mesh none)).1
      (refl, inl refl)

check_ip_preference-panics_example :
    check_ip_preference "ipv4" (mesh (some (discovery none))) ≡ panic
check_ip_preference-panics_example =
    (check_ip_preference-panics "ipv4" (mesh (some (discovery none)))).1
      (discovery none, refl, refl)
