-- ===== src/Webhooks/Mesh/Decides.antt =====
-- Which meshes mesh_validator.go accepts.
use aws_app_mesh_controller.Base.{
  String, none, some, ◌≡◌, ◌↔◌, ◌⊎◌, ok, panic, arith, option_eq, string_eq,
}
use aws_app_mesh_controller.Api.Mesh.{Mesh, MeshServiceDiscovery}
use aws_app_mesh_controller.Webhooks.Checks.{IfAny, seq-ok, enforce-ok, changed-nil}
use aws_app_mesh_controller.Webhooks.Mesh.{
  ip_preference_ipv4, ip_preference_ipv6, allowed_ip_preference, check_ip_preference,
  enforce_fields_immutability, validate_update,
}

abbrev pub PreferenceOk : MeshServiceDiscovery → Type 0
PreferenceOk sd =
    (sd.ip_preference ≡ some ip_preference_ipv4) ⊎ (sd.ip_preference ≡ some ip_preference_ipv6)

module _ {Selector : Type 0} where
  pub preference-ok :
      (ip_family : String) (mesh : Mesh Selector)
      → (check_ip_preference ip_family mesh ≡ ok tt)
        ↔ IfAny PreferenceOk mesh.spec.service_discovery
  unfolding check_ip_preference
  preference-ok ip_family mesh = ground arith

  -- An update of a mesh is accepted exactly when it keeps the AWS name and, if service discovery is
  -- set, its preference is one of the two texts: on that the controller's family has no influence.
  pub mesh_update-ok :
      (ip_family : String) (new old : Mesh Selector)
      → (validate_update ip_family new old ≡ ok tt)
        ↔ ((new.spec.aws_name ≡ old.spec.aws_name) × IfAny PreferenceOk new.spec.service_discovery)
  unfolding validate_update enforce_fields_immutability
  mesh_update-ok ip_family new old =
      let name = changed-nil "spec.awsName" new.spec.aws_name old.spec.aws_name in
      let preference = preference-ok ip_family new in
      (
        λ p. let (a, b) = (seq-ok _ _).0 p in (name.0 ((enforce-ok _ _).0 a), preference.0 b),
        λ p. (seq-ok _ _).1 ((enforce-ok _ _).1 (name.1 p.0), preference.1 p.1),
      )

  -- The test of a mesh panics exactly when it has service discovery without a preference.
  pub check_ip_preference-panics :
      (ip_family : String) (mesh : Mesh Selector)
      → (check_ip_preference ip_family mesh ≡ panic) ↔ (
          (sd : MeshServiceDiscovery) × (mesh.spec.service_discovery ≡ some sd)
          × (sd.ip_preference ≡ none))
  unfolding check_ip_preference allowed_ip_preference
  check_ip_preference-panics ip_family mesh = ground arith
