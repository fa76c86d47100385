-- ===== src/Webhooks/Mutate/Meshes.antt =====
-- What the mesh mutator leaves for the mesh validator.
use aws_app_mesh_controller.Base.{String, ok, ◌≡◌, arith, string_eq, option_eq, sym, ◌∙◌, ◌↔◌}
use aws_app_mesh_controller.Api.Mesh.{Mesh}
use aws_app_mesh_controller.Webhooks.Checks.{IfAny}
use aws_app_mesh_controller.Webhooks.Mesh.{validate_create, validate_update}
use aws_app_mesh_controller.Webhooks.Mesh.Decides.{preference-ok, PreferenceOk, mesh_update-ok}
use aws_app_mesh_controller.Webhooks.Mutate.{defaulting_ip_preference, create_mesh, update_mesh}

module _ {Selector : Type 0} where
  preferred :
      (ip_family : String) (ms : Mesh Selector)
      → IfAny PreferenceOk (defaulting_ip_preference ip_family ms).spec.service_discovery
  unfolding defaulting_ip_preference
  preferred ip_family ms = ground arith

  name_kept :
      (ip_family : String) (ms : Mesh Selector)
      → (defaulting_ip_preference ip_family ms).spec.aws_name ≡ ms.spec.aws_name
  unfolding defaulting_ip_preference
  name_kept ip_family ms = ground arith

  -- No mesh that the mutator has seen is refused as new, and none makes the validator panic, whatever
  -- its preference was.
  pub create-accepted :
      (ip_family : String) (ms : Mesh Selector)
      → validate_create ip_family (create_mesh ip_family ms) ≡ ok tt
  unfolding validate_create create_mesh
  create-accepted ip_family ms = (preference-ok ip_family _).1 (preferred ip_family _)

  -- The update of a mesh that the mutator has seen is accepted exactly when it keeps the AWS name,
  -- whatever preference it had before.
  pub update-accepted :
      (ip_family : String) (new old : Mesh Selector)
      → (validate_update ip_family (update_mesh ip_family new) old ≡ ok tt)
        ↔ (new.spec.aws_name ≡ old.spec.aws_name)
  unfolding update_mesh
  update-accepted ip_family new old =
      let decides = mesh_update-ok ip_family (defaulting_ip_preference ip_family new) old in
      (
        λ h. sym (name_kept ip_family new) ∙ (decides.0 h).0,
        λ e. decides.1 (name_kept ip_family new ∙ e, preferred ip_family new),
      )
