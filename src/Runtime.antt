-- ===== src/Runtime.antt =====
-- pkg/runtime: errors that ask for another try, and what a controller makes of an error.
use aws_app_mesh_controller.Base.{String, Bool, true, false, Option, none, some, if◌then◌else◌}
use aws_app_mesh_controller.Base.Int.{ℤ, pos}
use aws_app_mesh_controller.Api.Meta.{NamespacedName}

-- The texts of the errors that the program makes itself, with what they name.
pub data Message : Type 0 where
  mesh_is_not_active : Message
  virtual_gateway_is_not_active : Message
  virtual_node_is_not_active : Message
  virtual_service_is_not_active : Message
  virtual_router_is_not_active : Message
  mesh_ref_is_nil : Message
  virtual_gateway_ref_is_nil : Message
  uid_mismatch : String → Message
  not_in_mesh : NamespacedName → NamespacedName → Message
  sdk_route_not_found : Option String → Message
  could_not_list_virtual_services : String → Message

-- Go's errors: `E` are those of the clients and of the conversions. errors.Wrapf and the two
-- requeue errors hold another error, which `Unwrap` gives back.
pub data Failure (E : Type 0) : Type 0 where
  caused : E → Failure E
  message : Message → Failure E
  wrapped : Failure E → Failure E
  requeue_error : Failure E → Failure E
  requeue_after_error : Failure E → ℤ → Failure E

module _ {E : Type 0} where
  -- `errors.As(err, &requeueAfterErr)` and the duration of the error found.
  pub as_requeue_after : Failure E → Option ℤ
  as_requeue_after (caused e) = none
  as_requeue_after (message m) = none
  as_requeue_after (wrapped f) = as_requeue_after f
  as_requeue_after (requeue_error f) = as_requeue_after f
  as_requeue_after (requeue_after_error f d) = some d

  -- `errors.As(err, &requeueError)`
  pub as_requeue : Failure E → Bool
  as_requeue (caused e) = false
  as_requeue (message m) = false
  as_requeue (wrapped f) = as_requeue f
  as_requeue (requeue_error f) = true
  as_requeue (requeue_after_error f d) = as_requeue f

-- ctrl.Result
pub record ReconcileResult : Type 0 where
  pub requeue : Bool
  pub requeue_after : ℤ

abbrev pub no_result : ReconcileResult
no_result = record { requeue = false; requeue_after = pos 0 }

-- The result and the error, where `none` is nil.
pub handle_reconcile_error :
    {E : Type 0} → Option (Failure E) → ReconcileResult × Option (Failure E)
handle_reconcile_error none = (no_result, none)
handle_reconcile_error (some e) = elim (as_requeue_after e) [
  | some d ↦ (record no_result { requeue_after = d }, none)
  | none ↦ if as_requeue e then (record no_result { requeue = true }, none) else (no_result, some e)
]
