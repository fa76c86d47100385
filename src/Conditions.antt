-- ===== src/Conditions.antt =====
-- pkg/mesh/conditions.go and utils.go: the status conditions of a resource. The packages of the other
-- resources hold the same functions.
pub mod Update
mod Tests
use aws_app_mesh_controller.Base.{
  ℕ, String, Bool, true, false, not, ◌||◌, Option, none, some, List, [], ◌∷◌, if◌then◌else◌,
  string_eq, ◌==◌,
}
use aws_app_mesh_controller.Api.Meta.{Condition}
use aws_app_mesh_controller.References.{AwsSdk}

unfoldable pub get_condition : String → List Condition → Option Condition
get_condition type [] = none
get_condition type (c ∷ cs) =
    let rest = get_condition type cs in if c.type == type then some c else rest

-- `condition.Status == corev1.ConditionTrue` of the first condition of the type.
unfoldable pub is_active : String → List Condition → Bool
is_active type [] = false
is_active type (c ∷ cs) =
    let rest = is_active type cs in if c.type == type then c.status == "True" else rest

module _ (sdk : AwsSdk) (now : ℕ) (type status : String) (reason message : Option String) where
  unfoldable pub status_changes : Condition → Bool
  status_changes c = not (c.status == status)

  unfoldable pub reason_changes : Condition → Bool
  reason_changes c = not (sdk.string_value c.reason == sdk.string_value reason)

  unfoldable pub message_changes : Condition → Bool
  message_changes c = not (sdk.string_value c.message == sdk.string_value message)

  unfoldable pub new_condition : Condition
  new_condition = record {
    type = type;
    status = status;
    last_transition_time = some now;
    reason = reason;
    message = message;
  }

  unfoldable pub update_existing : Condition → Condition
  update_existing c = record {
    type = c.type;
    status = if status_changes c then status else c.status;
    last_transition_time = if status_changes c then some now else c.last_transition_time;
    reason = if reason_changes c then reason else c.reason;
    message = if message_changes c then message else c.message;
  }

  -- The conditions after the update, through the pointer that getCondition returns.
  unfoldable pub update_conditions : List Condition → List Condition
  update_conditions [] = new_condition ∷ []
  update_conditions (c ∷ cs) =
      let rest = update_conditions cs in if c.type == type then update_existing c ∷ cs else c ∷ rest

  -- Whether updateCondition reports a change.
  unfoldable pub has_changed : List Condition → Bool
  has_changed cs = elim (get_condition type cs) [
    | none ↦ true
    | some c ↦ status_changes c || reason_changes c || message_changes c
  ]
