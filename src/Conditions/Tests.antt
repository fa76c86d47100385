-- ===== src/Conditions/Tests.antt =====
-- Updates of the condition of a mesh.
use aws_app_mesh_controller.Base.{
  String, Bool, true, false, none, some, [], ◌∷◌, ◌≡◌, string_eq, ap, ◌==◌,
}
use aws_app_mesh_controller.Base.Int.{pos}
use aws_app_mesh_controller.Api.Meta.{Condition}
use aws_app_mesh_controller.References.{AwsSdk}
use aws_app_mesh_controller.Conditions.{get_condition, update_conditions, has_changed}
use aws_app_mesh_controller.Conditions.Update.{
  Shows, get_condition-update_conditions, get_condition-other, update_conditions-twice,
}

abbrev sdk : AwsSdk
sdk = record {
  string_value = λ o. elim o [ none ↦ "" | some s ↦ s ];
  int64_value = λ o. elim o [ none ↦ pos 0 | some n ↦ n ];
}

abbrev active : Condition
active = record {
  type = "MeshActive";
  status = "Unknown";
  last_transition_time = some 3;
  reason = none;
  message = none;
}

get_condition-update_conditions_example :
    (c : Condition) × (get_condition "MeshActive"
        (update_conditions sdk 7 "MeshActive" "True" (some "found") none (active ∷ []))
      ≡ some c)
    × Shows sdk "MeshActive" "True" (some "found") none c
get_condition-update_conditions_example =
    get_condition-update_conditions sdk 7 "MeshActive" "True" (some "found") none (active ∷ [])

differ : ¬ Path String "MeshActive" "Other"
unfolding string_eq
differ e = cc same
  where
    same : Path Bool false true
    same = ap (λ (s : String). s == "Other") e

get_condition-other_example :
    get_condition "MeshActive" (update_conditions sdk 7 "Other" "True" none none (active ∷ []))
    ≡ get_condition "MeshActive" (active ∷ [])
get_condition-other_example =
    get_condition-other sdk 7 "Other" "True" none none "MeshActive" (active ∷ []) differ

update_conditions-twice_example :
    (update_conditions sdk 9 "MeshActive" "True" none none
        (update_conditions sdk 7 "MeshActive" "True" none none (active ∷ []))
      ≡ update_conditions sdk 7 "MeshActive" "True" none none (active ∷ []))
    × (has_changed sdk 9 "MeshActive" "True" none none
          (update_conditions sdk 7 "MeshActive" "True" none none (active ∷ []))
        ≡ false)
update_conditions-twice_example =
    update_conditions-twice sdk 7 9 "MeshActive" "True" none none (active ∷ [])
