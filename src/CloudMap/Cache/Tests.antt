-- ===== src/CloudMap/Cache/Tests.antt =====
-- Tests of the instances cache: operations that are recorded out of order, and a registration.
use aws_app_mesh_controller.Base.Int.{pos}
use aws_app_mesh_controller.Base.{String, none, some, List, [], ◌∷◌, ok, ◌≡◌, refl, string_eq}
use aws_app_mesh_controller.Base.Dict
use aws_app_mesh_controller.Base.Dict.{Dict}
use aws_app_mesh_controller.References.{AwsSdk}
use aws_app_mesh_controller.CloudMap.{InstanceAttributes}
use aws_app_mesh_controller.CloudMap.Cache.{
  InstancesAttrsCacheItem, CloudMapSdk, LruExpireCache, last_updated_time, record_registration,
  record_deregistration, record_operation, record_successful_register_instance_operation,
  poll_operation, register_instance, list_instances,
}
use aws_app_mesh_controller.CloudMap.Cache.Latest.{
  Completion, registered, deregistered, complete, complete_all, seen, IsLatest,
  complete_all-IsLatest,
}

abbrev nothing : InstancesAttrsCacheItem
nothing = record { instance_attrs_by_id = []; last_updated_time_by_id = [] }

abbrev attrs : InstanceAttributes
attrs = ("az", "a") ∷ []

-- The registration was the earlier of the two, and is recorded last.
abbrev out_of_order : List Completion
out_of_order = deregistered "i" 5 ∷ registered "j" attrs 4 ∷ registered "i" attrs 3 ∷ []

stays_away : seen "i" (complete_all out_of_order nothing) ≡ none
unfolding complete_all complete record_registration record_deregistration last_updated_time
    Dict.lookup Dict.insert Dict.erase string_eq
stays_away = refl

complete_all-IsLatest_example :
    IsLatest "i" out_of_order nothing (complete_all out_of_order nothing)
complete_all-IsLatest_example = complete_all-IsLatest "i" out_of_order nothing

-- The world is the cache; every operation has succeeded by the first poll.
abbrev Cached : Type 0
Cached = Dict String InstancesAttrsCacheItem

abbrev sdk : AwsSdk
sdk = record {
  string_value = λ o. elim o [ none ↦ "" | some s ↦ s ];
  int64_value = λ o. elim o [ none ↦ pos 0 | some n ↦ n ];
}

abbrev cloud_map : CloudMapSdk Cached String InstanceAttributes
cloud_map = record {
  list_instances_pages = λ s w. (ok [], w);
  register_instance = λ s i m w. (ok (some "op"), w);
  deregister_instance = λ s i w. (ok (some "op"), w);
  get_operation = λ o w.
      (ok (record { status = some "SUCCESS"; update_date = some 7; error_message = none }), w);
  string_map = λ m. m;
  string_value_map = λ m. m;
  operation_status_success = "SUCCESS";
  operation_status_fail = "FAIL";
  new_error = λ s. s;
  poll_until = λ f w. (ok tt, (f w).1);
}

abbrev lru : LruExpireCache Cached
lru = record {
  get = λ s w. (Dict.lookup s w, w);
  add = λ s item w. Dict.insert s item w;
  store = λ s item w. Dict.insert s item w;
}

registered_then_listed :
    (list_instances sdk cloud_map lru "s"
      (register_instance sdk cloud_map lru "s" "i" attrs (("s", nothing) ∷ [])).1).0
    ≡ ok (("i", attrs) ∷ [])
unfolding list_instances register_instance poll_operation
    record_successful_register_instance_operation record_operation record_registration
    last_updated_time Dict.lookup Dict.insert string_eq
registered_then_listed = refl
