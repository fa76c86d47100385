-- ===== src/CloudMap/Cache.antt =====
-- pkg/cloudmap/instances_cache.go: the instances of each service, as the controller last saw
-- them. Each function that is under a lock is one step.
pub mod Latest
mod Tests
use aws_app_mesh_controller.Base.{
  ℕ, String, Bool, true, false, Option, none, some, List, [], ◌∷◌, Result, ok, panic, ltb, ◌==◌,
  if◌then◌else◌, string_eq,
}
use aws_app_mesh_controller.Base.Exec.{Exec, ◌>>=◌, ◌>>◌, pure, throw, for_each}
use aws_app_mesh_controller.Base.Dict
use aws_app_mesh_controller.Base.Dict.{Dict}
use aws_app_mesh_controller.References.{AwsSdk}
use aws_app_mesh_controller.CloudMap.{InstanceAttributes}

-- Times count from the zero time.
pub record InstancesAttrsCacheItem : Type 0 where
  pub instance_attrs_by_id : Dict String InstanceAttributes
  pub last_updated_time_by_id : Dict String ℕ

-- A missing time reads as the zero time.
unfoldable pub last_updated_time : String → InstancesAttrsCacheItem → ℕ
last_updated_time id item = elim (Dict.lookup id item.last_updated_time_by_id) [
  | none ↦ 0
  | some t ↦ t
]

-- The tail of recordSuccessfulRegisterInstanceOperation, for an item of the cache. The map that is kept
-- is the request's own: only its initial health status may be changed later, which no test reads.
unfoldable pub record_registration :
    String → InstanceAttributes → ℕ → InstancesAttrsCacheItem → InstancesAttrsCacheItem
record_registration id attrs update_date item =
    if ltb update_date (last_updated_time id item) then item else record {
      instance_attrs_by_id = Dict.insert id attrs item.instance_attrs_by_id;
      last_updated_time_by_id = Dict.insert id update_date item.last_updated_time_by_id;
    }

-- The tail of recordSuccessfulDeregisterInstanceOperation.
unfoldable pub record_deregistration :
    String → ℕ → InstancesAttrsCacheItem → InstancesAttrsCacheItem
record_deregistration id update_date item =
    if ltb update_date (last_updated_time id item) then item else record {
      instance_attrs_by_id = Dict.erase id item.instance_attrs_by_id;
      last_updated_time_by_id = Dict.insert id update_date item.last_updated_time_by_id;
    }

-- servicediscovery.Operation, as far as it is read.
pub record Operation : Type 0 where
  pub status : Option String
  pub update_date : Option ℕ
  pub error_message : Option String

-- servicediscovery.InstanceSummary. `Raw` is a map to pointers.
pub record Instance (Raw : Type 0) : Type 0 where
  pub id : Option String
  pub attributes : Raw

-- What is called of the AWS SDK, of errors and of wait. The pages of a listing are one list, and
-- `poll_until` repeats the test until it answers true or fails.
pub record CloudMapSdk (W E Raw : Type 0) : Type 0 where
  pub list_instances_pages : String → Exec W E (List (Instance Raw))
  pub register_instance : String → String → Raw → Exec W E (Option String)
  pub deregister_instance : String → String → Exec W E (Option String)
  pub get_operation : Option String → Exec W E Operation
  pub string_map : InstanceAttributes → Raw
  pub string_value_map : Raw → InstanceAttributes
  pub operation_status_success : String
  pub operation_status_fail : String
  pub new_error : String → E
  pub poll_until : Exec W E Bool → Exec W E (Unit {0})

-- cache.LRUExpireCache. `store` is a write through the pointer that `get` returned.
pub record LruExpireCache (W : Type 0) : Type 0 where
  pub get : String → W → Option InstancesAttrsCacheItem × W
  pub add : String → InstancesAttrsCacheItem → W → W
  pub store : String → InstancesAttrsCacheItem → W → W

module _ (sdk : AwsSdk) {W E Raw : Type 0} (cloud_map : CloudMapSdk W E Raw)
    (lru : LruExpireCache W) where
  -- `if !exists { return }`, and the dereference of the operation's date.
  unfoldable pub record_operation :
      (ℕ → InstancesAttrsCacheItem → InstancesAttrsCacheItem)
      → String
      → Operation
      → Exec W E (Unit {0})
  record_operation change service_id operation w =
      go (lru.get service_id w).0 operation.update_date (lru.get service_id w).1
    where
      go : Option InstancesAttrsCacheItem → Option ℕ → Exec W E (Unit {0})
      go none date w' = (ok tt, w')
      go (some item) none w' = (panic, w')
      go (some item) (some date) w' = (ok tt, lru.store service_id (change date item) w')

  unfoldable pub record_successful_register_instance_operation :
      String → String → InstanceAttributes → Operation → Exec W E (Unit {0})
  record_successful_register_instance_operation service_id id attrs operation =
      record_operation (record_registration id attrs) service_id operation

  unfoldable pub record_successful_deregister_instance_operation :
      String → String → Operation → Exec W E (Unit {0})
  record_successful_deregister_instance_operation service_id id operation =
      record_operation (record_deregistration id) service_id operation

  -- The test that wait.PollUntil repeats.
  unfoldable pub poll_operation : (Operation → Exec W E (Unit {0})) → Option String → Exec W E Bool
  poll_operation record_success operation_id = do
    operation ← cloud_map.get_operation operation_id
    if sdk.string_value operation.status == cloud_map.operation_status_success
        then (do record_success operation; pure true)
        else if sdk.string_value operation.status == cloud_map.operation_status_fail
        then throw (cloud_map.new_error (sdk.string_value operation.error_message))
        else pure false

  unfoldable pub register_instance : String → String → InstanceAttributes → Exec W E (Unit {0})
  register_instance service_id id attrs = do
    operation_id ← cloud_map.register_instance service_id id (cloud_map.string_map attrs)
    cloud_map.poll_until (
        poll_operation (record_successful_register_instance_operation service_id id attrs)
          operation_id)

  unfoldable pub deregister_instance : String → String → Exec W E (Unit {0})
  deregister_instance service_id id = do
    operation_id ← cloud_map.deregister_instance service_id id
    cloud_map.poll_until (
        poll_operation (record_successful_deregister_instance_operation service_id id) operation_id)

  unfoldable pub attributes_by_id :
      List (Instance Raw) → Dict String InstanceAttributes → Dict String InstanceAttributes
  attributes_by_id [] d = d
  attributes_by_id (i ∷ is) d =
      attributes_by_id is
        (Dict.insert (sdk.string_value i.id) (cloud_map.string_value_map i.attributes) d)

  unfoldable pub list_instances_from_aws : String → Exec W E (Dict String InstanceAttributes)
  list_instances_from_aws service_id = do
    instances ← cloud_map.list_instances_pages service_id
    pure (attributes_by_id instances [])

  unfoldable pub list_and_add : String → Exec W E (Dict String InstanceAttributes)
  list_and_add service_id = do
    attrs ← list_instances_from_aws service_id
    λ w. (
      ok attrs,
      lru.add service_id (record { instance_attrs_by_id = attrs; last_updated_time_by_id = [] }) w,
    )

  -- A map that is returned is a copy, so it is a value here.
  unfoldable pub list_instances : String → Exec W E (Dict String InstanceAttributes)
  list_instances service_id w = go (lru.get service_id w).0 (lru.get service_id w).1
    where
      go : Option InstancesAttrsCacheItem → Exec W E (Dict String InstanceAttributes)
      go none = list_and_add service_id
      go (some item) = pure item.instance_attrs_by_id
