-- ===== src/CloudMap/Task/Settles.antt =====
-- When a request is answered without an error, the listed instances are as desired.
use aws_app_mesh_controller.Base.{String, true, ◌||◌, Option, some, is_some, ◌≡◌, string_eq}
use aws_app_mesh_controller.Base.Dict
use aws_app_mesh_controller.Base.Dict.{Dict}
use aws_app_mesh_controller.CloudMap.{InstanceAttributes, InstanceInfo, same_attributes}
use aws_app_mesh_controller.CloudMap.Task.{Request, Task}

module _ {Pod : Type 0} where
  -- An instance is as desired: if it should be ready it exists with its attributes, if it should
  -- not be ready it has its attributes if it exists, and it exists only if it is desired. The
  -- initial health status plays no role.
  pub record SettledAt (r : Request Pod) (existing : Dict String InstanceAttributes) (id : String)
      : Type 0 where
    pub ready_exists :
        (info : InstanceInfo Pod)
        → Dict.lookup id r.ready ≡ some info
        → (attrs : InstanceAttributes) × (Dict.lookup id existing ≡ some attrs)
          × (same_attributes info.attrs attrs ≡ true)
    pub unready_same :
        (info : InstanceInfo Pod) (attrs : InstanceAttributes)
        → Dict.lookup id r.unready ≡ some info
        → Dict.lookup id existing ≡ some attrs
        → same_attributes info.attrs attrs ≡ true
    pub desired :
        is_some (Dict.lookup id existing) ≡ true
        → (is_some (Dict.lookup id r.ready) || is_some (Dict.lookup id r.unready)) ≡ true
