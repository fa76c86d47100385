-- ===== src/Api/Meta.antt =====
-- The parts of k8s metadata that the program reads, keys of objects, and the status condition
-- that every resource of apis/appmesh/v1beta2 declares with the same fields.
use aws_app_mesh_controller.Base.{ℕ, String, Option, List}
use aws_app_mesh_controller.Base.Dict.{Dict}
use aws_app_mesh_controller.Base.Int.{ℤ}

-- metav1.ObjectMeta. `none` as deletion timestamp is the zero time.
pub record ObjectMeta : Type 0 where
  pub name : String
  pub namespace : String
  pub uid : String
  pub labels : Dict String String
  pub finalizers : List String
  pub generation : ℤ
  pub deletion_timestamp : Option ℕ

-- types.NamespacedName
pub record NamespacedName : Type 0 where
  pub namespace : String
  pub name : String

-- MeshCondition, VirtualNodeCondition and so on.
pub record Condition : Type 0 where
  pub type : String
  pub status : String
  pub last_transition_time : Option ℕ
  pub reason : Option String
  pub message : Option String
