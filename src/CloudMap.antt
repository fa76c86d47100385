-- ===== src/CloudMap.antt =====
-- pkg/cloudmap: types.go, utils.go and the plan of instances_reconcile_task.go. A pod is the
-- parameter `Pod` where the program only carries it.
pub mod Plan
pub mod Task
pub mod Cache
pub mod Prober
use aws_app_mesh_controller.Base.{
  ℕ, String, Bool, true, false, not, ◌&&◌, ◌||◌, Option, none, some, List, [], ◌∷◌, ◌==◌, ◌<>◌,
  if◌then◌else◌, string_eq, option_eq,
}
use aws_app_mesh_controller.Base.Dict
use aws_app_mesh_controller.Base.Dict.{Dict}
use aws_app_mesh_controller.Base.Sets.{StringSets}
use aws_app_mesh_controller.Api.Mesh.{Mesh}
use aws_app_mesh_controller.Api.VirtualNode.{VirtualNode}
use aws_app_mesh_controller.References.{AwsSdk}

-- corev1.PodCondition, and the fields of corev1.Pod that are read.
pub record PodCondition : Type 0 where
  pub type : String
  pub status : String
  pub last_probe_time : ℕ
  pub last_transition_time : ℕ
  pub reason : String
  pub message : String

pub record PodState : Type 0 where
  pub conditions : List PodCondition
  pub restart_policy : String
  pub phase : String

unfoldable pub any_containers_ready : List PodCondition → Bool
any_containers_ready [] = false
any_containers_ready (c ∷ cs) =
    c.type == "ContainersReady" && c.status == "True" || any_containers_ready cs

unfoldable pub are_pod_containers_ready : PodState → Bool
are_pod_containers_ready p = any_containers_ready p.conditions

unfoldable pub should_pod_be_in_endpoints : PodState → Bool
should_pod_be_in_endpoints p =
    if p.restart_policy == "Never"
    then not (p.phase == "Failed") && not (p.phase == "Succeeded")
    else if p.restart_policy == "OnFailure"
    then not (p.phase == "Succeeded")
    else true

-- The type instanceAttributes.
abbrev pub InstanceAttributes : Type 0
InstanceAttributes = Dict String String

pub record InstanceInfo (Pod : Type 0) : Type 0 where
  pub attrs : InstanceAttributes
  pub pod : Option Pod

-- The subset of a service that one virtual node manages.
module _ (sdk : AwsSdk) {Selector : Type 0} (ms : Mesh Selector) (vn : VirtualNode Selector) where
  unfoldable pub subset_id : String
  subset_id = sdk.string_value ms.spec.aws_name <> "/" <> sdk.string_value vn.spec.aws_name

  -- A missing attribute reads as "".
  unfoldable pub attribute : String → InstanceAttributes → String
  attribute key attrs = elim (Dict.lookup key attrs) [ none ↦ "" | some v ↦ v ]

  unfoldable pub subset_contains : String → InstanceAttributes → Bool
  subset_contains instance_id attrs =
      attribute "appmesh.k8s.aws/mesh" attrs == sdk.string_value ms.spec.aws_name
      && attribute "appmesh.k8s.aws/virtualNode" attrs == sdk.string_value vn.spec.aws_name

abbrev pub attr_aws_init_health_status : String
attr_aws_init_health_status = "AWS_INIT_HEALTH_STATUS"

-- cmp.Equal that leaves the initial health status out of both maps.
unfoldable pub same_attributes : InstanceAttributes → InstanceAttributes → Bool
same_attributes a b =
    Dict.same_map (Dict.erase attr_aws_init_health_status a)
      (Dict.erase attr_aws_init_health_status b)

module _ {Pod : Type 0} where
  -- `desiredInfo.attrs[attrAWSInitHealthStatus] = …`. The map is the request's own: what is written
  -- is overwritten before it is read when the same request is reconciled again.
  unfoldable pub with_init_status : String → InstanceInfo Pod → InstanceInfo Pod
  with_init_status status info = record info {
    attrs = Dict.insert attr_aws_init_health_status status info.attrs;
  }

  -- The update of an instance that exists, if its attributes change: it keeps its initial status.
  unfoldable pub changed_info :
      String → InstanceInfo Pod → InstanceAttributes → Option (InstanceInfo Pod)
  changed_info default info existing =
      if same_attributes info.attrs existing
      then none
      else some (
          with_init_status
            (elim (Dict.lookup attr_aws_init_health_status existing) [
              | none ↦ default
              | some status ↦ status
            ])
            info)

  -- A ready instance is created if it does not exist.
  unfoldable pub ready_change :
      InstanceInfo Pod → Option InstanceAttributes → Option (InstanceInfo Pod)
  ready_change info none = some (with_init_status "HEALTHY" info)
  ready_change info (some existing) = changed_info "HEALTHY" info existing

  -- An instance that is not ready is only updated.
  unfoldable pub unready_change :
      InstanceInfo Pod → Option InstanceAttributes → Option (InstanceInfo Pod)
  unready_change info none = none
  unready_change info (some existing) = changed_info "UNHEALTHY" info existing

  unfoldable pub insert_if :
      String
      → Option (InstanceInfo Pod)
      → Dict String (InstanceInfo Pod)
      → Dict String (InstanceInfo Pod)
  insert_if id none d = d
  insert_if id (some info) d = Dict.insert id info d

  -- `for instanceID, desiredInfo := range desired`
  unfoldable pub insert_changes :
      (InstanceInfo Pod → Option InstanceAttributes → Option (InstanceInfo Pod))
      → Dict String InstanceAttributes
      → Dict String (InstanceInfo Pod)
      → Dict String (InstanceInfo Pod)
      → Dict String (InstanceInfo Pod)
  insert_changes change existing [] d = d
  insert_changes change existing ((id, info) ∷ rest) d =
      insert_changes change existing rest (insert_if id (change info (Dict.lookup id existing)) d)

  module _ (sets : StringSets) where
    -- The instances to create or update, and those to delete.
    unfoldable pub match_desired_instances_against_existing_instances :
        Dict String (InstanceInfo Pod)
        → Dict String (InstanceInfo Pod)
        → Dict String InstanceAttributes
        → Dict String (InstanceInfo Pod) × List String
    match_desired_instances_against_existing_instances ready unready existing = (
      insert_changes unready_change existing unready
          (insert_changes ready_change existing ready []),
      sets.list (
          sets.difference (sets.key_set (Dict.keys existing))
            (sets.union (sets.key_set (Dict.keys ready)) (sets.key_set (Dict.keys unready)))),
    )

-- The listed instances of the subset.
unfoldable pub subset_instances :
    (String → InstanceAttributes → Bool)
    → Dict String InstanceAttributes
    → Dict String InstanceAttributes
subset_instances in_subset [] = []
subset_instances in_subset ((id, attrs) ∷ rest) =
    let others = subset_instances in_subset rest in
    if in_subset id attrs then (id, attrs) ∷ others else others
