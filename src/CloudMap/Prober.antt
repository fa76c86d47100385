-- ===== src/CloudMap/Prober.antt =====
-- pkg/cloudmap/instances_health_prober.go, and the conditions of pods in pkg/k8s/pod_utils.go: a pod is
-- told that its instance is healthy once Cloud Map has said so for some time.
pub mod Stable
mod Tests
use aws_app_mesh_controller.Base.{
  ℕ, String, Bool, true, false, not, ◌||◌, Option, none, some, List, [], ◌∷◌, ◌++◌, map, Result, ok,
  err, panic, ltb, eqb, ◌+◌, ◌==◌, if◌then◌else◌, is_some, string_eq, Eq,
}
use aws_app_mesh_controller.Base.Exec.{Exec, ◌>>=◌, ◌>>◌, pure}
use aws_app_mesh_controller.Base.Dict
use aws_app_mesh_controller.Base.Dict.{Dict}
use aws_app_mesh_controller.Api.Meta.{NamespacedName}
use aws_app_mesh_controller.References.{AwsSdk}
use aws_app_mesh_controller.CloudMap.{PodCondition, InstanceInfo}

abbrev pub condition_aws_cloud_map_healthy : String
condition_aws_cloud_map_healthy = "conditions.appmesh.k8s.aws/aws-cloudmap-healthy"

unfoldable pub get_pod_condition : String → List PodCondition → Option PodCondition
get_pod_condition type [] = none
get_pod_condition type (c ∷ cs) = if c.type == type then some c else get_pod_condition type cs

-- A write through the pointer that GetPodCondition returns.
unfoldable pub set_pod_condition : PodCondition → List PodCondition → List PodCondition
set_pod_condition new [] = []
set_pod_condition new (c ∷ cs) =
    if c.type == new.type then new ∷ cs else c ∷ set_pod_condition new cs

-- The readings of the clock are one, `now`.
unfoldable pub update_pod_condition :
    AwsSdk
    → ℕ
    → String
    → String
    → Option String
    → Option String
    → List PodCondition
    → Bool × List PodCondition
update_pod_condition sdk now type status reason message cs = elim (get_pod_condition type cs) [
  | none ↦ (
    true,
    cs
        ++ (record {
          type = type;
          status = status;
          last_probe_time = now;
          last_transition_time = now;
          reason = sdk.string_value reason;
          message = sdk.string_value message;
        }
            ∷ []),
  )
  | some c ↦ (
    true,
    set_pod_condition
        (record {
          type = c.type;
          status = status;
          last_probe_time = now;
          last_transition_time = if c.status == status then c.last_transition_time else now;
          reason = sdk.string_value reason;
          message = sdk.string_value message;
        })
        cs,
  )
]

-- corev1.Pod, as far as the prober reads it.
pub record ProbedPod : Type 0 where
  pub key : NamespacedName
  pub conditions : List PodCondition

-- Times count from the zero time.
pub record InstanceProbeEntry : Type 0 where
  pub instance_id : String
  pub instance_info : InstanceInfo ProbedPod
  pub last_transition_time : ℕ
  pub last_healthy_status : Bool

-- The clock, and the Kubernetes client. `patch_status` takes the new and the old pod, and answers the
-- pod that is stored. `retry_on_conflict` is retry.RetryOnConflict of client-go.
pub record ProberClient (W E : Type 0) : Type 0 where
  pub now : W → ℕ × W
  pub get_pod : NamespacedName → Exec W E ProbedPod
  pub patch_status : ProbedPod → ProbedPod → Exec W E ProbedPod
  pub retry_on_conflict : Exec W E ProbedPod → Exec W E ProbedPod

-- `if probeEntry.lastTransitionTime.IsZero() || probeEntry.lastHealthyStatus != healthyStatus`
unfoldable pub observe : ℕ → Bool → InstanceProbeEntry → InstanceProbeEntry
observe now healthy_status entry =
    if eqb entry.last_transition_time 0 || not (same entry.last_healthy_status healthy_status)
    then record entry { last_transition_time = now; last_healthy_status = healthy_status }
    else entry
  where
    same : Bool → Bool → Bool
    same true b = b
    same false b = not b

module _ {W E : Type 0} where
  -- Whether to go on probing, and the entry, which is changed whatever is returned.
  unfoldable pub finish_probe_entry :
      Bool → InstanceProbeEntry → Result E ProbedPod × W → (Result E Bool × InstanceProbeEntry) × W
  finish_probe_entry healthy_status entry (ok pod, w) = (
    (
      ok (not healthy_status),
      record entry { instance_info = record entry.instance_info { pod = some pod } },
    ),
    w,
  )
  finish_probe_entry healthy_status entry (err e, w) = ((err e, entry), w)
  finish_probe_entry healthy_status entry (panic, w) = ((panic, entry), w)

module _ (sdk : AwsSdk) {W E : Type 0} (client : ProberClient W E) (transition_duration : ℕ) where
  unfoldable pub patch_pod : Bool → ProbedPod → Exec W E ProbedPod
  patch_pod healthy_status old_pod w =
      let (now, w') = client.now w in
      let (updated, conditions) =
        update_pod_condition sdk now condition_aws_cloud_map_healthy
          (if healthy_status then "True" else "False") none none old_pod.conditions in
      if updated
      then client.patch_status (record old_pod { conditions = conditions }) old_pod w'
      else (ok old_pod, w')

  -- The function that is retried.
  unfoldable pub refresh_pod : Bool → Option ProbedPod → Exec W E ProbedPod
  refresh_pod healthy_status none w = (panic, w)
  refresh_pod healthy_status (some pod) w = (client.get_pod pod.key >>= patch_pod healthy_status) w

  unfoldable pub update_instance_probe_entry :
      InstanceProbeEntry → Bool → W → (Result E Bool × InstanceProbeEntry) × W
  update_instance_probe_entry entry healthy_status w =
      let (now, w₁) = client.now w in
      let entry' = observe now healthy_status entry in
      let (later, w₂) = client.now w₁ in
      if ltb later (entry'.last_transition_time + transition_duration)
      then ((ok true, entry'), w₂)
      else finish_probe_entry healthy_status entry'
          (client.retry_on_conflict (refresh_pod healthy_status entry'.instance_info.pod) w₂)

  -- Whether the entry stays: one whose pod cannot be updated does.
  unfoldable pub continued :
      Exec W E (List InstanceProbeEntry)
      → (Result E Bool × InstanceProbeEntry) × W
      → Result E (List InstanceProbeEntry) × W
  continued rest ((ok true, e), w) = (rest >>= λ es. pure (e ∷ es)) w
  continued rest ((ok false, e), w) = rest w
  continued rest ((err _, e), w) = (rest >>= λ es. pure (e ∷ es)) w
  continued rest ((panic, e), w) = (panic, w)

  unfoldable pub probe_entries :
      (String → Bool) → List InstanceProbeEntry → Exec W E (List InstanceProbeEntry)
  probe_entries healthy [] w = (ok [], w)
  probe_entries healthy (entry ∷ entries) w =
      continued (probe_entries healthy entries)
        (update_instance_probe_entry entry (healthy entry.instance_id) w)

  -- A missing status reads as false.
  unfoldable pub healthy_in : Dict String Bool → String → Bool
  healthy_in statuses id = elim (Dict.lookup id statuses) [ none ↦ false | some b ↦ b ]

  unfoldable pub probe_instances :
      (String → List String → Exec W E (Dict String Bool))
      → String
      → List InstanceProbeEntry
      → Exec W E (List InstanceProbeEntry)
  probe_instances probe_func service_id entries = do
    statuses ← probe_func service_id (map (λ (e : InstanceProbeEntry). e.instance_id) entries)
    probe_entries (healthy_in statuses) entries

pub record ServiceSubsetId : Type 0 where
  pub service_id : String
  pub subset_id : String

service_subset_id_dec : Discrete ServiceSubsetId
service_subset_id_dec = hlevel string_eq.dec

instance unfoldable pub service_subset_id_eq : Eq ServiceSubsetId
unfolding service_subset_id_dec
service_subset_id_eq = record { dec = service_subset_id_dec }

pub record ProbeConfig (W E : Type 0) : Type 0 where
  pub probe_func : String → List String → Exec W E (Dict String Bool)
  pub probe_entries : List InstanceProbeEntry
  pub timeout_time : ℕ

pub record ProbeRequest (W E : Type 0) : Type 0 where
  pub service_subset_id : ServiceSubsetId
  pub probe_func : String → List String → Exec W E (Dict String Bool)
  pub instance_info_by_id : Dict String (InstanceInfo ProbedPod)
  pub timeout : ℕ

abbrev pub new_entry : String × InstanceInfo ProbedPod → InstanceProbeEntry
new_entry (id, info) = record {
  instance_id = id;
  instance_info = info;
  last_transition_time = 0;
  last_healthy_status = false;
}

module _ {W E : Type 0} where
  -- probeLoop: `case probeRequest := <-p.probeRequestChan`.
  unfoldable pub receive_request :
      ℕ
      → ProbeRequest W E
      → Dict ServiceSubsetId (ProbeConfig W E)
      → Dict ServiceSubsetId (ProbeConfig W E)
  receive_request now request configs = elim request.instance_info_by_id [
    | [] ↦ Dict.erase request.service_subset_id configs
    | i ∷ is ↦
        Dict.insert request.service_subset_id
          (record {
            probe_func = request.probe_func;
            probe_entries = map new_entry (i ∷ is);
            timeout_time = now + request.timeout;
          })
          configs
  ]

module _ (sdk : AwsSdk) {W E : Type 0} (client : ProberClient W E) (transition_duration : ℕ) where
  -- What becomes of a configuration: one that cannot be probed stays, and one without entries goes.
  unfoldable pub after_probe :
      ServiceSubsetId
      → ProbeConfig W E
      → (W → Result E (Dict ServiceSubsetId (ProbeConfig W E)) × W)
      → Result E (List InstanceProbeEntry) × W
      → Result E (Dict ServiceSubsetId (ProbeConfig W E)) × W
  after_probe id config rest (ok [], w) = rest w
  after_probe id config rest (ok (e ∷ es), w) =
      (rest >>= λ cs. pure ((id, record config { probe_entries = e ∷ es }) ∷ cs)) w
  after_probe id config rest (err _, w) = (rest >>= λ cs. pure ((id, config) ∷ cs)) w
  after_probe id config rest (panic, w) = (panic, w)

  -- probeLoop: `case <-timer`, with the configurations that are left.
  unfoldable pub on_timer :
      Dict ServiceSubsetId (ProbeConfig W E) → Exec W E (Dict ServiceSubsetId (ProbeConfig W E))
  on_timer [] w = (ok [], w)
  on_timer ((id, config) ∷ configs) w =
      let rest = on_timer configs in
      let (now, w') = client.now w in
      if ltb config.timeout_time now
      then rest w'
      else after_probe id config rest (
          probe_instances sdk client transition_duration config.probe_func id.service_id
            config.probe_entries w')

  -- A pod whose condition is there and "True" is not probed any more.
  unfoldable pub is_blocked : ProbedPod → Bool
  is_blocked pod = elim (get_pod_condition condition_aws_cloud_map_healthy pod.conditions) [
    | none ↦ true
    | some c ↦ not (c.status == "True")
  ]

  unfoldable pub refreshed : InstanceInfo ProbedPod → Exec W E ProbedPod
  refreshed info w = elim info.pod [ none ↦ (panic, w) | some pod ↦ client.get_pod pod.key w ]

  unfoldable pub filter_blocked :
      Dict String (InstanceInfo ProbedPod) → Exec W E (Dict String (InstanceInfo ProbedPod))
  filter_blocked [] = pure []
  filter_blocked ((id, info) ∷ infos) = do
    pod ← refreshed info
    rest ← filter_blocked infos
    pure (if is_blocked pod then (id, record info { pod = some pod }) ∷ rest else rest)
