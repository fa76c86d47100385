-- ===== src/CloudMap/Task.antt =====
-- instances_reconcile_task.go: the loop of one task, as steps. A task has one request at a time;
-- the operations that it starts run beside it and report on a channel when they are done. What
-- a listing of the instances shows, and what comes next on the channels, is chosen outside.
pub mod Invariant
pub mod Settles
mod Tests
use aws_app_mesh_controller.Base.{
  String, Bool, true, false, not, Option, none, some, List, [], ◌∷◌, ◌++◌, map, contains, select,
  ◌==◌, ◌≡◌, if◌then◌else◌, string_eq,
}
use aws_app_mesh_controller.Base.Dict.{Dict}
use aws_app_mesh_controller.Base.Sets.{StringSets}
use aws_app_mesh_controller.CloudMap.{
  InstanceAttributes, InstanceInfo, match_desired_instances_against_existing_instances,
  subset_instances,
}

-- instancesReconcileRequest without its result channel: the answer is part of the loop's state.
pub record Request (Pod : Type 0) : Type 0 where
  pub service_id : String
  pub in_subset : String → InstanceAttributes → Bool
  pub ready : Dict String (InstanceInfo Pod)
  pub unready : Dict String (InstanceInfo Pod)

-- A goroutine of the task: a call of the instances cache, and then its result on the channel.
pub data Operation (Pod : Type 0) : Type 0 where
  register_instance : String → InstanceInfo Pod → Operation Pod
  deregister_instance : String → Operation Pod

abbrev pub instance_id : {Pod : Type 0} → Operation Pod → String
instance_id (register_instance id info) = id
instance_id (deregister_instance id) = id

abbrev pub registrations : {Pod : Type 0} → Dict String (InstanceInfo Pod) → List (Operation Pod)
registrations [] = []
registrations ((id, info) ∷ rest) = register_instance id info ∷ registrations rest

abbrev pub deregistrations : {Pod : Type 0} → List String → List (Operation Pod)
deregistrations [] = []
deregistrations (id ∷ ids) = deregister_instance id ∷ deregistrations ids

-- ListInstances: the attributes by ID, or an error.
pub data Listing (E : Type 0) : Type 0 where
  listed : Dict String InstanceAttributes → Listing E
  list_failed : E → Listing E

-- What the `select` of the loop receives.
pub data Input (E Pod : Type 0) : Type 0 where
  context_done : E → Input E Pod
  new_request : Request Pod → Input E Pod
  completed : String → Option E → Input E Pod

module _ (sets : StringSets) where
  -- instancesReconcileTask: `ongoing` is instancesWithOngoingOperation, and `in_flight` the goroutines
  -- whose result was not received yet.
  pub record Task (Pod : Type 0) : Type 0 where
    pub request : Request Pod
    pub ongoing : sets.StringSet
    pub in_flight : List (Operation Pod)

  -- Before the listing, before the `select`, or at an end: the error that the request is answered
  -- with, or none.
  pub data Loop (E Pod : Type 0) : Type 0 where
    at_top : Task Pod → Loop E Pod
    at_select : Task Pod → Loop E Pod
    returned : Option E → Task Pod → Loop E Pod

  module _ {Pod : Type 0} where
    unfoldable pub new_task : Request Pod → Task Pod
    new_task r = record { request = r; ongoing = sets.key_set []; in_flight = [] }

    -- An instance with an operation that is under way is passed over.
    unfoldable pub start : Operation Pod → Task Pod → Task Pod
    start o t = if contains (sets.list t.ongoing) (instance_id o) then t else record t {
      ongoing = sets.insert (instance_id o) t.ongoing;
      in_flight = o ∷ t.in_flight;
    }

    unfoldable pub start_all : List (Operation Pod) → Task Pod → Task Pod
    start_all [] t = t
    start_all (o ∷ os) t = start_all os (start o t)

    -- What a listing asks for.
    unfoldable pub wanted_operations :
        Request Pod → Dict String InstanceAttributes → List (Operation Pod)
    wanted_operations r all =
        let plan =
          match_desired_instances_against_existing_instances sets r.ready r.unready
            (subset_instances r.in_subset all) in
        registrations plan.0 ++ deregistrations plan.1

    unfoldable pub reconcile : Dict String InstanceAttributes → Task Pod → Task Pod
    reconcile all t = start_all (wanted_operations t.request all) t

    -- `len(t.instancesWithOngoingOperation) == 0`
    unfoldable pub is_idle : Task Pod → Bool
    is_idle t = elim (sets.list t.ongoing) [ [] ↦ true | _ ∷ _ ↦ false ]

    -- The result of an operation is received.
    unfoldable pub finish : String → Task Pod → Task Pod
    finish id t = record t {
      ongoing = sets.delete id t.ongoing;
      in_flight = select (λ o. not (instance_id o == id)) t.in_flight;
    }

  module _ {E Pod : Type 0} where
    unfoldable pub turn : Listing E → Task Pod → Loop E Pod
    turn (list_failed e) t = returned (some e) t
    turn (listed all) t =
        if is_idle (reconcile all t)
        then returned none (reconcile all t)
        else at_select (reconcile all t)

    unfoldable pub receive : Input E Pod → Task Pod → Loop E Pod
    receive (context_done e) t = returned (some e) t
    receive (new_request r) t = at_top (record t { request = r })
    receive (completed id none) t = at_top (finish id t)
    receive (completed id (some e)) t = returned (some e) (finish id t)

    -- A result comes from an operation that is under way.
    abbrev pub Fits : Input E Pod → Task Pod → Type 0
    Fits (context_done e) t = Unit {0}
    Fits (new_request r) t = Unit {0}
    Fits (completed id o) t = (contains (map instance_id t.in_flight) id ≡ true)

    -- One step of Run.
    pub data Step : Loop E Pod → Loop E Pod → Type 0 where
      turns : (l : Listing E) (t : Task Pod) → Step (at_top t) (turn l t)
      receives : (i : Input E Pod) (t : Task Pod) → Fits i t → Step (at_select t) (receive i t)

    -- The states of a task that was made for a request.
    pub data Reach (r : Request Pod) : Loop E Pod → Type 0 where
      begins : Reach r (at_top (new_task r))
      continues : {l m : Loop E Pod} → Reach r l → Step l m → Reach r m

    abbrev pub task_of : Loop E Pod → Task Pod
    task_of (at_top t) = t
    task_of (at_select t) = t
    task_of (returned o t) = t
