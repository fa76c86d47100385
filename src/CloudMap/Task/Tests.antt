-- ===== src/CloudMap/Task/Tests.antt =====
-- One instance, from its registration to the answer of the request.
use aws_app_mesh_controller.Base.{
  ℕ, String, true, none, [], ◌∷◌, ◌≡◌, refl, contains, select, string_eq,
}
use aws_app_mesh_controller.Base.Dict
use aws_app_mesh_controller.Base.Dict.{Dict}
use aws_app_mesh_controller.Routes.Reconcile.Memory.{list_sets, list_sets-laws}
use aws_app_mesh_controller.CloudMap.{
  InstanceAttributes, InstanceInfo, attr_aws_init_health_status, with_init_status, ready_change,
  unready_change, insert_if, insert_changes, subset_instances,
  match_desired_instances_against_existing_instances,
}
use aws_app_mesh_controller.CloudMap.Plan.{change_at, or_else, match-plan}
use aws_app_mesh_controller.CloudMap.Task.{
  Request, register_instance, listed, Task, at_select, new_task, start, start_all,
  wanted_operations, reconcile, is_idle, turn, turns, Reach, begins, continues,
}
use aws_app_mesh_controller.CloudMap.Task.Invariant.{Tracks, Reach-Tracks}

abbrev wanted : InstanceInfo (Unit {0})
wanted = record { attrs = ("AWS_INSTANCE_IPV4", "10.0.0.1") ∷ []; pod = none }

abbrev registered : InstanceInfo (Unit {0})
registered = record {
  attrs = ("AWS_INSTANCE_IPV4", "10.0.0.1") ∷ (attr_aws_init_health_status, "HEALTHY") ∷ [];
  pod = none;
}

abbrev request : Request (Unit {0})
request = record {
  service_id = "s";
  in_subset = λ id attrs. true;
  ready = ("i", wanted) ∷ [];
  unready = [];
}

abbrev idle_task : Task list_sets (Unit {0})
idle_task = record { request = request; ongoing = []; in_flight = [] }

abbrev busy_task : Task list_sets (Unit {0})
busy_task = record {
  request = request;
  ongoing = "i" ∷ [];
  in_flight = register_instance "i" registered ∷ [];
}

abbrev listing : Dict String InstanceAttributes
listing = ("i", registered.attrs) ∷ []

waiting : Reach list_sets {E = ℕ} request (at_select busy_task)
unfolding new_task turn reconcile wanted_operations is_idle start start_all subset_instances
    match_desired_instances_against_existing_instances insert_changes insert_if ready_change
    with_init_status Dict.lookup Dict.insert Dict.keys select string_eq
waiting = continues begins (turns (listed []) idle_task)

Reach-Tracks_example : Tracks list_sets list_sets-laws busy_task
Reach-Tracks_example = Reach-Tracks list_sets list_sets-laws request waiting

match-plan_example :
    (Dict.lookup "j"
        (match_desired_instances_against_existing_instances list_sets request.ready []
          (("j", []) ∷ [])).0
      ≡ or_else
          (change_at unready_change [] (("j", []) ∷ []) "j")
          (change_at ready_change request.ready (("j", []) ∷ []) "j"))
    × (contains
          (match_desired_instances_against_existing_instances list_sets request.ready []
            (("j", []) ∷ [])).1
          "j"
        ≡ true)
unfolding Dict.lookup string_eq Dict.keys
match-plan_example =
    match-plan list_sets list_sets-laws request.ready [] (("j", []) ∷ []) "j" (refl, tt) tt
