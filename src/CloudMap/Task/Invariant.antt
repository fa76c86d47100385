-- ===== src/CloudMap/Task/Invariant.antt =====
-- An instance has at most one operation under way, and the task knows which have one.
use aws_app_mesh_controller.Base.{
  String, Bool, true, false, not, ◌&&◌, none, some, List, [], ◌∷◌, map, contains, select, Distinct,
  ◌==◌, ◌≡◌, refl, sym, ◌∙◌, arith, if◌then◌else◌, string_eq, Bool-cases, inl, inr,
}
use aws_app_mesh_controller.Base.Dict.{Dict}
use aws_app_mesh_controller.Base.Sets.{StringSets, StringSetLaws}
use aws_app_mesh_controller.CloudMap.{InstanceAttributes}
use aws_app_mesh_controller.CloudMap.Task.{
  Request, Operation, instance_id, Listing, listed, list_failed, Input, context_done, new_request,
  completed, Task, Loop, at_select, returned, new_task, start, start_all, wanted_operations,
  reconcile, is_idle, finish, turn, receive, Step, turns, receives, Reach, begins, continues,
  task_of,
}

module _ {Pod : Type 0} (id : String) where
  contains-dropped :
      (os : List (Operation Pod)) (n : String)
      → contains (map instance_id (select (λ o. not (instance_id o == id)) os)) n
        ≡ (not (n == id) && contains (map instance_id os) n)
  unfolding select
  contains-dropped [] n = ground arith
  contains-dropped (o ∷ os) n = elim (Bool-cases (instance_id o == id)) [
    | inl e ↦ ground (arith, contains-dropped os n, e)
    | inr e ↦ ground (arith, contains-dropped os n, e)
  ]

  dropped-Distinct :
      (os : List (Operation Pod))
      → Distinct (map instance_id os)
      → Distinct (map instance_id (select (λ o. not (instance_id o == id)) os))
  unfolding select
  dropped-Distinct [] d = tt
  dropped-Distinct (o ∷ os) d = go (not (instance_id o == id)) (dropped-Distinct os d.1)
    where
      go :
          (b : Bool)
          → Distinct (map instance_id (select (λ o. not (instance_id o == id)) os))
          → Distinct (
              map instance_id (
                if b
                then o ∷ select (λ o. not (instance_id o == id)) os
                else select (λ o. not (instance_id o == id)) os))
      go true rest = (ground (arith, contains-dropped os (instance_id o), d.0), rest)
      go false rest = rest

module _ (sets : StringSets) (set_laws : StringSetLaws sets) {Pod : Type 0} where
  pub record Tracks (t : Task sets Pod) : Type 0 where
    pub tracked :
        (n : String) → contains (sets.list t.ongoing) n ≡ contains (map instance_id t.in_flight) n
    pub single : Distinct (map instance_id t.in_flight)

  start-Tracks : (o : Operation Pod) (t : Task sets Pod) → Tracks t → Tracks (start sets o t)
  unfolding start
  start-Tracks o t h = go (contains (sets.list t.ongoing) (instance_id o)) refl
    where
      go :
          (b : Bool)
          → contains (sets.list t.ongoing) (instance_id o) ≡ b
          → Tracks (
              if b then t else record t {
                ongoing = sets.insert (instance_id o) t.ongoing;
                in_flight = o ∷ t.in_flight;
              })
      go true e = h
      go false e = record {
        tracked =
            λ n. ground (arith, set_laws.contains-insert (instance_id o) t.ongoing n, h.tracked n);
        single = (sym (h.tracked (instance_id o)) ∙ e, h.single);
      }

  start_all-Tracks :
      (os : List (Operation Pod)) (t : Task sets Pod) → Tracks t → Tracks (start_all sets os t)
  unfolding start_all
  start_all-Tracks [] t h = h
  start_all-Tracks (o ∷ os) t h = start_all-Tracks os (start sets o t) (start-Tracks o t h)

  pub reconcile-Tracks :
      (all : Dict String InstanceAttributes) (t : Task sets Pod)
      → Tracks t
      → Tracks (reconcile sets all t)
  unfolding reconcile
  reconcile-Tracks all t = start_all-Tracks (wanted_operations sets t.request all) t

  finish-Tracks : (id : String) (t : Task sets Pod) → Tracks t → Tracks (finish sets id t)
  unfolding finish
  finish-Tracks id t h = record {
    tracked = λ n. ground (
      arith,
      set_laws.contains-delete id t.ongoing n,
      h.tracked n,
      contains-dropped id t.in_flight n,
    );
    single = dropped-Distinct id t.in_flight h.single;
  }

  new_task-Tracks : (r : Request Pod) → Tracks (new_task sets r)
  unfolding new_task
  new_task-Tracks r = record { tracked = λ n. set_laws.contains-key_set [] n; single = tt }

  module _ {E : Type 0} where
    turn-Tracks :
        (l : Listing E) (t : Task sets Pod) → Tracks t → Tracks (task_of sets (turn sets l t))
    unfolding turn
    turn-Tracks (list_failed e) t h = h
    turn-Tracks (listed all) t h = go (is_idle sets (reconcile sets all t))
      where
        go :
            (b : Bool)
            → Tracks (
                task_of sets {E = E} (
                  if b
                  then returned none (reconcile sets all t)
                  else at_select (reconcile sets all t)))
        go true = reconcile-Tracks all t h
        go false = reconcile-Tracks all t h

    receive-Tracks :
        (i : Input E Pod) (t : Task sets Pod) → Tracks t → Tracks (task_of sets (receive sets i t))
    unfolding receive
    receive-Tracks (context_done e) t h = h
    receive-Tracks (new_request r) t h = record { tracked = h.tracked; single = h.single }
    receive-Tracks (completed id none) t h = finish-Tracks id t h
    receive-Tracks (completed id (some e)) t h = finish-Tracks id t h

    Step-Tracks :
        {l m : Loop sets E Pod} → Step sets l m → Tracks (task_of sets l) → Tracks (task_of sets m)
    Step-Tracks (turns l t) h = turn-Tracks l t h
    Step-Tracks (receives i t fits) h = receive-Tracks i t h

    -- With sets that keep their laws: in every state that a task reaches, the instances that it counts
    -- as ongoing are those that have an operation under way, and each of them has one only.
    pub Reach-Tracks :
        (r : Request Pod) {l : Loop sets E Pod} → Reach sets r l → Tracks (task_of sets l)
    Reach-Tracks r begins = new_task-Tracks r
    Reach-Tracks r (continues before step) = Step-Tracks step (Reach-Tracks r before)
