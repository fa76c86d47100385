-- ===== src/CloudMap/Plan.antt =====
-- What the plan of a reconciliation says of each instance.
use aws_app_mesh_controller.Base.{
  String, Bool, true, false, not, ◌&&◌, ◌||◌, Option, none, some, [], ◌∷◌, ◌==◌, ==-eq, ◌≡◌, refl,
  sym, ap, ◌∙◌, arith, contains, is_some, Distinct, if◌then◌else◌, string_eq,
}
use aws_app_mesh_controller.Base.Dict
use aws_app_mesh_controller.Base.Dict.{Dict}
use aws_app_mesh_controller.Base.Sets.{StringSets, StringSetLaws}
use aws_app_mesh_controller.CloudMap.{
  InstanceAttributes, InstanceInfo, ready_change, unready_change, insert_if, insert_changes,
  match_desired_instances_against_existing_instances,
}

module _ {Pod : Type 0} where
  -- The change of one instance by a loop, if any.
  abbrev pub change_at :
      (InstanceInfo Pod → Option InstanceAttributes → Option (InstanceInfo Pod))
      → Dict String (InstanceInfo Pod)
      → Dict String InstanceAttributes
      → String
      → Option (InstanceInfo Pod)
  change_at change desired existing id = elim (Dict.lookup id desired) [
    | none ↦ none
    | some info ↦ change info (Dict.lookup id existing)
  ]

  abbrev pub or_else :
      Option (InstanceInfo Pod) → Option (InstanceInfo Pod) → Option (InstanceInfo Pod)
  or_else none o = o
  or_else (some i) o = some i

  or_else-none : (o : Option (InstanceInfo Pod)) → or_else o none ≡ o
  or_else-none none = refl
  or_else-none (some i) = refl

  lookup-insert_if :
      (j id : String) (o : Option (InstanceInfo Pod)) (d : Dict String (InstanceInfo Pod))
      → Dict.lookup j (insert_if id o d)
        ≡ (if j == id then or_else o (Dict.lookup j d) else Dict.lookup j d)
  unfolding insert_if
  lookup-insert_if j id none d = ground arith
  lookup-insert_if j id (some i) d = Dict.lookup-insert j id i d

  absent :
      (id : String) (d : Dict String (InstanceInfo Pod))
      → contains (Dict.keys d) id ≡ false
      → Dict.lookup id d ≡ none
  absent id d e = go (Dict.lookup id d) (sym (Dict.contains-keys d id) ∙ e)
    where
      go : (o : Option (InstanceInfo Pod)) → is_some o ≡ false → o ≡ none
      go none h = refl
      go (some i) h = cc h

  -- Each instance is changed by the entry under its own ID.
  lookup-insert_changes :
      (change : InstanceInfo Pod → Option InstanceAttributes → Option (InstanceInfo Pod))
      (existing : Dict String InstanceAttributes) (desired d : Dict String (InstanceInfo Pod))
      (j : String)
      → Distinct (Dict.keys desired)
      → Dict.lookup j (insert_changes change existing desired d)
        ≡ or_else (change_at change desired existing j) (Dict.lookup j d)
  unfolding insert_changes Dict.keys Dict.lookup
  lookup-insert_changes change existing [] d j distinct = refl
  lookup-insert_changes change existing ((id, info) ∷ rest) d j distinct =
      lookup-insert_changes change existing rest
        (insert_if id (change info (Dict.lookup id existing)) d) j distinct.1
      ∙ ap (or_else (change_at change rest existing j))
          (lookup-insert_if j id (change info (Dict.lookup id existing)) d)
      ∙ go (j == id) refl
    where
      go :
          (b : Bool)
          → (j == id) ≡ b
          → or_else (change_at change rest existing j) (
              if b
              then or_else (change info (Dict.lookup id existing)) (Dict.lookup j d)
              else Dict.lookup j d)
            ≡ or_else
                (elim (if b then some info else Dict.lookup j rest) [
                  | none ↦ none
                  | some i ↦ change i (Dict.lookup j existing)
                ])
                (Dict.lookup j d)
      go true e =
          let same : j ≡ id = ==-eq e in
          let gone : Dict.lookup j rest ≡ none =
            ap (λ k. Dict.lookup k rest) same ∙ absent id rest distinct.0 in
          ap
            (λ (o : Option (InstanceInfo Pod)).
              or_else (elim o [ none ↦ none | some i ↦ change i (Dict.lookup j existing) ])
                (or_else (change info (Dict.lookup id existing)) (Dict.lookup j d)))
            gone
          ∙ ap (λ k. or_else (change info (Dict.lookup k existing)) (Dict.lookup j d)) (sym same)
      go false e = refl

  module _ (sets : StringSets) (set_laws : StringSetLaws sets)
      (ready unready : Dict String (InstanceInfo Pod))
      (existing : Dict String InstanceAttributes) where
    -- With sets that keep their laws, and maps without double keys: the change of an instance that is
    -- not ready goes before the change of a ready one, each is planned under the ID of its entry,
    -- and the existing instances that are not desired are deleted.
    pub match-plan :
        (id : String)
        → Distinct (Dict.keys ready)
        → Distinct (Dict.keys unready)
        → (Dict.lookup id
              (match_desired_instances_against_existing_instances sets ready unready existing).0
            ≡ or_else
                (change_at unready_change unready existing id)
                (change_at ready_change ready existing id))
          × (contains
                (match_desired_instances_against_existing_instances sets ready unready existing).1
                id
              ≡ (is_some (Dict.lookup id existing)
                  && not (is_some (Dict.lookup id ready) || is_some (Dict.lookup id unready))))
    unfolding match_desired_instances_against_existing_instances
    match-plan id dr du =
        let none_yet : Path (Option (InstanceInfo Pod)) (Dict.lookup id []) none =
          Dict.lookup-nil id in
        (
          lookup-insert_changes unready_change existing unready _ id du
              ∙ ap (or_else (change_at unready_change unready existing id)) (
                  lookup-insert_changes ready_change existing ready [] id dr
                  ∙ ap (or_else (change_at ready_change ready existing id)) none_yet
                  ∙ or_else-none (change_at ready_change ready existing id)),
          ground (
            arith,
            set_laws.contains-difference (sets.key_set (Dict.keys existing))
                (sets.union (sets.key_set (Dict.keys ready)) (sets.key_set (Dict.keys unready))) id,
            set_laws.contains-union (sets.key_set (Dict.keys ready))
                (sets.key_set (Dict.keys unready)) id,
            set_laws.contains-key_set (Dict.keys existing) id,
            set_laws.contains-key_set (Dict.keys ready) id,
            set_laws.contains-key_set (Dict.keys unready) id,
            Dict.contains-keys existing id,
            Dict.contains-keys ready id,
            Dict.contains-keys unready id,
          ),
        )
