-- ===== src/Conditions/Update.antt =====
-- What an update of a condition leaves behind.
use aws_app_mesh_controller.Base.{
  ℕ, String, Bool, true, false, Option, some, List, [], ◌∷◌, ◌≡◌, ◌≢◌, refl, sym, subst, ap,
  if◌then◌else◌, string_eq, ◌==◌, ==-refl, ==-eq, arith, Bool-cases, inl, inr,
}
use mathlib.Core.Option.{some-injective}
use aws_app_mesh_controller.Api.Meta.{Condition}
use aws_app_mesh_controller.References.{AwsSdk}
use aws_app_mesh_controller.Conditions.{
  get_condition, is_active, status_changes, reason_changes, message_changes, new_condition,
  update_existing, update_conditions, has_changed,
}

-- The condition has the type and shows what was asked for.
abbrev pub Shows : AwsSdk → String → String → Option String → Option String → Condition → Type 0
Shows sdk type status reason message c =
    (c.type ≡ type)
    × (c.status ≡ status)
    × (sdk.string_value c.reason ≡ sdk.string_value reason)
    × (sdk.string_value c.message ≡ sdk.string_value message)

module _ (sdk : AwsSdk) (now : ℕ) (type status : String) (reason message : Option String) where
  existing-Shows :
      (c : Condition)
      → c.type ≡ type
      → Shows sdk type status reason message (update_existing sdk now type status reason message c)
  unfolding update_existing status_changes reason_changes message_changes
  existing-Shows c e = (e, ground arith, ground arith, ground arith)

  -- After an update the first condition of the type shows the status, the reason and the message.
  pub get_condition-update_conditions :
      (cs : List Condition)
      → (c : Condition) × (get_condition type
            (update_conditions sdk now type status reason message cs)
          ≡ some c)
        × Shows sdk type status reason message c
  unfolding update_conditions get_condition new_condition update_existing
  get_condition-update_conditions [] = (
    new_condition sdk now type status reason message,
    rw (==-refl type) refl,
    (refl, refl, refl, refl),
  )
  get_condition-update_conditions (c ∷ cs) = elim (Bool-cases (c.type == type)) [
    | inl e ↦ rw (e) (
      update_existing sdk now type status reason message c,
      rw (e) refl,
      existing-Shows c (==-eq e),
    )
    | inr e ↦ rw (e) (rw (e) (get_condition-update_conditions cs))
  ]

  -- The conditions of the other types stay.
  pub get_condition-other :
      (other : String) (cs : List Condition)
      → other ≢ type
      → get_condition other (update_conditions sdk now type status reason message cs)
        ≡ get_condition other cs
  unfolding update_conditions get_condition new_condition update_existing
  get_condition-other other [] differ = ground arith
  get_condition-other other (c ∷ cs) differ = ground (arith, get_condition-other other cs differ)

  -- After an update a resource is active by that condition exactly if the status is "True".
  pub is_active-update_conditions :
      (cs : List Condition)
      → is_active type (update_conditions sdk now type status reason message cs)
        ≡ (status == "True")
  unfolding update_conditions is_active new_condition update_existing status_changes
  is_active-update_conditions [] = rw (==-refl type) refl
  is_active-update_conditions (c ∷ cs) = ground (arith, is_active-update_conditions cs)

  changes-false :
      (c : Condition)
      → Shows sdk type status reason message c
      → (status_changes sdk now type status reason message c ≡ false)
        × (reason_changes sdk now type status reason message c ≡ false)
        × (message_changes sdk now type status reason message c ≡ false)
  unfolding status_changes reason_changes message_changes
  changes-false c (_, s, r, m) = (ground arith, ground arith, ground arith)

  update_existing-same :
      (c : Condition)
      → Shows sdk type status reason message c
      → update_existing sdk now type status reason message c ≡ c
  unfolding update_existing
  update_existing-same c shows = let (s, r, m) = changes-false c shows in rw (s, r, m) refl

  list-same :
      (cs : List Condition) (c : Condition)
      → get_condition type cs ≡ some c
      → Shows sdk type status reason message c
      → update_conditions sdk now type status reason message cs ≡ cs
  unfolding update_conditions get_condition
  list-same [] c e shows = cc e
  list-same (d ∷ ds) c e shows =
      go (d.type == type)
        (λ h. update_existing-same d (subst (Shows sdk type status reason message) (sym h) shows))
        (λ h. list-same ds c h shows) e
    where
      go :
          (b : Bool)
          → (d ≡ c → update_existing sdk now type status reason message d ≡ d)
          → (get_condition type ds ≡ some c
              → update_conditions sdk now type status reason message ds ≡ ds)
          → (if b then some d else get_condition type ds) ≡ some c
          → (if b
              then update_existing sdk now type status reason message d ∷ ds
              else d ∷ update_conditions sdk now type status reason message ds)
            ≡ d ∷ ds
      go true here later e = ap (λ x. x ∷ ds) (here (some-injective d c e))
      go false here later e = ap (◌∷◌ d) (later e)

  -- An update that asks for what is shown changes nothing and reports no change.
  pub update_conditions-same :
      (cs : List Condition) (c : Condition)
      → get_condition type cs ≡ some c
      → Shows sdk type status reason message c
      → (update_conditions sdk now type status reason message cs ≡ cs)
        × (has_changed sdk now type status reason message cs ≡ false)
  unfolding has_changed
  update_conditions-same cs c e shows =
      let (s, r, m) = changes-false c shows in (list-same cs c e shows, ground (arith, e, s, r, m))

-- A second update with the same arguments, at any later time, changes nothing and reports no change.
pub update_conditions-twice :
    (sdk : AwsSdk) (now later : ℕ) (type status : String) (reason message : Option String)
    (cs : List Condition)
    → let once = update_conditions sdk now type status reason message cs in
      (update_conditions sdk later type status reason message once ≡ once)
      × (has_changed sdk later type status reason message once ≡ false)
update_conditions-twice sdk now later type status reason message cs =
    let (c, e, shows) = get_condition-update_conditions sdk now type status reason message cs in
    update_conditions-same sdk later type status reason message _ c e shows
