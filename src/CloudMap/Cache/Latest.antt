-- ===== src/CloudMap/Cache/Latest.antt =====
-- What the cache holds of an instance after several operations have completed, in any order.
use aws_app_mesh_controller.Base.{
  ℕ, String, Option, none, some, List, [], ◌∷◌, ◌≤◌, ◌<◌, ◌≡◌, refl, sym, ◌∙◌, subst, ◌⊎◌, inl, inr,
  All, arith, string_eq,
}
use aws_app_mesh_controller.Base.Dict
use aws_app_mesh_controller.CloudMap.{InstanceAttributes}
use aws_app_mesh_controller.CloudMap.Cache.{
  InstancesAttrsCacheItem, last_updated_time, record_registration, record_deregistration,
}

-- A completed operation: the instance, what it was registered with, and the date.
pub data Completion : Type 0 where
  registered : String → InstanceAttributes → ℕ → Completion
  deregistered : String → ℕ → Completion

abbrev pub instance_of : Completion → String
instance_of (registered id attrs date) = id
instance_of (deregistered id date) = id

abbrev pub date_of : Completion → ℕ
date_of (registered id attrs date) = date
date_of (deregistered id date) = date

-- What is to be seen of the instance then.
abbrev pub outcome_of : Completion → Option InstanceAttributes
outcome_of (registered id attrs date) = some attrs
outcome_of (deregistered id date) = none

unfoldable pub complete : Completion → InstancesAttrsCacheItem → InstancesAttrsCacheItem
complete (registered id attrs date) = record_registration id attrs date
complete (deregistered id date) = record_deregistration id date

unfoldable pub complete_all : List Completion → InstancesAttrsCacheItem → InstancesAttrsCacheItem
complete_all [] item = item
complete_all (c ∷ cs) item = complete_all cs (complete c item)

abbrev pub seen : String → InstancesAttrsCacheItem → Option InstanceAttributes
seen i item = Dict.lookup i item.instance_attrs_by_id

-- An operation that changes nothing for the instance: it is of another one, or too old.
abbrev Kept : String → Completion → InstancesAttrsCacheItem → InstancesAttrsCacheItem → Type 0
Kept i c item item' =
    (i ≡ instance_of c → date_of c < last_updated_time i item)
    × (seen i item' ≡ seen i item)
    × (last_updated_time i item' ≡ last_updated_time i item)

abbrev Taken : String → Completion → InstancesAttrsCacheItem → InstancesAttrsCacheItem → Type 0
Taken i c item item' =
    (i ≡ instance_of c)
    × (last_updated_time i item ≤ date_of c)
    × (seen i item' ≡ outcome_of c)
    × (last_updated_time i item' ≡ date_of c)

complete-cases :
    (i : String) (c : Completion) (item : InstancesAttrsCacheItem)
    → Kept i c item (complete c item) ⊎ Taken i c item (complete c item)
unfolding complete record_registration record_deregistration last_updated_time
complete-cases i (registered id attrs date) item = ground (
  arith,
  Dict.lookup-insert i id attrs item.instance_attrs_by_id,
  Dict.lookup-insert i id date item.last_updated_time_by_id,
)
complete-cases i (deregistered id date) item = ground (
  arith,
  Dict.lookup-erase i id item.instance_attrs_by_id,
  Dict.lookup-insert i id date item.last_updated_time_by_id,
)

-- At least one completion of the list.
abbrev pub Some : (Completion → Type 0) → List Completion → Type 0
Some P [] = ⊥
Some P (c ∷ cs) = P c ⊎ Some P cs

-- What `item'` shows of the instance is the outcome of an operation with the latest date of all, or,
-- where all operations on the instance are older than what `item` shows, what `item` shows.
abbrev pub IsLatest :
    String → List Completion → InstancesAttrsCacheItem → InstancesAttrsCacheItem → Type 0
IsLatest i cs item item' =
    All (λ c. i ≡ instance_of c → date_of c ≤ last_updated_time i item') cs
    × (last_updated_time i item ≤ last_updated_time i item')
    × ((All (λ c. i ≡ instance_of c → date_of c < last_updated_time i item) cs
          × (seen i item' ≡ seen i item)
          × (last_updated_time i item' ≡ last_updated_time i item))
        ⊎ Some
            (λ c.
              (i ≡ instance_of c)
              × (date_of c ≡ last_updated_time i item')
              × (outcome_of c ≡ seen i item'))
            cs)

IsLatest-step :
    (i : String) (c : Completion) (cs : List Completion)
    (item item₁ item' : InstancesAttrsCacheItem)
    → Kept i c item item₁ ⊎ Taken i c item item₁
    → IsLatest i cs item₁ item'
    → IsLatest i (c ∷ cs) item item'
IsLatest-step i c cs item item₁ item' (inl (old, same, time)) (all, le, alt) = (
  (λ e. omega (arith, old e, time, le), all),
  omega (arith, time, le),
  elim alt [
    | inl (olds, seen_same, time_same) ↦ inl (
      (old, subst (λ t. All (λ d. i ≡ instance_of d → date_of d < t) cs) time olds),
      seen_same ∙ same,
      time_same ∙ time,
    )
    | inr s ↦ inr (inr s)
  ],
)
IsLatest-step i c cs item item₁ item' (inr (e, later, same, time)) (all, le, alt) = (
  (λ _. omega (arith, time, le), all),
  omega (arith, later, time, le),
  elim alt [
    | inl (_, seen_same, time_same) ↦ inr (inl (e, sym (time_same ∙ time), sym (seen_same ∙ same)))
    | inr s ↦ inr (inr s)
  ],
)

-- In whatever order completed operations are recorded, the cache shows of each instance the outcome
-- of an operation that no other operation on it is later than, or what it showed before, when all
-- operations on the instance are older than that. The recorded time is never put back.
pub complete_all-IsLatest :
    (i : String) (cs : List Completion) (item : InstancesAttrsCacheItem)
    → IsLatest i cs item (complete_all cs item)
unfolding complete_all
complete_all-IsLatest i [] item = (tt, omega arith, inl (tt, refl, refl))
complete_all-IsLatest i (c ∷ cs) item =
    IsLatest-step i c cs item (complete c item) (complete_all cs (complete c item))
      (complete-cases i c item) (complete_all-IsLatest i cs (complete c item))
