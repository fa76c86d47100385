-- ===== src/Webhooks/VirtualNode/Panics.antt =====
-- When virtualnode_validator.go dereferences nil.
use aws_app_mesh_controller.Base.{
  String, Bool, true, false, Option, none, some, List, [], ◌∷◌, ◌++◌, Result, ok, err, panic, ◌≡◌,
  ◌≢◌, refl, ◌↔◌, ◌⊎◌, inl, inr, ◌>>◌, ◌>>=◌, is_some, arith, string_eq, option_eq, if◌then◌else◌,
}
use aws_app_mesh_controller.Base.Dict
use aws_app_mesh_controller.Base.Dict.{Dict}
use aws_app_mesh_controller.Api.Equal.{mesh_reference_eq, service_discovery_eq}
use aws_app_mesh_controller.Api.Listener.{Listener}
use aws_app_mesh_controller.Api.VirtualNode.{
  VirtualNode, ServiceDiscovery, AwsCloudMapServiceDiscovery,
}
use aws_app_mesh_controller.Webhooks.Checks.{
  Check, Error, enforce, repeats_from, no_repeats, if_any,
}
use aws_app_mesh_controller.Webhooks.VirtualNode.{
  check_listener_multiple_connection_pools, check_listeners, check_for_required_fields,
  check_virtual_node_backends_for_duplicates, check_for_connection_pool_protocols,
  changed_cloud_map, enforce_fields_immutability, validate_update,
}
use aws_app_mesh_controller.Webhooks.VirtualNode.Decides.{cloud_map_of, required-ok}

seq-panic : (m k : Check) → ((m >> k) ≡ panic) ↔ ((m ≡ panic) ⊎ ((m ≡ ok tt) × (k ≡ panic)))
seq-panic (ok u) k = (λ h. inr (refl, h), λ s. elim s [ inl h ↦ cc h | inr p ↦ p.1 ])
seq-panic (err e) k = (λ h. cc, λ s. elim s [ inl h ↦ h | inr p ↦ cc (p.0) ])
seq-panic panic k = (λ _. inl refl, λ _. refl)

enforce-ne-panic : (kind : String) (fs : List String) → enforce kind fs ≢ panic
unfolding enforce
enforce-ne-panic kind [] h = cc
enforce-ne-panic kind (f ∷ fs) h = cc

repeats-ne-panic :
    {A : Type 0} (key : A → Option String) (repeated : A → Error) (seen : Dict String Bool)
    (xs : List A)
    → repeats_from key repeated seen xs ≢ panic
unfolding repeats_from
repeats-ne-panic key repeated seen [] h = cc
repeats-ne-panic key repeated seen (a ∷ xs) h =
    step (key a) (repeats-ne-panic key repeated seen xs)
      (λ k. repeats-ne-panic key repeated (Dict.insert k true seen) xs) h
  where
    step :
        (o : Option String)
        → repeats_from key repeated seen xs ≢ panic
        → ((k : String) → repeats_from key repeated (Dict.insert k true seen) xs ≢ panic)
        → (elim o [
          | none ↦ repeats_from key repeated seen xs
          | some k ↦
              if is_some (Dict.lookup k seen)
              then err (repeated a)
              else repeats_from key repeated (Dict.insert k true seen) xs
        ])
          ≢ panic
    step none p q = p
    step (some k) p q = one (is_some (Dict.lookup k seen))
      where
        one :
            (b : Bool)
            → (if b
                then err (repeated a)
                else repeats_from key repeated (Dict.insert k true seen) xs)
              ≢ panic
        one true h = cc
        one false h = q k h

listener-ne-panic : (l : Listener) → check_listener_multiple_connection_pools l ≢ panic
unfolding check_listener_multiple_connection_pools
listener-ne-panic l h = ground arith

listeners-ne-panic : (ls : List Listener) → check_listeners ls ≢ panic
unfolding check_listeners
listeners-ne-panic [] h = cc
listeners-ne-panic (l ∷ ls) h = elim ((seq-panic _ _).0 h) [
  | inl p ↦ listener-ne-panic l p
  | inr p ↦ listeners-ne-panic ls p.1
]

any-ne-panic : (o : Option (List Listener)) → if_any o check_listeners ≢ panic
any-ne-panic none h = cc
any-ne-panic (some ls) h = listeners-ne-panic ls h

cloud_map-panics :
    (new old : Option ServiceDiscovery)
    → (changed_cloud_map new old ≡ panic)
      ↔ ((new ≡ none) × ((c : AwsCloudMapServiceDiscovery) × (cloud_map_of old ≡ some c)))
unfolding changed_cloud_map
cloud_map-panics new none = (λ h. cc, λ p. cc (p.1.1))
cloud_map-panics new (some old) = go old.aws_cloud_map new
  where
    go :
        (c : Option AwsCloudMapServiceDiscovery) (n : Option ServiceDiscovery)
        → (changed_cloud_map n (some (record old { aws_cloud_map = c })) ≡ panic)
          ↔ ((n ≡ none) × ((d : AwsCloudMapServiceDiscovery) × (c ≡ some d)))
    go none n = (λ h. cc, λ p. cc (p.1.1))
    go (some c) none = (λ _. (refl, (c, refl)), λ _. refl)
    go (some c) (some sd) = (λ h. cc, λ p. cc (p.0))

immutable-panics :
    (kind : String) (a b : List String) (m : Result Error (List String))
    → ((do c ← m; enforce kind (a ++ (b ++ c))) ≡ panic) ↔ (m ≡ panic)
immutable-panics kind a b (ok c) = (λ h. absurd (enforce-ne-panic kind _ h), λ h. cc)
immutable-panics kind a b (err e) = (λ h. cc, λ h. cc)
immutable-panics kind a b panic = (λ _. refl, λ _. refl)

unlisted :
    (ls : Option (List Listener)) (sd : Option ServiceDiscovery)
    → sd ≡ none
    → (ls ≡ none) ⊎ (is_some sd ≡ true)
    → ls ≡ none
unlisted ls sd e (inl h) = h
unlisted ls sd e (inr h) = cc (rw e at h)

module _ {Selector : Type 0} where
  required-ne-panic : (vn : VirtualNode Selector) → check_for_required_fields vn ≢ panic
  unfolding check_for_required_fields
  required-ne-panic vn h = ground arith

  rest-ne-panic :
      (vn : VirtualNode Selector)
      → (check_virtual_node_backends_for_duplicates vn >> check_for_connection_pool_protocols vn)
        ≢ panic
  unfolding check_virtual_node_backends_for_duplicates check_for_connection_pool_protocols
      no_repeats
  rest-ne-panic vn h =
      elim ((seq-panic (check_virtual_node_backends_for_duplicates vn)
          (check_for_connection_pool_protocols vn)).0
        h) [
          | inl p ↦ repeats-ne-panic _ _ [] vn.spec.backends p
          | inr p ↦ any-ne-panic vn.spec.listeners p.1
        ]

  -- The validation of an update panics exactly when the old node is in Cloud Map, and the new one has
  -- neither service discovery nor listeners.
  pub node_update-panics :
      (new old : VirtualNode Selector)
      → (validate_update new old ≡ panic) ↔ (
          (new.spec.listeners ≡ none)
          × (new.spec.service_discovery ≡ none)
          × ((c : AwsCloudMapServiceDiscovery) × (cloud_map_of old.spec.service_discovery
                ≡ some c)))
  unfolding validate_update enforce_fields_immutability
  node_update-panics new old =
      let removed = cloud_map-panics new.spec.service_discovery old.spec.service_discovery in
      let immutable = immutable-panics "VirtualNode" _ _ _ in
      (
        λ h. elim ((seq-panic _ _).0 h) [
          | inl p ↦ absurd (required-ne-panic new p)
          | inr p ↦ elim ((seq-panic _ _).0 p.1) [
            | inl q ↦
                let (e, c) = removed.0 (immutable.0 q) in
                (unlisted _ _ e ((required-ok new).0 p.0), e, c)
            | inr q ↦ absurd (rest-ne-panic new q.1)
          ]
        ],
        λ (l, e, c). (seq-panic _ _).1 (
            inr (
              (required-ok new).1 (inl l),
              (seq-panic _ _).1 (inl (immutable.1 (removed.1 (e, c)))),
            )),
      )
