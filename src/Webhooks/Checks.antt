-- ===== src/Webhooks/Checks.antt =====
-- The errors of webhooks/appmesh, one constructor for each message, and the test of immutable
-- fields that the validators share.
use aws_app_mesh_controller.Base.Dict
use aws_app_mesh_controller.Base.Dict.{Dict}
use aws_app_mesh_controller.Base.{
  ℕ, suc, String, Bool, true, false, Option, List, [], ◌∷◌, ◌++◌, ◌≡◌, refl, arith, Result, ok, err,
  Eq, panic, ◌>>◌, ◌==◌, if◌then◌else◌, ◌↔◌, none, some, is_some, Distinct, filter_map, contains,
  All, string_eq, Option-cases, inl, inr,
}

pub data Error : Type 0 where
  missing_route_type multiple_route_types : Error
  missing_query_match missing_header_match too_many_header_filters : Error
  too_many_metadata_filters invalid_range : Error
  missing_rewrite prefix_and_path_rewrite relative_prefix : Error
  two_prefix_rewrites relative_rewrite_prefix : Error
  missing_service_and_hostname missing_route_match prefix_and_path : Error
  missing_hostname_match two_hostname_matches missing_path_match two_path_matches : Error
  -- the resource's kind, and the fields
  changed_fields : String → List String → Error
  -- the object's name, and the repeated reference
  duplicate_reference duplicate_arn duplicate_route : String → String → Error
  missing_service_discovery : String → Error
  multiple_connection_pools : Error
  invalid_ip_preference : Error

abbrev pub Check : Type 0
Check = Result Error (Unit {0})

-- `n++` under a nil test.
abbrev pub count_if : Bool → ℕ → ℕ
count_if true n = suc n
count_if false n = n

abbrev pub count_true : List Bool → ℕ
count_true [] = 0
count_true (b ∷ bs) = count_if b (count_true bs)

-- `if !reflect.DeepEqual(new, old) { changed = append(changed, field) }`
unfoldable pub changed {ℓ} : {A : Type ℓ} ⦃e : Eq A⦄ → String → A → A → List String
changed field new old = if new == old then [] else field ∷ []

unfoldable pub enforce : String → List String → Check
enforce kind [] = ok tt
enforce kind (f ∷ fs) = err (changed_fields kind (f ∷ fs))

-- The check passes exactly when no field changed, and otherwise names the changed fields.
pub enforce-ok : (kind : String) (fs : List String) → (enforce kind fs ≡ ok tt) ↔ (fs ≡ [])
unfolding enforce
enforce-ok kind [] = (λ _. refl, λ _. refl)
enforce-ok kind (f ∷ fs) = (λ h. cc, λ h. cc)

pub changed-nil {ℓ} :
    {A : Type ℓ} ⦃e : Eq A⦄ (field : String) (new old : A)
    → (changed field new old ≡ []) ↔ (new ≡ old)
unfolding changed
changed-nil field new old = ground arith

-- The shapes of the checks: a guard, one check after another, a check of what is set.
pub guard-ok :
    (b : Bool) (e : Error) (c : Check)
    → ((if b then err e else c) ≡ ok tt) ↔ ((b ≡ false) × (c ≡ ok tt))
guard-ok true e c = (λ h. cc, λ h. cc (h.0))
guard-ok false e c = (λ h. (refl, h), λ h. h.1)

pub seq-ok : (m k : Check) → ((m >> k) ≡ ok tt) ↔ ((m ≡ ok tt) × (k ≡ ok tt))
seq-ok (ok u) k = (λ h. (refl, h), λ h. h.1)
seq-ok (err e) k = (λ h. cc, λ h. cc (h.0))
seq-ok panic k = (λ h. cc, λ h. cc (h.0))

module _ {ℓ} {A : Type ℓ} where
  -- `if x != nil { if err := f(x); err != nil { return err } }`
  abbrev pub if_any : Option A → (A → Check) → Check
  if_any none f = ok tt
  if_any (some a) f = f a

  abbrev pub IfAny {κ} : (A → Type κ) → Option A → Type κ
  IfAny P none = Unit
  IfAny P (some a) = P a

  pub if_any-ok {κ} :
      {P : A → Type κ} (f : A → Check)
      → ((a : A) → (f a ≡ ok tt) ↔ P a)
      → (o : Option A) → (if_any o f ≡ ok tt) ↔ IfAny P o
  if_any-ok f h none = (λ _. tt, λ _. refl)
  if_any-ok f h (some a) = h a

pub append-nil_iff {ℓ} : {A : Type ℓ} (xs ys : List A) → (xs ++ ys ≡ []) ↔ ((xs ≡ []) × (ys ≡ []))
append-nil_iff [] ys = (λ h. (refl, h), λ h. h.1)
append-nil_iff (x ∷ xs) ys = (λ h. cc, λ h. cc (h.0))

-- A loop that refuses an element whose key is in the map of keys seen so far.
module _ {ℓ} {A : Type ℓ} (key : A → Option String) (repeated : A → Error) where
  unfoldable pub repeats_from : Dict String Bool → List A → Check
  repeats_from seen [] = ok tt
  repeats_from seen (a ∷ as') = elim (key a) [
    | none ↦ repeats_from seen as'
    | some k ↦
        if is_some (Dict.lookup k seen)
        then err (repeated a)
        else repeats_from (Dict.insert k true seen) as'
  ]

  unfoldable pub no_repeats : List A → Check
  unfolding repeats_from
  no_repeats = repeats_from []

abbrev Fresh : Dict String Bool → List String → Type 0
Fresh seen = All (λ k. Dict.lookup k seen ≡ none)

Fresh-insert :
    (k : String) (seen : Dict String Bool) (ks : List String)
    → Fresh (Dict.insert k true seen) ks ↔ ((contains ks k ≡ false) × Fresh seen ks)
Fresh-insert k seen [] = (λ _. (refl, tt), λ _. tt)
Fresh-insert k seen (j ∷ ks) =
    let rest = Fresh-insert k seen ks in
    let one = Dict.lookup-insert j k true seen in
    (ground (arith, rest, one), ground (arith, rest, one))

Fresh-nil : (ks : List String) → Fresh [] ks
Fresh-nil [] = tt
Fresh-nil (k ∷ ks) = (Dict.lookup-nil k, Fresh-nil ks)

module _ {ℓ} {A : Type ℓ} (key : A → Option String) (repeated : A → Error) where
  repeats_from-ok :
      (seen : Dict String Bool) (xs : List A)
      → (repeats_from key repeated seen xs ≡ ok tt)
        ↔ (Distinct (filter_map key xs) × Fresh seen (filter_map key xs))
  unfolding repeats_from filter_map
  repeats_from-ok seen [] = (λ _. (tt, tt), λ _. refl)
  repeats_from-ok seen (a ∷ xs) =
      step (key a) (repeats_from-ok seen xs) (λ k. repeats_from-ok (Dict.insert k true seen) xs)
    where
      ks : List String
      ks = filter_map key xs

      step :
          (o : Option String)
          → (repeats_from key repeated seen xs ≡ ok tt) ↔ (Distinct ks × Fresh seen ks)
          → ((k : String)
              → (repeats_from key repeated (Dict.insert k true seen) xs ≡ ok tt)
                ↔ (Distinct ks × Fresh (Dict.insert k true seen) ks))
          → (elim o [
            | none ↦ repeats_from key repeated seen xs
            | some k ↦
                if is_some (Dict.lookup k seen)
                then err (repeated a)
                else repeats_from key repeated (Dict.insert k true seen) xs
          ]
              ≡ ok tt)
            ↔ (Distinct (elim o [ none ↦ ks | some k ↦ k ∷ ks ])
                × Fresh seen (elim o [ none ↦ ks | some k ↦ k ∷ ks ]))
      step none same more = same
      step (some k) same more = elim (Option-cases (Dict.lookup k seen)) [
        | inl e ↦ rw e (
          λ h.
              let (d, f) = (more k).0 h in
              let (c, g) = (Fresh-insert k seen ks).0 f in ((c, d), (refl, g)),
          λ p. (more k).1 (p.0.1, (Fresh-insert k seen ks).1 (p.0.0, p.1.1)),
        )
        | inr (v, e) ↦ rw e (λ h. cc, λ p. cc (p.1.0))
      ]

  pub no_repeats-ok :
      (xs : List A) → (no_repeats key repeated xs ≡ ok tt) ↔ Distinct (filter_map key xs)
  unfolding no_repeats
  no_repeats-ok xs =
      let from = repeats_from-ok [] xs in (λ e. (from.0 e).0, λ d. from.1 (d, Fresh-nil _))
