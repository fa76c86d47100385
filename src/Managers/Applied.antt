-- ===== src/Managers/Applied.antt =====
-- What the calls of a manager do to the resource that App Mesh holds.
use aws_app_mesh_controller.Base.{
  String, Bool, true, false, Option, none, some, Result, ok, err, panic, ◌≡◌, refl, sym, ap, ◌∙◌,
  subst, ◌==◌, if◌then◌else◌, string_eq, inl, inr, arith, is_some, ◌⊎◌,
}
use aws_app_mesh_controller.Base.Exec.{Exec, pure, >>=-eq-ok}
use aws_app_mesh_controller.References.{AwsSdk}
use aws_app_mesh_controller.References.Resolver.{from_client}
use aws_app_mesh_controller.Runtime.{Failure, caused}
use aws_app_mesh_controller.Managers.{
  ResourceKey, ResourceData, ResourceApi, nil_if_missing, if_found, discard, built, find_sdk,
  create_sdk, update_sdk, delete_sdk, is_controlled, is_owned,
}
use aws_app_mesh_controller.Managers.Laws.{Held, held_data, ResourceApiLaws}

module _ (sdk : AwsSdk) (account_id : String) {Spec : Type 0} where
  -- No resource stands in the way, or one that the account owns.
  abbrev pub controls : Option (Held Spec) → Bool
  controls none = true
  controls (some h) = sdk.string_value h.owner == account_id

  -- What becomes of a resource: as specified up to `equal`, and as it was if it is another account's.
  abbrev pub Applied :
      (Spec → Spec → Bool) → Spec → Option (Held Spec) → Option (Held Spec) → Type 0
  Applied equal spec before after =
      if controls before
      then ((h : Held Spec) × (after ≡ some h) × (equal spec h.spec ≡ true))
      else (after ≡ before)

  -- The same with what happened: the resource was as specified up to `equal` and is unchanged, or it
  -- is what App Mesh makes of the spec.
  abbrev pub Settled :
      (Spec → Spec → Type 0)
      → (Spec → Spec → Bool)
      → Spec
      → Option (Held Spec)
      → Option (Held Spec)
      → Type 0
  Settled Answers equal spec before after =
      if controls before
      then ((h : Held Spec) × (after ≡ some h)
          × (((before ≡ some h) × (equal spec h.spec ≡ true)) ⊎ Answers spec h.spec))
      else (after ≡ before)

  pub Settled-Applied :
      (Answers : Spec → Spec → Type 0) (equal : Spec → Spec → Bool) (spec : Spec)
      (before after : Option (Held Spec))
      → ((t : Spec) → Answers spec t → equal spec t ≡ true)
      → Settled Answers equal spec before after
      → Applied equal spec before after
  Settled-Applied Answers equal spec before after seen settled = go (controls before) settled
    where
      is_equal :
          (h : Held Spec)
          → ((before ≡ some h) × (equal spec h.spec ≡ true)) ⊎ Answers spec h.spec
          → equal spec h.spec ≡ true
      is_equal h (inl p) = p.1
      is_equal h (inr a) = seen h.spec a

      go :
          (b : Bool)
          → (if b
              then ((h : Held Spec) × (after ≡ some h)
                  × (((before ≡ some h) × (equal spec h.spec ≡ true)) ⊎ Answers spec h.spec))
              else (after ≡ before))
          → (if b
              then ((h : Held Spec) × (after ≡ some h) × (equal spec h.spec ≡ true))
              else (after ≡ before))
      go true (h, e, how) = (h, e, is_equal h how)
      go false e = e

  -- A resource goes, except another account's.
  abbrev pub Deleted : Option (Held Spec) → Option (Held Spec) → Type 0
  Deleted before after = if controls before then (after ≡ none) else (after ≡ before)

-- The result of a search: nothing is there, or the resource whose names were asked for.
abbrev pub Found :
    {W Spec : Type 0}
    → (W → ResourceKey → Option (Held Spec))
    → ResourceKey
    → W
    → Option (ResourceData Spec)
    → Type 0
Found held k w none = (held w k ≡ none)
Found {W = W} held k w (some d) =
    (held w k ≡ some (held_data d)) × (d.key.name ≡ k.name) × ((v : W) → held v d.key ≡ held v k)

pub from_client-ok :
    {W E A : Type 0} (p : Result E A × W) (a : A) (w : W)
    → from_client p ≡ (ok a, w)
    → p ≡ (ok a, w)
from_client-ok (ok b, v) a w e = ground arith
from_client-ok (err x, v) a w e = cc (ap (λ p. p.0) e)
from_client-ok (panic, v) a w e = cc (ap (λ p. p.0) e)

pub discard-ok :
    {W E A : Type 0} (p : Result E A × W) (u : Unit {0}) (w : W)
    → discard p ≡ (ok u, w)
    → (a : A) × (p ≡ (ok a, w))
discard-ok (ok b, v) u w e = (b, ap (λ (x : _). (ok b, x)) (ap (λ p. p.1) e))
discard-ok (err x, v) u w e = cc (ap (λ p. p.0) e)
discard-ok (panic, v) u w e = cc (ap (λ p. p.0) e)

pub built-ok :
    {W E Spec : Type 0} (r : Result E Spec) (s : Spec) (w w' : W)
    → built r w ≡ (ok s, w')
    → (r ≡ ok s) × (w' ≡ w)
built-ok (ok t) s w w' e = ground arith
built-ok (err x) s w w' e = cc (ap (λ p. p.0) e)
built-ok panic s w w' e = cc (ap (λ p. p.0) e)

module _ {W E Spec : Type 0} (api : ResourceApi W E Spec)
    (held : W → ResourceKey → Option (Held Spec)) {Answers : Spec → Spec → Type 0}
    (laws : ResourceApiLaws api held Answers) (k : ResourceKey) where
  find_sdk-ok :
      (w : W) (o : Option (ResourceData Spec)) (w' : W)
      → find_sdk api k w ≡ (ok o, w')
      → (held w' k ≡ held w k) × Found held k w o
  unfolding find_sdk
  find_sdk-ok w o w' e = go (api.describe k w).0 (api.describe k w).1 refl e
    where
      missing :
          (x : E) (v : W) (b : Bool)
          → api.describe k w ≡ (err x, v)
          → api.is_not_found x ≡ b
          → Path
              (Result (Failure E) (Option (ResourceData Spec)) × W)
              (if b then (ok none, v) else (err (caused x), v))
              (ok o, w')
          → (v ≡ w') × Found held k w o
      missing x v true d m q =
          let is : Path (Option (ResourceData Spec)) none o = cc (ap (λ p. p.0) q) in
          (ap (λ p. p.1) q, subst (Found held k w) is (laws.describe-missing k w x v d m))
      missing x v false d m q = cc (ap (λ p. p.0) q)

      go :
          (r : Result E (ResourceData Spec)) (v : W)
          → api.describe k w ≡ (r, v)
          → nil_if_missing api.is_not_found (r, v) ≡ (ok o, w')
          → (held w' k ≡ held w k) × Found held k w o
      go (ok d) v p q =
          let same : v ≡ w' = ap (λ x. x.1) q in
          let is : Path (Option (ResourceData Spec)) (some d) o = cc (ap (λ x. x.0) q) in
          (
            ap (λ x. held x k) (sym same)
                ∙ ap (λ x. held x.1 k) (sym p)
                ∙ laws.describe-Keeps k k w,
            subst (Found held k w) is (laws.describe-ok k w d v p),
          )
      go (err x) v p q =
          let (same, found) = missing x v (api.is_not_found x) p refl q in
          (
            ap (λ y. held y k) (sym same)
                ∙ ap (λ y. held y.1 k) (sym p)
                ∙ laws.describe-Keeps k k w,
            found,
          )
      go panic v p q = cc (ap (λ x. x.0) q)

  moved :
      (o : Option (ResourceData Spec)) (w w' : W)
      → held w' k ≡ held w k
      → Found held k w o
      → Found held k w' o
  moved none w w' same found = same ∙ found
  moved (some d) w w' same found = (same ∙ found.0, found.1, found.2)

  -- The search changes nothing, and its result still holds after it.
  pub find_sdk-Found :
      (w : W) (o : Option (ResourceData Spec)) (w' : W)
      → find_sdk api k w ≡ (ok o, w')
      → (held w' k ≡ held w k) × Found held k w' o
  find_sdk-Found w o w' e =
      let (same, found) = find_sdk-ok w o w' e in (same, moved o w w' same found)

  pub create_sdk-called :
      (build : Result E Spec) (w : W) (d : ResourceData Spec) (w' : W)
      → create_sdk api k build w ≡ (ok d, w')
      → (s : Spec) × (v : W) × (api.create k s v ≡ (ok d, w'))
  unfolding create_sdk
  create_sdk-called build w d w' e =
      let (s, v, e₁, e₂) = >>=-eq-ok (built build) _ e in (s, v, from_client-ok _ d w' e₂)

  module _ (equal : Spec → Spec → Bool) (sdk : AwsSdk) (account_id : String)
      (build : Result E Spec) where
    pub create_sdk-Settled :
        (w : W) (d : ResourceData Spec) (w' : W)
        → held w k ≡ none
        → create_sdk api k build w ≡ (ok d, w')
        → (s : Spec) × (build ≡ ok s)
          × Settled sdk account_id Answers equal s (held w k) (held w' k)
    unfolding create_sdk
    create_sdk-Settled w d w' absent e =
        let (s, v, e₁, e₂) = >>=-eq-ok (built build) _ e in
        let (is, same) = built-ok build s w v e₁ in
        let (h, there, answers) = laws.create-ok k s v d w' (from_client-ok _ d w' e₂) in
        (
          s,
          is,
          subst (λ before. Settled sdk account_id Answers equal s before (held w' k)) (sym absent)
              (h, there, inr answers),
        )

    -- `name` leads to the same resource as `k`.
    pub update_sdk-Settled :
        (name : ResourceKey) (found d : ResourceData Spec) (w w' : W)
        → ((v : W) → held v name ≡ held v k)
        → held w k ≡ some (held_data found)
        → update_sdk api sdk account_id equal name build found w ≡ (ok d, w')
        → (s : Spec) × (build ≡ ok s)
          × Settled sdk account_id Answers equal s (held w k) (held w' k)
    unfolding update_sdk is_controlled
    update_sdk-Settled name found d w w' leads there e =
        let (s, v, e₁, e₂) = >>=-eq-ok (built build) _ e in
        let (is, same) = built-ok build s w v e₁ in
        (
          s,
          is,
          subst (λ before. Settled sdk account_id Answers equal s before (held w' k)) (sym there)
              (go s v same (equal s found.spec)
                (sdk.string_value found.resource_owner == account_id) refl e₂),
        )
      where
        go :
            (s : Spec) (v : W)
            → v ≡ w
            → (alike mine : Bool) → equal s found.spec ≡ alike
            → Path
                (Result (Failure E) (ResourceData Spec) × W)
                ((if alike
                    then pure found
                    else if mine
                    then (λ x. from_client (api.update name s x))
                    else pure found)
                  v)
                (ok d, w')
            → if mine
              then ((h : Held Spec) × (held w' k ≡ some h)
                  × ((Path (Option (Held Spec)) (some (held_data found)) (some h)
                        × (equal s h.spec ≡ true))
                      ⊎ Answers s h.spec))
              else (held w' k ≡ some (held_data found))
        go s v same true true a q = (
          held_data found,
          ap (λ x. held x k) (sym (ap (λ p. p.1) q) ∙ same) ∙ there,
          inl (refl, a),
        )
        go s v same true false a q = ap (λ x. held x k) (sym (ap (λ p. p.1) q) ∙ same) ∙ there
        go s v same false true a q =
            let (h, is, of) = laws.update-ok name s v d w' (from_client-ok _ d w' q) in
            (h, sym (leads w') ∙ is, inr of)
        go s v same false false a q = ap (λ x. held x k) (sym (ap (λ p. p.1) q) ∙ same) ∙ there

  -- As above, for the deletion.
  pub delete_sdk-Deleted :
      (sdk : AwsSdk) (account_id : String) (name : ResourceKey) (found : ResourceData Spec)
      (u : Unit {0}) (w w' : W)
      → ((v : W) → held v name ≡ held v k)
      → held w k ≡ some (held_data found)
      → delete_sdk api sdk account_id name found w ≡ (ok u, w')
      → Deleted sdk account_id (held w k) (held w' k)
  unfolding delete_sdk is_owned is_controlled
  delete_sdk-Deleted sdk account_id name found u w w' leads there e =
      subst (λ before. Deleted sdk account_id before (held w' k)) (sym there)
        (go (sdk.string_value found.resource_owner == account_id) e)
    where
      go :
          (mine : Bool)
          → Path
              (Result (Failure E) (Unit {0}) × W)
              ((if mine then (λ x. from_client (discard (api.delete name x))) else pure tt) w)
              (ok u, w')
          → if mine then (held w' k ≡ none) else (held w' k ≡ some (held_data found))
      go true q =
          let (d, is) = discard-ok (api.delete name w) u w' (from_client-ok _ u w' q) in
          sym (leads w') ∙ laws.delete-ok name w d w' is
      go false q = ap (λ x. held x k) (sym (ap (λ p. p.1) q)) ∙ there

-- A cleanup that succeeds with an ARN found nothing, or went on with what it found.
pub cleaned-up :
    {W E A : Type 0} (arn : Option String) (next : A → Exec W (Failure E) (Unit {0}))
    (p : Result (Failure E) (Option A) × W) (u : Unit {0}) (w' : W)
    → is_some arn ≡ true
    → if_found arn next p ≡ (ok u, w')
    → (p ≡ (ok none, w')) ⊎ ((a : A) × (v : W) × (p ≡ (ok (some a), v)) × (next a v ≡ (ok u, w')))
cleaned-up arn next (ok none, v) u w' h e = inl (ap (λ (x : _). (ok none, x)) (ap (λ p. p.1) e))
cleaned-up arn next (ok (some a), v) u w' h e = inr (a, v, refl, e)
cleaned-up {W = W} {E = E} {A = A} arn next (err x, v) u w' h e = cc (
    ap (λ p. p.0)
      (subst
        (λ b.
          Path (Result (Failure E) (Unit {0}) × W) (if b then (err x, v) else (ok tt, v))
            (ok u, w'))
        h e))
cleaned-up arn next (panic, v) u w' h e = cc (ap (λ p. p.0) e)

module _ {W E Spec : Type 0} (api : ResourceApi W E Spec)
    (held : W → ResourceKey → Option (Held Spec)) {Answers : Spec → Spec → Type 0}
    (laws : ResourceApiLaws api held Answers) (k : ResourceKey) (sdk : AwsSdk) (account_id : String)
    (arn : Option String) where
  -- The end of a cleanup: the search, and the deletion of what it found under the name that `name`
  -- makes of it.
  pub cleanup_found-Deleted :
      (name : ResourceData Spec → ResourceKey)
      → ((d : ResourceData Spec)
          → d.key.name ≡ k.name
          → ((v : W) → held v d.key ≡ held v k)
          → (v : W) → held v (name d) ≡ held v k)
      → (w : W) (u : Unit {0}) (w' : W) → is_some arn ≡ true
      → if_found arn (λ d. delete_sdk api sdk account_id (name d) d) (find_sdk api k w) ≡ (ok u, w')
      → Deleted sdk account_id (held w k) (held w' k)
  cleanup_found-Deleted name leads w u w' h e =
      elim (cleaned-up arn (λ d. delete_sdk api sdk account_id (name d) d) (find_sdk api k w) u w' h
        e) [
          | inl absent ↦
              let (same, found) = find_sdk-Found api held laws k w none w' absent in
              subst (λ b. Deleted sdk account_id b (held w' k)) (sym (sym same ∙ found)) found
          | inr (d, v, is, deleted) ↦
              let (same, found) = find_sdk-Found api held laws k w (some d) v is in
              subst (λ b. Deleted sdk account_id b (held w' k)) same
                (delete_sdk-Deleted api held laws k sdk account_id (name d) d u v w'
                  (leads d found.1 found.2) found.0 deleted)
        ]
