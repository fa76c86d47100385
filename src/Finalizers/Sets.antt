-- ===== src/Finalizers/Sets.antt =====
-- After the update the object has the finalizers that it had with the added ones, or without the
-- removed ones.
use aws_app_mesh_controller.Base.{
  String, Bool, true, false, not, List, [], ◌∷◌, if◌then◌else◌, string_eq, ◌==◌, ==-eq, ◌≡◌, refl,
  sym, ap, ◌∙◌, ◌&&◌, ◌||◌, contains, ok, arith, Bool-cases, inl, inr,
}
use aws_app_mesh_controller.Base.Exec.{>>=-eq-ok}
use aws_app_mesh_controller.Finalizers.{
  FinalizerUtil, FinalizerUtilLaws, ObjectClient, has_finalizer, add_missing, remove_present,
  patch_if_needed, add_finalizers, remove_finalizers,
}

-- Kubernetes as the store of one object: what Get reads, and what a Patch leaves.
pub record ObjectClientLaws {W E : Type 0} (client : ObjectClient W E) (view : W → List String)
    : Type 0 where
  pub get-ok :
      (w : W) (held : List String) (w' : W)
      → client.get w ≡ (ok held, w')
      → (held ≡ view w) × (view w' ≡ view w)
  pub patch-ok :
      (old new : List String) (w : W) (u : Unit {0}) (w' : W)
      → client.patch old new w ≡ (ok u, w')
      → view w' ≡ new

has-contains : (fs : List String) (f : String) → has_finalizer fs f ≡ contains fs f
unfolding has_finalizer
has-contains [] f = refl
has-contains (e ∷ fs) f = ground (arith, has-contains fs f)

module _ (util : FinalizerUtil) (laws : FinalizerUtilLaws util) where
  added :
      (held : List String) (f n : String)
      → contains (if has_finalizer held f then held else util.add held f) n
        ≡ (n == f || contains held n)
  added held f n = elim (Bool-cases (n == f)) [
    | inl e ↦
        let same : n ≡ f = ==-eq e in
        ground (arith, laws.contains-add held f n, has-contains held f, same, e)
    | inr e ↦ ground (arith, laws.contains-add held f n, has-contains held f, e)
  ]

  removed :
      (held : List String) (f n : String)
      → contains (if has_finalizer held f then util.remove held f else held) n
        ≡ (not (n == f) && contains held n)
  removed held f n = elim (Bool-cases (n == f)) [
    | inl e ↦
        let same : n ≡ f = ==-eq e in
        ground (arith, laws.contains-remove held f n, has-contains held f, same, e)
    | inr e ↦ ground (arith, laws.contains-remove held f n, has-contains held f, e)
  ]

  contains-add_missing :
      (fs held : List String) (b : Bool) (n : String)
      → contains (add_missing util fs held b).0 n ≡ (contains fs n || contains held n)
  unfolding add_missing
  contains-add_missing [] held b n = refl
  contains-add_missing (f ∷ fs) held b n =
      contains-add_missing fs _ _ n
      ∙ (ap (λ c. contains fs n || c) (added held f n)
          ∙ swap (contains fs n) (n == f) (contains held n))
    where
      swap : (a b c : Bool) → (a || (b || c)) ≡ ((b || a) || c)
      swap a b c = ground arith

  contains-remove_present :
      (fs held : List String) (b : Bool) (n : String)
      → contains (remove_present util fs held b).0 n ≡ (not (contains fs n) && contains held n)
  unfolding remove_present
  contains-remove_present [] held b n = refl
  contains-remove_present (f ∷ fs) held b n =
      contains-remove_present fs _ _ n
      ∙ (ap (λ c. not (contains fs n) && c) (removed held f n)
          ∙ swap (contains fs n) (n == f) (contains held n))
    where
      swap : (a b c : Bool) → (not a && (not b && c)) ≡ (not (b || a) && c)
      swap a b c = ground arith

  add_missing-false :
      (fs held : List String) (b : Bool)
      → (add_missing util fs held b).1 ≡ false
      → ((add_missing util fs held b).0 ≡ held) × (b ≡ false)
  unfolding add_missing
  add_missing-false [] held b e = (refl, e)
  add_missing-false (f ∷ fs) held b e = go (has_finalizer held f) (add_missing-false fs _ _ e)
    where
      go :
          (c : Bool) {x : List String}
          → (x ≡ (if c then held else util.add held f)) × ((if c then b else true) ≡ false)
          → (x ≡ held) × (b ≡ false)
      go true p = p
      go false p = cc (p.1)

  remove_present-false :
      (fs held : List String) (b : Bool)
      → (remove_present util fs held b).1 ≡ false
      → ((remove_present util fs held b).0 ≡ held) × (b ≡ false)
  unfolding remove_present
  remove_present-false [] held b e = (refl, e)
  remove_present-false (f ∷ fs) held b e = go (has_finalizer held f) (remove_present-false fs _ _ e)
    where
      go :
          (c : Bool) {x : List String}
          → (x ≡ (if c then util.remove held f else held)) × ((if c then true else b) ≡ false)
          → (x ≡ held) × (b ≡ false)
      go true p = cc (p.1)
      go false p = p

  module _ {W E : Type 0} (client : ObjectClient W E) (view : W → List String)
      (client_laws : ObjectClientLaws client view) where
    patched :
        (held : List String) (p : List String × Bool) (w : W) (u : Unit {0}) (w' : W)
        → held ≡ view w
        → (p.1 ≡ false → p.0 ≡ held)
        → patch_if_needed util client held p w ≡ (ok u, w')
        → view w' ≡ p.0
    unfolding patch_if_needed
    patched held (new, true) w u w' e same h = client_laws.patch-ok held new w u w' h
    patched held (new, false) w u w' e same h =
        ap view (sym (ap (λ q. q.1) h)) ∙ (sym e ∙ sym (same refl))

    -- With a client and a library that keep their laws: when the addition succeeds, the object has
    -- exactly the finalizers that it had and the ones that are added.
    pub add_finalizers-ok :
        (fs : List String) (w : W) (u : Unit {0}) (w' : W)
        → add_finalizers util client fs w ≡ (ok u, w')
        → (n : String) → contains (view w') n ≡ (contains fs n || contains (view w) n)
    unfolding add_finalizers
    add_finalizers-ok fs w u w' e n =
        let (held, v, e₁, e₂) = >>=-eq-ok client.get _ e in
        let (read, same) = client_laws.get-ok w held v e₁ in
        let now =
          patched held (add_missing util fs held false) v u w' (read ∙ sym same)
            (λ h. (add_missing-false fs held false h).0) e₂ in
        ap (λ x. contains x n) now
        ∙ (contains-add_missing fs held false n ∙ ap (λ x. contains fs n || contains x n) read)

    -- With a client and a library that keep their laws: when the removal succeeds, the object has
    -- exactly the finalizers that it had without the ones that are removed.
    pub remove_finalizers-ok :
        (fs : List String) (w : W) (u : Unit {0}) (w' : W)
        → remove_finalizers util client fs w ≡ (ok u, w')
        → (n : String) → contains (view w') n ≡ (not (contains fs n) && contains (view w) n)
    unfolding remove_finalizers
    remove_finalizers-ok fs w u w' e n =
        let (held, v, e₁, e₂) = >>=-eq-ok client.get _ e in
        let (read, same) = client_laws.get-ok w held v e₁ in
        let now =
          patched held (remove_present util fs held false) v u w' (read ∙ sym same)
            (λ h. (remove_present-false fs held false h).0) e₂ in
        ap (λ x. contains x n) now
        ∙ (contains-remove_present fs held false n
            ∙ ap (λ x. not (contains fs n) && contains x n) read)
