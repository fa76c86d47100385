-- ===== src/Finalizers.antt =====
-- pkg/k8s/finalizers.go: adding finalizers to an object and removing them. The functions are those that
-- retry.RetryOnConflict of client-go repeats.
pub mod Sets
mod Tests
use aws_app_mesh_controller.Base.{
  String, Bool, true, false, not, List, [], ◌∷◌, if◌then◌else◌, string_eq, ◌==◌, ◌≡◌, ◌&&◌, ◌||◌,
  contains,
}
use aws_app_mesh_controller.Base.Exec.{Exec, pure, ◌>>=◌}

-- controllerutil.AddFinalizer and RemoveFinalizer of controller-runtime, on an object's finalizers.
pub record FinalizerUtil : Type 0 where
  pub add : List String → String → List String
  pub remove : List String → String → List String

pub record FinalizerUtilLaws (util : FinalizerUtil) : Type 0 where
  pub contains-add :
      (fs : List String) (f n : String) → contains (util.add fs f) n ≡ (n == f || contains fs n)
  pub contains-remove :
      (fs : List String) (f n : String)
      → contains (util.remove fs f) n ≡ (not (n == f) && contains fs n)

-- The client's Get and Patch of one object: its finalizers. Patch is given the old and the new ones.
pub record ObjectClient (W E : Type 0) : Type 0 where
  pub get : Exec W E (List String)
  pub patch : List String → List String → Exec W E (Unit {0})

pub has_finalizer : List String → String → Bool
has_finalizer [] f = false
has_finalizer (e ∷ es) f = let rest = has_finalizer es f in if e == f then true else rest

module _ (util : FinalizerUtil) where
  -- The loop, with the object's finalizers and needsUpdate.
  pub add_missing : List String → List String → Bool → List String × Bool
  add_missing [] held needs_update = (held, needs_update)
  add_missing (f ∷ fs) held needs_update =
      let there = has_finalizer held f in
      add_missing fs (if there then held else util.add held f)
        (if there then needs_update else true)

  pub remove_present : List String → List String → Bool → List String × Bool
  remove_present [] held needs_update = (held, needs_update)
  remove_present (f ∷ fs) held needs_update =
      let there = has_finalizer held f in
      remove_present fs (if there then util.remove held f else held)
        (if there then true else needs_update)

  module _ {W E : Type 0} (client : ObjectClient W E) where
    pub patch_if_needed : List String → List String × Bool → Exec W E (Unit {0})
    patch_if_needed held (new, needs_update) =
        if needs_update then client.patch held new else pure tt

    pub add_finalizers : List String → Exec W E (Unit {0})
    add_finalizers fs = do held ← client.get; patch_if_needed held (add_missing fs held false)

    pub remove_finalizers : List String → Exec W E (Unit {0})
    remove_finalizers fs = do held ← client.get; patch_if_needed held (remove_present fs held false)
