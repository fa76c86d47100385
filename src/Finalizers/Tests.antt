-- ===== src/Finalizers/Tests.antt =====
-- Finalizers of an object in memory.
use aws_app_mesh_controller.Base.{
  String, true, false, not, List, [], ◌∷◌, ok, ◌≡◌, refl, sym, ap, contains, select, string_eq,
  ◌==◌, arith, ◌&&◌,
}
use aws_app_mesh_controller.Finalizers.{
  FinalizerUtil, FinalizerUtilLaws, ObjectClient, has_finalizer, add_missing, remove_present,
  patch_if_needed, add_finalizers, remove_finalizers,
}
use aws_app_mesh_controller.Finalizers.Sets.{
  ObjectClientLaws, add_finalizers-ok, remove_finalizers-ok,
}

abbrev util : FinalizerUtil
util = record { add = λ fs f. f ∷ fs; remove = λ fs f. select (λ n. not (n == f)) fs }

contains-select :
    (f n : String) (fs : List String)
    → contains (select (λ m. not (m == f)) fs) n ≡ (not (n == f) && contains fs n)
unfolding select
contains-select f n [] = ground arith
contains-select f n (x ∷ fs) = ground (arith, contains-select f n fs)

util-laws : FinalizerUtilLaws util
util-laws = record {
  contains-add = λ fs f n. refl;
  contains-remove = λ fs f n. contains-select f n fs;
}

abbrev client : ObjectClient (List String) (Unit {0})
client = record { get = λ w. (ok w, w); patch = λ old new w. (ok tt, new) }

abbrev view : List String → List String
view w = w

client-laws : ObjectClientLaws client view
client-laws = record {
  get-ok = λ w held w' e. (cc (ap (λ p. p.0) e), sym (ap (λ p. p.1) e));
  patch-ok = λ old new w u w' e. sym (ap (λ p. p.1) e);
}

add_finalizers-ok_example : contains {A = String} ("b" ∷ "a" ∷ []) "a" ≡ true
unfolding add_finalizers add_missing has_finalizer patch_if_needed string_eq
add_finalizers-ok_example =
    add_finalizers-ok util util-laws client view client-laws ("a" ∷ "b" ∷ []) ("a" ∷ []) tt
      ("b" ∷ "a" ∷ []) refl "a"

remove_finalizers-ok_example : contains {A = String} ("b" ∷ []) "a" ≡ false
unfolding remove_finalizers remove_present has_finalizer patch_if_needed string_eq select
remove_finalizers-ok_example =
    remove_finalizers-ok util util-laws client view client-laws ("a" ∷ "c" ∷ []) ("a" ∷ "b" ∷ []) tt
      ("b" ∷ []) refl "a"
