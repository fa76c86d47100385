-- ===== src/Base/Sets.antt =====
-- k8s.io/apimachinery/pkg/util/sets: sets of strings, with the documented meaning of each operation
-- in terms of the sorted list that `List` returns. (That it is sorted is not used.)
use Prim.Native.String.{String}
use mathlib.Core.Path.{◌≡◌}
use mathlib.Core.Bool.{not, ◌&&◌, ◌||◌}
use mathlib.Core.List.{List}
use aws_app_mesh_controller.Base.Equality.{◌==◌, contains, string_eq}

pub record StringSets : Type 1 where
  pub StringSet : Type 0
  pub key_set : List String → StringSet
  pub intersection : StringSet → StringSet → StringSet
  pub difference : StringSet → StringSet → StringSet
  pub insert : String → StringSet → StringSet
  pub delete : String → StringSet → StringSet
  pub union : StringSet → StringSet → StringSet
  pub list : StringSet → List String

pub record StringSetLaws (sets : StringSets) : Type 0 where
  pub contains-key_set :
      (ks : List String) (n : String) → contains (sets.list (sets.key_set ks)) n ≡ contains ks n
  pub contains-intersection :
      (a b : sets.StringSet) (n : String)
      → contains (sets.list (sets.intersection a b)) n
        ≡ (contains (sets.list a) n && contains (sets.list b) n)
  pub contains-difference :
      (a b : sets.StringSet) (n : String)
      → contains (sets.list (sets.difference a b)) n
        ≡ (contains (sets.list a) n && not (contains (sets.list b) n))
  pub contains-insert :
      (k : String) (a : sets.StringSet) (n : String)
      → contains (sets.list (sets.insert k a)) n ≡ (n == k || contains (sets.list a) n)
  pub contains-delete :
      (k : String) (a : sets.StringSet) (n : String)
      → contains (sets.list (sets.delete k a)) n ≡ (not (n == k) && contains (sets.list a) n)
  pub contains-union :
      (a b : sets.StringSet) (n : String)
      → contains (sets.list (sets.union a b)) n
        ≡ (contains (sets.list a) n || contains (sets.list b) n)
