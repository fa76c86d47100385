-- ===== src/Webhooks/VirtualNode/Backends.antt =====
-- The identifiers of backends do not tell all objects apart: a name and a namespace are joined by a
-- dash, which both may hold.
use text.Mathlib.TextLemmas.{
  append-nil, append_assoc, append-ne-nil_of_right_ne-nil, append_cancel_left, cons-ne-nil,
  cons-append,
}
use aws_app_mesh_controller.Base.{
  String, true, some, List, [], ◌∷◌, ◌++◌, ◌⊎◌, inl, inr, subst, contains, ◌≡◌, refl, sym, ◌∙◌, ap,
  ◌≢◌, ok, arith, filter_map, Distinct, string_eq, ◌<>◌, ==-refl,
}
use aws_app_mesh_controller.Api.Meta.{ObjectMeta, NamespacedName}
use aws_app_mesh_controller.Api.Shared.{VirtualServiceReference}
use aws_app_mesh_controller.Api.VirtualNode.{VirtualNode, Backend}
use aws_app_mesh_controller.References.{
  object_key_for_virtual_service_reference, object_key_for_virtual_service_reference-explicit,
}
use aws_app_mesh_controller.Webhooks.VirtualNode.{backend_identifier, validate_create}
use aws_app_mesh_controller.Webhooks.VirtualNode.Decides.{node_create-ok, identifiers}

dash-ne-nil : (c : String) → "-" <> c ≢ ""
dash-ne-nil c e = cons-ne-nil "-" (String.[] <> c) (sym (cons-append "-" String.[] c) ∙ e)

-- "<a>-<b>" in the namespace <c>, and "<a>" in the namespace "<b>-<c>".
abbrev pub left : String → String → String → VirtualServiceReference
left a b c = record { namespace = some c; name = a <> ("-" <> b) }

abbrev pub right : String → String → String → VirtualServiceReference
right a b c = record { namespace = some (b <> ("-" <> c)); name = a }

module _ (vn : ObjectMeta) (a b c : String) (named : c ≢ "") where
  key_left :
      object_key_for_virtual_service_reference vn (left a b c)
      ≡ record { namespace = c; name = a <> ("-" <> b) }
  key_left = object_key_for_virtual_service_reference-explicit vn (left a b c) c refl named

  key_right :
      object_key_for_virtual_service_reference vn (right a b c)
      ≡ record { namespace = b <> ("-" <> c); name = a }
  key_right =
      object_key_for_virtual_service_reference-explicit vn (right a b c) (b <> ("-" <> c)) refl
        (append-ne-nil_of_right_ne-nil b (dash-ne-nil c))

  keys_differ :
      object_key_for_virtual_service_reference vn (left a b c)
      ≢ object_key_for_virtual_service_reference vn (right a b c)
  keys_differ e =
      let names = ap (λ (k : NamespacedName). k.name) (sym key_left ∙ e ∙ key_right) in
      dash-ne-nil b (append_cancel_left a ("-" <> b) "" (names ∙ sym (append-nil a)))

  same_identifier :
      (x y : Backend)
      → x.virtual_service.virtual_service_ref ≡ some (left a b c)
      → y.virtual_service.virtual_service_ref ≡ some (right a b c)
      → (backend_identifier vn x ≡ some (((a <> "-") <> (b <> ("-" <> c)))))
        × (backend_identifier vn y ≡ some ((a <> "-") <> (b <> ("-" <> c))))
  unfolding backend_identifier
  same_identifier x y l r = (rw (l, key_left) (simp append_assoc), rw (r, key_right))

-- Both are among the elements, in either order.
abbrev pub Both : {A : Type 0} → A → A → List A → Type 0
Both {A = A} x y xs =
    ((pre : List A) × (mid : List A) × (post : List A) × (xs ≡ pre ++ x ∷ (mid ++ y ∷ post)))
    ⊎ ((pre : List A) × (mid : List A) × (post : List A) × (xs ≡ pre ++ y ∷ (mid ++ x ∷ post)))

has_identifier :
    (vn : ObjectMeta) (pre post : List Backend) (y : Backend) (s : String)
    → backend_identifier vn y ≡ some s
    → contains (identifiers vn (pre ++ y ∷ post)) s ≡ true
unfolding filter_map
has_identifier vn [] post y s e = ground (arith, ==-refl s)
has_identifier vn (x ∷ pre) post y s e = ground (arith, has_identifier vn pre post y s e)

repeats-not-Distinct :
    (vn : ObjectMeta) (pre mid post : List Backend) (x y : Backend) (s : String)
    → backend_identifier vn x ≡ some s
    → backend_identifier vn y ≡ some s
    → ¬ Distinct (identifiers vn (pre ++ x ∷ (mid ++ y ∷ post)))
unfolding filter_map
repeats-not-Distinct vn [] mid post x y s l r d = ground (arith, has_identifier vn mid post y s r)
repeats-not-Distinct vn (z ∷ pre) mid post x y s l r d =
    ground (arith, repeats-not-Distinct vn pre mid post x y s l r)

Both-not-Distinct :
    (vn : ObjectMeta) (x y : Backend) (xs : List Backend) (s : String)
    → backend_identifier vn x ≡ some s
    → backend_identifier vn y ≡ some s
    → Both x y xs
    → ¬ Distinct (identifiers vn xs)
Both-not-Distinct vn x y xs s l r (inl (pre, mid, post, e)) d =
    repeats-not-Distinct vn pre mid post x y s l r (subst (λ bs. Distinct (identifiers vn bs)) e d)
Both-not-Distinct vn x y xs s l r (inr (pre, mid, post, e)) d =
    repeats-not-Distinct vn pre mid post y x s r l (subst (λ bs. Distinct (identifiers vn bs)) e d)

-- The references "<a>-<b>" in <c>, and "<a>" in "<b>-<c>", where <c> is not empty, are to different
-- objects, and a node that has both among its backends, in either order, is not accepted.
pub dash_collision :
    {Selector : Type 0} (vn : VirtualNode Selector) (x y : Backend) (a b c : String)
    → c ≢ ""
    → Both x y vn.spec.backends
    → x.virtual_service.virtual_service_ref ≡ some (left a b c)
    → y.virtual_service.virtual_service_ref ≡ some (right a b c)
    → (object_key_for_virtual_service_reference vn.metadata (left a b c)
        ≢ object_key_for_virtual_service_reference vn.metadata (right a b c))
      × (validate_create vn ≢ ok tt)
dash_collision vn x y a b c named both l r = (
  keys_differ vn.metadata a b c named,
  λ accepted.
      let (i, j) = same_identifier vn.metadata a b c named x y l r in
      Both-not-Distinct vn.metadata x y vn.spec.backends _ i j both
        ((node_create-ok vn).0 accepted).1,
)
