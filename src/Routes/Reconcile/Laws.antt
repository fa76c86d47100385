-- ===== src/Routes/Reconcile/Laws.antt =====
-- What App Mesh documents of its calls on routes, and what a successful call tells.
use aws_app_mesh_controller.Base.{
  if◌then◌else◌, refl, false, String, Bool, true, ◌⊎◌, inl, inr, Option, none, some, List, [], ◌∷◌,
  contains, is_some, All, Result, ok, err, panic, ◌≡◌, ap, arith, string_eq,
}
use aws_app_mesh_controller.Base.Exec.{Settles, SameView}
use aws_app_mesh_controller.References.{AwsSdk}
use aws_app_mesh_controller.Routes.{RouteRef}
use aws_app_mesh_controller.Routes.Match.{ref_names}
use aws_app_mesh_controller.Routes.Reconcile.{
  Address, RouteData, RouteApi, RouteError, api_error, address_of_ref, concat_pages, from_api,
  from_build, some_route, unless_missing,
}

-- App Mesh as the store of one router's routes: `view` is what it holds under each name, and `Mine`
-- the addresses of that router.
pub record RouteApiLaws (sdk : AwsSdk) {W E Spec : Type 0} (api : RouteApi W E Spec)
    (view : W → String → Option Spec) (Mine : Address → Type 0) : Type 0 where
  pub list-ok :
      (a : Address) (w : W) (pages : List (List RouteRef)) (w' : W)
      → Mine a
      → api.list_routes a w ≡ (ok pages, w')
      → SameView view w w'
        × All (λ r. Mine (address_of_ref r)) (concat_pages pages)
        × ((n : String) → contains (ref_names sdk (concat_pages pages)) n ≡ is_some (view w n))
  pub describe-ok :
      (a : Address) (name : Option String) (w : W) (d : RouteData Spec) (w' : W)
      → Mine a
      → api.describe_route a name w ≡ (ok d, w')
      → SameView view w w'
        × Mine d.address
        × (d.route_name ≡ name)
        × (view w (sdk.string_value name) ≡ some d.spec)
  pub create-ok :
      (a : Address) (name : Option String) (s : Spec) (w : W) (d : RouteData Spec) (w' : W)
      → Mine a
      → api.create_route a name s w ≡ (ok d, w')
      → Settles view (λ _ o. o ≡ some s) (sdk.string_value name ∷ []) w w'
  pub update-ok :
      (a : Address) (name : Option String) (s : Spec) (w : W) (d : RouteData Spec) (w' : W)
      → Mine a
      → api.update_route a name s w ≡ (ok d, w')
      → Settles view (λ _ o. o ≡ some s) (sdk.string_value name ∷ []) w w'
  pub delete-missing :
      (a : Address) (name : Option String) (w : W) (e : E) (w' : W)
      → Mine a
      → api.delete_route a name w ≡ (err e, w')
      → api.is_not_found e ≡ true
      → SameView view w w' × (view w (sdk.string_value name) ≡ none)
  pub delete-ok :
      (a : Address) (name : Option String) (w : W) (u : Unit {0}) (w' : W)
      → Mine a
      → api.delete_route a name w ≡ (ok u, w')
      → Settles view (λ _ o. o ≡ none) (sdk.string_value name ∷ []) w w'

pub from_api-ok :
    {W E B A : Type 0} (p : Result E A × W) (a : A) (w : W)
    → from_api {B = B} p ≡ (ok a, w)
    → p ≡ (ok a, w)
from_api-ok (ok b, v) a w e = ground arith
from_api-ok (err x, v) a w e = cc (ap (λ p. p.0) e)
from_api-ok (panic, v) a w e = cc (ap (λ p. p.0) e)

pub from_build-ok :
    {W E B Spec : Type 0} (r : Result B Spec) (s : Spec) (w w' : W)
    → from_build {E = E} r w ≡ (ok s, w')
    → (r ≡ ok s) × (w' ≡ w)
from_build-ok (ok t) s w w' e = ground arith
from_build-ok (err x) s w w' e = cc (ap (λ p. p.0) e)
from_build-ok panic s w w' e = cc (ap (λ p. p.0) e)

pub found_route-ok :
    {W E B A : Type 0} (missing : E → Bool) (p : Result E A × W) (a : A) (w : W)
    → unless_missing {B = B} missing none (some_route p) ≡ (ok (some a), w)
    → p ≡ (ok a, w)
found_route-ok missing (ok b, v) a w e = ground arith
found_route-ok missing (err x, v) a w e = ground arith
found_route-ok missing (panic, v) a w e = ground arith

pub unless_missing-ok :
    {W E B A : Type 0} (missing : E → Bool) (b : A) (p : Result E A × W) (a : A) (w : W)
    → unless_missing {B = B} missing b p ≡ (ok a, w)
    → (p ≡ (ok a, w)) ⊎ ((e : E) × (p ≡ (err e, w)) × (missing e ≡ true))
unless_missing-ok missing b (ok x, v) a w e = inl (ground arith)
unless_missing-ok {W = W} {E = E} {B = B} {A = A} missing b (err x, v) a w e = go (missing x) refl e
  where
    go :
        (m : Bool)
        → missing x ≡ m
        → Path
            (Result (RouteError E B) A × W)
            (if m then (ok b, v) else (err (api_error x), v))
            (ok a, w)
        → Path (Result E A × W) (err x, v) (ok a, w)
          ⊎ ((e : E) × Path (Result E A × W) (err x, v) (err e, w) × (missing e ≡ true))
    go true m e = inr (x, ap (λ (q : W). (err x, q)) (ap (λ p. p.1) e), m)
    go false m e = cc (ap (λ p. p.0) e)
unless_missing-ok missing b (panic, v) a w e = cc (ap (λ p. p.0) e)
