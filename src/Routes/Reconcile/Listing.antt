-- ===== src/Routes/Reconcile/Listing.antt =====
-- Listing the routes leaves App Mesh as it is, and yields the names that it holds.
use aws_app_mesh_controller.Base.{
  String, Option, List, contains, is_some, All, ok, ◌≡◌, ap, ◌∙◌, sym, subst, string_eq,
}
use aws_app_mesh_controller.Base.Exec.{pure, >>=-eq-ok, SameView}
use aws_app_mesh_controller.Base.Sets.{StringSets}
use aws_app_mesh_controller.References.{AwsSdk}
use aws_app_mesh_controller.Routes.{RouteRef}
use aws_app_mesh_controller.Routes.Match.{ref_names}
use aws_app_mesh_controller.Routes.Reconcile.{
  Address, RouteApi, address_of_ref, from_api, list_sdk_route_refs,
}
use aws_app_mesh_controller.Routes.Reconcile.Laws.{RouteApiLaws, from_api-ok}

pure-inj :
    {W E A : Type 0} {a b : A} {w w' : W} → pure {E = E} a w ≡ (ok b, w') → (a ≡ b) × (w ≡ w')
pure-inj e = (cc (ap (λ p. p.0) e), ap (λ p. p.1) e)

module _ (sdk : AwsSdk) (sets : StringSets) {W E B Spec : Type 0} (api : RouteApi W E Spec)
    (view : W → String → Option Spec) (Mine : Address → Type 0)
    (laws : RouteApiLaws sdk api view Mine) where
  pub list_sdk_route_refs-ok :
      (a : Address) (w : W) (refs : List RouteRef) (w' : W)
      → Mine a
      → list_sdk_route_refs sdk sets {B = B} api a w ≡ (ok refs, w')
      → SameView view w w'
        × All (λ r. Mine (address_of_ref r)) refs
        × ((n : String) → contains (ref_names sdk refs) n ≡ is_some (view w' n))
  unfolding list_sdk_route_refs
  list_sdk_route_refs-ok a w refs w' mine e =
      let (pages, v, e₁, e₂) = >>=-eq-ok (λ u. from_api {B = B} (api.list_routes a u)) _ e in
      let (same, all_mine, listed) = laws.list-ok a w pages v mine (from_api-ok _ pages v e₁) in
      let (whole, last) = pure-inj e₂ in
      (
        λ n. sym (ap (λ u. view u n) last) ∙ same n,
        subst (All (λ r. Mine (address_of_ref r))) whole all_mine,
        λ n.
            subst (λ rs. contains (ref_names sdk rs) n ≡ is_some (view w' n)) whole
              (listed n ∙ ap is_some (sym (same n) ∙ ap (λ u. view u n) last)),
      )
