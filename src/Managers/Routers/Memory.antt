-- ===== src/Managers/Routers/Memory.antt =====
-- The routes of one router, in a world that holds resources besides.
use aws_app_mesh_controller.Base.{
  String, Bool, Option, [], Result, ok, ◌≡◌, refl, sym, ap, ◌∙◌, string_eq,
}
use aws_app_mesh_controller.Base.Exec.{Exec}
use aws_app_mesh_controller.Base.Dict
use aws_app_mesh_controller.Base.Dict.{Dict}
use aws_app_mesh_controller.Routes.Reconcile.{RouteApi, Address}
use aws_app_mesh_controller.Routes.Reconcile.Laws.{RouteApiLaws}
use aws_app_mesh_controller.Routes.Reconcile.Keeps.{RouteApiKeeps}
use aws_app_mesh_controller.Routes.Reconcile.Memory.{
  memory_api, memory_api-laws, held_routes, AnyAddress, go_sdk,
}
use aws_app_mesh_controller.Managers.{ResourceKey, ResourceApi}
use aws_app_mesh_controller.Managers.Memory.{
  World, held_in, described, mine, inserted, if_there-same, memory_resources, memory_resources-laws,
  cluster, cluster-Keeps, resource_key_eq,
}
use aws_app_mesh_controller.Managers.Laws.{ResourceApiLaws}
use aws_app_mesh_controller.Managers.Routers.Steps.{RouterLaws}

abbrev pub on_routes : {A : Type 0} → Exec (Dict String String) Bool A → Exec World Bool A
on_routes m w = ((m w.1).0, (w.0, (m w.1).1))

abbrev pub routes_in : Address → World → String → Option String
routes_in _ w n = held_routes w.1 n

abbrev pub memory_routes : RouteApi World Bool String
memory_routes = record {
  list_routes = λ a. on_routes (memory_api.list_routes a);
  describe_route = λ a n. on_routes (memory_api.describe_route a n);
  create_route = λ a n s. on_routes (memory_api.create_route a n s);
  update_route = λ a n s. on_routes (memory_api.update_route a n s);
  delete_route = λ a n. on_routes (memory_api.delete_route a n);
  is_not_found = memory_api.is_not_found;
}

lower :
    {A : Type 0} (m : Exec (Dict String String) Bool A) (w : World) (r : Result Bool A) (w' : World)
    → on_routes m w ≡ (r, w')
    → m w.1 ≡ (r, w'.1)
lower m w r w' e = ap (λ p. (p.0, p.1.1)) e

pub memory_routes-laws :
    RouteApiLaws go_sdk memory_routes (λ (w : World) n. held_routes w.1 n) AnyAddress
memory_routes-laws = record {
  list-ok = λ a w pages w' u e.
      memory_api-laws.list-ok a w.1 pages w'.1 u (lower (memory_api.list_routes a) w _ w' e);
  describe-ok = λ a n w d w' u e.
      memory_api-laws.describe-ok a n w.1 d w'.1 u (lower (memory_api.describe_route a n) w _ w' e);
  create-ok = λ a n s w d w' u e.
      memory_api-laws.create-ok a n s w.1 d w'.1 u (lower (memory_api.create_route a n s) w _ w' e);
  update-ok = λ a n s w d w' u e.
      memory_api-laws.update-ok a n s w.1 d w'.1 u (lower (memory_api.update_route a n s) w _ w' e);
  delete-missing = λ a n w x w' u e m.
      memory_api-laws.delete-missing a n w.1 x w'.1 u (lower (memory_api.delete_route a n) w _ w' e)
        m;
  delete-ok = λ a n w x w' u e.
      memory_api-laws.delete-ok a n w.1 x w'.1 u (lower (memory_api.delete_route a n) w _ w' e);
}

pub memory_routes-Keep :
    (k : ResourceKey) → RouteApiKeeps memory_routes (λ (w : World). held_in w k)
memory_routes-Keep k = record {
  list-Keeps = λ a w. refl;
  describe-Keeps = λ a n w. refl;
  create-Keeps = λ a n s w. refl;
  update-Keeps = λ a n s w. refl;
  delete-Keeps = λ a n w. refl;
}

-- Specs are kept as they are sent.
abbrev kept_resources : ResourceApi World Bool String
kept_resources = memory_resources (λ s. s)

kept-laws : ResourceApiLaws kept_resources held_in (λ s t. t ≡ s)
kept-laws = memory_resources-laws (λ s. s)

-- A new router has no routes.
abbrev pub memory_routers : ResourceApi World Bool String
memory_routers = record {
  describe = kept_resources.describe;
  create = λ k s w. (ok (described k (mine s)), (Dict.insert k (mine s) w.0, []));
  update = kept_resources.update;
  delete = kept_resources.delete;
  is_not_found = kept_resources.is_not_found;
}

memory_routers-laws : ResourceApiLaws memory_routers held_in (λ s t. t ≡ s)
memory_routers-laws = record {
  describe-Keeps = kept-laws.describe-Keeps;
  describe-ok = kept-laws.describe-ok;
  describe-missing = kept-laws.describe-missing;
  create-ok = λ k s w d w' e.
      (mine s, ap (λ v. held_in v k) (sym (ap (λ p. p.1) e)) ∙ inserted k s w, refl);
  update-ok = kept-laws.update-ok;
  delete-ok = kept-laws.delete-ok;
}

pub router-laws :
    RouterLaws go_sdk cluster memory_routers memory_routes held_in routes_in (λ _. AnyAddress)
unfolding Dict.lookup
router-laws = record {
  same = λ a. tt;
  api_laws = memory_routers-laws;
  route_laws = λ a. memory_routes-laws;
  routes-Keep = memory_routes-Keep;
  client-Keeps = λ k. cluster-Keeps (λ w. held_in w k);
  client-Keeps_routes = λ a n. cluster-Keeps (λ w. routes_in a w n);
  new_router-empty =
      λ k s w d w' e n. ap (λ (v : World). held_routes v.1 n) (sym (ap (λ p. p.1) e));
  delete-Keeps_routes = λ k a n w.
      if_there-same _ (λ v. routes_in a v n) (held_in w k)
        (λ h. (described k h, (Dict.erase k w.0, w.1))) w (λ h. refl);
}
