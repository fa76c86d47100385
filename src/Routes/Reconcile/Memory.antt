-- ===== src/Routes/Reconcile/Memory.antt =====
-- Small instances of what stands outside the program, for tests: sets as lists, an App Mesh that
-- keeps the routes of one router in memory, with texts as specs.
use aws_app_mesh_controller.Base.{
  String, Bool, true, false, not, ◌&&◌, ◌||◌, Option, none, some, List, [], ◌∷◌, map, contains,
  contains-append, is_some, All, select, ◌++◌, subst, Result, ok, err, ◌≡◌, refl, sym, ap, ◌∙◌,
  arith, if◌then◌else◌, string_eq, ◌==◌,
}
use aws_app_mesh_controller.Base.Int.{pos}
use aws_app_mesh_controller.Base.Dict
use aws_app_mesh_controller.Base.Dict.{Dict}
use aws_app_mesh_controller.Base.Sets.{StringSets, StringSetLaws}
use aws_app_mesh_controller.References.{AwsSdk, AwsSdkLaws}
use aws_app_mesh_controller.Routes.{RouteRef, route_ref_name}
use aws_app_mesh_controller.Routes.Match.{ref_names}
use aws_app_mesh_controller.Routes.Reconcile.{Address, RouteApi, address_of_ref, concat_pages}
use aws_app_mesh_controller.Routes.Reconcile.Laws.{RouteApiLaws}

abbrev pub list_sets : StringSets
list_sets = record {
  StringSet = List String;
  key_set = λ ks. ks;
  intersection = λ a b. select (contains b) a;
  difference = λ a b. select (λ n. not (contains b n)) a;
  insert = λ k a. k ∷ a;
  delete = λ k a. select (λ n. not (n == k)) a;
  union = λ a b. a ++ b;
  list = λ a. a;
}

contains-select :
    (p : String → Bool) (xs : List String) (n : String)
    → contains (select p xs) n ≡ (contains xs n && p n)
unfolding select
contains-select p [] n = refl
contains-select p (x ∷ xs) n = ground (arith, contains-select p xs n)

pub list_sets-laws : StringSetLaws list_sets
list_sets-laws = record {
  contains-key_set = λ ks n. refl;
  contains-intersection = λ a b n. contains-select (contains b) a n;
  contains-difference = λ a b n. contains-select (λ m. not (contains b m)) a n;
  contains-insert = λ k a n. refl;
  contains-delete = λ k a n. ground (arith, contains-select (λ m. not (m == k)) a n);
  contains-union = λ a b n. contains-append a b n;
}

abbrev pub go_sdk : AwsSdk
go_sdk = record {
  string_value = λ o. elim o [ none ↦ "" | some s ↦ s ];
  int64_value = λ o. elim o [ none ↦ pos 0 | some n ↦ n ];
}

pub go_sdk-laws : AwsSdkLaws go_sdk
go_sdk-laws = record {
  string_value-some = λ s. refl;
  string_value-none = refl;
  int64_value-some = λ n. refl;
}

abbrev pub held_routes : Dict String String → String → Option String
held_routes w n = Dict.lookup n w

unfoldable pub ref_of : Address → String → RouteRef
ref_of a n = record {
  mesh_name = a.mesh_name;
  mesh_owner = a.mesh_owner;
  virtual_router_name = a.virtual_router_name;
  route_name = some n;
}

-- A call on a route that is not there fails.
unfoldable pub if_held :
    {A : Type 0}
    → Option String
    → (String → A × Dict String String)
    → Dict String String
    → Result Bool A × Dict String String
if_held none f w = (err true, w)
if_held (some s) f w = (ok (f s).0, (f s).1)

abbrev pub memory_api : RouteApi (Dict String String) Bool String
unfolding ref_of
memory_api = record {
  list_routes = λ a w. (ok (map (ref_of a) (Dict.keys w) ∷ []), w);
  describe_route = λ a n w.
      if_held (held_routes w (go_sdk.string_value n))
        (λ s. (record { address = a; route_name = n; arn = n; spec = s }, w)) w;
  create_route = λ a n s w. (
    ok (record { address = a; route_name = n; arn = n; spec = s }),
    Dict.insert (go_sdk.string_value n) s w,
  );
  update_route = λ a n s w.
      if_held (held_routes w (go_sdk.string_value n))
        (λ _. (
          record { address = a; route_name = n; arn = n; spec = s },
          Dict.insert (go_sdk.string_value n) s w,
        ))
        w;
  delete_route = λ a n w.
      if_held (held_routes w (go_sdk.string_value n))
        (λ _. (tt, Dict.erase (go_sdk.string_value n) w)) w;
  is_not_found = λ missing. missing;
}

abbrev pub AnyAddress : Address → Type 0
AnyAddress _ = Unit {0}

if_held-ok :
    {A : Type 0} (o : Option String) (f : String → A × Dict String String) (w : Dict String String)
    (a : A) (w' : Dict String String)
    → if_held o f w ≡ (ok a, w')
    → (s : String) × (o ≡ some s) × ((f s).0 ≡ a) × ((f s).1 ≡ w')
unfolding if_held
if_held-ok none f w a w' e = cc (ap (λ p. p.0) e)
if_held-ok (some s) f w a w' e = (s, refl, cc (ap (λ p. p.0) e), ap (λ p. p.1) e)

if_held-missing :
    {A : Type 0} (o : Option String) (f : String → A × Dict String String) (w : Dict String String)
    (x : Bool) (w' : Dict String String)
    → if_held o f w ≡ (err x, w')
    → ((n : String) → held_routes w' n ≡ held_routes w n) × (o ≡ none)
unfolding if_held
if_held-missing none f w x w' e = (λ n. ap (λ v. held_routes v n) (sym (ap (λ p. p.1) e)), refl)
if_held-missing (some s) f w x w' e = cc (ap (λ p. p.0) e)

one_changed :
    (P : Option String → Type 0) (x : Option String) (b : Bool) (old new : Option String)
    → P x
    → new ≡ (if b then x else old)
    → if b || false then P new else (new ≡ old)
one_changed P x true old new p e = subst P (sym e) p
one_changed P x false old new p e = e

refs-names : (a : Address) (ks : List String) → ref_names go_sdk (map (ref_of a) ks) ≡ ks
unfolding ref_of route_ref_name
refs-names a [] = refl
refs-names a (k ∷ ks) = ap (◌∷◌ k) (refs-names a ks)

All-any : (rs : List RouteRef) → All (λ r. AnyAddress (address_of_ref r)) rs
All-any [] = tt
All-any (r ∷ rs) = (tt, All-any rs)

append-nil : {A : Type 0} (xs : List A) → xs ++ [] ≡ xs
append-nil [] = refl
append-nil (x ∷ xs) = ap (◌∷◌ x) (append-nil xs)

listed :
    (a : Address) (w : Dict String String) (pages : List (List RouteRef))
    → (map (ref_of a) (Dict.keys w) ∷ []) ≡ pages
    → (n : String) → contains (ref_names go_sdk (concat_pages pages)) n ≡ is_some (held_routes w n)
unfolding concat_pages
listed a w pages e n =
    ap (λ ps. contains (ref_names go_sdk (concat_pages ps)) n) (sym e)
    ∙ ap (λ rs. contains (ref_names go_sdk rs) n) (append-nil (map (ref_of a) (Dict.keys w)))
    ∙ ap (λ ks. contains ks n) (refs-names a (Dict.keys w))
    ∙ Dict.contains-keys w n

pub memory_api-laws : RouteApiLaws go_sdk memory_api held_routes AnyAddress
unfolding ref_of
memory_api-laws = record {
  list-ok = λ a w pages w' _ e. (
    λ n. ap (λ v. held_routes v n) (sym (ap (λ p. p.1) e)),
    All-any _,
    listed a w pages (cc (ap (λ p. p.0) e)),
  );
  describe-ok = λ a n w d w' _ e.
      let (s, held, same, last) = if_held-ok _ _ w d w' e in
      (
        λ n. ap (λ v. held_routes v n) (sym last),
        tt,
        sym (ap (λ d. d.route_name) same),
        held ∙ ap (λ d. some d.spec) same,
      );
  create-ok = λ a n s w d w' _ e j.
      one_changed (λ o. o ≡ some s) (some s) (j == go_sdk.string_value n) (held_routes w j)
        (held_routes w' j) refl
        (ap (λ v. held_routes v j) (sym (ap (λ p. p.1) e))
          ∙ Dict.lookup-insert j (go_sdk.string_value n) s w);
  update-ok = λ a n s w d w' _ e j.
      let (_, held, same, last) = if_held-ok _ _ w d w' e in
      one_changed (λ o. o ≡ some s) (some s) (j == go_sdk.string_value n) (held_routes w j)
        (held_routes w' j) refl
        (ap (λ v. held_routes v j) (sym last) ∙ Dict.lookup-insert j (go_sdk.string_value n) s w);
  delete-missing = λ a n w x w' _ e f. if_held-missing _ _ w x w' e;
  delete-ok = λ a n w u w' _ e j.
      let (_, held, same, last) = if_held-ok _ _ w u w' e in
      one_changed (λ o. o ≡ none) none (j == go_sdk.string_value n) (held_routes w j)
        (held_routes w' j) refl
        (ap (λ v. held_routes v j) (sym last) ∙ Dict.lookup-erase j (go_sdk.string_value n) w);
}
