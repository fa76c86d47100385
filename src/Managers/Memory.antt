-- ===== src/Managers/Memory.antt =====
-- Small instances of what stands outside the program, for tests: an App Mesh that keeps resources by
-- their names, with texts as specs, and the routes of one router; and a cluster of a few objects.
use aws_app_mesh_controller.Base.{
  String, Bool, true, false, Option, none, some, List, [], ◌∷◌, Result, ok, err, ◌≡◌, refl, sym, ap,
  ◌∙◌, if◌then◌else◌, string_eq, option_eq, Eq, ==-refl,
}
use aws_app_mesh_controller.Base.Int.{pos}
use aws_app_mesh_controller.Base.Dict
use aws_app_mesh_controller.Base.Dict.{Dict}
use aws_app_mesh_controller.Api.Meta.{ObjectMeta, Condition}
use aws_app_mesh_controller.Api.Shared.{MeshReference}
use aws_app_mesh_controller.Api.Mesh.{Mesh}
use aws_app_mesh_controller.Api.VirtualService.{VirtualService}
use aws_app_mesh_controller.References.Resolver.{Client}
use aws_app_mesh_controller.Managers.{ResourceKey, ResourceData, ResourceApi}
use aws_app_mesh_controller.Managers.Laws.{Held, ResourceApiLaws, ClientKeeps}

resource_key_dec : Discrete ResourceKey
resource_key_dec = hlevel string_eq.dec

instance unfoldable pub resource_key_eq : Eq ResourceKey
unfolding resource_key_dec
resource_key_eq = record { dec = resource_key_dec }

-- The resources, and the routes.
abbrev pub World : Type 0
World = Dict ResourceKey (Held String) × Dict String String

abbrev pub held_in : World → ResourceKey → Option (Held String)
held_in w k = Dict.lookup k w.0

abbrev pub my_account : String
my_account = "1"

abbrev pub described : ResourceKey → Held String → ResourceData String
described k h = record {
  key = k;
  arn = some "arn";
  resource_owner = h.owner;
  spec = h.spec;
  status = some (some "ACTIVE");
}

abbrev pub mine : String → Held String
mine s = record { owner = some my_account; spec = s }

-- A call on a resource that is not there fails.
unfoldable pub if_there :
    Option (Held String)
    → (Held String → ResourceData String × World)
    → World
    → Result Bool (ResourceData String) × World
if_there none f w = (err true, w)
if_there (some h) f w = (ok (f h).0, (f h).1)

-- What is sent is completed by `fill` before it is kept.
abbrev pub memory_resources : (String → String) → ResourceApi World Bool String
memory_resources fill = record {
  describe = λ k w. if_there (held_in w k) (λ h. (described k h, w)) w;
  create = λ k s w. (ok (described k (mine (fill s))), (Dict.insert k (mine (fill s)) w.0, w.1));
  update = λ k s w.
      if_there (held_in w k)
        (λ _. (described k (mine (fill s)), (Dict.insert k (mine (fill s)) w.0, w.1))) w;
  delete = λ k w. if_there (held_in w k) (λ h. (described k h, (Dict.erase k w.0, w.1))) w;
  is_not_found = λ missing. missing;
}

if_there-ok :
    (o : Option (Held String)) (f : Held String → ResourceData String × World) (w : World)
    (d : ResourceData String) (w' : World)
    → if_there o f w ≡ (ok d, w')
    → (h : Held String) × (o ≡ some h) × ((f h).0 ≡ d) × ((f h).1 ≡ w')
unfolding if_there
if_there-ok none f w d w' e = cc (ap (λ p. p.0) e)
if_there-ok (some h) f w d w' e = (h, refl, cc (ap (λ p. p.0) e), ap (λ p. p.1) e)

if_there-missing :
    (o : Option (Held String)) (f : Held String → ResourceData String × World) (w : World)
    (x : Bool) (w' : World)
    → if_there o f w ≡ (err x, w')
    → o ≡ none
unfolding if_there
if_there-missing none f w x w' e = refl
if_there-missing (some h) f w x w' e = cc (ap (λ p. p.0) e)

pub if_there-same :
    (V : Type 0) (view : World → V) (o : Option (Held String))
    (f : Held String → ResourceData String × World) (w : World)
    → ((h : Held String) → view (f h).1 ≡ view w)
    → view (if_there o f w).1 ≡ view w
unfolding if_there
if_there-same V view none f w e = refl
if_there-same V view (some h) f w e = e h

pub inserted :
    (k : ResourceKey) (s : String) (w : World)
    → held_in (Dict.insert k (mine s) w.0, w.1) k ≡ some (mine s)
inserted k s w =
    Dict.lookup-insert k k (mine s) w.0
    ∙ ap (λ b. if b then some (mine s) else Dict.lookup k w.0) (==-refl k)

pub memory_resources-laws :
    (fill : String → String) → ResourceApiLaws (memory_resources fill) held_in (λ s t. t ≡ fill s)
memory_resources-laws fill = record {
  describe-Keeps = λ k j w.
      if_there-same _ (λ v. held_in v j) (held_in w k) (λ h. (described k h, w)) w (λ h. refl);
  describe-ok = λ k w d w' e.
      let (h, there, same, last) = if_there-ok (held_in w k) _ w d w' e in
      (
        there
            ∙ ap
                (λ (x : ResourceData String).
                  some (record { owner = x.resource_owner; spec = x.spec }))
                same,
        ap (λ x. x.key.name) (sym same),
        λ v. ap (λ x. held_in v x.key) (sym same),
      );
  describe-missing = λ k w x w' e m. if_there-missing (held_in w k) _ w x w' e;
  create-ok = λ k s w d w' e.
      (mine (fill s), ap (λ v. held_in v k) (sym (ap (λ p. p.1) e)) ∙ inserted k (fill s) w, refl);
  update-ok = λ k s w d w' e.
      let (h, there, same, last) = if_there-ok (held_in w k) _ w d w' e in
      (mine (fill s), ap (λ v. held_in v k) (sym last) ∙ inserted k (fill s) w, refl);
  delete-ok = λ k w d w' e.
      let (h, there, same, last) = if_there-ok (held_in w k) _ w d w' e in
      ap (λ v. held_in v k) (sym last)
      ∙ Dict.lookup-erase k k w.0
      ∙ ap (λ b. if b then none else Dict.lookup k w.0) (==-refl k);
}

abbrev pub meta : String → ObjectMeta
meta n = record {
  name = n;
  namespace = "ns";
  uid = n;
  labels = [];
  finalizers = [];
  generation = pos 1;
  deletion_timestamp = none;
}

abbrev pub mesh_reference : MeshReference
mesh_reference = record { name = "m"; uid = "m" }

abbrev pub active : String → List Condition
active type =
    record {
      type = type;
      status = "True";
      last_transition_time = none;
      reason = none;
      message = none;
    }
    ∷ []

abbrev pub mesh : Mesh (Unit {0})
mesh = record {
  metadata = meta "m";
  spec = record {
    aws_name = some "m";
    namespace_selector = none;
    egress_filter = none;
    mesh_owner = none;
    service_discovery = none;
  };
  status = record { mesh_arn = none; conditions = active "MeshActive"; observed_generation = none };
}

abbrev pub service : VirtualService
service = record {
  metadata = meta "s";
  spec = record { aws_name = some "s"; provider = none; mesh_ref = some mesh_reference };
  status = record { virtual_service_arn = none; conditions = []; observed_generation = none };
}

-- The cluster holds the mesh and the virtual service.
abbrev pub cluster : Client World Bool (Unit {0})
cluster = record {
  get_mesh = λ _ w. (ok mesh, w);
  get_virtual_gateway = λ _ w. (err false, w);
  get_virtual_node = λ _ w. (err false, w);
  get_virtual_service = λ _ w. (ok service, w);
  get_virtual_router = λ _ w. (err false, w);
  get_backend_group = λ _ w. (err false, w);
  list_virtual_services = λ _ w. (ok (service ∷ []), w);
  patch_mesh_status = λ _ _ w. (ok tt, w);
  patch_virtual_gateway_status = λ _ _ w. (ok tt, w);
  patch_virtual_node_status = λ _ _ w. (ok tt, w);
  patch_virtual_service_status = λ _ _ w. (ok tt, w);
  patch_virtual_router_status = λ _ _ w. (ok tt, w);
  patch_gateway_route_status = λ _ _ w. (ok tt, w);
}

pub cluster-Keeps : {V : Type 0} (view : World → V) → ClientKeeps cluster view
cluster-Keeps view = record {
  get_mesh-Keeps = λ _ w. refl;
  get_virtual_node-Keeps = λ _ w. refl;
  get_virtual_service-Keeps = λ _ w. refl;
  get_backend_group-Keeps = λ _ w. refl;
  list_virtual_services-Keeps = λ _ w. refl;
  patch_virtual_node_status-Keeps = λ _ _ w. refl;
  patch_virtual_router_status-Keeps = λ _ _ w. refl;
}
