-- ===== src/References/Resolve.antt =====
-- Where a reference leads.
use aws_app_mesh_controller.Base.{String, some, ◌≡◌, ◌≢◌, ap, arith, string_eq, Option, none}
use aws_app_mesh_controller.Api.Meta.{ObjectMeta}
use aws_app_mesh_controller.Api.Equal.{namespaced_name_eq}
use aws_app_mesh_controller.Api.Shared.{VirtualNodeReference}
use aws_app_mesh_controller.References.{namespace_or, object_key_for_virtual_node_reference}

namespace_or_resolved :
    (a b : String) (o : Option String)
    → a ≢ ""
    → namespace_or b (some (namespace_or a o)) ≡ namespace_or a o
unfolding namespace_or
namespace_or_resolved a b none h = ground arith
namespace_or_resolved a b (some s) h = ground arith

-- A reference that is written out with the namespace that it resolves to, from an object in a
-- namespace, leads to the same object from everywhere.
pub object_key_qualified :
    (obj other : ObjectMeta) (ref : VirtualNodeReference)
    → obj.namespace ≢ ""
    → object_key_for_virtual_node_reference other
        (record ref { namespace = some (object_key_for_virtual_node_reference obj ref).namespace })
      ≡ object_key_for_virtual_node_reference obj ref
unfolding object_key_for_virtual_node_reference
object_key_qualified obj other ref h =
    ap (λ (s : String). record { namespace = s; name = ref.name })
      (namespace_or_resolved obj.namespace other.namespace ref.namespace h)
