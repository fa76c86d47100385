-- ===== src/References.antt =====
-- pkg/references/object_key.go and conversions.go: which object a reference names, and its AWS name.
pub mod Resolve
pub mod Resolver
use aws_app_mesh_controller.Base.{
  String, Bool, Option, none, some, ok, err, Result, ◌==◌, ◌≡◌, ◌≢◌, arith, if◌then◌else◌,
  string_eq,
}
use aws_app_mesh_controller.Base.Int.{ℤ}
use aws_app_mesh_controller.Base.Dict
use aws_app_mesh_controller.Base.Dict.{Dict}
use aws_app_mesh_controller.Api.Meta.{ObjectMeta, NamespacedName}
use aws_app_mesh_controller.Api.Equal.{namespaced_name_eq}
use aws_app_mesh_controller.Api.Shared.{
  VirtualGatewayReference, VirtualNodeReference, VirtualServiceReference, VirtualRouterReference,
}
use aws_app_mesh_controller.Api.BackendGroup.{BackendGroupReference}
use aws_app_mesh_controller.Api.VirtualNode.{VirtualNode}
use aws_app_mesh_controller.Api.VirtualGateway.{VirtualGateway}
use aws_app_mesh_controller.Api.VirtualService.{VirtualService}
use aws_app_mesh_controller.Api.VirtualRouter.{VirtualRouter}

-- `if ref.Namespace != nil && len(*ref.Namespace) != 0 { namespace = *ref.Namespace }`
namespace_or : String → Option String → String
namespace_or namespace none = namespace
namespace_or namespace (some s) = if s == "" then namespace else s

unfoldable pub object_key_for_virtual_gateway_reference :
    ObjectMeta → VirtualGatewayReference → NamespacedName
unfolding namespace_or
object_key_for_virtual_gateway_reference obj ref = record {
  namespace = namespace_or obj.namespace ref.namespace;
  name = ref.name;
}

unfoldable pub object_key_for_virtual_node_reference :
    ObjectMeta → VirtualNodeReference → NamespacedName
unfolding namespace_or
object_key_for_virtual_node_reference obj ref = record {
  namespace = namespace_or obj.namespace ref.namespace;
  name = ref.name;
}

unfoldable pub object_key_for_virtual_service_reference :
    ObjectMeta → VirtualServiceReference → NamespacedName
unfolding namespace_or
object_key_for_virtual_service_reference obj ref = record {
  namespace = namespace_or obj.namespace ref.namespace;
  name = ref.name;
}

unfoldable pub object_key_for_virtual_router_reference :
    ObjectMeta → VirtualRouterReference → NamespacedName
unfolding namespace_or
object_key_for_virtual_router_reference obj ref = record {
  namespace = namespace_or obj.namespace ref.namespace;
  name = ref.name;
}

unfoldable pub object_key_for_backend_group_reference :
    ObjectMeta → BackendGroupReference → NamespacedName
unfolding namespace_or
object_key_for_backend_group_reference obj ref = record {
  namespace = namespace_or obj.namespace ref.namespace;
  name = ref.name;
}

-- aws.StringValue and aws.Int64Value of the AWS SDK: the value pointed to, and "" or 0 for nil.
pub record AwsSdk : Type 0 where
  pub string_value : Option String → String
  pub int64_value : Option ℤ → ℤ

pub record AwsSdkLaws (sdk : AwsSdk) : Type 0 where
  pub string_value-some : (s : String) → sdk.string_value (some s) ≡ s
  pub string_value-none : sdk.string_value none ≡ ""
  pub int64_value-some : (n : ℤ) → sdk.int64_value (some n) ≡ n

pub data UnexpectedReference : Type 0 where
  unexpected_reference : NamespacedName → UnexpectedReference

module _ (sdk : AwsSdk) where
  unfoldable pub build_sdk_virtual_gateway_reference_convert_func :
      {Selector : Type 0} (obj : ObjectMeta)
      → Dict NamespacedName (VirtualGateway Selector)
      → VirtualGatewayReference
      → Result UnexpectedReference String
  build_sdk_virtual_gateway_reference_convert_func obj by_key ref =
      let key = object_key_for_virtual_gateway_reference obj ref in
      elim (Dict.lookup key by_key) [
        | none ↦ err (unexpected_reference key)
        | some vg ↦ ok (sdk.string_value vg.spec.aws_name)
      ]

  unfoldable pub build_sdk_virtual_node_reference_convert_func :
      {Selector : Type 0} (obj : ObjectMeta)
      → Dict NamespacedName (VirtualNode Selector)
      → VirtualNodeReference
      → Result UnexpectedReference String
  build_sdk_virtual_node_reference_convert_func obj by_key ref =
      let key = object_key_for_virtual_node_reference obj ref in
      elim (Dict.lookup key by_key) [
        | none ↦ err (unexpected_reference key)
        | some vn ↦ ok (sdk.string_value vn.spec.aws_name)
      ]

  unfoldable pub build_sdk_virtual_service_reference_convert_func :
      ObjectMeta
      → Dict NamespacedName VirtualService
      → VirtualServiceReference
      → Result UnexpectedReference String
  build_sdk_virtual_service_reference_convert_func obj by_key ref =
      let key = object_key_for_virtual_service_reference obj ref in
      elim (Dict.lookup key by_key) [
        | none ↦ err (unexpected_reference key)
        | some vs ↦ ok (sdk.string_value vs.spec.aws_name)
      ]

  unfoldable pub build_sdk_virtual_router_reference_convert_func :
      ObjectMeta
      → Dict NamespacedName VirtualRouter
      → VirtualRouterReference
      → Result UnexpectedReference String
  build_sdk_virtual_router_reference_convert_func obj by_key ref =
      let key = object_key_for_virtual_router_reference obj ref in
      elim (Dict.lookup key by_key) [
        | none ↦ err (unexpected_reference key)
        | some vr ↦ ok (sdk.string_value vr.spec.aws_name)
      ]

pub object_key_for_virtual_service_reference-explicit :
    (obj : ObjectMeta) (ref : VirtualServiceReference) (s : String)
    → ref.namespace ≡ some s
    → s ≢ ""
    → object_key_for_virtual_service_reference obj ref ≡ record { namespace = s; name = ref.name }
unfolding object_key_for_virtual_service_reference
object_key_for_virtual_service_reference-explicit obj ref s e h = ground arith
