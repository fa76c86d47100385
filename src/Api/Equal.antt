-- ===== src/Api/Equal.antt =====
-- Equality of the structs that the program compares: as map keys, or by reflect.DeepEqual.
use aws_app_mesh_controller.Base.{Eq, string_eq}
use aws_app_mesh_controller.Api.Meta.{NamespacedName}
use aws_app_mesh_controller.Api.Shared.{MeshReference, VirtualGatewayReference}
use aws_app_mesh_controller.Api.VirtualNode.{
  AwsCloudMapInstanceAttribute, AwsCloudMapServiceDiscovery,
}

namespaced_name_dec : Discrete NamespacedName
namespaced_name_dec = hlevel string_eq.dec

instance unfoldable pub namespaced_name_eq : Eq NamespacedName
unfolding namespaced_name_dec
namespaced_name_eq = record { dec = namespaced_name_dec }

mesh_reference_dec : Discrete MeshReference
mesh_reference_dec = hlevel string_eq.dec

instance unfoldable pub mesh_reference_eq : Eq MeshReference
unfolding mesh_reference_dec
mesh_reference_eq = record { dec = mesh_reference_dec }

virtual_gateway_reference_dec : Discrete VirtualGatewayReference
virtual_gateway_reference_dec = hlevel string_eq.dec

instance unfoldable pub virtual_gateway_reference_eq : Eq VirtualGatewayReference
unfolding virtual_gateway_reference_dec
virtual_gateway_reference_eq = record { dec = virtual_gateway_reference_dec }

instance_attribute_dec : Discrete AwsCloudMapInstanceAttribute
instance_attribute_dec = hlevel string_eq.dec

service_discovery_dec : Discrete AwsCloudMapServiceDiscovery
service_discovery_dec = hlevel (string_eq.dec, instance_attribute_dec)

instance unfoldable pub service_discovery_eq : Eq AwsCloudMapServiceDiscovery
unfolding service_discovery_dec instance_attribute_dec
service_discovery_eq = record { dec = service_discovery_dec }
