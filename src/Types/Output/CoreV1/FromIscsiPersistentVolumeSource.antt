-- ===== src/Types/Output/CoreV1/FromIscsiPersistentVolumeSource.antt =====
-- The interfaces of `core.v1` in pack/nodejs/types/output.ts from ISCSIPersistentVolumeSource to NodeAffinity.
use pulumi_kubernetes.Common.{List, [], ◌∷◌}
use pulumi_kubernetes.Types.Shape.{
  Interface, interface, readonly, text, number, boolean, any_object, list, ref,
}

abbrev pub iscsi_persistent_volume_source : Interface
iscsi_persistent_volume_source = interface "ISCSIPersistentVolumeSource" (
    readonly "chapAuthDiscovery" boolean
    ∷ readonly "chapAuthSession" boolean
    ∷ readonly "fsType" text
    ∷ readonly "initiatorName" text
    ∷ readonly "iqn" text
    ∷ readonly "iscsiInterface" text
    ∷ readonly "lun" number
    ∷ readonly "portals" (list text)
    ∷ readonly "readOnly" boolean
    ∷ readonly "secretRef" (ref "core.v1" "SecretReference")
    ∷ readonly "targetPortal" text
    ∷ [])

abbrev pub iscsi_volume_source : Interface
iscsi_volume_source = interface "ISCSIVolumeSource" (
    readonly "chapAuthDiscovery" boolean
    ∷ readonly "chapAuthSession" boolean
    ∷ readonly "fsType" text
    ∷ readonly "initiatorName" text
    ∷ readonly "iqn" text
    ∷ readonly "iscsiInterface" text
    ∷ readonly "lun" number
    ∷ readonly "portals" (list text)
    ∷ readonly "readOnly" boolean
    ∷ readonly "secretRef" (ref "core.v1" "LocalObjectReference")
    ∷ readonly "targetPortal" text
    ∷ [])

abbrev pub key_to_path : Interface
key_to_path =
    interface "KeyToPath" (readonly "key" text ∷ readonly "mode" number ∷ readonly "path" text ∷ [])

abbrev pub lifecycle : Interface
lifecycle = interface "Lifecycle" (
    readonly "postStart" (ref "core.v1" "Handler")
    ∷ readonly "preStop" (ref "core.v1" "Handler")
    ∷ [])

abbrev pub limit_range : Interface
limit_range = interface "LimitRange" (
    readonly "apiVersion" text
    ∷ readonly "kind" text
    ∷ readonly "metadata" (ref "meta.v1" "ObjectMeta")
    ∷ readonly "spec" (ref "core.v1" "LimitRangeSpec")
    ∷ [])

abbrev pub limit_range_item : Interface
limit_range_item = interface "LimitRangeItem" (
    readonly "default" any_object
    ∷ readonly "defaultRequest" any_object
    ∷ readonly "max" any_object
    ∷ readonly "maxLimitRequestRatio" any_object
    ∷ readonly "min" any_object
    ∷ readonly "type" text
    ∷ [])

abbrev pub limit_range_list : Interface
limit_range_list = interface "LimitRangeList" (
    readonly "apiVersion" text
    ∷ readonly "items" (list (ref "core.v1" "LimitRange"))
    ∷ readonly "kind" text
    ∷ readonly "metadata" (ref "meta.v1" "ListMeta")
    ∷ [])

abbrev pub limit_range_spec : Interface
limit_range_spec =
    interface "LimitRangeSpec" (readonly "limits" (list (ref "core.v1" "LimitRangeItem")) ∷ [])

abbrev pub load_balancer_ingress : Interface
load_balancer_ingress =
    interface "LoadBalancerIngress" (readonly "hostname" text ∷ readonly "ip" text ∷ [])

abbrev pub load_balancer_status : Interface
load_balancer_status =
    interface "LoadBalancerStatus"
      (readonly "ingress" (list (ref "core.v1" "LoadBalancerIngress")) ∷ [])

abbrev pub local_object_reference : Interface
local_object_reference = interface "LocalObjectReference" (readonly "name" text ∷ [])

abbrev pub local_volume_source : Interface
local_volume_source = interface "LocalVolumeSource" (readonly "path" text ∷ [])

abbrev pub nfs_volume_source : Interface
nfs_volume_source =
    interface "NFSVolumeSource"
      (readonly "path" text ∷ readonly "readOnly" boolean ∷ readonly "server" text ∷ [])

abbrev pub namespace : Interface
namespace = interface "Namespace" (
    readonly "apiVersion" text
    ∷ readonly "kind" text
    ∷ readonly "metadata" (ref "meta.v1" "ObjectMeta")
    ∷ readonly "spec" (ref "core.v1" "NamespaceSpec")
    ∷ readonly "status" (ref "core.v1" "NamespaceStatus")
    ∷ [])

abbrev pub namespace_list : Interface
namespace_list = interface "NamespaceList" (
    readonly "apiVersion" text
    ∷ readonly "items" (list (ref "core.v1" "Namespace"))
    ∷ readonly "kind" text
    ∷ readonly "metadata" (ref "meta.v1" "ListMeta")
    ∷ [])

abbrev pub namespace_spec : Interface
namespace_spec = interface "NamespaceSpec" (readonly "finalizers" (list text) ∷ [])

abbrev pub namespace_status : Interface
namespace_status = interface "NamespaceStatus" (readonly "phase" text ∷ [])

abbrev pub node : Interface
node = interface "Node" (
    readonly "apiVersion" text
    ∷ readonly "kind" text
    ∷ readonly "metadata" (ref "meta.v1" "ObjectMeta")
    ∷ readonly "spec" (ref "core.v1" "NodeSpec")
    ∷ readonly "status" (ref "core.v1" "NodeStatus")
    ∷ [])

abbrev pub node_address : Interface
node_address = interface "NodeAddress" (readonly "address" text ∷ readonly "type" text ∷ [])

abbrev pub node_affinity : Interface
node_affinity = interface "NodeAffinity" (
    readonly "preferredDuringSchedulingIgnoredDuringExecution"
      (list (ref "core.v1" "PreferredSchedulingTerm"))
    ∷ readonly "requiredDuringSchedulingIgnoredDuringExecution" (ref "core.v1" "NodeSelector")
    ∷ [])

abbrev pub interfaces : List Interface
interfaces =
    iscsi_persistent_volume_source ∷ iscsi_volume_source ∷ key_to_path ∷ lifecycle ∷ limit_range
    ∷ limit_range_item ∷ limit_range_list ∷ limit_range_spec ∷ load_balancer_ingress
    ∷ load_balancer_status ∷ local_object_reference ∷ local_volume_source ∷ nfs_volume_source
    ∷ namespace ∷ namespace_list ∷ namespace_spec ∷ namespace_status ∷ node ∷ node_address
    ∷ node_affinity ∷ []
