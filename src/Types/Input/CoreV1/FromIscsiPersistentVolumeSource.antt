-- ===== src/Types/Input/CoreV1/FromIscsiPersistentVolumeSource.antt =====
-- The interfaces of `core.v1` in pack/nodejs/types/input.ts from ISCSIPersistentVolumeSource to NodeAffinity.
use pulumi_kubernetes.Common.{List, [], ◌∷◌}
use pulumi_kubernetes.Types.Shape.{
  Interface, guarded, interface, required, optional, text, number, boolean, any_object, list, ref,
}

abbrev pub iscsi_persistent_volume_source : Interface
iscsi_persistent_volume_source = interface "ISCSIPersistentVolumeSource" (
    required "iqn" text
    ∷ required "lun" number
    ∷ required "targetPortal" text
    ∷ optional "chapAuthDiscovery" boolean
    ∷ optional "chapAuthSession" boolean
    ∷ optional "fsType" text
    ∷ optional "initiatorName" text
    ∷ optional "iscsiInterface" text
    ∷ optional "portals" (list text)
    ∷ optional "readOnly" boolean
    ∷ optional "secretRef" (ref "core.v1" "SecretReference")
    ∷ [])

abbrev pub iscsi_volume_source : Interface
iscsi_volume_source = interface "ISCSIVolumeSource" (
    required "iqn" text
    ∷ required "lun" number
    ∷ required "targetPortal" text
    ∷ optional "chapAuthDiscovery" boolean
    ∷ optional "chapAuthSession" boolean
    ∷ optional "fsType" text
    ∷ optional "initiatorName" text
    ∷ optional "iscsiInterface" text
    ∷ optional "portals" (list text)
    ∷ optional "readOnly" boolean
    ∷ optional "secretRef" (ref "core.v1" "LocalObjectReference")
    ∷ [])

abbrev pub key_to_path : Interface
key_to_path =
    interface "KeyToPath" (required "key" text ∷ required "path" text ∷ optional "mode" number ∷ [])

abbrev pub lifecycle : Interface
lifecycle = interface "Lifecycle" (
    optional "postStart" (ref "core.v1" "Handler")
    ∷ optional "preStop" (ref "core.v1" "Handler")
    ∷ [])

abbrev pub limit_range : Interface
limit_range = guarded "LimitRange" "v1" "LimitRange" (
    optional "apiVersion" text
    ∷ optional "kind" text
    ∷ optional "metadata" (ref "meta.v1" "ObjectMeta")
    ∷ optional "spec" (ref "core.v1" "LimitRangeSpec")
    ∷ [])

abbrev pub limit_range_item : Interface
limit_range_item = interface "LimitRangeItem" (
    optional "default" any_object
    ∷ optional "defaultRequest" any_object
    ∷ optional "max" any_object
    ∷ optional "maxLimitRequestRatio" any_object
    ∷ optional "min" any_object
    ∷ optional "type" text
    ∷ [])

abbrev pub limit_range_list : Interface
limit_range_list = guarded "LimitRangeList" "v1" "LimitRangeList" (
    required "items" (list (ref "core.v1" "LimitRange"))
    ∷ optional "apiVersion" text
    ∷ optional "kind" text
    ∷ optional "metadata" (ref "meta.v1" "ListMeta")
    ∷ [])

abbrev pub limit_range_spec : Interface
limit_range_spec =
    interface "LimitRangeSpec" (required "limits" (list (ref "core.v1" "LimitRangeItem")) ∷ [])

abbrev pub load_balancer_ingress : Interface
load_balancer_ingress =
    interface "LoadBalancerIngress" (optional "hostname" text ∷ optional "ip" text ∷ [])

abbrev pub load_balancer_status : Interface
load_balancer_status =
    interface "LoadBalancerStatus"
      (optional "ingress" (list (ref "core.v1" "LoadBalancerIngress")) ∷ [])

abbrev pub local_object_reference : Interface
local_object_reference = interface "LocalObjectReference" (optional "name" text ∷ [])

abbrev pub local_volume_source : Interface
local_volume_source = interface "LocalVolumeSource" (required "path" text ∷ [])

abbrev pub nfs_volume_source : Interface
nfs_volume_source =
    interface "NFSVolumeSource"
      (required "path" text ∷ required "server" text ∷ optional "readOnly" boolean ∷ [])

abbrev pub namespace : Interface
namespace = guarded "Namespace" "v1" "Namespace" (
    optional "apiVersion" text
    ∷ optional "kind" text
    ∷ optional "metadata" (ref "meta.v1" "ObjectMeta")
    ∷ optional "spec" (ref "core.v1" "NamespaceSpec")
    ∷ optional "status" (ref "core.v1" "NamespaceStatus")
    ∷ [])

abbrev pub namespace_list : Interface
namespace_list = guarded "NamespaceList" "v1" "NamespaceList" (
    required "items" (list (ref "core.v1" "Namespace"))
    ∷ optional "apiVersion" text
    ∷ optional "kind" text
    ∷ optional "metadata" (ref "meta.v1" "ListMeta")
    ∷ [])

abbrev pub namespace_spec : Interface
namespace_spec = interface "NamespaceSpec" (optional "finalizers" (list text) ∷ [])

abbrev pub namespace_status : Interface
namespace_status = interface "NamespaceStatus" (optional "phase" text ∷ [])

abbrev pub node : Interface
node = guarded "Node" "v1" "Node" (
    optional "apiVersion" text
    ∷ optional "kind" text
    ∷ optional "metadata" (ref "meta.v1" "ObjectMeta")
    ∷ optional "spec" (ref "core.v1" "NodeSpec")
    ∷ optional "status" (ref "core.v1" "NodeStatus")
    ∷ [])

abbrev pub node_address : Interface
node_address = interface "NodeAddress" (required "address" text ∷ required "type" text ∷ [])

abbrev pub node_affinity : Interface
node_affinity = interface "NodeAffinity" (
    optional "preferredDuringSchedulingIgnoredDuringExecution"
      (list (ref "core.v1" "PreferredSchedulingTerm"))
    ∷ optional "requiredDuringSchedulingIgnoredDuringExecution" (ref "core.v1" "NodeSelector")
    ∷ [])

abbrev pub interfaces : List Interface
interfaces =
    iscsi_persistent_volume_source ∷ iscsi_volume_source ∷ key_to_path ∷ lifecycle ∷ limit_range
    ∷ limit_range_item ∷ limit_range_list ∷ limit_range_spec ∷ load_balancer_ingress
    ∷ load_balancer_status ∷ local_object_reference ∷ local_volume_source ∷ nfs_volume_source
    ∷ namespace ∷ namespace_list ∷ namespace_spec ∷ namespace_status ∷ node ∷ node_address
    ∷ node_affinity ∷ []
