-- ===== src/Types/Input/CoreV1/FromNodeCondition.antt =====
-- The interfaces of `core.v1` in pack/nodejs/types/input.ts from NodeCondition to PersistentVolumeClaimStatus.
use pulumi_kubernetes.Common.{List, [], ◌∷◌}
use pulumi_kubernetes.Types.Shape.{
  Interface, guarded, interface, required, optional, text, boolean, any_object, list, ref,
}

abbrev pub node_condition : Interface
node_condition = interface "NodeCondition" (
    required "status" text
    ∷ required "type" text
    ∷ optional "lastHeartbeatTime" text
    ∷ optional "lastTransitionTime" text
    ∷ optional "message" text
    ∷ optional "reason" text
    ∷ [])

abbrev pub node_config_source : Interface
node_config_source = guarded "NodeConfigSource" "v1" "NodeConfigSource" (
    optional "apiVersion" text
    ∷ optional "configMapRef" (ref "core.v1" "ObjectReference")
    ∷ optional "kind" text
    ∷ [])

abbrev pub node_daemon_endpoints : Interface
node_daemon_endpoints =
    interface "NodeDaemonEndpoints"
      (optional "kubeletEndpoint" (ref "core.v1" "DaemonEndpoint") ∷ [])

abbrev pub node_list : Interface
node_list = guarded "NodeList" "v1" "NodeList" (
    required "items" (list (ref "core.v1" "Node"))
    ∷ optional "apiVersion" text
    ∷ optional "kind" text
    ∷ optional "metadata" (ref "meta.v1" "ListMeta")
    ∷ [])

abbrev pub node_selector : Interface
node_selector =
    interface "NodeSelector"
      (required "nodeSelectorTerms" (list (ref "core.v1" "NodeSelectorTerm")) ∷ [])

abbrev pub node_selector_requirement : Interface
node_selector_requirement =
    interface "NodeSelectorRequirement"
      (required "key" text ∷ required "operator" text ∷ optional "values" (list text) ∷ [])

abbrev pub node_selector_term : Interface
node_selector_term =
    interface "NodeSelectorTerm"
      (required "matchExpressions" (list (ref "core.v1" "NodeSelectorRequirement")) ∷ [])

abbrev pub node_spec : Interface
node_spec = interface "NodeSpec" (
    optional "configSource" (ref "core.v1" "NodeConfigSource")
    ∷ optional "externalID" text
    ∷ optional "podCIDR" text
    ∷ optional "providerID" text
    ∷ optional "taints" (list (ref "core.v1" "Taint"))
    ∷ optional "unschedulable" boolean
    ∷ [])

abbrev pub node_status : Interface
node_status = interface "NodeStatus" (
    optional "addresses" (list (ref "core.v1" "NodeAddress"))
    ∷ optional "allocatable" any_object
    ∷ optional "capacity" any_object
    ∷ optional "conditions" (list (ref "core.v1" "NodeCondition"))
    ∷ optional "daemonEndpoints" (ref "core.v1" "NodeDaemonEndpoints")
    ∷ optional "images" (list (ref "core.v1" "ContainerImage"))
    ∷ optional "nodeInfo" (ref "core.v1" "NodeSystemInfo")
    ∷ optional "phase" text
    ∷ optional "volumesAttached" (list (ref "core.v1" "AttachedVolume"))
    ∷ optional "volumesInUse" (list text)
    ∷ [])

abbrev pub node_system_info : Interface
node_system_info = interface "NodeSystemInfo" (
    required "architecture" text
    ∷ required "bootID" text
    ∷ required "containerRuntimeVersion" text
    ∷ required "kernelVersion" text
    ∷ required "kubeProxyVersion" text
    ∷ required "kubeletVersion" text
    ∷ required "machineID" text
    ∷ required "operatingSystem" text
    ∷ required "osImage" text
    ∷ required "systemUUID" text
    ∷ [])

abbrev pub object_field_selector : Interface
object_field_selector =
    guarded "ObjectFieldSelector" "core/v1" "ObjectFieldSelector"
      (required "fieldPath" text ∷ optional "apiVersion" text ∷ [])

abbrev pub object_reference : Interface
object_reference = guarded "ObjectReference" "core/v1" "ObjectReference" (
    optional "apiVersion" text
    ∷ optional "fieldPath" text
    ∷ optional "kind" text
    ∷ optional "name" text
    ∷ optional "namespace" text
    ∷ optional "resourceVersion" text
    ∷ optional "uid" text
    ∷ [])

abbrev pub persistent_volume : Interface
persistent_volume = guarded "PersistentVolume" "v1" "PersistentVolume" (
    optional "apiVersion" text
    ∷ optional "kind" text
    ∷ optional "metadata" (ref "meta.v1" "ObjectMeta")
    ∷ optional "spec" (ref "core.v1" "PersistentVolumeSpec")
    ∷ optional "status" (ref "core.v1" "PersistentVolumeStatus")
    ∷ [])

abbrev pub persistent_volume_claim : Interface
persistent_volume_claim = guarded "PersistentVolumeClaim" "v1" "PersistentVolumeClaim" (
    optional "apiVersion" text
    ∷ optional "kind" text
    ∷ optional "metadata" (ref "meta.v1" "ObjectMeta")
    ∷ optional "spec" (ref "core.v1" "PersistentVolumeClaimSpec")
    ∷ optional "status" (ref "core.v1" "PersistentVolumeClaimStatus")
    ∷ [])

abbrev pub persistent_volume_claim_condition : Interface
persistent_volume_claim_condition = interface "PersistentVolumeClaimCondition" (
    required "status" text
    ∷ required "type" text
    ∷ optional "lastProbeTime" text
    ∷ optional "lastTransitionTime" text
    ∷ optional "message" text
    ∷ optional "reason" text
    ∷ [])

abbrev pub persistent_volume_claim_list : Interface
persistent_volume_claim_list =
    guarded "PersistentVolumeClaimList" "v1" "PersistentVolumeClaimList" (
      required "items" (list (ref "core.v1" "PersistentVolumeClaim"))
      ∷ optional "apiVersion" text
      ∷ optional "kind" text
      ∷ optional "metadata" (ref "meta.v1" "ListMeta")
      ∷ [])

abbrev pub persistent_volume_claim_spec : Interface
persistent_volume_claim_spec = interface "PersistentVolumeClaimSpec" (
    optional "accessModes" (list text)
    ∷ optional "resources" (ref "core.v1" "ResourceRequirements")
    ∷ optional "selector" (ref "meta.v1" "LabelSelector")
    ∷ optional "storageClassName" text
    ∷ optional "volumeMode" text
    ∷ optional "volumeName" text
    ∷ [])

abbrev pub persistent_volume_claim_status : Interface
persistent_volume_claim_status = interface "PersistentVolumeClaimStatus" (
    optional "accessModes" (list text)
    ∷ optional "capacity" any_object
    ∷ optional "conditions" (list (ref "core.v1" "PersistentVolumeClaimCondition"))
    ∷ optional "phase" text
    ∷ [])

abbrev pub interfaces : List Interface
interfaces =
    node_condition ∷ node_config_source ∷ node_daemon_endpoints ∷ node_list ∷ node_selector
    ∷ node_selector_requirement ∷ node_selector_term ∷ node_spec ∷ node_status ∷ node_system_info
    ∷ object_field_selector ∷ object_reference ∷ persistent_volume ∷ persistent_volume_claim
    ∷ persistent_volume_claim_condition ∷ persistent_volume_claim_list
    ∷ persistent_volume_claim_spec ∷ persistent_volume_claim_status ∷ []
