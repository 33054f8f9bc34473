-- ===== src/Types/Output/CoreV1/FromNodeCondition.antt =====
-- The interfaces of `core.v1` in pack/nodejs/types/output.ts from NodeCondition to PersistentVolumeClaimStatus.
use pulumi_kubernetes.Common.{List, [], ◌∷◌}
use pulumi_kubernetes.Types.Shape.{
  Interface, interface, readonly, text, boolean, any_object, list, ref,
}

abbrev pub node_condition : Interface
node_condition = interface "NodeCondition" (
    readonly "lastHeartbeatTime" text
    ∷ readonly "lastTransitionTime" text
    ∷ readonly "message" text
    ∷ readonly "reason" text
    ∷ readonly "status" text
    ∷ readonly "type" text
    ∷ [])

abbrev pub node_config_source : Interface
node_config_source = interface "NodeConfigSource" (
    readonly "apiVersion" text
    ∷ readonly "configMapRef" (ref "core.v1" "ObjectReference")
    ∷ readonly "kind" text
    ∷ [])

abbrev pub node_daemon_endpoints : Interface
node_daemon_endpoints =
    interface "NodeDaemonEndpoints"
      (readonly "kubeletEndpoint" (ref "core.v1" "DaemonEndpoint") ∷ [])

abbrev pub node_list : Interface
node_list = interface "NodeList" (
    readonly "apiVersion" text
    ∷ readonly "items" (list (ref "core.v1" "Node"))
    ∷ readonly "kind" text
    ∷ readonly "metadata" (ref "meta.v1" "ListMeta")
    ∷ [])

abbrev pub node_selector : Interface
node_selector =
    interface "NodeSelector"
      (readonly "nodeSelectorTerms" (list (ref "core.v1" "NodeSelectorTerm")) ∷ [])

abbrev pub node_selector_requirement : Interface
node_selector_requirement =
    interface "NodeSelectorRequirement"
      (readonly "key" text ∷ readonly "operator" text ∷ readonly "values" (list text) ∷ [])

abbrev pub node_selector_term : Interface
node_selector_term =
    interface "NodeSelectorTerm"
      (readonly "matchExpressions" (list (ref "core.v1" "NodeSelectorRequirement")) ∷ [])

abbrev pub node_spec : Interface
node_spec = interface "NodeSpec" (
    readonly "configSource" (ref "core.v1" "NodeConfigSource")
    ∷ readonly "externalID" text
    ∷ readonly "podCIDR" text
    ∷ readonly "providerID" text
    ∷ readonly "taints" (list (ref "core.v1" "Taint"))
    ∷ readonly "unschedulable" boolean
    ∷ [])

abbrev pub node_status : Interface
node_status = interface "NodeStatus" (
    readonly "addresses" (list (ref "core.v1" "NodeAddress"))
    ∷ readonly "allocatable" any_object
    ∷ readonly "capacity" any_object
    ∷ readonly "conditions" (list (ref "core.v1" "NodeCondition"))
    ∷ readonly "daemonEndpoints" (ref "core.v1" "NodeDaemonEndpoints")
    ∷ readonly "images" (list (ref "core.v1" "ContainerImage"))
    ∷ readonly "nodeInfo" (ref "core.v1" "NodeSystemInfo")
    ∷ readonly "phase" text
    ∷ readonly "volumesAttached" (list (ref "core.v1" "AttachedVolume"))
    ∷ readonly "volumesInUse" (list text)
    ∷ [])

abbrev pub node_system_info : Interface
node_system_info = interface "NodeSystemInfo" (
    readonly "architecture" text
    ∷ readonly "bootID" text
    ∷ readonly "containerRuntimeVersion" text
    ∷ readonly "kernelVersion" text
    ∷ readonly "kubeProxyVersion" text
    ∷ readonly "kubeletVersion" text
    ∷ readonly "machineID" text
    ∷ readonly "operatingSystem" text
    ∷ readonly "osImage" text
    ∷ readonly "systemUUID" text
    ∷ [])

abbrev pub object_field_selector : Interface
object_field_selector =
    interface "ObjectFieldSelector" (readonly "apiVersion" text ∷ readonly "fieldPath" text ∷ [])

abbrev pub object_reference : Interface
object_reference = interface "ObjectReference" (
    readonly "apiVersion" text
    ∷ readonly "fieldPath" text
    ∷ readonly "kind" text
    ∷ readonly "name" text
    ∷ readonly "namespace" text
    ∷ readonly "resourceVersion" text
    ∷ readonly "uid" text
    ∷ [])

abbrev pub persistent_volume : Interface
persistent_volume = interface "PersistentVolume" (
    readonly "apiVersion" text
    ∷ readonly "kind" text
    ∷ readonly "metadata" (ref "meta.v1" "ObjectMeta")
    ∷ readonly "spec" (ref "core.v1" "PersistentVolumeSpec")
    ∷ readonly "status" (ref "core.v1" "PersistentVolumeStatus")
    ∷ [])

abbrev pub persistent_volume_claim : Interface
persistent_volume_claim = interface "PersistentVolumeClaim" (
    readonly "apiVersion" text
    ∷ readonly "kind" text
    ∷ readonly "metadata" (ref "meta.v1" "ObjectMeta")
    ∷ readonly "spec" (ref "core.v1" "PersistentVolumeClaimSpec")
    ∷ readonly "status" (ref "core.v1" "PersistentVolumeClaimStatus")
    ∷ [])

abbrev pub persistent_volume_claim_condition : Interface
persistent_volume_claim_condition = interface "PersistentVolumeClaimCondition" (
    readonly "lastProbeTime" text
    ∷ readonly "lastTransitionTime" text
    ∷ readonly "message" text
    ∷ readonly "reason" text
    ∷ readonly "status" text
    ∷ readonly "type" text
    ∷ [])

abbrev pub persistent_volume_claim_list : Interface
persistent_volume_claim_list = interface "PersistentVolumeClaimList" (
    readonly "apiVersion" text
    ∷ readonly "items" (list (ref "core.v1" "PersistentVolumeClaim"))
    ∷ readonly "kind" text
    ∷ readonly "metadata" (ref "meta.v1" "ListMeta")
    ∷ [])

abbrev pub persistent_volume_claim_spec : Interface
persistent_volume_claim_spec = interface "PersistentVolumeClaimSpec" (
    readonly "accessModes" (list text)
    ∷ readonly "resources" (ref "core.v1" "ResourceRequirements")
    ∷ readonly "selector" (ref "meta.v1" "LabelSelector")
    ∷ readonly "storageClassName" text
    ∷ readonly "volumeMode" text
    ∷ readonly "volumeName" text
    ∷ [])

abbrev pub persistent_volume_claim_status : Interface
persistent_volume_claim_status = interface "PersistentVolumeClaimStatus" (
    readonly "accessModes" (list text)
    ∷ readonly "capacity" any_object
    ∷ readonly "conditions" (list (ref "core.v1" "PersistentVolumeClaimCondition"))
    ∷ readonly "phase" text
    ∷ [])

abbrev pub interfaces : List Interface
interfaces =
    node_condition ∷ node_config_source ∷ node_daemon_endpoints ∷ node_list ∷ node_selector
    ∷ node_selector_requirement ∷ node_selector_term ∷ node_spec ∷ node_status ∷ node_system_info
    ∷ object_field_selector ∷ object_reference ∷ persistent_volume ∷ persistent_volume_claim
    ∷ persistent_volume_claim_condition ∷ persistent_volume_claim_list
    ∷ persistent_volume_claim_spec ∷ persistent_volume_claim_status ∷ []
