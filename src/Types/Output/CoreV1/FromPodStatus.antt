-- ===== src/Types/Output/CoreV1/FromPodStatus.antt =====
-- The interfaces of `core.v1` in pack/nodejs/types/output.ts from PodStatus to ResourceQuota.
use pulumi_kubernetes.Common.{List, [], ◌∷◌}
use pulumi_kubernetes.Types.Shape.{
  Interface, interface, readonly, text, number, boolean, list, dict, ref,
}

abbrev pub pod_status : Interface
pod_status = interface "PodStatus" (
    readonly "conditions" (list (ref "core.v1" "PodCondition"))
    ∷ readonly "containerStatuses" (list (ref "core.v1" "ContainerStatus"))
    ∷ readonly "hostIP" text
    ∷ readonly "initContainerStatuses" (list (ref "core.v1" "ContainerStatus"))
    ∷ readonly "message" text
    ∷ readonly "phase" text
    ∷ readonly "podIP" text
    ∷ readonly "qosClass" text
    ∷ readonly "reason" text
    ∷ readonly "startTime" text
    ∷ [])

abbrev pub pod_template : Interface
pod_template = interface "PodTemplate" (
    readonly "apiVersion" text
    ∷ readonly "kind" text
    ∷ readonly "metadata" (ref "meta.v1" "ObjectMeta")
    ∷ readonly "template" (ref "core.v1" "PodTemplateSpec")
    ∷ [])

abbrev pub pod_template_list : Interface
pod_template_list = interface "PodTemplateList" (
    readonly "apiVersion" text
    ∷ readonly "items" (list (ref "core.v1" "PodTemplate"))
    ∷ readonly "kind" text
    ∷ readonly "metadata" (ref "meta.v1" "ListMeta")
    ∷ [])

abbrev pub pod_template_spec : Interface
pod_template_spec = interface "PodTemplateSpec" (
    readonly "metadata" (ref "meta.v1" "ObjectMeta")
    ∷ readonly "spec" (ref "core.v1" "PodSpec")
    ∷ [])

abbrev pub portworx_volume_source : Interface
portworx_volume_source =
    interface "PortworxVolumeSource"
      (readonly "fsType" text ∷ readonly "readOnly" boolean ∷ readonly "volumeID" text ∷ [])

abbrev pub preferred_scheduling_term : Interface
preferred_scheduling_term =
    interface "PreferredSchedulingTerm"
      (readonly "preference" (ref "core.v1" "NodeSelectorTerm") ∷ readonly "weight" number ∷ [])

abbrev pub probe : Interface
probe = interface "Probe" (
    readonly "exec" (ref "core.v1" "ExecAction")
    ∷ readonly "failureThreshold" number
    ∷ readonly "httpGet" (ref "core.v1" "HTTPGetAction")
    ∷ readonly "initialDelaySeconds" number
    ∷ readonly "periodSeconds" number
    ∷ readonly "successThreshold" number
    ∷ readonly "tcpSocket" (ref "core.v1" "TCPSocketAction")
    ∷ readonly "timeoutSeconds" number
    ∷ [])

abbrev pub projected_volume_source : Interface
projected_volume_source = interface "ProjectedVolumeSource" (
    readonly "defaultMode" number
    ∷ readonly "sources" (list (ref "core.v1" "VolumeProjection"))
    ∷ [])

abbrev pub quobyte_volume_source : Interface
quobyte_volume_source = interface "QuobyteVolumeSource" (
    readonly "group" text
    ∷ readonly "readOnly" boolean
    ∷ readonly "registry" text
    ∷ readonly "user" text
    ∷ readonly "volume" text
    ∷ [])

abbrev pub rbd_persistent_volume_source : Interface
rbd_persistent_volume_source = interface "RBDPersistentVolumeSource" (
    readonly "fsType" text
    ∷ readonly "image" text
    ∷ readonly "keyring" text
    ∷ readonly "monitors" (list text)
    ∷ readonly "pool" text
    ∷ readonly "readOnly" boolean
    ∷ readonly "secretRef" (ref "core.v1" "SecretReference")
    ∷ readonly "user" text
    ∷ [])

abbrev pub rbd_volume_source : Interface
rbd_volume_source = interface "RBDVolumeSource" (
    readonly "fsType" text
    ∷ readonly "image" text
    ∷ readonly "keyring" text
    ∷ readonly "monitors" (list text)
    ∷ readonly "pool" text
    ∷ readonly "readOnly" boolean
    ∷ readonly "secretRef" (ref "core.v1" "LocalObjectReference")
    ∷ readonly "user" text
    ∷ [])

abbrev pub replication_controller : Interface
replication_controller = interface "ReplicationController" (
    readonly "apiVersion" text
    ∷ readonly "kind" text
    ∷ readonly "metadata" (ref "meta.v1" "ObjectMeta")
    ∷ readonly "spec" (ref "core.v1" "ReplicationControllerSpec")
    ∷ readonly "status" (ref "core.v1" "ReplicationControllerStatus")
    ∷ [])

abbrev pub replication_controller_condition : Interface
replication_controller_condition = interface "ReplicationControllerCondition" (
    readonly "lastTransitionTime" text
    ∷ readonly "message" text
    ∷ readonly "reason" text
    ∷ readonly "status" text
    ∷ readonly "type" text
    ∷ [])

abbrev pub replication_controller_list : Interface
replication_controller_list = interface "ReplicationControllerList" (
    readonly "apiVersion" text
    ∷ readonly "items" (list (ref "core.v1" "ReplicationController"))
    ∷ readonly "kind" text
    ∷ readonly "metadata" (ref "meta.v1" "ListMeta")
    ∷ [])

abbrev pub replication_controller_spec : Interface
replication_controller_spec = interface "ReplicationControllerSpec" (
    readonly "minReadySeconds" number
    ∷ readonly "replicas" number
    ∷ readonly "selector" (dict text)
    ∷ readonly "template" (ref "core.v1" "PodTemplateSpec")
    ∷ [])

abbrev pub replication_controller_status : Interface
replication_controller_status = interface "ReplicationControllerStatus" (
    readonly "availableReplicas" number
    ∷ readonly "conditions" (list (ref "core.v1" "ReplicationControllerCondition"))
    ∷ readonly "fullyLabeledReplicas" number
    ∷ readonly "observedGeneration" number
    ∷ readonly "readyReplicas" number
    ∷ readonly "replicas" number
    ∷ [])

abbrev pub resource_field_selector : Interface
resource_field_selector =
    interface "ResourceFieldSelector"
      (readonly "containerName" text ∷ readonly "divisor" text ∷ readonly "resource" text ∷ [])

abbrev pub resource_quota : Interface
resource_quota = interface "ResourceQuota" (
    readonly "apiVersion" text
    ∷ readonly "kind" text
    ∷ readonly "metadata" (ref "meta.v1" "ObjectMeta")
    ∷ readonly "spec" (ref "core.v1" "ResourceQuotaSpec")
    ∷ readonly "status" (ref "core.v1" "ResourceQuotaStatus")
    ∷ [])

abbrev pub interfaces : List Interface
interfaces =
    pod_status ∷ pod_template ∷ pod_template_list ∷ pod_template_spec ∷ portworx_volume_source
    ∷ preferred_scheduling_term ∷ probe ∷ projected_volume_source ∷ quobyte_volume_source
    ∷ rbd_persistent_volume_source ∷ rbd_volume_source ∷ replication_controller
    ∷ replication_controller_condition ∷ replication_controller_list ∷ replication_controller_spec
    ∷ replication_controller_status ∷ resource_field_selector ∷ resource_quota ∷ []
