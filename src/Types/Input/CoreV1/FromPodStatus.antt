-- ===== src/Types/Input/CoreV1/FromPodStatus.antt =====
-- The interfaces of `core.v1` in pack/nodejs/types/input.ts from PodStatus to ResourceQuota.
use pulumi_kubernetes.Common.{List, [], ◌∷◌}
use pulumi_kubernetes.Types.Shape.{
  Interface, guarded, interface, required, optional, text, number, boolean, list, dict, ref, input,
}

abbrev pub pod_status : Interface
pod_status = interface "PodStatus" (
    optional "conditions" (list (ref "core.v1" "PodCondition"))
    ∷ optional "containerStatuses" (list (ref "core.v1" "ContainerStatus"))
    ∷ optional "hostIP" text
    ∷ optional "initContainerStatuses" (list (ref "core.v1" "ContainerStatus"))
    ∷ optional "message" text
    ∷ optional "phase" text
    ∷ optional "podIP" text
    ∷ optional "qosClass" text
    ∷ optional "reason" text
    ∷ optional "startTime" text
    ∷ [])

abbrev pub pod_template : Interface
pod_template = guarded "PodTemplate" "v1" "PodTemplate" (
    optional "apiVersion" text
    ∷ optional "kind" text
    ∷ optional "metadata" (ref "meta.v1" "ObjectMeta")
    ∷ optional "template" (ref "core.v1" "PodTemplateSpec")
    ∷ [])

abbrev pub pod_template_list : Interface
pod_template_list = guarded "PodTemplateList" "v1" "PodTemplateList" (
    required "items" (list (ref "core.v1" "PodTemplate"))
    ∷ optional "apiVersion" text
    ∷ optional "kind" text
    ∷ optional "metadata" (ref "meta.v1" "ListMeta")
    ∷ [])

abbrev pub pod_template_spec : Interface
pod_template_spec = interface "PodTemplateSpec" (
    optional "metadata" (ref "meta.v1" "ObjectMeta")
    ∷ optional "spec" (ref "core.v1" "PodSpec")
    ∷ [])

abbrev pub portworx_volume_source : Interface
portworx_volume_source =
    interface "PortworxVolumeSource"
      (required "volumeID" text ∷ optional "fsType" text ∷ optional "readOnly" boolean ∷ [])

abbrev pub preferred_scheduling_term : Interface
preferred_scheduling_term =
    interface "PreferredSchedulingTerm"
      (required "preference" (ref "core.v1" "NodeSelectorTerm") ∷ required "weight" number ∷ [])

abbrev pub probe : Interface
probe = interface "Probe" (
    optional "exec" (ref "core.v1" "ExecAction")
    ∷ optional "failureThreshold" number
    ∷ optional "httpGet" (ref "core.v1" "HTTPGetAction")
    ∷ optional "initialDelaySeconds" number
    ∷ optional "periodSeconds" number
    ∷ optional "successThreshold" number
    ∷ optional "tcpSocket" (ref "core.v1" "TCPSocketAction")
    ∷ optional "timeoutSeconds" number
    ∷ [])

abbrev pub projected_volume_source : Interface
projected_volume_source = interface "ProjectedVolumeSource" (
    required "sources" (list (ref "core.v1" "VolumeProjection"))
    ∷ optional "defaultMode" number
    ∷ [])

abbrev pub quobyte_volume_source : Interface
quobyte_volume_source = interface "QuobyteVolumeSource" (
    required "registry" text
    ∷ required "volume" text
    ∷ optional "group" text
    ∷ optional "readOnly" boolean
    ∷ optional "user" text
    ∷ [])

abbrev pub rbd_persistent_volume_source : Interface
rbd_persistent_volume_source = interface "RBDPersistentVolumeSource" (
    required "image" text
    ∷ required "monitors" (list text)
    ∷ optional "fsType" text
    ∷ optional "keyring" text
    ∷ optional "pool" text
    ∷ optional "readOnly" boolean
    ∷ optional "secretRef" (ref "core.v1" "SecretReference")
    ∷ optional "user" text
    ∷ [])

abbrev pub rbd_volume_source : Interface
rbd_volume_source = interface "RBDVolumeSource" (
    required "image" text
    ∷ required "monitors" (list text)
    ∷ optional "fsType" text
    ∷ optional "keyring" text
    ∷ optional "pool" text
    ∷ optional "readOnly" boolean
    ∷ optional "secretRef" (ref "core.v1" "LocalObjectReference")
    ∷ optional "user" text
    ∷ [])

abbrev pub replication_controller : Interface
replication_controller = guarded "ReplicationController" "v1" "ReplicationController" (
    optional "apiVersion" text
    ∷ optional "kind" text
    ∷ optional "metadata" (ref "meta.v1" "ObjectMeta")
    ∷ optional "spec" (ref "core.v1" "ReplicationControllerSpec")
    ∷ optional "status" (ref "core.v1" "ReplicationControllerStatus")
    ∷ [])

abbrev pub replication_controller_condition : Interface
replication_controller_condition = interface "ReplicationControllerCondition" (
    required "status" text
    ∷ required "type" text
    ∷ optional "lastTransitionTime" text
    ∷ optional "message" text
    ∷ optional "reason" text
    ∷ [])

abbrev pub replication_controller_list : Interface
replication_controller_list = guarded "ReplicationControllerList" "v1" "ReplicationControllerList" (
    required "items" (list (ref "core.v1" "ReplicationController"))
    ∷ optional "apiVersion" text
    ∷ optional "kind" text
    ∷ optional "metadata" (ref "meta.v1" "ListMeta")
    ∷ [])

abbrev pub replication_controller_spec : Interface
replication_controller_spec = interface "ReplicationControllerSpec" (
    optional "minReadySeconds" number
    ∷ optional "replicas" number
    ∷ optional "selector" (dict (input text))
    ∷ optional "template" (ref "core.v1" "PodTemplateSpec")
    ∷ [])

abbrev pub replication_controller_status : Interface
replication_controller_status = interface "ReplicationControllerStatus" (
    required "replicas" number
    ∷ optional "availableReplicas" number
    ∷ optional "conditions" (list (ref "core.v1" "ReplicationControllerCondition"))
    ∷ optional "fullyLabeledReplicas" number
    ∷ optional "observedGeneration" number
    ∷ optional "readyReplicas" number
    ∷ [])

abbrev pub resource_field_selector : Interface
resource_field_selector =
    interface "ResourceFieldSelector"
      (required "resource" text ∷ optional "containerName" text ∷ optional "divisor" text ∷ [])

abbrev pub resource_quota : Interface
resource_quota = guarded "ResourceQuota" "v1" "ResourceQuota" (
    optional "apiVersion" text
    ∷ optional "kind" text
    ∷ optional "metadata" (ref "meta.v1" "ObjectMeta")
    ∷ optional "spec" (ref "core.v1" "ResourceQuotaSpec")
    ∷ optional "status" (ref "core.v1" "ResourceQuotaStatus")
    ∷ [])

abbrev pub interfaces : List Interface
interfaces =
    pod_status ∷ pod_template ∷ pod_template_list ∷ pod_template_spec ∷ portworx_volume_source
    ∷ preferred_scheduling_term ∷ probe ∷ projected_volume_source ∷ quobyte_volume_source
    ∷ rbd_persistent_volume_source ∷ rbd_volume_source ∷ replication_controller
    ∷ replication_controller_condition ∷ replication_controller_list ∷ replication_controller_spec
    ∷ replication_controller_status ∷ resource_field_selector ∷ resource_quota ∷ []
