-- ===== src/Types/Input/CoreV1/FromServicePort.antt =====
-- The interfaces of `core.v1` in pack/nodejs/types/input.ts from ServicePort to WeightedPodAffinityTerm.
use pulumi_kubernetes.Common.{List, [], ◌∷◌}
use pulumi_kubernetes.Types.Shape.{
  Interface, interface, required, optional, text, number, boolean, number_or_text, list, dict, ref,
  input,
}

abbrev pub service_port : Interface
service_port = interface "ServicePort" (
    required "port" number
    ∷ optional "name" text
    ∷ optional "nodePort" number
    ∷ optional "protocol" text
    ∷ optional "targetPort" number_or_text
    ∷ [])

abbrev pub service_spec : Interface
service_spec = interface "ServiceSpec" (
    optional "clusterIP" text
    ∷ optional "externalIPs" (list text)
    ∷ optional "externalName" text
    ∷ optional "externalTrafficPolicy" text
    ∷ optional "healthCheckNodePort" number
    ∷ optional "loadBalancerIP" text
    ∷ optional "loadBalancerSourceRanges" (list text)
    ∷ optional "ports" (list (ref "core.v1" "ServicePort"))
    ∷ optional "publishNotReadyAddresses" boolean
    ∷ optional "selector" (dict (input text))
    ∷ optional "sessionAffinity" text
    ∷ optional "sessionAffinityConfig" (ref "core.v1" "SessionAffinityConfig")
    ∷ optional "type" text
    ∷ [])

abbrev pub service_status : Interface
service_status =
    interface "ServiceStatus" (optional "loadBalancer" (ref "core.v1" "LoadBalancerStatus") ∷ [])

abbrev pub session_affinity_config : Interface
session_affinity_config =
    interface "SessionAffinityConfig" (optional "clientIP" (ref "core.v1" "ClientIPConfig") ∷ [])

abbrev pub storage_os_persistent_volume_source : Interface
storage_os_persistent_volume_source = interface "StorageOSPersistentVolumeSource" (
    optional "fsType" text
    ∷ optional "readOnly" boolean
    ∷ optional "secretRef" (ref "core.v1" "ObjectReference")
    ∷ optional "volumeName" text
    ∷ optional "volumeNamespace" text
    ∷ [])

abbrev pub storage_os_volume_source : Interface
storage_os_volume_source = interface "StorageOSVolumeSource" (
    optional "fsType" text
    ∷ optional "readOnly" boolean
    ∷ optional "secretRef" (ref "core.v1" "LocalObjectReference")
    ∷ optional "volumeName" text
    ∷ optional "volumeNamespace" text
    ∷ [])

abbrev pub tcp_socket_action : Interface
tcp_socket_action =
    interface "TCPSocketAction" (required "port" number_or_text ∷ optional "host" text ∷ [])

abbrev pub taint : Interface
taint = interface "Taint" (
    required "effect" text
    ∷ required "key" text
    ∷ optional "timeAdded" text
    ∷ optional "value" text
    ∷ [])

abbrev pub toleration : Interface
toleration = interface "Toleration" (
    optional "effect" text
    ∷ optional "key" text
    ∷ optional "operator" text
    ∷ optional "tolerationSeconds" number
    ∷ optional "value" text
    ∷ [])

abbrev pub volume : Interface
volume = interface "Volume" (
    required "name" text
    ∷ optional "awsElasticBlockStore" (ref "core.v1" "AWSElasticBlockStoreVolumeSource")
    ∷ optional "azureDisk" (ref "core.v1" "AzureDiskVolumeSource")
    ∷ optional "azureFile" (ref "core.v1" "AzureFileVolumeSource")
    ∷ optional "cephfs" (ref "core.v1" "CephFSVolumeSource")
    ∷ optional "cinder" (ref "core.v1" "CinderVolumeSource")
    ∷ optional "configMap" (ref "core.v1" "ConfigMapVolumeSource")
    ∷ optional "downwardAPI" (ref "core.v1" "DownwardAPIVolumeSource")
    ∷ optional "emptyDir" (ref "core.v1" "EmptyDirVolumeSource")
    ∷ optional "fc" (ref "core.v1" "FCVolumeSource")
    ∷ optional "flexVolume" (ref "core.v1" "FlexVolumeSource")
    ∷ optional "flocker" (ref "core.v1" "FlockerVolumeSource")
    ∷ optional "gcePersistentDisk" (ref "core.v1" "GCEPersistentDiskVolumeSource")
    ∷ optional "gitRepo" (ref "core.v1" "GitRepoVolumeSource")
    ∷ optional "glusterfs" (ref "core.v1" "GlusterfsVolumeSource")
    ∷ optional "hostPath" (ref "core.v1" "HostPathVolumeSource")
    ∷ optional "iscsi" (ref "core.v1" "ISCSIVolumeSource")
    ∷ optional "nfs" (ref "core.v1" "NFSVolumeSource")
    ∷ optional "persistentVolumeClaim" (ref "core.v1" "PersistentVolumeClaimVolumeSource")
    ∷ optional "photonPersistentDisk" (ref "core.v1" "PhotonPersistentDiskVolumeSource")
    ∷ optional "portworxVolume" (ref "core.v1" "PortworxVolumeSource")
    ∷ optional "projected" (ref "core.v1" "ProjectedVolumeSource")
    ∷ optional "quobyte" (ref "core.v1" "QuobyteVolumeSource")
    ∷ optional "rbd" (ref "core.v1" "RBDVolumeSource")
    ∷ optional "scaleIO" (ref "core.v1" "ScaleIOVolumeSource")
    ∷ optional "secret" (ref "core.v1" "SecretVolumeSource")
    ∷ optional "storageos" (ref "core.v1" "StorageOSVolumeSource")
    ∷ optional "vsphereVolume" (ref "core.v1" "VsphereVirtualDiskVolumeSource")
    ∷ [])

abbrev pub volume_device : Interface
volume_device = interface "VolumeDevice" (required "devicePath" text ∷ required "name" text ∷ [])

abbrev pub volume_mount : Interface
volume_mount = interface "VolumeMount" (
    required "mountPath" text
    ∷ required "name" text
    ∷ optional "mountPropagation" text
    ∷ optional "readOnly" boolean
    ∷ optional "subPath" text
    ∷ [])

abbrev pub volume_projection : Interface
volume_projection = interface "VolumeProjection" (
    optional "configMap" (ref "core.v1" "ConfigMapProjection")
    ∷ optional "downwardAPI" (ref "core.v1" "DownwardAPIProjection")
    ∷ optional "secret" (ref "core.v1" "SecretProjection")
    ∷ [])

abbrev pub vsphere_virtual_disk_volume_source : Interface
vsphere_virtual_disk_volume_source = interface "VsphereVirtualDiskVolumeSource" (
    required "volumePath" text
    ∷ optional "fsType" text
    ∷ optional "storagePolicyID" text
    ∷ optional "storagePolicyName" text
    ∷ [])

abbrev pub weighted_pod_affinity_term : Interface
weighted_pod_affinity_term =
    interface "WeightedPodAffinityTerm"
      (required "podAffinityTerm" (ref "core.v1" "PodAffinityTerm") ∷ required "weight" number ∷ [])

abbrev pub interfaces : List Interface
interfaces =
    service_port ∷ service_spec ∷ service_status ∷ session_affinity_config
    ∷ storage_os_persistent_volume_source ∷ storage_os_volume_source ∷ tcp_socket_action ∷ taint
    ∷ toleration ∷ volume ∷ volume_device ∷ volume_mount ∷ volume_projection
    ∷ vsphere_virtual_disk_volume_source ∷ weighted_pod_affinity_term ∷ []
