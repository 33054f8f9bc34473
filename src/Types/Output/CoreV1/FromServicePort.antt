-- ===== src/Types/Output/CoreV1/FromServicePort.antt =====
-- The interfaces of `core.v1` in pack/nodejs/types/output.ts from ServicePort to WeightedPodAffinityTerm.
use pulumi_kubernetes.Common.{List, [], ◌∷◌}
use pulumi_kubernetes.Types.Shape.{
  Interface, interface, readonly, text, number, boolean, number_or_text, list, dict, ref,
}

abbrev pub service_port : Interface
service_port = interface "ServicePort" (
    readonly "name" text
    ∷ readonly "nodePort" number
    ∷ readonly "port" number
    ∷ readonly "protocol" text
    ∷ readonly "targetPort" number_or_text
    ∷ [])

abbrev pub service_spec : Interface
service_spec = interface "ServiceSpec" (
    readonly "clusterIP" text
    ∷ readonly "externalIPs" (list text)
    ∷ readonly "externalName" text
    ∷ readonly "externalTrafficPolicy" text
    ∷ readonly "healthCheckNodePort" number
    ∷ readonly "loadBalancerIP" text
    ∷ readonly "loadBalancerSourceRanges" (list text)
    ∷ readonly "ports" (list (ref "core.v1" "ServicePort"))
    ∷ readonly "publishNotReadyAddresses" boolean
    ∷ readonly "selector" (dict text)
    ∷ readonly "sessionAffinity" text
    ∷ readonly "sessionAffinityConfig" (ref "core.v1" "SessionAffinityConfig")
    ∷ readonly "type" text
    ∷ [])

abbrev pub service_status : Interface
service_status =
    interface "ServiceStatus" (readonly "loadBalancer" (ref "core.v1" "LoadBalancerStatus") ∷ [])

abbrev pub session_affinity_config : Interface
session_affinity_config =
    interface "SessionAffinityConfig" (readonly "clientIP" (ref "core.v1" "ClientIPConfig") ∷ [])

abbrev pub storage_os_persistent_volume_source : Interface
storage_os_persistent_volume_source = interface "StorageOSPersistentVolumeSource" (
    readonly "fsType" text
    ∷ readonly "readOnly" boolean
    ∷ readonly "secretRef" (ref "core.v1" "ObjectReference")
    ∷ readonly "volumeName" text
    ∷ readonly "volumeNamespace" text
    ∷ [])

abbrev pub storage_os_volume_source : Interface
storage_os_volume_source = interface "StorageOSVolumeSource" (
    readonly "fsType" text
    ∷ readonly "readOnly" boolean
    ∷ readonly "secretRef" (ref "core.v1" "LocalObjectReference")
    ∷ readonly "volumeName" text
    ∷ readonly "volumeNamespace" text
    ∷ [])

abbrev pub tcp_socket_action : Interface
tcp_socket_action =
    interface "TCPSocketAction" (readonly "host" text ∷ readonly "port" number_or_text ∷ [])

abbrev pub taint : Interface
taint = interface "Taint" (
    readonly "effect" text
    ∷ readonly "key" text
    ∷ readonly "timeAdded" text
    ∷ readonly "value" text
    ∷ [])

abbrev pub toleration : Interface
toleration = interface "Toleration" (
    readonly "effect" text
    ∷ readonly "key" text
    ∷ readonly "operator" text
    ∷ readonly "tolerationSeconds" number
    ∷ readonly "value" text
    ∷ [])

abbrev pub volume : Interface
volume = interface "Volume" (
    readonly "awsElasticBlockStore" (ref "core.v1" "AWSElasticBlockStoreVolumeSource")
    ∷ readonly "azureDisk" (ref "core.v1" "AzureDiskVolumeSource")
    ∷ readonly "azureFile" (ref "core.v1" "AzureFileVolumeSource")
    ∷ readonly "cephfs" (ref "core.v1" "CephFSVolumeSource")
    ∷ readonly "cinder" (ref "core.v1" "CinderVolumeSource")
    ∷ readonly "configMap" (ref "core.v1" "ConfigMapVolumeSource")
    ∷ readonly "downwardAPI" (ref "core.v1" "DownwardAPIVolumeSource")
    ∷ readonly "emptyDir" (ref "core.v1" "EmptyDirVolumeSource")
    ∷ readonly "fc" (ref "core.v1" "FCVolumeSource")
    ∷ readonly "flexVolume" (ref "core.v1" "FlexVolumeSource")
    ∷ readonly "flocker" (ref "core.v1" "FlockerVolumeSource")
    ∷ readonly "gcePersistentDisk" (ref "core.v1" "GCEPersistentDiskVolumeSource")
    ∷ readonly "gitRepo" (ref "core.v1" "GitRepoVolumeSource")
    ∷ readonly "glusterfs" (ref "core.v1" "GlusterfsVolumeSource")
    ∷ readonly "hostPath" (ref "core.v1" "HostPathVolumeSource")
    ∷ readonly "iscsi" (ref "core.v1" "ISCSIVolumeSource")
    ∷ readonly "name" text
    ∷ readonly "nfs" (ref "core.v1" "NFSVolumeSource")
    ∷ readonly "persistentVolumeClaim" (ref "core.v1" "PersistentVolumeClaimVolumeSource")
    ∷ readonly "photonPersistentDisk" (ref "core.v1" "PhotonPersistentDiskVolumeSource")
    ∷ readonly "portworxVolume" (ref "core.v1" "PortworxVolumeSource")
    ∷ readonly "projected" (ref "core.v1" "ProjectedVolumeSource")
    ∷ readonly "quobyte" (ref "core.v1" "QuobyteVolumeSource")
    ∷ readonly "rbd" (ref "core.v1" "RBDVolumeSource")
    ∷ readonly "scaleIO" (ref "core.v1" "ScaleIOVolumeSource")
    ∷ readonly "secret" (ref "core.v1" "SecretVolumeSource")
    ∷ readonly "storageos" (ref "core.v1" "StorageOSVolumeSource")
    ∷ readonly "vsphereVolume" (ref "core.v1" "VsphereVirtualDiskVolumeSource")
    ∷ [])

abbrev pub volume_device : Interface
volume_device = interface "VolumeDevice" (readonly "devicePath" text ∷ readonly "name" text ∷ [])

abbrev pub volume_mount : Interface
volume_mount = interface "VolumeMount" (
    readonly "mountPath" text
    ∷ readonly "mountPropagation" text
    ∷ readonly "name" text
    ∷ readonly "readOnly" boolean
    ∷ readonly "subPath" text
    ∷ [])

abbrev pub volume_projection : Interface
volume_projection = interface "VolumeProjection" (
    readonly "configMap" (ref "core.v1" "ConfigMapProjection")
    ∷ readonly "downwardAPI" (ref "core.v1" "DownwardAPIProjection")
    ∷ readonly "secret" (ref "core.v1" "SecretProjection")
    ∷ [])

abbrev pub vsphere_virtual_disk_volume_source : Interface
vsphere_virtual_disk_volume_source = interface "VsphereVirtualDiskVolumeSource" (
    readonly "fsType" text
    ∷ readonly "storagePolicyID" text
    ∷ readonly "storagePolicyName" text
    ∷ readonly "volumePath" text
    ∷ [])

abbrev pub weighted_pod_affinity_term : Interface
weighted_pod_affinity_term =
    interface "WeightedPodAffinityTerm"
      (readonly "podAffinityTerm" (ref "core.v1" "PodAffinityTerm") ∷ readonly "weight" number ∷ [])

abbrev pub interfaces : List Interface
interfaces =
    service_port ∷ service_spec ∷ service_status ∷ session_affinity_config
    ∷ storage_os_persistent_volume_source ∷ storage_os_volume_source ∷ tcp_socket_action ∷ taint
    ∷ toleration ∷ volume ∷ volume_device ∷ volume_mount ∷ volume_projection
    ∷ vsphere_virtual_disk_volume_source ∷ weighted_pod_affinity_term ∷ []
