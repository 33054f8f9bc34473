-- ===== src/Types/Output/CoreV1/FromPersistentVolumeClaimVolumeSource.antt =====
-- The interfaces of `core.v1` in pack/nodejs/types/output.ts from PersistentVolumeClaimVolumeSource to PodSpec.
use pulumi_kubernetes.Common.{List, [], ◌∷◌}
use pulumi_kubernetes.Types.Shape.{
  Interface, interface, readonly, text, number, boolean, any_object, list, dict, ref,
}

abbrev pub persistent_volume_claim_volume_source : Interface
persistent_volume_claim_volume_source =
    interface "PersistentVolumeClaimVolumeSource"
      (readonly "claimName" text ∷ readonly "readOnly" boolean ∷ [])

abbrev pub persistent_volume_list : Interface
persistent_volume_list = interface "PersistentVolumeList" (
    readonly "apiVersion" text
    ∷ readonly "items" (list (ref "core.v1" "PersistentVolume"))
    ∷ readonly "kind" text
    ∷ readonly "metadata" (ref "meta.v1" "ListMeta")
    ∷ [])

abbrev pub persistent_volume_spec : Interface
persistent_volume_spec = interface "PersistentVolumeSpec" (
    readonly "accessModes" (list text)
    ∷ readonly "awsElasticBlockStore" (ref "core.v1" "AWSElasticBlockStoreVolumeSource")
    ∷ readonly "azureDisk" (ref "core.v1" "AzureDiskVolumeSource")
    ∷ readonly "azureFile" (ref "core.v1" "AzureFilePersistentVolumeSource")
    ∷ readonly "capacity" any_object
    ∷ readonly "cephfs" (ref "core.v1" "CephFSPersistentVolumeSource")
    ∷ readonly "cinder" (ref "core.v1" "CinderVolumeSource")
    ∷ readonly "claimRef" (ref "core.v1" "ObjectReference")
    ∷ readonly "csi" (ref "core.v1" "CSIPersistentVolumeSource")
    ∷ readonly "fc" (ref "core.v1" "FCVolumeSource")
    ∷ readonly "flexVolume" (ref "core.v1" "FlexVolumeSource")
    ∷ readonly "flocker" (ref "core.v1" "FlockerVolumeSource")
    ∷ readonly "gcePersistentDisk" (ref "core.v1" "GCEPersistentDiskVolumeSource")
    ∷ readonly "glusterfs" (ref "core.v1" "GlusterfsVolumeSource")
    ∷ readonly "hostPath" (ref "core.v1" "HostPathVolumeSource")
    ∷ readonly "iscsi" (ref "core.v1" "ISCSIPersistentVolumeSource")
    ∷ readonly "local" (ref "core.v1" "LocalVolumeSource")
    ∷ readonly "mountOptions" (list text)
    ∷ readonly "nfs" (ref "core.v1" "NFSVolumeSource")
    ∷ readonly "persistentVolumeReclaimPolicy" text
    ∷ readonly "photonPersistentDisk" (ref "core.v1" "PhotonPersistentDiskVolumeSource")
    ∷ readonly "portworxVolume" (ref "core.v1" "PortworxVolumeSource")
    ∷ readonly "quobyte" (ref "core.v1" "QuobyteVolumeSource")
    ∷ readonly "rbd" (ref "core.v1" "RBDPersistentVolumeSource")
    ∷ readonly "scaleIO" (ref "core.v1" "ScaleIOPersistentVolumeSource")
    ∷ readonly "storageClassName" text
    ∷ readonly "storageos" (ref "core.v1" "StorageOSPersistentVolumeSource")
    ∷ readonly "volumeMode" text
    ∷ readonly "vsphereVolume" (ref "core.v1" "VsphereVirtualDiskVolumeSource")
    ∷ [])

abbrev pub persistent_volume_status : Interface
persistent_volume_status =
    interface "PersistentVolumeStatus"
      (readonly "message" text ∷ readonly "phase" text ∷ readonly "reason" text ∷ [])

abbrev pub photon_persistent_disk_volume_source : Interface
photon_persistent_disk_volume_source =
    interface "PhotonPersistentDiskVolumeSource"
      (readonly "fsType" text ∷ readonly "pdID" text ∷ [])

abbrev pub pod : Interface
pod = interface "Pod" (
    readonly "apiVersion" text
    ∷ readonly "kind" text
    ∷ readonly "metadata" (ref "meta.v1" "ObjectMeta")
    ∷ readonly "spec" (ref "core.v1" "PodSpec")
    ∷ readonly "status" (ref "core.v1" "PodStatus")
    ∷ [])

abbrev pub pod_affinity : Interface
pod_affinity = interface "PodAffinity" (
    readonly "preferredDuringSchedulingIgnoredDuringExecution"
      (list (ref "core.v1" "WeightedPodAffinityTerm"))
    ∷ readonly "requiredDuringSchedulingIgnoredDuringExecution"
        (list (ref "core.v1" "PodAffinityTerm"))
    ∷ [])

abbrev pub pod_affinity_term : Interface
pod_affinity_term = interface "PodAffinityTerm" (
    readonly "labelSelector" (ref "meta.v1" "LabelSelector")
    ∷ readonly "namespaces" (list text)
    ∷ readonly "topologyKey" text
    ∷ [])

abbrev pub pod_anti_affinity : Interface
pod_anti_affinity = interface "PodAntiAffinity" (
    readonly "preferredDuringSchedulingIgnoredDuringExecution"
      (list (ref "core.v1" "WeightedPodAffinityTerm"))
    ∷ readonly "requiredDuringSchedulingIgnoredDuringExecution"
        (list (ref "core.v1" "PodAffinityTerm"))
    ∷ [])

abbrev pub pod_condition : Interface
pod_condition = interface "PodCondition" (
    readonly "lastProbeTime" text
    ∷ readonly "lastTransitionTime" text
    ∷ readonly "message" text
    ∷ readonly "reason" text
    ∷ readonly "status" text
    ∷ readonly "type" text
    ∷ [])

abbrev pub pod_dns_config : Interface
pod_dns_config = interface "PodDNSConfig" (
    readonly "nameservers" (list text)
    ∷ readonly "options" (list (ref "core.v1" "PodDNSConfigOption"))
    ∷ readonly "searches" (list text)
    ∷ [])

abbrev pub pod_dns_config_option : Interface
pod_dns_config_option =
    interface "PodDNSConfigOption" (readonly "name" text ∷ readonly "value" text ∷ [])

abbrev pub pod_list : Interface
pod_list = interface "PodList" (
    readonly "apiVersion" text
    ∷ readonly "items" (list (ref "core.v1" "Pod"))
    ∷ readonly "kind" text
    ∷ readonly "metadata" (ref "meta.v1" "ListMeta")
    ∷ [])

abbrev pub pod_security_context : Interface
pod_security_context = interface "PodSecurityContext" (
    readonly "fsGroup" number
    ∷ readonly "runAsNonRoot" boolean
    ∷ readonly "runAsUser" number
    ∷ readonly "seLinuxOptions" (ref "core.v1" "SELinuxOptions")
    ∷ readonly "supplementalGroups" (list number)
    ∷ [])

abbrev pub pod_spec : Interface
pod_spec = interface "PodSpec" (
    readonly "activeDeadlineSeconds" number
    ∷ readonly "affinity" (ref "core.v1" "Affinity")
    ∷ readonly "automountServiceAccountToken" boolean
    ∷ readonly "containers" (list (ref "core.v1" "Container"))
    ∷ readonly "dnsConfig" (ref "core.v1" "PodDNSConfig")
    ∷ readonly "dnsPolicy" text
    ∷ readonly "hostAliases" (list (ref "core.v1" "HostAlias"))
    ∷ readonly "hostIPC" boolean
    ∷ readonly "hostNetwork" boolean
    ∷ readonly "hostPID" boolean
    ∷ readonly "hostname" text
    ∷ readonly "imagePullSecrets" (list (ref "core.v1" "LocalObjectReference"))
    ∷ readonly "initContainers" (list (ref "core.v1" "Container"))
    ∷ readonly "nodeName" text
    ∷ readonly "nodeSelector" (dict text)
    ∷ readonly "priority" number
    ∷ readonly "priorityClassName" text
    ∷ readonly "restartPolicy" text
    ∷ readonly "schedulerName" text
    ∷ readonly "securityContext" (ref "core.v1" "PodSecurityContext")
    ∷ readonly "serviceAccount" text
    ∷ readonly "serviceAccountName" text
    ∷ readonly "subdomain" text
    ∷ readonly "terminationGracePeriodSeconds" number
    ∷ readonly "tolerations" (list (ref "core.v1" "Toleration"))
    ∷ readonly "volumes" (list (ref "core.v1" "Volume"))
    ∷ [])

abbrev pub interfaces : List Interface
interfaces =
    persistent_volume_claim_volume_source ∷ persistent_volume_list ∷ persistent_volume_spec
    ∷ persistent_volume_status ∷ photon_persistent_disk_volume_source ∷ pod ∷ pod_affinity
    ∷ pod_affinity_term ∷ pod_anti_affinity ∷ pod_condition ∷ pod_dns_config ∷ pod_dns_config_option
    ∷ pod_list ∷ pod_security_context ∷ pod_spec ∷ []
