-- ===== src/Types/Input/CoreV1/FromPersistentVolumeClaimVolumeSource.antt =====
-- The interfaces of `core.v1` in pack/nodejs/types/input.ts from PersistentVolumeClaimVolumeSource to PodSpec.
use pulumi_kubernetes.Common.{List, [], ◌∷◌}
use pulumi_kubernetes.Types.Shape.{
  Interface, guarded, interface, required, optional, text, number, boolean, any_object, list, dict,
  ref, input,
}

abbrev pub persistent_volume_claim_volume_source : Interface
persistent_volume_claim_volume_source =
    interface "PersistentVolumeClaimVolumeSource"
      (required "claimName" text ∷ optional "readOnly" boolean ∷ [])

abbrev pub persistent_volume_list : Interface
persistent_volume_list = guarded "PersistentVolumeList" "v1" "PersistentVolumeList" (
    required "items" (list (ref "core.v1" "PersistentVolume"))
    ∷ optional "apiVersion" text
    ∷ optional "kind" text
    ∷ optional "metadata" (ref "meta.v1" "ListMeta")
    ∷ [])

abbrev pub persistent_volume_spec : Interface
persistent_volume_spec = interface "PersistentVolumeSpec" (
    optional "accessModes" (list text)
    ∷ optional "awsElasticBlockStore" (ref "core.v1" "AWSElasticBlockStoreVolumeSource")
    ∷ optional "azureDisk" (ref "core.v1" "AzureDiskVolumeSource")
    ∷ optional "azureFile" (ref "core.v1" "AzureFilePersistentVolumeSource")
    ∷ optional "capacity" any_object
    ∷ optional "cephfs" (ref "core.v1" "CephFSPersistentVolumeSource")
    ∷ optional "cinder" (ref "core.v1" "CinderVolumeSource")
    ∷ optional "claimRef" (ref "core.v1" "ObjectReference")
    ∷ optional "csi" (ref "core.v1" "CSIPersistentVolumeSource")
    ∷ optional "fc" (ref "core.v1" "FCVolumeSource")
    ∷ optional "flexVolume" (ref "core.v1" "FlexVolumeSource")
    ∷ optional "flocker" (ref "core.v1" "FlockerVolumeSource")
    ∷ optional "gcePersistentDisk" (ref "core.v1" "GCEPersistentDiskVolumeSource")
    ∷ optional "glusterfs" (ref "core.v1" "GlusterfsVolumeSource")
    ∷ optional "hostPath" (ref "core.v1" "HostPathVolumeSource")
    ∷ optional "iscsi" (ref "core.v1" "ISCSIPersistentVolumeSource")
    ∷ optional "local" (ref "core.v1" "LocalVolumeSource")
    ∷ optional "mountOptions" (list text)
    ∷ optional "nfs" (ref "core.v1" "NFSVolumeSource")
    ∷ optional "persistentVolumeReclaimPolicy" text
    ∷ optional "photonPersistentDisk" (ref "core.v1" "PhotonPersistentDiskVolumeSource")
    ∷ optional "portworxVolume" (ref "core.v1" "PortworxVolumeSource")
    ∷ optional "quobyte" (ref "core.v1" "QuobyteVolumeSource")
    ∷ optional "rbd" (ref "core.v1" "RBDPersistentVolumeSource")
    ∷ optional "scaleIO" (ref "core.v1" "ScaleIOPersistentVolumeSource")
    ∷ optional "storageClassName" text
    ∷ optional "storageos" (ref "core.v1" "StorageOSPersistentVolumeSource")
    ∷ optional "volumeMode" text
    ∷ optional "vsphereVolume" (ref "core.v1" "VsphereVirtualDiskVolumeSource")
    ∷ [])

abbrev pub persistent_volume_status : Interface
persistent_volume_status =
    interface "PersistentVolumeStatus"
      (optional "message" text ∷ optional "phase" text ∷ optional "reason" text ∷ [])

abbrev pub photon_persistent_disk_volume_source : Interface
photon_persistent_disk_volume_source =
    interface "PhotonPersistentDiskVolumeSource"
      (required "pdID" text ∷ optional "fsType" text ∷ [])

abbrev pub pod : Interface
pod = guarded "Pod" "v1" "Pod" (
    optional "apiVersion" text
    ∷ optional "kind" text
    ∷ optional "metadata" (ref "meta.v1" "ObjectMeta")
    ∷ optional "spec" (ref "core.v1" "PodSpec")
    ∷ optional "status" (ref "core.v1" "PodStatus")
    ∷ [])

abbrev pub pod_affinity : Interface
pod_affinity = interface "PodAffinity" (
    optional "preferredDuringSchedulingIgnoredDuringExecution"
      (list (ref "core.v1" "WeightedPodAffinityTerm"))
    ∷ optional "requiredDuringSchedulingIgnoredDuringExecution"
        (list (ref "core.v1" "PodAffinityTerm"))
    ∷ [])

abbrev pub pod_affinity_term : Interface
pod_affinity_term = interface "PodAffinityTerm" (
    required "topologyKey" text
    ∷ optional "labelSelector" (ref "meta.v1" "LabelSelector")
    ∷ optional "namespaces" (list text)
    ∷ [])

abbrev pub pod_anti_affinity : Interface
pod_anti_affinity = interface "PodAntiAffinity" (
    optional "preferredDuringSchedulingIgnoredDuringExecution"
      (list (ref "core.v1" "WeightedPodAffinityTerm"))
    ∷ optional "requiredDuringSchedulingIgnoredDuringExecution"
        (list (ref "core.v1" "PodAffinityTerm"))
    ∷ [])

abbrev pub pod_condition : Interface
pod_condition = interface "PodCondition" (
    required "status" text
    ∷ required "type" text
    ∷ optional "lastProbeTime" text
    ∷ optional "lastTransitionTime" text
    ∷ optional "message" text
    ∷ optional "reason" text
    ∷ [])

abbrev pub pod_dns_config : Interface
pod_dns_config = interface "PodDNSConfig" (
    optional "nameservers" (list text)
    ∷ optional "options" (list (ref "core.v1" "PodDNSConfigOption"))
    ∷ optional "searches" (list text)
    ∷ [])

abbrev pub pod_dns_config_option : Interface
pod_dns_config_option =
    interface "PodDNSConfigOption" (optional "name" text ∷ optional "value" text ∷ [])

abbrev pub pod_list : Interface
pod_list = guarded "PodList" "v1" "PodList" (
    required "items" (list (ref "core.v1" "Pod"))
    ∷ optional "apiVersion" text
    ∷ optional "kind" text
    ∷ optional "metadata" (ref "meta.v1" "ListMeta")
    ∷ [])

abbrev pub pod_security_context : Interface
pod_security_context = interface "PodSecurityContext" (
    optional "fsGroup" number
    ∷ optional "runAsNonRoot" boolean
    ∷ optional "runAsUser" number
    ∷ optional "seLinuxOptions" (ref "core.v1" "SELinuxOptions")
    ∷ optional "supplementalGroups" (list number)
    ∷ [])

abbrev pub pod_spec : Interface
pod_spec = interface "PodSpec" (
    required "containers" (list (ref "core.v1" "Container"))
    ∷ optional "activeDeadlineSeconds" number
    ∷ optional "affinity" (ref "core.v1" "Affinity")
    ∷ optional "automountServiceAccountToken" boolean
    ∷ optional "dnsConfig" (ref "core.v1" "PodDNSConfig")
    ∷ optional "dnsPolicy" text
    ∷ optional "hostAliases" (list (ref "core.v1" "HostAlias"))
    ∷ optional "hostIPC" boolean
    ∷ optional "hostNetwork" boolean
    ∷ optional "hostPID" boolean
    ∷ optional "hostname" text
    ∷ optional "imagePullSecrets" (list (ref "core.v1" "LocalObjectReference"))
    ∷ optional "initContainers" (list (ref "core.v1" "Container"))
    ∷ optional "nodeName" text
    ∷ optional "nodeSelector" (dict (input text))
    ∷ optional "priority" number
    ∷ optional "priorityClassName" text
    ∷ optional "restartPolicy" text
    ∷ optional "schedulerName" text
    ∷ optional "securityContext" (ref "core.v1" "PodSecurityContext")
    ∷ optional "serviceAccount" text
    ∷ optional "serviceAccountName" text
    ∷ optional "subdomain" text
    ∷ optional "terminationGracePeriodSeconds" number
    ∷ optional "tolerations" (list (ref "core.v1" "Toleration"))
    ∷ optional "volumes" (list (ref "core.v1" "Volume"))
    ∷ [])

abbrev pub interfaces : List Interface
interfaces =
    persistent_volume_claim_volume_source ∷ persistent_volume_list ∷ persistent_volume_spec
    ∷ persistent_volume_status ∷ photon_persistent_disk_volume_source ∷ pod ∷ pod_affinity
    ∷ pod_affinity_term ∷ pod_anti_affinity ∷ pod_condition ∷ pod_dns_config ∷ pod_dns_config_option
    ∷ pod_list ∷ pod_security_context ∷ pod_spec ∷ []
