-- ===== src/Types/Output/CoreV1/FromAwsElasticBlockStoreVolumeSource.antt =====
-- The interfaces of `core.v1` in pack/nodejs/types/output.ts from AWSElasticBlockStoreVolumeSource to ConfigMapProjection.
use pulumi_kubernetes.Common.{List, [], ◌∷◌}
use pulumi_kubernetes.Types.Shape.{
  Interface, interface, readonly, text, number, boolean, list, dict, ref,
}

abbrev pub aws_elastic_block_store_volume_source : Interface
aws_elastic_block_store_volume_source = interface "AWSElasticBlockStoreVolumeSource" (
    readonly "fsType" text
    ∷ readonly "partition" number
    ∷ readonly "readOnly" boolean
    ∷ readonly "volumeID" text
    ∷ [])

abbrev pub affinity : Interface
affinity = interface "Affinity" (
    readonly "nodeAffinity" (ref "core.v1" "NodeAffinity")
    ∷ readonly "podAffinity" (ref "core.v1" "PodAffinity")
    ∷ readonly "podAntiAffinity" (ref "core.v1" "PodAntiAffinity")
    ∷ [])

abbrev pub attached_volume : Interface
attached_volume =
    interface "AttachedVolume" (readonly "devicePath" text ∷ readonly "name" text ∷ [])

abbrev pub azure_disk_volume_source : Interface
azure_disk_volume_source = interface "AzureDiskVolumeSource" (
    readonly "cachingMode" text
    ∷ readonly "diskName" text
    ∷ readonly "diskURI" text
    ∷ readonly "fsType" text
    ∷ readonly "kind" text
    ∷ readonly "readOnly" boolean
    ∷ [])

abbrev pub azure_file_persistent_volume_source : Interface
azure_file_persistent_volume_source = interface "AzureFilePersistentVolumeSource" (
    readonly "readOnly" boolean
    ∷ readonly "secretName" text
    ∷ readonly "secretNamespace" text
    ∷ readonly "shareName" text
    ∷ [])

abbrev pub azure_file_volume_source : Interface
azure_file_volume_source =
    interface "AzureFileVolumeSource"
      (readonly "readOnly" boolean ∷ readonly "secretName" text ∷ readonly "shareName" text ∷ [])

abbrev pub binding : Interface
binding = interface "Binding" (
    readonly "apiVersion" text
    ∷ readonly "kind" text
    ∷ readonly "metadata" (ref "meta.v1" "ObjectMeta")
    ∷ readonly "target" (ref "core.v1" "ObjectReference")
    ∷ [])

abbrev pub csi_persistent_volume_source : Interface
csi_persistent_volume_source =
    interface "CSIPersistentVolumeSource"
      (readonly "driver" text ∷ readonly "readOnly" boolean ∷ readonly "volumeHandle" text ∷ [])

abbrev pub capabilities : Interface
capabilities =
    interface "Capabilities" (readonly "add" (list text) ∷ readonly "drop" (list text) ∷ [])

abbrev pub ceph_fs_persistent_volume_source : Interface
ceph_fs_persistent_volume_source = interface "CephFSPersistentVolumeSource" (
    readonly "monitors" (list text)
    ∷ readonly "path" text
    ∷ readonly "readOnly" boolean
    ∷ readonly "secretFile" text
    ∷ readonly "secretRef" (ref "core.v1" "SecretReference")
    ∷ readonly "user" text
    ∷ [])

abbrev pub ceph_fs_volume_source : Interface
ceph_fs_volume_source = interface "CephFSVolumeSource" (
    readonly "monitors" (list text)
    ∷ readonly "path" text
    ∷ readonly "readOnly" boolean
    ∷ readonly "secretFile" text
    ∷ readonly "secretRef" (ref "core.v1" "LocalObjectReference")
    ∷ readonly "user" text
    ∷ [])

abbrev pub cinder_volume_source : Interface
cinder_volume_source =
    interface "CinderVolumeSource"
      (readonly "fsType" text ∷ readonly "readOnly" boolean ∷ readonly "volumeID" text ∷ [])

abbrev pub client_ip_config : Interface
client_ip_config = interface "ClientIPConfig" (readonly "timeoutSeconds" number ∷ [])

abbrev pub component_condition : Interface
component_condition = interface "ComponentCondition" (
    readonly "error" text
    ∷ readonly "message" text
    ∷ readonly "status" text
    ∷ readonly "type" text
    ∷ [])

abbrev pub component_status : Interface
component_status = interface "ComponentStatus" (
    readonly "apiVersion" text
    ∷ readonly "conditions" (list (ref "core.v1" "ComponentCondition"))
    ∷ readonly "kind" text
    ∷ readonly "metadata" (ref "meta.v1" "ObjectMeta")
    ∷ [])

abbrev pub component_status_list : Interface
component_status_list = interface "ComponentStatusList" (
    readonly "apiVersion" text
    ∷ readonly "items" (list (ref "core.v1" "ComponentStatus"))
    ∷ readonly "kind" text
    ∷ readonly "metadata" (ref "meta.v1" "ListMeta")
    ∷ [])

abbrev pub config_map : Interface
config_map = interface "ConfigMap" (
    readonly "apiVersion" text
    ∷ readonly "data" (dict text)
    ∷ readonly "kind" text
    ∷ readonly "metadata" (ref "meta.v1" "ObjectMeta")
    ∷ [])

abbrev pub config_map_env_source : Interface
config_map_env_source =
    interface "ConfigMapEnvSource" (readonly "name" text ∷ readonly "optional" boolean ∷ [])

abbrev pub config_map_key_selector : Interface
config_map_key_selector =
    interface "ConfigMapKeySelector"
      (readonly "key" text ∷ readonly "name" text ∷ readonly "optional" boolean ∷ [])

abbrev pub config_map_list : Interface
config_map_list = interface "ConfigMapList" (
    readonly "apiVersion" text
    ∷ readonly "items" (list (ref "core.v1" "ConfigMap"))
    ∷ readonly "kind" text
    ∷ readonly "metadata" (ref "meta.v1" "ListMeta")
    ∷ [])

abbrev pub config_map_projection : Interface
config_map_projection = interface "ConfigMapProjection" (
    readonly "items" (list (ref "core.v1" "KeyToPath"))
    ∷ readonly "name" text
    ∷ readonly "optional" boolean
    ∷ [])

abbrev pub interfaces : List Interface
interfaces =
    aws_elastic_block_store_volume_source ∷ affinity ∷ attached_volume ∷ azure_disk_volume_source
    ∷ azure_file_persistent_volume_source ∷ azure_file_volume_source ∷ binding
    ∷ csi_persistent_volume_source ∷ capabilities ∷ ceph_fs_persistent_volume_source
    ∷ ceph_fs_volume_source ∷ cinder_volume_source ∷ client_ip_config ∷ component_condition
    ∷ component_status ∷ component_status_list ∷ config_map ∷ config_map_env_source
    ∷ config_map_key_selector ∷ config_map_list ∷ config_map_projection ∷ []
