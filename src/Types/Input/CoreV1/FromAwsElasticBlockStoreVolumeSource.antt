-- ===== src/Types/Input/CoreV1/FromAwsElasticBlockStoreVolumeSource.antt =====
-- The interfaces of `core.v1` in pack/nodejs/types/input.ts from AWSElasticBlockStoreVolumeSource to ConfigMapProjection.
use pulumi_kubernetes.Common.{List, [], ◌∷◌}
use pulumi_kubernetes.Types.Shape.{
  Interface, guarded, interface, required, optional, text, number, boolean, list, dict, ref, input,
}

abbrev pub aws_elastic_block_store_volume_source : Interface
aws_elastic_block_store_volume_source = interface "AWSElasticBlockStoreVolumeSource" (
    required "volumeID" text
    ∷ optional "fsType" text
    ∷ optional "partition" number
    ∷ optional "readOnly" boolean
    ∷ [])

abbrev pub affinity : Interface
affinity = interface "Affinity" (
    optional "nodeAffinity" (ref "core.v1" "NodeAffinity")
    ∷ optional "podAffinity" (ref "core.v1" "PodAffinity")
    ∷ optional "podAntiAffinity" (ref "core.v1" "PodAntiAffinity")
    ∷ [])

abbrev pub attached_volume : Interface
attached_volume =
    interface "AttachedVolume" (required "devicePath" text ∷ required "name" text ∷ [])

abbrev pub azure_disk_volume_source : Interface
azure_disk_volume_source = interface "AzureDiskVolumeSource" (
    required "diskName" text
    ∷ required "diskURI" text
    ∷ optional "cachingMode" text
    ∷ optional "fsType" text
    ∷ optional "kind" text
    ∷ optional "readOnly" boolean
    ∷ [])

abbrev pub azure_file_persistent_volume_source : Interface
azure_file_persistent_volume_source = interface "AzureFilePersistentVolumeSource" (
    required "secretName" text
    ∷ required "shareName" text
    ∷ optional "readOnly" boolean
    ∷ optional "secretNamespace" text
    ∷ [])

abbrev pub azure_file_volume_source : Interface
azure_file_volume_source =
    interface "AzureFileVolumeSource"
      (required "secretName" text ∷ required "shareName" text ∷ optional "readOnly" boolean ∷ [])

abbrev pub binding : Interface
binding = guarded "Binding" "v1" "Binding" (
    required "target" (ref "core.v1" "ObjectReference")
    ∷ optional "apiVersion" text
    ∷ optional "kind" text
    ∷ optional "metadata" (ref "meta.v1" "ObjectMeta")
    ∷ [])

abbrev pub csi_persistent_volume_source : Interface
csi_persistent_volume_source =
    interface "CSIPersistentVolumeSource"
      (required "driver" text ∷ required "volumeHandle" text ∷ optional "readOnly" boolean ∷ [])

abbrev pub capabilities : Interface
capabilities =
    interface "Capabilities" (optional "add" (list text) ∷ optional "drop" (list text) ∷ [])

abbrev pub ceph_fs_persistent_volume_source : Interface
ceph_fs_persistent_volume_source = interface "CephFSPersistentVolumeSource" (
    required "monitors" (list text)
    ∷ optional "path" text
    ∷ optional "readOnly" boolean
    ∷ optional "secretFile" text
    ∷ optional "secretRef" (ref "core.v1" "SecretReference")
    ∷ optional "user" text
    ∷ [])

abbrev pub ceph_fs_volume_source : Interface
ceph_fs_volume_source = interface "CephFSVolumeSource" (
    required "monitors" (list text)
    ∷ optional "path" text
    ∷ optional "readOnly" boolean
    ∷ optional "secretFile" text
    ∷ optional "secretRef" (ref "core.v1" "LocalObjectReference")
    ∷ optional "user" text
    ∷ [])

abbrev pub cinder_volume_source : Interface
cinder_volume_source =
    interface "CinderVolumeSource"
      (required "volumeID" text ∷ optional "fsType" text ∷ optional "readOnly" boolean ∷ [])

abbrev pub client_ip_config : Interface
client_ip_config = interface "ClientIPConfig" (optional "timeoutSeconds" number ∷ [])

abbrev pub component_condition : Interface
component_condition = interface "ComponentCondition" (
    required "status" text
    ∷ required "type" text
    ∷ optional "error" text
    ∷ optional "message" text
    ∷ [])

abbrev pub component_status : Interface
component_status = guarded "ComponentStatus" "v1" "ComponentStatus" (
    optional "apiVersion" text
    ∷ optional "conditions" (list (ref "core.v1" "ComponentCondition"))
    ∷ optional "kind" text
    ∷ optional "metadata" (ref "meta.v1" "ObjectMeta")
    ∷ [])

abbrev pub component_status_list : Interface
component_status_list = guarded "ComponentStatusList" "v1" "ComponentStatusList" (
    required "items" (list (ref "core.v1" "ComponentStatus"))
    ∷ optional "apiVersion" text
    ∷ optional "kind" text
    ∷ optional "metadata" (ref "meta.v1" "ListMeta")
    ∷ [])

abbrev pub config_map : Interface
config_map = guarded "ConfigMap" "v1" "ConfigMap" (
    optional "apiVersion" text
    ∷ optional "data" (dict (input text))
    ∷ optional "kind" text
    ∷ optional "metadata" (ref "meta.v1" "ObjectMeta")
    ∷ [])

abbrev pub config_map_env_source : Interface
config_map_env_source =
    interface "ConfigMapEnvSource" (optional "name" text ∷ optional "optional" boolean ∷ [])

abbrev pub config_map_key_selector : Interface
config_map_key_selector =
    interface "ConfigMapKeySelector"
      (required "key" text ∷ optional "name" text ∷ optional "optional" boolean ∷ [])

abbrev pub config_map_list : Interface
config_map_list = guarded "ConfigMapList" "v1" "ConfigMapList" (
    required "items" (list (ref "core.v1" "ConfigMap"))
    ∷ optional "apiVersion" text
    ∷ optional "kind" text
    ∷ optional "metadata" (ref "meta.v1" "ListMeta")
    ∷ [])

abbrev pub config_map_projection : Interface
config_map_projection = interface "ConfigMapProjection" (
    optional "items" (list (ref "core.v1" "KeyToPath"))
    ∷ optional "name" text
    ∷ optional "optional" boolean
    ∷ [])

abbrev pub interfaces : List Interface
interfaces =
    aws_elastic_block_store_volume_source ∷ affinity ∷ attached_volume ∷ azure_disk_volume_source
    ∷ azure_file_persistent_volume_source ∷ azure_file_volume_source ∷ binding
    ∷ csi_persistent_volume_source ∷ capabilities ∷ ceph_fs_persistent_volume_source
    ∷ ceph_fs_volume_source ∷ cinder_volume_source ∷ client_ip_config ∷ component_condition
    ∷ component_status ∷ component_status_list ∷ config_map ∷ config_map_env_source
    ∷ config_map_key_selector ∷ config_map_list ∷ config_map_projection ∷ []
