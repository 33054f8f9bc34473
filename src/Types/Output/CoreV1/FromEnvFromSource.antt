-- ===== src/Types/Output/CoreV1/FromEnvFromSource.antt =====
-- The interfaces of `core.v1` in pack/nodejs/types/output.ts from EnvFromSource to HostPathVolumeSource.
use pulumi_kubernetes.Common.{List, [], ◌∷◌}
use pulumi_kubernetes.Types.Shape.{
  Interface, interface, readonly, text, number, boolean, number_or_text, list, dict, ref,
}

abbrev pub env_from_source : Interface
env_from_source = interface "EnvFromSource" (
    readonly "configMapRef" (ref "core.v1" "ConfigMapEnvSource")
    ∷ readonly "prefix" text
    ∷ readonly "secretRef" (ref "core.v1" "SecretEnvSource")
    ∷ [])

abbrev pub env_var : Interface
env_var = interface "EnvVar" (
    readonly "name" text
    ∷ readonly "value" text
    ∷ readonly "valueFrom" (ref "core.v1" "EnvVarSource")
    ∷ [])

abbrev pub env_var_source : Interface
env_var_source = interface "EnvVarSource" (
    readonly "configMapKeyRef" (ref "core.v1" "ConfigMapKeySelector")
    ∷ readonly "fieldRef" (ref "core.v1" "ObjectFieldSelector")
    ∷ readonly "resourceFieldRef" (ref "core.v1" "ResourceFieldSelector")
    ∷ readonly "secretKeyRef" (ref "core.v1" "SecretKeySelector")
    ∷ [])

abbrev pub event : Interface
event = interface "Event" (
    readonly "action" text
    ∷ readonly "apiVersion" text
    ∷ readonly "count" number
    ∷ readonly "eventTime" text
    ∷ readonly "firstTimestamp" text
    ∷ readonly "involvedObject" (ref "core.v1" "ObjectReference")
    ∷ readonly "kind" text
    ∷ readonly "lastTimestamp" text
    ∷ readonly "message" text
    ∷ readonly "metadata" (ref "meta.v1" "ObjectMeta")
    ∷ readonly "reason" text
    ∷ readonly "related" (ref "core.v1" "ObjectReference")
    ∷ readonly "reportingComponent" text
    ∷ readonly "reportingInstance" text
    ∷ readonly "series" (ref "core.v1" "EventSeries")
    ∷ readonly "source" (ref "core.v1" "EventSource")
    ∷ readonly "type" text
    ∷ [])

abbrev pub event_list : Interface
event_list = interface "EventList" (
    readonly "apiVersion" text
    ∷ readonly "items" (list (ref "core.v1" "Event"))
    ∷ readonly "kind" text
    ∷ readonly "metadata" (ref "meta.v1" "ListMeta")
    ∷ [])

abbrev pub event_series : Interface
event_series =
    interface "EventSeries"
      (readonly "count" number ∷ readonly "lastObservedTime" text ∷ readonly "state" text ∷ [])

abbrev pub event_source : Interface
event_source = interface "EventSource" (readonly "component" text ∷ readonly "host" text ∷ [])

abbrev pub exec_action : Interface
exec_action = interface "ExecAction" (readonly "command" (list text) ∷ [])

abbrev pub fc_volume_source : Interface
fc_volume_source = interface "FCVolumeSource" (
    readonly "fsType" text
    ∷ readonly "lun" number
    ∷ readonly "readOnly" boolean
    ∷ readonly "targetWWNs" (list text)
    ∷ readonly "wwids" (list text)
    ∷ [])

abbrev pub flex_volume_source : Interface
flex_volume_source = interface "FlexVolumeSource" (
    readonly "driver" text
    ∷ readonly "fsType" text
    ∷ readonly "options" (dict text)
    ∷ readonly "readOnly" boolean
    ∷ readonly "secretRef" (ref "core.v1" "LocalObjectReference")
    ∷ [])

abbrev pub flocker_volume_source : Interface
flocker_volume_source =
    interface "FlockerVolumeSource" (readonly "datasetName" text ∷ readonly "datasetUUID" text ∷ [])

abbrev pub gce_persistent_disk_volume_source : Interface
gce_persistent_disk_volume_source = interface "GCEPersistentDiskVolumeSource" (
    readonly "fsType" text
    ∷ readonly "partition" number
    ∷ readonly "pdName" text
    ∷ readonly "readOnly" boolean
    ∷ [])

abbrev pub git_repo_volume_source : Interface
git_repo_volume_source =
    interface "GitRepoVolumeSource"
      (readonly "directory" text ∷ readonly "repository" text ∷ readonly "revision" text ∷ [])

abbrev pub glusterfs_volume_source : Interface
glusterfs_volume_source =
    interface "GlusterfsVolumeSource"
      (readonly "endpoints" text ∷ readonly "path" text ∷ readonly "readOnly" boolean ∷ [])

abbrev pub http_get_action : Interface
http_get_action = interface "HTTPGetAction" (
    readonly "host" text
    ∷ readonly "httpHeaders" (list (ref "core.v1" "HTTPHeader"))
    ∷ readonly "path" text
    ∷ readonly "port" number_or_text
    ∷ readonly "scheme" text
    ∷ [])

abbrev pub http_header : Interface
http_header = interface "HTTPHeader" (readonly "name" text ∷ readonly "value" text ∷ [])

abbrev pub handler : Interface
handler = interface "Handler" (
    readonly "exec" (ref "core.v1" "ExecAction")
    ∷ readonly "httpGet" (ref "core.v1" "HTTPGetAction")
    ∷ readonly "tcpSocket" (ref "core.v1" "TCPSocketAction")
    ∷ [])

abbrev pub host_alias : Interface
host_alias = interface "HostAlias" (readonly "hostnames" (list text) ∷ readonly "ip" text ∷ [])

abbrev pub host_path_volume_source : Interface
host_path_volume_source =
    interface "HostPathVolumeSource" (readonly "path" text ∷ readonly "type" text ∷ [])

abbrev pub interfaces : List Interface
interfaces =
    env_from_source ∷ env_var ∷ env_var_source ∷ event ∷ event_list ∷ event_series ∷ event_source
    ∷ exec_action ∷ fc_volume_source ∷ flex_volume_source ∷ flocker_volume_source
    ∷ gce_persistent_disk_volume_source ∷ git_repo_volume_source ∷ glusterfs_volume_source
    ∷ http_get_action ∷ http_header ∷ handler ∷ host_alias ∷ host_path_volume_source ∷ []
