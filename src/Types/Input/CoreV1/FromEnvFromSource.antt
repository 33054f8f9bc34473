-- ===== src/Types/Input/CoreV1/FromEnvFromSource.antt =====
-- The interfaces of `core.v1` in pack/nodejs/types/input.ts from EnvFromSource to HostPathVolumeSource.
use pulumi_kubernetes.Common.{List, [], ◌∷◌}
use pulumi_kubernetes.Types.Shape.{
  Interface, guarded, interface, required, optional, text, number, boolean, number_or_text, list,
  dict, ref, input,
}

abbrev pub env_from_source : Interface
env_from_source = interface "EnvFromSource" (
    optional "configMapRef" (ref "core.v1" "ConfigMapEnvSource")
    ∷ optional "prefix" text
    ∷ optional "secretRef" (ref "core.v1" "SecretEnvSource")
    ∷ [])

abbrev pub env_var : Interface
env_var = interface "EnvVar" (
    required "name" text
    ∷ optional "value" text
    ∷ optional "valueFrom" (ref "core.v1" "EnvVarSource")
    ∷ [])

abbrev pub env_var_source : Interface
env_var_source = interface "EnvVarSource" (
    optional "configMapKeyRef" (ref "core.v1" "ConfigMapKeySelector")
    ∷ optional "fieldRef" (ref "core.v1" "ObjectFieldSelector")
    ∷ optional "resourceFieldRef" (ref "core.v1" "ResourceFieldSelector")
    ∷ optional "secretKeyRef" (ref "core.v1" "SecretKeySelector")
    ∷ [])

abbrev pub event : Interface
event = guarded "Event" "v1" "Event" (
    required "involvedObject" (ref "core.v1" "ObjectReference")
    ∷ required "metadata" (ref "meta.v1" "ObjectMeta")
    ∷ optional "action" text
    ∷ optional "apiVersion" text
    ∷ optional "count" number
    ∷ optional "eventTime" text
    ∷ optional "firstTimestamp" text
    ∷ optional "kind" text
    ∷ optional "lastTimestamp" text
    ∷ optional "message" text
    ∷ optional "reason" text
    ∷ optional "related" (ref "core.v1" "ObjectReference")
    ∷ optional "reportingComponent" text
    ∷ optional "reportingInstance" text
    ∷ optional "series" (ref "core.v1" "EventSeries")
    ∷ optional "source" (ref "core.v1" "EventSource")
    ∷ optional "type" text
    ∷ [])

abbrev pub event_list : Interface
event_list = guarded "EventList" "v1" "EventList" (
    required "items" (list (ref "core.v1" "Event"))
    ∷ optional "apiVersion" text
    ∷ optional "kind" text
    ∷ optional "metadata" (ref "meta.v1" "ListMeta")
    ∷ [])

abbrev pub event_series : Interface
event_series =
    interface "EventSeries"
      (optional "count" number ∷ optional "lastObservedTime" text ∷ optional "state" text ∷ [])

abbrev pub event_source : Interface
event_source = interface "EventSource" (optional "component" text ∷ optional "host" text ∷ [])

abbrev pub exec_action : Interface
exec_action = interface "ExecAction" (optional "command" (list text) ∷ [])

abbrev pub fc_volume_source : Interface
fc_volume_source = interface "FCVolumeSource" (
    optional "fsType" text
    ∷ optional "lun" number
    ∷ optional "readOnly" boolean
    ∷ optional "targetWWNs" (list text)
    ∷ optional "wwids" (list text)
    ∷ [])

abbrev pub flex_volume_source : Interface
flex_volume_source = interface "FlexVolumeSource" (
    required "driver" text
    ∷ optional "fsType" text
    ∷ optional "options" (dict (input text))
    ∷ optional "readOnly" boolean
    ∷ optional "secretRef" (ref "core.v1" "LocalObjectReference")
    ∷ [])

abbrev pub flocker_volume_source : Interface
flocker_volume_source =
    interface "FlockerVolumeSource" (optional "datasetName" text ∷ optional "datasetUUID" text ∷ [])

abbrev pub gce_persistent_disk_volume_source : Interface
gce_persistent_disk_volume_source = interface "GCEPersistentDiskVolumeSource" (
    required "pdName" text
    ∷ optional "fsType" text
    ∷ optional "partition" number
    ∷ optional "readOnly" boolean
    ∷ [])

abbrev pub git_repo_volume_source : Interface
git_repo_volume_source =
    interface "GitRepoVolumeSource"
      (required "repository" text ∷ optional "directory" text ∷ optional "revision" text ∷ [])

abbrev pub glusterfs_volume_source : Interface
glusterfs_volume_source =
    interface "GlusterfsVolumeSource"
      (required "endpoints" text ∷ required "path" text ∷ optional "readOnly" boolean ∷ [])

abbrev pub http_get_action : Interface
http_get_action = interface "HTTPGetAction" (
    required "port" number_or_text
    ∷ optional "host" text
    ∷ optional "httpHeaders" (list (ref "core.v1" "HTTPHeader"))
    ∷ optional "path" text
    ∷ optional "scheme" text
    ∷ [])

abbrev pub http_header : Interface
http_header = interface "HTTPHeader" (required "name" text ∷ required "value" text ∷ [])

abbrev pub handler : Interface
handler = interface "Handler" (
    optional "exec" (ref "core.v1" "ExecAction")
    ∷ optional "httpGet" (ref "core.v1" "HTTPGetAction")
    ∷ optional "tcpSocket" (ref "core.v1" "TCPSocketAction")
    ∷ [])

abbrev pub host_alias : Interface
host_alias = interface "HostAlias" (optional "hostnames" (list text) ∷ optional "ip" text ∷ [])

abbrev pub host_path_volume_source : Interface
host_path_volume_source =
    interface "HostPathVolumeSource" (required "path" text ∷ optional "type" text ∷ [])

abbrev pub interfaces : List Interface
interfaces =
    env_from_source ∷ env_var ∷ env_var_source ∷ event ∷ event_list ∷ event_series ∷ event_source
    ∷ exec_action ∷ fc_volume_source ∷ flex_volume_source ∷ flocker_volume_source
    ∷ gce_persistent_disk_volume_source ∷ git_repo_volume_source ∷ glusterfs_volume_source
    ∷ http_get_action ∷ http_header ∷ handler ∷ host_alias ∷ host_path_volume_source ∷ []
