-- ===== src/Types/Input/CoreV1/FromConfigMapVolumeSource.antt =====
-- The interfaces of `core.v1` in pack/nodejs/types/input.ts from ConfigMapVolumeSource to EndpointsList.
use pulumi_kubernetes.Common.{List, [], ◌∷◌}
use pulumi_kubernetes.Types.Shape.{
  Interface, guarded, interface, required, optional, text, number, boolean, list, ref,
}

abbrev pub config_map_volume_source : Interface
config_map_volume_source = interface "ConfigMapVolumeSource" (
    optional "defaultMode" number
    ∷ optional "items" (list (ref "core.v1" "KeyToPath"))
    ∷ optional "name" text
    ∷ optional "optional" boolean
    ∷ [])

abbrev pub container : Interface
container = interface "Container" (
    required "name" text
    ∷ optional "args" (list text)
    ∷ optional "command" (list text)
    ∷ optional "env" (list (ref "core.v1" "EnvVar"))
    ∷ optional "envFrom" (list (ref "core.v1" "EnvFromSource"))
    ∷ optional "image" text
    ∷ optional "imagePullPolicy" text
    ∷ optional "lifecycle" (ref "core.v1" "Lifecycle")
    ∷ optional "livenessProbe" (ref "core.v1" "Probe")
    ∷ optional "ports" (list (ref "core.v1" "ContainerPort"))
    ∷ optional "readinessProbe" (ref "core.v1" "Probe")
    ∷ optional "resources" (ref "core.v1" "ResourceRequirements")
    ∷ optional "securityContext" (ref "core.v1" "SecurityContext")
    ∷ optional "stdin" boolean
    ∷ optional "stdinOnce" boolean
    ∷ optional "terminationMessagePath" text
    ∷ optional "terminationMessagePolicy" text
    ∷ optional "tty" boolean
    ∷ optional "volumeDevices" (list (ref "core.v1" "VolumeDevice"))
    ∷ optional "volumeMounts" (list (ref "core.v1" "VolumeMount"))
    ∷ optional "workingDir" text
    ∷ [])

abbrev pub container_image : Interface
container_image =
    interface "ContainerImage" (required "names" (list text) ∷ optional "sizeBytes" number ∷ [])

abbrev pub container_port : Interface
container_port = interface "ContainerPort" (
    required "containerPort" number
    ∷ optional "hostIP" text
    ∷ optional "hostPort" number
    ∷ optional "name" text
    ∷ optional "protocol" text
    ∷ [])

abbrev pub container_state : Interface
container_state = interface "ContainerState" (
    optional "running" (ref "core.v1" "ContainerStateRunning")
    ∷ optional "terminated" (ref "core.v1" "ContainerStateTerminated")
    ∷ optional "waiting" (ref "core.v1" "ContainerStateWaiting")
    ∷ [])

abbrev pub container_state_running : Interface
container_state_running = interface "ContainerStateRunning" (optional "startedAt" text ∷ [])

abbrev pub container_state_terminated : Interface
container_state_terminated = interface "ContainerStateTerminated" (
    required "exitCode" number
    ∷ optional "containerID" text
    ∷ optional "finishedAt" text
    ∷ optional "message" text
    ∷ optional "reason" text
    ∷ optional "signal" number
    ∷ optional "startedAt" text
    ∷ [])

abbrev pub container_state_waiting : Interface
container_state_waiting =
    interface "ContainerStateWaiting" (optional "message" text ∷ optional "reason" text ∷ [])

abbrev pub container_status : Interface
container_status = interface "ContainerStatus" (
    required "image" text
    ∷ required "imageID" text
    ∷ required "name" text
    ∷ required "ready" boolean
    ∷ required "restartCount" number
    ∷ optional "containerID" text
    ∷ optional "lastState" (ref "core.v1" "ContainerState")
    ∷ optional "state" (ref "core.v1" "ContainerState")
    ∷ [])

abbrev pub daemon_endpoint : Interface
daemon_endpoint = interface "DaemonEndpoint" (required "Port" number ∷ [])

abbrev pub downward_api_projection : Interface
downward_api_projection =
    interface "DownwardAPIProjection"
      (optional "items" (list (ref "core.v1" "DownwardAPIVolumeFile")) ∷ [])

abbrev pub downward_api_volume_file : Interface
downward_api_volume_file = interface "DownwardAPIVolumeFile" (
    required "path" text
    ∷ optional "fieldRef" (ref "core.v1" "ObjectFieldSelector")
    ∷ optional "mode" number
    ∷ optional "resourceFieldRef" (ref "core.v1" "ResourceFieldSelector")
    ∷ [])

abbrev pub downward_api_volume_source : Interface
downward_api_volume_source = interface "DownwardAPIVolumeSource" (
    optional "defaultMode" number
    ∷ optional "items" (list (ref "core.v1" "DownwardAPIVolumeFile"))
    ∷ [])

abbrev pub empty_dir_volume_source : Interface
empty_dir_volume_source =
    interface "EmptyDirVolumeSource" (optional "medium" text ∷ optional "sizeLimit" text ∷ [])

abbrev pub endpoint_address : Interface
endpoint_address = interface "EndpointAddress" (
    required "ip" text
    ∷ optional "hostname" text
    ∷ optional "nodeName" text
    ∷ optional "targetRef" (ref "core.v1" "ObjectReference")
    ∷ [])

abbrev pub endpoint_port : Interface
endpoint_port =
    interface "EndpointPort"
      (required "port" number ∷ optional "name" text ∷ optional "protocol" text ∷ [])

abbrev pub endpoint_subset : Interface
endpoint_subset = interface "EndpointSubset" (
    optional "addresses" (list (ref "core.v1" "EndpointAddress"))
    ∷ optional "notReadyAddresses" (list (ref "core.v1" "EndpointAddress"))
    ∷ optional "ports" (list (ref "core.v1" "EndpointPort"))
    ∷ [])

abbrev pub endpoints : Interface
endpoints = guarded "Endpoints" "v1" "Endpoints" (
    required "subsets" (list (ref "core.v1" "EndpointSubset"))
    ∷ optional "apiVersion" text
    ∷ optional "kind" text
    ∷ optional "metadata" (ref "meta.v1" "ObjectMeta")
    ∷ [])

abbrev pub endpoints_list : Interface
endpoints_list = guarded "EndpointsList" "v1" "EndpointsList" (
    required "items" (list (ref "core.v1" "Endpoints"))
    ∷ optional "apiVersion" text
    ∷ optional "kind" text
    ∷ optional "metadata" (ref "meta.v1" "ListMeta")
    ∷ [])

abbrev pub interfaces : List Interface
interfaces =
    config_map_volume_source ∷ container ∷ container_image ∷ container_port ∷ container_state
    ∷ container_state_running ∷ container_state_terminated ∷ container_state_waiting
    ∷ container_status ∷ daemon_endpoint ∷ downward_api_projection ∷ downward_api_volume_file
    ∷ downward_api_volume_source ∷ empty_dir_volume_source ∷ endpoint_address ∷ endpoint_port
    ∷ endpoint_subset ∷ endpoints ∷ endpoints_list ∷ []
