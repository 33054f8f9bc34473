-- ===== src/Types/Output/CoreV1/FromConfigMapVolumeSource.antt =====
-- The interfaces of `core.v1` in pack/nodejs/types/output.ts from ConfigMapVolumeSource to EndpointsList.
use pulumi_kubernetes.Common.{List, [], ◌∷◌}
use pulumi_kubernetes.Types.Shape.{Interface, interface, readonly, text, number, boolean, list, ref}

abbrev pub config_map_volume_source : Interface
config_map_volume_source = interface "ConfigMapVolumeSource" (
    readonly "defaultMode" number
    ∷ readonly "items" (list (ref "core.v1" "KeyToPath"))
    ∷ readonly "name" text
    ∷ readonly "optional" boolean
    ∷ [])

abbrev pub container : Interface
container = interface "Container" (
    readonly "args" (list text)
    ∷ readonly "command" (list text)
    ∷ readonly "env" (list (ref "core.v1" "EnvVar"))
    ∷ readonly "envFrom" (list (ref "core.v1" "EnvFromSource"))
    ∷ readonly "image" text
    ∷ readonly "imagePullPolicy" text
    ∷ readonly "lifecycle" (ref "core.v1" "Lifecycle")
    ∷ readonly "livenessProbe" (ref "core.v1" "Probe")
    ∷ readonly "name" text
    ∷ readonly "ports" (list (ref "core.v1" "ContainerPort"))
    ∷ readonly "readinessProbe" (ref "core.v1" "Probe")
    ∷ readonly "resources" (ref "core.v1" "ResourceRequirements")
    ∷ readonly "securityContext" (ref "core.v1" "SecurityContext")
    ∷ readonly "stdin" boolean
    ∷ readonly "stdinOnce" boolean
    ∷ readonly "terminationMessagePath" text
    ∷ readonly "terminationMessagePolicy" text
    ∷ readonly "tty" boolean
    ∷ readonly "volumeDevices" (list (ref "core.v1" "VolumeDevice"))
    ∷ readonly "volumeMounts" (list (ref "core.v1" "VolumeMount"))
    ∷ readonly "workingDir" text
    ∷ [])

abbrev pub container_image : Interface
container_image =
    interface "ContainerImage" (readonly "names" (list text) ∷ readonly "sizeBytes" number ∷ [])

abbrev pub container_port : Interface
container_port = interface "ContainerPort" (
    readonly "containerPort" number
    ∷ readonly "hostIP" text
    ∷ readonly "hostPort" number
    ∷ readonly "name" text
    ∷ readonly "protocol" text
    ∷ [])

abbrev pub container_state : Interface
container_state = interface "ContainerState" (
    readonly "running" (ref "core.v1" "ContainerStateRunning")
    ∷ readonly "terminated" (ref "core.v1" "ContainerStateTerminated")
    ∷ readonly "waiting" (ref "core.v1" "ContainerStateWaiting")
    ∷ [])

abbrev pub container_state_running : Interface
container_state_running = interface "ContainerStateRunning" (readonly "startedAt" text ∷ [])

abbrev pub container_state_terminated : Interface
container_state_terminated = interface "ContainerStateTerminated" (
    readonly "containerID" text
    ∷ readonly "exitCode" number
    ∷ readonly "finishedAt" text
    ∷ readonly "message" text
    ∷ readonly "reason" text
    ∷ readonly "signal" number
    ∷ readonly "startedAt" text
    ∷ [])

abbrev pub container_state_waiting : Interface
container_state_waiting =
    interface "ContainerStateWaiting" (readonly "message" text ∷ readonly "reason" text ∷ [])

abbrev pub container_status : Interface
container_status = interface "ContainerStatus" (
    readonly "containerID" text
    ∷ readonly "image" text
    ∷ readonly "imageID" text
    ∷ readonly "lastState" (ref "core.v1" "ContainerState")
    ∷ readonly "name" text
    ∷ readonly "ready" boolean
    ∷ readonly "restartCount" number
    ∷ readonly "state" (ref "core.v1" "ContainerState")
    ∷ [])

abbrev pub daemon_endpoint : Interface
daemon_endpoint = interface "DaemonEndpoint" (readonly "Port" number ∷ [])

abbrev pub downward_api_projection : Interface
downward_api_projection =
    interface "DownwardAPIProjection"
      (readonly "items" (list (ref "core.v1" "DownwardAPIVolumeFile")) ∷ [])

abbrev pub downward_api_volume_file : Interface
downward_api_volume_file = interface "DownwardAPIVolumeFile" (
    readonly "fieldRef" (ref "core.v1" "ObjectFieldSelector")
    ∷ readonly "mode" number
    ∷ readonly "path" text
    ∷ readonly "resourceFieldRef" (ref "core.v1" "ResourceFieldSelector")
    ∷ [])

abbrev pub downward_api_volume_source : Interface
downward_api_volume_source = interface "DownwardAPIVolumeSource" (
    readonly "defaultMode" number
    ∷ readonly "items" (list (ref "core.v1" "DownwardAPIVolumeFile"))
    ∷ [])

abbrev pub empty_dir_volume_source : Interface
empty_dir_volume_source =
    interface "EmptyDirVolumeSource" (readonly "medium" text ∷ readonly "sizeLimit" text ∷ [])

abbrev pub endpoint_address : Interface
endpoint_address = interface "EndpointAddress" (
    readonly "hostname" text
    ∷ readonly "ip" text
    ∷ readonly "nodeName" text
    ∷ readonly "targetRef" (ref "core.v1" "ObjectReference")
    ∷ [])

abbrev pub endpoint_port : Interface
endpoint_port =
    interface "EndpointPort"
      (readonly "name" text ∷ readonly "port" number ∷ readonly "protocol" text ∷ [])

abbrev pub endpoint_subset : Interface
endpoint_subset = interface "EndpointSubset" (
    readonly "addresses" (list (ref "core.v1" "EndpointAddress"))
    ∷ readonly "notReadyAddresses" (list (ref "core.v1" "EndpointAddress"))
    ∷ readonly "ports" (list (ref "core.v1" "EndpointPort"))
    ∷ [])

abbrev pub endpoints : Interface
endpoints = interface "Endpoints" (
    readonly "apiVersion" text
    ∷ readonly "kind" text
    ∷ readonly "metadata" (ref "meta.v1" "ObjectMeta")
    ∷ readonly "subsets" (list (ref "core.v1" "EndpointSubset"))
    ∷ [])

abbrev pub endpoints_list : Interface
endpoints_list = interface "EndpointsList" (
    readonly "apiVersion" text
    ∷ readonly "items" (list (ref "core.v1" "Endpoints"))
    ∷ readonly "kind" text
    ∷ readonly "metadata" (ref "meta.v1" "ListMeta")
    ∷ [])

abbrev pub interfaces : List Interface
interfaces =
    config_map_volume_source ∷ container ∷ container_image ∷ container_port ∷ container_state
    ∷ container_state_running ∷ container_state_terminated ∷ container_state_waiting
    ∷ container_status ∷ daemon_endpoint ∷ downward_api_projection ∷ downward_api_volume_file
    ∷ downward_api_volume_source ∷ empty_dir_volume_source ∷ endpoint_address ∷ endpoint_port
    ∷ endpoint_subset ∷ endpoints ∷ endpoints_list ∷ []
