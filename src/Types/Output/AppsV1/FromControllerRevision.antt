-- ===== src/Types/Output/AppsV1/FromControllerRevision.antt =====
-- The interfaces of `apps.v1` in pack/nodejs/types/output.ts from ControllerRevision to DeploymentStrategy.
use pulumi_kubernetes.Common.{List, [], ◌∷◌}
use pulumi_kubernetes.Types.Shape.{Interface, interface, readonly, text, number, boolean, list, ref}

abbrev pub controller_revision : Interface
controller_revision = interface "ControllerRevision" (
    readonly "apiVersion" text
    ∷ readonly "data" (ref "pkg.runtime" "RawExtension")
    ∷ readonly "kind" text
    ∷ readonly "metadata" (ref "meta.v1" "ObjectMeta")
    ∷ readonly "revision" number
    ∷ [])

abbrev pub controller_revision_list : Interface
controller_revision_list = interface "ControllerRevisionList" (
    readonly "apiVersion" text
    ∷ readonly "items" (list (ref "apps.v1" "ControllerRevision"))
    ∷ readonly "kind" text
    ∷ readonly "metadata" (ref "meta.v1" "ListMeta")
    ∷ [])

abbrev pub daemon_set : Interface
daemon_set = interface "DaemonSet" (
    readonly "apiVersion" text
    ∷ readonly "kind" text
    ∷ readonly "metadata" (ref "meta.v1" "ObjectMeta")
    ∷ readonly "spec" (ref "apps.v1" "DaemonSetSpec")
    ∷ readonly "status" (ref "apps.v1" "DaemonSetStatus")
    ∷ [])

abbrev pub daemon_set_condition : Interface
daemon_set_condition = interface "DaemonSetCondition" (
    readonly "lastTransitionTime" text
    ∷ readonly "message" text
    ∷ readonly "reason" text
    ∷ readonly "status" text
    ∷ readonly "type" text
    ∷ [])

abbrev pub daemon_set_list : Interface
daemon_set_list = interface "DaemonSetList" (
    readonly "apiVersion" text
    ∷ readonly "items" (list (ref "apps.v1" "DaemonSet"))
    ∷ readonly "kind" text
    ∷ readonly "metadata" (ref "meta.v1" "ListMeta")
    ∷ [])

abbrev pub daemon_set_spec : Interface
daemon_set_spec = interface "DaemonSetSpec" (
    readonly "minReadySeconds" number
    ∷ readonly "revisionHistoryLimit" number
    ∷ readonly "selector" (ref "meta.v1" "LabelSelector")
    ∷ readonly "template" (ref "core.v1" "PodTemplateSpec")
    ∷ readonly "updateStrategy" (ref "apps.v1" "DaemonSetUpdateStrategy")
    ∷ [])

abbrev pub daemon_set_status : Interface
daemon_set_status = interface "DaemonSetStatus" (
    readonly "collisionCount" number
    ∷ readonly "conditions" (list (ref "apps.v1" "DaemonSetCondition"))
    ∷ readonly "currentNumberScheduled" number
    ∷ readonly "desiredNumberScheduled" number
    ∷ readonly "numberAvailable" number
    ∷ readonly "numberMisscheduled" number
    ∷ readonly "numberReady" number
    ∷ readonly "numberUnavailable" number
    ∷ readonly "observedGeneration" number
    ∷ readonly "updatedNumberScheduled" number
    ∷ [])

abbrev pub daemon_set_update_strategy : Interface
daemon_set_update_strategy =
    interface "DaemonSetUpdateStrategy" (
      readonly "rollingUpdate" (ref "apps.v1" "RollingUpdateDaemonSet") ∷ readonly "type" text ∷ [])

abbrev pub deployment : Interface
deployment = interface "Deployment" (
    readonly "apiVersion" text
    ∷ readonly "kind" text
    ∷ readonly "metadata" (ref "meta.v1" "ObjectMeta")
    ∷ readonly "spec" (ref "apps.v1" "DeploymentSpec")
    ∷ readonly "status" (ref "apps.v1" "DeploymentStatus")
    ∷ [])

abbrev pub deployment_condition : Interface
deployment_condition = interface "DeploymentCondition" (
    readonly "lastTransitionTime" text
    ∷ readonly "lastUpdateTime" text
    ∷ readonly "message" text
    ∷ readonly "reason" text
    ∷ readonly "status" text
    ∷ readonly "type" text
    ∷ [])

abbrev pub deployment_list : Interface
deployment_list = interface "DeploymentList" (
    readonly "apiVersion" text
    ∷ readonly "items" (list (ref "apps.v1" "Deployment"))
    ∷ readonly "kind" text
    ∷ readonly "metadata" (ref "meta.v1" "ListMeta")
    ∷ [])

abbrev pub deployment_spec : Interface
deployment_spec = interface "DeploymentSpec" (
    readonly "minReadySeconds" number
    ∷ readonly "paused" boolean
    ∷ readonly "progressDeadlineSeconds" number
    ∷ readonly "replicas" number
    ∷ readonly "revisionHistoryLimit" number
    ∷ readonly "selector" (ref "meta.v1" "LabelSelector")
    ∷ readonly "strategy" (ref "apps.v1" "DeploymentStrategy")
    ∷ readonly "template" (ref "core.v1" "PodTemplateSpec")
    ∷ [])

abbrev pub deployment_status : Interface
deployment_status = interface "DeploymentStatus" (
    readonly "availableReplicas" number
    ∷ readonly "collisionCount" number
    ∷ readonly "conditions" (list (ref "apps.v1" "DeploymentCondition"))
    ∷ readonly "observedGeneration" number
    ∷ readonly "readyReplicas" number
    ∷ readonly "replicas" number
    ∷ readonly "unavailableReplicas" number
    ∷ readonly "updatedReplicas" number
    ∷ [])

abbrev pub deployment_strategy : Interface
deployment_strategy =
    interface "DeploymentStrategy" (
      readonly "rollingUpdate" (ref "apps.v1" "RollingUpdateDeployment")
      ∷ readonly "type" text
      ∷ [])

abbrev pub interfaces : List Interface
interfaces =
    controller_revision ∷ controller_revision_list ∷ daemon_set ∷ daemon_set_condition
    ∷ daemon_set_list ∷ daemon_set_spec ∷ daemon_set_status ∷ daemon_set_update_strategy
    ∷ deployment ∷ deployment_condition ∷ deployment_list ∷ deployment_spec ∷ deployment_status
    ∷ deployment_strategy ∷ []
