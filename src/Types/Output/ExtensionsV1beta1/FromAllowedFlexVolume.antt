-- ===== src/Types/Output/ExtensionsV1beta1/FromAllowedFlexVolume.antt =====
-- The interfaces of `extensions.v1beta1` in pack/nodejs/types/output.ts from AllowedFlexVolume to FSGroupStrategyOptions.
use pulumi_kubernetes.Common.{List, [], ◌∷◌}
use pulumi_kubernetes.Types.Shape.{
  Interface, interface, readonly, text, number, boolean, list, dict, ref,
}

abbrev pub allowed_flex_volume : Interface
allowed_flex_volume = interface "AllowedFlexVolume" (readonly "driver" text ∷ [])

abbrev pub allowed_host_path : Interface
allowed_host_path = interface "AllowedHostPath" (readonly "pathPrefix" text ∷ [])

abbrev pub daemon_set : Interface
daemon_set = interface "DaemonSet" (
    readonly "apiVersion" text
    ∷ readonly "kind" text
    ∷ readonly "metadata" (ref "meta.v1" "ObjectMeta")
    ∷ readonly "spec" (ref "extensions.v1beta1" "DaemonSetSpec")
    ∷ readonly "status" (ref "extensions.v1beta1" "DaemonSetStatus")
    ∷ [])

abbrev pub daemon_set_condition : Interface
daemon_set_condition = interface "DaemonSetCondition" (
    readonly "lastTransitionTime" text
    ∷ readonly "message" text
    ∷ readonly "reason" text
    ∷ readonly "status" text
    ∷ readonly "type" text
    ∷ [])

abbrev pub daemon_set_list : Interface
daemon_set_list = interface "DaemonSetList" (
    readonly "apiVersion" text
    ∷ readonly "items" (list (ref "extensions.v1beta1" "DaemonSet"))
    ∷ readonly "kind" text
    ∷ readonly "metadata" (ref "meta.v1" "ListMeta")
    ∷ [])

abbrev pub daemon_set_spec : Interface
daemon_set_spec = interface "DaemonSetSpec" (
    readonly "minReadySeconds" number
    ∷ readonly "revisionHistoryLimit" number
    ∷ readonly "selector" (ref "meta.v1" "LabelSelector")
    ∷ readonly "template" (ref "core.v1" "PodTemplateSpec")
    ∷ readonly "templateGeneration" number
    ∷ readonly "updateStrategy" (ref "extensions.v1beta1" "DaemonSetUpdateStrategy")
    ∷ [])

abbrev pub daemon_set_status : Interface
daemon_set_status = interface "DaemonSetStatus" (
    readonly "collisionCount" number
    ∷ readonly "conditions" (list (ref "extensions.v1beta1" "DaemonSetCondition"))
    ∷ readonly "currentNumberScheduled" number
    ∷ readonly "desiredNumberScheduled" number
    ∷ readonly "numberAvailable" number
    ∷ readonly "numberMisscheduled" number
    ∷ readonly "numberReady" number
    ∷ readonly "numberUnavailable" number
    ∷ readonly "observedGeneration" number
    ∷ readonly "updatedNumberScheduled" number
    ∷ [])

abbrev pub daemon_set_update_strategy : Interface
daemon_set_update_strategy = interface "DaemonSetUpdateStrategy" (
    readonly "rollingUpdate" (ref "extensions.v1beta1" "RollingUpdateDaemonSet")
    ∷ readonly "type" text
    ∷ [])

abbrev pub deployment : Interface
deployment = interface "Deployment" (
    readonly "apiVersion" text
    ∷ readonly "kind" text
    ∷ readonly "metadata" (ref "meta.v1" "ObjectMeta")
    ∷ readonly "spec" (ref "extensions.v1beta1" "DeploymentSpec")
    ∷ readonly "status" (ref "extensions.v1beta1" "DeploymentStatus")
    ∷ [])

abbrev pub deployment_condition : Interface
deployment_condition = interface "DeploymentCondition" (
    readonly "lastTransitionTime" text
    ∷ readonly "lastUpdateTime" text
    ∷ readonly "message" text
    ∷ readonly "reason" text
    ∷ readonly "status" text
    ∷ readonly "type" text
    ∷ [])

abbrev pub deployment_list : Interface
deployment_list = interface "DeploymentList" (
    readonly "apiVersion" text
    ∷ readonly "items" (list (ref "extensions.v1beta1" "Deployment"))
    ∷ readonly "kind" text
    ∷ readonly "metadata" (ref "meta.v1" "ListMeta")
    ∷ [])

abbrev pub deployment_rollback : Interface
deployment_rollback = interface "DeploymentRollback" (
    readonly "apiVersion" text
    ∷ readonly "kind" text
    ∷ readonly "name" text
    ∷ readonly "rollbackTo" (ref "extensions.v1beta1" "RollbackConfig")
    ∷ readonly "updatedAnnotations" (dict text)
    ∷ [])

abbrev pub deployment_spec : Interface
deployment_spec = interface "DeploymentSpec" (
    readonly "minReadySeconds" number
    ∷ readonly "paused" boolean
    ∷ readonly "progressDeadlineSeconds" number
    ∷ readonly "replicas" number
    ∷ readonly "revisionHistoryLimit" number
    ∷ readonly "rollbackTo" (ref "extensions.v1beta1" "RollbackConfig")
    ∷ readonly "selector" (ref "meta.v1" "LabelSelector")
    ∷ readonly "strategy" (ref "extensions.v1beta1" "DeploymentStrategy")
    ∷ readonly "template" (ref "core.v1" "PodTemplateSpec")
    ∷ [])

abbrev pub deployment_status : Interface
deployment_status = interface "DeploymentStatus" (
    readonly "availableReplicas" number
    ∷ readonly "collisionCount" number
    ∷ readonly "conditions" (list (ref "extensions.v1beta1" "DeploymentCondition"))
    ∷ readonly "observedGeneration" number
    ∷ readonly "readyReplicas" number
    ∷ readonly "replicas" number
    ∷ readonly "unavailableReplicas" number
    ∷ readonly "updatedReplicas" number
    ∷ [])

abbrev pub deployment_strategy : Interface
deployment_strategy = interface "DeploymentStrategy" (
    readonly "rollingUpdate" (ref "extensions.v1beta1" "RollingUpdateDeployment")
    ∷ readonly "type" text
    ∷ [])

abbrev pub fs_group_strategy_options : Interface
fs_group_strategy_options =
    interface "FSGroupStrategyOptions"
      (readonly "ranges" (list (ref "extensions.v1beta1" "IDRange")) ∷ readonly "rule" text ∷ [])

abbrev pub interfaces : List Interface
interfaces =
    allowed_flex_volume ∷ allowed_host_path ∷ daemon_set ∷ daemon_set_condition ∷ daemon_set_list
    ∷ daemon_set_spec ∷ daemon_set_status ∷ daemon_set_update_strategy ∷ deployment
    ∷ deployment_condition ∷ deployment_list ∷ deployment_rollback ∷ deployment_spec
    ∷ deployment_status ∷ deployment_strategy ∷ fs_group_strategy_options ∷ []
