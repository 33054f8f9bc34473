-- ===== src/Types/Input/ExtensionsV1beta1/FromAllowedFlexVolume.antt =====
-- The interfaces of `extensions.v1beta1` in pack/nodejs/types/input.ts from AllowedFlexVolume to FSGroupStrategyOptions.
use pulumi_kubernetes.Common.{List, [], ◌∷◌}
use pulumi_kubernetes.Types.Shape.{
  Interface, guarded, interface, required, optional, text, number, boolean, list, dict, ref, input,
}

abbrev pub allowed_flex_volume : Interface
allowed_flex_volume = interface "AllowedFlexVolume" (required "driver" text ∷ [])

abbrev pub allowed_host_path : Interface
allowed_host_path = interface "AllowedHostPath" (optional "pathPrefix" text ∷ [])

abbrev pub daemon_set : Interface
daemon_set = guarded "DaemonSet" "extensions/v1beta1" "DaemonSet" (
    optional "apiVersion" text
    ∷ optional "kind" text
    ∷ optional "metadata" (ref "meta.v1" "ObjectMeta")
    ∷ optional "spec" (ref "extensions.v1beta1" "DaemonSetSpec")
    ∷ optional "status" (ref "extensions.v1beta1" "DaemonSetStatus")
    ∷ [])

abbrev pub daemon_set_condition : Interface
daemon_set_condition = interface "DaemonSetCondition" (
    required "status" text
    ∷ required "type" text
    ∷ optional "lastTransitionTime" text
    ∷ optional "message" text
    ∷ optional "reason" text
    ∷ [])

abbrev pub daemon_set_list : Interface
daemon_set_list = guarded "DaemonSetList" "extensions/v1beta1" "DaemonSetList" (
    required "items" (list (ref "extensions.v1beta1" "DaemonSet"))
    ∷ optional "apiVersion" text
    ∷ optional "kind" text
    ∷ optional "metadata" (ref "meta.v1" "ListMeta")
    ∷ [])

abbrev pub daemon_set_spec : Interface
daemon_set_spec = interface "DaemonSetSpec" (
    required "template" (ref "core.v1" "PodTemplateSpec")
    ∷ optional "minReadySeconds" number
    ∷ optional "revisionHistoryLimit" number
    ∷ optional "selector" (ref "meta.v1" "LabelSelector")
    ∷ optional "templateGeneration" number
    ∷ optional "updateStrategy" (ref "extensions.v1beta1" "DaemonSetUpdateStrategy")
    ∷ [])

abbrev pub daemon_set_status : Interface
daemon_set_status = interface "DaemonSetStatus" (
    required "currentNumberScheduled" number
    ∷ required "desiredNumberScheduled" number
    ∷ required "numberMisscheduled" number
    ∷ required "numberReady" number
    ∷ optional "collisionCount" number
    ∷ optional "conditions" (list (ref "extensions.v1beta1" "DaemonSetCondition"))
    ∷ optional "numberAvailable" number
    ∷ optional "numberUnavailable" number
    ∷ optional "observedGeneration" number
    ∷ optional "updatedNumberScheduled" number
    ∷ [])

abbrev pub daemon_set_update_strategy : Interface
daemon_set_update_strategy = interface "DaemonSetUpdateStrategy" (
    optional "rollingUpdate" (ref "extensions.v1beta1" "RollingUpdateDaemonSet")
    ∷ optional "type" text
    ∷ [])

abbrev pub deployment : Interface
deployment = guarded "Deployment" "extensions/v1beta1" "Deployment" (
    optional "apiVersion" text
    ∷ optional "kind" text
    ∷ optional "metadata" (ref "meta.v1" "ObjectMeta")
    ∷ optional "spec" (ref "extensions.v1beta1" "DeploymentSpec")
    ∷ optional "status" (ref "extensions.v1beta1" "DeploymentStatus")
    ∷ [])

abbrev pub deployment_condition : Interface
deployment_condition = interface "DeploymentCondition" (
    required "status" text
    ∷ required "type" text
    ∷ optional "lastTransitionTime" text
    ∷ optional "lastUpdateTime" text
    ∷ optional "message" text
    ∷ optional "reason" text
    ∷ [])

abbrev pub deployment_list : Interface
deployment_list = guarded "DeploymentList" "extensions/v1beta1" "DeploymentList" (
    required "items" (list (ref "extensions.v1beta1" "Deployment"))
    ∷ optional "apiVersion" text
    ∷ optional "kind" text
    ∷ optional "metadata" (ref "meta.v1" "ListMeta")
    ∷ [])

abbrev pub deployment_rollback : Interface
deployment_rollback = guarded "DeploymentRollback" "extensions/v1beta1" "DeploymentRollback" (
    required "name" text
    ∷ required "rollbackTo" (ref "extensions.v1beta1" "RollbackConfig")
    ∷ optional "apiVersion" text
    ∷ optional "kind" text
    ∷ optional "updatedAnnotations" (dict (input text))
    ∷ [])

abbrev pub deployment_spec : Interface
deployment_spec = interface "DeploymentSpec" (
    required "template" (ref "core.v1" "PodTemplateSpec")
    ∷ optional "minReadySeconds" number
    ∷ optional "paused" boolean
    ∷ optional "progressDeadlineSeconds" number
    ∷ optional "replicas" number
    ∷ optional "revisionHistoryLimit" number
    ∷ optional "rollbackTo" (ref "extensions.v1beta1" "RollbackConfig")
    ∷ optional "selector" (ref "meta.v1" "LabelSelector")
    ∷ optional "strategy" (ref "extensions.v1beta1" "DeploymentStrategy")
    ∷ [])

abbrev pub deployment_status : Interface
deployment_status = interface "DeploymentStatus" (
    optional "availableReplicas" number
    ∷ optional "collisionCount" number
    ∷ optional "conditions" (list (ref "extensions.v1beta1" "DeploymentCondition"))
    ∷ optional "observedGeneration" number
    ∷ optional "readyReplicas" number
    ∷ optional "replicas" number
    ∷ optional "unavailableReplicas" number
    ∷ optional "updatedReplicas" number
    ∷ [])

abbrev pub deployment_strategy : Interface
deployment_strategy = interface "DeploymentStrategy" (
    optional "rollingUpdate" (ref "extensions.v1beta1" "RollingUpdateDeployment")
    ∷ optional "type" text
    ∷ [])

abbrev pub fs_group_strategy_options : Interface
fs_group_strategy_options =
    interface "FSGroupStrategyOptions"
      (optional "ranges" (list (ref "extensions.v1beta1" "IDRange")) ∷ optional "rule" text ∷ [])

abbrev pub interfaces : List Interface
interfaces =
    allowed_flex_volume ∷ allowed_host_path ∷ daemon_set ∷ daemon_set_condition ∷ daemon_set_list
    ∷ daemon_set_spec ∷ daemon_set_status ∷ daemon_set_update_strategy ∷ deployment
    ∷ deployment_condition ∷ deployment_list ∷ deployment_rollback ∷ deployment_spec
    ∷ deployment_status ∷ deployment_strategy ∷ fs_group_strategy_options ∷ []
