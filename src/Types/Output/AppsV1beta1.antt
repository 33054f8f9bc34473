-- ===== src/Types/Output/AppsV1beta1.antt =====
-- The interfaces of the namespace `apps.v1beta1` of pack/nodejs/types/output.ts.
use pulumi_kubernetes.Common.{List, [], ◌∷◌}
use pulumi_kubernetes.Types.Shape.{
  Interface, interface, readonly, text, number, boolean, number_or_text, list, dict, ref,
}

abbrev pub controller_revision : Interface
controller_revision = interface "ControllerRevision" (
    readonly "apiVersion" text
    ∷ readonly "data" (ref "pkg.runtime" "RawExtension")
    ∷ readonly "kind" text
    ∷ readonly "metadata" (ref "meta.v1" "ObjectMeta")
    ∷ readonly "revision" number
    ∷ [])

abbrev pub controller_revision_list : Interface
controller_revision_list = interface "ControllerRevisionList" (
    readonly "apiVersion" text
    ∷ readonly "items" (list (ref "apps.v1beta1" "ControllerRevision"))
    ∷ readonly "kind" text
    ∷ readonly "metadata" (ref "meta.v1" "ListMeta")
    ∷ [])

abbrev pub deployment : Interface
deployment = interface "Deployment" (
    readonly "apiVersion" text
    ∷ readonly "kind" text
    ∷ readonly "metadata" (ref "meta.v1" "ObjectMeta")
    ∷ readonly "spec" (ref "apps.v1beta1" "DeploymentSpec")
    ∷ readonly "status" (ref "apps.v1beta1" "DeploymentStatus")
    ∷ [])

abbrev pub deployment_condition : Interface
deployment_condition = interface "DeploymentCondition" (
    readonly "lastTransitionTime" text
    ∷ readonly "lastUpdateTime" text
    ∷ readonly "message" text
    ∷ readonly "reason" text
    ∷ readonly "status" text
    ∷ readonly "type" text
    ∷ [])

abbrev pub deployment_list : Interface
deployment_list = interface "DeploymentList" (
    readonly "apiVersion" text
    ∷ readonly "items" (list (ref "apps.v1beta1" "Deployment"))
    ∷ readonly "kind" text
    ∷ readonly "metadata" (ref "meta.v1" "ListMeta")
    ∷ [])

abbrev pub deployment_rollback : Interface
deployment_rollback = interface "DeploymentRollback" (
    readonly "apiVersion" text
    ∷ readonly "kind" text
    ∷ readonly "name" text
    ∷ readonly "rollbackTo" (ref "apps.v1beta1" "RollbackConfig")
    ∷ readonly "updatedAnnotations" (dict text)
    ∷ [])

abbrev pub deployment_spec : Interface
deployment_spec = interface "DeploymentSpec" (
    readonly "minReadySeconds" number
    ∷ readonly "paused" boolean
    ∷ readonly "progressDeadlineSeconds" number
    ∷ readonly "replicas" number
    ∷ readonly "revisionHistoryLimit" number
    ∷ readonly "rollbackTo" (ref "apps.v1beta1" "RollbackConfig")
    ∷ readonly "selector" (ref "meta.v1" "LabelSelector")
    ∷ readonly "strategy" (ref "apps.v1beta1" "DeploymentStrategy")
    ∷ readonly "template" (ref "core.v1" "PodTemplateSpec")
    ∷ [])

abbrev pub deployment_status : Interface
deployment_status = interface "DeploymentStatus" (
    readonly "availableReplicas" number
    ∷ readonly "collisionCount" number
    ∷ readonly "conditions" (list (ref "apps.v1beta1" "DeploymentCondition"))
    ∷ readonly "observedGeneration" number
    ∷ readonly "readyReplicas" number
    ∷ readonly "replicas" number
    ∷ readonly "unavailableReplicas" number
    ∷ readonly "updatedReplicas" number
    ∷ [])

abbrev pub deployment_strategy : Interface
deployment_strategy = interface "DeploymentStrategy" (
    readonly "rollingUpdate" (ref "apps.v1beta1" "RollingUpdateDeployment")
    ∷ readonly "type" text
    ∷ [])

abbrev pub rollback_config : Interface
rollback_config = interface "RollbackConfig" (readonly "revision" number ∷ [])

abbrev pub rolling_update_deployment : Interface
rolling_update_deployment =
    interface "RollingUpdateDeployment"
      (readonly "maxSurge" number_or_text ∷ readonly "maxUnavailable" number_or_text ∷ [])

abbrev pub rolling_update_stateful_set_strategy : Interface
rolling_update_stateful_set_strategy =
    interface "RollingUpdateStatefulSetStrategy" (readonly "partition" number ∷ [])

abbrev pub scale : Interface
scale = interface "Scale" (
    readonly "apiVersion" text
    ∷ readonly "kind" text
    ∷ readonly "metadata" (ref "meta.v1" "ObjectMeta")
    ∷ readonly "spec" (ref "apps.v1beta1" "ScaleSpec")
    ∷ readonly "status" (ref "apps.v1beta1" "ScaleStatus")
    ∷ [])

abbrev pub scale_spec : Interface
scale_spec = interface "ScaleSpec" (readonly "replicas" number ∷ [])

abbrev pub scale_status : Interface
scale_status = interface "ScaleStatus" (
    readonly "replicas" number
    ∷ readonly "selector" (dict text)
    ∷ readonly "targetSelector" text
    ∷ [])

abbrev pub stateful_set : Interface
stateful_set = interface "StatefulSet" (
    readonly "apiVersion" text
    ∷ readonly "kind" text
    ∷ readonly "metadata" (ref "meta.v1" "ObjectMeta")
    ∷ readonly "spec" (ref "apps.v1beta1" "StatefulSetSpec")
    ∷ readonly "status" (ref "apps.v1beta1" "StatefulSetStatus")
    ∷ [])

abbrev pub stateful_set_condition : Interface
stateful_set_condition = interface "StatefulSetCondition" (
    readonly "lastTransitionTime" text
    ∷ readonly "message" text
    ∷ readonly "reason" text
    ∷ readonly "status" text
    ∷ readonly "type" text
    ∷ [])

abbrev pub stateful_set_list : Interface
stateful_set_list = interface "StatefulSetList" (
    readonly "apiVersion" text
    ∷ readonly "items" (list (ref "apps.v1beta1" "StatefulSet"))
    ∷ readonly "kind" text
    ∷ readonly "metadata" (ref "meta.v1" "ListMeta")
    ∷ [])

abbrev pub stateful_set_spec : Interface
stateful_set_spec = interface "StatefulSetSpec" (
    readonly "podManagementPolicy" text
    ∷ readonly "replicas" number
    ∷ readonly "revisionHistoryLimit" number
    ∷ readonly "selector" (ref "meta.v1" "LabelSelector")
    ∷ readonly "serviceName" text
    ∷ readonly "template" (ref "core.v1" "PodTemplateSpec")
    ∷ readonly "updateStrategy" (ref "apps.v1beta1" "StatefulSetUpdateStrategy")
    ∷ readonly "volumeClaimTemplates" (list (ref "core.v1" "PersistentVolumeClaim"))
    ∷ [])

abbrev pub stateful_set_status : Interface
stateful_set_status = interface "StatefulSetStatus" (
    readonly "collisionCount" number
    ∷ readonly "conditions" (list (ref "apps.v1beta1" "StatefulSetCondition"))
    ∷ readonly "currentReplicas" number
    ∷ readonly "currentRevision" text
    ∷ readonly "observedGeneration" number
    ∷ readonly "readyReplicas" number
    ∷ readonly "replicas" number
    ∷ readonly "updateRevision" text
    ∷ readonly "updatedReplicas" number
    ∷ [])

abbrev pub stateful_set_update_strategy : Interface
stateful_set_update_strategy = interface "StatefulSetUpdateStrategy" (
    readonly "rollingUpdate" (ref "apps.v1beta1" "RollingUpdateStatefulSetStrategy")
    ∷ readonly "type" text
    ∷ [])

abbrev pub interfaces : List Interface
interfaces =
    controller_revision ∷ controller_revision_list ∷ deployment ∷ deployment_condition
    ∷ deployment_list ∷ deployment_rollback ∷ deployment_spec ∷ deployment_status
    ∷ deployment_strategy ∷ rollback_config ∷ rolling_update_deployment
    ∷ rolling_update_stateful_set_strategy ∷ scale ∷ scale_spec ∷ scale_status ∷ stateful_set
    ∷ stateful_set_condition ∷ stateful_set_list ∷ stateful_set_spec ∷ stateful_set_status
    ∷ stateful_set_update_strategy ∷ []
