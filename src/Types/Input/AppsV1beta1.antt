-- ===== src/Types/Input/AppsV1beta1.antt =====
-- The interfaces of the namespace `apps.v1beta1` of pack/nodejs/types/input.ts.
use pulumi_kubernetes.Common.{List, [], ◌∷◌}
use pulumi_kubernetes.Types.Shape.{
  Interface, guarded, interface, required, optional, text, number, boolean, number_or_text, list,
  dict, ref, input,
}

abbrev pub controller_revision : Interface
controller_revision = guarded "ControllerRevision" "apps/v1beta1" "ControllerRevision" (
    required "revision" number
    ∷ optional "apiVersion" text
    ∷ optional "data" (ref "pkg.runtime" "RawExtension")
    ∷ optional "kind" text
    ∷ optional "metadata" (ref "meta.v1" "ObjectMeta")
    ∷ [])

abbrev pub controller_revision_list : Interface
controller_revision_list =
    guarded "ControllerRevisionList" "apps/v1beta1" "ControllerRevisionList" (
      required "items" (list (ref "apps.v1beta1" "ControllerRevision"))
      ∷ optional "apiVersion" text
      ∷ optional "kind" text
      ∷ optional "metadata" (ref "meta.v1" "ListMeta")
      ∷ [])

abbrev pub deployment : Interface
deployment = guarded "Deployment" "apps/v1beta1" "Deployment" (
    optional "apiVersion" text
    ∷ optional "kind" text
    ∷ optional "metadata" (ref "meta.v1" "ObjectMeta")
    ∷ optional "spec" (ref "apps.v1beta1" "DeploymentSpec")
    ∷ optional "status" (ref "apps.v1beta1" "DeploymentStatus")
    ∷ [])

abbrev pub deployment_condition : Interface
deployment_condition = interface "DeploymentCondition" (
    required "status" text
    ∷ required "type" text
    ∷ optional "lastTransitionTime" text
    ∷ optional "lastUpdateTime" text
    ∷ optional "message" text
    ∷ optional "reason" text
    ∷ [])

abbrev pub deployment_list : Interface
deployment_list = guarded "DeploymentList" "apps/v1beta1" "DeploymentList" (
    required "items" (list (ref "apps.v1beta1" "Deployment"))
    ∷ optional "apiVersion" text
    ∷ optional "kind" text
    ∷ optional "metadata" (ref "meta.v1" "ListMeta")
    ∷ [])

abbrev pub deployment_rollback : Interface
deployment_rollback = guarded "DeploymentRollback" "apps/v1beta1" "DeploymentRollback" (
    required "name" text
    ∷ required "rollbackTo" (ref "apps.v1beta1" "RollbackConfig")
    ∷ optional "apiVersion" text
    ∷ optional "kind" text
    ∷ optional "updatedAnnotations" (dict (input text))
    ∷ [])

abbrev pub deployment_spec : Interface
deployment_spec = interface "DeploymentSpec" (
    required "template" (ref "core.v1" "PodTemplateSpec")
    ∷ optional "minReadySeconds" number
    ∷ optional "paused" boolean
    ∷ optional "progressDeadlineSeconds" number
    ∷ optional "replicas" number
    ∷ optional "revisionHistoryLimit" number
    ∷ optional "rollbackTo" (ref "apps.v1beta1" "RollbackConfig")
    ∷ optional "selector" (ref "meta.v1" "LabelSelector")
    ∷ optional "strategy" (ref "apps.v1beta1" "DeploymentStrategy")
    ∷ [])

abbrev pub deployment_status : Interface
deployment_status = interface "DeploymentStatus" (
    optional "availableReplicas" number
    ∷ optional "collisionCount" number
    ∷ optional "conditions" (list (ref "apps.v1beta1" "DeploymentCondition"))
    ∷ optional "observedGeneration" number
    ∷ optional "readyReplicas" number
    ∷ optional "replicas" number
    ∷ optional "unavailableReplicas" number
    ∷ optional "updatedReplicas" number
    ∷ [])

abbrev pub deployment_strategy : Interface
deployment_strategy = interface "DeploymentStrategy" (
    optional "rollingUpdate" (ref "apps.v1beta1" "RollingUpdateDeployment")
    ∷ optional "type" text
    ∷ [])

abbrev pub rollback_config : Interface
rollback_config = interface "RollbackConfig" (optional "revision" number ∷ [])

abbrev pub rolling_update_deployment : Interface
rolling_update_deployment =
    interface "RollingUpdateDeployment"
      (optional "maxSurge" number_or_text ∷ optional "maxUnavailable" number_or_text ∷ [])

abbrev pub rolling_update_stateful_set_strategy : Interface
rolling_update_stateful_set_strategy =
    interface "RollingUpdateStatefulSetStrategy" (optional "partition" number ∷ [])

abbrev pub scale : Interface
scale = guarded "Scale" "apps/v1beta1" "Scale" (
    optional "apiVersion" text
    ∷ optional "kind" text
    ∷ optional "metadata" (ref "meta.v1" "ObjectMeta")
    ∷ optional "spec" (ref "apps.v1beta1" "ScaleSpec")
    ∷ optional "status" (ref "apps.v1beta1" "ScaleStatus")
    ∷ [])

abbrev pub scale_spec : Interface
scale_spec = interface "ScaleSpec" (optional "replicas" number ∷ [])

abbrev pub scale_status : Interface
scale_status = interface "ScaleStatus" (
    required "replicas" number
    ∷ optional "selector" (dict (input text))
    ∷ optional "targetSelector" text
    ∷ [])

abbrev pub stateful_set : Interface
stateful_set = guarded "StatefulSet" "apps/v1beta1" "StatefulSet" (
    optional "apiVersion" text
    ∷ optional "kind" text
    ∷ optional "metadata" (ref "meta.v1" "ObjectMeta")
    ∷ optional "spec" (ref "apps.v1beta1" "StatefulSetSpec")
    ∷ optional "status" (ref "apps.v1beta1" "StatefulSetStatus")
    ∷ [])

abbrev pub stateful_set_condition : Interface
stateful_set_condition = interface "StatefulSetCondition" (
    required "status" text
    ∷ required "type" text
    ∷ optional "lastTransitionTime" text
    ∷ optional "message" text
    ∷ optional "reason" text
    ∷ [])

abbrev pub stateful_set_list : Interface
stateful_set_list = guarded "StatefulSetList" "apps/v1beta1" "StatefulSetList" (
    required "items" (list (ref "apps.v1beta1" "StatefulSet"))
    ∷ optional "apiVersion" text
    ∷ optional "kind" text
    ∷ optional "metadata" (ref "meta.v1" "ListMeta")
    ∷ [])

abbrev pub stateful_set_spec : Interface
stateful_set_spec = interface "StatefulSetSpec" (
    required "serviceName" text
    ∷ required "template" (ref "core.v1" "PodTemplateSpec")
    ∷ optional "podManagementPolicy" text
    ∷ optional "replicas" number
    ∷ optional "revisionHistoryLimit" number
    ∷ optional "selector" (ref "meta.v1" "LabelSelector")
    ∷ optional "updateStrategy" (ref "apps.v1beta1" "StatefulSetUpdateStrategy")
    ∷ optional "volumeClaimTemplates" (list (ref "core.v1" "PersistentVolumeClaim"))
    ∷ [])

abbrev pub stateful_set_status : Interface
stateful_set_status = interface "StatefulSetStatus" (
    required "replicas" number
    ∷ optional "collisionCount" number
    ∷ optional "conditions" (list (ref "apps.v1beta1" "StatefulSetCondition"))
    ∷ optional "currentReplicas" number
    ∷ optional "currentRevision" text
    ∷ optional "observedGeneration" number
    ∷ optional "readyReplicas" number
    ∷ optional "updateRevision" text
    ∷ optional "updatedReplicas" number
    ∷ [])

abbrev pub stateful_set_update_strategy : Interface
stateful_set_update_strategy = interface "StatefulSetUpdateStrategy" (
    optional "rollingUpdate" (ref "apps.v1beta1" "RollingUpdateStatefulSetStrategy")
    ∷ optional "type" text
    ∷ [])

abbrev pub interfaces : List Interface
interfaces =
    controller_revision ∷ controller_revision_list ∷ deployment ∷ deployment_condition
    ∷ deployment_list ∷ deployment_rollback ∷ deployment_spec ∷ deployment_status
    ∷ deployment_strategy ∷ rollback_config ∷ rolling_update_deployment
    ∷ rolling_update_stateful_set_strategy ∷ scale ∷ scale_spec ∷ scale_status ∷ stateful_set
    ∷ stateful_set_condition ∷ stateful_set_list ∷ stateful_set_spec ∷ stateful_set_status
    ∷ stateful_set_update_strategy ∷ []
