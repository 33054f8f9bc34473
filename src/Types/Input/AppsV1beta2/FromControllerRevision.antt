-- ===== src/Types/Input/AppsV1beta2/FromControllerRevision.antt =====
-- The interfaces of `apps.v1beta2` in pack/nodejs/types/input.ts from ControllerRevision to ReplicaSet.
use pulumi_kubernetes.Common.{List, [], ◌∷◌}
use pulumi_kubernetes.Types.Shape.{
  Interface, guarded, interface, required, optional, text, number, boolean, list, ref,
}

abbrev pub controller_revision : Interface
controller_revision = guarded "ControllerRevision" "apps/v1beta2" "ControllerRevision" (
    required "revision" number
    ∷ optional "apiVersion" text
    ∷ optional "data" (ref "pkg.runtime" "RawExtension")
    ∷ optional "kind" text
    ∷ optional "metadata" (ref "meta.v1" "ObjectMeta")
    ∷ [])

abbrev pub controller_revision_list : Interface
controller_revision_list =
    guarded "ControllerRevisionList" "apps/v1beta2" "ControllerRevisionList" (
      required "items" (list (ref "apps.v1beta2" "ControllerRevision"))
      ∷ optional "apiVersion" text
      ∷ optional "kind" text
      ∷ optional "metadata" (ref "meta.v1" "ListMeta")
      ∷ [])

abbrev pub daemon_set : Interface
daemon_set = guarded "DaemonSet" "apps/v1beta2" "DaemonSet" (
    optional "apiVersion" text
    ∷ optional "kind" text
    ∷ optional "metadata" (ref "meta.v1" "ObjectMeta")
    ∷ optional "spec" (ref "apps.v1beta2" "DaemonSetSpec")
    ∷ optional "status" (ref "apps.v1beta2" "DaemonSetStatus")
    ∷ [])

abbrev pub daemon_set_condition : Interface
daemon_set_condition = interface "DaemonSetCondition" (
    required "status" text
    ∷ required "type" text
    ∷ optional "lastTransitionTime" text
    ∷ optional "message" text
    ∷ optional "reason" text
    ∷ [])

abbrev pub daemon_set_list : Interface
daemon_set_list = guarded "DaemonSetList" "apps/v1beta2" "DaemonSetList" (
    required "items" (list (ref "apps.v1beta2" "DaemonSet"))
    ∷ optional "apiVersion" text
    ∷ optional "kind" text
    ∷ optional "metadata" (ref "meta.v1" "ListMeta")
    ∷ [])

abbrev pub daemon_set_spec : Interface
daemon_set_spec = interface "DaemonSetSpec" (
    required "selector" (ref "meta.v1" "LabelSelector")
    ∷ required "template" (ref "core.v1" "PodTemplateSpec")
    ∷ optional "minReadySeconds" number
    ∷ optional "revisionHistoryLimit" number
    ∷ optional "updateStrategy" (ref "apps.v1beta2" "DaemonSetUpdateStrategy")
    ∷ [])

abbrev pub daemon_set_status : Interface
daemon_set_status = interface "DaemonSetStatus" (
    required "currentNumberScheduled" number
    ∷ required "desiredNumberScheduled" number
    ∷ required "numberMisscheduled" number
    ∷ required "numberReady" number
    ∷ optional "collisionCount" number
    ∷ optional "conditions" (list (ref "apps.v1beta2" "DaemonSetCondition"))
    ∷ optional "numberAvailable" number
    ∷ optional "numberUnavailable" number
    ∷ optional "observedGeneration" number
    ∷ optional "updatedNumberScheduled" number
    ∷ [])

abbrev pub daemon_set_update_strategy : Interface
daemon_set_update_strategy = interface "DaemonSetUpdateStrategy" (
    optional "rollingUpdate" (ref "apps.v1beta2" "RollingUpdateDaemonSet")
    ∷ optional "type" text
    ∷ [])

abbrev pub deployment : Interface
deployment = guarded "Deployment" "apps/v1beta2" "Deployment" (
    optional "apiVersion" text
    ∷ optional "kind" text
    ∷ optional "metadata" (ref "meta.v1" "ObjectMeta")
    ∷ optional "spec" (ref "apps.v1beta2" "DeploymentSpec")
    ∷ optional "status" (ref "apps.v1beta2" "DeploymentStatus")
    ∷ [])

abbrev pub deployment_condition : Interface
deployment_condition = interface "DeploymentCondition" (
    required "status" text
    ∷ required "type" text
    ∷ optional "lastTransitionTime" text
    ∷ optional "lastUpdateTime" text
    ∷ optional "message" text
    ∷ optional "reason" text
    ∷ [])

abbrev pub deployment_list : Interface
deployment_list = guarded "DeploymentList" "apps/v1beta2" "DeploymentList" (
    required "items" (list (ref "apps.v1beta2" "Deployment"))
    ∷ optional "apiVersion" text
    ∷ optional "kind" text
    ∷ optional "metadata" (ref "meta.v1" "ListMeta")
    ∷ [])

abbrev pub deployment_spec : Interface
deployment_spec = interface "DeploymentSpec" (
    required "selector" (ref "meta.v1" "LabelSelector")
    ∷ required "template" (ref "core.v1" "PodTemplateSpec")
    ∷ optional "minReadySeconds" number
    ∷ optional "paused" boolean
    ∷ optional "progressDeadlineSeconds" number
    ∷ optional "replicas" number
    ∷ optional "revisionHistoryLimit" number
    ∷ optional "strategy" (ref "apps.v1beta2" "DeploymentStrategy")
    ∷ [])

abbrev pub deployment_status : Interface
deployment_status = interface "DeploymentStatus" (
    optional "availableReplicas" number
    ∷ optional "collisionCount" number
    ∷ optional "conditions" (list (ref "apps.v1beta2" "DeploymentCondition"))
    ∷ optional "observedGeneration" number
    ∷ optional "readyReplicas" number
    ∷ optional "replicas" number
    ∷ optional "unavailableReplicas" number
    ∷ optional "updatedReplicas" number
    ∷ [])

abbrev pub deployment_strategy : Interface
deployment_strategy = interface "DeploymentStrategy" (
    optional "rollingUpdate" (ref "apps.v1beta2" "RollingUpdateDeployment")
    ∷ optional "type" text
    ∷ [])

abbrev pub replica_set : Interface
replica_set = guarded "ReplicaSet" "apps/v1beta2" "ReplicaSet" (
    optional "apiVersion" text
    ∷ optional "kind" text
    ∷ optional "metadata" (ref "meta.v1" "ObjectMeta")
    ∷ optional "spec" (ref "apps.v1beta2" "ReplicaSetSpec")
    ∷ optional "status" (ref "apps.v1beta2" "ReplicaSetStatus")
    ∷ [])

abbrev pub interfaces : List Interface
interfaces =
    controller_revision ∷ controller_revision_list ∷ daemon_set ∷ daemon_set_condition
    ∷ daemon_set_list ∷ daemon_set_spec ∷ daemon_set_status ∷ daemon_set_update_strategy
    ∷ deployment ∷ deployment_condition ∷ deployment_list ∷ deployment_spec ∷ deployment_status
    ∷ deployment_strategy ∷ replica_set ∷ []
