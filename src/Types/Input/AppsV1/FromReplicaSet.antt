-- ===== src/Types/Input/AppsV1/FromReplicaSet.antt =====
-- The interfaces of `apps.v1` in pack/nodejs/types/input.ts from ReplicaSet to StatefulSetUpdateStrategy.
use pulumi_kubernetes.Common.{List, [], ◌∷◌}
use pulumi_kubernetes.Types.Shape.{
  Interface, guarded, interface, required, optional, text, number, number_or_text, list, ref,
}

abbrev pub replica_set : Interface
replica_set = guarded "ReplicaSet" "apps/v1" "ReplicaSet" (
    optional "apiVersion" text
    ∷ optional "kind" text
    ∷ optional "metadata" (ref "meta.v1" "ObjectMeta")
    ∷ optional "spec" (ref "apps.v1" "ReplicaSetSpec")
    ∷ optional "status" (ref "apps.v1" "ReplicaSetStatus")
    ∷ [])

abbrev pub replica_set_condition : Interface
replica_set_condition = interface "ReplicaSetCondition" (
    required "status" text
    ∷ required "type" text
    ∷ optional "lastTransitionTime" text
    ∷ optional "message" text
    ∷ optional "reason" text
    ∷ [])

abbrev pub replica_set_list : Interface
replica_set_list = guarded "ReplicaSetList" "apps/v1" "ReplicaSetList" (
    required "items" (list (ref "apps.v1" "ReplicaSet"))
    ∷ optional "apiVersion" text
    ∷ optional "kind" text
    ∷ optional "metadata" (ref "meta.v1" "ListMeta")
    ∷ [])

abbrev pub replica_set_spec : Interface
replica_set_spec = interface "ReplicaSetSpec" (
    required "selector" (ref "meta.v1" "LabelSelector")
    ∷ optional "minReadySeconds" number
    ∷ optional "replicas" number
    ∷ optional "template" (ref "core.v1" "PodTemplateSpec")
    ∷ [])

abbrev pub replica_set_status : Interface
replica_set_status = interface "ReplicaSetStatus" (
    required "replicas" number
    ∷ optional "availableReplicas" number
    ∷ optional "conditions" (list (ref "apps.v1" "ReplicaSetCondition"))
    ∷ optional "fullyLabeledReplicas" number
    ∷ optional "observedGeneration" number
    ∷ optional "readyReplicas" number
    ∷ [])

abbrev pub rolling_update_daemon_set : Interface
rolling_update_daemon_set =
    interface "RollingUpdateDaemonSet" (optional "maxUnavailable" number_or_text ∷ [])

abbrev pub rolling_update_deployment : Interface
rolling_update_deployment =
    interface "RollingUpdateDeployment"
      (optional "maxSurge" number_or_text ∷ optional "maxUnavailable" number_or_text ∷ [])

abbrev pub rolling_update_stateful_set_strategy : Interface
rolling_update_stateful_set_strategy =
    interface "RollingUpdateStatefulSetStrategy" (optional "partition" number ∷ [])

abbrev pub stateful_set : Interface
stateful_set = guarded "StatefulSet" "apps/v1" "StatefulSet" (
    optional "apiVersion" text
    ∷ optional "kind" text
    ∷ optional "metadata" (ref "meta.v1" "ObjectMeta")
    ∷ optional "spec" (ref "apps.v1" "StatefulSetSpec")
    ∷ optional "status" (ref "apps.v1" "StatefulSetStatus")
    ∷ [])

abbrev pub stateful_set_condition : Interface
stateful_set_condition = interface "StatefulSetCondition" (
    required "status" text
    ∷ required "type" text
    ∷ optional "lastTransitionTime" text
    ∷ optional "message" text
    ∷ optional "reason" text
    ∷ [])

abbrev pub stateful_set_list : Interface
stateful_set_list = guarded "StatefulSetList" "apps/v1" "StatefulSetList" (
    required "items" (list (ref "apps.v1" "StatefulSet"))
    ∷ optional "apiVersion" text
    ∷ optional "kind" text
    ∷ optional "metadata" (ref "meta.v1" "ListMeta")
    ∷ [])

abbrev pub stateful_set_spec : Interface
stateful_set_spec = interface "StatefulSetSpec" (
    required "selector" (ref "meta.v1" "LabelSelector")
    ∷ required "serviceName" text
    ∷ required "template" (ref "core.v1" "PodTemplateSpec")
    ∷ optional "podManagementPolicy" text
    ∷ optional "replicas" number
    ∷ optional "revisionHistoryLimit" number
    ∷ optional "updateStrategy" (ref "apps.v1" "StatefulSetUpdateStrategy")
    ∷ optional "volumeClaimTemplates" (list (ref "core.v1" "PersistentVolumeClaim"))
    ∷ [])

abbrev pub stateful_set_status : Interface
stateful_set_status = interface "StatefulSetStatus" (
    required "replicas" number
    ∷ optional "collisionCount" number
    ∷ optional "conditions" (list (ref "apps.v1" "StatefulSetCondition"))
    ∷ optional "currentReplicas" number
    ∷ optional "currentRevision" text
    ∷ optional "observedGeneration" number
    ∷ optional "readyReplicas" number
    ∷ optional "updateRevision" text
    ∷ optional "updatedReplicas" number
    ∷ [])

abbrev pub stateful_set_update_strategy : Interface
stateful_set_update_strategy = interface "StatefulSetUpdateStrategy" (
    optional "rollingUpdate" (ref "apps.v1" "RollingUpdateStatefulSetStrategy")
    ∷ optional "type" text
    ∷ [])

abbrev pub interfaces : List Interface
interfaces =
    replica_set ∷ replica_set_condition ∷ replica_set_list ∷ replica_set_spec ∷ replica_set_status
    ∷ rolling_update_daemon_set ∷ rolling_update_deployment ∷ rolling_update_stateful_set_strategy
    ∷ stateful_set ∷ stateful_set_condition ∷ stateful_set_list ∷ stateful_set_spec
    ∷ stateful_set_status ∷ stateful_set_update_strategy ∷ []
