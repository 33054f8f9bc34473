-- ===== src/Types/Output/AppsV1/FromReplicaSet.antt =====
-- The interfaces of `apps.v1` in pack/nodejs/types/output.ts from ReplicaSet to StatefulSetUpdateStrategy.
use pulumi_kubernetes.Common.{List, [], ◌∷◌}
use pulumi_kubernetes.Types.Shape.{
  Interface, interface, readonly, text, number, number_or_text, list, ref,
}

abbrev pub replica_set : Interface
replica_set = interface "ReplicaSet" (
    readonly "apiVersion" text
    ∷ readonly "kind" text
    ∷ readonly "metadata" (ref "meta.v1" "ObjectMeta")
    ∷ readonly "spec" (ref "apps.v1" "ReplicaSetSpec")
    ∷ readonly "status" (ref "apps.v1" "ReplicaSetStatus")
    ∷ [])

abbrev pub replica_set_condition : Interface
replica_set_condition = interface "ReplicaSetCondition" (
    readonly "lastTransitionTime" text
    ∷ readonly "message" text
    ∷ readonly "reason" text
    ∷ readonly "status" text
    ∷ readonly "type" text
    ∷ [])

abbrev pub replica_set_list : Interface
replica_set_list = interface "ReplicaSetList" (
    readonly "apiVersion" text
    ∷ readonly "items" (list (ref "apps.v1" "ReplicaSet"))
    ∷ readonly "kind" text
    ∷ readonly "metadata" (ref "meta.v1" "ListMeta")
    ∷ [])

abbrev pub replica_set_spec : Interface
replica_set_spec = interface "ReplicaSetSpec" (
    readonly "minReadySeconds" number
    ∷ readonly "replicas" number
    ∷ readonly "selector" (ref "meta.v1" "LabelSelector")
    ∷ readonly "template" (ref "core.v1" "PodTemplateSpec")
    ∷ [])

abbrev pub replica_set_status : Interface
replica_set_status = interface "ReplicaSetStatus" (
    readonly "availableReplicas" number
    ∷ readonly "conditions" (list (ref "apps.v1" "ReplicaSetCondition"))
    ∷ readonly "fullyLabeledReplicas" number
    ∷ readonly "observedGeneration" number
    ∷ readonly "readyReplicas" number
    ∷ readonly "replicas" number
    ∷ [])

abbrev pub rolling_update_daemon_set : Interface
rolling_update_daemon_set =
    interface "RollingUpdateDaemonSet" (readonly "maxUnavailable" number_or_text ∷ [])

abbrev pub rolling_update_deployment : Interface
rolling_update_deployment =
    interface "RollingUpdateDeployment"
      (readonly "maxSurge" number_or_text ∷ readonly "maxUnavailable" number_or_text ∷ [])

abbrev pub rolling_update_stateful_set_strategy : Interface
rolling_update_stateful_set_strategy =
    interface "RollingUpdateStatefulSetStrategy" (readonly "partition" number ∷ [])

abbrev pub stateful_set : Interface
stateful_set = interface "StatefulSet" (
    readonly "apiVersion" text
    ∷ readonly "kind" text
    ∷ readonly "metadata" (ref "meta.v1" "ObjectMeta")
    ∷ readonly "spec" (ref "apps.v1" "StatefulSetSpec")
    ∷ readonly "status" (ref "apps.v1" "StatefulSetStatus")
    ∷ [])

abbrev pub stateful_set_condition : Interface
stateful_set_condition = interface "StatefulSetCondition" (
    readonly "lastTransitionTime" text
    ∷ readonly "message" text
    ∷ readonly "reason" text
    ∷ readonly "status" text
    ∷ readonly "type" text
    ∷ [])

abbrev pub stateful_set_list : Interface
stateful_set_list = interface "StatefulSetList" (
    readonly "apiVersion" text
    ∷ readonly "items" (list (ref "apps.v1" "StatefulSet"))
    ∷ readonly "kind" text
    ∷ readonly "metadata" (ref "meta.v1" "ListMeta")
    ∷ [])

abbrev pub stateful_set_spec : Interface
stateful_set_spec = interface "StatefulSetSpec" (
    readonly "podManagementPolicy" text
    ∷ readonly "replicas" number
    ∷ readonly "revisionHistoryLimit" number
    ∷ readonly "selector" (ref "meta.v1" "LabelSelector")
    ∷ readonly "serviceName" text
    ∷ readonly "template" (ref "core.v1" "PodTemplateSpec")
    ∷ readonly "updateStrategy" (ref "apps.v1" "StatefulSetUpdateStrategy")
    ∷ readonly "volumeClaimTemplates" (list (ref "core.v1" "PersistentVolumeClaim"))
    ∷ [])

abbrev pub stateful_set_status : Interface
stateful_set_status = interface "StatefulSetStatus" (
    readonly "collisionCount" number
    ∷ readonly "conditions" (list (ref "apps.v1" "StatefulSetCondition"))
    ∷ readonly "currentReplicas" number
    ∷ readonly "currentRevision" text
    ∷ readonly "observedGeneration" number
    ∷ readonly "readyReplicas" number
    ∷ readonly "replicas" number
    ∷ readonly "updateRevision" text
    ∷ readonly "updatedReplicas" number
    ∷ [])

abbrev pub stateful_set_update_strategy : Interface
stateful_set_update_strategy = interface "StatefulSetUpdateStrategy" (
    readonly "rollingUpdate" (ref "apps.v1" "RollingUpdateStatefulSetStrategy")
    ∷ readonly "type" text
    ∷ [])

abbrev pub interfaces : List Interface
interfaces =
    replica_set ∷ replica_set_condition ∷ replica_set_list ∷ replica_set_spec ∷ replica_set_status
    ∷ rolling_update_daemon_set ∷ rolling_update_deployment ∷ rolling_update_stateful_set_strategy
    ∷ stateful_set ∷ stateful_set_condition ∷ stateful_set_list ∷ stateful_set_spec
    ∷ stateful_set_status ∷ stateful_set_update_strategy ∷ []
