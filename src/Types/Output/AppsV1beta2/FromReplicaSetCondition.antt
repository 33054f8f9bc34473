-- ===== src/Types/Output/AppsV1beta2/FromReplicaSetCondition.antt =====
-- The interfaces of `apps.v1beta2` in pack/nodejs/types/output.ts from ReplicaSetCondition to StatefulSetUpdateStrategy.
use pulumi_kubernetes.Common.{List, [], ◌∷◌}
use pulumi_kubernetes.Types.Shape.{
  Interface, interface, readonly, text, number, number_or_text, list, dict, ref,
}

abbrev pub replica_set_condition : Interface
replica_set_condition = interface "ReplicaSetCondition" (
    readonly "lastTransitionTime" text
    ∷ readonly "message" text
    ∷ readonly "reason" text
    ∷ readonly "status" text
    ∷ readonly "type" text
    ∷ [])

abbrev pub replica_set_list : Interface
replica_set_list = interface "ReplicaSetList" (
    readonly "apiVersion" text
    ∷ readonly "items" (list (ref "apps.v1beta2" "ReplicaSet"))
    ∷ readonly "kind" text
    ∷ readonly "metadata" (ref "meta.v1" "ListMeta")
    ∷ [])

abbrev pub replica_set_spec : Interface
replica_set_spec = interface "ReplicaSetSpec" (
    readonly "minReadySeconds" number
    ∷ readonly "replicas" number
    ∷ readonly "selector" (ref "meta.v1" "LabelSelector")
    ∷ readonly "template" (ref "core.v1" "PodTemplateSpec")
    ∷ [])

abbrev pub replica_set_status : Interface
replica_set_status = interface "ReplicaSetStatus" (
    readonly "availableReplicas" number
    ∷ readonly "conditions" (list (ref "apps.v1beta2" "ReplicaSetCondition"))
    ∷ readonly "fullyLabeledReplicas" number
    ∷ readonly "observedGeneration" number
    ∷ readonly "readyReplicas" number
    ∷ readonly "replicas" number
    ∷ [])

abbrev pub rolling_update_daemon_set : Interface
rolling_update_daemon_set =
    interface "RollingUpdateDaemonSet" (readonly "maxUnavailable" number_or_text ∷ [])

abbrev pub rolling_update_deployment : Interface
rolling_update_deployment =
    interface "RollingUpdateDeployment"
      (readonly "maxSurge" number_or_text ∷ readonly "maxUnavailable" number_or_text ∷ [])

abbrev pub rolling_update_stateful_set_strategy : Interface
rolling_update_stateful_set_strategy =
    interface "RollingUpdateStatefulSetStrategy" (readonly "partition" number ∷ [])

abbrev pub scale : Interface
scale = interface "Scale" (
    readonly "apiVersion" text
    ∷ readonly "kind" text
    ∷ readonly "metadata" (ref "meta.v1" "ObjectMeta")
    ∷ readonly "spec" (ref "apps.v1beta2" "ScaleSpec")
    ∷ readonly "status" (ref "apps.v1beta2" "ScaleStatus")
    ∷ [])

abbrev pub scale_spec : Interface
scale_spec = interface "ScaleSpec" (readonly "replicas" number ∷ [])

abbrev pub scale_status : Interface
scale_status = interface "ScaleStatus" (
    readonly "replicas" number
    ∷ readonly "selector" (dict text)
    ∷ readonly "targetSelector" text
    ∷ [])

abbrev pub stateful_set : Interface
stateful_set = interface "StatefulSet" (
    readonly "apiVersion" text
    ∷ readonly "kind" text
    ∷ readonly "metadata" (ref "meta.v1" "ObjectMeta")
    ∷ readonly "spec" (ref "apps.v1beta2" "StatefulSetSpec")
    ∷ readonly "status" (ref "apps.v1beta2" "StatefulSetStatus")
    ∷ [])

abbrev pub stateful_set_condition : Interface
stateful_set_condition = interface "StatefulSetCondition" (
    readonly "lastTransitionTime" text
    ∷ readonly "message" text
    ∷ readonly "reason" text
    ∷ readonly "status" text
    ∷ readonly "type" text
    ∷ [])

abbrev pub stateful_set_list : Interface
stateful_set_list = interface "StatefulSetList" (
    readonly "apiVersion" text
    ∷ readonly "items" (list (ref "apps.v1beta2" "StatefulSet"))
    ∷ readonly "kind" text
    ∷ readonly "metadata" (ref "meta.v1" "ListMeta")
    ∷ [])

abbrev pub stateful_set_spec : Interface
stateful_set_spec = interface "StatefulSetSpec" (
    readonly "podManagementPolicy" text
    ∷ readonly "replicas" number
    ∷ readonly "revisionHistoryLimit" number
    ∷ readonly "selector" (ref "meta.v1" "LabelSelector")
    ∷ readonly "serviceName" text
    ∷ readonly "template" (ref "core.v1" "PodTemplateSpec")
    ∷ readonly "updateStrategy" (ref "apps.v1beta2" "StatefulSetUpdateStrategy")
    ∷ readonly "volumeClaimTemplates" (list (ref "core.v1" "PersistentVolumeClaim"))
    ∷ [])

abbrev pub stateful_set_status : Interface
stateful_set_status = interface "StatefulSetStatus" (
    readonly "collisionCount" number
    ∷ readonly "conditions" (list (ref "apps.v1beta2" "StatefulSetCondition"))
    ∷ readonly "currentReplicas" number
    ∷ readonly "currentRevision" text
    ∷ readonly "observedGeneration" number
    ∷ readonly "readyReplicas" number
    ∷ readonly "replicas" number
    ∷ readonly "updateRevision" text
    ∷ readonly "updatedReplicas" number
    ∷ [])

abbrev pub stateful_set_update_strategy : Interface
stateful_set_update_strategy = interface "StatefulSetUpdateStrategy" (
    readonly "rollingUpdate" (ref "apps.v1beta2" "RollingUpdateStatefulSetStrategy")
    ∷ readonly "type" text
    ∷ [])

abbrev pub interfaces : List Interface
interfaces =
    replica_set_condition ∷ replica_set_list ∷ replica_set_spec ∷ replica_set_status
    ∷ rolling_update_daemon_set ∷ rolling_update_deployment ∷ rolling_update_stateful_set_strategy
    ∷ scale ∷ scale_spec ∷ scale_status ∷ stateful_set ∷ stateful_set_condition ∷ stateful_set_list
    ∷ stateful_set_spec ∷ stateful_set_status ∷ stateful_set_update_strategy ∷ []
