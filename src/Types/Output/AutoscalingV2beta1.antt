-- ===== src/Types/Output/AutoscalingV2beta1.antt =====
-- The interfaces of the namespace `autoscaling.v2beta1` of pack/nodejs/types/output.ts.
use pulumi_kubernetes.Common.{List, [], ◌∷◌}
use pulumi_kubernetes.Types.Shape.{Interface, interface, readonly, text, number, list, ref}

abbrev pub cross_version_object_reference : Interface
cross_version_object_reference =
    interface "CrossVersionObjectReference"
      (readonly "apiVersion" text ∷ readonly "kind" text ∷ readonly "name" text ∷ [])

abbrev pub horizontal_pod_autoscaler : Interface
horizontal_pod_autoscaler = interface "HorizontalPodAutoscaler" (
    readonly "apiVersion" text
    ∷ readonly "kind" text
    ∷ readonly "metadata" (ref "meta.v1" "ObjectMeta")
    ∷ readonly "spec" (ref "autoscaling.v2beta1" "HorizontalPodAutoscalerSpec")
    ∷ readonly "status" (ref "autoscaling.v2beta1" "HorizontalPodAutoscalerStatus")
    ∷ [])

abbrev pub horizontal_pod_autoscaler_condition : Interface
horizontal_pod_autoscaler_condition = interface "HorizontalPodAutoscalerCondition" (
    readonly "lastTransitionTime" text
    ∷ readonly "message" text
    ∷ readonly "reason" text
    ∷ readonly "status" text
    ∷ readonly "type" text
    ∷ [])

abbrev pub horizontal_pod_autoscaler_list : Interface
horizontal_pod_autoscaler_list = interface "HorizontalPodAutoscalerList" (
    readonly "apiVersion" text
    ∷ readonly "items" (list (ref "autoscaling.v2beta1" "HorizontalPodAutoscaler"))
    ∷ readonly "kind" text
    ∷ readonly "metadata" (ref "meta.v1" "ListMeta")
    ∷ [])

abbrev pub horizontal_pod_autoscaler_spec : Interface
horizontal_pod_autoscaler_spec = interface "HorizontalPodAutoscalerSpec" (
    readonly "maxReplicas" number
    ∷ readonly "metrics" (list (ref "autoscaling.v2beta1" "MetricSpec"))
    ∷ readonly "minReplicas" number
    ∷ readonly "scaleTargetRef" (ref "autoscaling.v2beta1" "CrossVersionObjectReference")
    ∷ [])

abbrev pub horizontal_pod_autoscaler_status : Interface
horizontal_pod_autoscaler_status = interface "HorizontalPodAutoscalerStatus" (
    readonly "conditions" (list (ref "autoscaling.v2beta1" "HorizontalPodAutoscalerCondition"))
    ∷ readonly "currentMetrics" (list (ref "autoscaling.v2beta1" "MetricStatus"))
    ∷ readonly "currentReplicas" number
    ∷ readonly "desiredReplicas" number
    ∷ readonly "lastScaleTime" text
    ∷ readonly "observedGeneration" number
    ∷ [])

abbrev pub metric_spec : Interface
metric_spec = interface "MetricSpec" (
    readonly "object" (ref "autoscaling.v2beta1" "ObjectMetricSource")
    ∷ readonly "pods" (ref "autoscaling.v2beta1" "PodsMetricSource")
    ∷ readonly "resource" (ref "autoscaling.v2beta1" "ResourceMetricSource")
    ∷ readonly "type" text
    ∷ [])

abbrev pub metric_status : Interface
metric_status = interface "MetricStatus" (
    readonly "object" (ref "autoscaling.v2beta1" "ObjectMetricStatus")
    ∷ readonly "pods" (ref "autoscaling.v2beta1" "PodsMetricStatus")
    ∷ readonly "resource" (ref "autoscaling.v2beta1" "ResourceMetricStatus")
    ∷ readonly "type" text
    ∷ [])

abbrev pub object_metric_source : Interface
object_metric_source = interface "ObjectMetricSource" (
    readonly "metricName" text
    ∷ readonly "target" (ref "autoscaling.v2beta1" "CrossVersionObjectReference")
    ∷ readonly "targetValue" text
    ∷ [])

abbrev pub object_metric_status : Interface
object_metric_status = interface "ObjectMetricStatus" (
    readonly "currentValue" text
    ∷ readonly "metricName" text
    ∷ readonly "target" (ref "autoscaling.v2beta1" "CrossVersionObjectReference")
    ∷ [])

abbrev pub pods_metric_source : Interface
pods_metric_source =
    interface "PodsMetricSource"
      (readonly "metricName" text ∷ readonly "targetAverageValue" text ∷ [])

abbrev pub pods_metric_status : Interface
pods_metric_status =
    interface "PodsMetricStatus"
      (readonly "currentAverageValue" text ∷ readonly "metricName" text ∷ [])

abbrev pub resource_metric_source : Interface
resource_metric_source = interface "ResourceMetricSource" (
    readonly "name" text
    ∷ readonly "targetAverageUtilization" number
    ∷ readonly "targetAverageValue" text
    ∷ [])

abbrev pub resource_metric_status : Interface
resource_metric_status = interface "ResourceMetricStatus" (
    readonly "currentAverageUtilization" number
    ∷ readonly "currentAverageValue" text
    ∷ readonly "name" text
    ∷ [])

abbrev pub interfaces : List Interface
interfaces =
    cross_version_object_reference ∷ horizontal_pod_autoscaler ∷ horizontal_pod_autoscaler_condition
    ∷ horizontal_pod_autoscaler_list ∷ horizontal_pod_autoscaler_spec
    ∷ horizontal_pod_autoscaler_status ∷ metric_spec ∷ metric_status ∷ object_metric_source
    ∷ object_metric_status ∷ pods_metric_source ∷ pods_metric_status ∷ resource_metric_source
    ∷ resource_metric_status ∷ []
