-- ===== src/Types/Input/AutoscalingV2beta1.antt =====
-- The interfaces of the namespace `autoscaling.v2beta1` of pack/nodejs/types/input.ts.
use pulumi_kubernetes.Common.{List, [], ◌∷◌}
use pulumi_kubernetes.Types.Shape.{
  Interface, guarded, interface, required, optional, text, number, list, ref,
}

abbrev pub cross_version_object_reference : Interface
cross_version_object_reference =
    guarded "CrossVersionObjectReference" "autoscaling/v2beta1" "CrossVersionObjectReference"
      (required "kind" text ∷ required "name" text ∷ optional "apiVersion" text ∷ [])

abbrev pub horizontal_pod_autoscaler : Interface
horizontal_pod_autoscaler =
    guarded "HorizontalPodAutoscaler" "autoscaling/v2beta1" "HorizontalPodAutoscaler" (
      optional "apiVersion" text
      ∷ optional "kind" text
      ∷ optional "metadata" (ref "meta.v1" "ObjectMeta")
      ∷ optional "spec" (ref "autoscaling.v2beta1" "HorizontalPodAutoscalerSpec")
      ∷ optional "status" (ref "autoscaling.v2beta1" "HorizontalPodAutoscalerStatus")
      ∷ [])

abbrev pub horizontal_pod_autoscaler_condition : Interface
horizontal_pod_autoscaler_condition = interface "HorizontalPodAutoscalerCondition" (
    required "status" text
    ∷ required "type" text
    ∷ optional "lastTransitionTime" text
    ∷ optional "message" text
    ∷ optional "reason" text
    ∷ [])

abbrev pub horizontal_pod_autoscaler_list : Interface
horizontal_pod_autoscaler_list =
    guarded "HorizontalPodAutoscalerList" "autoscaling/v2beta1" "HorizontalPodAutoscalerList" (
      required "items" (list (ref "autoscaling.v2beta1" "HorizontalPodAutoscaler"))
      ∷ optional "apiVersion" text
      ∷ optional "kind" text
      ∷ optional "metadata" (ref "meta.v1" "ListMeta")
      ∷ [])

abbrev pub horizontal_pod_autoscaler_spec : Interface
horizontal_pod_autoscaler_spec = interface "HorizontalPodAutoscalerSpec" (
    required "maxReplicas" number
    ∷ required "scaleTargetRef" (ref "autoscaling.v2beta1" "CrossVersionObjectReference")
    ∷ optional "metrics" (list (ref "autoscaling.v2beta1" "MetricSpec"))
    ∷ optional "minReplicas" number
    ∷ [])

abbrev pub horizontal_pod_autoscaler_status : Interface
horizontal_pod_autoscaler_status = interface "HorizontalPodAutoscalerStatus" (
    required "conditions" (list (ref "autoscaling.v2beta1" "HorizontalPodAutoscalerCondition"))
    ∷ required "currentMetrics" (list (ref "autoscaling.v2beta1" "MetricStatus"))
    ∷ required "currentReplicas" number
    ∷ required "desiredReplicas" number
    ∷ optional "lastScaleTime" text
    ∷ optional "observedGeneration" number
    ∷ [])

abbrev pub metric_spec : Interface
metric_spec = interface "MetricSpec" (
    required "type" text
    ∷ optional "object" (ref "autoscaling.v2beta1" "ObjectMetricSource")
    ∷ optional "pods" (ref "autoscaling.v2beta1" "PodsMetricSource")
    ∷ optional "resource" (ref "autoscaling.v2beta1" "ResourceMetricSource")
    ∷ [])

abbrev pub metric_status : Interface
metric_status = interface "MetricStatus" (
    required "type" text
    ∷ optional "object" (ref "autoscaling.v2beta1" "ObjectMetricStatus")
    ∷ optional "pods" (ref "autoscaling.v2beta1" "PodsMetricStatus")
    ∷ optional "resource" (ref "autoscaling.v2beta1" "ResourceMetricStatus")
    ∷ [])

abbrev pub object_metric_source : Interface
object_metric_source = interface "ObjectMetricSource" (
    required "metricName" text
    ∷ required "target" (ref "autoscaling.v2beta1" "CrossVersionObjectReference")
    ∷ required "targetValue" text
    ∷ [])

abbrev pub object_metric_status : Interface
object_metric_status = interface "ObjectMetricStatus" (
    required "currentValue" text
    ∷ required "metricName" text
    ∷ required "target" (ref "autoscaling.v2beta1" "CrossVersionObjectReference")
    ∷ [])

abbrev pub pods_metric_source : Interface
pods_metric_source =
    interface "PodsMetricSource"
      (required "metricName" text ∷ required "targetAverageValue" text ∷ [])

abbrev pub pods_metric_status : Interface
pods_metric_status =
    interface "PodsMetricStatus"
      (required "currentAverageValue" text ∷ required "metricName" text ∷ [])

abbrev pub resource_metric_source : Interface
resource_metric_source = interface "ResourceMetricSource" (
    required "name" text
    ∷ optional "targetAverageUtilization" number
    ∷ optional "targetAverageValue" text
    ∷ [])

abbrev pub resource_metric_status : Interface
resource_metric_status = interface "ResourceMetricStatus" (
    required "currentAverageValue" text
    ∷ required "name" text
    ∷ optional "currentAverageUtilization" number
    ∷ [])

abbrev pub interfaces : List Interface
interfaces =
    cross_version_object_reference ∷ horizontal_pod_autoscaler ∷ horizontal_pod_autoscaler_condition
    ∷ horizontal_pod_autoscaler_list ∷ horizontal_pod_autoscaler_spec
    ∷ horizontal_pod_autoscaler_status ∷ metric_spec ∷ metric_status ∷ object_metric_source
    ∷ object_metric_status ∷ pods_metric_source ∷ pods_metric_status ∷ resource_metric_source
    ∷ resource_metric_status ∷ []
