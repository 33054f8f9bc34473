-- ===== src/Types/Input/AutoscalingV1.antt =====
-- The interfaces of the namespace `autoscaling.v1` of pack/nodejs/types/input.ts.
use pulumi_kubernetes.Common.{List, [], ◌∷◌}
use pulumi_kubernetes.Types.Shape.{
  Interface, guarded, interface, required, optional, text, number, list, ref,
}

abbrev pub cross_version_object_reference : Interface
cross_version_object_reference =
    guarded "CrossVersionObjectReference" "autoscaling/v1" "CrossVersionObjectReference"
      (required "kind" text ∷ required "name" text ∷ optional "apiVersion" text ∷ [])

abbrev pub horizontal_pod_autoscaler : Interface
horizontal_pod_autoscaler =
    guarded "HorizontalPodAutoscaler" "autoscaling/v1" "HorizontalPodAutoscaler" (
      optional "apiVersion" text
      ∷ optional "kind" text
      ∷ optional "metadata" (ref "meta.v1" "ObjectMeta")
      ∷ optional "spec" (ref "autoscaling.v1" "HorizontalPodAutoscalerSpec")
      ∷ optional "status" (ref "autoscaling.v1" "HorizontalPodAutoscalerStatus")
      ∷ [])

abbrev pub horizontal_pod_autoscaler_list : Interface
horizontal_pod_autoscaler_list =
    guarded "HorizontalPodAutoscalerList" "autoscaling/v1" "HorizontalPodAutoscalerList" (
      required "items" (list (ref "autoscaling.v1" "HorizontalPodAutoscaler"))
      ∷ optional "apiVersion" text
      ∷ optional "kind" text
      ∷ optional "metadata" (ref "meta.v1" "ListMeta")
      ∷ [])

abbrev pub horizontal_pod_autoscaler_spec : Interface
horizontal_pod_autoscaler_spec = interface "HorizontalPodAutoscalerSpec" (
    required "maxReplicas" number
    ∷ required "scaleTargetRef" (ref "autoscaling.v1" "CrossVersionObjectReference")
    ∷ optional "minReplicas" number
    ∷ optional "targetCPUUtilizationPercentage" number
    ∷ [])

abbrev pub horizontal_pod_autoscaler_status : Interface
horizontal_pod_autoscaler_status = interface "HorizontalPodAutoscalerStatus" (
    required "currentReplicas" number
    ∷ required "desiredReplicas" number
    ∷ optional "currentCPUUtilizationPercentage" number
    ∷ optional "lastScaleTime" text
    ∷ optional "observedGeneration" number
    ∷ [])

abbrev pub scale : Interface
scale = guarded "Scale" "autoscaling/v1" "Scale" (
    optional "apiVersion" text
    ∷ optional "kind" text
    ∷ optional "metadata" (ref "meta.v1" "ObjectMeta")
    ∷ optional "spec" (ref "autoscaling.v1" "ScaleSpec")
    ∷ optional "status" (ref "autoscaling.v1" "ScaleStatus")
    ∷ [])

abbrev pub scale_spec : Interface
scale_spec = interface "ScaleSpec" (optional "replicas" number ∷ [])

abbrev pub scale_status : Interface
scale_status = interface "ScaleStatus" (required "replicas" number ∷ optional "selector" text ∷ [])

abbrev pub interfaces : List Interface
interfaces =
    cross_version_object_reference ∷ horizontal_pod_autoscaler ∷ horizontal_pod_autoscaler_list
    ∷ horizontal_pod_autoscaler_spec ∷ horizontal_pod_autoscaler_status ∷ scale ∷ scale_spec
    ∷ scale_status ∷ []
