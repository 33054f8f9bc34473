-- ===== src/Types/Output/AutoscalingV1.antt =====
-- The interfaces of the namespace `autoscaling.v1` of pack/nodejs/types/output.ts.
use pulumi_kubernetes.Common.{List, [], ◌∷◌}
use pulumi_kubernetes.Types.Shape.{Interface, interface, readonly, text, number, list, ref}

abbrev pub cross_version_object_reference : Interface
cross_version_object_reference =
    interface "CrossVersionObjectReference"
      (readonly "apiVersion" text ∷ readonly "kind" text ∷ readonly "name" text ∷ [])

abbrev pub horizontal_pod_autoscaler : Interface
horizontal_pod_autoscaler = interface "HorizontalPodAutoscaler" (
    readonly "apiVersion" text
    ∷ readonly "kind" text
    ∷ readonly "metadata" (ref "meta.v1" "ObjectMeta")
    ∷ readonly "spec" (ref "autoscaling.v1" "HorizontalPodAutoscalerSpec")
    ∷ readonly "status" (ref "autoscaling.v1" "HorizontalPodAutoscalerStatus")
    ∷ [])

abbrev pub horizontal_pod_autoscaler_list : Interface
horizontal_pod_autoscaler_list = interface "HorizontalPodAutoscalerList" (
    readonly "apiVersion" text
    ∷ readonly "items" (list (ref "autoscaling.v1" "HorizontalPodAutoscaler"))
    ∷ readonly "kind" text
    ∷ readonly "metadata" (ref "meta.v1" "ListMeta")
    ∷ [])

abbrev pub horizontal_pod_autoscaler_spec : Interface
horizontal_pod_autoscaler_spec = interface "HorizontalPodAutoscalerSpec" (
    readonly "maxReplicas" number
    ∷ readonly "minReplicas" number
    ∷ readonly "scaleTargetRef" (ref "autoscaling.v1" "CrossVersionObjectReference")
    ∷ readonly "targetCPUUtilizationPercentage" number
    ∷ [])

abbrev pub horizontal_pod_autoscaler_status : Interface
horizontal_pod_autoscaler_status = interface "HorizontalPodAutoscalerStatus" (
    readonly "currentCPUUtilizationPercentage" number
    ∷ readonly "currentReplicas" number
    ∷ readonly "desiredReplicas" number
    ∷ readonly "lastScaleTime" text
    ∷ readonly "observedGeneration" number
    ∷ [])

abbrev pub scale : Interface
scale = interface "Scale" (
    readonly "apiVersion" text
    ∷ readonly "kind" text
    ∷ readonly "metadata" (ref "meta.v1" "ObjectMeta")
    ∷ readonly "spec" (ref "autoscaling.v1" "ScaleSpec")
    ∷ readonly "status" (ref "autoscaling.v1" "ScaleStatus")
    ∷ [])

abbrev pub scale_spec : Interface
scale_spec = interface "ScaleSpec" (readonly "replicas" number ∷ [])

abbrev pub scale_status : Interface
scale_status = interface "ScaleStatus" (readonly "replicas" number ∷ readonly "selector" text ∷ [])

abbrev pub interfaces : List Interface
interfaces =
    cross_version_object_reference ∷ horizontal_pod_autoscaler ∷ horizontal_pod_autoscaler_list
    ∷ horizontal_pod_autoscaler_spec ∷ horizontal_pod_autoscaler_status ∷ scale ∷ scale_spec
    ∷ scale_status ∷ []
