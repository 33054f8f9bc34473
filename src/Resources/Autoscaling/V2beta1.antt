-- ===== src/Resources/Autoscaling/V2beta1.antt =====
-- The classes of the namespace `autoscaling.v2beta1` of pack/nodejs/provider.ts.
use pulumi_kubernetes.Common.{[], ◌∷◌}
use pulumi_kubernetes.Resources.Class.{ResourceClass, assign, copy}

abbrev pub cross_version_object_reference : ResourceClass
cross_version_object_reference = record {
  name = ("autoscaling.v2beta1", "CrossVersionObjectReference");
  token = "kubernetes:autoscaling/v2beta1:CrossVersionObjectReference";
  args = ("autoscaling.v2beta1", "CrossVersionObjectReference");
  outputs = ("apiVersion", "string") ∷ ("kind", "string") ∷ ("name", "string") ∷ [];
  inputs =
      assign "apiVersion" "autoscaling/v2beta1"
      ∷ assign "kind" "CrossVersionObjectReference"
      ∷ copy "name"
      ∷ [];
}

abbrev pub horizontal_pod_autoscaler : ResourceClass
horizontal_pod_autoscaler = record {
  name = ("autoscaling.v2beta1", "HorizontalPodAutoscaler");
  token = "kubernetes:autoscaling/v2beta1:HorizontalPodAutoscaler";
  args = ("autoscaling.v2beta1", "HorizontalPodAutoscaler");
  outputs =
      ("apiVersion", "string")
      ∷ ("kind", "string")
      ∷ ("metadata", "outputApi.meta.v1.ObjectMeta")
      ∷ ("spec", "outputApi.autoscaling.v2beta1.HorizontalPodAutoscalerSpec")
      ∷ ("status", "outputApi.autoscaling.v2beta1.HorizontalPodAutoscalerStatus")
      ∷ [];
  inputs =
      assign "apiVersion" "autoscaling/v2beta1"
      ∷ assign "kind" "HorizontalPodAutoscaler"
      ∷ copy "metadata"
      ∷ copy "spec"
      ∷ copy "status"
      ∷ [];
}

abbrev pub horizontal_pod_autoscaler_list : ResourceClass
horizontal_pod_autoscaler_list = record {
  name = ("autoscaling.v2beta1", "HorizontalPodAutoscalerList");
  token = "kubernetes:autoscaling/v2beta1:HorizontalPodAutoscalerList";
  args = ("autoscaling.v2beta1", "HorizontalPodAutoscalerList");
  outputs =
      ("apiVersion", "string")
      ∷ ("items", "outputApi.autoscaling.v2beta1.HorizontalPodAutoscaler[]")
      ∷ ("kind", "string")
      ∷ ("metadata", "outputApi.meta.v1.ListMeta")
      ∷ [];
  inputs =
      assign "apiVersion" "autoscaling/v2beta1"
      ∷ copy "items"
      ∷ assign "kind" "HorizontalPodAutoscalerList"
      ∷ copy "metadata"
      ∷ [];
}
