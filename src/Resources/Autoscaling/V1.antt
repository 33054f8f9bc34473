-- ===== src/Resources/Autoscaling/V1.antt =====
-- The classes of the namespace `autoscaling.v1` of pack/nodejs/provider.ts.
use pulumi_kubernetes.Common.{[], ◌∷◌}
use pulumi_kubernetes.Resources.Class.{ResourceClass, assign, copy}

abbrev pub cross_version_object_reference : ResourceClass
cross_version_object_reference = record {
  name = ("autoscaling.v1", "CrossVersionObjectReference");
  token = "kubernetes:autoscaling/v1:CrossVersionObjectReference";
  args = ("autoscaling.v1", "CrossVersionObjectReference");
  outputs = ("apiVersion", "string") ∷ ("kind", "string") ∷ ("name", "string") ∷ [];
  inputs =
      assign "apiVersion" "autoscaling/v1"
      ∷ assign "kind" "CrossVersionObjectReference"
      ∷ copy "name"
      ∷ [];
}

abbrev pub horizontal_pod_autoscaler : ResourceClass
horizontal_pod_autoscaler = record {
  name = ("autoscaling.v1", "HorizontalPodAutoscaler");
  token = "kubernetes:autoscaling/v1:HorizontalPodAutoscaler";
  args = ("autoscaling.v1", "HorizontalPodAutoscaler");
  outputs =
      ("apiVersion", "string")
      ∷ ("kind", "string")
      ∷ ("metadata", "outputApi.meta.v1.ObjectMeta")
      ∷ ("spec", "outputApi.autoscaling.v1.HorizontalPodAutoscalerSpec")
      ∷ ("status", "outputApi.autoscaling.v1.HorizontalPodAutoscalerStatus")
      ∷ [];
  inputs =
      assign "apiVersion" "autoscaling/v1"
      ∷ assign "kind" "HorizontalPodAutoscaler"
      ∷ copy "metadata"
      ∷ copy "spec"
      ∷ copy "status"
      ∷ [];
}

abbrev pub horizontal_pod_autoscaler_list : ResourceClass
horizontal_pod_autoscaler_list = record {
  name = ("autoscaling.v1", "HorizontalPodAutoscalerList");
  token = "kubernetes:autoscaling/v1:HorizontalPodAutoscalerList";
  args = ("autoscaling.v1", "HorizontalPodAutoscalerList");
  outputs =
      ("apiVersion", "string")
      ∷ ("items", "outputApi.autoscaling.v1.HorizontalPodAutoscaler[]")
      ∷ ("kind", "string")
      ∷ ("metadata", "outputApi.meta.v1.ListMeta")
      ∷ [];
  inputs =
      assign "apiVersion" "autoscaling/v1"
      ∷ copy "items"
      ∷ assign "kind" "HorizontalPodAutoscalerList"
      ∷ copy "metadata"
      ∷ [];
}

abbrev pub scale : ResourceClass
scale = record {
  name = ("autoscaling.v1", "Scale");
  token = "kubernetes:autoscaling/v1:Scale";
  args = ("autoscaling.v1", "Scale");
  outputs =
      ("apiVersion", "string")
      ∷ ("kind", "string")
      ∷ ("metadata", "outputApi.meta.v1.ObjectMeta")
      ∷ ("spec", "outputApi.autoscaling.v1.ScaleSpec")
      ∷ ("status", "outputApi.autoscaling.v1.ScaleStatus")
      ∷ [];
  inputs =
      assign "apiVersion" "autoscaling/v1"
      ∷ assign "kind" "Scale"
      ∷ copy "metadata"
      ∷ copy "spec"
      ∷ copy "status"
      ∷ [];
}
