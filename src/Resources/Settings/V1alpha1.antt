-- ===== src/Resources/Settings/V1alpha1.antt =====
-- The classes of the namespace `settings.v1alpha1` of pack/nodejs/provider.ts.
use pulumi_kubernetes.Common.{[], ◌∷◌}
use pulumi_kubernetes.Resources.Class.{ResourceClass, assign, copy}

abbrev pub pod_preset : ResourceClass
pod_preset = record {
  name = ("settings.v1alpha1", "PodPreset");
  token = "kubernetes:settings.k8s.io/v1alpha1:PodPreset";
  args = ("settings.v1alpha1", "PodPreset");
  outputs =
      ("apiVersion", "string")
      ∷ ("kind", "string")
      ∷ ("metadata", "outputApi.meta.v1.ObjectMeta")
      ∷ ("spec", "outputApi.settings.v1alpha1.PodPresetSpec")
      ∷ [];
  inputs =
      assign "apiVersion" "settings.k8s.io/v1alpha1"
      ∷ assign "kind" "PodPreset"
      ∷ copy "metadata"
      ∷ copy "spec"
      ∷ [];
}

abbrev pub pod_preset_list : ResourceClass
pod_preset_list = record {
  name = ("settings.v1alpha1", "PodPresetList");
  token = "kubernetes:settings.k8s.io/v1alpha1:PodPresetList";
  args = ("settings.v1alpha1", "PodPresetList");
  outputs =
      ("apiVersion", "string")
      ∷ ("items", "outputApi.settings.v1alpha1.PodPreset[]")
      ∷ ("kind", "string")
      ∷ ("metadata", "outputApi.meta.v1.ListMeta")
      ∷ [];
  inputs =
      assign "apiVersion" "settings.k8s.io/v1alpha1"
      ∷ copy "items"
      ∷ assign "kind" "PodPresetList"
      ∷ copy "metadata"
      ∷ [];
}
