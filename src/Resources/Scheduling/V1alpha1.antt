-- ===== src/Resources/Scheduling/V1alpha1.antt =====
-- The classes of the namespace `scheduling.v1alpha1` of pack/nodejs/provider.ts.
use pulumi_kubernetes.Common.{[], ◌∷◌}
use pulumi_kubernetes.Resources.Class.{ResourceClass, assign, copy}

abbrev pub priority_class : ResourceClass
priority_class = record {
  name = ("scheduling.v1alpha1", "PriorityClass");
  token = "kubernetes:scheduling.k8s.io/v1alpha1:PriorityClass";
  args = ("scheduling.v1alpha1", "PriorityClass");
  outputs =
      ("apiVersion", "string")
      ∷ ("description", "string")
      ∷ ("globalDefault", "boolean")
      ∷ ("kind", "string")
      ∷ ("metadata", "outputApi.meta.v1.ObjectMeta")
      ∷ ("value", "number")
      ∷ [];
  inputs =
      assign "apiVersion" "scheduling.k8s.io/v1alpha1"
      ∷ copy "description"
      ∷ copy "globalDefault"
      ∷ assign "kind" "PriorityClass"
      ∷ copy "metadata"
      ∷ copy "value"
      ∷ [];
}

abbrev pub priority_class_list : ResourceClass
priority_class_list = record {
  name = ("scheduling.v1alpha1", "PriorityClassList");
  token = "kubernetes:scheduling.k8s.io/v1alpha1:PriorityClassList";
  args = ("scheduling.v1alpha1", "PriorityClassList");
  outputs =
      ("apiVersion", "string")
      ∷ ("items", "outputApi.scheduling.v1alpha1.PriorityClass[]")
      ∷ ("kind", "string")
      ∷ ("metadata", "outputApi.meta.v1.ListMeta")
      ∷ [];
  inputs =
      assign "apiVersion" "scheduling.k8s.io/v1alpha1"
      ∷ copy "items"
      ∷ assign "kind" "PriorityClassList"
      ∷ copy "metadata"
      ∷ [];
}
