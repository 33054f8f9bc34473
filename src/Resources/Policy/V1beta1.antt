-- ===== src/Resources/Policy/V1beta1.antt =====
-- The classes of the namespace `policy.v1beta1` of pack/nodejs/provider.ts.
use pulumi_kubernetes.Common.{[], ◌∷◌}
use pulumi_kubernetes.Resources.Class.{ResourceClass, assign, copy}

abbrev pub eviction : ResourceClass
eviction = record {
  name = ("policy.v1beta1", "Eviction");
  token = "kubernetes:policy/v1beta1:Eviction";
  args = ("policy.v1beta1", "Eviction");
  outputs =
      ("apiVersion", "string")
      ∷ ("deleteOptions", "outputApi.meta.v1.DeleteOptions")
      ∷ ("kind", "string")
      ∷ ("metadata", "outputApi.meta.v1.ObjectMeta")
      ∷ [];
  inputs =
      assign "apiVersion" "policy/v1beta1"
      ∷ copy "deleteOptions"
      ∷ assign "kind" "Eviction"
      ∷ copy "metadata"
      ∷ [];
}

abbrev pub pod_disruption_budget : ResourceClass
pod_disruption_budget = record {
  name = ("policy.v1beta1", "PodDisruptionBudget");
  token = "kubernetes:policy/v1beta1:PodDisruptionBudget";
  args = ("policy.v1beta1", "PodDisruptionBudget");
  outputs =
      ("apiVersion", "string")
      ∷ ("kind", "string")
      ∷ ("metadata", "outputApi.meta.v1.ObjectMeta")
      ∷ ("spec", "outputApi.policy.v1beta1.PodDisruptionBudgetSpec")
      ∷ ("status", "outputApi.policy.v1beta1.PodDisruptionBudgetStatus")
      ∷ [];
  inputs =
      assign "apiVersion" "policy/v1beta1"
      ∷ assign "kind" "PodDisruptionBudget"
      ∷ copy "metadata"
      ∷ copy "spec"
      ∷ copy "status"
      ∷ [];
}

abbrev pub pod_disruption_budget_list : ResourceClass
pod_disruption_budget_list = record {
  name = ("policy.v1beta1", "PodDisruptionBudgetList");
  token = "kubernetes:policy/v1beta1:PodDisruptionBudgetList";
  args = ("policy.v1beta1", "PodDisruptionBudgetList");
  outputs =
      ("apiVersion", "string")
      ∷ ("items", "outputApi.policy.v1beta1.PodDisruptionBudget[]")
      ∷ ("kind", "string")
      ∷ ("metadata", "outputApi.meta.v1.ListMeta")
      ∷ [];
  inputs =
      assign "apiVersion" "policy/v1beta1"
      ∷ copy "items"
      ∷ assign "kind" "PodDisruptionBudgetList"
      ∷ copy "metadata"
      ∷ [];
}
