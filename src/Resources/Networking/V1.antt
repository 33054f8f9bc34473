-- ===== src/Resources/Networking/V1.antt =====
-- The classes of the namespace `networking.v1` of pack/nodejs/provider.ts.
use pulumi_kubernetes.Common.{[], ◌∷◌}
use pulumi_kubernetes.Resources.Class.{ResourceClass, assign, copy}

abbrev pub network_policy : ResourceClass
network_policy = record {
  name = ("networking.v1", "NetworkPolicy");
  token = "kubernetes:networking.k8s.io/v1:NetworkPolicy";
  args = ("networking.v1", "NetworkPolicy");
  outputs =
      ("apiVersion", "string")
      ∷ ("kind", "string")
      ∷ ("metadata", "outputApi.meta.v1.ObjectMeta")
      ∷ ("spec", "outputApi.networking.v1.NetworkPolicySpec")
      ∷ [];
  inputs =
      assign "apiVersion" "networking.k8s.io/v1"
      ∷ assign "kind" "NetworkPolicy"
      ∷ copy "metadata"
      ∷ copy "spec"
      ∷ [];
}

abbrev pub network_policy_list : ResourceClass
network_policy_list = record {
  name = ("networking.v1", "NetworkPolicyList");
  token = "kubernetes:networking.k8s.io/v1:NetworkPolicyList";
  args = ("networking.v1", "NetworkPolicyList");
  outputs =
      ("apiVersion", "string")
      ∷ ("items", "outputApi.networking.v1.NetworkPolicy[]")
      ∷ ("kind", "string")
      ∷ ("metadata", "outputApi.meta.v1.ListMeta")
      ∷ [];
  inputs =
      assign "apiVersion" "networking.k8s.io/v1"
      ∷ copy "items"
      ∷ assign "kind" "NetworkPolicyList"
      ∷ copy "metadata"
      ∷ [];
}
