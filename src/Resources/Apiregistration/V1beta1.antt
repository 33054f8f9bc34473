-- ===== src/Resources/Apiregistration/V1beta1.antt =====
-- The classes of the namespace `apiregistration.v1beta1` of pack/nodejs/provider.ts.
use pulumi_kubernetes.Common.{[], ◌∷◌}
use pulumi_kubernetes.Resources.Class.{ResourceClass, assign, copy}

abbrev pub api_service : ResourceClass
api_service = record {
  name = ("apiregistration.v1beta1", "APIService");
  token = "kubernetes:apiregistration/v1beta1:APIService";
  args = ("apiregistration.v1beta1", "APIService");
  outputs =
      ("apiVersion", "string")
      ∷ ("kind", "string")
      ∷ ("metadata", "outputApi.meta.v1.ObjectMeta")
      ∷ ("spec", "outputApi.apiregistration.v1beta1.APIServiceSpec")
      ∷ ("status", "outputApi.apiregistration.v1beta1.APIServiceStatus")
      ∷ [];
  inputs =
      assign "apiVersion" "apiregistration/v1beta1"
      ∷ assign "kind" "APIService"
      ∷ copy "metadata"
      ∷ copy "spec"
      ∷ copy "status"
      ∷ [];
}

abbrev pub api_service_list : ResourceClass
api_service_list = record {
  name = ("apiregistration.v1beta1", "APIServiceList");
  token = "kubernetes:apiregistration/v1beta1:APIServiceList";
  args = ("apiregistration.v1beta1", "APIServiceList");
  outputs =
      ("apiVersion", "string")
      ∷ ("items", "outputApi.apiregistration.v1beta1.APIService[]")
      ∷ ("kind", "string")
      ∷ ("metadata", "outputApi.meta.v1.ListMeta")
      ∷ [];
  inputs =
      assign "apiVersion" "apiregistration/v1beta1"
      ∷ copy "items"
      ∷ assign "kind" "APIServiceList"
      ∷ copy "metadata"
      ∷ [];
}
