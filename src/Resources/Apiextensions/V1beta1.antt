-- ===== src/Resources/Apiextensions/V1beta1.antt =====
-- The classes of the namespace `apiextensions.v1beta1` of pack/nodejs/provider.ts.
use pulumi_kubernetes.Common.{[], ◌∷◌}
use pulumi_kubernetes.Resources.Class.{ResourceClass, assign, copy}

abbrev pub custom_resource_definition : ResourceClass
custom_resource_definition = record {
  name = ("apiextensions.v1beta1", "CustomResourceDefinition");
  token = "kubernetes:apiextensions.k8s.io/v1beta1:CustomResourceDefinition";
  args = ("apiextensions.v1beta1", "CustomResourceDefinition");
  outputs =
      ("apiVersion", "string")
      ∷ ("kind", "string")
      ∷ ("metadata", "outputApi.meta.v1.ObjectMeta")
      ∷ ("spec", "outputApi.apiextensions.v1beta1.CustomResourceDefinitionSpec")
      ∷ ("status", "outputApi.apiextensions.v1beta1.CustomResourceDefinitionStatus")
      ∷ [];
  inputs =
      assign "apiVersion" "apiextensions.k8s.io/v1beta1"
      ∷ assign "kind" "CustomResourceDefinition"
      ∷ copy "metadata"
      ∷ copy "spec"
      ∷ copy "status"
      ∷ [];
}

abbrev pub custom_resource_definition_list : ResourceClass
custom_resource_definition_list = record {
  name = ("apiextensions.v1beta1", "CustomResourceDefinitionList");
  token = "kubernetes:apiextensions.k8s.io/v1beta1:CustomResourceDefinitionList";
  args = ("apiextensions.v1beta1", "CustomResourceDefinitionList");
  outputs =
      ("apiVersion", "string")
      ∷ ("items", "outputApi.apiextensions.v1beta1.CustomResourceDefinition[]")
      ∷ ("kind", "string")
      ∷ ("metadata", "outputApi.meta.v1.ListMeta")
      ∷ [];
  inputs =
      assign "apiVersion" "apiextensions.k8s.io/v1beta1"
      ∷ copy "items"
      ∷ assign "kind" "CustomResourceDefinitionList"
      ∷ copy "metadata"
      ∷ [];
}
