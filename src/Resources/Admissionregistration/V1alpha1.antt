-- ===== src/Resources/Admissionregistration/V1alpha1.antt =====
-- The classes of the namespace `admissionregistration.v1alpha1` of pack/nodejs/provider.ts.
use pulumi_kubernetes.Common.{[], ◌∷◌}
use pulumi_kubernetes.Resources.Class.{ResourceClass, assign, copy}

abbrev pub initializer_configuration : ResourceClass
initializer_configuration = record {
  name = ("admissionregistration.v1alpha1", "InitializerConfiguration");
  token = "kubernetes:admissionregistration.k8s.io/v1alpha1:InitializerConfiguration";
  args = ("admissionregistration.v1alpha1", "InitializerConfiguration");
  outputs =
      ("apiVersion", "string")
      ∷ ("initializers", "outputApi.admissionregistration.v1alpha1.Initializer[]")
      ∷ ("kind", "string")
      ∷ ("metadata", "outputApi.meta.v1.ObjectMeta")
      ∷ [];
  inputs =
      assign "apiVersion" "admissionregistration.k8s.io/v1alpha1"
      ∷ copy "initializers"
      ∷ assign "kind" "InitializerConfiguration"
      ∷ copy "metadata"
      ∷ [];
}

abbrev pub initializer_configuration_list : ResourceClass
initializer_configuration_list = record {
  name = ("admissionregistration.v1alpha1", "InitializerConfigurationList");
  token = "kubernetes:admissionregistration.k8s.io/v1alpha1:InitializerConfigurationList";
  args = ("admissionregistration.v1alpha1", "InitializerConfigurationList");
  outputs =
      ("apiVersion", "string")
      ∷ ("items", "outputApi.admissionregistration.v1alpha1.InitializerConfiguration[]")
      ∷ ("kind", "string")
      ∷ ("metadata", "outputApi.meta.v1.ListMeta")
      ∷ [];
  inputs =
      assign "apiVersion" "admissionregistration.k8s.io/v1alpha1"
      ∷ copy "items"
      ∷ assign "kind" "InitializerConfigurationList"
      ∷ copy "metadata"
      ∷ [];
}
