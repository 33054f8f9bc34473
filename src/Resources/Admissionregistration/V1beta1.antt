-- ===== src/Resources/Admissionregistration/V1beta1.antt =====
-- The classes of the namespace `admissionregistration.v1beta1` of pack/nodejs/provider.ts.
use pulumi_kubernetes.Common.{[], ◌∷◌}
use pulumi_kubernetes.Resources.Class.{ResourceClass, assign, copy}

abbrev pub mutating_webhook_configuration : ResourceClass
mutating_webhook_configuration = record {
  name = ("admissionregistration.v1beta1", "MutatingWebhookConfiguration");
  token = "kubernetes:admissionregistration.k8s.io/v1beta1:MutatingWebhookConfiguration";
  args = ("admissionregistration.v1beta1", "MutatingWebhookConfiguration");
  outputs =
      ("apiVersion", "string")
      ∷ ("kind", "string")
      ∷ ("metadata", "outputApi.meta.v1.ObjectMeta")
      ∷ ("webhooks", "outputApi.admissionregistration.v1beta1.Webhook[]")
      ∷ [];
  inputs =
      assign "apiVersion" "admissionregistration.k8s.io/v1beta1"
      ∷ assign "kind" "MutatingWebhookConfiguration"
      ∷ copy "metadata"
      ∷ copy "webhooks"
      ∷ [];
}

abbrev pub mutating_webhook_configuration_list : ResourceClass
mutating_webhook_configuration_list = record {
  name = ("admissionregistration.v1beta1", "MutatingWebhookConfigurationList");
  token = "kubernetes:admissionregistration.k8s.io/v1beta1:MutatingWebhookConfigurationList";
  args = ("admissionregistration.v1beta1", "MutatingWebhookConfigurationList");
  outputs =
      ("apiVersion", "string")
      ∷ ("items", "outputApi.admissionregistration.v1beta1.MutatingWebhookConfiguration[]")
      ∷ ("kind", "string")
      ∷ ("metadata", "outputApi.meta.v1.ListMeta")
      ∷ [];
  inputs =
      assign "apiVersion" "admissionregistration.k8s.io/v1beta1"
      ∷ copy "items"
      ∷ assign "kind" "MutatingWebhookConfigurationList"
      ∷ copy "metadata"
      ∷ [];
}

abbrev pub validating_webhook_configuration : ResourceClass
validating_webhook_configuration = record {
  name = ("admissionregistration.v1beta1", "ValidatingWebhookConfiguration");
  token = "kubernetes:admissionregistration.k8s.io/v1beta1:ValidatingWebhookConfiguration";
  args = ("admissionregistration.v1beta1", "ValidatingWebhookConfiguration");
  outputs =
      ("apiVersion", "string")
      ∷ ("kind", "string")
      ∷ ("metadata", "outputApi.meta.v1.ObjectMeta")
      ∷ ("webhooks", "outputApi.admissionregistration.v1beta1.Webhook[]")
      ∷ [];
  inputs =
      assign "apiVersion" "admissionregistration.k8s.io/v1beta1"
      ∷ assign "kind" "ValidatingWebhookConfiguration"
      ∷ copy "metadata"
      ∷ copy "webhooks"
      ∷ [];
}

abbrev pub validating_webhook_configuration_list : ResourceClass
validating_webhook_configuration_list = record {
  name = ("admissionregistration.v1beta1", "ValidatingWebhookConfigurationList");
  token = "kubernetes:admissionregistration.k8s.io/v1beta1:ValidatingWebhookConfigurationList";
  args = ("admissionregistration.v1beta1", "ValidatingWebhookConfigurationList");
  outputs =
      ("apiVersion", "string")
      ∷ ("items", "outputApi.admissionregistration.v1beta1.ValidatingWebhookConfiguration[]")
      ∷ ("kind", "string")
      ∷ ("metadata", "outputApi.meta.v1.ListMeta")
      ∷ [];
  inputs =
      assign "apiVersion" "admissionregistration.k8s.io/v1beta1"
      ∷ copy "items"
      ∷ assign "kind" "ValidatingWebhookConfigurationList"
      ∷ copy "metadata"
      ∷ [];
}
