-- ===== src/Types/Input/AdmissionregistrationV1beta1.antt =====
-- The interfaces of the namespace `admissionregistration.v1beta1` of pack/nodejs/types/input.ts.
use pulumi_kubernetes.Common.{List, [], ◌∷◌}
use pulumi_kubernetes.Types.Shape.{
  Interface, guarded, interface, required, optional, text, list, ref,
}

abbrev pub mutating_webhook_configuration : Interface
mutating_webhook_configuration =
    guarded "MutatingWebhookConfiguration" "admissionregistration.k8s.io/v1beta1"
      "MutatingWebhookConfiguration"
      (optional "apiVersion" text
        ∷ optional "kind" text
        ∷ optional "metadata" (ref "meta.v1" "ObjectMeta")
        ∷ optional "webhooks" (list (ref "admissionregistration.v1beta1" "Webhook"))
        ∷ [])

abbrev pub mutating_webhook_configuration_list : Interface
mutating_webhook_configuration_list =
    guarded "MutatingWebhookConfigurationList" "admissionregistration.k8s.io/v1beta1"
      "MutatingWebhookConfigurationList"
      (required "items" (list (ref "admissionregistration.v1beta1" "MutatingWebhookConfiguration"))
        ∷ optional "apiVersion" text
        ∷ optional "kind" text
        ∷ optional "metadata" (ref "meta.v1" "ListMeta")
        ∷ [])

abbrev pub rule_with_operations : Interface
rule_with_operations = interface "RuleWithOperations" (
    optional "apiGroups" (list text)
    ∷ optional "apiVersions" (list text)
    ∷ optional "operations" (list text)
    ∷ optional "resources" (list text)
    ∷ [])

abbrev pub service_reference : Interface
service_reference =
    interface "ServiceReference"
      (required "name" text ∷ required "namespace" text ∷ optional "path" text ∷ [])

abbrev pub validating_webhook_configuration : Interface
validating_webhook_configuration =
    guarded "ValidatingWebhookConfiguration" "admissionregistration.k8s.io/v1beta1"
      "ValidatingWebhookConfiguration"
      (optional "apiVersion" text
        ∷ optional "kind" text
        ∷ optional "metadata" (ref "meta.v1" "ObjectMeta")
        ∷ optional "webhooks" (list (ref "admissionregistration.v1beta1" "Webhook"))
        ∷ [])

abbrev pub validating_webhook_configuration_list : Interface
validating_webhook_configuration_list =
    guarded "ValidatingWebhookConfigurationList" "admissionregistration.k8s.io/v1beta1"
      "ValidatingWebhookConfigurationList"
      (required "items"
          (list (ref "admissionregistration.v1beta1" "ValidatingWebhookConfiguration"))
        ∷ optional "apiVersion" text
        ∷ optional "kind" text
        ∷ optional "metadata" (ref "meta.v1" "ListMeta")
        ∷ [])

abbrev pub webhook : Interface
webhook = interface "Webhook" (
    required "clientConfig" (ref "admissionregistration.v1beta1" "WebhookClientConfig")
    ∷ required "name" text
    ∷ optional "failurePolicy" text
    ∷ optional "namespaceSelector" (ref "meta.v1" "LabelSelector")
    ∷ optional "rules" (list (ref "admissionregistration.v1beta1" "RuleWithOperations"))
    ∷ [])

abbrev pub webhook_client_config : Interface
webhook_client_config = interface "WebhookClientConfig" (
    required "caBundle" text
    ∷ optional "service" (ref "admissionregistration.v1beta1" "ServiceReference")
    ∷ optional "url" text
    ∷ [])

abbrev pub interfaces : List Interface
interfaces =
    mutating_webhook_configuration ∷ mutating_webhook_configuration_list ∷ rule_with_operations
    ∷ service_reference ∷ validating_webhook_configuration ∷ validating_webhook_configuration_list
    ∷ webhook ∷ webhook_client_config ∷ []
