-- ===== src/Types/Output/AdmissionregistrationV1beta1.antt =====
-- The interfaces of the namespace `admissionregistration.v1beta1` of pack/nodejs/types/output.ts.
use pulumi_kubernetes.Common.{List, [], ◌∷◌}
use pulumi_kubernetes.Types.Shape.{Interface, interface, readonly, text, list, ref}

abbrev pub mutating_webhook_configuration : Interface
mutating_webhook_configuration = interface "MutatingWebhookConfiguration" (
    readonly "apiVersion" text
    ∷ readonly "kind" text
    ∷ readonly "metadata" (ref "meta.v1" "ObjectMeta")
    ∷ readonly "webhooks" (list (ref "admissionregistration.v1beta1" "Webhook"))
    ∷ [])

abbrev pub mutating_webhook_configuration_list : Interface
mutating_webhook_configuration_list = interface "MutatingWebhookConfigurationList" (
    readonly "apiVersion" text
    ∷ readonly "items" (list (ref "admissionregistration.v1beta1" "MutatingWebhookConfiguration"))
    ∷ readonly "kind" text
    ∷ readonly "metadata" (ref "meta.v1" "ListMeta")
    ∷ [])

abbrev pub rule_with_operations : Interface
rule_with_operations = interface "RuleWithOperations" (
    readonly "apiGroups" (list text)
    ∷ readonly "apiVersions" (list text)
    ∷ readonly "operations" (list text)
    ∷ readonly "resources" (list text)
    ∷ [])

abbrev pub service_reference : Interface
service_reference =
    interface "ServiceReference"
      (readonly "name" text ∷ readonly "namespace" text ∷ readonly "path" text ∷ [])

abbrev pub validating_webhook_configuration : Interface
validating_webhook_configuration = interface "ValidatingWebhookConfiguration" (
    readonly "apiVersion" text
    ∷ readonly "kind" text
    ∷ readonly "metadata" (ref "meta.v1" "ObjectMeta")
    ∷ readonly "webhooks" (list (ref "admissionregistration.v1beta1" "Webhook"))
    ∷ [])

abbrev pub validating_webhook_configuration_list : Interface
validating_webhook_configuration_list = interface "ValidatingWebhookConfigurationList" (
    readonly "apiVersion" text
    ∷ readonly "items" (list (ref "admissionregistration.v1beta1" "ValidatingWebhookConfiguration"))
    ∷ readonly "kind" text
    ∷ readonly "metadata" (ref "meta.v1" "ListMeta")
    ∷ [])

abbrev pub webhook : Interface
webhook = interface "Webhook" (
    readonly "clientConfig" (ref "admissionregistration.v1beta1" "WebhookClientConfig")
    ∷ readonly "failurePolicy" text
    ∷ readonly "name" text
    ∷ readonly "namespaceSelector" (ref "meta.v1" "LabelSelector")
    ∷ readonly "rules" (list (ref "admissionregistration.v1beta1" "RuleWithOperations"))
    ∷ [])

abbrev pub webhook_client_config : Interface
webhook_client_config = interface "WebhookClientConfig" (
    readonly "caBundle" text
    ∷ readonly "service" (ref "admissionregistration.v1beta1" "ServiceReference")
    ∷ readonly "url" text
    ∷ [])

abbrev pub interfaces : List Interface
interfaces =
    mutating_webhook_configuration ∷ mutating_webhook_configuration_list ∷ rule_with_operations
    ∷ service_reference ∷ validating_webhook_configuration ∷ validating_webhook_configuration_list
    ∷ webhook ∷ webhook_client_config ∷ []
