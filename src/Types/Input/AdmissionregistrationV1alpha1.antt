-- ===== src/Types/Input/AdmissionregistrationV1alpha1.antt =====
-- The interfaces of the namespace `admissionregistration.v1alpha1` of pack/nodejs/types/input.ts.
use pulumi_kubernetes.Common.{List, [], ◌∷◌}
use pulumi_kubernetes.Types.Shape.{
  Interface, guarded, interface, required, optional, text, list, ref,
}

abbrev pub initializer : Interface
initializer = interface "Initializer" (
    required "name" text
    ∷ optional "rules" (list (ref "admissionregistration.v1alpha1" "Rule"))
    ∷ [])

abbrev pub initializer_configuration : Interface
initializer_configuration =
    guarded "InitializerConfiguration" "admissionregistration.k8s.io/v1alpha1"
      "InitializerConfiguration"
      (optional "apiVersion" text
        ∷ optional "initializers" (list (ref "admissionregistration.v1alpha1" "Initializer"))
        ∷ optional "kind" text
        ∷ optional "metadata" (ref "meta.v1" "ObjectMeta")
        ∷ [])

abbrev pub initializer_configuration_list : Interface
initializer_configuration_list =
    guarded "InitializerConfigurationList" "admissionregistration.k8s.io/v1alpha1"
      "InitializerConfigurationList"
      (required "items" (list (ref "admissionregistration.v1alpha1" "InitializerConfiguration"))
        ∷ optional "apiVersion" text
        ∷ optional "kind" text
        ∷ optional "metadata" (ref "meta.v1" "ListMeta")
        ∷ [])

abbrev pub rule : Interface
rule = interface "Rule" (
    optional "apiGroups" (list text)
    ∷ optional "apiVersions" (list text)
    ∷ optional "resources" (list text)
    ∷ [])

abbrev pub interfaces : List Interface
interfaces = initializer ∷ initializer_configuration ∷ initializer_configuration_list ∷ rule ∷ []
