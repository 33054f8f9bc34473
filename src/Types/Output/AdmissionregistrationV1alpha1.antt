-- ===== src/Types/Output/AdmissionregistrationV1alpha1.antt =====
-- The interfaces of the namespace `admissionregistration.v1alpha1` of pack/nodejs/types/output.ts.
use pulumi_kubernetes.Common.{List, [], ◌∷◌}
use pulumi_kubernetes.Types.Shape.{Interface, interface, readonly, text, list, ref}

abbrev pub initializer : Interface
initializer = interface "Initializer" (
    readonly "name" text
    ∷ readonly "rules" (list (ref "admissionregistration.v1alpha1" "Rule"))
    ∷ [])

abbrev pub initializer_configuration : Interface
initializer_configuration = interface "InitializerConfiguration" (
    readonly "apiVersion" text
    ∷ readonly "initializers" (list (ref "admissionregistration.v1alpha1" "Initializer"))
    ∷ readonly "kind" text
    ∷ readonly "metadata" (ref "meta.v1" "ObjectMeta")
    ∷ [])

abbrev pub initializer_configuration_list : Interface
initializer_configuration_list = interface "InitializerConfigurationList" (
    readonly "apiVersion" text
    ∷ readonly "items" (list (ref "admissionregistration.v1alpha1" "InitializerConfiguration"))
    ∷ readonly "kind" text
    ∷ readonly "metadata" (ref "meta.v1" "ListMeta")
    ∷ [])

abbrev pub rule : Interface
rule = interface "Rule" (
    readonly "apiGroups" (list text)
    ∷ readonly "apiVersions" (list text)
    ∷ readonly "resources" (list text)
    ∷ [])

abbrev pub interfaces : List Interface
interfaces = initializer ∷ initializer_configuration ∷ initializer_configuration_list ∷ rule ∷ []
