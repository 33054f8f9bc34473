-- ===== src/Types/Output/ApiregistrationV1beta1.antt =====
-- The interfaces of the namespace `apiregistration.v1beta1` of pack/nodejs/types/output.ts.
use pulumi_kubernetes.Common.{List, [], ◌∷◌}
use pulumi_kubernetes.Types.Shape.{Interface, interface, readonly, text, number, boolean, list, ref}

abbrev pub api_service : Interface
api_service = interface "APIService" (
    readonly "apiVersion" text
    ∷ readonly "kind" text
    ∷ readonly "metadata" (ref "meta.v1" "ObjectMeta")
    ∷ readonly "spec" (ref "apiregistration.v1beta1" "APIServiceSpec")
    ∷ readonly "status" (ref "apiregistration.v1beta1" "APIServiceStatus")
    ∷ [])

abbrev pub api_service_condition : Interface
api_service_condition = interface "APIServiceCondition" (
    readonly "lastTransitionTime" text
    ∷ readonly "message" text
    ∷ readonly "reason" text
    ∷ readonly "status" text
    ∷ readonly "type" text
    ∷ [])

abbrev pub api_service_list : Interface
api_service_list = interface "APIServiceList" (
    readonly "apiVersion" text
    ∷ readonly "items" (list (ref "apiregistration.v1beta1" "APIService"))
    ∷ readonly "kind" text
    ∷ readonly "metadata" (ref "meta.v1" "ListMeta")
    ∷ [])

abbrev pub api_service_spec : Interface
api_service_spec = interface "APIServiceSpec" (
    readonly "caBundle" text
    ∷ readonly "group" text
    ∷ readonly "groupPriorityMinimum" number
    ∷ readonly "insecureSkipTLSVerify" boolean
    ∷ readonly "service" (ref "apiregistration.v1beta1" "ServiceReference")
    ∷ readonly "version" text
    ∷ readonly "versionPriority" number
    ∷ [])

abbrev pub api_service_status : Interface
api_service_status =
    interface "APIServiceStatus"
      (readonly "conditions" (list (ref "apiregistration.v1beta1" "APIServiceCondition")) ∷ [])

abbrev pub service_reference : Interface
service_reference =
    interface "ServiceReference" (readonly "name" text ∷ readonly "namespace" text ∷ [])

abbrev pub interfaces : List Interface
interfaces =
    api_service ∷ api_service_condition ∷ api_service_list ∷ api_service_spec ∷ api_service_status
    ∷ service_reference ∷ []
