-- ===== src/Types/Input/ApiregistrationV1beta1.antt =====
-- The interfaces of the namespace `apiregistration.v1beta1` of pack/nodejs/types/input.ts.
use pulumi_kubernetes.Common.{List, [], ◌∷◌}
use pulumi_kubernetes.Types.Shape.{
  Interface, guarded, interface, required, optional, text, number, boolean, list, ref,
}

abbrev pub api_service : Interface
api_service = guarded "APIService" "apiregistration/v1beta1" "APIService" (
    optional "apiVersion" text
    ∷ optional "kind" text
    ∷ optional "metadata" (ref "meta.v1" "ObjectMeta")
    ∷ optional "spec" (ref "apiregistration.v1beta1" "APIServiceSpec")
    ∷ optional "status" (ref "apiregistration.v1beta1" "APIServiceStatus")
    ∷ [])

abbrev pub api_service_condition : Interface
api_service_condition = interface "APIServiceCondition" (
    required "status" text
    ∷ required "type" text
    ∷ optional "lastTransitionTime" text
    ∷ optional "message" text
    ∷ optional "reason" text
    ∷ [])

abbrev pub api_service_list : Interface
api_service_list = guarded "APIServiceList" "apiregistration/v1beta1" "APIServiceList" (
    required "items" (list (ref "apiregistration.v1beta1" "APIService"))
    ∷ optional "apiVersion" text
    ∷ optional "kind" text
    ∷ optional "metadata" (ref "meta.v1" "ListMeta")
    ∷ [])

abbrev pub api_service_spec : Interface
api_service_spec = interface "APIServiceSpec" (
    required "caBundle" text
    ∷ required "groupPriorityMinimum" number
    ∷ required "service" (ref "apiregistration.v1beta1" "ServiceReference")
    ∷ required "versionPriority" number
    ∷ optional "group" text
    ∷ optional "insecureSkipTLSVerify" boolean
    ∷ optional "version" text
    ∷ [])

abbrev pub api_service_status : Interface
api_service_status =
    interface "APIServiceStatus"
      (optional "conditions" (list (ref "apiregistration.v1beta1" "APIServiceCondition")) ∷ [])

abbrev pub service_reference : Interface
service_reference =
    interface "ServiceReference" (optional "name" text ∷ optional "namespace" text ∷ [])

abbrev pub interfaces : List Interface
interfaces =
    api_service ∷ api_service_condition ∷ api_service_list ∷ api_service_spec ∷ api_service_status
    ∷ service_reference ∷ []
