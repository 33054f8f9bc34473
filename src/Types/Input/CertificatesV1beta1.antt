-- ===== src/Types/Input/CertificatesV1beta1.antt =====
-- The interfaces of the namespace `certificates.v1beta1` of pack/nodejs/types/input.ts.
use pulumi_kubernetes.Common.{List, [], ◌∷◌}
use pulumi_kubernetes.Types.Shape.{
  Interface, guarded, interface, required, optional, text, any_object, list, ref,
}

abbrev pub certificate_signing_request : Interface
certificate_signing_request =
    guarded "CertificateSigningRequest" "certificates.k8s.io/v1beta1" "CertificateSigningRequest" (
      optional "apiVersion" text
      ∷ optional "kind" text
      ∷ optional "metadata" (ref "meta.v1" "ObjectMeta")
      ∷ optional "spec" (ref "certificates.v1beta1" "CertificateSigningRequestSpec")
      ∷ optional "status" (ref "certificates.v1beta1" "CertificateSigningRequestStatus")
      ∷ [])

abbrev pub certificate_signing_request_condition : Interface
certificate_signing_request_condition = interface "CertificateSigningRequestCondition" (
    required "type" text
    ∷ optional "lastUpdateTime" text
    ∷ optional "message" text
    ∷ optional "reason" text
    ∷ [])

abbrev pub certificate_signing_request_list : Interface
certificate_signing_request_list =
    guarded "CertificateSigningRequestList" "certificates.k8s.io/v1beta1"
      "CertificateSigningRequestList"
      (required "items" (list (ref "certificates.v1beta1" "CertificateSigningRequest"))
        ∷ optional "apiVersion" text
        ∷ optional "kind" text
        ∷ optional "metadata" (ref "meta.v1" "ListMeta")
        ∷ [])

abbrev pub certificate_signing_request_spec : Interface
certificate_signing_request_spec = interface "CertificateSigningRequestSpec" (
    required "request" text
    ∷ optional "extra" any_object
    ∷ optional "groups" (list text)
    ∷ optional "uid" text
    ∷ optional "usages" (list text)
    ∷ optional "username" text
    ∷ [])

abbrev pub certificate_signing_request_status : Interface
certificate_signing_request_status = interface "CertificateSigningRequestStatus" (
    optional "certificate" text
    ∷ optional "conditions" (list (ref "certificates.v1beta1" "CertificateSigningRequestCondition"))
    ∷ [])

abbrev pub interfaces : List Interface
interfaces =
    certificate_signing_request ∷ certificate_signing_request_condition
    ∷ certificate_signing_request_list ∷ certificate_signing_request_spec
    ∷ certificate_signing_request_status ∷ []
